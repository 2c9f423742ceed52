-- ===== src/Firmware/Symbols.antt =====
-- bt_generic_le and cb_follow_le: symbols unpacked to one bit each, and the packet of a known access
-- address among them.
pub mod Search
pub mod Empty
pub mod Spelled
pub mod Heard
pub mod Found
pub mod Chosen
use codetooth.Prelude.{
  ℕ, zero, suc, ◌+◌, ◌*◌, ◌%◌, u8, bit_and, bit_or, bit_xor, ◌<<<◌, ◌>>>◌, ◌==◌, if◌then◌else◌,
  Bool, true, false, not, ◌&&◌, Option, none, some, List, [], ◌∷◌, ◌++◌, get_or, take, drop,
}
use codetooth.Usb.Packet.{le_packet}
use codetooth.Le.State.{LeState}
use codetooth.Le.Tables.{whitening}
use codetooth.Firmware.State.{Firmware}
use codetooth.Firmware.Enqueue.{enqueue}
use codetooth.Firmware.Transmit.{whitening_start}
use codetooth.Firmware.Sync.{crc_matches, call_packet_cb}

-- The bits of a byte received, the highest first: `(idle_rxbuf[i] & 0x80) >> 7`, and a shift.
pub unpack_bits : (left byte : ℕ) → List ℕ
unpack_bits zero byte = []
unpack_bits (suc left) byte = (bit_and byte 0x80 >>> 7) ∷ unpack_bits left (u8 (byte <<< 1))

pub unpack_all : List ℕ → List ℕ
unfolding unpack_bits
unpack_all [] = []
unpack_all (byte ∷ bytes) = unpack_bits 8 byte ++ unpack_all bytes

-- The 800 symbols of the buffer before and of the 50 bytes of this one.
unfoldable pub unpack : (unpacked idle_rxbuf : List ℕ) → List ℕ
unfolding unpack_all
unpack unpacked idle_rxbuf = drop 400 unpacked ++ unpack_all idle_rxbuf

-- `access_address >>= 1; access_address |= (unpacked[i] << 31)`
abbrev pub shift_symbol : (access_address bit : ℕ) → ℕ
shift_symbol access_address bit = bit_or (access_address >>> 1) (bit <<< 31)

-- The loop before the search, over the first symbols.
pub preload : (left access_address : ℕ) → List ℕ → ℕ
preload zero access_address bits = access_address
preload (suc left) access_address [] = access_address
preload (suc left) access_address (bit ∷ bits) = preload left (shift_symbol access_address bit) bits

-- The search: the number of symbols before the address, from the symbols after the first 31.
pub search_aa : (left wanted access_address start : ℕ) → List ℕ → Option ℕ
search_aa zero wanted access_address start bits = none
search_aa (suc left) wanted access_address start [] = none
search_aa (suc left) wanted access_address start (bit ∷ bits) =
    let shifted = shift_symbol access_address bit in
    let rest = search_aa left wanted shifted (start + 1) bits in
    if shifted == wanted then some start else rest

-- 401 places: `i` goes from 31 to DMA_SIZE * 8 + 31.
unfoldable pub find_aa : (wanted : ℕ) (unpacked : List ℕ) → Option ℕ
unfolding preload search_aa
find_aa wanted unpacked = search_aa 401 wanted (preload 31 0 unpacked) 0 (drop 31 unpacked)

-- A byte from eight symbols, the first the lowest, plain and with the whitening taken off.
pub gather : (left k byte : ℕ) → List ℕ → ℕ
gather zero k byte bits = byte
gather (suc left) k byte bits =
    gather left (k + 1) (bit_or byte (get_or bits 0 0 <<< k)) (drop 1 bits)

pub gather_white : (left k idx byte : ℕ) → List ℕ → ℕ
gather_white zero k idx byte bits = byte
gather_white (suc left) k idx byte bits =
    gather_white left (k + 1) ((idx + 1) % 127)
      (bit_or byte (bit_xor (get_or bits 0 0) (get_or whitening idx 0) <<< k)) (drop 1 bits)

pub gather_plain_bytes : (left : ℕ) → List ℕ → List ℕ
unfolding gather
gather_plain_bytes zero bits = []
gather_plain_bytes (suc left) bits = gather 8 0 0 bits ∷ gather_plain_bytes left (drop 8 bits)

pub gather_white_bytes : (left idx : ℕ) → List ℕ → List ℕ
unfolding gather_white
gather_white_bytes zero idx bits = []
gather_white_bytes (suc left) idx bits =
    gather_white 8 0 idx 0 bits ∷ gather_white_bytes left ((idx + 8) % 127) (drop 8 bits)

-- The 46 bytes of the packet, and what the buffer of 50 held behind them. The last symbol read is
-- number 400 + 46 * 8, so the test for the end of `unpacked` never fails.
unfoldable pub follow_packet : (idx : ℕ) (bits idle_rxbuf : List ℕ) → List ℕ
unfolding gather_plain_bytes gather_white_bytes
follow_packet idx bits idle_rxbuf =
    gather_plain_bytes 4 bits ++ (gather_white_bytes 42 idx (drop 32 bits) ++ drop 46 idle_rxbuf)

-- `beyond` is the memory behind idle_rxbuf, which the CRC of a packet whose length is over 43 reads.
unfoldable pub on_symbols : (packet beyond : List ℕ) → Firmware → Firmware
on_symbols packet beyond s =
    if s.le.crc_verify && not (crc_matches s.le (packet ++ beyond))
    then s
    else (let queued = (enqueue le_packet packet s).1 in
        call_packet_cb queued.packet_cb packet queued)

abbrev pub found_symbols : Option ℕ → (unpacked idle_rxbuf beyond : List ℕ) → Firmware → Firmware
found_symbols none unpacked idle_rxbuf beyond s = s
found_symbols (some start) unpacked idle_rxbuf beyond s =
    on_symbols (follow_packet (whitening_start s.radio.channel) (drop start unpacked) idle_rxbuf)
      beyond s

unfoldable pub cb_follow_le : (unpacked idle_rxbuf beyond : List ℕ) → Firmware → Firmware
unfolding find_aa follow_packet on_symbols
cb_follow_le unpacked idle_rxbuf beyond s =
    found_symbols (find_aa s.le.access_address unpacked) unpacked idle_rxbuf beyond s
