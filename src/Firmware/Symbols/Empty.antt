-- ===== src/Firmware/Symbols/Empty.antt =====
-- cb_le_promisc: empty data packets in unpacked symbols, whose access addresses are counted until one
-- is followed.
use codetooth.Prelude.{
  ℕ, zero, suc, ◌+◌, ◌-◌, ◌%◌, bit_xor, ltb, ◌==◌, if◌then◌else◌, Bool, true, false, ◌&&◌, ◌||◌,
  Option, none, some, List, [], ◌∷◌, ◌++◌, get_or, drop,
}
use codetooth.Usb.Packet.{le_packet}
use codetooth.Le.Tables.{whitening}
use codetooth.Firmware.State.{Firmware, SeenAddress, promisc_follow}
use codetooth.Firmware.Enqueue.{enqueue}
use codetooth.Firmware.Follow.{byte, set_access_address}
use codetooth.Firmware.Promisc.{see_aa, promisc_state, bytes_of}
use codetooth.Firmware.Transmit.{whitening_start}
use codetooth.Firmware.Sync.{be_word}
use codetooth.Firmware.Symbols.{gather_plain_bytes, gather_white_bytes}

-- The header of an empty data packet, with each value of its bits NESN and SN.
abbrev pub desired : List (List ℕ)
desired =
    (1 ∷ 0 ∷ 0 ∷ 0 ∷ 0 ∷ 0 ∷ 0 ∷ 0 ∷ 0 ∷ 0 ∷ 0 ∷ 0 ∷ 0 ∷ 0 ∷ 0 ∷ 0 ∷ [])
    ∷ (1 ∷ 0 ∷ 0 ∷ 1 ∷ 0 ∷ 0 ∷ 0 ∷ 0 ∷ 0 ∷ 0 ∷ 0 ∷ 0 ∷ 0 ∷ 0 ∷ 0 ∷ 0 ∷ [])
    ∷ (1 ∷ 0 ∷ 1 ∷ 0 ∷ 0 ∷ 0 ∷ 0 ∷ 0 ∷ 0 ∷ 0 ∷ 0 ∷ 0 ∷ 0 ∷ 0 ∷ 0 ∷ 0 ∷ [])
    ∷ (1 ∷ 0 ∷ 1 ∷ 1 ∷ 0 ∷ 0 ∷ 0 ∷ 0 ∷ 0 ∷ 0 ∷ 0 ∷ 0 ∷ 0 ∷ 0 ∷ 0 ∷ 0 ∷ [])
    ∷ []

-- `desired[i][j] ^= whitening[idx]`
unfoldable pub whiten_bits : (idx : ℕ) → List ℕ → List ℕ
whiten_bits idx [] = []
whiten_bits idx (bit ∷ bits) =
    bit_xor bit (get_or whitening idx 0) ∷ whiten_bits ((idx + 1) % 127) bits

unfoldable pub whiten_desired : (idx : ℕ) → List (List ℕ) → List (List ℕ)
unfolding whiten_bits
whiten_desired idx [] = []
whiten_desired idx (bits ∷ others) = whiten_bits idx bits ∷ whiten_desired idx others

-- Whether the symbols start with the bits, and with any of four.
unfoldable pub starts_with : (symbols bits : List ℕ) → Bool
starts_with symbols [] = true
starts_with symbols (bit ∷ bits) = get_or symbols 0 0 == bit && starts_with (drop 1 symbols) bits

unfoldable pub any_match : (symbols : List ℕ) → List (List ℕ) → Bool
unfolding starts_with
any_match symbols [] = false
any_match symbols (bits ∷ others) = starts_with symbols bits || any_match symbols others

-- The ten bytes from the 32 symbols before place `i` on, over the front of idle_rxbuf. `i` is 751 at
-- most, so that no symbol beyond the 800 is read.
unfoldable pub empty_packet : (idx i : ℕ) (unpacked idle_rxbuf : List ℕ) → List ℕ
unfolding gather_plain_bytes gather_white_bytes
empty_packet idx i unpacked idle_rxbuf =
    gather_plain_bytes 4 (drop (i - 32) unpacked)
    ++ (gather_white_bytes 6 idx (drop i unpacked) ++ drop 10 idle_rxbuf)

-- The address is put together as the words of bt_le_sync are.
unfoldable pub see_packet : (packet : List ℕ) → Firmware → Firmware
see_packet packet s =
    let aa = be_word (byte packet 3) (byte packet 2) (byte packet 1) (byte packet 0) in
    (enqueue le_packet packet
      (record s { promisc = record (s.promisc) { active_aa = see_aa aa s.promisc.active_aa } })).1

-- One round of the search, at place `i`: idle_rxbuf and the state.
unfoldable pub look_at : (idx i : ℕ) (unpacked : List ℕ) → List ℕ × Firmware → List ℕ × Firmware
unfolding any_match whiten_desired empty_packet see_packet
look_at idx i unpacked (idle_rxbuf, s) =
    if any_match (drop i unpacked) (whiten_desired idx desired)
    then (let packet = empty_packet idx i unpacked idle_rxbuf in (packet, see_packet packet s))
    else (idle_rxbuf, s)

-- `for (i = 32; i < (DMA_SIZE*8*2 - 32 - 16); i++)`, with `left` rounds to go.
pub look_from : (left idx i : ℕ) (unpacked : List ℕ) → List ℕ × Firmware → List ℕ × Firmware
unfolding look_at
look_from zero idx i unpacked r = r
look_from (suc left) idx i unpacked r =
    look_from left idx (i + 1) unpacked (look_at idx i unpacked r)

-- The first address of the table that was counted more than three times.
unfoldable pub counted_often : List SeenAddress → Option ℕ
counted_often [] = none
counted_often (e ∷ es) = let rest = counted_often es in if ltb 3 e.count then some e.aa else rest

-- The functions that `data_cb` points to.
pub data DataCb : Type 0 where
  follow_symbols empty_symbols : DataCb

-- What cb_le_promisc returns, and leaves in `data_cb` and the state.
pub record Looked : Type 0 where
  pub goes_on : Bool
  pub data_cb : DataCb
  pub fw : Firmware

unfoldable pub follow_counted : Option ℕ → Firmware → Looked
unfolding promisc_state
follow_counted none s = record { goes_on = true; data_cb = empty_symbols; fw = s }
follow_counted (some aa) s =
    let le = record (set_access_address aa s.le) { crc_verify = false } in
    record {
      goes_on = false;
      data_cb = follow_symbols;
      fw = promisc_state 0 (bytes_of aa) 4 (record s { le = le; packet_cb = promisc_follow });
    }

-- `data_cb` is this function when it is called.
unfoldable pub cb_le_promisc : (unpacked idle_rxbuf : List ℕ) → Firmware → Looked
unfolding look_from counted_often follow_counted
cb_le_promisc unpacked idle_rxbuf s =
    let r = look_from 720 (whitening_start s.radio.channel) 32 unpacked (idle_rxbuf, s) in
    follow_counted (counted_often (r.1).promisc.active_aa) (r.1)
