-- ===== src/Firmware/Transmit.antt =====
-- le_transmit and bt_slave_le: the bytes that go to the radio. The radio sends the highest bit of a
-- byte first, a Low Energy packet the lowest.
pub mod Whitened
pub mod Pieces
use codetooth.Prelude.{
  ℕ, zero, suc, ◌+◌, ◌-◌, ◌%◌, bit_and, bit_or, bit_xor, ◌<<<◌, ◌>>>◌, ◌==◌, if◌then◌else◌, List,
  [], ◌∷◌, ◌++◌, get_or, take, drop,
}
use codetooth.Le.Tables.{whitening, whitening_index}
use codetooth.Le.Channel.{channel_index}
use codetooth.Le.Crc.{calc_crc}

-- `txbuf[i] |= (byte & 1) << (7 - j); byte >>= 1` for the four bytes of the access address.
pub mirror : (left j byte out : ℕ) → ℕ
mirror zero j byte out = out
mirror (suc left) j byte out =
    mirror left (j + 1) (byte >>> 1) (bit_or out (bit_and byte 1 <<< (7 - j)))

-- The same with each bit whitened; `idx` goes on to the next byte.
pub whiten : (left j idx byte out : ℕ) → ℕ
whiten zero j idx byte out = out
whiten (suc left) j idx byte out =
    whiten left (j + 1) ((idx + 1) % 127) (byte >>> 1)
      (bit_or out (bit_xor (bit_and byte 1) (get_or whitening idx 0) <<< (7 - j)))

unfoldable pub whiten_all : (idx : ℕ) → List ℕ → List ℕ
unfolding whiten
whiten_all idx [] = []
whiten_all idx (byte ∷ bytes) = whiten 8 0 idx byte 0 ∷ whiten_all ((idx + 8) % 127) bytes

pub address_bytes : (left aa : ℕ) → List ℕ
unfolding mirror
address_bytes zero aa = []
address_bytes (suc left) aa = mirror 8 0 (bit_and aa 0xff) 0 ∷ address_bytes left (aa >>> 8)

-- `btle_channel_index(channel-2402)`, whose argument is cut to 8 bits, also below 2402.
abbrev pub index_of : (channel : ℕ) → ℕ
index_of channel = channel_index (channel + 65536 - 2402)

-- Where the whitening of a channel starts.
abbrev pub whitening_start : (channel : ℕ) → ℕ
whitening_start channel = get_or whitening_index (index_of channel) 0

-- `txbuf`, of which `len` bytes and the address are sent. Beyond 60 bytes of data the source writes
-- past its end.
unfoldable pub txbuf_of : (aa channel : ℕ) → List ℕ → List ℕ
unfolding address_bytes whiten_all
txbuf_of aa channel bytes = address_bytes 4 aa ++ whiten_all (whitening_start channel) bytes

-- The value for SYNCH: by then `aa` has been shifted right four times by 8.
unfoldable pub preamble_of : (aa : ℕ) → ℕ
preamble_of aa = if bit_and (aa >>> 8 >>> 8 >>> 8 >>> 8) 1 == 0 then 0x5555 else 0xaaaa

-- The loop that writes FIFOREG in pieces of at most 16 bytes; `fuel` is the length.
pub fifo_pieces : (fuel : ℕ) → List ℕ → List (List ℕ)
fifo_pieces zero buf = []
fifo_pieces (suc fuel) [] = []
fifo_pieces (suc fuel) (byte ∷ buf) = take 16 (byte ∷ buf) ∷ fifo_pieces fuel (drop 16 (byte ∷ buf))

-- `adv_ind` of bt_slave_le before its CRC: the header, the address of the user, and flags.
abbrev pub adv_ind : (slave_mac_address : List ℕ) → List ℕ
adv_ind mac =
    0x00
    ∷ 0x09
    ∷ get_or mac 5 0
    ∷ get_or mac 4 0
    ∷ get_or mac 3 0
    ∷ get_or mac 2 0
    ∷ get_or mac 1 0
    ∷ get_or mac 0 0
    ∷ 0x02
    ∷ 0x01
    ∷ 0x05
    ∷ []

-- `(calc_crc >> 0) & 0xff` and the two bytes above it.
abbrev pub crc_bytes : ℕ → List ℕ
crc_bytes crc = bit_and (crc >>> 0) 0xff ∷ bit_and (crc >>> 8) 0xff ∷ bit_and (crc >>> 16) 0xff ∷ []

-- The packet that bt_slave_le hands to le_transmit on each channel.
unfoldable pub slave_packet : (crc_init_reversed : ℕ) (slave_mac_address : List ℕ) → List ℕ
slave_packet init mac = adv_ind mac ++ crc_bytes (calc_crc init (adv_ind mac))
