-- ===== src/Le/Crc.antt =====
-- The CRC of Low Energy packets, as bluetooth_le.c computes it: a bit at a time, backwards, and a
-- byte at a time through a table. The list is the `len` bytes at `data`.
pub mod Lut
pub mod Linear
pub mod ByTable
pub mod Backward
use Lut.{crc_lut}
use codetooth.Prelude.{
  ℕ, zero, suc, ◌+◌, ◌-◌, ◌*◌, bit_and, bit_or, bit_xor, ◌<<<◌, ◌>>>◌, ◌==◌, if◌then◌else◌, List,
  [], ◌∷◌, get_or,
}
use mathlib.Core.List.{reverse}
use codetooth.Le.Reversal.{reverse_bits}

abbrev pub lfsr_mask : ℕ
lfsr_mask = 0x5a6000

-- One round of the inner loop: the next state. The byte is shifted beside it.
pub calc_bit : (state cur : ℕ) → ℕ
calc_bit state cur =
    if bit_and (bit_xor state cur) 1 == 0
    then state >>> 1
    else bit_xor (bit_or (state >>> 1) (1 <<< 23)) lfsr_mask

pub calc_bits : (rounds state cur : ℕ) → ℕ
unfolding calc_bit
calc_bits zero state cur = state
calc_bits (suc n) state cur = calc_bits n (calc_bit state cur) (cur >>> 1)

pub calc_bytes : (state : ℕ) (bytes : List ℕ) → ℕ
unfolding calc_bits
calc_bytes state [] = state
calc_bytes state (byte ∷ bytes) = calc_bytes (calc_bits 8 state byte) bytes

unfoldable pub calc_crc : (crc_init : ℕ) (bytes : List ℕ) → ℕ
unfolding calc_bytes
calc_crc crc_init bytes = calc_bytes (bit_and crc_init 0xffffff) bytes

-- One round of the loop that runs the register backwards; `cur` is the whole byte, `j` the round.
pub back_bit : (state cur j : ℕ) → ℕ
back_bit state cur j =
    let top_bit = state >>> 23 in
    let shifted =
      bit_or (bit_and (state <<< 1) 0xffffff) (bit_xor top_bit (bit_and (cur >>> (7 - j)) 1)) in
    if top_bit == 0 then shifted else bit_xor shifted 0xb4c000

pub back_bits : (rounds j state cur : ℕ) → ℕ
unfolding back_bit
back_bits zero j state cur = state
back_bits (suc n) j state cur = back_bits n (j + 1) (back_bit state cur j) cur

-- `for (i = len - 1; i >= 0; --i)`: the bytes come last first.
pub back_bytes : (state : ℕ) (bytes_last_first : List ℕ) → ℕ
unfolding back_bits
back_bytes state [] = state
back_bytes state (byte ∷ bytes) = back_bytes (back_bits 8 0 state byte) bytes

unfoldable pub reverse_crc : (crc : ℕ) (bytes : List ℕ) → ℕ
unfolding back_bytes reverse_bits
reverse_crc crc bytes = reverse_bits 24 (back_bytes crc (reverse bytes))

pub lut_bytes : (state : ℕ) (bytes : List ℕ) → ℕ
lut_bytes state [] = state
lut_bytes state (byte ∷ bytes) =
    let key = bit_xor byte (bit_and state 0xff) in
    lut_bytes (bit_xor (state >>> 8) (get_or crc_lut key 0)) bytes

unfoldable pub crcgen_lut : (crc_init : ℕ) (bytes : List ℕ) → ℕ
unfolding lut_bytes
crcgen_lut crc_init bytes = lut_bytes (bit_and crc_init 0xffffff) bytes
