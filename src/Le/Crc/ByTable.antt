-- ===== src/Le/Crc/ByTable.antt =====
-- The table computes the bitwise CRC, a byte at a time.
use Prim.Native.Nat.{bit_and, bit_xor}
use codetooth.Prelude.{
  ℕ, ◌+◌, ◌*◌, ◌/◌, ◌%◌, ◌^◌, ◌<◌, ◌≡◌, refl, sym, ap, ap₂, ◌∙◌, true, List, [], ◌∷◌, arith, ◌==◌,
  ==_iff, get_or, All,
}
use codetooth.Prelude.Bits.{and-mask, xor_assoc, xor_self, xor-zero, xor_comm, xor-lt}
use codetooth.Prelude.Table.{all_below, all_below_sound}
use codetooth.Le.Crc.{calc_bits, calc_bytes, calc_crc, lut_bytes, crcgen_lut}
use codetooth.Le.Crc.Lut.{crc_lut}
use codetooth.Le.Crc.Linear.{calc_bits-lt, calc_bits-xor, calc_bits-lt, calc_bits_shift}

-- Each word of the table is the CRC of its index from an empty register.
table : all_below 256 (λ k. calc_bits 8 0 k == get_or crc_lut k 0) ≡ true
unfolding all_below calc_bits
table = refl

crc_lut_lem : (k : ℕ) → k < 256 → calc_bits 8 0 k ≡ get_or crc_lut k 0
crc_lut_lem k h = (==_iff _ _).0 (all_below_sound 256 _ k table h)

calc_bits_byte :
    (s byte : ℕ)
    → s < 2 ^ 24
    → byte < 256
    → calc_bits 8 s byte ≡ bit_xor (s / 2 ^ 8) (get_or crc_lut (bit_xor byte (bit_and s 0xff)) 0)
calc_bits_byte s byte h small =
    ap₂ (calc_bits 8) (sym (xor-zero s)) split
    ∙ calc_bits-xor 8 s 0 (s % 256) (bit_xor byte (s % 256)) h (omega arith)
    ∙ ap₂ bit_xor shifted looked_up
  where
    split : byte ≡ bit_xor (s % 256) (bit_xor byte (s % 256))
    split = sym (
        xor_comm (s % 256) (bit_xor byte (s % 256))
        ∙ xor_assoc byte (s % 256) (s % 256)
        ∙ ap (bit_xor byte) (xor_self (s % 256))
        ∙ xor-zero byte)

    shifted : calc_bits 8 s (s % 256) ≡ s / 2 ^ 8
    shifted =
        let whole : s ≡ s / 2 ^ 8 * 2 ^ 8 + s % 256 = omega arith in
        ap (λ (x : ℕ). calc_bits 8 x (s % 256)) whole
        ∙ calc_bits_shift 8 (s / 2 ^ 8) (s % 256) (omega arith) (omega arith)

    looked_up :
        calc_bits 8 0 (bit_xor byte (s % 256)) ≡ get_or crc_lut (bit_xor byte (bit_and s 0xff)) 0
    looked_up =
        crc_lut_lem _ (xor-lt 8 byte (s % 256) small (omega arith))
        ∙ ap (λ (m : ℕ). get_or crc_lut (bit_xor byte m) 0) (sym (and-mask 8 s))

-- The register and every byte within range: the two loops agree.
lut_bytes-calc_bytes :
    (s : ℕ) (bytes : List ℕ)
    → s < 2 ^ 24
    → All (λ b. b < 256) bytes
    → lut_bytes s bytes ≡ calc_bytes s bytes
unfolding lut_bytes calc_bytes
lut_bytes-calc_bytes s [] h all = refl
lut_bytes-calc_bytes s (byte ∷ bytes) h all =
    let one = calc_bits_byte s byte h all.0 in
    ap (λ (x : ℕ). lut_bytes x bytes) (sym one)
    ∙ lut_bytes-calc_bytes (calc_bits 8 s byte) bytes (calc_bits-lt 8 s byte h) all.1

pub register-lt : (crc_init : ℕ) → bit_and crc_init 0xffffff < 2 ^ 24
register-lt crc_init = rw (and-mask 24 crc_init) (omega arith)

-- The CRC by the table of 256 words is the CRC computed a bit at a time, for every initial value
-- and every list of bytes.
pub crcgen_lut-eq-calc_crc :
    (crc_init : ℕ) (bytes : List ℕ)
    → All (λ b. b < 256) bytes
    → crcgen_lut crc_init bytes ≡ calc_crc crc_init bytes
unfolding crcgen_lut calc_crc
crcgen_lut-eq-calc_crc crc_init bytes all =
    lut_bytes-calc_bytes (bit_and crc_init 0xffffff) bytes (register-lt crc_init) all

calc_bytes-lt : (s : ℕ) (bytes : List ℕ) → s < 2 ^ 24 → calc_bytes s bytes < 2 ^ 24
unfolding calc_bytes
calc_bytes-lt s [] h = h
calc_bytes-lt s (b ∷ bytes) h = calc_bytes-lt (calc_bits 8 s b) bytes (calc_bits-lt 8 s b h)

pub calc_crc-lt : (crc_init : ℕ) (bytes : List ℕ) → calc_crc crc_init bytes < 2 ^ 24
unfolding calc_crc
calc_crc-lt crc_init bytes = calc_bytes-lt (bit_and crc_init 0xffffff) bytes (register-lt crc_init)
