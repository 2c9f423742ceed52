-- ===== src/Le/Crc/Backward.antt =====
-- Running the register backwards undoes the CRC, so that a CRC seen on the air gives its initial
-- value away.
use Prim.Native.Nat.{bit_and, bit_or, bit_xor}
use mathlib.Core.List.{reverse, reverse-append}
use codetooth.Prelude.{
  ℕ, zero, suc, ◌+◌, ◌-◌, ◌*◌, ◌/◌, ◌%◌, ◌^◌, ◌<◌, ◌≡◌, refl, sym, ap, ap₂, ◌∙◌, inl, inr, List, [],
  ◌∷◌, ◌++◌, arith,
}
use codetooth.Prelude.Bits.{
  and-mask, xor_assoc, xor_comm, xor_cancel, xor-zero, zero-xor, xor-lt, xor_fields, or_fields,
  bit_xor_step,
}
use codetooth.Le.Reversal.{reverse_bits}
use codetooth.Le.Crc.{
  calc_bit, calc_bits, calc_bytes, calc_crc, back_bit, back_bits, back_bytes, reverse_crc,
}
use codetooth.Le.Crc.Linear.{poly, bit_cases, calc_bit_lem, calc_bits-lt}
use codetooth.Le.Crc.ByTable.{register-lt}
use native.Mathlib.Nat.{div-div-eq-div-mul, pow-succ'}

-- The register after a round that fed back: its top bit is set above `(s / 2) ^ 0x5a6000`.
fed : (e : ℕ) → e < 2 ^ 23 → bit_xor e poly ≡ 2 ^ 23 + bit_xor e 0x5a6000
fed e h =
    sym (xor_assoc e 0x5a6000 0x800000)
    ∙ xor_comm (bit_xor e 0x5a6000) 0x800000
    ∙ xor_fields 23 1 (bit_xor e 0x5a6000) (xor-lt 23 e 0x5a6000 h (omega arith))

-- A backward round on a register whose top bit is clear, and on one whose top bit is set. `d` is
-- the bit of the byte.
module _ (cur j d : ℕ) (bit : bit_and (cur / 2 ^ (7 - j)) 1 ≡ d) (digit : d < 2) where
  back_plain : (x : ℕ) → x < 2 ^ 23 → back_bit x cur j ≡ x * 2 + d
  unfolding back_bit
  back_plain x h =
      let top : x / 2 ^ 23 ≡ 0 = omega arith in
      rw (top, bit, and-mask 24 (x * 2)) (ap₂ bit_or whole (zero-xor d) ∙ or_fields 1 x d digit)
    where
      whole : x * 2 % 2 ^ 24 ≡ x * 2 ^ 1
      whole = omega arith

  back_fed :
      (y : ℕ) → y < 2 ^ 23 → back_bit (2 ^ 23 + y) cur j ≡ bit_xor y 0x5a6000 * 2 + (1 + d) % 2
  unfolding back_bit
  back_fed y h =
      let top : (2 ^ 23 + y) / 2 ^ 23 ≡ 1 = omega arith in
      rw (top, bit, and-mask 24 ((2 ^ 23 + y) * 2))
        (ap (λ (t : ℕ). bit_xor t 0xb4c000)
            (ap₂ bit_or whole flipped ∙ or_fields 1 y ((1 + d) % 2) (omega arith))
          ∙ masked)
    where
      whole : (2 ^ 23 + y) * 2 % 2 ^ 24 ≡ y * 2 ^ 1
      whole = omega arith

      flipped : bit_xor 1 d ≡ (1 + d) % 2
      flipped = omega (arith, bit_xor_step 1 d, xor-zero 0, half)
        where
          half : bit_xor 0 (d / 2) ≡ 0
          half = zero-xor (d / 2) ∙ omega arith

      masked : bit_xor (y * 2 ^ 1 + (1 + d) % 2) 0xb4c000 ≡ bit_xor y 0x5a6000 * 2 + (1 + d) % 2
      masked =
          let half : (y * 2 + (1 + d) % 2) / 2 ≡ y = omega arith in
          bit_xor_step (y * 2 + (1 + d) % 2) 0xb4c000
          ∙ ap (λ (t : ℕ). bit_xor t 0x5a6000 * 2 + ((y * 2 + (1 + d) % 2) % 2 + 0) % 2) half
          ∙ omega arith

-- A backward round undoes the forward round on the same bit of the byte.
back_bit-calc_bit : (s cur j : ℕ) → s < 2 ^ 24 → back_bit (calc_bit s (cur / 2 ^ (7 - j))) cur j ≡ s
back_bit-calc_bit s cur j h = elim (bit_cases (s + c)) [
  | inl even ↦
      ap (λ (x : ℕ). back_bit x cur j) (calc_bit_lem s c h ∙ rw even (xor-zero (s / 2)))
      ∙ back_plain cur j (c % 2) (and-mask 1 c) (omega arith) (s / 2) (omega arith)
      ∙ omega arith
  | inr odd ↦
      ap (λ (x : ℕ). back_bit x cur j) (calc_bit_lem s c h ∙ rw odd (fed (s / 2) (omega arith)))
      ∙ back_fed cur j (c % 2) (and-mask 1 c) (omega arith) (bit_xor (s / 2) 0x5a6000)
          (xor-lt 23 (s / 2) 0x5a6000 (omega arith) (omega arith))
      ∙ omega (arith, xor_cancel (s / 2) 0x5a6000)
]
  where
    c : ℕ
    c = cur / 2 ^ (7 - j)

-- The last round of the forward loop, split off.
calc_bits-suc : (n s c : ℕ) → calc_bits (suc n) s c ≡ calc_bit (calc_bits n s c) (c / 2 ^ n)
unfolding calc_bits
calc_bits-suc zero s c = ap (calc_bit s) (omega arith)
calc_bits-suc (suc n) s c =
    calc_bits-suc n (calc_bit s c) (c / 2)
    ∙ ap (calc_bit (calc_bits n (calc_bit s c) (c / 2)))
        (div-div-eq-div-mul c 2 (2 ^ n) ∙ ap (λ (t : ℕ). c / t) (sym (pow-succ' 2 n)))

back_bits-calc_bits : (n j s c : ℕ) → j + n ≡ 8 → s < 2 ^ 24 → back_bits n j (calc_bits n s c) c ≡ s
unfolding back_bits
back_bits-calc_bits zero j s c e h = unfold calc_bits in refl
back_bits-calc_bits (suc n) j s c e h =
    ap (λ (x : ℕ). back_bits n (j + 1) x c) last ∙ back_bits-calc_bits n (j + 1) s c (omega arith) h
  where
    round : n ≡ 7 - j
    round = omega arith

    last : back_bit (calc_bits (suc n) s c) c j ≡ calc_bits n s c
    last =
        ap (λ (x : ℕ). back_bit x c j)
          (calc_bits-suc n s c ∙ ap (λ (k : ℕ). calc_bit (calc_bits n s c) (c / 2 ^ k)) round)
        ∙ back_bit-calc_bit (calc_bits n s c) c j (calc_bits-lt n s c h)

back_bytes-append :
    (s : ℕ) (xs ys : List ℕ) → back_bytes s (xs ++ ys) ≡ back_bytes (back_bytes s xs) ys
unfolding back_bytes
back_bytes-append s [] ys = refl
back_bytes-append s (x ∷ xs) ys = back_bytes-append (back_bits 8 0 s x) xs ys

back_bytes-calc_bytes :
    (s : ℕ) (bytes : List ℕ) → s < 2 ^ 24 → back_bytes (calc_bytes s bytes) (reverse bytes) ≡ s
unfolding back_bytes calc_bytes
back_bytes-calc_bytes s [] h = refl
back_bytes-calc_bytes s (byte ∷ bytes) h =
    ap (back_bytes crc) (reverse-append (byte ∷ []) bytes)
    ∙ back_bytes-append crc (reverse bytes) (byte ∷ [])
    ∙ ap (λ (x : ℕ). back_bits 8 0 x byte)
        (back_bytes-calc_bytes (calc_bits 8 s byte) bytes (calc_bits-lt 8 s byte h))
    ∙ back_bits-calc_bits 8 0 s byte refl h
  where
    crc : ℕ
    crc = calc_bytes (calc_bits 8 s byte) bytes

-- From the CRC of a packet btle_reverse_crc finds the initial value, its 24 bits in reverse order,
-- whatever the bytes of the packet are.
pub reverse_crc-calc_crc :
    (crc_init : ℕ) (bytes : List ℕ)
    → crc_init < 2 ^ 24
    → reverse_crc (calc_crc crc_init bytes) bytes ≡ reverse_bits 24 crc_init
unfolding reverse_crc calc_crc
reverse_crc-calc_crc crc_init bytes h = ap (reverse_bits 24) (
    back_bytes-calc_bytes (bit_and crc_init 0xffffff) bytes (register-lt crc_init)
    ∙ and-mask 24 crc_init
    ∙ omega arith)
