-- ===== src/Le/Crc/Linear.antt =====
-- The bitwise CRC as a linear map of the register and the byte together.
use Prim.Native.Nat.{bit_and, bit_or, bit_xor}
use codetooth.Prelude.{
  ℕ, zero, suc, ◌+◌, ◌*◌, ◌/◌, ◌%◌, ◌^◌, ◌<◌, ◌≡◌, refl, sym, ap, ap₂, ◌∙◌, ◌⊎◌, inl, inr, arith,
}
use codetooth.Prelude.Bits.{
  and-mask, xor-mod, xor-div, xor_assoc, xor_exchange, xor-zero, xor-lt, or-eq-xor,
}
use codetooth.Le.Crc.{lfsr_mask, calc_bit, calc_bits}
use native.Mathlib.Nat.{pow-suc}

-- What the register is exclusive-or'ed with when the bit shifted out is set.
abbrev pub poly : ℕ
poly = 0xda6000

pub bit_cases : (n : ℕ) → (n % 2 ≡ 0) ⊎ (n % 2 ≡ 1)
bit_cases n = omega arith

pub calc_bit_lem : (s c : ℕ) → s < 2 ^ 24 → calc_bit s c ≡ bit_xor (s / 2) ((s + c) % 2 * poly)
unfolding calc_bit
calc_bit_lem s c h =
    let test : bit_and (bit_xor s c) 1 ≡ (s + c) % 2 =
      and-mask 1 (bit_xor s c) ∙ xor-mod s c ∙ omega arith in
    elim (bit_cases (s + c)) [
      | inl even ↦ rw (test, even) (sym (xor-zero (s / 2)))
      | inr odd ↦ rw (test, odd) tail
    ]
  where
    tail : bit_xor (bit_or (s / 2) (1 * 2 ^ 23)) lfsr_mask ≡ bit_xor (s / 2) (1 * poly)
    tail = rw (or-eq-xor 23 (s / 2) (omega arith)) (xor_assoc (s / 2) 0x800000 lfsr_mask)

feedback-lt : (n : ℕ) → n % 2 * poly < 2 ^ 24
feedback-lt n = omega arith

pub calc_bit-lt : (s c : ℕ) → s < 2 ^ 24 → calc_bit s c < 2 ^ 24
calc_bit-lt s c h =
    rw (calc_bit_lem s c h) (xor-lt 24 (s / 2) _ (omega arith) (feedback-lt (s + c)))

pub calc_bits-lt : (n s c : ℕ) → s < 2 ^ 24 → calc_bits n s c < 2 ^ 24
unfolding calc_bits
calc_bits-lt zero s c h = h
calc_bits-lt (suc n) s c h = calc_bits-lt n (calc_bit s c) (c / 2) (calc_bit-lt s c h)

feedback-xor : (m n : ℕ) → (m + n) % 2 * poly ≡ bit_xor (m % 2 * poly) (n % 2 * poly)
feedback-xor m n = elim (bit_cases m) [
  | inl p ↦ elim (bit_cases n) [
    | inl q ↦ let e : (m + n) % 2 ≡ 0 = omega arith in rw (p, q, e)
    | inr q ↦ let e : (m + n) % 2 ≡ 1 = omega arith in rw (p, q, e)
  ]
  | inr p ↦ elim (bit_cases n) [
    | inl q ↦ let e : (m + n) % 2 ≡ 1 = omega arith in rw (p, q, e)
    | inr q ↦ let e : (m + n) % 2 ≡ 0 = omega arith in rw (p, q, e)
  ]
]

calc_bit-xor :
    (s t c d : ℕ)
    → s < 2 ^ 24
    → t < 2 ^ 24
    → calc_bit (bit_xor s t) (bit_xor c d) ≡ bit_xor (calc_bit s c) (calc_bit t d)
calc_bit-xor s t c d p q =
    calc_bit_lem (bit_xor s t) (bit_xor c d) (xor-lt 24 s t p q)
    ∙ ap₂ bit_xor (xor-div s t) (ap (λ (b : ℕ). b * poly) parity ∙ feedback-xor (s + c) (t + d))
    ∙ xor_exchange (s / 2) (t / 2) ((s + c) % 2 * poly) ((t + d) % 2 * poly)
    ∙ sym (ap₂ bit_xor (calc_bit_lem s c p) (calc_bit_lem t d q))
  where
    parity : (bit_xor s t + bit_xor c d) % 2 ≡ (s + c + (t + d)) % 2
    parity = omega (arith, xor-mod s t, xor-mod c d)

-- Rounds of the loop respect exclusive or.
pub calc_bits-xor :
    (n s t c d : ℕ)
    → s < 2 ^ 24
    → t < 2 ^ 24
    → calc_bits n (bit_xor s t) (bit_xor c d) ≡ bit_xor (calc_bits n s c) (calc_bits n t d)
unfolding calc_bits
calc_bits-xor zero s t c d p q = refl
calc_bits-xor (suc n) s t c d p q =
    ap₂ (calc_bits n) (calc_bit-xor s t c d p q) (xor-div c d)
    ∙ calc_bits-xor n (calc_bit s c) (calc_bit t d) (c / 2) (d / 2) (calc_bit-lt s c p)
        (calc_bit-lt t d q)

-- A byte equal to the low digits of the register shifts them out with no feedback.
pub calc_bits_shift :
    (n q c : ℕ) → c < 2 ^ n → q * 2 ^ n + c < 2 ^ 24 → calc_bits n (q * 2 ^ n + c) c ≡ q
unfolding calc_bits
calc_bits_shift zero q c h fits = omega arith
calc_bits_shift (suc n) q c h fits =
    ap (λ (s : ℕ). calc_bits n s (c / 2)) shifted
    ∙ calc_bits_shift n q (c / 2) (omega (arith, pow-suc 2 n)) (omega (arith, double))
  where
    double : q * 2 ^ suc n ≡ q * 2 ^ n * 2
    double = omega (arith, ap (λ (t : ℕ). q * t) (pow-suc 2 n))

    even : (q * 2 ^ suc n + c + c) % 2 ≡ 0
    even = omega (arith, double)

    shifted : calc_bit (q * 2 ^ suc n + c) c ≡ q * 2 ^ n + c / 2
    shifted =
        calc_bit_lem (q * 2 ^ suc n + c) c fits
        ∙ rw even (xor-zero ((q * 2 ^ suc n + c) / 2) ∙ omega (arith, double))
