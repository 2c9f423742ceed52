-- ===== src/Prelude/Bits/Step.antt =====
-- One equation for the lowest digit of `&`, `|` and `^`. The native operations mean `bitwise`, a
-- recursion on the digits with the first number for fuel; here the fuel goes.
use Prim.Native.Nat.{
  ℕ, zero, suc, ◌+◌, ◌*◌, ◌/◌, ◌%◌, ◌≤◌, min, max, differ, digits, bit_and, bit_or, bit_xor,
  bit_and-bitwise, bit_or-bitwise, bit_xor-bitwise,
}
use mathlib.Core.Path.{◌≡◌, refl, ◌∙◌}
use native.Mathlib.Decide.{dec_le}
use native.Mathlib.Omega.{arith}

module _ (z : ℕ → ℕ) (f : ℕ → ℕ → ℕ) where
  -- One more round of fuel than the number has digits changes nothing.
  digits-suc : (n a b : ℕ) → a ≤ n → digits z f (suc n) a b ≡ digits z f n a b
  digits-suc zero zero b h = refl
  digits-suc zero (suc a) b h = absurd (omega arith)
  digits-suc (suc n) zero b h = refl
  digits-suc (suc n) (suc a) b h = rw (digits-suc n (suc a / 2) (b / 2) (omega arith))

  digits_enough : (n a b : ℕ) → a ≤ n → digits z f n a b ≡ digits z f a a b
  digits_enough zero zero b h = refl
  digits_enough zero (suc a) b h = absurd (omega arith)
  digits_enough (suc n) a b h = elim (dec_le a n) [
    | yes p ↦ digits-suc n a b p ∙ digits_enough n a b p
    | no p ↦ let e : a ≡ suc n = omega arith in rw e
  ]

  -- The digit that comes off first.
  digits_first :
      (a b : ℕ)
      → digits z f (suc a) (suc a) b
        ≡ digits z f (suc a / 2) (suc a / 2) (b / 2) * 2 + f (suc a % 2) (b % 2)
  digits_first a b = omega (arith, digits_enough a (suc a / 2) (b / 2) (omega arith))

-- A word out of its lowest digit and the rest.
abbrev pub joined : (rest digit : ℕ) → ℕ
joined rest digit = rest * 2 + digit

pub bit_or_step : (x y : ℕ) → bit_or x y ≡ joined (bit_or (x / 2) (y / 2)) (max (x % 2) (y % 2))
bit_or_step (suc n) y = simp bit_or-bitwise (digits_first (λ rest. rest) max n y)
bit_or_step zero y = simp bit_or-bitwise (omega arith)

pub bit_and_step : (x y : ℕ) → bit_and x y ≡ joined (bit_and (x / 2) (y / 2)) (min (x % 2) (y % 2))
bit_and_step (suc n) y = simp bit_and-bitwise (digits_first (λ _. 0) min n y)
bit_and_step zero y = simp bit_and-bitwise (omega arith)

-- `differ` of two digits is their sum modulo 2.
differ_digits : (x y : ℕ) → x ≤ 1 → y ≤ 1 → differ x y ≡ (x + y) % 2
differ_digits zero zero p q = refl
differ_digits zero (suc zero) p q = refl
differ_digits (suc zero) zero p q = refl
differ_digits (suc zero) (suc zero) p q = refl
differ_digits zero (suc (suc y)) p q = absurd (omega arith)
differ_digits (suc zero) (suc (suc y)) p q = absurd (omega arith)
differ_digits (suc (suc x)) y p q = absurd (omega arith)

pub bit_xor_step : (x y : ℕ) → bit_xor x y ≡ joined (bit_xor (x / 2) (y / 2)) ((x % 2 + y % 2) % 2)
bit_xor_step (suc n) y =
    let differing = differ_digits (suc n % 2) (y % 2) (omega arith) (omega arith) in
    simp bit_xor-bitwise (omega (arith, digits_first (λ rest. rest) differ n y, differing))
bit_xor_step zero y = simp bit_xor-bitwise (omega arith)
