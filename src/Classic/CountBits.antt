-- ===== src/Classic/CountBits.antt =====
-- count_bits: each round of the loop clears the lowest set bit.
use codetooth.Prelude.{
  ℕ, zero, suc, ◌+◌, ◌-◌, ◌*◌, ◌/◌, ◌%◌, ◌^◌, ◌<◌, ◌≤◌, ◌≡◌, refl, ap, ◌∙◌, u8, bit_and, false,
  ◌==◌, if◌then◌else◌, arith, ◌⊎◌, inl, inr,
}
use Prim.Native.Nat.{bit_and-bitwise}
use native.Mathlib.Decide.{dec_lt}
use native.Mathlib.Nat.{pow-suc}
use codetooth.Prelude.Bits.{bit_and_step}

-- A number of 64 bits has no more bits to clear than the 64 rounds of fuel.
pub count_loop : (fuel n i : ℕ) → ℕ
count_loop zero n i = i
count_loop (suc fuel) n i =
    let rest = count_loop fuel (bit_and n (n - 1)) (u8 (i + 1)) in if n == 0 then i else rest

unfoldable pub count_bits : ℕ → ℕ
unfolding count_loop
count_bits n = count_loop 64 n 0

-- The number of ones among the lowest `k` binary digits.
pub ones : (k n : ℕ) → ℕ
ones zero n = 0
ones (suc k) n = n % 2 + ones k (n / 2)

and_self_below : (k a : ℕ) → a ≤ k → bit_and a a ≡ a
and_self_below zero zero h = refl
and_self_below zero (suc a) h = absurd (omega arith)
and_self_below (suc k) a h = omega (arith, bit_and_step a a, and_self_below k (a / 2) (omega arith))

zero-and : (b : ℕ) → bit_and 0 b ≡ 0
zero-and b = bit_and-bitwise 0 b

and_le_below : (k a b : ℕ) → a ≤ k → bit_and a b ≤ a
and_le_below zero zero b h = omega (arith, zero-and b)
and_le_below zero (suc a) b h = absurd (omega arith)
and_le_below (suc k) a b h =
    omega (arith, bit_and_step a b, and_le_below k (a / 2) (b / 2) (omega arith))

ones-zero : (k : ℕ) → ones k 0 ≡ 0
unfolding ones
ones-zero zero = refl
ones-zero (suc k) = omega (arith, ones-zero k)

ones-le : (k n : ℕ) → ones k n ≤ k
unfolding ones
ones-le zero n = omega arith
ones-le (suc k) n = omega (arith, ones-le k (n / 2))

-- Half of `n & (n - 1)`, which is even: below an odd number nothing is borrowed.
clear_odd : (n : ℕ) → n % 2 ≡ 1 → bit_and n (n - 1) ≡ 2 * (n / 2)
clear_odd n odd =
    let halves : (n - 1) / 2 ≡ n / 2 = omega arith in
    omega (
      arith,
      bit_and_step n (n - 1),
      ap (bit_and (n / 2)) halves,
      and_self_below (n / 2) (n / 2) (omega arith),
    )

clear_even : (n : ℕ) → 0 < n → n % 2 ≡ 0 → bit_and n (n - 1) ≡ 2 * bit_and (n / 2) (n / 2 - 1)
clear_even n some even =
    let halves : (n - 1) / 2 ≡ n / 2 - 1 = omega arith in
    omega (arith, bit_and_step n (n - 1), ap (bit_and (n / 2)) halves)

double : (k m : ℕ) → ones (suc k) (2 * m) ≡ ones k m
unfolding ones
double k m = let half : 2 * m / 2 ≡ m = omega arith in omega (arith, ap (ones k) half)

-- Clearing the lowest one leaves one fewer.
one_less : (k n : ℕ) → 0 < n → n < 2 ^ k → ones k (bit_and n (n - 1)) + 1 ≡ ones k n
unfolding ones
one_less zero n some small = absurd (omega arith)
one_less (suc k) n some small = elim (mod2 n) [
  | inl even ↦
      let rest = one_less k (n / 2) (omega arith) (omega (arith, small, pow-suc 2 k)) in
      omega (
        arith,
        ap (ones (suc k)) (clear_even n some even),
        double k (bit_and (n / 2) (n / 2 - 1)),
        rest,
      )
  | inr odd ↦ omega (arith, ap (ones (suc k)) (clear_odd n odd), double k (n / 2))
]
  where
    mod2 : (m : ℕ) → (m % 2 ≡ 0) ⊎ (m % 2 ≡ 1)
    mod2 m = ground arith

count_loop_lem :
    (fuel k n i : ℕ)
    → n < 2 ^ k
    → ones k n ≤ fuel
    → i + ones k n < 256
    → count_loop fuel n i ≡ i + ones k n
unfolding count_loop
count_loop_lem zero k n i small enough fits = omega (arith, enough)
count_loop_lem (suc fuel) k n i small enough fits = elim (dec_lt 0 n) [
  | no none_left ↦ let gone : n ≡ 0 = omega arith in rw (gone, ones-zero k) (omega arith)
  | yes some ↦
      let left : (n == 0) ≡ false = ground arith in
      let fewer = one_less k n some small in
      let counted : u8 (i + 1) ≡ i + 1 = omega (arith, fewer) in
      rw (left, counted)
        (count_loop_lem fuel k (bit_and n (n - 1)) (i + 1)
            (omega (arith, and_le_below n n (n - 1) (omega arith))) (omega (arith, fewer))
            (omega (arith, fewer))
          ∙ omega (arith, fewer))
]

-- count_bits counts the ones of a number of 64 bits.
pub count_bits_lem : (n : ℕ) → n < 2 ^ 64 → count_bits n ≡ ones 64 n
unfolding count_bits
count_bits_lem n small =
    count_loop_lem 64 64 n 0 small (ones-le 64 n) (omega (arith, ones-le 64 n)) ∙ omega arith
