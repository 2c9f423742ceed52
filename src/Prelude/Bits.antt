-- ===== src/Prelude/Bits.antt =====
-- Laws of `&`, `|` and `^` at variables, from the equation for the lowest digit of each.
mod Step
pub use Step.{bit_and_step, bit_or_step, bit_xor_step}
use Prim.Native.Nat.{
  ℕ, zero, suc, ◌+◌, ◌-◌, ◌*◌, ◌/◌, ◌%◌, ◌^◌, ◌≤◌, ◌<◌, min, bit_and, bit_or, bit_xor,
  bit_xor-bitwise,
}
use mathlib.Core.Path.{◌≡◌, refl, sym, ap, ◌∙◌}
use native.Mathlib.Nat.{pow-suc, mod-lt, mod-eq_of_lt, div-add-mod', add-mul-mod_self_right}
use native.Mathlib.Omega.{arith}

pub xor-div : (a b : ℕ) → bit_xor a b / 2 ≡ bit_xor (a / 2) (b / 2)
xor-div a b = omega (arith, bit_xor_step a b)

pub xor-mod : (a b : ℕ) → bit_xor a b % 2 ≡ (a % 2 + b % 2) % 2
xor-mod a b = omega (arith, bit_xor_step a b)

-- Each law is an induction on a bound of its numbers: halving meets the bound below.
xor_comm_below : (n a b : ℕ) → a ≤ n → b ≤ n → bit_xor a b ≡ bit_xor b a
xor_comm_below zero zero zero p q = refl
xor_comm_below zero (suc a) b p q = absurd (omega arith)
xor_comm_below zero zero (suc b) p q = absurd (omega arith)
xor_comm_below (suc n) a b p q = omega (
  arith,
  bit_xor_step a b,
  bit_xor_step b a,
  xor_comm_below n (a / 2) (b / 2) (omega arith) (omega arith),
)

pub xor_comm : (a b : ℕ) → bit_xor a b ≡ bit_xor b a
xor_comm a b = xor_comm_below (a + b) a b (omega arith) (omega arith)

pub zero-xor : (a : ℕ) → bit_xor 0 a ≡ a
zero-xor a = bit_xor-bitwise 0 a

pub xor-zero : (a : ℕ) → bit_xor a 0 ≡ a
xor-zero a = xor_comm a 0 ∙ zero-xor a

xor_assoc_below : (n a b c : ℕ) → a + b + c ≤ n → bit_xor (bit_xor a b) c ≡ bit_xor a (bit_xor b c)
xor_assoc_below zero zero zero zero h = refl
xor_assoc_below zero (suc a) b c h = absurd (omega arith)
xor_assoc_below zero zero (suc b) c h = absurd (omega arith)
xor_assoc_below zero zero zero (suc c) h = absurd (omega arith)
xor_assoc_below (suc n) zero b c h =
    ap (λ (t : ℕ). bit_xor t c) (zero-xor b) ∙ sym (zero-xor (bit_xor b c))
xor_assoc_below (suc n) (suc a) b c h =
    let x : ℕ = suc a in
    bit_xor_step (bit_xor x b) c
    ∙ ap₂_digit
        (ap (λ (t : ℕ). bit_xor t (c / 2)) (xor-div x b)
          ∙ xor_assoc_below n (x / 2) (b / 2) (c / 2) (omega arith)
          ∙ ap (bit_xor (x / 2)) (sym_xor-div b c))
        (omega (arith, xor-mod x b, xor-mod b c))
    ∙ sym_step x (bit_xor b c)
  where
    ap₂_digit : {p q r s : ℕ} → p ≡ q → r ≡ s → p * 2 + r ≡ q * 2 + s
    ap₂_digit e f = omega arith

    sym_xor-div : (p q : ℕ) → bit_xor (p / 2) (q / 2) ≡ bit_xor p q / 2
    sym_xor-div p q = omega (arith, xor-div p q)

    sym_step : (p q : ℕ) → bit_xor (p / 2) (q / 2) * 2 + (p % 2 + q % 2) % 2 ≡ bit_xor p q
    sym_step p q = omega (arith, bit_xor_step p q)

pub xor_assoc : (a b c : ℕ) → bit_xor (bit_xor a b) c ≡ bit_xor a (bit_xor b c)
xor_assoc a b c = xor_assoc_below (a + b + c) a b c (omega arith)

xor_self_below : (n a : ℕ) → a ≤ n → bit_xor a a ≡ 0
xor_self_below zero zero h = refl
xor_self_below zero (suc a) h = absurd (omega arith)
xor_self_below (suc n) a h = omega (arith, bit_xor_step a a, xor_self_below n (a / 2) (omega arith))

pub xor_self : (a : ℕ) → bit_xor a a ≡ 0
xor_self a = xor_self_below a a (omega arith)

pub xor_cancel : (a b : ℕ) → bit_xor (bit_xor a b) b ≡ a
xor_cancel a b = xor_assoc a b b ∙ ap (bit_xor a) (xor_self b) ∙ xor-zero a

-- `(a ^ b) ^ (c ^ d)`, with the middle two exchanged.
pub xor_exchange :
    (a b c d : ℕ) → bit_xor (bit_xor a b) (bit_xor c d) ≡ bit_xor (bit_xor a c) (bit_xor b d)
xor_exchange a b c d = xor_assoc a b (bit_xor c d) ∙ ap (bit_xor a) inner ∙ back
  where
    inner : bit_xor b (bit_xor c d) ≡ bit_xor c (bit_xor b d)
    inner = rw (← xor_assoc b c d, xor_comm b c) (xor_assoc c b d)

    back : bit_xor a (bit_xor c (bit_xor b d)) ≡ bit_xor (bit_xor a c) (bit_xor b d)
    back = rw (xor_assoc a c (bit_xor b d))

pub xor-lt : (k a b : ℕ) → a < 2 ^ k → b < 2 ^ k → bit_xor a b < 2 ^ k
xor-lt zero zero zero p q = p
xor-lt zero (suc a) b p q = absurd (omega arith)
xor-lt zero zero (suc b) p q = absurd (omega arith)
xor-lt (suc k) a b p q = omega (
  arith,
  pow-suc 2 k,
  bit_xor_step a b,
  xor-lt k (a / 2) (b / 2) (omega (arith, pow-suc 2 k)) (omega (arith, pow-suc 2 k)),
)

and-zero_below : (n a : ℕ) → a ≤ n → bit_and a 0 ≡ 0
and-zero_below zero zero h = refl
and-zero_below zero (suc a) h = absurd (omega arith)
and-zero_below (suc n) a h = omega (arith, bit_and_step a 0, and-zero_below n (a / 2) (omega arith))

pub and-zero : (a : ℕ) → bit_and a 0 ≡ 0
and-zero a = and-zero_below a a (omega arith)

or-zero_below : (n a : ℕ) → a ≤ n → bit_or a 0 ≡ a
or-zero_below zero zero h = refl
or-zero_below zero (suc a) h = absurd (omega arith)
or-zero_below (suc n) a h = omega (arith, bit_or_step a 0, or-zero_below n (a / 2) (omega arith))

pub or-zero : (a : ℕ) → bit_or a 0 ≡ a
or-zero a = or-zero_below a a (omega arith)

pow_pos : (k : ℕ) → 0 < 2 ^ k
pow_pos zero = omega arith
pow_pos (suc k) = omega (arith, pow-suc 2 k, pow_pos k)

mod_digits : (x m : ℕ) → 0 < m → x / 2 % m * 2 + x % 2 ≡ x % (m * 2)
mod_digits x m h = sym (
    ap (λ (t : ℕ). t % (m * 2)) whole
    ∙ add-mul-mod_self_right (x / 2 % m * 2 + x % 2) (x / 2 / m) (m * 2)
    ∙ mod-eq_of_lt small)
  where
    small : x / 2 % m * 2 + x % 2 < m * 2
    small = omega (arith, mod-lt (x / 2) h)

    whole : x ≡ x / 2 % m * 2 + x % 2 + x / 2 / m * (m * 2)
    whole = omega (arith, div-add-mod' (x / 2) m)

-- A mask of `k` ones keeps the low `k` digits.
pub and-mask : (k a : ℕ) → bit_and a (2 ^ k - 1) ≡ a % 2 ^ k
and-mask zero a = omega (arith, and-zero a)
and-mask (suc k) a =
    bit_and_step a (2 ^ suc k - 1)
    ∙ digit (ap (bit_and (a / 2)) half_mask ∙ and-mask k (a / 2)) odd
    ∙ rw pow-suc (mod_digits a (2 ^ k) (pow_pos k))
  where
    half_mask : (2 ^ suc k - 1) / 2 ≡ 2 ^ k - 1
    half_mask = omega (arith, pow-suc 2 k, pow_pos k)

    odd : (2 ^ suc k - 1) % 2 ≡ 1
    odd = omega (arith, pow-suc 2 k, pow_pos k)

    digit : {p q r : ℕ} → p ≡ q → r ≡ 1 → p * 2 + min (a % 2) r ≡ q * 2 + a % 2
    digit e f = omega arith

double_field : (q k : ℕ) → q * 2 ^ suc k ≡ q * 2 ^ k * 2
double_field q k = omega (arith, ap (λ (t : ℕ). q * t) (pow-suc 2 k))

half_field : (q k : ℕ) → q * 2 ^ suc k / 2 ≡ q * 2 ^ k
half_field q k = omega (arith, double_field q k)

-- `|` and `^` of disjoint fields are sums.
pub or_fields : (k q r : ℕ) → r < 2 ^ k → bit_or (q * 2 ^ k) r ≡ q * 2 ^ k + r
or_fields zero q zero h = or-zero (q * 1) ∙ omega arith
or_fields zero q (suc r) h = absurd (omega arith)
or_fields (suc k) q r h = omega (
  arith,
  bit_or_step (q * 2 ^ suc k) r,
  double_field q k,
  pow-suc 2 k,
  ap (λ (t : ℕ). bit_or t (r / 2)) (half_field q k)
      ∙ or_fields k q (r / 2) (omega (arith, pow-suc 2 k)),
)

pub xor_fields : (k q r : ℕ) → r < 2 ^ k → bit_xor (q * 2 ^ k) r ≡ q * 2 ^ k + r
xor_fields zero q zero h = xor-zero (q * 1) ∙ omega arith
xor_fields zero q (suc r) h = absurd (omega arith)
xor_fields (suc k) q r h = omega (
  arith,
  bit_xor_step (q * 2 ^ suc k) r,
  double_field q k,
  pow-suc 2 k,
  ap (λ (t : ℕ). bit_xor t (r / 2)) (half_field q k)
      ∙ xor_fields k q (r / 2) (omega (arith, pow-suc 2 k)),
)

or_comm_below : (n a b : ℕ) → a ≤ n → b ≤ n → bit_or a b ≡ bit_or b a
or_comm_below zero zero zero p q = refl
or_comm_below zero (suc a) b p q = absurd (omega arith)
or_comm_below zero zero (suc b) p q = absurd (omega arith)
or_comm_below (suc n) a b p q = omega (
  arith,
  bit_or_step a b,
  bit_or_step b a,
  or_comm_below n (a / 2) (b / 2) (omega arith) (omega arith),
)

pub or_comm : (a b : ℕ) → bit_or a b ≡ bit_or b a
or_comm a b = or_comm_below (a + b) a b (omega arith) (omega arith)

-- Where a digit above `x` is set, `|` and `^` agree.
pub or-eq-xor : (k x : ℕ) → x < 2 ^ k → bit_or x (1 * 2 ^ k) ≡ bit_xor x (1 * 2 ^ k)
or-eq-xor k x h =
    or_comm x (1 * 2 ^ k) ∙ or_fields k 1 x h ∙ sym (xor_fields k 1 x h) ∙ xor_comm (1 * 2 ^ k) x

-- `|` of bytes at their places in a word is a sum.
pub or_low : (k r q : ℕ) → r < 2 ^ k → bit_or r (q * 2 ^ k) ≡ r + q * 2 ^ k
or_low k r q h = or_comm r (q * 2 ^ k) ∙ or_fields k q r h ∙ omega arith
