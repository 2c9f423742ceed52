-- ===== src/Le/Reversal.antt =====
-- The loop that writes the bits of a word in the other order, as btle_reverse_crc and
-- promisc_follow_cb have it over 24 bits, and the ARM instruction behind rbit over 32.
use codetooth.Prelude.{
  ℕ, zero, suc, ◌+◌, ◌-◌, ◌*◌, ◌/◌, ◌%◌, ◌^◌, ◌<◌, bit_and, bit_or, ◌<<<◌, ◌>>>◌, ◌≡◌, refl, sym,
  ap, ◌∙◌, arith,
}
use codetooth.Prelude.Bits.{and-mask, or_fields}
use native.Mathlib.Nat.{pow-suc, div-div-eq-div-mul, one-le-pow}
use native.Mathlib.Numerals.{add-one}

-- `for (i = 0; i < width; ++i) ret |= ((state >> i) & 1) << (width - 1 - i)`, with `left` rounds
-- to go.
reverse_loop : (width left i state ret : ℕ) → ℕ
reverse_loop width zero i state ret = ret
reverse_loop width (suc left) i state ret =
    reverse_loop width left (i + 1) state (bit_or ret (bit_and (state >>> i) 1 <<< (width - 1 - i)))

unfoldable pub reverse_bits : (width state : ℕ) → ℕ
unfolding reverse_loop
reverse_bits width state = reverse_loop width width 0 state 0

-- firmware/common/ubertooth.c: the instruction RBIT reverses the 32 bits of its operand.
unfoldable pub rbit : ℕ → ℕ
unfolding reverse_bits
rbit value = reverse_bits 32 value

-- What the loop computes: the lowest digit becomes the highest of `k`.
pub reversed : (k x : ℕ) → ℕ
reversed zero x = 0
reversed (suc k) x = x % 2 * 2 ^ k + reversed k (x / 2)

pub bit_field-lt : (b p r : ℕ) → b < 2 → r < p → b * p + r < p * 2
bit_field-lt zero p r h low = omega arith
bit_field-lt (suc zero) p r h low = omega arith
bit_field-lt (suc (suc b)) p r h low = absurd (omega arith)

pub pow_pos : (k : ℕ) → 0 < 2 ^ k
pow_pos k = one-le-pow k 2 (omega arith)

-- The low digits of a word shifted once more.
shift_once : (x i : ℕ) → x / 2 ^ (i + 1) ≡ x / 2 ^ i / 2
shift_once x i =
    let e : 2 ^ (i + 1) ≡ 2 ^ i * 2 = rw add-one (pow-suc 2 i) in
    rw e (sym (div-div-eq-div-mul x (2 ^ i) 2))

reverse_loop_lem :
    (width left i state q : ℕ)
    → i + left ≡ width
    → reverse_loop width left i state (q * 2 ^ left) ≡ q * 2 ^ left + reversed left (state / 2 ^ i)
unfolding reverse_loop reversed
reverse_loop_lem width zero i state q h = omega arith
reverse_loop_lem width (suc left) i state q h =
    ap (reverse_loop width left (i + 1) state) written
    ∙ reverse_loop_lem width left (i + 1) state (q * 2 + bit) (omega arith)
    ∙ together
  where
    bit : ℕ
    bit = state / 2 ^ i % 2

    place : width - 1 - i ≡ left
    place = omega arith

    fits : bit * 2 ^ left < 2 ^ suc left
    fits = rw pow-suc (omega (arith, bit_field-lt bit (2 ^ left) 0 (omega arith) (pow_pos left)))

    written :
        bit_or (q * 2 ^ suc left) (bit_and (state / 2 ^ i) 1 * 2 ^ (width - 1 - i))
        ≡ (q * 2 + bit) * 2 ^ left
    written =
        rw (place, and-mask 1 (state / 2 ^ i))
          (or_fields (suc left) q (bit * 2 ^ left) fits ∙ rw pow-suc (grind arith))

    together :
        (q * 2 + bit) * 2 ^ left + reversed left (state / 2 ^ (i + 1))
        ≡ q * 2 ^ suc left + (bit * 2 ^ left + reversed left (state / 2 ^ i / 2))
    together = rw (shift_once state i, pow-suc) (grind arith)

-- The loop over `width` bits is the digit reversal.
pub reverse_bits_lem : (width x : ℕ) → reverse_bits width x ≡ reversed width x
unfolding reverse_bits
reverse_bits_lem width x =
    ap (reverse_loop width width 0 x) none_yet
    ∙ reverse_loop_lem width width 0 x 0 (omega arith)
    ∙ omega (arith, none_yet, ap (reversed width) whole)
  where
    none_yet : 0 ≡ 0 * 2 ^ width
    none_yet = omega arith

    whole : x / 2 ^ 0 ≡ x
    whole = omega arith

pub reversed-suc : (k x : ℕ) → reversed (suc k) x ≡ x % 2 * 2 ^ k + reversed k (x / 2)
unfolding reversed
reversed-suc k x = refl

pub reversed-zero : (x : ℕ) → reversed 0 x ≡ 0
unfolding reversed
reversed-zero x = refl

pub reversed-lt : (k x : ℕ) → reversed k x < 2 ^ k
unfolding reversed
reversed-lt zero x = omega arith
reversed-lt (suc k) x =
    rw pow-suc
      (bit_field-lt (x % 2) (2 ^ k) (reversed k (x / 2)) (omega arith) (reversed-lt k (x / 2)))

-- From the other end: the highest of `k + 1` digits becomes the lowest.
reversed_high :
    (k h y : ℕ) → h < 2 → y < 2 ^ k → reversed (suc k) (h * 2 ^ k + y) ≡ 2 * reversed k y + h
reversed_high zero h y p q = unfold reversed in omega arith
reversed_high (suc k) h y p q =
    reversed-suc (suc k) (h * 2 ^ suc k + y)
    ∙ rw (low, rest, reversed_high k h (y / 2) p (omega (arith, pow-suc 2 k)), reversed-suc)
        (omega (arith, ap (λ (t : ℕ). y % 2 * t) (pow-suc 2 k)))
  where
    low : (h * 2 ^ suc k + y) % 2 ≡ y % 2
    low = omega (arith, ap (λ (t : ℕ). h * t) (pow-suc 2 k))

    rest : (h * 2 ^ suc k + y) / 2 ≡ h * 2 ^ k + y / 2
    rest = omega (arith, ap (λ (t : ℕ). h * t) (pow-suc 2 k))

-- Reversing twice gives back a number of `k` digits.
pub reversed-reversed : (k x : ℕ) → x < 2 ^ k → reversed k (reversed k x) ≡ x
reversed-reversed zero x h = unfold reversed in omega arith
reversed-reversed (suc k) x h =
    ap (reversed (suc k)) (reversed-suc k x)
    ∙ reversed_high k (x % 2) (reversed k (x / 2)) (omega arith) (reversed-lt k (x / 2))
    ∙ omega (arith, reversed-reversed k (x / 2) (omega (arith, pow-suc 2 k)))

pub reverse_bits_twice :
    (width x : ℕ) → x < 2 ^ width → reverse_bits width (reverse_bits width x) ≡ x
reverse_bits_twice width x h =
    reverse_bits_lem width (reverse_bits width x)
    ∙ ap (reversed width) (reverse_bits_lem width x)
    ∙ reversed-reversed width x h

-- A word of `k` bits has nothing in the top bit of one more: its reversal moves up by one.
pub reversed-widen : (k x : ℕ) → x < 2 ^ k → reversed (suc k) x ≡ 2 * reversed k x
reversed-widen k x h =
    ap (reversed (suc k)) (omega arith) ∙ reversed_high k 0 x (omega arith) h ∙ omega arith

-- RBIT of a value of 24 bits leaves its reversal 8 places too high.
pub rbit-24 : (x : ℕ) → x < 2 ^ 24 → rbit x ≡ 256 * reverse_bits 24 x
unfolding rbit
rbit-24 x h = omega (
  arith,
  reverse_bits_lem 32 x,
  reverse_bits_lem 24 x,
  reversed-widen 24 x h,
  reversed-widen 25 x (omega arith),
  reversed-widen 26 x (omega arith),
  reversed-widen 27 x (omega arith),
  reversed-widen 28 x (omega arith),
  reversed-widen 29 x (omega arith),
  reversed-widen 30 x (omega arith),
  reversed-widen 31 x (omega arith),
)

pub rbit_lem : (x : ℕ) → rbit x ≡ reversed 32 x
unfolding rbit
rbit_lem x = reverse_bits_lem 32 x
