-- ===== src/Firmware/Sync/Words.antt =====
-- The words that bt_le_sync makes of the bytes received, byte by byte.
use codetooth.Prelude.{
  ℕ, zero, suc, ◌+◌, ◌*◌, ◌/◌, ◌%◌, ◌^◌, ◌<◌, ◌≡◌, ap, ap₂, ◌∙◌, bit_or, bit_xor, arith,
}
use codetooth.Prelude.Bits.{or_fields, bit_xor_step}
use codetooth.Le.Reversal.{reversed, reversed-zero, reversed-suc}
use codetooth.Firmware.Sync.{be_word}
use native.Mathlib.Nat.{pow-suc, suc-add, zero-add}

pub pow-add : (k m : ℕ) → 2 ^ (k + m) ≡ 2 ^ k * 2 ^ m
pow-add zero m = rw zero-add (omega arith)
pow-add (suc k) m = rw (suc-add k m, pow-suc 2 (k + m), pow-suc 2 k, pow-add k m) (grind arith)

-- Turning round a number in two parts turns each round and swaps them.
reversed_parts :
    (k m h y : ℕ)
    → y < 2 ^ k
    → reversed (k + m) (h * 2 ^ k + y) ≡ reversed k y * 2 ^ m + reversed m h
reversed_parts zero m h y small =
    let e : h * 2 ^ 0 + y ≡ h = omega arith in rw (e, reversed-zero y, zero-add) (omega arith)
reversed_parts (suc k) m h y small =
    let low : (h * 2 ^ suc k + y) % 2 ≡ y % 2 = rw pow-suc (grind arith) in
    let high : (h * 2 ^ suc k + y) / 2 ≡ h * 2 ^ k + y / 2 = rw pow-suc (grind arith) in
    rw
      (
        suc-add k m,
        reversed-suc (k + m) (h * 2 ^ suc k + y),
        reversed-suc k y,
        low,
        high,
        reversed_parts k m h (y / 2) (omega (arith, pow-suc 2 k)),
        pow-add k m,
      )
      (grind arith)

-- A word of four bytes turned round is the four bytes turned round, the first of them lowest.
pub reversed_word :
    (r0 r1 r2 r3 : ℕ)
    → r1 < 256
    → r2 < 256
    → r3 < 256
    → reversed 32 (r0 * 2 ^ 24 + r1 * 2 ^ 16 + r2 * 2 ^ 8 + r3)
      ≡ reversed 8 r0 + 256 * reversed 8 r1 + 65536 * reversed 8 r2 + 16777216 * reversed 8 r3
reversed_word r0 r1 r2 r3 h1 h2 h3 =
    let a : reversed 32 ((r0 * 2 ^ 16 + r1 * 2 ^ 8 + r2) * 2 ^ 8 + r3)
        ≡ reversed 8 r3 * 2 ^ 24 + reversed 24 (r0 * 2 ^ 16 + r1 * 2 ^ 8 + r2) =
      reversed_parts 8 24 (r0 * 2 ^ 16 + r1 * 2 ^ 8 + r2) r3 h3 in
    let b : reversed 24 ((r0 * 2 ^ 8 + r1) * 2 ^ 8 + r2)
        ≡ reversed 8 r2 * 2 ^ 16 + reversed 16 (r0 * 2 ^ 8 + r1) =
      reversed_parts 8 16 (r0 * 2 ^ 8 + r1) r2 h2 in
    let c : reversed 16 (r0 * 2 ^ 8 + r1) ≡ reversed 8 r1 * 2 ^ 8 + reversed 8 r0 =
      reversed_parts 8 8 r0 r1 h1 in
    let f : reversed 24 (r0 * 2 ^ 16 + r1 * 2 ^ 8 + r2)
        ≡ reversed 24 ((r0 * 2 ^ 8 + r1) * 2 ^ 8 + r2) =
      ap (reversed 24) (omega arith) in
    (let e : r0 * 2 ^ 24 + r1 * 2 ^ 16 + r2 * 2 ^ 8 + r3
          ≡ (r0 * 2 ^ 16 + r1 * 2 ^ 8 + r2) * 2 ^ 8 + r3 =
        omega arith in
      ap (reversed 32) e ∙ omega (arith, a, b, c, f))

pub be_word_lem :
    (r0 r1 r2 r3 : ℕ)
    → r1 < 256
    → r2 < 256
    → r3 < 256
    → be_word r0 r1 r2 r3 ≡ r0 * 2 ^ 24 + r1 * 2 ^ 16 + r2 * 2 ^ 8 + r3
be_word_lem r0 r1 r2 r3 h1 h2 h3 =
    let second = or_fields 24 r0 (r1 * 2 ^ 16) (omega arith) in
    let second' : r0 * 2 ^ 24 + r1 * 2 ^ 16 ≡ (r0 * 2 ^ 8 + r1) * 2 ^ 16 = omega arith in
    let third = or_fields 16 (r0 * 2 ^ 8 + r1) (r2 * 2 ^ 8) (omega arith) in
    let third' : (r0 * 2 ^ 8 + r1) * 2 ^ 16 + r2 * 2 ^ 8 ≡ (r0 * 2 ^ 16 + r1 * 2 ^ 8 + r2) * 2 ^ 8 =
      omega arith in
    let fourth = or_fields 8 (r0 * 2 ^ 16 + r1 * 2 ^ 8 + r2) (r3 * 2 ^ 0) (omega arith) in
    ap (λ t. bit_or (bit_or t (r2 * 2 ^ 8)) (r3 * 2 ^ 0)) (second ∙ second')
    ∙ ap (λ t. bit_or t (r3 * 2 ^ 0)) (third ∙ third')
    ∙ fourth
    ∙ omega arith

-- `^` works on the upper and the lower part of two numbers apart.
pub xor_parts :
    (k p q r t : ℕ)
    → r < 2 ^ k
    → t < 2 ^ k
    → bit_xor (p * 2 ^ k + r) (q * 2 ^ k + t) ≡ bit_xor p q * 2 ^ k + bit_xor r t
xor_parts zero p q r t hr ht =
    let a : p * 2 ^ 0 + r ≡ p = omega arith in
    let b : q * 2 ^ 0 + t ≡ q = omega arith in
    let r0 : r ≡ 0 = omega arith in
    let t0 : t ≡ 0 = omega arith in ap₂ bit_xor a b ∙ omega (arith, ap₂ bit_xor r0 t0)
xor_parts (suc k) p q r t hr ht =
    let rest =
      xor_parts k p q (r / 2) (t / 2) (omega (arith, pow-suc 2 k)) (omega (arith, pow-suc 2 k)) in
    let a : (p * 2 ^ suc k + r) / 2 ≡ p * 2 ^ k + r / 2 = rw (pow-suc 2 k) (grind arith) in
    let b : (q * 2 ^ suc k + t) / 2 ≡ q * 2 ^ k + t / 2 = rw (pow-suc 2 k) (grind arith) in
    let c : (p * 2 ^ suc k + r) % 2 ≡ r % 2 = rw (pow-suc 2 k) (grind arith) in
    let d : (q * 2 ^ suc k + t) % 2 ≡ t % 2 = rw (pow-suc 2 k) (grind arith) in
    let e : bit_xor p q * 2 ^ suc k ≡ 2 * (bit_xor p q * 2 ^ k) = rw (pow-suc 2 k) (grind arith) in
    omega (
      arith,
      bit_xor_step (p * 2 ^ suc k + r) (q * 2 ^ suc k + t),
      bit_xor_step r t,
      rest,
      ap₂ bit_xor a b,
      c,
      d,
      e,
    )
