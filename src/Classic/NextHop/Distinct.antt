-- ===== src/Classic/NextHop/Distinct.antt =====
-- Without adaptive hopping, next_hop spreads the clock values over the channels.
use codetooth.Prelude.{
  ℕ, zero, suc, ◌+◌, ◌*◌, ◌/◌, ◌%◌, ◌^◌, ◌<◌, ◌≤◌, ◌≡◌, ◌≢◌, refl, sym, ap, ◌∙◌, bit_and, bit_xor,
  true, false, none, some, length, get_or, get_elem?, get_elem?-eq-get_or, replicate, Bool-cases,
  ◌⊎◌, inl, inr, arith, ◌==◌, ==_iff,
}
use codetooth.Prelude.Table.{all_below, all_below_sound}
use codetooth.Prelude.Bits.{and-mask, bit_and_step, xor_cancel, xor-lt}
use codetooth.Classic.State.{Classic}
use codetooth.Classic.Perm5.Laws.{perm5_injective, perm5-lt}
use codetooth.Classic.NextHop.{bank_from, precalc, perm_of, base_f_of, y1_of, tuned, next_hop}

bank_table : all_below 79 (λ i. get_or (bank_from 79 0) i 0 == i * 2 % 79) ≡ true
unfolding all_below bank_from
bank_table = refl

bank_length : length (bank_from 79 0) ≡ 79
unfolding bank_from
bank_length = refl

bank_at : (i : ℕ) → i < 79 → get_elem? (bank_from 79 0) i ≡ some (i * 2 % 79)
bank_at i h =
    get_elem?-eq-get_or (bank_from 79 0) i 0 (omega (arith, bank_length))
    ∙ ap some ((==_iff _ _).0 (all_below_sound 79 _ i bank_table h))

-- The clock without its low seven bits is all that `f` sees of it.
base_f-high : (clock : ℕ) → base_f_of clock ≡ 16 * bit_and (clock / 128) 0x1fffff
base_f-high clock =
    let halves : clock / 8 / 2 / 2 / 2 / 2 ≡ clock / 128 = omega arith in
    omega (
      arith,
      bit_and_step (clock / 8) 0x1fffff0,
      bit_and_step (clock / 8 / 2) 0xfffff8,
      bit_and_step (clock / 8 / 2 / 2) 0x7ffffc,
      bit_and_step (clock / 8 / 2 / 2 / 2) 0x3ffffe,
      ap (λ (t : ℕ). bit_and t 0x1fffff) halves,
    )

-- The place in the bank.
abbrev place : ℕ → Classic → ℕ
place clock s = perm_of clock s + s.e + base_f_of clock % 79 + y1_of clock * 32

next_hop_plain :
    (clock : ℕ) (s : Classic)
    → s.afh_enabled ≡ false
    → s.bank ≡ bank_from 79 0
    → next_hop clock s ≡ some (2402 + place clock s % 79 * 2 % 79)
unfolding next_hop tuned
next_hop_plain clock s off full = rw off (
    ap tuned (
      ap (λ bank. get_elem? bank (place clock s % 79)) full
      ∙ bank_at (place clock s % 79) (omega arith)))

-- What precalc leaves behind without adaptive hopping.
record IsPlain (s : Classic) : Type 0 where
  disabled : s.afh_enabled ≡ false
  full : s.bank ≡ bank_from 79 0
  b_range : s.b < 16

precalc-IsPlain : (s : Classic) → s.afh_enabled ≡ false → IsPlain (precalc s)
unfolding precalc
precalc-IsPlain s off = rw off (record {
  disabled = refl;
  full = refl;
  b_range = omega (arith, and-mask 4 (bit_and s.address 0xffffffff / 2 ^ 19));
})

-- Different sums stay different under an exclusive or with four bits.
xor_distinct : (p q b : ℕ) → p < 32 → q < 32 → b < 16 → bit_xor p b % 32 ≡ bit_xor q b % 32 → p ≡ q
xor_distinct p q b hp hq hb e =
    let same : bit_xor p b ≡ bit_xor q b =
      omega (arith, e, xor-lt 5 p b hp (omega arith), xor-lt 5 q b hq (omega arith)) in
    sym (xor_cancel p b) ∙ ap (λ (t : ℕ). bit_xor t b) same ∙ xor_cancel q b

perm_of-lt : (clock : ℕ) (s : Classic) → perm_of clock s < 32
unfolding perm_of
perm_of-lt clock s = perm5-lt _ _ _

-- Two clock values that agree outside bits 2 to 6 and in bit 1 and have the same `perm`.
perm_distinct :
    (clock clock' : ℕ) (s : Classic)
    → s.b < 16
    → clock / 128 ≡ clock' / 128
    → clock / 2 % 2 ≡ clock' / 2 % 2
    → perm_of clock s ≡ perm_of clock' s
    → clock / 4 % 32 ≡ clock' / 4 % 32
unfolding perm_of
perm_distinct clock clock' s hb high y1 e =
    let to_a : clock / 2 ^ 21 ≡ clock' / 2 ^ 21 = omega arith in
    let to_c : clock / 2 ^ 16 ≡ clock' / 2 ^ 16 = omega arith in
    let bit1 : y1_of clock ≡ y1_of clock' =
      and-mask 1 (clock / 2 ^ 1) ∙ y1 ∙ sym (and-mask 1 (clock' / 2 ^ 1)) in
    let inputs = perm5_injective _ _ _ _ (rw (to_a, to_c, high, bit1) at e) in
    let sums =
      xor_distinct ((bit_and (clock / 2 ^ 2) 31 + a) % 32) ((bit_and (clock' / 2 ^ 2) 31 + a) % 32)
        s.b (omega arith) (omega arith) hb inputs in
    omega (arith, sums, and-mask 5 (clock / 2 ^ 2), and-mask 5 (clock' / 2 ^ 2))
  where
    a : ℕ
    a = bit_and (bit_xor s.a1 (clock' / 2 ^ 21)) 0x1f

-- After precalc without adaptive hopping, next_hop tunes to a channel of the band.
pub next_hop_band :
    (clock : ℕ) (s : Classic)
    → s.afh_enabled ≡ false
    → (c : ℕ) × (next_hop clock (precalc s) ≡ some c) × (2402 ≤ c) × (c ≤ 2480)
next_hop_band clock s off =
    let plain = precalc-IsPlain s off in
    (
      2402 + place clock (precalc s) % 79 * 2 % 79,
      next_hop_plain clock (precalc s) plain.disabled plain.full,
      omega arith,
      omega arith,
    )

some_sum : (p q : ℕ) → some (2402 + p) ≡ some (2402 + q) → p ≡ q
some_sum p q e = grind arith

-- After precalc without adaptive hopping, two clock values that differ in bits 2 to 6 and agree in
-- bit 1 and from bit 7 on are tuned to different channels.
pub next_hop_distinct :
    (clock clock' : ℕ) (s : Classic)
    → s.afh_enabled ≡ false
    → clock / 128 ≡ clock' / 128
    → clock / 2 % 2 ≡ clock' / 2 % 2
    → clock / 4 % 32 ≢ clock' / 4 % 32
    → next_hop clock (precalc s) ≢ next_hop clock' (precalc s)
next_hop_distinct clock clock' s off high y1 differ same =
    let plain = precalc-IsPlain s off in
    let places =
      some_sum (place clock (precalc s) % 79 * 2 % 79) (place clock' (precalc s) % 79 * 2 % 79) (
        sym (next_hop_plain clock (precalc s) plain.disabled plain.full)
        ∙ same
        ∙ next_hop_plain clock' (precalc s) plain.disabled plain.full) in
    let perms : perm_of clock (precalc s) ≡ perm_of clock' (precalc s) = omega (
      arith,
      places,
      base_f-high clock,
      base_f-high clock',
      ap (λ (t : ℕ). bit_and t 0x1fffff) high,
      and-mask 1 (clock / 2 ^ 1),
      and-mask 1 (clock' / 2 ^ 1),
      y1,
      perm_of-lt clock (precalc s),
      perm_of-lt clock' (precalc s),
    ) in
    differ (perm_distinct clock clock' (precalc s) plain.b_range high y1 perms)

zeros :
    (n i : ℕ)
    → (get_elem? {A = ℕ} (replicate n 0) i ≡ none) ⊎ (get_elem? {A = ℕ} (replicate n 0) i ≡ some 0)
zeros zero i = inl refl
zeros (suc n) zero = inr refl
zeros (suc n) (suc i) = zeros n i

precalc_keeps :
    (s : Classic) → ((precalc s).afh_enabled ≡ s.afh_enabled) × ((precalc s).afh_bank ≡ s.afh_bank)
unfolding precalc
precalc_keeps s = elim (Bool-cases s.afh_enabled) [
  | inl on ↦ rw on (refl, refl)
  | inr off ↦ rw off (refl, refl)
]

stays :
    (clock : ℕ) (s : Classic)
    → s.afh_enabled ≡ true
    → s.afh_bank ≡ replicate 79 0
    → (next_hop clock s ≡ none) ⊎ (next_hop clock s ≡ some 2402)
unfolding next_hop tuned
stays clock s on blank_bank = elim (Bool-cases (s.used_channels == 0)) [
  | inl none_used ↦ rw (on, none_used) (inl refl)
  | inr used ↦
      rw (on, used, blank_bank)
        (elim (zeros 79 (adapted_place % s.used_channels)) [
          | inl beyond ↦ inl (ap tuned beyond)
          | inr first ↦ inr (ap tuned first)
        ])
]
  where
    adapted_place : ℕ
    adapted_place = perm_of clock s + s.e + base_f_of clock % s.used_channels + y1_of clock * 32

-- With adaptive hopping, and afh_bank as it is from the start, next_hop divides by zero, reads
-- beyond the array or stays on 2402 MHz.
pub next_hop_adapted :
    (clock : ℕ) (s : Classic)
    → s.afh_enabled ≡ true
    → s.afh_bank ≡ replicate 79 0
    → (next_hop clock (precalc s) ≡ none) ⊎ (next_hop clock (precalc s) ≡ some 2402)
next_hop_adapted clock s on blank_bank =
    let (enabled, bank) = precalc_keeps s in
    stays clock (precalc s) (enabled ∙ on) (bank ∙ blank_bank)
