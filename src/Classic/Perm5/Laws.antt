-- ===== src/Classic/Perm5/Laws.antt =====
-- perm5 permutes the numbers below 32, whatever the control bits.
use codetooth.Prelude.{
  ℕ, zero, suc, ◌+◌, ◌*◌, ◌/◌, ◌%◌, ◌^◌, ◌<◌, ◌≡◌, refl, sym, ap, ◌∙◌, bit_and, ◌==◌, ==_iff, true,
  false, List, [], ◌∷◌, ◌++◌, get_or, set, length, length-set, All, Bool, ◌&&◌, ltb, map,
  Bool-cases, inl, inr, arith,
}
use codetooth.Prelude.Table.{all_below, all_below_sound}
use codetooth.Prelude.Bits.{and-mask}
use codetooth.Classic.Perm5.{bits, swap, butterfly, butterflies, pack, perm5, index1, index2}

-- Five bits.
record IsFive (zs : List ℕ) : Type 0 where
  five : length zs ≡ 5
  binary : All (λ b. b < 2) zs

All-set : (zs : List ℕ) (i v : ℕ) → All (λ b. b < 2) zs → v < 2 → All (λ b. b < 2) (set zs i v)
All-set [] i v h hv = tt
All-set (z ∷ zs) zero v h hv = (hv, h.1)
All-set (z ∷ zs) (suc i) v h hv = (h.0, All-set zs i v h.1 hv)

All-get_or : (zs : List ℕ) (i : ℕ) → All (λ b. b < 2) zs → get_or zs i 0 < 2
All-get_or [] i h = omega arith
All-get_or (z ∷ zs) zero h = h.0
All-get_or (z ∷ zs) (suc i) h = All-get_or zs i h.1

butterfly-IsFive : (p : List ℕ) (i : ℕ) (zs : List ℕ) → IsFive zs → IsFive (butterfly p i zs)
unfolding butterfly
butterfly-IsFive p i zs h = elim (Bool-cases (get_or p i 0 == 0)) [
  | inl off ↦ rw off h
  | inr on ↦ rw on (record {
    five = length-set _ j _ ∙ length-set zs k _ ∙ h.five;
    binary =
        All-set _ j _ (All-set zs k _ h.binary (All-get_or zs j h.binary))
          (All-get_or zs k h.binary);
  })
]
  where
    k : ℕ
    k = get_or index1 i 0

    j : ℕ
    j = get_or index2 i 0

-- Exchanging places moves what a function says of them.
module _ (f : ℕ → ℕ) where
  get_or-map : (zs : List ℕ) (i : ℕ) → i < length zs → get_or (map f zs) i 0 ≡ f (get_or zs i 0)
  get_or-map [] i h = absurd (omega arith)
  get_or-map (z ∷ zs) zero h = refl
  get_or-map (z ∷ zs) (suc i) h = get_or-map zs i (omega arith)

  set-map : (zs : List ℕ) (i v : ℕ) → set (map f zs) i (f v) ≡ map f (set zs i v)
  set-map [] i v = refl
  set-map (z ∷ zs) zero v = refl
  set-map (z ∷ zs) (suc i) v = ap (◌∷◌ (f z)) (set-map zs i v)

  swap-map :
      (zs : List ℕ) (k j : ℕ)
      → k < length zs
      → j < length zs
      → swap (map f zs) k j ≡ map f (swap zs k j)
  unfolding swap
  swap-map zs k j hk hj =
      rw (get_or-map zs k hk, get_or-map zs j hj, set-map zs k (get_or zs j 0))
        (set-map (set zs k (get_or zs j 0)) j (get_or zs k 0))

same : List ℕ → List ℕ → Bool
same [] [] = true
same (x ∷ xs) (y ∷ ys) = x == y && same xs ys
same _ _ = false

same_sound : (xs ys : List ℕ) → same xs ys ≡ true → xs ≡ ys
unfolding same
same_sound [] [] h = refl
same_sound [] (y ∷ ys) h = cc
same_sound (x ∷ xs) [] h = cc
same_sound (x ∷ xs) (y ∷ ys) h = ground (arith, same_sound xs ys)

abbrev places : List ℕ
places = 0 ∷ 1 ∷ 2 ∷ 3 ∷ 4 ∷ []

-- The exchange of round `i` made twice is undone.
abbrev exchanged : ℕ → List ℕ → List ℕ
exchanged i zs = swap zs (get_or index1 i 0) (get_or index2 i 0)

exchange_table :
    all_below 14 (λ i.
      (ltb (get_or index1 i 0) 5 && ltb (get_or index2 i 0) 5)
      && (same (exchanged i (exchanged i places)) places && length (exchanged i places) == 5))
    ≡ true
unfolding all_below swap same
exchange_table = refl

exchanged_twice :
    (i : ℕ) (f : ℕ → ℕ) → i < 14 → exchanged i (exchanged i (map f places)) ≡ map f places
exchanged_twice i f h =
    let row = all_below_sound 14 _ i exchange_table h in
    let low : get_or index1 i 0 < 5 = ground (arith, row) in
    let high : get_or index2 i 0 < 5 = ground (arith, row) in
    let undone : same (exchanged i (exchanged i places)) places ≡ true = ground (arith, row) in
    let long : length (exchanged i places) ≡ 5 = ground (arith, row) in
    rw
      (
        swap-map f places (get_or index1 i 0) (get_or index2 i 0) low high,
        swap-map f (exchanged i places) (get_or index1 i 0) (get_or index2 i 0)
            (omega (arith, low, long)) (omega (arith, high, long)),
      )
      (ap (map f) (same_sound _ _ undone))

-- A list of five is what it says of its places.
five_places : (zs : List ℕ) → length zs ≡ 5 → map (λ n. get_or zs n 0) places ≡ zs
five_places (a ∷ b ∷ c ∷ d ∷ e ∷ []) h = refl
five_places [] h = absurd (omega arith)
five_places (a ∷ []) h = absurd (omega arith)
five_places (a ∷ b ∷ []) h = absurd (omega arith)
five_places (a ∷ b ∷ c ∷ []) h = absurd (omega arith)
five_places (a ∷ b ∷ c ∷ d ∷ []) h = absurd (omega arith)
five_places (a ∷ b ∷ c ∷ d ∷ e ∷ x ∷ zs) h = absurd (omega arith)

butterfly_twice :
    (p : List ℕ) (i : ℕ) (zs : List ℕ) → i < 14 → IsFive zs → butterfly p i (butterfly p i zs) ≡ zs
unfolding butterfly
butterfly_twice p i zs h five = elim (Bool-cases (get_or p i 0 == 0)) [
  | inl off ↦ rw off
  | inr on ↦
      let placed = five_places zs five.five in
      rw on (
        ap (λ (t : List ℕ). exchanged i (exchanged i t)) (sym placed)
        ∙ exchanged_twice i (λ n. get_or zs n 0) h
        ∙ placed)
]

-- Lists that all the rounds take to the same list are the same.
butterflies_injective :
    (n : ℕ) (p xs ys : List ℕ)
    → n < 15
    → IsFive xs
    → IsFive ys
    → butterflies n p xs ≡ butterflies n p ys
    → xs ≡ ys
unfolding butterflies
butterflies_injective zero p xs ys h hx hy e = e
butterflies_injective (suc n) p xs ys h hx hy e =
    let same_round =
      butterflies_injective n p (butterfly p n xs) (butterfly p n ys) (omega arith)
        (butterfly-IsFive p n xs hx) (butterfly-IsFive p n ys hy) e in
    sym (butterfly_twice p n xs (omega arith) hx)
    ∙ ap (butterfly p n) same_round
    ∙ butterfly_twice p n ys (omega arith) hy

butterflies-IsFive : (n : ℕ) (p zs : List ℕ) → IsFive zs → IsFive (butterflies n p zs)
unfolding butterflies
butterflies-IsFive zero p zs h = h
butterflies-IsFive (suc n) p zs h =
    butterflies-IsFive n p (butterfly p n zs) (butterfly-IsFive p n zs h)

pack-places :
    (f : ℕ → ℕ)
    → ((i : ℕ) → f i < 2)
    → pack (map f places) 0 0 ≡ f 0 + 2 * f 1 + 4 * f 2 + 8 * f 3 + 16 * f 4
unfolding pack
pack-places f h = omega (arith, h 0, h 1, h 2, h 3, h 4)

pack_injective : (xs ys : List ℕ) → IsFive xs → IsFive ys → pack xs 0 0 ≡ pack ys 0 0 → xs ≡ ys
pack_injective xs ys hx hy e = sym (five_places xs hx.five) ∙ middle ∙ five_places ys hy.five
  where
    f : ℕ → ℕ
    f n = get_or xs n 0

    g : ℕ → ℕ
    g n = get_or ys n 0

    digits :
        f 0 + 2 * f 1 + 4 * f 2 + 8 * f 3 + 16 * f 4 ≡ g 0 + 2 * g 1 + 4 * g 2 + 8 * g 3 + 16 * g 4
    digits =
        sym (pack-places f (λ i. All-get_or xs i hx.binary))
        ∙ ap (λ (t : List ℕ). pack t 0 0) (five_places xs hx.five)
        ∙ e
        ∙ sym (ap (λ (t : List ℕ). pack t 0 0) (five_places ys hy.five))
        ∙ pack-places g (λ i. All-get_or ys i hy.binary)

    low : (i : ℕ) → (f i < 2) × (g i < 2)
    low i = (All-get_or xs i hx.binary, All-get_or ys i hy.binary)

    at0 : f 0 ≡ g 0
    at0 = omega (arith, digits, low 0, low 1, low 2, low 3, low 4)

    at1 : f 1 ≡ g 1
    at1 = omega (arith, digits, at0, low 1, low 2, low 3, low 4)

    at2 : f 2 ≡ g 2
    at2 = omega (arith, digits, at0, at1, low 2, low 3, low 4)

    at3 : f 3 ≡ g 3
    at3 = omega (arith, digits, at0, at1, at2, low 3, low 4)

    at4 : f 4 ≡ g 4
    at4 = omega (arith, digits, at0, at1, at2, at3)

    middle : map f places ≡ map g places
    middle = rw (at0, at1, at2, at3, at4) refl

bits_table : all_below 32 (λ x. pack (bits 5 0 x) 0 0 == x) ≡ true
unfolding all_below bits pack
bits_table = refl

bits-IsFive : (x : ℕ) → IsFive (bits 5 0 x)
unfolding bits
bits-IsFive x = record { five = refl; binary = (low 0, (low 1, (low 2, (low 3, (low 4, tt))))) }
  where
    low : (i : ℕ) → bit_and (x / 2 ^ i) 1 < 2
    low i = omega (arith, and-mask 1 (x / 2 ^ i))

pack-bits : (z : ℕ) → pack (bits 5 0 (bit_and z 0x1f)) 0 0 ≡ z % 32
pack-bits z =
    ap (λ (t : ℕ). pack (bits 5 0 t) 0 0) (and-mask 5 z)
    ∙ (==_iff _ _).0 (all_below_sound 32 _ (z % 32) bits_table (omega arith))

abbrev controls : (p_high p_low : ℕ) → List ℕ
controls p_high p_low = bits 9 0 (bit_and p_low 0x1ff) ++ bits 5 0 (bit_and p_high 0x1f)

-- For any control bits perm5 takes two numbers to the same only if their five low bits agree.
pub perm5_injective :
    (z z' p_high p_low : ℕ) → perm5 z p_high p_low ≡ perm5 z' p_high p_low → z % 32 ≡ z' % 32
unfolding perm5
perm5_injective z z' p_high p_low e =
    sym (pack-bits z)
    ∙ ap (λ (t : List ℕ). pack t 0 0)
        (butterflies_injective 14 p (start z) (start z') (omega arith) (bits-IsFive _)
          (bits-IsFive _)
          (pack_injective _ _ (butterflies-IsFive 14 p (start z) (bits-IsFive _))
            (butterflies-IsFive 14 p (start z') (bits-IsFive _)) e))
    ∙ pack-bits z'
  where
    p : List ℕ
    p = controls p_high p_low

    start : ℕ → List ℕ
    start x = bits 5 0 (bit_and x 0x1f)

pub perm5-lt : (z p_high p_low : ℕ) → perm5 z p_high p_low < 32
unfolding perm5
perm5-lt z p_high p_low =
    let placed = five_places out five.five in
    omega (
      arith,
      ap (λ (t : List ℕ). pack t 0 0) placed,
      pack-places (λ n. get_or out n 0) (λ i. All-get_or out i five.binary),
      All-get_or out 0 five.binary,
      All-get_or out 1 five.binary,
      All-get_or out 2 five.binary,
      All-get_or out 3 five.binary,
      All-get_or out 4 five.binary,
    )
  where
    out : List ℕ
    out = butterflies 14 (controls p_high p_low) (bits 5 0 (bit_and z 0x1f))

    five : IsFive out
    five =
        butterflies-IsFive 14 (controls p_high p_low) (bits 5 0 (bit_and z 0x1f))
          (bits-IsFive (bit_and z 0x1f))
