-- ===== src/Firmware/Symbols/Spelled.antt =====
-- Bytes put together from symbols, as numbers.
use codetooth.Prelude.{
  drop-add, ◌/◌, ◌*◌, ℕ, zero, suc, ◌+◌, ◌%◌, ◌<◌, ◌≡◌, refl, sym, ap, ap₂, ◌∙◌, bit_or, ◌<<<◌,
  List, [], ◌∷◌, get_or, drop, All, arith,
}
use codetooth.Firmware.Symbols.Found.{gather-symbols_of}
use codetooth.Firmware.Symbols.{gather}

-- The symbols from a place on, and the number that symbols spell, the first of them the lowest bit.
abbrev pub symbols_from : (left place : ℕ) → List ℕ → List ℕ
symbols_from zero n xs = []
symbols_from (suc left) n xs = get_or xs n 0 ∷ symbols_from left (n + 1) xs

abbrev pub number_of : List ℕ → ℕ
number_of [] = 0
number_of (x ∷ xs) = x + 2 * number_of xs

abbrev pub spelled : (symbols : List ℕ) (place : ℕ) → ℕ
spelled xs n = number_of (symbols_from 8 n xs)

first_at : (n : ℕ) (xs : List ℕ) → get_or (drop n xs) 0 0 ≡ get_or xs n 0
first_at zero [] = refl
first_at zero (x ∷ xs) = refl
first_at (suc n) [] = refl
first_at (suc n) (x ∷ xs) = first_at n xs

gather-symbols_from :
    (left k b n : ℕ) (xs : List ℕ)
    → gather left k b (drop n xs) ≡ gather left k b (symbols_from left n xs)
unfolding gather
gather-symbols_from zero k b n xs = refl
gather-symbols_from (suc left) k b n xs =
    ap₂ (λ (x : ℕ) ys. gather left (k + 1) (bit_or b (x <<< k)) ys) (first_at n xs)
      (sym (drop-add n 1 xs))
    ∙ gather-symbols_from left (k + 1) (bit_or b (get_or xs n 0 <<< k)) (n + 1) xs

is_bit : (xs : List ℕ) → All (λ x. x < 2) xs → (j : ℕ) → get_or xs j 0 < 2
is_bit [] all j = omega arith
is_bit (x ∷ xs) all zero = all.0
is_bit (x ∷ xs) all (suc j) = is_bit xs all.1 j

-- Eight symbols, each 0 or 1.
gather-number_of :
    (x0 x1 x2 x3 x4 x5 x6 x7 : ℕ)
    → All (λ x. x < 2) (x0 ∷ x1 ∷ x2 ∷ x3 ∷ x4 ∷ x5 ∷ x6 ∷ x7 ∷ [])
    → let xs = x0 ∷ x1 ∷ x2 ∷ x3 ∷ x4 ∷ x5 ∷ x6 ∷ x7 ∷ [] in gather 8 0 0 xs ≡ number_of xs
gather-number_of x0 x1 x2 x3 x4 x5 x6 x7 (h0, (h1, (h2, (h3, (h4, (h5, (h6, (h7, _)))))))) =
    ap (gather 8 0 0) (λ k. e0 k ∷ e1 k ∷ e2 k ∷ e3 k ∷ e4 k ∷ e5 k ∷ e6 k ∷ e7 k ∷ [])
    ∙ gather-symbols_of byte [] (omega arith)
  where
    byte : ℕ
    byte = x0 + 2 * (x1 + 2 * (x2 + 2 * (x3 + 2 * (x4 + 2 * (x5 + 2 * (x6 + 2 * (x7 + 2 * 0)))))))

    e0 : x0 ≡ byte % 2
    e0 = omega arith

    e1 : x1 ≡ byte / 2 % 2
    e1 = omega arith

    e2 : x2 ≡ byte / 4 % 2
    e2 = omega arith

    e3 : x3 ≡ byte / 8 % 2
    e3 = omega arith

    e4 : x4 ≡ byte / 16 % 2
    e4 = omega arith

    e5 : x5 ≡ byte / 32 % 2
    e5 = omega arith

    e6 : x6 ≡ byte / 64 % 2
    e6 = omega arith

    e7 : x7 ≡ byte / 128 % 2
    e7 = omega arith

symbols_from-All :
    (left n : ℕ) (xs : List ℕ) → All (λ x. x < 2) xs → All (λ x. x < 2) (symbols_from left n xs)
symbols_from-All zero n xs all = tt
symbols_from-All (suc left) n xs all = (is_bit xs all n, symbols_from-All left (n + 1) xs all)

pub gather_spells :
    (n : ℕ) (xs : List ℕ) → All (λ x. x < 2) xs → gather 8 0 0 (drop n xs) ≡ spelled xs n
gather_spells n xs all =
    gather-symbols_from 8 0 0 n xs ∙ gather-number_of _ _ _ _ _ _ _ _ (symbols_from-All 8 n xs all)
