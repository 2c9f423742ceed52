-- ===== src/Firmware/Symbols/Search.antt =====
-- The shift register of cb_follow_le against a comparison of 32 symbols at each place.
use codetooth.Prelude.{
  ℕ, zero, suc, ◌+◌, ◌*◌, ◌/◌, ◌^◌, ◌<◌, ◌≤◌, ◌≡◌, refl, sym, ap, ap₂, ◌∙◌, bit_or, ◌==◌,
  if◌then◌else◌, Option, none, some, List, [], ◌∷◌, ◌++◌, take, drop, All, length, length-append,
  length-take, length-drop, take-append-drop, take-append, arith,
}
use codetooth.Prelude.Bits.{or_low}
use codetooth.Firmware.Symbols.{shift_symbol, preload, search_aa, find_aa}
use codetooth.Firmware.Sync.Words.{pow-add}
use native.Mathlib.Nat.{pow-suc, add-mul, mul-lt-mul_of_pos_right}
use codetooth.Le.Reversal.{pow_pos}

-- The number that symbols spell, the first the lowest.
pub word_of : List ℕ → ℕ
word_of [] = 0
word_of (bit ∷ bits) = bit + 2 * word_of bits

abbrev pub AreSymbols : List ℕ → Type 0
AreSymbols bits = All (λ b. b < 2) bits

-- The first of `left` places where the next 32 symbols spell a word.
pub first_place : (left wanted start : ℕ) → List ℕ → Option ℕ
unfolding word_of
first_place zero wanted start bits = none
first_place (suc left) wanted start bits =
    let rest = first_place left wanted (start + 1) (drop 1 bits) in
    if word_of (take 32 bits) == wanted then some start else rest

word_of-append : (xs : List ℕ) (b : ℕ) → word_of (xs ++ (b ∷ [])) ≡ word_of xs + b * 2 ^ length xs
unfolding word_of
word_of-append [] b = omega arith
word_of-append (x ∷ xs) b =
    let p : b * 2 ^ suc (length xs) ≡ 2 * (b * 2 ^ length xs) = rw pow-suc (grind arith) in
    omega (arith, word_of-append xs b, p)

word_of-lt : (xs : List ℕ) → AreSymbols xs → word_of xs < 2 ^ length xs
unfolding word_of
word_of-lt [] h = omega arith
word_of-lt (x ∷ xs) h = omega (arith, h.0, word_of-lt xs h.1, pow-suc 2 (length xs))

-- The register after one more symbol, where its upper 31 places hold those before.
pushed :
    (w : List ℕ) (reg b : ℕ)
    → AreSymbols w
    → length w ≡ 31
    → reg / 2 ≡ word_of w
    → shift_symbol reg b ≡ word_of (w ++ (b ∷ []))
pushed w reg b sym_w size held =
    let low : word_of w < 2 ^ 31 = omega (arith, word_of-lt w sym_w, ap (λ n. 2 ^ n) size) in
    let moved : b * 2 ^ length w ≡ b * 2 ^ 31 = ap (λ n. b * 2 ^ n) size in
    ap (λ t. bit_or t (b * 2 ^ 31)) held
    ∙ or_low 31 (word_of w) b low
    ∙ omega (arith, word_of-append w b, moved)

append_assoc_one : (xs : List ℕ) (b : ℕ) (ys : List ℕ) → (xs ++ (b ∷ [])) ++ ys ≡ xs ++ (b ∷ ys)
append_assoc_one [] b ys = refl
append_assoc_one (x ∷ xs) b ys = ap (λ t. x ∷ t) (append_assoc_one xs b ys)

All-append : (xs : List ℕ) (b : ℕ) → AreSymbols xs → b < 2 → AreSymbols (xs ++ (b ∷ []))
All-append [] b h hb = (hb, tt)
All-append (x ∷ xs) b h hb = (h.0, All-append xs b h.1 hb)

search_lem :
    (left wanted reg start x : ℕ) (xs ahead : List ℕ)
    → length xs ≡ 30
    → AreSymbols (x ∷ xs)
    → AreSymbols ahead
    → left ≤ length ahead
    → reg / 2 ≡ word_of (x ∷ xs)
    → search_aa left wanted reg start ahead ≡ first_place left wanted start ((x ∷ xs) ++ ahead)
unfolding search_aa first_place
search_lem zero wanted reg start x xs ahead size sw sa enough held = refl
search_lem (suc left) wanted reg start x xs [] size sw sa enough held = absurd (omega arith)
search_lem (suc left) wanted reg start x [] (b ∷ ahead) size sw sa enough held =
    absurd (omega arith)
search_lem (suc left) wanted reg start x (y ∷ ys) (b ∷ ahead) size sw sa enough held =
    let w = x ∷ y ∷ ys in
    let now : shift_symbol reg b ≡ word_of (w ++ (b ∷ [])) = pushed w reg b sw (omega arith) held in
    let window : word_of (take 32 (w ++ (b ∷ ahead))) ≡ shift_symbol reg b =
      ap (λ l. word_of (take 32 l)) (sym (append_assoc_one w b ahead))
      ∙ ap word_of (take-append (w ++ (b ∷ [])) ahead 32 (omega (arith, length-append w (b ∷ []))))
      ∙ sym now in
    let held' : shift_symbol reg b / 2 ≡ word_of (y ∷ (ys ++ (b ∷ []))) =
      omega (arith, now, sw.0) in
    let rest =
      search_lem left wanted (shift_symbol reg b) (start + 1) y (ys ++ (b ∷ [])) ahead
        (omega (arith, length-append ys (b ∷ []))) (All-append (y ∷ ys) b sw.1 sa.0) sa.1
        (omega arith) held' in
    ap₂ (λ t r. if t == wanted then some start else r) (sym window)
      (rest ∙ ap (λ l. first_place left wanted (start + 1) (y ∷ l)) (append_assoc_one ys b ahead))

append_nil : (xs : List ℕ) → xs ++ [] ≡ xs
append_nil [] = refl
append_nil (x ∷ xs) = ap (λ t. x ∷ t) (append_nil xs)

-- One symbol of the loop before the search: the symbols so far lie at the top of the register.
preloaded :
    (p : List ℕ) (left b : ℕ)
    → AreSymbols p
    → length p + suc left ≡ 31
    → shift_symbol (word_of p * 2 ^ suc (suc left)) b ≡ word_of (p ++ (b ∷ [])) * 2 ^ suc left
preloaded p left b sym_p size =
    let half : word_of p * 2 ^ suc (suc left) / 2 ≡ word_of p * 2 ^ suc left =
      rw (pow-suc 2 (suc left)) (grind arith) in
    let whole : 2 ^ length p * 2 ^ suc left ≡ 2 ^ 31 =
      sym (pow-add (length p) (suc left)) ∙ ap (λ n. 2 ^ n) size in
    let low : word_of p * 2 ^ suc left < 2 ^ 31 =
      omega (arith, mul-lt-mul_of_pos_right (word_of-lt p sym_p) (pow_pos (suc left)), whole) in
    let sum : b * 2 ^ 31 ≡ b * 2 ^ length p * 2 ^ suc left =
      ap (λ t. b * t) (sym whole) ∙ grind arith in
    ap (λ t. bit_or t (b * 2 ^ 31)) half
    ∙ or_low 31 (word_of p * 2 ^ suc left) b low
    ∙ rw (word_of-append p b)
        (omega (arith, sum, add-mul (word_of p) (b * 2 ^ length p) (2 ^ suc left)))

preload_lem :
    (left : ℕ) (p bits : List ℕ)
    → AreSymbols p
    → AreSymbols bits
    → length p + left ≡ 31
    → left ≤ length bits
    → preload left (word_of p * 2 ^ suc left) bits ≡ word_of (p ++ take left bits) * 2
unfolding preload
preload_lem zero p bits sp sb size enough = ap (λ l. word_of l * 2) (sym (append_nil p))
preload_lem (suc left) p [] sp sb size enough = absurd (omega arith)
preload_lem (suc left) p (b ∷ bits) sp sb size enough =
    ap (λ r. preload left r bits) (preloaded p left b sp size)
    ∙ preload_lem left (p ++ (b ∷ [])) bits (All-append p b sp sb.0) sb.1
        (omega (arith, length-append p (b ∷ []))) (omega arith)
    ∙ ap (λ l. word_of l * 2) (append_assoc_one p b (take left bits))

take-AreSymbols : (n : ℕ) (xs : List ℕ) → AreSymbols xs → AreSymbols (take n xs)
take-AreSymbols zero xs h = tt
take-AreSymbols (suc n) [] h = tt
take-AreSymbols (suc n) (x ∷ xs) h = (h.0, take-AreSymbols n xs h.1)

drop-AreSymbols : (n : ℕ) (xs : List ℕ) → AreSymbols xs → AreSymbols (drop n xs)
drop-AreSymbols zero xs h = h
drop-AreSymbols (suc n) [] h = tt
drop-AreSymbols (suc n) (x ∷ xs) h = drop-AreSymbols n xs h.1

search_window :
    (left wanted reg start : ℕ) (w ahead : List ℕ)
    → length w ≡ 31
    → AreSymbols w
    → AreSymbols ahead
    → left ≤ length ahead
    → reg / 2 ≡ word_of w
    → search_aa left wanted reg start ahead ≡ first_place left wanted start (w ++ ahead)
search_window left wanted reg start [] ahead size sw sa enough held = absurd (omega arith)
search_window left wanted reg start (x ∷ xs) ahead size sw sa enough held =
    search_lem left wanted reg start x xs ahead (omega arith) sw sa enough held

-- In a buffer of 432 symbols or more, each 0 or 1, the search with a shift register finds the first
-- of 401 places from which 32 symbols, the first the lowest, spell the access address, and none
-- where there is no such place.
pub find_aa-eq-first_place :
    (wanted : ℕ) (unpacked : List ℕ)
    → AreSymbols unpacked
    → 432 ≤ length unpacked
    → find_aa wanted unpacked ≡ first_place 401 wanted 0 unpacked
unfolding find_aa
find_aa-eq-first_place wanted unpacked symbols enough =
    let held = preload_lem 31 [] unpacked tt symbols (omega arith) (omega arith) in
    let none_yet : 0 ≡ word_of [] * 2 ^ 32 = unfold word_of in omega arith in
    search_window 401 wanted (preload 31 0 unpacked) 0 (take 31 unpacked) (drop 31 unpacked)
      (omega (arith, length-take 31 unpacked)) (take-AreSymbols 31 unpacked symbols)
      (drop-AreSymbols 31 unpacked symbols) (omega (arith, length-drop 31 unpacked))
      (omega (arith, held, ap (λ r. preload 31 r unpacked) none_yet))
    ∙ ap (first_place 401 wanted 0) (take-append-drop 31 unpacked)
