-- ===== src/Classic/AccessCode/Window.antt =====
-- The 64 symbols that the search for an access code compares.
use codetooth.Prelude.{
  ℕ, zero, suc, ◌+◌, ◌-◌, ◌*◌, ◌/◌, ◌%◌, ◌^◌, ◌<◌, ◌≤◌, ◌≡◌, refl, sym, ap, ap₂, ◌∙◌, u8, bit_and,
  bit_or, bit_xor, ◌<<<◌, ◌>>>◌, ltb, ◌==◌, ==_iff, if◌then◌else◌, true, false, none, some, List,
  [], ◌∷◌, ◌++◌, take, drop, length, length-drop, get_or, All, Bool-cases, inl, inr, arith,
}
use codetooth.Prelude.Bits.{and-mask, or_fields, bit_and_step}
use codetooth.Prelude.Table.{all_below, all_below_sound}
use codetooth.Classic.State.{Classic}
use codetooth.Classic.CountBits.{count_bits}
use codetooth.Classic.AccessCode.{shift_in, search, fill_syncword, scan, find_access_code}
use codetooth.Classic.AccessCode.Laws.{search_finds, find_access_code_near}

-- The symbols of bytes, the highest bit of each first.
abbrev pub tops : (left byte : ℕ) → List ℕ
tops zero b = []
tops (suc left) b = b / 128 ∷ tops left (b * 2 % 256)

abbrev pub symbols : List ℕ → List ℕ
symbols [] = []
symbols (b ∷ bs) = tops 8 b ++ symbols bs

-- The last 64 symbols, as a number, after `n` more symbols.
abbrev pub window : (n : ℕ) → List ℕ → (word : ℕ) → ℕ
window zero xs w = w
window (suc n) [] w = w
window (suc n) (x ∷ xs) w = window n xs ((w * 2 + x) % 18446744073709551616)

-- Bytes as a number of 64 bits, the first the highest.
abbrev pub big_endian : List ℕ → (word : ℕ) → ℕ
big_endian [] w = w
big_endian (b ∷ bs) w = big_endian bs ((w * 256 + b) % 18446744073709551616)

abbrev doubled : ℕ → ℕ → ℕ
doubled zero x = x
doubled (suc k) x = doubled k x * 2

and_double : (x y : ℕ) → bit_and (x * 2) (y * 2) ≡ bit_and x y * 2
and_double x y =
    let e : x * 2 / 2 ≡ x = omega arith in
    let e' : y * 2 / 2 ≡ y = omega arith in
    bit_and_step (x * 2) (y * 2) ∙ omega (arith, ap₂ bit_and e e')

and-doubled : (k x y : ℕ) → bit_and (doubled k x) (doubled k y) ≡ doubled k (bit_and x y)
and-doubled zero x y = refl
and-doubled (suc k) x y =
    and_double (doubled k x) (doubled k y) ∙ ap (λ (n : ℕ). n * 2) (and-doubled k x y)

top_table : all_below 256 (λ b. bit_and b 0x80 >>> 7 == b / 128) ≡ true
unfolding all_below
top_table = refl

top_bit : (b : ℕ) → b < 256 → bit_and b 0x80 >>> 7 ≡ b / 128
top_bit b h =
    (==_iff _ _).0 (all_below_sound 256 (λ b. bit_and b 0x80 >>> 7 == b / 128) b top_table h)

shift_in_lem : (w b : ℕ) → b < 256 → shift_in w b ≡ (w * 2 + b / 128) % 18446744073709551616
unfolding shift_in
shift_in_lem w b h =
    let q = w % 9223372036854775808 in
    let wide : w * 2 % 18446744073709551616 ≡ q * 2 = omega arith in
    let high : bit_and (w * 2 % 18446744073709551616) 0xfffffffffffffffe ≡ q * 2 =
      ap (λ (x : ℕ). bit_and x 0xfffffffffffffffe) wide
      ∙ and_double q 0x7fffffffffffffff
      ∙ ap (λ (x : ℕ). x * 2) (and-mask 63 q ∙ omega arith) in
    ap₂ bit_or high (top_bit b h) ∙ or_fields 1 q (b / 128) (omega arith) ∙ omega arith

fill_step :
    (w b : ℕ)
    → b < 256
    → bit_or (bit_and (w * 256 % 18446744073709551616) 0xffffffffffffff00) b
      ≡ (w * 256 + b) % 18446744073709551616
fill_step w b h =
    let q = w % 72057594037927936 in
    let wide : w * 256 % 18446744073709551616 ≡ doubled 8 q = omega arith in
    let same : bit_and q 0xffffffffffffff ≡ q = and-mask 56 q ∙ omega arith in
    let places : doubled 8 q ≡ q * 2 ^ 8 = omega arith in
    let high : bit_and (w * 256 % 18446744073709551616) 0xffffffffffffff00 ≡ q * 2 ^ 8 =
      ap (λ (x : ℕ). bit_and x 0xffffffffffffff00) wide
      ∙ and-doubled 8 q 0xffffffffffffff
      ∙ ap (doubled 8) same
      ∙ places in
    ap (λ (x : ℕ). bit_or x b) high ∙ or_fields 8 q b h ∙ omega arith

fill_syncword-big_endian :
    (bytes : List ℕ) (w : ℕ) → All (λ b. b < 256) bytes → fill_syncword bytes w ≡ big_endian bytes w
unfolding fill_syncword
fill_syncword-big_endian [] w all = refl
fill_syncword-big_endian (b ∷ bs) w (h, all) =
    ap (fill_syncword bs) (fill_step w b h)
    ∙ fill_syncword-big_endian bs ((w * 256 + b) % 18446744073709551616) all

take-All : (n : ℕ) (xs : List ℕ) → All (λ b. b < 256) xs → All (λ b. b < 256) (take n xs)
take-All zero xs all = tt
take-All (suc n) [] all = tt
take-All (suc n) (x ∷ xs) (h, all) = (h, take-All n xs all)

is_byte : (xs : List ℕ) → All (λ b. b < 256) xs → (i : ℕ) → get_or xs i 0 < 256
is_byte [] all i = omega arith
is_byte (x ∷ xs) all zero = all.0
is_byte (x ∷ xs) all (suc i) = is_byte xs all.1 i

drop_one : (i : ℕ) (xs : List ℕ) → i < length xs → drop i xs ≡ get_or xs i 0 ∷ drop (suc i) xs
drop_one i [] h = absurd (omega arith)
drop_one zero (x ∷ xs) h = refl
drop_one (suc i) (x ∷ xs) h = drop_one i xs (omega arith)

-- A find at once, and one after another symbol.
found_here :
    {count found w w' : ℕ} (xs : List ℕ)
    → some count ≡ some found
    → w ≡ w'
    → w' ≡ window (found - count) xs w
found_here {count} {found} {w} {w'} xs at same =
    let place : count ≡ found = cc in
    let none_more : found - count ≡ 0 = omega arith in rw none_more (sym same)

one_more :
    (n n' w b x : ℕ) (xs : List ℕ)
    → n' ≡ suc n
    → shift_in w b ≡ (w * 2 + x) % 18446744073709551616
    → window n xs (shift_in w b) ≡ window n' (x ∷ xs) w
one_more n n' w b x xs more shifted = rw (more, shifted) refl

-- From a place in a byte of which `m` symbols are left, in `curr`, before those of the bytes after.
search-window :
    (left m count i curr w ac : ℕ) (buf : List ℕ) (found w' : ℕ)
    → All (λ b. b < 256) buf
    → curr < 256
    → m < 8
    → (count + m) % 8 ≡ 0
    → left ≤ m + 8 * length (drop (suc i) buf)
    → search left count i curr w ac buf ≡ (some found, w')
    → w' ≡ window (found - count) (tops m curr ++ symbols (drop (suc i) buf)) w
unfolding search
search-window zero m count i curr w ac buf found w' all small few aligned enough h =
    let e : none ≡ some found = ap (λ r. r.0) h in cc
search-window (suc left) zero count i curr w ac buf found w' all small few aligned enough h =
    elim (Bool-cases (ltb (count_bits (bit_xor w ac)) 5)) [
      | inl near ↦
          let here : (some count, w) ≡ (some found, w') = rw near at h in
          found_here (symbols (drop (suc i) buf)) (ap (λ r. r.0) here) (ap (λ r. r.1) here)
      | inr far ↦
          let b = get_or buf (suc i) 0 in
          let starts : (count % 8 == 0) ≡ true = ground arith in
          let inside : suc i < length buf = omega (arith, length-drop (suc i) buf) in
          let front = drop_one (suc i) buf inside in
          let later : search left (count + 1) (suc i) (u8 (b <<< 1)) (shift_in w b) ac buf
              ≡ (some found, w') =
            rw (far, starts) at h in
          let place = (search_finds left (count + 1) (suc i) _ _ ac buf found w' later).0 in
          search-window left 7 (count + 1) (suc i) (u8 (b <<< 1)) (shift_in w b) ac buf found w' all
            (omega arith) (omega arith) (omega arith) (omega (arith, ap length front)) later
          ∙ one_more (found - (count + 1)) (found - count) w b (b / 128)
              (tops 7 (u8 (b <<< 1)) ++ symbols (drop (suc (suc i)) buf)) (omega (arith, place))
              (shift_in_lem w b (is_byte buf all (suc i)))
          ∙ ap (λ bs. window (found - count) (symbols bs) w) (sym front)
    ]
search-window (suc left) (suc m) count i curr w ac buf found w' all small few aligned enough h =
    elim (Bool-cases (ltb (count_bits (bit_xor w ac)) 5)) [
      | inl near ↦
          let here : (some count, w) ≡ (some found, w') = rw near at h in
          found_here (tops (suc m) curr ++ symbols (drop (suc i) buf)) (ap (λ r. r.0) here)
            (ap (λ r. r.1) here)
      | inr far ↦
          let goes_on : (count % 8 == 0) ≡ false = ground arith in
          let later : search left (count + 1) i (u8 (curr <<< 1)) (shift_in w curr) ac buf
              ≡ (some found, w') =
            rw (far, goes_on) at h in
          let place = (search_finds left (count + 1) i _ _ ac buf found w' later).0 in
          search-window left m (count + 1) i (u8 (curr <<< 1)) (shift_in w curr) ac buf found w' all
            (omega arith) (omega arith) (omega arith) (omega arith) later
          ∙ one_more (found - (count + 1)) (found - count) w curr (curr / 128)
              (tops m (u8 (curr <<< 1)) ++ symbols (drop (suc i) buf)) (omega (arith, place))
              (shift_in_lem w curr small)
    ]

-- In a buffer of 50 bytes a find is a place before 336. There syncword, which differs from the
-- access code in fewer than five bits, holds the last 64 of these symbols: the 64 that it held
-- before, or, where it was 0, those of the first eight bytes of the buffer; and then as many as
-- lie before the place, of the buffer from its second byte on, or, where syncword was 0, of the
-- buffer from its tenth byte on.
pub find_access_code_finds :
    (buf : List ℕ) (s s' : Classic) (found : ℕ)
    → length buf ≡ 50
    → All (λ b. b < 256) buf
    → find_access_code buf s ≡ (some found, s')
    → (found < 336)
      × (count_bits (bit_xor s'.syncword s.access_code) < 5)
      × (s'.syncword ≡ (
          if s.syncword == 0
          then window (found - 64) (symbols (drop 9 buf)) (big_endian (take 8 buf) 0)
          else window found (symbols (drop 1 buf)) s.syncword))
unfolding find_access_code scan
find_access_code_finds buf s s' found long all h =
    let whole : found - 0 ≡ found = omega arith in
    let near = find_access_code_near buf s s' found h in
    let here : (scan buf s).0 ≡ some found = ap (λ r. r.0) h in
    let word : (scan buf s).1 ≡ s'.syncword = ap (λ r. r.1.syncword) h in
    let ends : scan buf s ≡ (some found, s'.syncword) = ap₂ (λ r w. (r, w)) here word in
    (
      near.0,
      near.1,
      elim (Bool-cases (s.syncword == 0)) [
        | inl empty ↦
            let zero_word : s.syncword ≡ 0 = (==_iff s.syncword 0).0 empty in
            let held =
              fill_syncword-big_endian (take 8 buf) s.syncword (take-All 8 buf all)
              ∙ ap (big_endian (take 8 buf)) zero_word in
            rw empty (
              search-window 272 0 64 8 (get_or buf 8 0) (fill_syncword (take 8 buf) s.syncword)
                s.access_code buf found s'.syncword all (is_byte buf all 8) (omega arith)
                (omega arith) (omega (arith, length-drop 9 buf)) (rw empty at ends)
              ∙ ap (window (found - 64) (symbols (drop 9 buf))) held)
        | inr going ↦ rw going (
            search-window 336 0 0 0 (get_or buf 0 0) s.syncword s.access_code buf found s'.syncword
              all (is_byte buf all 0) (omega arith) (omega arith) (omega (arith, length-drop 1 buf))
              (rw going at ends)
            ∙ ap (λ (n : ℕ). window n (symbols (drop 1 buf)) s.syncword) whole)
      ],
    )
