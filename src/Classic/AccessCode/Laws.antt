-- ===== src/Classic/AccessCode/Laws.antt =====
-- What a find is, and what the search never looks at.
use codetooth.Prelude.{
  ℕ, zero, suc, ◌+◌, ◌<◌, ◌≤◌, ◌≡◌, refl, ap, ap₂, bit_xor, ltb, ◌==◌, if◌then◌else◌, false, Option,
  none, some, List, ◌∷◌, take, get_or, Bool-cases, inl, inr, arith,
}
use codetooth.Classic.State.{Classic}
use codetooth.Classic.CountBits.{count_bits}
use codetooth.Classic.AccessCode.{search, fill_syncword, scan, find_access_code}

pub search_finds :
    (left count i curr w ac : ℕ) (buf : List ℕ) (found w' : ℕ)
    → search left count i curr w ac buf ≡ (some found, w')
    → (count ≤ found) × (found < count + left) × (count_bits (bit_xor w' ac) < 5)
unfolding search
search_finds zero count i curr w ac buf found w' h =
    let e : none ≡ some found = ap (λ r. r.0) h in cc
search_finds (suc left) count i curr w ac buf found w' h =
    elim (Bool-cases (ltb (count_bits (bit_xor w ac)) 5)) [
      | inl near ↦
          let here : (some count, w) ≡ (some found, w') = rw near at h in
          let at : some count ≡ some found = ap (λ r. r.0) here in
          let word : w ≡ w' = ap (λ r. r.1) here in
          let place : count ≡ found = cc in
          rw (← word, ← place) (omega arith, omega arith, ground arith)
      | inr far ↦
          let later = search_finds left (count + 1) _ _ _ ac buf found w' (rw far at h) in
          (omega (arith, later.0), omega (arith, later.1), later.2)
    ]

scan_finds :
    (buf : List ℕ) (s : Classic) (found w' : ℕ)
    → scan buf s ≡ (some found, w')
    → (found < 336) × (count_bits (bit_xor w' s.access_code) < 5)
unfolding scan
scan_finds buf s found w' h = elim (Bool-cases (s.syncword == 0)) [
  | inl empty ↦
      let found_there =
        search_finds 272 64 8 (get_or buf 8 0) (fill_syncword (take 8 buf) s.syncword) s.access_code
          buf found w' (rw empty at h) in
      (omega (arith, found_there.1), found_there.2)
  | inr going ↦
      let found_there =
        search_finds 336 0 0 (get_or buf 0 0) s.syncword s.access_code buf found w'
          (rw going at h) in
      (omega (arith, found_there.1), found_there.2)
]

-- A find is a place before 336, where syncword differs from the access code in fewer than five bits.
pub find_access_code_near :
    (buf : List ℕ) (s s' : Classic) (found : ℕ)
    → find_access_code buf s ≡ (some found, s')
    → (found < 336) × (count_bits (bit_xor s'.syncword s.access_code) < 5)
unfolding find_access_code
find_access_code_near buf s s' found h =
    let here : (scan buf s).0 ≡ some found = ap (λ r. r.0) h in
    let word : (scan buf s).1 ≡ s'.syncword = ap (λ r. r.1.syncword) h in
    scan_finds buf s found s'.syncword (ap₂ (λ r w. (r, w)) here word)

search_later :
    (left count i curr w ac b b' : ℕ) (rest : List ℕ)
    → search left count i curr w ac (b ∷ rest) ≡ search left count i curr w ac (b' ∷ rest)
unfolding search
search_later zero count i curr w ac b b' rest = refl
search_later (suc left) count i curr w ac b b' rest =
    ap (λ r. if ltb (count_bits (bit_xor w ac)) 5 then (some count, w) else r)
      (search_later left (count + 1) _ _ _ ac b b' rest)

-- The first round already goes on to the second byte.
first_round :
    (left curr curr' w ac b b' : ℕ) (rest : List ℕ)
    → search (suc left) 0 0 curr w ac (b ∷ rest) ≡ search (suc left) 0 0 curr' w ac (b' ∷ rest)
unfolding search
first_round left curr curr' w ac b b' rest =
    ap (λ r. if ltb (count_bits (bit_xor w ac)) 5 then (some 0, w) else r)
      (search_later left 1 1 _ _ ac b b' rest)

scan_skips :
    (b b' : ℕ) (rest : List ℕ) (s : Classic)
    → (s.syncword == 0) ≡ false
    → scan (b ∷ rest) s ≡ scan (b' ∷ rest) s
unfolding scan
scan_skips b b' rest s going = rw going (first_round 335 b b' s.syncword s.access_code b b' rest)

-- The search of a buffer that goes on from an earlier one never looks at the first byte of the
-- buffer.
pub find_access_code_skips :
    (b b' : ℕ) (rest : List ℕ) (s : Classic)
    → (s.syncword == 0) ≡ false
    → find_access_code (b ∷ rest) s ≡ find_access_code (b' ∷ rest) s
unfolding find_access_code
find_access_code_skips b b' rest s going =
    ap (λ (r : Option ℕ × ℕ). (r.0, record s { syncword = r.1 })) (scan_skips b b' rest s going)
