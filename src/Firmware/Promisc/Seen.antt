-- ===== src/Firmware/Promisc/Seen.antt =====
-- The table of access addresses counts what it knows and evicts what it saw least.
use codetooth.Prelude.{
  ℕ, suc, ◌+◌, ◌≤◌, ◌<◌, ◌≡◌, refl, ap, ◌∙◌, ltb, ◌==◌, if◌then◌else◌, none, some, List, [], ◌∷◌,
  sym, arith, length, get_or, set, All, Bool-cases, inl, inr,
}
use native.Mathlib.Decide.{dec_lt}
use codetooth.Firmware.State.{SeenAddress}
use codetooth.Firmware.Promisc.{count_known, find_victim, see_aa}

abbrev pub unseen : SeenAddress
unseen = record { aa = 0; count = 0 }

-- How often an address was counted: the sum over its entries.
pub sightings : ℕ → List SeenAddress → ℕ
sightings aa [] = 0
sightings aa (e ∷ es) = (if e.aa == aa then e.count else 0) + sightings aa es

count_known-length :
    (aa : ℕ) (es es' : List SeenAddress) → count_known aa es ≡ some es' → length es' ≡ length es
unfolding count_known
count_known-length aa [] es' h = cc
count_known-length aa (e ∷ es) [] h = ground arith
count_known-length aa (e ∷ es) (e' ∷ es') h = ground (arith, count_known-length aa es es')

count_known-sightings :
    (aa other : ℕ) (es es' : List SeenAddress)
    → count_known aa es ≡ some es'
    → sightings other es' ≡ (if other == aa then 1 else 0) + sightings other es
unfolding count_known sightings
count_known-sightings aa other [] es' h = cc
count_known-sightings aa other (e ∷ es) [] h = ground arith
count_known-sightings aa other (e ∷ es) (e' ∷ es') h =
    ground (arith, count_known-sightings aa other es es')

-- The loop over the rest of the entries ends at an index whose count is least. `pre` are the
-- counts before, all at least `m`.
pub find_victim-min :
    (entries : List SeenAddress) (i killme m : ℕ) (at : ℕ → ℕ)
    → ((j : ℕ) → j < length entries → at (i + j) ≡ (get_or entries j unseen).count)
    → killme < i
    → at killme ≡ m
    → ((j : ℕ) → j < i → m ≤ at j)
    → (find_victim entries i killme (some m) < i + length entries)
      × ((j : ℕ) → j < i + length entries → at (find_victim entries i killme (some m)) ≤ at j)
unfolding find_victim
find_victim-min [] i killme m at same before here least =
    (omega arith, λ j h. omega (arith, least j (omega arith)))
find_victim-min (e ∷ es) i killme m at same before here least =
    let end : i + 1 + length es ≡ i + suc (length es) = omega arith in
    rw (← end) (elim (Bool-cases (ltb e.count m)) [
      | inl better ↦
          let smaller : e.count < m = ground arith in
          rw better (
            find_victim-min es (i + 1) i e.count at later (omega arith) first (λ j h.
              elim (dec_lt j i) [
                | yes old ↦ omega (arith, least j old)
                | no new ↦ let at_i : j ≡ i = omega arith in rw (at_i, first) (omega arith)
              ]))
      | inr worse ↦
          let larger : m ≤ e.count = ground arith in
          rw worse (
            find_victim-min es (i + 1) killme m at later (omega arith) here (λ j h.
              elim (dec_lt j i) [
                | yes old ↦ least j old
                | no new ↦ let at_i : j ≡ i = omega arith in rw (at_i, first) larger
              ]))
    ])
  where
    first : at i ≡ e.count
    first =
        let none_added : i + 0 ≡ i = omega arith in ap at (sym none_added) ∙ same 0 (omega arith)

    later : (j : ℕ) → j < length es → at (i + 1 + j) ≡ (get_or es j unseen).count
    later j h =
        let moved : i + 1 + j ≡ i + suc j = omega arith in ap at moved ∙ same (suc j) (omega arith)

abbrev pub count_at : List SeenAddress → ℕ → ℕ
count_at entries j = (get_or entries j unseen).count

-- The entry that see_aa evicts for an address it does not know has the least count of all.
victim_least :
    (entries : List SeenAddress)
    → 0 < length entries
    → (find_victim entries 0 0 none < length entries)
      × ((j : ℕ)
          → j < length entries
          → count_at entries (find_victim entries 0 0 none) ≤ count_at entries j)
unfolding find_victim
victim_least [] h = absurd (omega arith)
victim_least (e ∷ es) h =
    let end : 1 + length es ≡ suc (length es) = omega arith in
    rw (← end) (
      find_victim-min es 1 0 e.count (count_at (e ∷ es)) shifted (omega arith) refl
        (λ j below. let zeroth : j ≡ 0 = omega arith in rw zeroth (omega arith)))
  where
    shifted : (j : ℕ) → j < length es → count_at (e ∷ es) (1 + j) ≡ count_at es j
    shifted j below = let next : 1 + j ≡ suc j = omega arith in ap (count_at (e ∷ es)) next

-- An address in the table is counted once more and no other address is; the number of entries
-- stays.
pub see_aa_known :
    (aa : ℕ) (entries : List SeenAddress) (counted : List SeenAddress)
    → count_known aa entries ≡ some counted
    → (length (see_aa aa entries) ≡ length entries)
      × ((other : ℕ)
          → sightings other (see_aa aa entries)
            ≡ (if other == aa then 1 else 0) + sightings other entries)
unfolding see_aa
see_aa_known aa entries counted h =
    rw (h, see_aa)
      (
        count_known-length aa entries counted h,
        λ other. count_known-sightings aa other entries counted h,
      )

-- A property of every index is one of every element.
All-get_or {κ} :
    (P : SeenAddress → Type κ) (es : List SeenAddress)
    → ((j : ℕ) → j < length es → P (get_or es j unseen))
    → All P es
All-get_or P [] h = tt
All-get_or P (e ∷ es) h = (h 0 (omega arith), All-get_or P es (λ j below. h (suc j) (omega arith)))

-- An address not in the table takes the place of an entry, with count 1; the count of that entry
-- was the least of all; every other entry stays.
pub see_aa_new :
    (aa : ℕ) (entries : List SeenAddress)
    → 0 < length entries
    → count_known aa entries ≡ none
    → (victim : ℕ) × (victim < length entries)
      × All (λ e. count_at entries victim ≤ e.count) entries
      × (see_aa aa entries ≡ set entries victim (record { aa = aa; count = 1 }))
unfolding see_aa
see_aa_new aa entries h new =
    let least = victim_least entries h in
    (find_victim entries 0 0 none, least.0, All-get_or _ entries least.1, rw (new, see_aa))
