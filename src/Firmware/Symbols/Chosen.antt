-- ===== src/Firmware/Symbols/Chosen.antt =====
-- Which access address cb_le_promisc starts to follow.
use codetooth.Prelude.{
  ℕ, zero, suc, ◌≤◌, ◌<◌, ◌≡◌, refl, ap, ltb, ltb→lt, true, false, Bool-cases, ◌⊎◌, inl, inr,
  Option, none, some, List, [], ◌∷◌, get_or, length, arith,
}
use codetooth.Usb.Packet.{le_promisc}
use codetooth.Le.State.{LeState}
use codetooth.Firmware.State.{Firmware, SeenAddress, promisc_follow}
use codetooth.Firmware.Enqueue.Laws.{Untouched, enqueue-Untouched}
use codetooth.Firmware.Promisc.{promisc_state, bytes_of}
use codetooth.Firmware.Promisc.Seen.{unseen}
use codetooth.Firmware.Follow.{set_access_address}
use codetooth.Firmware.Transmit.{whitening_start}
use codetooth.Firmware.Symbols.Empty.{
  follow_symbols, Looked, look_from, counted_often, follow_counted, cb_le_promisc,
}

-- The first entry of a table that was counted more than three times: its place, and its address.
abbrev pub FirstOften : List SeenAddress → (aa : ℕ) → Type 0
FirstOften entries aa =
    (j : ℕ) × (j < length entries)
    × ((get_or entries j unseen).aa ≡ aa)
    × (3 < (get_or entries j unseen).count)
    × ((k : ℕ) → k < j → (get_or entries k unseen).count ≤ 3)

seldom_few : (e : SeenAddress) → ltb 3 e.count ≡ false → e.count ≤ 3
seldom_few e h = ground arith

few_more :
    (e : SeenAddress) (es : List SeenAddress) (j : ℕ)
    → e.count ≤ 3
    → ((k : ℕ) → k < j → (get_or es k unseen).count ≤ 3)
    → (k : ℕ) → k < suc j
    → (get_or (e ∷ es) k unseen).count ≤ 3
few_more e es j here few zero below = here
few_more e es j here few (suc k) below = few k (omega arith)

counted_often-First :
    (entries : List SeenAddress) (aa : ℕ) → counted_often entries ≡ some aa → FirstOften entries aa
unfolding counted_often
counted_often-First [] aa h = cc
counted_often-First (e ∷ es) aa h = elim (Bool-cases (ltb 3 e.count)) [
  | inl often ↦
      (0, omega arith, ground (arith, h, often), ltb→lt _ _ often, λ k below. absurd (omega arith))
  | inr seldom ↦
      let (j, inside, same, many, few) = counted_often-First es aa (ground (arith, h, seldom)) in
      (suc j, omega arith, same, many, few_more e es j (seldom_few e seldom) few)
]

counted_often-none :
    (entries : List SeenAddress)
    → counted_often entries ≡ none
    → (k : ℕ) → k < length entries
    → (get_or entries k unseen).count ≤ 3
unfolding counted_often
counted_often-none [] h k below = absurd (omega arith)
counted_often-none (e ∷ es) h zero below = ground (arith, h)
counted_often-none (e ∷ es) h (suc k) below =
    counted_often-none es (ground (arith, h)) k (omega arith)

-- The table and the state that the search through the symbols leaves.
abbrev pub searched : (unpacked idle_rxbuf : List ℕ) → Firmware → Firmware
searched unpacked idle_rxbuf s =
    (look_from 720 (whitening_start s.radio.channel) 32 unpacked (idle_rxbuf, s)).1

-- What cb_le_promisc leaves to do: to listen on, or to follow `aa`, which it tells the host.
abbrev pub ListensOn : Firmware → Looked → Type 0
ListensOn s l =
    ((k : ℕ) → k < length s.promisc.active_aa → (get_or s.promisc.active_aa k unseen).count ≤ 3)
    × (l.goes_on ≡ true)
    × (l.fw ≡ s)

abbrev pub Follows : Firmware → ℕ → Looked → Type 0
Follows s aa l =
    FirstOften s.promisc.active_aa aa
    × (l.goes_on ≡ false)
    × (l.data_cb ≡ follow_symbols)
    × (l.fw.le.access_address ≡ aa)
    × (l.fw.le.crc_verify ≡ false)
    × (l.fw.packet_cb ≡ promisc_follow)

promisc_state-Untouched :
    (type len : ℕ) (bytes : List ℕ) (s : Firmware) → Untouched s (promisc_state type bytes len s)
unfolding promisc_state
promisc_state-Untouched type len bytes s = enqueue-Untouched le_promisc _ s

followed :
    (s : Firmware) (aa : ℕ)
    → FirstOften s.promisc.active_aa aa
    → Follows s aa (follow_counted (some aa) s)
unfolding follow_counted set_access_address
followed s aa first =
    let le = record (set_access_address aa s.le) { crc_verify = false } in
    let told = record s { le = le; packet_cb = promisc_follow } in
    let kept = promisc_state-Untouched 0 4 (bytes_of aa) told in
    (
      first,
      refl,
      refl,
      ap (λ (l : LeState). l.access_address) kept.le,
      ap (λ (l : LeState). l.crc_verify) kept.le,
      kept.packet_cb,
    )

settled :
    (s : Firmware) (choice : Option ℕ)
    → counted_often s.promisc.active_aa ≡ choice
    → ListensOn s (follow_counted choice s) ⊎ ((aa : ℕ) × Follows s aa (follow_counted choice s))
unfolding follow_counted
settled s none nobody = inl (counted_often-none s.promisc.active_aa nobody, refl, refl)
settled s (some aa) often =
    inr (aa, followed s aa (counted_often-First s.promisc.active_aa aa often))

-- After its search cb_le_promisc listens on, with no other change, where no address of the table was
-- counted more than three times; else it stops, and from then on the packets of the first such
-- address are looked for, without a check of their CRC, and given to promisc_follow_cb.
pub cb_le_promisc_lem :
    (unpacked idle_rxbuf : List ℕ) (s : Firmware)
    → let found = searched unpacked idle_rxbuf s in
      let l = cb_le_promisc unpacked idle_rxbuf s in
      ListensOn found l ⊎ ((aa : ℕ) × Follows found aa l)
unfolding cb_le_promisc
cb_le_promisc_lem unpacked idle_rxbuf s = settled (searched unpacked idle_rxbuf s) _ refl
