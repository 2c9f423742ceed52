-- ===== src/Firmware/Sync/Round/Jamming.antt =====
-- Jamming of a connection comes to its end.
use codetooth.Prelude.{
  ℕ, suc, ◌-◌, ◌≤◌, ◌≡◌, refl, sym, ◌∙◌, ◌==◌, if◌then◌else◌, Bool, true, not, Bool-cases, ◌⊎◌, inl,
  inr, List, [], ◌∷◌, length, All, arith,
}
use native.Mathlib.Decide.{dec_lt}
use mathlib.Core.Path.{subst}
use codetooth.Classic.State.{Classic}
use codetooth.Firmware.State.{Firmware, Mode, hop_btle, same_mode}
use codetooth.Firmware.Rssi.{rssi_reset}
use codetooth.Firmware.Hop.{hop}
use codetooth.Firmware.Follow.{reset_le}
use codetooth.Firmware.Sync.{jam_once, is_promisc_mode, timed_out, give_up, check_timeout}
use codetooth.Firmware.Sync.Round.{
  Loop, Wait, Next, again, cleanup, stuck, take_request, wait_ends, note_error, receive, hop_due,
  after_hop, after_timeout, flush, sync_round,
}

-- What a round may leave of the rounds to jam, of which there were at most `m` more.
abbrev Fewer : (m : ℕ) → Next → Type 0
Fewer m (again l) = (l.fw.le_jam_count ≤ m) × (l.fw.radio.hop_mode ≡ hop_btle)
Fewer m (cleanup l) = l.fw.le_jam_count ≡ 0
Fewer m stuck = ⊥

-- A hop along a Low Energy connection is never stuck, and leaves jamming alone.
hop-Fewer :
    (c : Classic) (m : ℕ) (l : Loop)
    → l.fw.radio.hop_mode ≡ hop_btle
    → l.fw.le_jam_count ≤ suc m
    → Fewer m (after_hop l (hop_due c l))
unfolding hop
hop-Fewer c m l along few = elim (Bool-cases l.fw.radio.do_hop) [
  | inl due ↦ rw (due, along) (ground arith)
  | inr not_due ↦ rw not_due (ground arith)
]

given_up :
    (c : Classic) (active_mode : Mode) (m : ℕ) (l : Loop)
    → l.fw.radio.hop_mode ≡ hop_btle
    → let (turn, s) = give_up active_mode l.saved_request l.fw in
      Fewer m (after_timeout c turn (record l { fw = s }))
unfolding give_up reset_le hop
given_up c active_mode m l along = elim (Bool-cases (l.fw.jam_mode == jam_once)) [
  | inl once ↦ rw once refl
  | inr on_and_on ↦ elim (Bool-cases (is_promisc_mode active_mode)) [
    | inl promisc ↦ rw (on_and_on, promisc) refl
    | inr follows ↦ rw (on_and_on, follows) (ground (arith, along))
  ]
]

-- A round that does not give up had more than one round to jam left.
flush-Fewer :
    (c : Classic) (active_mode : Mode) (m : ℕ) (l : Loop)
    → l.fw.radio.hop_mode ≡ hop_btle
    → l.fw.le_jam_count ≡ suc m
    → Fewer m (flush c active_mode l)
unfolding flush check_timeout
flush-Fewer c active_mode m l along left = elim (Bool-cases (timed_out l.fw)) [
  | inl over ↦ rw over (given_up c active_mode m l along)
  | inr goes_on ↦ rw goes_on (hop-Fewer c m l along (omega arith))
]

-- A wait that ends as a hop falls due, in the same mode and with the jamming as it was. While it jams
-- the radio receives nothing.
pub record EndsByHop (active_mode : Mode) (w : Wait) : Type 0 where
  pub due : (s : Firmware) → (w.interrupts s).radio.do_hop ≡ true
  pub along : (s : Firmware) → (w.interrupts s).radio.hop_mode ≡ s.radio.hop_mode
  pub same : (s : Firmware) → same_mode (w.interrupts s).requested_mode active_mode ≡ true
  pub jams : (s : Firmware) → (w.interrupts s).le_jam_count ≡ s.le_jam_count

take_request-kept :
    (l : Loop)
    → ((take_request l).fw.radio.hop_mode ≡ l.fw.radio.hop_mode)
      × ((take_request l).fw.le_jam_count ≡ l.fw.le_jam_count)
unfolding take_request
take_request-kept l = ground arith

round-Fewer :
    (c : Classic) (active_mode : Mode) (w : Wait) (m : ℕ) (l : Loop)
    → EndsByHop active_mode w
    → l.fw.radio.hop_mode ≡ hop_btle
    → l.fw.le_jam_count ≡ suc m
    → Fewer m (sync_round c active_mode w l)
unfolding sync_round wait_ends
round-Fewer c active_mode w m l ends along left =
    let asked = take_request l in
    let fresh = record (asked.fw) { rssi = rssi_reset asked.fw.rssi } in
    let woken = wait_ends w asked in
    let noted = record woken { fw = note_error w woken.fw } in
    let kept = take_request-kept l in
    let same : same_mode woken.fw.requested_mode active_mode ≡ true = ends.same fresh in
    let due : noted.fw.radio.do_hop ≡ true = ends.due fresh in
    let still : noted.fw.radio.hop_mode ≡ hop_btle = ends.along fresh ∙ kept.0 ∙ along in
    let jams : noted.fw.le_jam_count ≡ suc m = ends.jams fresh ∙ kept.1 ∙ left in
    let received =
      if w.rx_tc == 0
      then again noted
      else flush c active_mode (record noted { fw = receive w noted.fw }) in
    subst
      (λ (b : Bool). Fewer m (
        if not b
        then cleanup woken
        else (if noted.fw.radio.do_hop then flush c active_mode noted else received)))
      (sym same)
      (subst (λ (b : Bool). Fewer m (if b then flush c active_mode noted else received)) (sym due)
        (flush-Fewer c active_mode m noted still jams))

-- The count of rounds to jam reaches 0, in the rounds that the loop goes on with or as it leaves.
abbrev pub Over : (goes_on : Loop → Type 0) → Next → Type 0
Over goes_on (again l) = goes_on l
Over goes_on (cleanup l) = l.fw.le_jam_count ≡ 0
Over goes_on stuck = ⊥

abbrev pub JammingEnds : Classic → (active_mode : Mode) → List Wait → Loop → Type 0
JammingEnds c active_mode [] l = l.fw.le_jam_count ≡ 0
JammingEnds c active_mode (w ∷ waits) l =
    (l.fw.le_jam_count ≡ 0) ⊎ Over (JammingEnds c active_mode waits) (sync_round c active_mode w l)

-- From what a round left.
ends_from :
    (c : Classic) (active_mode : Mode) (waits : List Wait) (m : ℕ) (next : Next)
    → ((l : Loop)
        → l.fw.radio.hop_mode ≡ hop_btle
        → l.fw.le_jam_count ≤ m
        → JammingEnds c active_mode waits l)
    → Fewer m next
    → Over (JammingEnds c active_mode waits) next
ends_from c active_mode waits m (again l) ih few = ih l few.1 few.0
ends_from c active_mode waits m (cleanup l) ih few = few
ends_from c active_mode waits m stuck ih few = few

-- Jamming of a connection comes to its end: where no more rounds are left to jam than waits follow,
-- each of which ends as the next hop of the connection falls due, their number reaches 0 on the way,
-- in the loop or as it leaves, and the loop is never stuck before.
pub jamming_ends :
    (c : Classic) (active_mode : Mode) (waits : List Wait) (l : Loop)
    → All (EndsByHop active_mode) waits
    → l.fw.radio.hop_mode ≡ hop_btle
    → l.fw.le_jam_count ≤ length waits
    → JammingEnds c active_mode waits l
jamming_ends c active_mode [] l all along few = omega arith
jamming_ends c active_mode (w ∷ waits) l (ends, all) along few = elim (dec_lt 0 l.fw.le_jam_count) [
  | no over ↦ inl (omega arith)
  | yes jams ↦ inr (
      ends_from c active_mode waits (l.fw.le_jam_count - 1) (sync_round c active_mode w l)
        (λ l' along' few'. jamming_ends c active_mode waits l' all along' (omega arith))
        (round-Fewer c active_mode w (l.fw.le_jam_count - 1) l ends along (omega arith)))
]
