-- ===== src/Usb/Queue/Run.antt =====
-- Every sequence of calls on the ring answers as the queue of its contents does.
use codetooth.Prelude.{
  ℕ, ◌≡◌, refl, ap, ap₂, ◌∙◌, Bool, true, false, Option, none, some, List, [], ◌∷◌, arith, ◌==◌,
  if◌then◌else◌, get_or, get_elem?-eq-get_or, ◌%◌, ◌<◌, Bool-cases, inl, inr,
}
use codetooth.Usb.Packet.{Packet}
use codetooth.Usb.Fifo
use codetooth.Usb.Fifo.{Op, put, get, Reply, queued, taken}
use codetooth.Usb.Queue.{Queue, blank, usb_enqueue, dequeue, read_slot, write_slot}
use codetooth.Usb.Queue.Refine.{
  IsValid, contents, count, filled, advanced, usb_enqueue_lem, dequeue_lem, length-contents,
  contents-filled, filled-IsValid, contents-advanced, advanced-IsValid, contents_of_zero,
}

-- A caller that fills the slot it is given before anything else happens to the ring.
pub fill : Packet → Option ℕ × Queue → Bool × Queue
fill p (none, q) = (false, q)
fill p (some i, q) = (true, write_slot q i p)

pub offer : Queue → Packet → Bool × Queue
unfolding fill
offer q p = fill p (usb_enqueue q)

-- A caller that reads the packet behind the pointer it is given.
pub fetch : Option ℕ × Queue → Option Packet × Queue
fetch (none, q) = (none, q)
fetch (some i, q) = (read_slot q i, q)

pub take_oldest : Queue → Option Packet × Queue
unfolding fetch
take_oldest q = fetch (dequeue q)

unfoldable pub run : Queue → List Op → List Reply
unfolding offer take_oldest
run q [] = []
run q (put p ∷ ops) = let (done, q') = offer q p in queued done ∷ run q' ops
run q (get ∷ ops) = let (p, q') = take_oldest q in taken p ∷ run q' ops

offer_lem :
    (q : Queue) (p : Packet)
    → IsValid q
    → offer q p ≡ (if count q == 127 then (false, q) else (true, filled q p))
unfolding offer
offer_lem q p v =
    ap (fill p) (usb_enqueue_lem q v)
    ∙ elim (Bool-cases (count q == 127)) [ inl full ↦ rw full | inr room ↦ rw room ]

take_oldest_lem :
    (q : Queue)
    → IsValid q
    → take_oldest q ≡ (
        if count q == 0 then (none, q) else (some (get_or q.fifo (q.head % 128) blank), advanced q))
unfolding take_oldest
take_oldest_lem q v = ap fetch (dequeue_lem q v) ∙ elim (Bool-cases (count q == 0)) [
  | inl empty ↦ rw empty
  | inr left ↦ rw (left, get_elem?-eq-get_or q.fifo (q.head % 128) blank (omega arith))
]

-- What a call answers and what the ring then holds, at once.
record Refines {ℓ} {A : Type ℓ} (mine : A × Queue) (spec : A × List Packet) : Type ℓ where
  answer : mine.0 ≡ spec.0
  held : contents mine.1 ≡ spec.1
  valid : IsValid mine.1

offer-Refines :
    (q : Queue) (p : Packet) → IsValid q → Refines (offer q p) (Fifo.offer (contents q) p)
unfolding Fifo.offer
offer-Refines q p v = elim (Bool-cases (count q == 127)) [
  | inl full ↦
      rw (offer_lem q p v, length-contents q, full)
        (record { answer = refl; held = refl; valid = v })
  | inr room ↦
      let below : count q < 127 = ground arith in
      rw (offer_lem q p v, length-contents q, room)
        (record {
          answer = refl;
          held = contents-filled q p v below;
          valid = filled-IsValid q p v below;
        })
]

take_oldest-Refines :
    (q : Queue) → IsValid q → Refines (take_oldest q) (Fifo.take_oldest (contents q))
unfolding Fifo.take_oldest
take_oldest-Refines q v = elim (Bool-cases (count q == 0)) [
  | inl empty ↦
      let nothing : contents q ≡ [] = contents_of_zero q (ground arith) in
      rw (take_oldest_lem q v, empty, nothing) (record { answer = refl; held = nothing; valid = v })
  | inr left ↦
      let some_left : 0 < count q = ground arith in
      rw (take_oldest_lem q v, left, contents-advanced q v some_left)
        (record { answer = refl; held = refl; valid = advanced-IsValid q v some_left })
]

-- No sequence of packets queued and taken tells a valid ring from the bounded queue of the
-- packets that it holds.
pub run_refines : (ops : List Op) (q : Queue) → IsValid q → run q ops ≡ Fifo.run (contents q) ops
unfolding run Fifo.run
run_refines [] q v = refl
run_refines (put p ∷ ops) q v =
    let r = offer-Refines q p v in
    ap₂ ◌∷◌ (ap queued r.answer)
      (run_refines ops (offer q p).1 r.valid ∙ ap (λ ps. Fifo.run ps ops) r.held)
run_refines (get ∷ ops) q v =
    let r = take_oldest-Refines q v in
    ap₂ ◌∷◌ (ap taken r.answer)
      (run_refines ops (take_oldest q).1 r.valid ∙ ap (λ ps. Fifo.run ps ops) r.held)
