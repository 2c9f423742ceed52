-- ===== src/Usb/Queue/Race.antt =====
-- usb_enqueue counts its slot before the caller has written it. A dequeue in between, as the
-- handler of UBERTOOTH_POLL makes one from the USB interrupt, reads the slot too early.
use codetooth.Prelude.{ℕ, ◌+◌, ◌≡◌, ap, u32, some, [], arith, get_elem?, length}
use codetooth.Usb.Queue.{Queue, usb_enqueue, dequeue, read_slot}
use codetooth.Usb.Queue.Refine.{
  IsValid, contents, count, length-contents, usb_enqueue-some, dequeue_lem,
}

-- On an empty ring the slot that usb_enqueue has just reserved is the one that the next dequeue
-- hands out, and what it reads there is what the slot held before the reservation.
pub dequeue-usb_enqueue_empty :
    (q : Queue) (slot : ℕ) (q' : Queue)
    → IsValid q
    → contents q ≡ []
    → usb_enqueue q ≡ (some slot, q')
    → ((dequeue q').0 ≡ some slot) × (read_slot (dequeue q').1 slot ≡ get_elem? q.fifo slot)
dequeue-usb_enqueue_empty q slot q' v empty e =
    let (room, at, after) = usb_enqueue-some q v e in
    let none_held : count q ≡ 0 = omega (arith, length-contents q, ap length empty) in
    let reserved : Queue = record q { tail = u32 (q.tail + 1) } in
    let v' : IsValid reserved = record {
      slots = v.slots;
      head_range = v.head_range;
      tail_range = omega arith;
      count_range = omega arith;
    } in
    rw (at, after) (ground (arith, dequeue_lem reserved v'))
