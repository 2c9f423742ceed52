-- ===== src/Usb/Queue/Refine.antt =====
-- A valid ring behaves as the list of at most 127 packets that it holds, oldest first.
use codetooth.Prelude.{
  ℕ, zero, suc, ◌+◌, ◌%◌, ◌<◌, ◌≡◌, ◌↔◌, refl, ap, ap₂, ◌∙◌, u8, u32, sub32, bit_and, ◌==◌,
  if◌then◌else◌, none, some, false, List, [], ◌∷◌, ◌++◌, arith, length, get_or, set, length-set,
  get_elem?-eq-get_or, get_or-set_self, get_or-set_ne,
}
use codetooth.Prelude.Bits.{and-mask}
use codetooth.Usb.Packet.{Packet}
use codetooth.Usb.Queue.{Queue, blank, queue_init, usb_enqueue, dequeue, read_slot, write_slot}

-- How many packets are between the counters.
abbrev pub count : Queue → ℕ
count q = sub32 q.tail q.head

pub record IsValid (q : Queue) : Type 0 where
  pub slots : length q.fifo ≡ 128
  pub head_range : q.head < 4294967296
  pub tail_range : q.tail < 4294967296
  pub count_range : count q < 128

-- The `n` packets from counter `h` on.
pub window : (fifo : List Packet) (h n : ℕ) → List Packet
window fifo h zero = []
window fifo h (suc n) = get_or fifo (h % 128) blank ∷ window fifo (u32 (h + 1)) n

pub contents : Queue → List Packet
unfolding window
contents q = window q.fifo q.head (count q)

index : (x : ℕ) → u8 (bit_and x 0x7f) ≡ x % 128
index x = ap u8 (and-mask 7 x) ∙ omega arith

-- The tests of the source as statements about the number of packets.
pub usb_enqueue_lem :
    (q : Queue)
    → IsValid q
    → usb_enqueue q ≡ (
        if count q == 127
        then (none, q)
        else (some (q.tail % 128), record q { tail = u32 (q.tail + 1) }))
unfolding usb_enqueue
usb_enqueue_lem q v =
    ground (arith, index q.head, index q.tail, index (u8 (bit_and q.tail 0x7f) + 1))

pub dequeue_lem :
    (q : Queue)
    → IsValid q
    → dequeue q ≡ (
        if count q == 0
        then (none, q)
        else (some (q.head % 128), record q { head = u32 (q.head + 1) }))
unfolding dequeue
dequeue_lem q v = ground (arith, index q.head, index q.tail)

length-window : (fifo : List Packet) (h n : ℕ) → length (window fifo h n) ≡ n
unfolding window
length-window fifo h zero = refl
length-window fifo h (suc n) = ap suc (length-window fifo (u32 (h + 1)) n)

pub length-contents : (q : Queue) → length (contents q) ≡ count q
unfolding contents
length-contents q = length-window q.fifo q.head (count q)

-- Writing the slot just past a window extends the window by that packet.
window-set :
    (fifo : List Packet) (p : Packet) (n h i : ℕ)
    → length fifo ≡ 128
    → n < 128
    → h < 4294967296
    → i ≡ (h + n) % 128
    → window (set fifo i p) h (suc n) ≡ window fifo h n ++ (p ∷ [])
unfolding window
window-set fifo p zero h i size hn hh e =
    let at : h % 128 ≡ i = omega arith in rw (at, get_or-set_self fifo i p blank (omega arith))
window-set fifo p (suc n) h i size hn hh e =
    ap₂ ◌∷◌ (get_or-set_ne fifo i (h % 128) p blank (omega arith))
      (window-set fifo p n (u32 (h + 1)) i size (omega arith) (omega arith) (omega arith))

window_of_pos :
    (fifo : List Packet) (h n m : ℕ)
    → n ≡ suc m
    → window fifo h n ≡ get_or fifo (h % 128) blank ∷ window fifo (u32 (h + 1)) m
window_of_pos fifo h n m e = unfold window in rw e refl

module _ (q : Queue) (v : IsValid q) where
  pub usb_enqueue-some :
      {slot : ℕ} {q' : Queue}
      → usb_enqueue q ≡ (some slot, q')
      → (count q < 127) × (slot ≡ q.tail % 128) × (q' ≡ record q { tail = u32 (q.tail + 1) })
  usb_enqueue-some e = ground (arith, usb_enqueue_lem q v)

  pub dequeue-some :
      {slot : ℕ} {q' : Queue}
      → dequeue q ≡ (some slot, q')
      → (0 < count q) × (slot ≡ q.head % 128) × (q' ≡ record q { head = u32 (q.head + 1) })
  dequeue-some e = ground (arith, dequeue_lem q v)

-- The ring after its next slot has been reserved and written.
abbrev pub filled : Queue → Packet → Queue
filled q p = write_slot (record q { tail = u32 (q.tail + 1) }) (q.tail % 128) p

pub usb_enqueue_slot :
    (q : Queue)
    → IsValid q
    → count q < 127
    → usb_enqueue q ≡ (some (q.tail % 128), record q { tail = u32 (q.tail + 1) })
usb_enqueue_slot q v room =
    let below : (count q == 127) ≡ false = ground arith in rw (usb_enqueue_lem q v, below)

pub usb_enqueue_no_slot : (q : Queue) → IsValid q → count q ≡ 127 → usb_enqueue q ≡ (none, q)
usb_enqueue_no_slot q v full = rw (usb_enqueue_lem q v, full)

pub contents-filled :
    (q : Queue) (p : Packet)
    → IsValid q
    → count q < 127
    → contents (filled q p) ≡ contents q ++ (p ∷ [])
unfolding contents
contents-filled q p v room =
    let one : count (filled q p) ≡ suc (count q) = omega arith in
    ap (window (set q.fifo (q.tail % 128) p) q.head) one
    ∙ window-set q.fifo p (count q) q.head (q.tail % 128) v.slots (omega arith) v.head_range
        (omega arith)

pub filled-IsValid : (q : Queue) (p : Packet) → IsValid q → count q < 127 → IsValid (filled q p)
filled-IsValid q p v room = record {
  slots = length-set q.fifo (q.tail % 128) p ∙ v.slots;
  head_range = v.head_range;
  tail_range = omega arith;
  count_range = omega arith;
}

-- When usb_enqueue hands out a slot and the caller writes a packet there, the ring holds that
-- packet behind those it held, and stays valid.
pub usb_enqueue_write :
    (q : Queue) (p : Packet) (slot : ℕ) (q' : Queue)
    → IsValid q
    → usb_enqueue q ≡ (some slot, q')
    → (contents (write_slot q' slot p) ≡ contents q ++ (p ∷ [])) × IsValid (write_slot q' slot p)
usb_enqueue_write q p slot q' v e =
    let (room, at, after) = usb_enqueue-some q v e in
    rw (at, after) (contents-filled q p v room, filled-IsValid q p v room)

-- usb_enqueue returns NULL exactly when the ring holds 127 packets, and exactly then it leaves the
-- ring as it is.
pub usb_enqueue_full :
    (q : Queue)
    → IsValid q
    → ((usb_enqueue q).0 ≡ none ↔ (length (contents q) ≡ 127))
      × (usb_enqueue q ≡ (none, q) ↔ (length (contents q) ≡ 127))
usb_enqueue_full q v = ground (arith, usb_enqueue_lem q v, length-contents q)

abbrev pub advanced : Queue → Queue
advanced q = record q { head = u32 (q.head + 1) }

pub contents-advanced :
    (q : Queue)
    → IsValid q
    → 0 < count q
    → contents q ≡ get_or q.fifo (q.head % 128) blank ∷ contents (advanced q)
unfolding contents
contents-advanced q v some_left =
    window_of_pos q.fifo q.head (count q) (count (advanced q)) (omega arith)

pub advanced-IsValid : (q : Queue) → IsValid q → 0 < count q → IsValid (advanced q)
advanced-IsValid q v some_left = omega arith

pub dequeue_pos :
    (q : Queue) → IsValid q → 0 < count q → dequeue q ≡ (some (q.head % 128), advanced q)
dequeue_pos q v left =
    let some_left : (count q == 0) ≡ false = ground arith in rw (dequeue_lem q v, some_left)

pub dequeue_zero : (q : Queue) → IsValid q → count q ≡ 0 → dequeue q ≡ (none, q)
dequeue_zero q v e = rw (dequeue_lem q v, e)

-- dequeue hands out the slot of the oldest packet; the ring holds the others, in order, and stays
-- valid.
pub dequeue_read :
    (q : Queue) (slot : ℕ) (q' : Queue)
    → IsValid q
    → dequeue q ≡ (some slot, q')
    → (p : Packet) × (read_slot q' slot ≡ some p) × (contents q ≡ p ∷ contents q') × IsValid q'
dequeue_read q slot q' v e =
    let (left, at, after) = dequeue-some q v e in
    rw (at, after)
      (
        get_or q.fifo (q.head % 128) blank,
        get_elem?-eq-get_or q.fifo (q.head % 128) blank (omega arith),
        contents-advanced q v left,
        advanced-IsValid q v left,
      )

pub contents_of_zero : (q : Queue) → count q ≡ 0 → contents q ≡ []
unfolding contents window
contents_of_zero q e = rw e

-- dequeue returns NULL exactly when the ring is empty, and exactly then it leaves the ring as it is.
pub dequeue_empty :
    (q : Queue)
    → IsValid q
    → ((dequeue q).0 ≡ none ↔ (contents q ≡ [])) × (dequeue q ≡ (none, q) ↔ (contents q ≡ []))
dequeue_empty q v = ground (arith, dequeue_lem q v, length-contents q, contents_of_zero q)

pub queue_init-IsValid : IsValid queue_init × (contents queue_init ≡ [])
unfolding queue_init contents window
queue_init-IsValid = (
  record {
    slots = refl;
    head_range = omega arith;
    tail_range = omega arith;
    count_range = omega arith;
  },
  refl,
)
