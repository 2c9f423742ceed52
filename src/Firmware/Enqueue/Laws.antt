-- ===== src/Firmware/Enqueue/Laws.antt =====
-- Queueing a packet: what the host will read, what an overflow leaves behind, and what is not
-- touched.
use codetooth.Prelude.{
  ℕ, ◌%◌, ◌<◌, ◌≡◌, refl, bit_or, Bool, true, false, Option, none, some, List, [], ◌∷◌, ◌++◌,
  get_or, length, arith,
}
use codetooth.Usb.Packet.{Packet, PacketType}
use codetooth.Usb.Queue.{Queue, blank, usb_enqueue}
use codetooth.Usb.Queue.Refine.{
  IsValid, contents, count, length-contents, usb_enqueue_slot, usb_enqueue_no_slot, contents-filled,
  filled-IsValid,
}
use codetooth.Firmware.State.{Firmware}
use codetooth.Firmware.Enqueue.{
  fifo_overflow, stamp, put_in, enqueue, stamp_with_ts, enqueue_with_ts,
}

-- Queueing touches the ring and the status byte only.
pub record Untouched (s s' : Firmware) : Type 0 where
  pub le : s'.le ≡ s.le
  pub promisc : s'.promisc ≡ s.promisc
  pub clock : s'.clock ≡ s.clock
  pub radio : s'.radio ≡ s.radio
  pub packet_cb : s'.packet_cb ≡ s.packet_cb
  pub le_jam_count : s'.le_jam_count ≡ s.le_jam_count

put_in-Untouched :
    (s : Firmware) (f : Packet → Packet) (r : Option ℕ × Queue) → Untouched s (put_in s f r).1
put_in-Untouched s f (none, q) = record {
  le = refl;
  promisc = refl;
  clock = refl;
  radio = refl;
  packet_cb = refl;
  le_jam_count = refl;
}
put_in-Untouched s f (some slot, q) = record {
  le = refl;
  promisc = refl;
  clock = refl;
  radio = refl;
  packet_cb = refl;
  le_jam_count = refl;
}

pub enqueue-Untouched :
    (type : PacketType) (buf : List ℕ) (s : Firmware) → Untouched s (enqueue type buf s).1
unfolding enqueue
enqueue-Untouched type buf s = put_in-Untouched s (stamp s type buf) (usb_enqueue s.queue)

-- What a caller sees: with room the ring gains the stamped packet and the status byte, which went
-- with it, is cleared; without, the packet is lost and the next one will say so.
pub record Queued (s : Firmware) (p : Packet) (r : Bool × Firmware) : Type 0 where
  pub accepted : r.0 ≡ true
  pub held : contents r.1.queue ≡ contents s.queue ++ (p ∷ [])
  pub cleared : r.1.status ≡ 0
  pub valid : IsValid r.1.queue

pub record Dropped (s : Firmware) (r : Bool × Firmware) : Type 0 where
  pub refused : r.0 ≡ false
  pub kept : r.1.queue ≡ s.queue
  pub noted : r.1.status ≡ bit_or s.status fifo_overflow

-- The packet that the slot at the tail held before.
abbrev pub stale : Queue → Packet
stale q = get_or q.fifo (q.tail % 128) blank

put_in_room :
    (s : Firmware) (f : Packet → Packet)
    → IsValid s.queue
    → count s.queue < 127
    → Queued s (f (stale s.queue)) (put_in s f (usb_enqueue s.queue))
put_in_room s f v room = rw (usb_enqueue_slot s.queue v room) (record {
  accepted = refl;
  held = contents-filled s.queue (f (stale s.queue)) v room;
  cleared = refl;
  valid = filled-IsValid s.queue (f (stale s.queue)) v room;
})

put_in_full :
    (s : Firmware) (f : Packet → Packet)
    → IsValid s.queue
    → count s.queue ≡ 127
    → Dropped s (put_in s f (usb_enqueue s.queue))
put_in_full s f v full =
    rw (usb_enqueue_no_slot s.queue v full) (record { refused = refl; kept = refl; noted = refl })

-- While fewer than 127 packets wait, enqueue queues the packet that it stamps and clears the
-- status byte.
pub enqueue-Queued :
    (type : PacketType) (buf : List ℕ) (s : Firmware)
    → IsValid s.queue
    → length (contents s.queue) < 127
    → Queued s (stamp s type buf (stale s.queue)) (enqueue type buf s)
unfolding enqueue
enqueue-Queued type buf s v room =
    put_in_room s (stamp s type buf) v (omega (arith, room, length-contents s.queue))

-- With 127 packets waiting enqueue drops its packet, leaves the ring as it is and raises the
-- overflow bit of the status byte.
pub enqueue-Dropped :
    (type : PacketType) (buf : List ℕ) (s : Firmware)
    → IsValid s.queue
    → length (contents s.queue) ≡ 127
    → Dropped s (enqueue type buf s)
unfolding enqueue
enqueue-Dropped type buf s v full =
    put_in_full s (stamp s type buf) v (omega (arith, full, length-contents s.queue))

-- enqueue_with_ts queues a packet whose type is the one that its slot held before, whatever type it
-- is called with.
pub enqueue_with_ts_type :
    (type : PacketType) (buf : List ℕ) (ts : ℕ) (s : Firmware)
    → IsValid s.queue
    → length (contents s.queue) < 127
    → (p : Packet) × Queued s p (enqueue_with_ts type buf ts s)
      × (p.pkt_type ≡ (stale s.queue).pkt_type)
unfolding enqueue_with_ts
enqueue_with_ts_type type buf ts s v room = (
  stamp_with_ts s buf ts (stale s.queue),
  put_in_room s (stamp_with_ts s buf ts) v (omega (arith, room, length-contents s.queue)),
  refl,
)
