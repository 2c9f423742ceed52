-- ===== src/Tests/Ring.antt =====
-- The ring of packets, empty, with one packet, and full.
use codetooth.Prelude.{◌++◌, ◌≡◌, refl, List, [], ◌∷◌, replicate, arith}
use codetooth.Usb.Packet.{Packet}
use codetooth.Usb.Fifo
use codetooth.Usb.Fifo.{Op, put, get}
use codetooth.Usb.Queue.{Queue, blank}
use codetooth.Usb.Queue.Refine.{IsValid, contents, contents_of_zero}
use codetooth.Usb.Queue.Run
use codetooth.Usb.Queue.Run.{run_refines}
use codetooth.Usb.Send.{Sender, handle_usb, alive}
use codetooth.Usb.Send.Laws.{Sends, handle_usb-Sends}

abbrev hello : Packet
hello = record blank { pkt_type = 1; payload = 1 ∷ 2 ∷ 3 ∷ [] }

-- Counters about to wrap round, with nothing between them.
abbrev pub idle_ring : Queue
idle_ring = record { fifo = replicate 128 blank; head = 4294967295; tail = 4294967295 }

pub idle_ring-IsValid : IsValid idle_ring
idle_ring-IsValid = record {
  slots = refl;
  head_range = omega arith;
  tail_range = omega arith;
  count_range = omega arith;
}

pub idle_ring_empty : contents idle_ring ≡ []
idle_ring_empty = contents_of_zero idle_ring refl

-- One packet, beyond the wrap.
abbrev one_ring : Queue
one_ring = record { fifo = hello ∷ replicate 127 blank; head = 0; tail = 1 }

one_ring-IsValid : IsValid one_ring
one_ring-IsValid = record {
  slots = refl;
  head_range = omega arith;
  tail_range = omega arith;
  count_range = omega arith;
}

-- As many packets as fit.
abbrev pub full_ring : Queue
full_ring = record { fifo = replicate 128 blank; head = 5; tail = 132 }

abbrev calls : List Op
calls = get ∷ put hello ∷ put blank ∷ get ∷ get ∷ get ∷ []

run_refines_example : Run.run idle_ring calls ≡ Fifo.run (contents idle_ring) calls
run_refines_example = run_refines calls idle_ring idle_ring-IsValid

abbrev one_sender : Sender
one_sender = record { queue = one_ring; last_usb_pkt = 77; written = alive ∷ [] }

abbrev and_alive : Sender → Sender
and_alive s = record s { written = s.written ++ (alive ∷ []) }

handle_usb-Sends_example :
    (s' : Sender) × (handle_usb and_alive 500000 0x40 one_sender ≡ and_alive s')
    × Sends 1 one_sender s'
handle_usb-Sends_example = handle_usb-Sends and_alive 500000 0x40 one_sender one_ring-IsValid
