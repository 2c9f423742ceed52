-- ===== src/Usb/Queue.antt =====
-- The ring buffer of ubertooth_usb.c. `head` and `tail` count packets in uint32_t and are masked
-- to 7 bits where they index `fifo`. A pointer to a packet is its index in `fifo`.
pub mod Refine
pub mod Race
pub mod Run
use codetooth.Prelude.{
  ℕ, ◌+◌, u8, u32, bit_and, ◌==◌, if◌then◌else◌, Option, none, some, List, replicate, get_elem?,
  set,
}
use codetooth.Usb.Packet.{Packet}

pub record Queue : Type 0 where
  pub fifo : List Packet
  pub head : ℕ
  pub tail : ℕ

abbrev pub blank : Packet
blank = record {
  pkt_type = 0;
  status = 0;
  channel = 0;
  clkn_high = 0;
  clk100ns = 0;
  rssi_max = 0;
  rssi_min = 0;
  rssi_avg = 0;
  rssi_count = 0;
  payload = replicate 50 0;
}

-- queue_init: the two counters, and `memset(fifo, 0, sizeof(fifo))`.
unfoldable pub queue_init : Queue
queue_init = record { fifo = replicate 128 blank; head = 0; tail = 0 }

-- usb_enqueue: the slot that the caller is to fill, `none` for NULL, and the queue after.
unfoldable pub usb_enqueue : Queue → Option ℕ × Queue
usb_enqueue q =
    let h = u8 (bit_and q.head 0x7f) in
    let t = u8 (bit_and q.tail 0x7f) in
    let n = u8 (bit_and (t + 1) 0x7f) in
    if h == n then (none, q) else (some t, record q { tail = u32 (q.tail + 1) })

-- dequeue: the slot that holds the oldest packet, `none` for NULL, and the queue after.
unfoldable pub dequeue : Queue → Option ℕ × Queue
dequeue q =
    let h = u8 (bit_and q.head 0x7f) in
    let t = u8 (bit_and q.tail 0x7f) in
    if h == t then (none, q) else (some h, record q { head = u32 (q.head + 1) })

-- Reading and writing through the pointers that the two functions return.
abbrev pub read_slot : Queue → ℕ → Option Packet
read_slot q slot = get_elem? q.fifo slot

abbrev pub write_slot : Queue → ℕ → Packet → Queue
write_slot q slot p = record q { fifo = set q.fifo slot p }
