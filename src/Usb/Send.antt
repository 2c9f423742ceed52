-- ===== src/Usb/Send.antt =====
-- dequeue_send and handle_usb of ubertooth_usb.c: queued packets leave through the bulk endpoint,
-- and a keep-alive where nothing has left for long.
pub mod Laws
use codetooth.Prelude.{
  ℕ, ◌+◌, bit_and, sub32, ltb, ◌==◌, if◌then◌else◌, Bool, true, false, Option, none, some, List, [],
  ◌∷◌, ◌++◌, get_or,
}
use codetooth.Usb.Packet.{Packet}
use codetooth.Usb.Queue.{Queue, blank, dequeue}

-- A call of USBHwEPWrite on the endpoint BULK_IN_EP: a whole packet, or the one byte KEEP_ALIVE.
pub data Transfer : Type 0 where
  packet : Packet → Transfer
  alive : Transfer

-- The globals of the file, and the writes made so far, oldest first.
pub record Sender : Type 0 where
  pub queue : Queue
  pub last_usb_pkt : ℕ
  pub written : List Transfer

abbrev pub usb_keep_alive : ℕ
usb_keep_alive = 400000

-- The branch on the pointer that dequeue returned.
pub send_found : (clkn : ℕ) → Sender → Option ℕ × Queue → Bool × Sender
send_found clkn s (some slot, q) = (
  true,
  record {
    queue = q;
    last_usb_pkt = clkn;
    written = s.written ++ (packet (get_or q.fifo slot blank) ∷ []);
  },
)
send_found clkn s (none, q) = (
  false,
  (if ltb usb_keep_alive (sub32 clkn s.last_usb_pkt)
      then record { queue = q; last_usb_pkt = clkn; written = s.written ++ (alive ∷ []) }
      else record s { queue = q }),
)

unfoldable pub dequeue_send : (clkn : ℕ) → Sender → Bool × Sender
unfolding send_found
dequeue_send clkn s = send_found clkn s (dequeue s.queue)

abbrev epstat_b1full : ℕ
epstat_b1full = 0x20

abbrev epstat_b2full : ℕ
epstat_b2full = 0x40

-- handle_usb up to its last call: `epstat` is what USBHwEPGetStatus returned.
unfoldable pub write_queued : (clkn epstat : ℕ) → Sender → Sender
write_queued clkn epstat s =
    let s' = if bit_and epstat epstat_b1full == 0 then (dequeue_send clkn s).1 else s in
    if bit_and epstat epstat_b2full == 0 then (dequeue_send clkn s').1 else s'

-- `isr` is USBHwISR of the USB library.
unfoldable pub handle_usb : (isr : Sender → Sender) (clkn epstat : ℕ) → Sender → Sender
unfolding write_queued
handle_usb isr clkn epstat s = isr (write_queued clkn epstat s)
