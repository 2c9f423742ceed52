-- ===== src/Usb/Fifo.antt =====
-- What the ring of packets promises: a first-in first-out queue of at most 127 packets.
use codetooth.Prelude.{
  ◌==◌, if◌then◌else◌, Bool, true, false, Option, none, some, List, [], ◌∷◌, ◌++◌, length,
}
use codetooth.Usb.Packet.{Packet}

-- What the firmware does with the ring: queue a packet, or take one to send.
pub data Op : Type 0 where
  put : Packet → Op
  get : Op

pub data Reply : Type 0 where
  queued : Bool → Reply
  taken : Option Packet → Reply

unfoldable pub offer : List Packet → Packet → Bool × List Packet
offer ps p = if length ps == 127 then (false, ps) else (true, ps ++ (p ∷ []))

unfoldable pub take_oldest : List Packet → Option Packet × List Packet
take_oldest [] = (none, [])
take_oldest (p ∷ ps) = (some p, ps)

unfoldable pub run : List Packet → List Op → List Reply
unfolding offer take_oldest
run ps [] = []
run ps (put p ∷ ops) = let (done, ps') = offer ps p in queued done ∷ run ps' ops
run ps (get ∷ ops) = let (p, ps') = take_oldest ps in taken p ∷ run ps' ops
