-- ===== src/Firmware/Stream/Status.antt =====
-- The status byte of the packets that bt_stream_rx queues.
use codetooth.Prelude.{
  ℕ, ◌+◌, ◌<◌, ◌≡◌, refl, bit_or, ltb, if◌then◌else◌, Bool, [], ◌∷◌, ◌++◌, length, take, arith,
}
use codetooth.Usb.Packet.{Packet, br_packet}
use codetooth.Usb.Queue.Refine.{IsValid, contents}
use codetooth.Firmware.Enqueue.{stamp}
use codetooth.Firmware.Enqueue.Laws.{stale, enqueue-Queued}
use codetooth.Firmware.Rssi.{rssi_iir_update}
use codetooth.Firmware.Stream.{Stream, sense, note_transfer, stream_round, is_sensed, is_loud}

-- A flag where its test holds.
abbrev pub flag_if : Bool → (flag : ℕ) → ℕ
flag_if test flag = if test then flag else 0

abbrev raised : (test : Bool) (flag status : ℕ) → ℕ
raised test flag status = if test then bit_or status flag else status

-- Raised one after another on a status byte that is clear, the flags add up.
flags_add :
    (a b c d e : Bool)
    → raised e 16 (raised d 8 (raised c 32 (raised b 1 (raised a 2 0))))
      ≡ flag_if a 2 + flag_if b 1 + flag_if c 32 + flag_if d 8 + flag_if e 16
flags_add a b c d e = ground arith

noted_status :
    (r : Stream)
    → r.fw.status ≡ 0
    → (note_transfer r).fw.status
      ≡ flag_if (ltb 0 r.rx_err) 2
        + flag_if (ltb 1 r.rx_tc) 1
        + flag_if r.fw.radio.dma_discard 32
        + flag_if (is_sensed r) 8
        + flag_if (is_loud r) 16
unfolding note_transfer sense rssi_iir_update
noted_status r clear =
    rw clear
      (flags_add (ltb 0 r.rx_err) (ltb 1 r.rx_tc) r.fw.radio.dma_discard (is_sensed r) (is_loud r))

-- What the host can read of a round from its packet.
pub record Reported (r : Stream) (p : Packet) : Type 0 where
  pub flags :
      p.status
      ≡ flag_if (ltb 0 r.rx_err) 2
        + flag_if (ltb 1 r.rx_tc) 1
        + flag_if r.fw.radio.dma_discard 32
        + flag_if (is_sensed r) 8
        + flag_if (is_loud r) 16
  pub symbols : p.payload ≡ take 50 r.idle_rxbuf
  pub queued : contents (stream_round r).fw.queue ≡ contents r.fw.queue ++ (p ∷ [])
  pub cleared : (stream_round r).fw.status ≡ 0

-- With a clear status byte and room in the ring, a round of bt_stream_rx queues one packet, which
-- holds the buffer that was filled. The status byte of the packet has the bit of a DMA error, of more
-- than one transfer, of a first transfer after tuning, of the carrier sense or no squelch, and of a
-- strength at the threshold, each exactly where there was one; then it is clear again.
pub stream_round-Reported :
    (r : Stream)
    → r.fw.status ≡ 0
    → IsValid r.fw.queue
    → length (contents r.fw.queue) < 127
    → (p : Packet) × Reported r p
unfolding stream_round note_transfer sense rssi_iir_update stamp
stream_round-Reported r clear valid room =
    let noted = note_transfer r in
    let q = enqueue-Queued br_packet noted.idle_rxbuf noted.fw valid room in
    (
      stamp noted.fw br_packet noted.idle_rxbuf (stale noted.fw.queue),
      record { flags = noted_status r clear; symbols = refl; queued = q.held; cleared = q.cleared },
    )
