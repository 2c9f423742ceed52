-- ===== src/Firmware/Vendor/Roundtrip.antt =====
-- What the host sets it reads back, and polling takes the packets of the ring in order.
use codetooth.Prelude.{
  ◌/◌, if◌then◌else◌, ltb, leb, false, ℕ, ◌<◌, ◌≡◌, refl, ap, ◌∙◌, bit_and, ◌>>>◌, true, length,
  get_elem?-eq-get_or, ◌%◌, List, [], ◌∷◌, arith,
}
use native.Mathlib.Decide.{dec_lt}
use codetooth.Prelude.Bits.{and-mask}
use codetooth.Usb.Packet.{Packet}
use codetooth.Usb.Queue.{Queue, blank, dequeue}
use codetooth.Usb.Queue.Refine.{
  IsValid, contents, count, dequeue_pos, dequeue_zero, contents-advanced, advanced-IsValid,
  contents_of_zero,
}
use codetooth.Firmware.Follow.{le_word32, set_access_address}
use codetooth.Firmware.Follow.Link.{le_word32_lem}
use codetooth.Firmware.Device.{Device, Build, Hardware, set_squelch}
use codetooth.Firmware.Vendor.Control.{Exchange, reply, split_bytes, packet_bytes}
use codetooth.Firmware.Vendor.Le.{le_requests, polled, slot_packet}
use codetooth.Firmware.Vendor.Piconet.{piconet_requests, set_clock}
use codetooth.Firmware.Vendor.Tuning.{
  tuning_requests, set_channel, is_bt_follow_le, max_freq, min_freq,
}
use codetooth.Firmware.State.{is_hop_none}
use codetooth.Firmware.Vendor.Board.{board_requests}
use codetooth.Firmware.Vendor.{vendor_request_handler}

-- A buffer that starts with four bytes.
abbrev pub four : (b0 b1 b2 b3 : ℕ) → List ℕ → List ℕ
four b0 b1 b2 b3 rest = b0 ∷ b1 ∷ b2 ∷ b3 ∷ rest

split_joined :
    (b0 b1 b2 b3 : ℕ) (rest : List ℕ)
    → b0 < 256
    → b1 < 256
    → b2 < 256
    → b3 < 256
    → split_bytes 4 0 (le_word32 (four b0 b1 b2 b3 rest) 0) ≡ four b0 b1 b2 b3 []
unfolding split_bytes
split_joined b0 b1 b2 b3 rest h0 h1 h2 h3 =
    let w = le_word32 (four b0 b1 b2 b3 rest) 0 in
    let e = le_word32_lem (four b0 b1 b2 b3 rest) 0 h0 h1 h2 in
    let e0 : bit_and (w >>> 0) 255 ≡ b0 = omega (arith, and-mask 8 (w >>> 0), e) in
    let e1 : bit_and (w >>> 8) 255 ≡ b1 = omega (arith, and-mask 8 (w >>> 8), e) in
    let e2 : bit_and (w >>> 16) 255 ≡ b2 = omega (arith, and-mask 8 (w >>> 16), e) in
    let e3 : bit_and (w >>> 24) 255 ≡ b3 = omega (arith, and-mask 8 (w >>> 24), e) in cc

module _ (b : Build) (h h' : Hardware) (ps ps' : List ℕ) (x x' : Exchange) (d : Device)
    (b0 b1 b2 b3 : ℕ) (rest : List ℕ) (sent : x.bytes ≡ four b0 b1 b2 b3 rest) (h0 : b0 < 256)
    (h1 : b1 < 256) (h2 : b2 < 256) (h3 : b3 < 256) where
  clock_kept : (vendor_request_handler b h 40 ps x d).device.fw.clock.clkn ≡ le_word32 x.bytes 0
  unfolding vendor_request_handler board_requests tuning_requests piconet_requests set_clock
      set_squelch
  clock_kept = refl

  clock_shown :
      (e : Device)
      → (vendor_request_handler b h' 41 ps' x' e).exchange
        ≡ reply (split_bytes 4 0 e.fw.clock.clkn) x'
  unfolding vendor_request_handler board_requests tuning_requests piconet_requests
  clock_shown e = refl

  -- SET_CLOCK with a transfer that starts with four bytes, then GET_CLOCK, with nothing between: the
  -- reply is the same four bytes.
  pub set_clock-get_clock :
      (vendor_request_handler b h' 41 ps' x' (vendor_request_handler b h 40 ps x d).device).exchange
      ≡ reply (four b0 b1 b2 b3 []) x'
  set_clock-get_clock =
      clock_shown (vendor_request_handler b h 40 ps x d).device
      ∙ ap (λ w. reply (split_bytes 4 0 w) x') clock_kept
      ∙ ap (λ bytes. reply (split_bytes 4 0 (le_word32 bytes 0)) x') sent
      ∙ ap (λ bytes. reply bytes x') (split_joined b0 b1 b2 b3 rest h0 h1 h2 h3)

  address_kept :
      (vendor_request_handler b h 44 ps x d).device.fw.le.access_address ≡ le_word32 x.bytes 0
  unfolding vendor_request_handler board_requests tuning_requests piconet_requests le_requests
      set_access_address
  address_kept = refl

  address_shown :
      (e : Device)
      → (vendor_request_handler b h' 43 ps' x' e).exchange
        ≡ reply (split_bytes 4 0 e.fw.le.access_address) x'
  unfolding vendor_request_handler board_requests tuning_requests piconet_requests le_requests
  address_shown e = refl

  -- SET_ACCESS_ADDRESS with a transfer that starts with four bytes, then GET_ACCESS_ADDRESS, with
  -- nothing between: the reply is the same four bytes.
  pub set_access_address-get_access_address :
      (vendor_request_handler b h' 43 ps' x' (vendor_request_handler b h 44 ps x d).device).exchange
      ≡ reply (four b0 b1 b2 b3 []) x'
  set_access_address-get_access_address =
      address_shown (vendor_request_handler b h 44 ps x d).device
      ∙ ap (λ w. reply (split_bytes 4 0 w) x') address_kept
      ∙ ap (λ bytes. reply (split_bytes 4 0 (le_word32 bytes 0)) x') sent
      ∙ ap (λ bytes. reply bytes x') (split_joined b0 b1 b2 b3 rest h0 h1 h2 h3)

-- What UBERTOOTH_POLL promises of a queue of packets: the oldest packet and the others, or a byte 0
-- and the empty queue.
abbrev pub poll_reply : List Packet → Exchange → Exchange × List Packet
poll_reply [] x = (reply (0 ∷ []) x, [])
poll_reply (p ∷ ps) x = (reply (packet_bytes p) x, ps)

abbrev Polled : Queue → Exchange → Type 0
Polled q x =
    ((polled (slot_packet q (dequeue q).0) x, contents (dequeue q).1) ≡ poll_reply (contents q) x)
    × IsValid (dequeue q).1

queue-Polled : (q : Queue) (x : Exchange) → IsValid q → Polled q x
queue-Polled q x v = elim (dec_lt 0 (count q)) [
  | yes left ↦
      let inside : q.head % 128 < length q.fifo = omega arith in
      rw
        (
          dequeue_pos q v left,
          contents-advanced q v left,
          get_elem?-eq-get_or q.fifo (q.head % 128) blank inside,
        )
        (refl, advanced-IsValid q v left)
  | no none_left ↦
      let empty : count q ≡ 0 = omega arith in
      rw (dequeue_zero q v empty, contents_of_zero q empty) (refl, v)
]

-- Where the ring is valid, a POLL request is accepted, its transfer and the packets left in the ring
-- are those that the queue promises, and the ring stays valid.
pub poll_takes_oldest :
    (b : Build) (h : Hardware) (ps : List ℕ) (x : Exchange) (d : Device)
    → IsValid d.fw.queue
    → let a = vendor_request_handler b h 49 ps x d in
      (a.accepted ≡ true)
      × ((a.exchange, contents a.device.fw.queue) ≡ poll_reply (contents d.fw.queue) x)
      × IsValid a.device.fw.queue
unfolding vendor_request_handler board_requests tuning_requests piconet_requests le_requests
poll_takes_oldest b h ps x d v = let p = queue-Polled d.fw.queue x v in (refl, p.0, p.1)

channel_shown :
    (b : Build) (h : Hardware) (ps : List ℕ) (x : Exchange) (d : Device)
    → (vendor_request_handler b h 11 ps x d).exchange
      ≡ reply (d.fw.radio.channel % 256 ∷ d.fw.radio.channel / 256 % 256 ∷ []) x
unfolding vendor_request_handler board_requests tuning_requests
channel_shown b h ps x d =
    let low : bit_and d.fw.radio.channel 255 ≡ d.fw.radio.channel % 256 = and-mask 8 _ in
    let high : bit_and (d.fw.radio.channel >>> 8) 255 ≡ d.fw.radio.channel / 256 % 256 =
      and-mask 8 (d.fw.radio.channel >>> 8) in
    rw (low, high) refl

-- The channel that a SET_CHANNEL request leaves, and what GET_CHANNEL then replies. The first case is
-- a frequency beyond the tuning limits of the radio, which starts a sweep of the band at 2402; below
-- them the lowest is taken.
abbrev pub tuned_to : (asked : ℕ) → ℕ
tuned_to asked =
    if ltb max_freq asked then 2402 else (if ltb asked min_freq then min_freq else asked)

channel_kept :
    (b : Build) (h : Hardware) (asked : ℕ) (x : Exchange) (d : Device)
    → is_bt_follow_le d.fw.mode ≡ false
    → let e = (vendor_request_handler b h 12 (asked ∷ []) x d).device in
      (e.fw.radio.channel ≡ tuned_to asked) × (is_hop_none e.fw.radio.hop_mode ≡ leb asked max_freq)
unfolding vendor_request_handler board_requests tuning_requests set_channel set_squelch
channel_kept b h asked x d still = ground arith

-- Outside MODE_BT_FOLLOW_LE, SET_CHANNEL tunes to the frequency asked for, raised to 2268, or starts
-- a sweep at 2402 where it is above 2794, with hopping exactly in that case; GET_CHANNEL, next,
-- replies the two bytes of that frequency, the low one first.
pub set_channel-get_channel :
    (b : Build) (h h' : Hardware) (asked : ℕ) (ps : List ℕ) (x x' : Exchange) (d : Device)
    → is_bt_follow_le d.fw.mode ≡ false
    → let e = (vendor_request_handler b h 12 (asked ∷ []) x d).device in
      (is_hop_none e.fw.radio.hop_mode ≡ leb asked max_freq)
      × ((vendor_request_handler b h' 11 ps x' e).exchange
          ≡ reply (tuned_to asked % 256 ∷ tuned_to asked / 256 % 256 ∷ []) x')
set_channel-get_channel b h h' asked ps x x' d still =
    let e = (vendor_request_handler b h 12 (asked ∷ []) x d).device in
    let k = channel_kept b h asked x d still in
    (k.1, channel_shown b h' ps x' e ∙ ap (λ c. reply (c % 256 ∷ c / 256 % 256 ∷ []) x') k.0)
