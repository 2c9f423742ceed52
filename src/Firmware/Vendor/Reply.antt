-- ===== src/Firmware/Vendor/Reply.antt =====
-- Every reply fits into the 258 bytes of abVendorReqData.
use codetooth.Prelude.{
  ℕ, zero, suc, ◌+◌, ◌≤◌, ◌≡◌, refl, u8, bit_and, Option, none, some, List, [], ◌∷◌, ◌++◌, length,
  length-append, length-drop, length-take, drop, All, get_elem?, get_or, arith,
}
use codetooth.Usb.Packet.{Packet}
use codetooth.Usb.Queue.{Queue, dequeue}
use codetooth.Firmware.Device.{Device, Build, Hardware}
use codetooth.Firmware.Vendor.Commands.{Request, request_of}
use codetooth.Firmware.Vendor.Control.{Exchange, reply, split_bytes, packet_bytes}
use codetooth.Firmware.Vendor.Le.{le_requests, bit_of, polled, slot_packet}
use codetooth.Firmware.Vendor.Piconet.{piconet_requests}
use codetooth.Firmware.Vendor.Tuning.{tuning_requests, counted_string}
use codetooth.Firmware.Vendor.Board.{board_requests, iap_word, iap_status, frend}
use codetooth.Firmware.Vendor.{answer_to, vendor_request_handler}

-- The buffer has its size, and the length of the transfer lies in it.
pub record Fits (x : Exchange) : Type 0 where
  pub buffer : length x.bytes ≡ 258
  pub within : x.data_len ≤ 258

-- The packets of the ring hold at most DMA_SIZE bytes of payload.
abbrev pub PayloadsFit : Queue → Type 0
PayloadsFit q = All (λ p. length p.payload ≤ 50) q.fifo

reply-Fits : (sent : List ℕ) (x : Exchange) → length sent ≤ 258 → Fits x → Fits (reply sent x)
unfolding reply
reply-Fits sent x small fits = record {
  buffer = omega (
    arith,
    fits.buffer,
    length-append sent (drop (length sent) x.bytes),
    length-drop (length sent) x.bytes,
  );
  within = small;
}

length-split_bytes : (n i word : ℕ) → length (split_bytes n i word) ≡ n
unfolding split_bytes
length-split_bytes zero i word = refl
length-split_bytes (suc n) i word = omega (arith, length-split_bytes n (i + 1) word)

length-iap_word : (result : List ℕ) (i : ℕ) → length (iap_word result i) ≡ 4
unfolding iap_word
length-iap_word result i = length-split_bytes 4 0 (get_or result i 0)

length-serial :
    (s : ℕ) (r : List ℕ)
    → length (s ∷ (iap_word r 1 ++ (iap_word r 2 ++ (iap_word r 3 ++ iap_word r 4)))) ≡ 17
unfolding iap_word split_bytes
length-serial s r = omega arith

pub length-packet_bytes : (p : Packet) → length (packet_bytes p) ≡ 14 + length p.payload
unfolding packet_bytes split_bytes
length-packet_bytes p = omega arith

length-counted_string : (text : List ℕ) → length (counted_string text) ≤ 256
unfolding counted_string
length-counted_string text = omega (arith, length-take (u8 (length text)) text)

slot-Fits :
    (fifo : List Packet) (slot : ℕ) (x : Exchange)
    → All (λ p. length p.payload ≤ 50) fifo
    → Fits x
    → Fits (polled (get_elem? fifo slot) x)
slot-Fits [] slot x small fits = reply-Fits (0 ∷ []) x (omega arith) fits
slot-Fits (p ∷ fifo) zero x small fits =
    reply-Fits (packet_bytes p) x (omega (arith, small.0, length-packet_bytes p)) fits
slot-Fits (p ∷ fifo) (suc slot) x small fits = slot-Fits fifo slot x small.1 fits

polled-Fits :
    (q : Queue) (o : Option ℕ) (x : Exchange)
    → PayloadsFit q
    → Fits x
    → Fits (polled (slot_packet q o) x)
polled-Fits q none x small fits = reply-Fits (0 ∷ []) x (omega arith) fits
polled-Fits q (some slot) x small fits = slot-Fits q.fifo slot x small fits

module _ (b : Build) (h : Hardware) (ps : List ℕ) (x : Exchange) (d : Device) (fits : Fits x)
    (small : PayloadsFit d.fw.queue) where
  few : (sent : List ℕ) → length sent ≤ 258 → Fits (reply sent x)
  few sent bound = reply-Fits sent x bound fits

  le-Fits : (r : Request) → Fits (le_requests b h r ps x d).exchange
  unfolding le_requests
  le-Fits Request.get_access_address =
      few _ (omega (arith, length-split_bytes 4 0 d.fw.le.access_address))
  le-Fits Request.do_something_reply = few _ (omega arith)
  le-Fits Request.get_crc_verify = few _ (omega arith)
  le-Fits Request.read_register = few _ (omega arith)
  le-Fits Request.poll = polled-Fits d.fw.queue (dequeue d.fw.queue).0 x small fits
  le-Fits _ = ground arith

  piconet-Fits : (r : Request) → Fits (piconet_requests b h r ps x d).exchange
  unfolding piconet_requests
  piconet-Fits Request.get_clock = few _ (omega (arith, length-split_bytes 4 0 d.fw.clock.clkn))
  piconet-Fits r = ground (arith, le-Fits r)

  tuning-Fits : (r : Request) → Fits (tuning_requests b h r ps x d).exchange
  unfolding tuning_requests
  tuning-Fits Request.range_check = few _ (omega arith)
  tuning-Fits Request.get_mod = few _ (omega arith)
  tuning-Fits Request.get_channel = few _ (omega arith)
  tuning-Fits Request.get_rev_num = few _ (omega (arith, length-counted_string b.git_revision))
  tuning-Fits Request.get_compile_info = few _ (omega (arith, length-counted_string b.compile_info))
  tuning-Fits Request.get_board_id = few _ (omega arith)
  tuning-Fits Request.get_squelch = few _ (omega arith)
  tuning-Fits r = ground (arith, piconet-Fits r)

  one_byte : (byte : ℕ) → Fits (reply (byte ∷ []) x)
  one_byte byte = few (byte ∷ []) (omega arith)

  board-Fits : (r : Request) → Fits (board_requests b h r ps x d).exchange
  unfolding board_requests
  board-Fits Request.get_usrled = one_byte _
  board-Fits Request.get_rxled = one_byte _
  board-Fits Request.get_txled = one_byte _
  board-Fits Request.get_1v8 = one_byte _
  board-Fits Request.get_partnum = few _ (omega (arith, length-iap_word (h.iap_entry 54) 1))
  board-Fits Request.get_serial =
      few _ (omega (arith, length-serial (iap_status (h.iap_entry 58)) (h.iap_entry 58)))
  board-Fits Request.get_paen = ground (arith, one_byte (bit_of d.pins.paen))
  board-Fits Request.get_hgm = ground (arith, one_byte (bit_of d.pins.hgm))
  board-Fits Request.get_palevel = ground (arith, one_byte (bit_and (h.cc2400_get frend) 0x7))
  board-Fits r = ground (arith, tuning-Fits r)

  answer-Fits : (r : Option Request) → Fits (answer_to b h r ps x d).exchange
  answer-Fits none = fits
  answer-Fits (some r) = board-Fits r

-- Where the buffer has its 258 bytes, the transfer's length lies within them, and no packet of the
-- ring has a payload over 50 bytes, every request leaves a buffer of 258 bytes and a length within
-- them: no reply, not even a revision string, is written past the end.
pub vendor_request_handler-Fits :
    (b : Build) (h : Hardware) (request : ℕ) (ps : List ℕ) (x : Exchange) (d : Device)
    → Fits x
    → PayloadsFit d.fw.queue
    → Fits (vendor_request_handler b h request ps x d).exchange
unfolding vendor_request_handler
vendor_request_handler-Fits b h request ps x d fits small =
    answer-Fits b h ps x d fits small (request_of request)
