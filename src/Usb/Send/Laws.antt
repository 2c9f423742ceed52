-- ===== src/Usb/Send/Laws.antt =====
-- Sending loses no packet, sends none twice, and keeps their order.
use codetooth.Prelude.{
  ℕ, ◌+◌, ap₂, take, drop, take-add, drop-add, ◌%◌, ◌<◌, ◌≡◌, refl, sym, ap, ◌∙◌, sub32, ltb, ◌==◌,
  if◌then◌else◌, Bool, true, false, List, [], ◌∷◌, ◌++◌, arith, Bool-cases, inl, inr, get_or,
  bit_and, ◌≢◌, ◌↔◌, length,
}
use codetooth.Usb.Packet.{Packet}
use codetooth.Usb.Queue.{blank}
use codetooth.Usb.Queue.Refine.{
  IsValid, contents, count, dequeue_pos, dequeue_zero, contents-advanced, advanced-IsValid,
  advanced, contents_of_zero, length-contents,
}
use codetooth.Usb.Send.{
  Transfer, packet, alive, Sender, send_found, dequeue_send, write_queued, handle_usb,
  usb_keep_alive,
}
use native.Mathlib.Decide.{dec_lt}
use mathlib.Core.List.{append_assoc, append-nil}

-- The packets among the writes.
pub packets : List Transfer → List Packet
packets [] = []
packets (packet p ∷ ts) = p ∷ packets ts
packets (alive ∷ ts) = packets ts

packets-append : (xs ys : List Transfer) → packets (xs ++ ys) ≡ packets xs ++ packets ys
unfolding packets
packets-append [] ys = refl
packets-append (packet p ∷ xs) ys = ap (◌∷◌ p) (packets-append xs ys)
packets-append (alive ∷ xs) ys = packets-append xs ys

-- `n` packets, or all if there are fewer, leave the front of the ring for the endpoint, in their order.
pub record Sends (n : ℕ) (s s' : Sender) : Type 0 where
  pub valid : IsValid s'.queue
  pub sent : packets s'.written ≡ packets s.written ++ take n (contents s.queue)
  pub left : contents s'.queue ≡ drop n (contents s.queue)

sent_one :
    (clkn : ℕ) (s : Sender)
    → IsValid s.queue
    → 0 < count s.queue
    → dequeue_send clkn s ≡ (
      true,
      record {
        queue = advanced s.queue;
        last_usb_pkt = clkn;
        written = s.written ++ (packet (get_or s.queue.fifo (s.queue.head % 128) blank) ∷ []);
      },
    )
unfolding dequeue_send
sent_one clkn s v left = ap (send_found clkn s) (dequeue_pos s.queue v left)

sent_none :
    (clkn : ℕ) (s : Sender)
    → IsValid s.queue
    → count s.queue ≡ 0
    → dequeue_send clkn s ≡ (
      false,
      (if ltb usb_keep_alive (sub32 clkn s.last_usb_pkt)
          then record { queue = s.queue; last_usb_pkt = clkn; written = s.written ++ (alive ∷ []) }
          else s),
    )
unfolding dequeue_send
sent_none clkn s v e = ap (send_found clkn s) (dequeue_zero s.queue v e)

packets_alive : (ts : List Transfer) → packets (ts ++ (alive ∷ [])) ≡ packets ts
packets_alive ts = packets-append ts (alive ∷ []) ∙ unfold packets in append-nil (packets ts)

-- An empty ring has nothing to send.
nothing_left :
    (s t : Sender)
    → IsValid t.queue
    → contents s.queue ≡ []
    → packets t.written ≡ packets s.written
    → t.queue ≡ s.queue
    → Sends 1 s t
nothing_left s t v none_held same_written same_queue = record {
  valid = v;
  sent = rw (none_held, append-nil (packets s.written)) same_written;
  left = rw (none_held) (ap contents same_queue ∙ none_held);
}

dequeue_send-Sends : (clkn : ℕ) (s : Sender) → IsValid s.queue → Sends 1 s (dequeue_send clkn s).1
dequeue_send-Sends clkn s v = elim (dec_lt 0 (count s.queue)) [
  | yes left ↦
      let front = contents-advanced s.queue v left in
      rw (sent_one clkn s v left) (record {
        valid = advanced-IsValid s.queue v left;
        sent =
            packets-append s.written (packet (get_or s.queue.fifo (s.queue.head % 128) blank) ∷ [])
            ∙ unfold packets in
              ap (λ (ps : List Packet). packets s.written ++ take 1 ps) (sym front);
        left = ap (drop 1) (sym front);
      })
  | no gone ↦
      let none_held : count s.queue ≡ 0 = omega arith in
      rw (sent_none clkn s v none_held)
        (elim (Bool-cases (ltb usb_keep_alive (sub32 clkn s.last_usb_pkt))) [
          | inl long ↦ rw (long) (
              nothing_left s _ v (contents_of_zero s.queue none_held) (packets_alive s.written)
                refl)
          | inr recent ↦
              rw recent (nothing_left s s v (contents_of_zero s.queue none_held) refl refl)
        ])
]

Sends-none : (s : Sender) → IsValid s.queue → Sends 0 s s
Sends-none s v = record { valid = v; sent = sym (append-nil (packets s.written)); left = refl }

Sends-more : (m n : ℕ) (s t u : Sender) → Sends m s t → Sends n t u → Sends (m + n) s u
Sends-more m n s t u first second = record {
  valid = second.valid;
  sent =
      second.sent
      ∙ ap₂ (λ (ps qs : List Packet). ps ++ take n qs) first.sent first.left
      ∙ append_assoc (packets s.written) (take m (contents s.queue))
          (take n (drop m (contents s.queue)))
      ∙ ap (λ ps. packets s.written ++ ps) (sym (take-add m n (contents s.queue)));
  left = second.left ∙ ap (drop n) first.left ∙ sym (drop-add m n (contents s.queue));
}

-- How many of the two buffers of the endpoint are free.
abbrev pub one_if : Bool → ℕ
one_if free = if free then 1 else 0

abbrev pub free_buffers : (epstat : ℕ) → ℕ
free_buffers epstat = one_if (bit_and epstat 0x20 == 0) + one_if (bit_and epstat 0x40 == 0)

if_Sends :
    (clkn : ℕ) (free : Bool) (s : Sender)
    → IsValid s.queue
    → Sends (one_if free) s (if free then (dequeue_send clkn s).1 else s)
if_Sends clkn true s v = dequeue_send-Sends clkn s v
if_Sends clkn false s v = Sends-none s v

-- Where the ring is valid, handle_usb hands over to USBHwISR a state in which as many packets as the
-- endpoint had free buffers, of its two, or all if there were fewer, have left the front of the ring and
-- been written to the endpoint in their order; the others are still queued, and the ring is valid.
pub handle_usb-Sends :
    (isr : Sender → Sender) (clkn epstat : ℕ) (s : Sender)
    → IsValid s.queue
    → (s' : Sender) × (handle_usb isr clkn epstat s ≡ isr s') × Sends (free_buffers epstat) s s'
unfolding handle_usb write_queued
handle_usb-Sends isr clkn epstat s v =
    let first = if_Sends clkn (bit_and epstat 0x20 == 0) s v in
    let second = if_Sends clkn (bit_and epstat 0x40 == 0) _ first.valid in
    (write_queued clkn epstat s, refl, Sends-more _ _ _ _ _ first second)

-- dequeue_send reports a packet sent exactly when one was queued.
pub dequeue_send_sends :
    (clkn : ℕ) (s : Sender)
    → IsValid s.queue
    → (dequeue_send clkn s).0 ≡ true ↔ (contents s.queue ≢ [])
dequeue_send_sends clkn s v = elim (dec_lt 0 (count s.queue)) [
  | yes left ↦ rw (sent_one clkn s v left, contents-advanced s.queue v left) (λ _ e. cc, λ _. refl)
  | no gone ↦
      let none_held : count s.queue ≡ 0 = omega arith in
      rw (sent_none clkn s v none_held, contents_of_zero s.queue none_held)
        (λ e. cc, λ h. absurd (h refl))
]

-- With nothing queued dequeue_send writes a keep-alive exactly when more than 400000 ticks, modulo
-- 2^32, have passed since the last write, and notes the time of what it writes.
pub dequeue_send_alive :
    (clkn : ℕ) (s : Sender)
    → IsValid s.queue
    → contents s.queue ≡ []
    → let s' = (dequeue_send clkn s).1 in
      let long = ltb 400000 (sub32 clkn s.last_usb_pkt) in
      (s'.written ≡ s.written ++ (if long then alive ∷ [] else []))
      × (s'.last_usb_pkt ≡ (if long then clkn else s.last_usb_pkt))
dequeue_send_alive clkn s v empty =
    let none_held : count s.queue ≡ 0 = omega (arith, length-contents s.queue, ap length empty) in
    rw (sent_none clkn s v none_held)
      (elim (Bool-cases (ltb usb_keep_alive (sub32 clkn s.last_usb_pkt))) [
        | inl long ↦ rw long (refl, refl)
        | inr recent ↦ rw recent (sym (append-nil s.written), refl)
      ])
