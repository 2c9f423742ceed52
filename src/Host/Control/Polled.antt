-- ===== src/Host/Control/Polled.antt =====
-- Polling: the packets of the ring of the firmware, one for each request of the host.
use mathlib.Core.Path.{subst}
use codetooth.Prelude.{
  ℕ, min, ◌≡◌, refl, sym, ap, ap₂, Bool, ◌∙◌, true, List, [], ◌∷◌, ◌++◌, length, take, take-append,
  drop, All, arith,
}
use codetooth.Usb.Packet.{Packet}
use codetooth.Usb.Queue.Refine.{IsValid, contents}
use codetooth.Firmware.Device.{Device, Build, Hardware}
use codetooth.Firmware.Vendor.Control.{Exchange, reply, packet_bytes}
use codetooth.Firmware.Vendor.Commands.{Request}
use codetooth.Firmware.Vendor.Reply.{length-packet_bytes}
use codetooth.Firmware.Vendor.Roundtrip.{poll_reply, poll_takes_oldest}
use codetooth.Firmware.Vendor.Transport.{usb_vendor_request_handler}
use codetooth.Host.Control.Transfer.{Code, value, Libusb, Done, done}
use codetooth.Host.Control.Requests.{in_request}
use codetooth.Host.Control.Links.{cmd_poll, or_shown_with}
use codetooth.Host.Control.Carried.{Carries, replied, handled}

-- What UBERTOOTH_POLL promises the host, for the packets in the ring: the 64 bytes of the oldest, or
-- a single byte 0, over what the host's packet held.
abbrev pub host_reads : List Packet → (p : List ℕ) → Code × List ℕ
host_reads [] p = (value 1, 0 ∷ drop 1 p)
host_reads (packet ∷ packets) p = (value 64, packet_bytes packet ++ drop 64 p)

abbrev IsWhole : Packet → Type 0
IsWhole packet = length packet.payload ≡ 50

-- The transfer of `p` that brings a reply of `n` bytes.
arrives :
    (p bytes behind : List ℕ) (n : ℕ) (d : Device)
    → length bytes ≡ n
    → min 64 (length bytes) ≡ n
    → let m = min 64 (length bytes) in
      ◌≡◌ {A = Done Device (Code × List ℕ)}
        (done (value m, take m (bytes ++ behind) ++ drop m p) [] d)
        (done (value n, bytes ++ drop n p) [] d)
arrives p bytes behind n d size fits =
    ap
      (λ (m : ℕ).
        let a : Done Device (Code × List ℕ) =
          done (value m, take m (bytes ++ behind) ++ drop m p) [] d in
        a)
      fits
    ∙ ap
        (λ (front : List ℕ).
          let a : Done Device (Code × List ℕ) = done (value n, front ++ drop n p) [] d in a)
        (take-append bytes behind n size)

replied-poll :
    (p : List ℕ) (packets : List Packet) (stale : List ℕ) (n : ℕ) (d : Device)
    → All IsWhole packets
    → let x = (poll_reply packets (record { bytes = stale; data_len = n })).0 in
      or_shown_with (
        replied
          (in_request Request.poll 0 p 64 1000)
          (record { returns = true; accepted = true; exchange = x; device = d }))
      ≡ done (host_reads packets p) [] d
unfolding reply
replied-poll p [] stale n d all = refl
replied-poll p (packet ∷ packets) stale n d all =
    let size : length (packet_bytes packet) ≡ 64 =
      omega (arith, length-packet_bytes packet, all.0) in
    arrives p (packet_bytes packet) (drop (length (packet_bytes packet)) stale) 64 d size
      (ground (arith, size))

others_left : (packets : List Packet) (x : Exchange) → (poll_reply packets x).1 ≡ drop 1 packets
others_left [] x = refl
others_left (packet ∷ packets) x = refl

module _ (b : Build) (h : Hardware) (usb : Libusb Device) (c : Carries b h usb) where
  -- On a bus that carries every transfer, where the ring is valid and its packets have 50 bytes of
  -- payload, each poll brings the host the 64 bytes of the oldest packet, which leaves the ring, or
  -- a single byte 0 where there is none; the ring stays valid.
  pub cmd_poll_lem :
      (p : List ℕ) (d : Device)
      → IsValid d.fw.queue
      → All IsWhole (contents d.fw.queue)
      → let polled = cmd_poll usb p d in
        (polled.result ≡ host_reads (contents d.fw.queue) p)
        × (contents polled.world.fw.queue ≡ drop 1 (contents d.fw.queue))
        × IsValid polled.world.fw.queue
  unfolding cmd_poll usb_vendor_request_handler
  cmd_poll_lem p d v all =
      let t = in_request Request.poll 0 p 64 1000 in
      let x : Exchange = record { bytes = c.stale t d; data_len = 64 } in
      let a = handled b h t (c.stale t d) d in
      let (good, answer, valid) = poll_takes_oldest b h (0 ∷ 0 ∷ []) x d v in
      let sent : a.exchange ≡ (poll_reply (contents d.fw.queue) x).0 =
        ap (λ (r : Exchange × List Packet). r.0) answer in
      let left : contents a.device.fw.queue ≡ (poll_reply (contents d.fw.queue) x).1 =
        ap (λ (r : Exchange × List Packet). r.1) answer in
      let e : cmd_poll usb p d ≡ done (host_reads (contents d.fw.queue) p) [] a.device =
        ap or_shown_with (c.asks t d refl refl)
        ∙ ap₂
            (λ (ok : Bool) (y : Exchange). or_shown_with (
              replied t
                (record { returns = true; accepted = ok; exchange = y; device = a.device })))
            good sent
        ∙ replied-poll p (contents d.fw.queue) (c.stale t d) 64 a.device all in
      (
        ap (λ (r : Done Device (Code × List ℕ)). r.result) e,
        ap (λ (r : Done Device (Code × List ℕ)). contents r.world.fw.queue) e
            ∙ left
            ∙ others_left (contents d.fw.queue) x,
        subst (λ (w : Device). IsValid w.fw.queue)
            (sym (ap (λ (r : Done Device (Code × List ℕ)). r.world) e)) valid,
      )
