-- ===== src/Host/Control/Tuned.antt =====
-- The channel, the squelch and the ranges to scan, from the host to the firmware and back.
use codetooth.Prelude.{
  ℕ, ◌/◌, ◌%◌, ◌^◌, ◌≡◌, refl, ap, ◌∙◌, bit_and, bit_or, ◌<<<◌, ◌>>>◌, leb, if◌then◌else◌, Bool,
  false, ◌&&◌, List, [], ◌∷◌, arith,
}
use codetooth.Prelude.Bits.{and-mask, or_low}
use codetooth.Prelude.Int.{wrap, signed}
use codetooth.Firmware.State.{Mode, hop_none, hop_sweep}
use codetooth.Firmware.Device.{Device, Build, Hardware, set_squelch}
use codetooth.Firmware.Squelch.{cs_threshold_calc_and_set, cs_threshold_set}
use codetooth.Firmware.Vendor.Control.{reply}
use codetooth.Firmware.Vendor.Tuning.{tuning_requests, set_channel, is_bt_follow_le}
use codetooth.Firmware.Vendor.Roundtrip.{tuned_to}
use codetooth.Firmware.Vendor.Board.{board_requests}
use codetooth.Firmware.Vendor.{vendor_request_handler}
use codetooth.Firmware.Vendor.Commands.{Request}
use codetooth.Firmware.Vendor.Transport.{usb_vendor_request_handler}
use codetooth.Host.Control.Transfer.{
  Code, value, error, pipe, show_libusb_error, Libusb, Done, done, or_told, or_shown,
  or_unless_success, zero_code,
}
use codetooth.Host.Control.Requests.{out_request, in_request, cmd_specan}
use codetooth.Host.Control.Settings.{
  low_first, first_byte, cmd_set_channel, cmd_get_channel, cmd_set_squelch, cmd_get_squelch,
}
use codetooth.Host.Control.Carried.{Carries, handled}

module _ (b : Build) (h : Hardware) (usb : Libusb Device) (c : Carries b h usb) where
  -- The device after a request with `w_value` and no bytes.
  abbrev put : Request → (w_value timeout : ℕ) → Device → Device
  put r w_value timeout d =
      let t = out_request r w_value 0 [] timeout in (handled b h t (c.stale t d) d).device

  cmd_set_channel-eq :
      (channel : ℕ) (d : Device)
      → cmd_set_channel usb channel d ≡ done (value 0) [] (put Request.set_channel channel 1000 d)
  unfolding cmd_set_channel or_told usb_vendor_request_handler vendor_request_handler board_requests
      tuning_requests
  cmd_set_channel-eq channel d =
      ap (or_told zero_code)
        (c.sends (out_request Request.set_channel channel 0 [] 1000) d refl refl (omega arith) refl)

  channel_held :
      (channel : ℕ) (d : Device)
      → is_bt_follow_le d.fw.mode ≡ false
      → let e = put Request.set_channel channel 1000 d in
        (e.fw.radio.channel ≡ tuned_to channel)
        × (e.fw.radio.hop_mode ≡ (if leb channel 2794 then hop_none else hop_sweep))
  unfolding usb_vendor_request_handler vendor_request_handler board_requests tuning_requests
      set_channel set_squelch
  channel_held channel d still = ground arith

  two_bytes : (n : ℕ) → bit_or (bit_and n 0xff) (bit_and (n >>> 8) 0xff <<< 8) ≡ n % 2 ^ 16
  two_bytes n =
      let low : bit_and n 255 ≡ n % 256 = and-mask 8 n in
      let high : bit_and (n >>> 8) 255 ≡ n / 256 % 256 = and-mask 8 (n >>> 8) in
      rw (low, high) (or_low 8 (n % 256) (n / 256 % 256) (omega arith) ∙ omega arith)

  cmd_get_channel-eq :
      (stack : List ℕ) (d : Device)
      → cmd_get_channel usb stack d ≡ done (value (d.fw.radio.channel % 2 ^ 16)) [] d
  unfolding cmd_get_channel or_told usb_vendor_request_handler vendor_request_handler board_requests
      tuning_requests reply
  cmd_get_channel-eq stack d =
      ap (or_told low_first) (c.asks (in_request Request.get_channel 0 stack 2 1000) d refl refl)
      ∙ ap (λ (n : ℕ). done (value n) [] d) (two_bytes d.fw.radio.channel)

  -- On a bus that carries every transfer and outside MODE_BT_FOLLOW_LE, where the host sets a channel
  -- and then reads the channel, with nothing between, the number read is the frequency set, raised to
  -- 2268, or 2402 where it is above 2794. In that last case the firmware is set to sweep the band, else not
  -- to hop.
  pub cmd_set_channel-cmd_get_channel :
      (channel : ℕ) (stack : List ℕ) (d : Device)
      → is_bt_follow_le d.fw.mode ≡ false
      → let set = cmd_set_channel usb channel d in
        (set.result ≡ value 0)
        × (set.world.fw.radio.hop_mode ≡ (if leb channel 2794 then hop_none else hop_sweep))
        × ((cmd_get_channel usb stack set.world).result ≡ value (tuned_to channel))
  cmd_set_channel-cmd_get_channel channel stack d still =
      let e = cmd_set_channel-eq channel d in
      let k = channel_held channel d still in
      let small : tuned_to channel % 2 ^ 16 ≡ tuned_to channel = ground arith in
      let held : (cmd_set_channel usb channel d).world.fw.radio.channel ≡ tuned_to channel =
        ap (λ (a : Done Device Code). a.world.fw.radio.channel) e ∙ k.0 in
      (
        ap (λ (a : Done Device Code). a.result) e,
        ap (λ (a : Done Device Code). a.world.fw.radio.hop_mode) e ∙ k.1,
        ap (λ (a : Done Device Code). a.result)
              (cmd_get_channel-eq stack (cmd_set_channel usb channel d).world)
            ∙ ap (λ (n : ℕ). value (n % 2 ^ 16)) held
            ∙ ap value small,
      )

  cmd_set_squelch-eq :
      (level : ℕ) (d : Device)
      → cmd_set_squelch usb level d ≡ done (value 0) [] (put Request.set_squelch level 3000 d)
  unfolding cmd_set_squelch or_unless_success usb_vendor_request_handler vendor_request_handler
      board_requests tuning_requests
  cmd_set_squelch-eq level d =
      ap or_unless_success
        (c.sends (out_request Request.set_squelch level 0 [] 3000) d refl refl (omega arith) refl)

  level_held :
      (level : ℕ) (d : Device)
      → (put Request.set_squelch level 3000 d).squelch.cs_threshold_req ≡ signed 256 level
  unfolding usb_vendor_request_handler vendor_request_handler board_requests tuning_requests
      set_squelch cs_threshold_calc_and_set cs_threshold_set
  level_held level d = ground arith

  cmd_get_squelch-eq :
      (stack : List ℕ) (d : Device)
      → cmd_get_squelch usb stack d ≡ done (value (wrap 256 d.squelch.cs_threshold_req)) [] d
  unfolding cmd_get_squelch or_shown usb_vendor_request_handler vendor_request_handler
      board_requests tuning_requests reply
  cmd_get_squelch-eq stack d =
      ap (or_shown first_byte) (c.asks (in_request Request.get_squelch 0 stack 1 3000) d refl refl)

  -- The same of the squelch level, of which the low byte is read.
  pub cmd_set_squelch-cmd_get_squelch :
      (level : ℕ) (stack : List ℕ) (d : Device)
      → let set = cmd_set_squelch usb level d in
        (set.result ≡ value 0)
        × ((cmd_get_squelch usb stack set.world).result ≡ value (level % 256))
  cmd_set_squelch-cmd_get_squelch level stack d =
      let e = cmd_set_squelch-eq level d in
      let back : wrap 256 (signed 256 level) ≡ level % 256 = ground arith in
      (
        ap (λ (a : Done Device Code). a.result) e,
        ap (λ (a : Done Device Code). a.result)
              (cmd_get_squelch-eq stack (cmd_set_squelch usb level d).world)
            ∙ ap (λ (a : Done Device Code). value (wrap 256 a.world.squelch.cs_threshold_req)) e
            ∙ ap (λ z. value (wrap 256 z)) (level_held level d)
            ∙ ap value back,
      )

  -- Both ends of a band that SPECAN takes, and their order.
  abbrev pub scannable : (low high : ℕ) → Bool
  scannable low high = leb 2049 low && (leb low high && leb high 3072)

  -- On a bus that carries every transfer, a band is accepted exactly where its ends are ordered and
  -- within 2049 and 3072, and the firmware then holds it and is asked to scan; any other is told as a
  -- command error, with the error of a stalled pipe, and the device is left as it was.
  pub cmd_specan_lem :
      (low high : ℕ) (d : Device)
      → cmd_specan usb low high d ≡ (
          if scannable low high
          then done (value 0) [] (record d {
            low_freq = low;
            high_freq = high;
            fw = record (d.fw) { requested_mode = Mode.specan };
          })
          else done (error pipe) (show_libusb_error (error pipe) ∷ []) d)
  unfolding cmd_specan or_shown usb_vendor_request_handler vendor_request_handler board_requests
      tuning_requests
  cmd_specan_lem low high d =
      ap (or_shown zero_code)
        (c.sends (out_request Request.specan low high [] 1000) d refl refl (omega arith) refl)
      ∙ ground arith
