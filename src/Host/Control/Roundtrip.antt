-- ===== src/Host/Control/Roundtrip.antt =====
-- What the host sets with a request of ubertooth_control.c, the firmware holds, and the host reads
-- back.
use codetooth.Prelude.{ℕ, ◌^◌, ◌<◌, ◌≡◌, refl, ap, ◌∙◌, List, [], ◌∷◌, drop, arith}
use codetooth.Firmware.Follow.{set_access_address}
use codetooth.Firmware.Device.{Device, Build, Hardware, set_squelch}
use codetooth.Firmware.Vendor.Control.{reply, split_bytes}
use codetooth.Firmware.Vendor.Le.{le_requests}
use codetooth.Firmware.Vendor.Piconet.{piconet_requests, set_clock}
use codetooth.Firmware.Vendor.Tuning.{tuning_requests}
use codetooth.Firmware.Vendor.Board.{board_requests}
use codetooth.Firmware.Vendor.{vendor_request_handler}
use codetooth.Firmware.Vendor.Commands.{Request}
use codetooth.Firmware.Vendor.Words.{le_word32-split_bytes}
use codetooth.Firmware.Vendor.Transport.{usb_vendor_request_handler}
use codetooth.Host.Control.Transfer.{
  Code, value, Libusb, Done, done, clock_read, or_told, zero_code,
}
use codetooth.Host.Control.Requests.{out_request, in_request}
use codetooth.Host.Control.Links.{
  read_word, cmd_set_clock, cmd_get_clock, cmd_set_access_address, cmd_get_access_address,
}
use codetooth.Host.Control.Carried.{Carries, after}

module _ (b : Build) (h : Hardware) (usb : Libusb Device) (c : Carries b h usb) where
  cmd_set_clock-eq :
      (clkn : ℕ) (d : Device)
      → cmd_set_clock usb clkn d
        ≡ done (value 0) [] (after b h c Request.set_clock (split_bytes 4 0 clkn) d)
  unfolding cmd_set_clock or_told usb_vendor_request_handler vendor_request_handler board_requests
      tuning_requests piconet_requests split_bytes
  cmd_set_clock-eq clkn d = ap (or_told zero_code) (
      c.sends (out_request Request.set_clock 0 0 (split_bytes 4 0 clkn) 1000) d refl refl
        (omega arith) refl)

  clock_held :
      (clkn : ℕ) (d : Device)
      → clkn < 2 ^ 32
      → (after b h c Request.set_clock (split_bytes 4 0 clkn) d).fw.clock.clkn ≡ clkn
  unfolding usb_vendor_request_handler vendor_request_handler board_requests tuning_requests
      piconet_requests set_clock set_squelch
  clock_held clkn d small =
      let sent = out_request Request.set_clock 0 0 (split_bytes 4 0 clkn) 1000 in
      le_word32-split_bytes clkn (c.stale sent d) small

  cmd_get_clock-eq :
      (stack : List ℕ) (d : Device)
      → d.fw.clock.clkn < 2 ^ 32
      → cmd_get_clock usb stack d ≡ done d.fw.clock.clkn (clock_read d.fw.clock.clkn ∷ []) d
  unfolding cmd_get_clock usb_vendor_request_handler vendor_request_handler board_requests
      tuning_requests piconet_requests split_bytes reply
  cmd_get_clock-eq stack d small =
      ap (read_word usb (λ clock. clock_read clock ∷ []))
        (c.asks (in_request Request.get_clock 0 stack 4 3000) d refl refl)
      ∙ ap (λ (w : ℕ). done w (clock_read w ∷ []) d)
          (le_word32-split_bytes d.fw.clock.clkn (drop 4 stack) small)

  -- On a bus that carries every transfer, where the host sets a clock of 32 bits and then reads the
  -- clock, with nothing between, the setting succeeds and the number read is the one set.
  pub cmd_set_clock-cmd_get_clock :
      (clkn : ℕ) (stack : List ℕ) (d : Device)
      → clkn < 2 ^ 32
      → let set = cmd_set_clock usb clkn d in
        (set.result ≡ value 0) × ((cmd_get_clock usb stack set.world).result ≡ clkn)
  cmd_set_clock-cmd_get_clock clkn stack d small =
      let e = cmd_set_clock-eq clkn d in
      let held : (cmd_set_clock usb clkn d).world.fw.clock.clkn ≡ clkn =
        ap (λ (a : Done Device Code). a.world.fw.clock.clkn) e ∙ clock_held clkn d small in
      let low : (cmd_set_clock usb clkn d).world.fw.clock.clkn < 2 ^ 32 = omega arith in
      (
        ap (λ (a : Done Device Code). a.result) e,
        ap (λ (a : Done Device ℕ). a.result)
              (cmd_get_clock-eq stack (cmd_set_clock usb clkn d).world low)
            ∙ held,
      )

  cmd_set_access_address-eq :
      (aa : ℕ) (d : Device)
      → cmd_set_access_address usb aa d
        ≡ done (value 0) [] (after b h c Request.set_access_address (split_bytes 4 0 aa) d)
  unfolding cmd_set_access_address or_told usb_vendor_request_handler vendor_request_handler
      board_requests tuning_requests piconet_requests le_requests split_bytes
  cmd_set_access_address-eq aa d = ap (or_told zero_code) (
      c.sends (out_request Request.set_access_address 0 0 (split_bytes 4 0 aa) 1000) d refl refl
        (omega arith) refl)

  address_held :
      (aa : ℕ) (d : Device)
      → aa < 2 ^ 32
      → (after b h c Request.set_access_address (split_bytes 4 0 aa) d).fw.le.access_address ≡ aa
  unfolding usb_vendor_request_handler vendor_request_handler board_requests tuning_requests
      piconet_requests le_requests set_access_address
  address_held aa d small =
      let sent = out_request Request.set_access_address 0 0 (split_bytes 4 0 aa) 1000 in
      le_word32-split_bytes aa (c.stale sent d) small

  cmd_get_access_address-eq :
      (stack : List ℕ) (d : Device)
      → d.fw.le.access_address < 2 ^ 32
      → cmd_get_access_address usb stack d ≡ done d.fw.le.access_address [] d
  unfolding cmd_get_access_address usb_vendor_request_handler vendor_request_handler board_requests
      tuning_requests piconet_requests le_requests split_bytes reply
  cmd_get_access_address-eq stack d small =
      ap (read_word usb (λ access_address. []))
        (c.asks (in_request Request.get_access_address 0 stack 4 3000) d refl refl)
      ∙ ap (λ (w : ℕ). done w [] d)
          (le_word32-split_bytes d.fw.le.access_address (drop 4 stack) small)

  -- The same of the access address to follow.
  pub cmd_set_access_address-cmd_get_access_address :
      (aa : ℕ) (stack : List ℕ) (d : Device)
      → aa < 2 ^ 32
      → let set = cmd_set_access_address usb aa d in
        (set.result ≡ value 0) × ((cmd_get_access_address usb stack set.world).result ≡ aa)
  cmd_set_access_address-cmd_get_access_address aa stack d small =
      let e = cmd_set_access_address-eq aa d in
      let held : (cmd_set_access_address usb aa d).world.fw.le.access_address ≡ aa =
        ap (λ (a : Done Device Code). a.world.fw.le.access_address) e ∙ address_held aa d small in
      let low : (cmd_set_access_address usb aa d).world.fw.le.access_address < 2 ^ 32 =
        omega arith in
      (
        ap (λ (a : Done Device Code). a.result) e,
        ap (λ (a : Done Device ℕ). a.result)
              (cmd_get_access_address-eq stack (cmd_set_access_address usb aa d).world low)
            ∙ held,
      )
