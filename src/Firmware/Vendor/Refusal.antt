-- ===== src/Firmware/Vendor/Refusal.antt =====
-- A request that is refused leaves everything as it was.
use codetooth.Prelude.{
  ℕ, ◌≡◌, refl, leb, ◌==◌, if◌then◌else◌, Bool, true, false, not, ◌&&◌, ◌||◌, Option, none, some,
  List, arith,
}
use codetooth.Firmware.Device.{Device, Build, Hardware}
use codetooth.Firmware.Vendor.Commands.{Request, request_of}
use codetooth.Firmware.Vendor.Control.{Exchange, Answer, param}
use codetooth.Firmware.Vendor.Le.{le_requests}
use codetooth.Firmware.Vendor.Piconet.{piconet_requests}
use codetooth.Firmware.Vendor.Tuning.{tuning_requests}
use codetooth.Firmware.Vendor.Board.{board_requests}
use codetooth.Firmware.Vendor.{answer_to, vendor_request_handler}

-- What `return 0` promises.
abbrev Unchanged : Exchange → Device → Answer → Type 0
Unchanged x d a = a.accepted ≡ false → (a.device ≡ d) × (a.exchange ≡ x)

module _ (b : Build) (h : Hardware) (ps : List ℕ) (x : Exchange) (d : Device) where
  le-Unchanged : (r : Request) → Unchanged x d (le_requests b h r ps x d)
  unfolding le_requests
  le-Unchanged Request.btle_sniffing turned = ground arith
  le-Unchanged _ turned = ground arith

  piconet-Unchanged : (r : Request) → Unchanged x d (piconet_requests b h r ps x d)
  unfolding piconet_requests
  piconet-Unchanged Request.set_bdaddr turned = ground arith
  piconet-Unchanged r turned = ground (arith, le-Unchanged r)

  tuning-Unchanged : (r : Request) → Unchanged x d (tuning_requests b h r ps x d)
  unfolding tuning_requests
  tuning-Unchanged Request.range_check turned = ground arith
  tuning-Unchanged r turned = ground (arith, piconet-Unchanged r)

  board-Unchanged : (r : Request) → Unchanged x d (board_requests b h r ps x d)
  unfolding board_requests
  board-Unchanged Request.ping turned = ground arith
  board-Unchanged r turned = ground (arith, tuning-Unchanged r)

  answer-Unchanged : (r : Option Request) → Unchanged x d (answer_to b h r ps x d)
  answer-Unchanged none turned = (refl, refl)
  answer-Unchanged (some r) turned = board-Unchanged r turned

  -- A request that vendor_request_handler refuses (return 0) leaves the device, the data and the
  -- length of the transfer as they were, whatever the build, the hardware and the parameters.
  pub vendor_request_handler_refuses :
      (request : ℕ)
      → (vendor_request_handler b h request ps x d).accepted ≡ false
      → ((vendor_request_handler b h request ps x d).device ≡ d)
        × ((vendor_request_handler b h request ps x d).exchange ≡ x)
  unfolding vendor_request_handler
  vendor_request_handler_refuses request turned = answer-Unchanged (request_of request) turned

-- The requests whose case comes back: all but the two that restart the processor.
abbrev pub returns? : Option Request → Bool
returns? (some Request.set_isp) = false
returns? (some Request.flash) = false
returns? _ = true

-- What the handler returns, `none` where it does not return.
abbrev pub result : Answer → Option Bool
result a = if a.returns then some a.accepted else none

-- The requests that are not refused: those of the build, with parameters in range.
abbrev pub permitted : Build → List ℕ → (ego : ℕ) → Request → Bool
permitted b ps ego Request.tx_symbols = false
permitted b ps ego Request.bootloader_flash = false
permitted b ps ego Request.btle_phy = false
permitted b ps ego Request.get_paen = b.ubertooth_one
permitted b ps ego Request.set_paen = b.ubertooth_one
permitted b ps ego Request.get_hgm = b.ubertooth_one
permitted b ps ego Request.set_hgm = b.ubertooth_one
permitted b ps ego Request.tx_test = b.tx_enable
permitted b ps ego Request.get_palevel = b.tx_enable
permitted b ps ego Request.set_palevel = b.tx_enable && leb (param ps 0) 7
permitted b ps ego Request.range_test = b.tx_enable
permitted b ps ego Request.repeater = b.tx_enable
permitted b ps ego Request.specan =
    leb 2049 (param ps 0) && (leb (param ps 0) (param ps 1) && leb (param ps 1) 3072)
permitted b ps ego Request.led_specan = leb (param ps 0) 256
permitted b ps ego Request.jam_mode = b.tx_enable
permitted b ps ego Request.ego = b.tx_enable || not (ego == 2)
permitted b ps ego _ = true

abbrev pub permitted? : Build → List ℕ → (ego : ℕ) → Option Request → Bool
permitted? b ps ego none = false
permitted? b ps ego (some r) = permitted b ps ego r

module _ (b : Build) (h : Hardware) (ps : List ℕ) (x : Exchange) (d : Device) where
  board_accepts :
      (r : Request)
      → result (board_requests b h r ps x d)
        ≡ (if returns? (some r) then some (permitted b ps d.ego_mode r) else none)
  unfolding board_requests tuning_requests piconet_requests le_requests
  board_accepts Request.ping = ground arith
  board_accepts _ = ground arith

  answer_accepts :
      (r : Option Request)
      → result (answer_to b h r ps x d)
        ≡ (if returns? r then some (permitted? b ps d.ego_mode r) else none)
  answer_accepts none = refl
  answer_accepts (some r) = board_accepts r

-- vendor_request_handler returns from every request but SET_ISP and FLASH, which hand the processor
-- over. Of the others it accepts one exactly when its number is one of the enumeration and not TX_SYMBOLS, BOOTLOADER_FLASH or BTLE_PHY, the build has it (the amplifier only on the Ubertooth
-- One, the test modes, the power level and jamming only with TX_ENABLE), its level is below 8, its
-- band within 2049 to 3072 with the low end first, or its threshold at most 256, and, for EGO without
-- TX_ENABLE, the mode set before is not jamming.
pub vendor_request_handler_accepts :
    (b : Build) (h : Hardware) (request : ℕ) (ps : List ℕ) (x : Exchange) (d : Device)
    → let r = request_of request in
      result (vendor_request_handler b h request ps x d)
      ≡ (if returns? r then some (permitted? b ps d.ego_mode r) else none)
unfolding vendor_request_handler
vendor_request_handler_accepts b h request ps x d = answer_accepts b h ps x d (request_of request)
