-- ===== src/Firmware/Vendor/Silent.antt =====
-- What the requests can do to a build without TX_ENABLE.
use codetooth.Prelude.{ℕ, ◌≡◌, ◌∙◌, Bool, true, false, Option, none, some, List, arith}
use codetooth.Firmware.State.{Mode}
use codetooth.Firmware.Follow.{set_access_address}
use codetooth.Firmware.Device.{Device, Build, Hardware, set_squelch}
use codetooth.Firmware.Vendor.Commands.{Request, request_of}
use codetooth.Firmware.Vendor.Control.{Exchange}
use codetooth.Firmware.Vendor.Le.{le_requests, restart_queue}
use codetooth.Firmware.Vendor.Piconet.{piconet_requests, set_clock, set_bdaddr, start_hopping}
use codetooth.Firmware.Vendor.Tuning.{tuning_requests, set_channel}
use codetooth.Firmware.Vendor.Board.{board_requests}
use codetooth.Firmware.Vendor.{answer_to, vendor_request_handler}
use codetooth.Firmware.Vendor.Invariant.{Reached, begin, request}

-- The modes that TX_ENABLE guards.
abbrev pub is_test : Mode → Bool
is_test Mode.tx_test = true
is_test Mode.range_test = true
is_test Mode.repeater = true
is_test _ = false

-- From the state before to the one after.
record Silent (d e : Device) : Type 0 where
  pub no_test : is_test d.fw.requested_mode ≡ false → is_test e.fw.requested_mode ≡ false
  pub same_jamming : e.fw.jam_mode ≡ d.fw.jam_mode
  pub stuck : d.ego_mode ≡ 2 → e.ego_mode ≡ 2

module _ (b : Build) (h : Hardware) (ps : List ℕ) (x : Exchange) (d : Device)
    (silent : b.tx_enable ≡ false) where
  le-Silent : (r : Request) → Silent d (le_requests b h r ps x d).device
  unfolding le_requests set_squelch restart_queue set_access_address
  le-Silent Request.btle_sniffing = ground arith
  le-Silent r = ground arith

  piconet-Silent : (r : Request) → Silent d (piconet_requests b h r ps x d).device
  unfolding piconet_requests set_squelch set_clock set_bdaddr start_hopping
  piconet-Silent Request.set_clock = ground arith
  piconet-Silent r = ground (arith, le-Silent r)

  tuning-Silent : (r : Request) → Silent d (tuning_requests b h r ps x d).device
  unfolding tuning_requests set_squelch set_channel
  tuning-Silent Request.set_channel = ground arith
  tuning-Silent r = ground (arith, piconet-Silent r)

  board-Silent : (r : Request) → Silent d (board_requests b h r ps x d).device
  unfolding board_requests
  board-Silent Request.ping = ground arith
  board-Silent r = ground (arith, tuning-Silent r)

  answer-Silent : (r : Option Request) → Silent d (answer_to b h r ps x d).device
  answer-Silent none = ground arith
  answer-Silent (some r) = board-Silent r

Reached-Silent :
    (b : Build) (start d : Device) → b.tx_enable ≡ false → Reached b start d → Silent start d
unfolding vendor_request_handler
Reached-Silent b start _ silent begin = ground arith
Reached-Silent b start _ silent (request d h code ps x before) =
    let p = Reached-Silent b start d silent before in
    let q = answer-Silent b h ps x d silent (request_of code) in
    record {
      no_test = λ t. q.no_test (p.no_test t);
      same_jamming = q.same_jamming ∙ p.same_jamming;
      stuck = λ e. q.stuck (p.stuck e);
    }

-- In a build without TX_ENABLE, from a state where no test mode (TX_TEST, RANGE_TEST, REPEATER) is
-- asked for, no sequence of requests asks for one, and none changes jam_mode.
pub vendor_requests_silent :
    (b : Build) (start d : Device)
    → b.tx_enable ≡ false
    → is_test start.fw.requested_mode ≡ false
    → Reached b start d
    → (is_test d.fw.requested_mode ≡ false) × (d.fw.jam_mode ≡ start.fw.jam_mode)
vendor_requests_silent b start d silent quiet r =
    let p = Reached-Silent b start d silent r in (p.no_test quiet, p.same_jamming)
