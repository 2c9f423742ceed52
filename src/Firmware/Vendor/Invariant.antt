-- ===== src/Firmware/Vendor/Invariant.antt =====
-- The ranges that hold between the requests of the host, whatever it asks.
use codetooth.Prelude.{
  ℕ, ◌<◌, ◌≤◌, ◌≡◌, ◌⊎◌, if◌then◌else◌, Bool, true, false, Option, none, some, List, length, arith,
}
use codetooth.Prelude.Int.{pos, negsuc, ◌≤ℤ◌}
use codetooth.Firmware.Squelch.Level.{cs_threshold_calc_and_set_lem}
use codetooth.Firmware.Follow.{set_access_address}
use codetooth.Firmware.Device.{Device, Build, Hardware, set_squelch}
use codetooth.Firmware.Vendor.Commands.{Request, request_of}
use codetooth.Firmware.Vendor.Control.{Exchange, param}
use codetooth.Firmware.Vendor.Le.{le_requests, restart_queue, to_sniffing, to_promisc}
use codetooth.Firmware.Vendor.Piconet.{piconet_requests, set_clock, set_bdaddr, start_hopping}
use codetooth.Firmware.Vendor.Tuning.{
  tuning_requests, ask_channel, move_channel, ask_squelch, set_channel, is_bt_follow_le,
}
use codetooth.Firmware.Vendor.Board.{board_requests}
use codetooth.Firmware.Vendor.{answer_to, vendor_request_handler}

-- The band to scan, the channel and the one asked for, the squelch, and the widths of the registers
-- and variables that a parameter of 16 bits is stored in.
pub record Sound (d : Device) : Type 0 where
  pub scan_from : 2049 ≤ d.low_freq
  pub scan_order : d.low_freq ≤ d.high_freq
  pub scan_to : d.high_freq ≤ 3072
  pub tuned_from : 2268 ≤ d.fw.radio.channel
  pub tuned_to : d.fw.radio.channel ≤ 2794
  pub asked :
      (d.fw.radio.requested_channel ≡ 0)
      ⊎ ((2268 ≤ d.fw.radio.requested_channel) × (d.fw.radio.requested_channel ≤ 2794))
  pub squelch_from : negsuc 119 ≤ℤ d.squelch.cs_threshold_cur
  pub squelch_to : d.squelch.cs_threshold_cur ≤ℤ negsuc 19
  pub led_from : negsuc 127 ≤ℤ d.rssi_threshold
  pub led_to : d.rssi_threshold ≤ℤ pos 127
  pub modulation_byte : d.modulation < 256
  pub ego_byte : d.ego_mode < 256
  pub jam_byte : d.fw.jam_mode < 256
  pub target_bytes : length d.fw.le.target ≡ 6

set_squelch-Sound : (d : Device) → Sound d → Sound (set_squelch d)
unfolding set_squelch
set_squelch-Sound d s =
    let t =
      cs_threshold_calc_and_set_lem d.fw.radio.hop_mode d.fw.radio.channel d.fw.rssi d.squelch in
    ground (arith, t.lowest, t.highest)

if-Sound : (c : Bool) (d e : Device) → Sound d → Sound e → Sound (if c then d else e)
if-Sound true d e s t = s
if-Sound false d e s t = t

restart_queue-Sound : (d : Device) → Sound d → Sound (restart_queue d)
unfolding restart_queue
restart_queue-Sound d s = set_squelch-Sound _ (ground arith)

set_clock-Sound : (x : Exchange) (d : Device) → Sound d → Sound (set_clock x d)
unfolding set_clock
set_clock-Sound x d s = set_squelch-Sound _ (ground arith)

module _ (b : Build) (h : Hardware) (ps : List ℕ) (x : Exchange) (d : Device) (s : Sound d) where
  le-Sound : (r : Request) → Sound (le_requests b h r ps x d).device
  unfolding le_requests set_access_address
  le-Sound Request.btle_sniffing = restart_queue-Sound (to_sniffing d) (ground arith)
  le-Sound Request.btle_promisc = restart_queue-Sound (to_promisc d) (ground arith)
  le-Sound r = ground arith

  piconet-Sound : (r : Request) → Sound (piconet_requests b h r ps x d).device
  unfolding piconet_requests set_bdaddr start_hopping
  piconet-Sound Request.set_clock = set_clock-Sound x d s
  piconet-Sound r = ground (arith, le-Sound r)

  channel-Sound : (asked : ℕ) → Sound (set_channel asked d)
  unfolding set_channel
  channel-Sound asked =
      let noted = ask_channel asked d in
      if-Sound (is_bt_follow_le d.fw.mode) noted (set_squelch (move_channel noted)) (ground arith)
        (set_squelch-Sound (move_channel noted) (ground arith))

  tuning-Sound : (r : Request) → Sound (tuning_requests b h r ps x d).device
  unfolding tuning_requests
  tuning-Sound Request.set_channel = channel-Sound (param ps 0)
  tuning-Sound Request.set_squelch = set_squelch-Sound (ask_squelch (param ps 0) d) (ground arith)
  tuning-Sound r = ground (arith, piconet-Sound r)

  board-Sound : (r : Request) → Sound (board_requests b h r ps x d).device
  unfolding board_requests
  board-Sound Request.ping = s
  board-Sound r = ground (arith, tuning-Sound r)

  answer-Sound : (r : Option Request) → Sound (answer_to b h r ps x d).device
  answer-Sound none = s
  answer-Sound (some r) = board-Sound r

-- The states that requests lead to from `start`: a step is any request, with any parameters and data,
-- on any hardware.
pub data Reached (b : Build) (start : Device) : Device → Type 0 where
  begin : Reached b start start
  request :
      (d : Device) (h : Hardware) (code : ℕ) (ps : List ℕ) (x : Exchange)
      → Reached b start d
      → Reached b start (vendor_request_handler b h code ps x d).device

-- From a state with its ranges (the band to scan within 2049 to 3072, the channel within 2268 to
-- 2794, the channel asked for 0 or there, the squelch within -120 to -20, and the widths of the
-- thresholds and modes), any sequence of requests leads to a state with them.
pub vendor_requests-Sound :
    (b : Build) (start d : Device) → Reached b start d → Sound start → Sound d
unfolding vendor_request_handler
vendor_requests-Sound b start _ begin s = s
vendor_requests-Sound b start _ (request d h code ps x before) s =
    answer-Sound b h ps x d (vendor_requests-Sound b start d before s) (request_of code)
