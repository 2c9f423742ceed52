-- ===== src/Firmware/Device.antt =====
-- All that the vendor requests of the host read and write: the radio firmware, classic Bluetooth,
-- the squelch, the pins, the ranges to scan, and what was sent to the radio chip.
use codetooth.Prelude.{ℕ, Bool, List, [], ◌∷◌, ◌++◌}
use codetooth.Prelude.Int.{ℤ}
use codetooth.Firmware.State.{Firmware}
use codetooth.Firmware.Squelch.{Squelch, cs_threshold_calc_and_set}
use codetooth.Classic.State.{Classic}

-- The outputs USRLED, RXLED, TXLED, CC1V8, PAEN and HGM of the processor.
pub record Pins : Type 0 where
  pub usrled : Bool
  pub rxled : Bool
  pub txled : Bool
  pub cc1v8 : Bool
  pub paen : Bool
  pub hgm : Bool

-- `rangetest_result`
pub record RangeResult : Type 0 where
  pub valid : ℕ
  pub request_pa : ℕ
  pub request_num : ℕ
  pub reply_pa : ℕ
  pub reply_num : ℕ

-- `radio_writes` lists the registers of the CC2400 written, with their values, the last one last.
-- `restarted` says that reset() was called.
pub record Device : Type 0 where
  pub fw : Firmware
  pub classic : Classic
  pub squelch : Squelch
  pub pins : Pins
  pub rr : RangeResult
  pub modulation : ℕ
  pub low_freq : ℕ
  pub high_freq : ℕ
  pub rssi_threshold : ℤ
  pub ego_mode : ℕ
  pub slave_mac_address : List ℕ
  pub radio_writes : List (ℕ × ℕ)
  pub bootloader_ctrl : ℕ
  pub restarted : Bool

-- The macros and strings of the build.
pub record Build : Type 0 where
  pub tx_enable : Bool
  pub ubertooth_one : Bool
  pub board_id : ℕ
  pub git_revision : List ℕ
  pub compile_info : List ℕ

-- What the chips answer while a request is handled: the registers of the CC2400, and the words that
-- the boot ROM of the processor returns for a command.
pub record Hardware : Type 0 where
  pub cc2400_get : ℕ → ℕ
  pub iap_entry : ℕ → List ℕ

abbrev pub rssi_reg : ℕ
rssi_reg = 0x06

-- A call of cs_threshold_calc_and_set with the globals as they are.
unfoldable pub set_squelch : Device → Device
set_squelch d =
    let s = cs_threshold_calc_and_set d.fw.radio.hop_mode d.fw.radio.channel d.fw.rssi d.squelch in
    record d { squelch = s; radio_writes = d.radio_writes ++ ((rssi_reg, s.rssi_register) ∷ []) }
