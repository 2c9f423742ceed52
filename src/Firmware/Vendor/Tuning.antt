-- ===== src/Firmware/Vendor/Tuning.antt =====
-- The part of the switch of vendor_request_handler for modes, channels, the ranges to scan, the
-- build, and the squelch.
use codetooth.Prelude.{
  ℕ, u8, bit_and, ◌>>>◌, ltb, if◌then◌else◌, Bool, true, false, ◌||◌, List, [], ◌∷◌, length, take,
}
use codetooth.Prelude.Int.{signed, wrap}
use codetooth.Firmware.State.{Mode, hop_none, hop_sweep}
use codetooth.Firmware.Device.{Device, Build, Hardware, set_squelch}
use codetooth.Firmware.Vendor.Commands.{Request}
use codetooth.Firmware.Vendor.Control.{
  Exchange, Answer, accept, refuse, leave, reply, resize, param,
}
use codetooth.Firmware.Vendor.Piconet.{piconet_requests}

abbrev pub min_freq : ℕ
min_freq = 2268

abbrev pub max_freq : ℕ
max_freq = 2794

abbrev pub is_bt_follow_le : Mode → Bool
is_bt_follow_le Mode.bt_follow_le = true
is_bt_follow_le _ = false

-- `requested_channel` and `hop_mode` from the channel asked for.
abbrev pub ask_channel : ℕ → Device → Device
ask_channel asked d =
    let raised = if ltb asked min_freq then min_freq else asked in
    record d {
      fw = record (d.fw) {
        radio =
            (if ltb max_freq asked
              then record (d.fw.radio) { hop_mode = hop_sweep; requested_channel = 2402 }
              else record (d.fw.radio) { hop_mode = hop_none; requested_channel = raised });
      };
    }

-- Not in MODE_BT_FOLLOW_LE: the channel asked for is the channel at once.
abbrev pub move_channel : Device → Device
move_channel d = record d {
  fw = record (d.fw) {
    radio = record (d.fw.radio) { channel = d.fw.radio.requested_channel; requested_channel = 0 };
  };
}

unfoldable pub set_channel : (asked : ℕ) → Device → Device
set_channel asked d =
    let noted = ask_channel asked d in
    if is_bt_follow_le d.fw.mode then noted else set_squelch (move_channel noted)

abbrev pub ask_squelch : (threshold : ℕ) → Device → Device
ask_squelch threshold d = record d {
  squelch = record (d.squelch) { cs_threshold_req = signed 256 threshold };
}

abbrev pub out_of_range : ℕ → Bool
out_of_range freq = ltb freq 2049 || ltb 3072 freq

abbrev pub specan : (low high : ℕ) → Exchange → Device → Answer
specan low high x d =
    if out_of_range low || (out_of_range high || ltb high low)
    then refuse x d
    else accept (resize 0 x) (record d {
      low_freq = low;
      high_freq = high;
      fw = record (d.fw) { requested_mode = Mode.specan };
    })

abbrev pub led_specan : (threshold : ℕ) → Exchange → Device → Answer
led_specan threshold x d =
    if ltb 256 threshold
    then refuse x d
    else accept (resize 0 x) (record d {
      rssi_threshold = signed 256 threshold;
      fw = record (d.fw) { requested_mode = Mode.led_specan };
    })

-- A string with its length before it, which is cut to 8 bits.
unfoldable pub counted_string : List ℕ → List ℕ
counted_string text = u8 (length text) ∷ take (u8 (length text)) text

-- DFU_MODE
abbrev pub dfu_mode : ℕ
dfu_mode = 0x4305BB21

unfoldable pub tuning_requests : Build → Hardware → Request → List ℕ → Exchange → Device → Answer
unfolding set_channel counted_string
tuning_requests b h Request.range_check ps x d =
    accept
      (reply (d.rr.valid ∷ d.rr.request_pa ∷ d.rr.request_num ∷ d.rr.reply_pa ∷ d.rr.reply_num ∷ [])
        x)
      d
tuning_requests b h Request.stop ps x d =
    accept x (record d { fw = record (d.fw) { requested_mode = Mode.idle } })
tuning_requests b h Request.get_mod ps x d = accept (reply (d.modulation ∷ []) x) d
tuning_requests b h Request.set_mod ps x d = accept x (record d { modulation = u8 (param ps 0) })
tuning_requests b h Request.get_channel ps x d =
    let c = d.fw.radio.channel in accept (reply (bit_and c 0xff ∷ bit_and (c >>> 8) 0xff ∷ []) x) d
tuning_requests b h Request.set_channel ps x d = accept x (set_channel (param ps 0) d)
tuning_requests b h Request.set_isp ps x d = leave x d
tuning_requests b h Request.flash ps x d =
    leave x (record d { bootloader_ctrl = dfu_mode; restarted = true })
tuning_requests b h Request.specan ps x d = specan (param ps 0) (param ps 1) x d
tuning_requests b h Request.led_specan ps x d = led_specan (param ps 0) x d
tuning_requests b h Request.get_rev_num ps x d =
    accept (reply (0 ∷ 0 ∷ counted_string b.git_revision) x) d
tuning_requests b h Request.get_compile_info ps x d =
    accept (reply (counted_string b.compile_info) x) d
tuning_requests b h Request.get_board_id ps x d = accept (reply (b.board_id ∷ []) x) d
tuning_requests b h Request.set_squelch ps x d = accept x (set_squelch (ask_squelch (param ps 0) d))
tuning_requests b h Request.get_squelch ps x d =
    accept (reply (wrap 256 d.squelch.cs_threshold_req ∷ []) x) d
tuning_requests b h request ps x d = piconet_requests b h request ps x d
