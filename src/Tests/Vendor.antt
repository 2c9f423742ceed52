-- ===== src/Tests/Vendor.antt =====
-- A device at rest and the requests of a host.
use codetooth.Prelude.{
  some, ◌+◌, ◌≤◌, ◌≡◌, refl, true, false, inl, [], ◌∷◌, replicate, length, All, arith,
}
use codetooth.Prelude.Int.{negsuc}
use codetooth.Firmware.Device.{Device, Build, Hardware}
use codetooth.Firmware.Vendor.Commands.{request_of}
use codetooth.Firmware.Vendor.Control.{Exchange}
use codetooth.Firmware.Vendor.{vendor_request_handler}
use codetooth.Firmware.Vendor.Board.{board_requests}
use codetooth.Firmware.Vendor.Refusal.{
  permitted?, result, vendor_request_handler_refuses, vendor_request_handler_accepts,
}
use codetooth.Firmware.Vendor.Reply.{Fits, vendor_request_handler-Fits}
use codetooth.Firmware.Vendor.Invariant.{Reached, begin, request, Sound, vendor_requests-Sound}
use codetooth.Firmware.Vendor.Silent.{is_test, vendor_requests_silent}
use codetooth.Tests.Receive.{device}
use codetooth.Tests.Piconet.{piconet}

abbrev pub gadget : Device
gadget = record {
  fw = record device { radio = record (device.radio) { channel = 2441 } };
  classic = piconet;
  squelch = record {
    cs_threshold_req = negsuc 119;
    cs_threshold_cur = negsuc 119;
    cs_no_squelch = true;
    rssi_register = 0;
  };
  pins = record {
    usrled = false;
    rxled = false;
    txled = false;
    cc1v8 = true;
    paen = false;
    hgm = false;
  };
  rr = record { valid = 0; request_pa = 0; request_num = 0; reply_pa = 0; reply_num = 0 };
  modulation = 0;
  low_freq = 2400;
  high_freq = 2483;
  rssi_threshold = negsuc 29;
  ego_mode = 0;
  slave_mac_address = replicate 6 0;
  radio_writes = [];
  bootloader_ctrl = 0;
  restarted = false;
}

-- Built without TX_ENABLE, with a revision of 40 letters.
abbrev pub plain : Build
plain = record {
  tx_enable = false;
  ubertooth_one = true;
  board_id = 1;
  git_revision = replicate 40 97;
  compile_info = replicate 300 98;
}

abbrev pub chips : Hardware
chips = record { cc2400_get = λ reg. reg + 1; iap_entry = λ command. 0 ∷ command ∷ [] }

abbrev sent : Exchange
sent = record { bytes = 1 ∷ 2 ∷ 3 ∷ 255 ∷ replicate 254 0; data_len = 4 }

-- TX_TEST is not in this build.
palevel_refused : (vendor_request_handler plain chips 20 [] sent gadget).accepted ≡ false
unfolding vendor_request_handler board_requests
palevel_refused = refl

vendor_request_handler_refuses_example :
    ((vendor_request_handler plain chips 20 [] sent gadget).device ≡ gadget)
    × ((vendor_request_handler plain chips 20 [] sent gadget).exchange ≡ sent)
vendor_request_handler_refuses_example =
    vendor_request_handler_refuses plain chips [] sent gadget 20 palevel_refused

vendor_request_handler_accepts_example :
    result (vendor_request_handler plain chips 27 (2400 ∷ 2300 ∷ []) sent gadget)
    ≡ some (permitted? plain (2400 ∷ 2300 ∷ []) 0 (request_of 27))
vendor_request_handler_accepts_example =
    vendor_request_handler_accepts plain chips 27 (2400 ∷ 2300 ∷ []) sent gadget

sent-Fits : Fits sent
sent-Fits = record { buffer = refl; within = omega arith }

payloads_fit : All (λ p. length p.payload ≤ 50) gadget.fw.queue.fifo
payloads_fit = ground arith

-- The compile information of 300 letters, of which a byte for the length keeps 44.
vendor_request_handler-Fits_example :
    Fits (vendor_request_handler plain chips 55 [] sent gadget).exchange
vendor_request_handler-Fits_example =
    vendor_request_handler-Fits plain chips 55 [] sent gadget sent-Fits payloads_fit

gadget-Sound : Sound gadget
gadget-Sound = record {
  scan_from = omega arith;
  scan_order = omega arith;
  scan_to = omega arith;
  tuned_from = omega arith;
  tuned_to = omega arith;
  asked = inl refl;
  squelch_from = omega arith;
  squelch_to = omega arith;
  led_from = omega arith;
  led_to = omega arith;
  modulation_byte = omega arith;
  ego_byte = omega arith;
  jam_byte = omega arith;
  target_bytes = refl;
}

-- SET_CHANNEL beyond the band, then SPECAN.
abbrev swept : Device
swept = (vendor_request_handler plain chips 12 (9999 ∷ []) sent gadget).device

abbrev scanned : Device
scanned = (vendor_request_handler plain chips 27 (2402 ∷ 2480 ∷ []) sent swept).device

scanned-Reached : Reached plain gadget scanned
scanned-Reached =
    request swept chips 27 (2402 ∷ 2480 ∷ []) sent (request gadget chips 12 (9999 ∷ []) sent begin)

vendor_requests-Sound_example : Sound scanned
vendor_requests-Sound_example =
    vendor_requests-Sound plain gadget scanned scanned-Reached gadget-Sound

vendor_requests_silent_example :
    (is_test scanned.fw.requested_mode ≡ false) × (scanned.fw.jam_mode ≡ 0)
vendor_requests_silent_example =
    vendor_requests_silent plain gadget scanned refl refl scanned-Reached
