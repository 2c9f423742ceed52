-- ===== src/Firmware/Vendor/Board.antt =====
-- The first part of the switch of vendor_request_handler: pins, the part number and serial number,
-- and what a build with TX_ENABLE may send.
use codetooth.Prelude.{ℕ, bit_and, bit_or, ltb, if◌then◌else◌, Bool, List, [], ◌∷◌, ◌++◌, get_or}
use codetooth.Firmware.State.{Mode}
use codetooth.Firmware.Device.{Device, Build, Hardware}
use codetooth.Firmware.Vendor.Commands.{Request}
use codetooth.Firmware.Vendor.Control.{
  Exchange, Answer, accept, refuse, built_with, reply, resize, param, split_bytes,
}
use codetooth.Firmware.Vendor.Le.{bit_of, nonzero}
use codetooth.Firmware.Vendor.Tuning.{tuning_requests}

abbrev pub ask_mode : Mode → Device → Device
ask_mode m d = record d { fw = record (d.fw) { requested_mode = m } }

abbrev pub show : Bool → Exchange → Exchange
show pin x = reply (bit_of pin ∷ []) x

abbrev pub frend : ℕ
frend = 0x05

-- The status byte of an answer of the boot ROM, and a word of it with the lowest byte first.
abbrev pub iap_status : List ℕ → ℕ
iap_status result = bit_and (get_or result 0 0) 0xff

unfoldable pub iap_word : List ℕ → ℕ → List ℕ
unfolding split_bytes
iap_word result i = split_bytes 4 0 (get_or result i 0)

abbrev pub set_palevel : List ℕ → Exchange → Device → Answer
set_palevel ps x d =
    if ltb (param ps 0) 8
    then accept x
        (record d { radio_writes = d.radio_writes ++ ((frend, bit_or 8 (param ps 0)) ∷ []) })
    else refuse x d

unfoldable pub board_requests : Build → Hardware → Request → List ℕ → Exchange → Device → Answer
unfolding iap_word
board_requests b h Request.ping ps x d = accept (resize 0 x) d
board_requests b h Request.rx_symbols ps x d = accept (resize 0 x) (ask_mode Mode.rx_symbols d)
board_requests b h Request.get_usrled ps x d = accept (show d.pins.usrled x) d
board_requests b h Request.set_usrled ps x d =
    accept x (record d { pins = record (d.pins) { usrled = nonzero (param ps 0) } })
board_requests b h Request.get_rxled ps x d = accept (show d.pins.rxled x) d
board_requests b h Request.set_rxled ps x d =
    accept x (record d { pins = record (d.pins) { rxled = nonzero (param ps 0) } })
board_requests b h Request.get_txled ps x d = accept (show d.pins.txled x) d
board_requests b h Request.set_txled ps x d =
    accept x (record d { pins = record (d.pins) { txled = nonzero (param ps 0) } })
board_requests b h Request.get_1v8 ps x d = accept (show d.pins.cc1v8 x) d
board_requests b h Request.set_1v8 ps x d =
    accept x (record d { pins = record (d.pins) { cc1v8 = nonzero (param ps 0) } })
board_requests b h Request.get_partnum ps x d =
    let result = h.iap_entry 54 in accept (reply (iap_status result ∷ iap_word result 1) x) d
board_requests b h Request.reset ps x d = accept x (ask_mode Mode.reset d)
board_requests b h Request.get_serial ps x d =
    let result = h.iap_entry 58 in
    accept
      (reply
        (iap_status result
          ∷ (iap_word result 1 ++ (iap_word result 2 ++ (iap_word result 3 ++ iap_word result 4))))
        x)
      d
board_requests b h Request.get_paen ps x d =
    built_with b.ubertooth_one x d (accept (show d.pins.paen x) d)
board_requests b h Request.set_paen ps x d =
    built_with b.ubertooth_one x d
      (accept x (record d { pins = record (d.pins) { paen = nonzero (param ps 0) } }))
board_requests b h Request.get_hgm ps x d =
    built_with b.ubertooth_one x d (accept (show d.pins.hgm x) d)
board_requests b h Request.set_hgm ps x d =
    built_with b.ubertooth_one x d
      (accept x (record d { pins = record (d.pins) { hgm = nonzero (param ps 0) } }))
board_requests b h Request.tx_test ps x d =
    built_with b.tx_enable x d (accept x (ask_mode Mode.tx_test d))
board_requests b h Request.get_palevel ps x d =
    built_with b.tx_enable x d (accept (reply (bit_and (h.cc2400_get frend) 0x7 ∷ []) x) d)
board_requests b h Request.set_palevel ps x d = built_with b.tx_enable x d (set_palevel ps x d)
board_requests b h Request.range_test ps x d =
    built_with b.tx_enable x d (accept x (ask_mode Mode.range_test d))
board_requests b h Request.repeater ps x d =
    built_with b.tx_enable x d (accept x (ask_mode Mode.repeater d))
board_requests b h request ps x d = tuning_requests b h request ps x d
