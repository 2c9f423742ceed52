-- ===== src/Host/Control/Requests.antt =====
-- The two ways in which ubertooth_control.c sends a request, and its requests for the modes of the
-- firmware. An argument of type `int` is the bit pattern that a transfer cuts to 16 bits.
use codetooth.Prelude.{ℕ, zero, suc, u16, if◌then◌else◌, ◌||◌, List, [], ◌∷◌, length}
use codetooth.Firmware.Vendor.Commands.{Request, number}
use codetooth.Host.Control.Transfer.{
  Direction, ctrl_in, ctrl_out, Transfer, Code, value, error, Outcome, Libusb, Done, done,
  show_libusb_error, or_shown, or_told, or_unless_success, is_expected, is_no_device, zero_code,
}

-- The arguments of a call that sends `bytes`, and of one that asks for `size` bytes, to be put over
-- what stands in `buffer`.
abbrev pub out_request : Request → (w_value w_index : ℕ) (bytes : List ℕ) (timeout : ℕ) → Transfer
out_request r w_value w_index bytes timeout = record {
  direction = ctrl_out;
  request = number r;
  w_value = w_value;
  w_index = w_index;
  buffer = bytes;
  size = length bytes;
  timeout = timeout;
}

abbrev pub in_request : Request → (w_value : ℕ) (buffer : List ℕ) (size timeout : ℕ) → Transfer
in_request r w_value buffer size timeout = record {
  direction = ctrl_in;
  request = number r;
  w_value = w_value;
  w_index = 0;
  buffer = buffer;
  size = size;
  timeout = timeout;
}

-- cmd_set_isp and cmd_reset: the device goes away.
unfoldable pub or_gone : {World : Type 0} → Outcome × World → Done World Code
unfolding show_libusb_error
or_gone (o, w) = elim (o.r) [
  | value zero ↦ done (value 0) [] w
  | value (suc r) ↦ done (value (suc r)) (show_libusb_error (value (suc r)) ∷ []) w
  | error e ↦
      if is_expected e || is_no_device e
      then done (value 0) [] w
      else done (error e) (show_libusb_error (error e) ∷ []) w
]

-- cmd_flash: here a transfer that succeeds is told as an error too.
unfoldable pub or_flashing : {World : Type 0} → Outcome × World → Done World Code
unfolding show_libusb_error
or_flashing (o, w) = elim (o.r) [
  | value r ↦ done (value r) (show_libusb_error (value r) ∷ []) w
  | error e ↦
      if is_expected e
      then done (value 0) [] w
      else done (error e) (show_libusb_error (error e) ∷ []) w
]

module _ {World : Type 0} (usb : Libusb World) where
  unfoldable pub ubertooth_cmd_sync :
      Direction → Request → (bytes : List ℕ) (size : ℕ) → World → Done World Code
  unfolding or_told
  ubertooth_cmd_sync type command bytes size w = or_told zero_code (
      usb.control_transfer
        (record {
          direction = type;
          request = number command;
          w_value = 0;
          w_index = 0;
          buffer = bytes;
          size = size;
          timeout = 1000;
        })
        w)

  -- The code that is returned is that of the submission.
  unfoldable pub ubertooth_cmd_async :
      Direction → Request → (bytes : List ℕ) (size : ℕ) → World → Done World Code
  unfolding show_libusb_error
  ubertooth_cmd_async type command bytes size w =
      let (r, w') =
        usb.submit_transfer
          (record {
            direction = type;
            request = number command;
            w_value = 0;
            w_index = 0;
            buffer = bytes;
            size = size;
            timeout = 1000;
          })
          w in
      elim r [
        | value n ↦ done (value n) [] w'
        | error e ↦ done (error e) (show_libusb_error (error e) ∷ []) w'
      ]

  abbrev pub ask_mode_with : Request → (w_value w_index : ℕ) → World → Outcome × World
  ask_mode_with r w_value w_index w = usb.control_transfer (out_request r w_value w_index [] 1000) w

  unfoldable pub cmd_rx_syms : World → Done World Code
  unfolding or_shown
  cmd_rx_syms w = or_shown zero_code (ask_mode_with Request.rx_symbols 0 0 w)

  unfoldable pub cmd_specan : (low_freq high_freq : ℕ) → World → Done World Code
  unfolding or_shown
  cmd_specan low_freq high_freq w =
      or_shown zero_code (ask_mode_with Request.specan low_freq high_freq w)

  unfoldable pub cmd_led_specan : (rssi_threshold : ℕ) → World → Done World Code
  unfolding or_shown
  cmd_led_specan rssi_threshold w =
      or_shown zero_code (ask_mode_with Request.led_specan rssi_threshold 0 w)

  unfoldable pub cmd_set_isp : World → Done World Code
  unfolding or_gone
  cmd_set_isp w = or_gone (ask_mode_with Request.set_isp 0 0 w)

  unfoldable pub cmd_reset : World → Done World Code
  unfolding or_gone
  cmd_reset w = or_gone (ask_mode_with Request.reset 0 0 w)

  unfoldable pub cmd_stop : World → Done World Code
  unfolding or_told
  cmd_stop w = or_told zero_code (ask_mode_with Request.stop 0 0 w)

  unfoldable pub cmd_tx_test : World → Done World Code
  unfolding or_told
  cmd_tx_test w = or_told zero_code (ask_mode_with Request.tx_test 0 0 w)

  unfoldable pub cmd_flash : World → Done World Code
  unfolding or_flashing
  cmd_flash w = or_flashing (ask_mode_with Request.flash 0 0 w)

  unfoldable pub cmd_range_test : World → Done World Code
  unfolding or_unless_success
  cmd_range_test w = or_unless_success (ask_mode_with Request.range_test 0 0 w)

  unfoldable pub cmd_repeater : World → Done World Code
  unfolding or_unless_success
  cmd_repeater w = or_unless_success (ask_mode_with Request.repeater 0 0 w)

  unfoldable pub cmd_btle_sniffing : (num : ℕ) → World → Done World Code
  unfolding or_told
  cmd_btle_sniffing num w = or_told zero_code (ask_mode_with Request.btle_sniffing num 0 w)

  unfoldable pub cmd_btle_promisc : World → Done World Code
  unfolding or_told
  cmd_btle_promisc w = or_told zero_code (ask_mode_with Request.btle_promisc 0 0 w)

  unfoldable pub cmd_set_jam_mode : (mode : ℕ) → World → Done World Code
  unfolding or_told
  cmd_set_jam_mode mode w = or_told zero_code (ask_mode_with Request.jam_mode (u16 mode) 0 w)

  unfoldable pub cmd_ego : (mode : ℕ) → World → Done World Code
  unfolding or_told
  cmd_ego mode w = or_told zero_code (ask_mode_with Request.ego (u16 mode) 0 w)

  unfoldable pub cmd_afh : World → Done World Code
  unfolding or_told
  cmd_afh w = or_told zero_code (ask_mode_with Request.afh 0 0 w)

  -- The code of the submission is not read.
  unfoldable pub cmd_hop : World → Done World Code
  cmd_hop w =
      let sent = usb.submit_transfer (out_request Request.hop 0 0 [] 1000) w in
      done (value 0) [] (sent.1)
