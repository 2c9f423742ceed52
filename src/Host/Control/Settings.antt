-- ===== src/Host/Control/Settings.antt =====
-- The requests of ubertooth_control.c for pins, levels, registers and what the board is. A byte or a
-- buffer on the stack that a reply is put over is an argument, `stack`.
use codetooth.Prelude.{ℕ, bit_or, ◌<<<◌, ◌==◌, if◌then◌else◌, List, [], ◌∷◌, get_or, take, drop}
use codetooth.Prelude.Int.{ℤ, pos, sub_ℕ, ltb_ℤ, wrap}
use codetooth.Firmware.Vendor.Commands.{Request}
use codetooth.Firmware.Device.{RangeResult}
use codetooth.Firmware.Follow.{le_word32}
use codetooth.Host.Control.Transfer.{
  LibusbError, Code, value, error, Outcome, Libusb, Done, done, told, result_not_zero, or_shown,
  or_told, or_unless_success, zero_code, show_libusb_error,
}
use codetooth.Host.Control.Requests.{out_request, in_request}

-- `return state`, the byte that was read.
abbrev pub first_byte : (r : ℕ) (buffer : List ℕ) → Code
first_byte r buffer = value (get_or buffer 0 0)

-- `result[0] | (result[1] << 8)`, and the other order in cmd_read_register.
abbrev pub low_first : (r : ℕ) (buffer : List ℕ) → Code
low_first r buffer = value (bit_or (get_or buffer 0 0) (get_or buffer 1 0 <<< 8))

abbrev pub high_first : (r : ℕ) (buffer : List ℕ) → Code
high_first r buffer = value (bit_or (get_or buffer 0 0 <<< 8) (get_or buffer 1 0))

-- What was written to the string of the caller: the code of an error, cut to its size; an old
-- revision as a number; or bytes, with a 0 behind them.
pub data Text : Type 0 where
  error_text : LibusbError → Text
  svn_revision : ℕ → Text
  bytes_text : List ℕ → Text

abbrev pub min_ℤ : ℤ → ℤ → ℤ
min_ℤ a b = if ltb_ℤ a b then a else b

-- `len = MIN(r - header, MIN(len - 1, counted))`, kept in 8 bits.
unfoldable pub text_len : (header r len counted : ℕ) → ℕ
text_len header r len counted =
    wrap 256 (min_ℤ (sub_ℕ r header) (min_ℤ (sub_ℕ len 1) (pos counted)))

-- cmd_get_rev_num after its transfer, for a string of `len` bytes of the caller.
unfoldable pub rev_text : {World : Type 0} (len : ℕ) → Outcome × World → Done World Text
unfolding told text_len
rev_text len (o, w) = elim (o.r) [
  | error e ↦ done (error_text e) (told e ∷ []) w
  | value r ↦
      if r == 2
      then done (svn_revision (bit_or (get_or o.buffer 0 0) (get_or o.buffer 1 0 <<< 8))) [] w
      else done (bytes_text (take (text_len 3 r len (get_or o.buffer 2 0)) (drop 3 o.buffer))) [] w
]

unfoldable pub info_text : {World : Type 0} (len : ℕ) → Outcome × World → Done World Text
unfolding told text_len
info_text len (o, w) = elim (o.r) [
  | error e ↦ done (error_text e) (told e ∷ []) w
  | value r ↦
      done (bytes_text (take (text_len 1 r len (get_or o.buffer 0 0)) (drop 1 o.buffer))) [] w
]

module _ {World : Type 0} (usb : Libusb World) where
  abbrev pub put_value : Request → (w_value timeout : ℕ) → World → Outcome × World
  put_value r w_value timeout w = usb.control_transfer (out_request r w_value 0 [] timeout) w

  abbrev pub ask_bytes : Request → (stack : List ℕ) (size timeout : ℕ) → World → Outcome × World
  ask_bytes r stack size timeout w = usb.control_transfer (in_request r 0 stack size timeout) w

  unfoldable pub cmd_ping : World → Done World Code
  unfolding or_shown
  cmd_ping w = or_shown zero_code (ask_bytes Request.ping [] 0 1000 w)

  unfoldable pub cmd_set_usrled : (state : ℕ) → World → Done World Code
  unfolding or_shown
  cmd_set_usrled state w = or_shown zero_code (put_value Request.set_usrled state 1000 w)

  unfoldable pub cmd_get_usrled : (stack : List ℕ) → World → Done World Code
  unfolding or_shown
  cmd_get_usrled stack w = or_shown first_byte (ask_bytes Request.get_usrled stack 1 1000 w)

  unfoldable pub cmd_set_rxled : (state : ℕ) → World → Done World Code
  unfolding or_shown
  cmd_set_rxled state w = or_shown zero_code (put_value Request.set_rxled state 1000 w)

  unfoldable pub cmd_get_rxled : (stack : List ℕ) → World → Done World Code
  unfolding or_shown
  cmd_get_rxled stack w = or_shown first_byte (ask_bytes Request.get_rxled stack 1 1000 w)

  unfoldable pub cmd_set_txled : (state : ℕ) → World → Done World Code
  unfolding or_shown
  cmd_set_txled state w = or_shown zero_code (put_value Request.set_txled state 1000 w)

  unfoldable pub cmd_get_txled : (stack : List ℕ) → World → Done World Code
  unfolding or_shown
  cmd_get_txled stack w = or_shown first_byte (ask_bytes Request.get_txled stack 1 1000 w)

  unfoldable pub cmd_get_modulation : (stack : List ℕ) → World → Done World Code
  unfolding or_shown
  cmd_get_modulation stack w = or_shown first_byte (ask_bytes Request.get_mod stack 1 1000 w)

  unfoldable pub cmd_set_modulation : (mod_asked : ℕ) → World → Done World Code
  unfolding or_told
  cmd_set_modulation mod_asked w = or_told zero_code (put_value Request.set_mod mod_asked 1000 w)

  unfoldable pub cmd_get_channel : (stack : List ℕ) → World → Done World Code
  unfolding or_told
  cmd_get_channel stack w = or_told low_first (ask_bytes Request.get_channel stack 2 1000 w)

  unfoldable pub cmd_set_channel : (channel : ℕ) → World → Done World Code
  unfolding or_told
  cmd_set_channel channel w = or_told zero_code (put_value Request.set_channel channel 1000 w)

  -- The status of the boot ROM stands before the four bytes, which are an `int` by its bit pattern.
  unfoldable pub cmd_get_partnum : (stack : List ℕ) → World → Done World Code
  unfolding show_libusb_error
  cmd_get_partnum stack w =
      let (o, w') = ask_bytes Request.get_partnum stack 5 1000 w in
      elim (o.r) [
        | error e ↦ done (error e) (show_libusb_error (error e) ∷ []) w'
        | value r ↦
            if get_or o.buffer 0 0 == 0
            then done (value (le_word32 o.buffer 1)) [] w'
            else done (value 0) (result_not_zero (get_or o.buffer 0 0) ∷ []) w'
      ]

  -- `serial` is the caller's array of 17 bytes.
  unfoldable pub cmd_get_serial : (serial : List ℕ) → World → Done World (Code × List ℕ)
  unfolding show_libusb_error
  cmd_get_serial serial w =
      let (o, w') = ask_bytes Request.get_serial serial 17 1000 w in
      elim (o.r) [
        | error e ↦ done (error e, o.buffer) (show_libusb_error (error e) ∷ []) w'
        | value r ↦
            if get_or o.buffer 0 0 == 0
            then done (value 0, o.buffer) [] w'
            else done (value 1, o.buffer) (result_not_zero (get_or o.buffer 0 0) ∷ []) w'
      ]

  unfoldable pub cmd_set_paen : (state : ℕ) → World → Done World Code
  unfolding or_told
  cmd_set_paen state w = or_told zero_code (put_value Request.set_paen state 1000 w)

  unfoldable pub cmd_set_hgm : (state : ℕ) → World → Done World Code
  unfolding or_told
  cmd_set_hgm state w = or_told zero_code (put_value Request.set_hgm state 1000 w)

  unfoldable pub cmd_get_palevel : (stack : List ℕ) → World → Done World Code
  unfolding or_shown
  cmd_get_palevel stack w = or_shown first_byte (ask_bytes Request.get_palevel stack 1 3000 w)

  unfoldable pub cmd_set_palevel : (level : ℕ) → World → Done World Code
  unfolding or_unless_success
  cmd_set_palevel level w = or_unless_success (put_value Request.set_palevel level 3000 w)

  -- `rr` is the caller's record.
  unfoldable pub cmd_get_rangeresult :
      (stack : List ℕ) (rr : RangeResult) → World → Done World (Code × RangeResult)
  unfolding told
  cmd_get_rangeresult stack rr w =
      let (o, w') = ask_bytes Request.range_check stack 5 3000 w in
      elim (o.r) [
        | error e ↦ done (error e, rr) (told e ∷ []) w'
        | value r ↦
            done
              (
                value 0,
                record {
                  valid = get_or o.buffer 0 0;
                  request_pa = get_or o.buffer 1 0;
                  request_num = get_or o.buffer 2 0;
                  reply_pa = get_or o.buffer 3 0;
                  reply_num = get_or o.buffer 4 0;
                },
              )
              [] w'
      ]

  unfoldable pub cmd_get_rev_num : (stack : List ℕ) (len : ℕ) → World → Done World Text
  unfolding rev_text
  cmd_get_rev_num stack len w = rev_text len (ask_bytes Request.get_rev_num stack 258 1000 w)

  unfoldable pub cmd_get_compile_info : (stack : List ℕ) (len : ℕ) → World → Done World Text
  unfolding info_text
  cmd_get_compile_info stack len w =
      info_text len (ask_bytes Request.get_compile_info stack 256 1000 w)

  unfoldable pub cmd_get_board_id : (stack : List ℕ) → World → Done World Code
  unfolding or_told
  cmd_get_board_id stack w = or_told first_byte (ask_bytes Request.get_board_id stack 1 1000 w)

  unfoldable pub cmd_set_squelch : (level : ℕ) → World → Done World Code
  unfolding or_unless_success
  cmd_set_squelch level w = or_unless_success (put_value Request.set_squelch level 3000 w)

  unfoldable pub cmd_get_squelch : (stack : List ℕ) → World → Done World Code
  unfolding or_shown
  cmd_get_squelch stack w = or_shown first_byte (ask_bytes Request.get_squelch stack 1 3000 w)

  unfoldable pub cmd_read_register : (stack : List ℕ) (reg : ℕ) → World → Done World Code
  unfolding or_told
  cmd_read_register stack reg w =
      or_told high_first
        (usb.control_transfer (in_request Request.read_register reg stack 2 1000) w)
