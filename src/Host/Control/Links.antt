-- ===== src/Host/Control/Links.antt =====
-- The requests of ubertooth_control.c for the clock, the addresses and channel maps of links, and the
-- packets of a Low Energy link.
use codetooth.Prelude.{
  ℕ, ◌^◌, ◌-◌, u16, u32, bit_and, ◌>>>◌, ltb, if◌then◌else◌, List, [], ◌∷◌, ◌++◌, get_or, take,
}
use codetooth.Prelude.Int.{ℤ, wrap}
use codetooth.Firmware.Vendor.Commands.{Request}
use codetooth.Firmware.Vendor.Control.{split_bytes}
use codetooth.Firmware.Follow.{le_word32}
use codetooth.Host.Control.Transfer.{
  ctrl_out, Notice, Code, value, error, Outcome, Libusb, Done, done, told, only, clock_read,
  or_shown, or_told, zero_code, show_libusb_error,
}
use codetooth.Host.Control.Requests.{out_request, in_request, ubertooth_cmd_async}

-- `return r`, for a reply that stands in the buffer of the caller: an error with LIBUSB_ERROR_PIPE
-- told apart, or not.
abbrev pub or_told_with : {World : Type 0} → Outcome × World → Done World (Code × List ℕ)
or_told_with (o, w) = elim (o.r) [
  | error e ↦ done (error e, o.buffer) (told e ∷ []) w
  | value r ↦ done (value r, o.buffer) [] w
]

abbrev pub or_shown_with : {World : Type 0} → Outcome × World → Done World (Code × List ℕ)
or_shown_with (o, w) = elim (o.r) [
  | error e ↦ done (error e, o.buffer) (show_libusb_error (error e) ∷ []) w
  | value r ↦ done (value r, o.buffer) [] w
]

-- Both bytes of a number of 16 bits, the high one first.
abbrev pub high_low : ℕ → List ℕ
high_low n = bit_and (n >>> 8) 0xff ∷ bit_and n 0xff ∷ []

-- `data[r] = (clkn_offset >> (8*(3-r))) & 0xff`, for r from 0 to 3.
abbrev pub high_first_bytes : ℕ → List ℕ
high_first_bytes n =
    bit_and (n >>> 24) 0xff ∷ bit_and (n >>> 16) 0xff ∷ bit_and (n >>> 8) 0xff ∷ bit_and n 0xff ∷ []

-- The four bytes of a reply as a number, and what is printed of it. An error is returned as the
-- number of 32 bits that has its bit pattern.
abbrev pub read_word :
    {World : Type 0} → Libusb World → (printed : ℕ → List Notice) → Outcome × World → Done World ℕ
read_word usb printed (o, w) = elim (o.r) [
  | error e ↦ done (u32 (2 ^ 32 - usb.magnitude e)) (show_libusb_error (error e) ∷ []) w
  | value r ↦ done (le_word32 o.buffer 0) (printed (le_word32 o.buffer 0)) w
]

-- cmd_set_bdaddr after its transfer of 16 bytes.
abbrev pub all_transferred : {World : Type 0} → Outcome × World → Done World Code
all_transferred (o, w) = elim (o.r) [
  | error e ↦ done (error e) (told e ∷ []) w
  | value r ↦ if ltb r 16 then done (value 1) (only r 16 ∷ []) w else done (value 0) [] w
]

module _ {World : Type 0} (usb : Libusb World) where
  abbrev pub send_bytes : Request → List ℕ → World → Outcome × World
  send_bytes r sent w = usb.control_transfer (out_request r 0 0 sent 1000) w

  -- A function that returns nothing; the error is printed.
  unfoldable pub cmd_trim_clock : (offset : ℕ) → World → Done World Code
  unfolding ubertooth_cmd_async
  cmd_trim_clock offset w =
      ubertooth_cmd_async usb ctrl_out Request.trim_clock (high_low offset) 2 w

  -- btbb_gen_syncword of libbtbb is an argument.
  unfoldable pub cmd_set_bdaddr :
      (btbb_gen_syncword : ℕ → ℕ) (address : ℕ) → World → Done World Code
  unfolding told split_bytes
  cmd_set_bdaddr btbb_gen_syncword address w =
      let syncword = btbb_gen_syncword (bit_and address 0xffffff) in
      all_transferred
        (send_bytes Request.set_bdaddr (split_bytes 8 0 address ++ split_bytes 8 0 syncword) w)

  -- A code of ubertooth_cmd_async that is an error is printed once more.
  unfoldable pub cmd_start_hopping : (clkn_offset clk100ns_offset : ℤ) → World → Done World Code
  unfolding ubertooth_cmd_async told
  cmd_start_hopping clkn_offset clk100ns_offset w =
      let d =
        ubertooth_cmd_async usb ctrl_out Request.start_hopping
          (high_first_bytes (wrap (2 ^ 32) clkn_offset) ++ high_low (wrap (2 ^ 32) clk100ns_offset))
          6 w in
      elim (d.result) [
        | value r ↦ done (value 0) d.notices d.world
        | error e ↦ done (error e) (d.notices ++ (told e ∷ [])) d.world
      ]

  unfoldable pub cmd_set_clock : (clkn : ℕ) → World → Done World Code
  unfolding or_told split_bytes
  cmd_set_clock clkn w = or_told zero_code (send_bytes Request.set_clock (split_bytes 4 0 clkn) w)

  unfoldable pub cmd_get_clock : (stack : List ℕ) → World → Done World ℕ
  unfolding show_libusb_error
  cmd_get_clock stack w =
      read_word usb (λ clock. clock_read clock ∷ [])
        (usb.control_transfer (in_request Request.get_clock 0 stack 4 3000) w)

  -- `afh_map` is the caller's array of ten bytes. The code of the submission is not read.
  unfoldable pub cmd_set_afh_map : (afh_map : List ℕ) → World → Done World Code
  cmd_set_afh_map afh_map w =
      let sent =
        usb.submit_transfer (out_request Request.set_afhmap 0 0 (take 10 afh_map) 1000) w in
      done (value 0) [] (sent.1)

  unfoldable pub cmd_clear_afh_map : World → Done World Code
  unfolding or_told
  cmd_clear_afh_map w = or_told zero_code (send_bytes Request.clear_afhmap [] w)

  unfoldable pub cmd_get_access_address : (stack : List ℕ) → World → Done World ℕ
  unfolding show_libusb_error
  cmd_get_access_address stack w =
      read_word usb (λ access_address. [])
        (usb.control_transfer (in_request Request.get_access_address 0 stack 4 3000) w)

  unfoldable pub cmd_set_access_address : (access_address : ℕ) → World → Done World Code
  unfolding or_told split_bytes
  cmd_set_access_address access_address w =
      or_told zero_code (send_bytes Request.set_access_address (split_bytes 4 0 access_address) w)

  -- `bytes` are those of the caller, `len` of them.
  unfoldable pub cmd_do_something : (bytes : List ℕ) → World → Done World Code
  unfolding or_told
  cmd_do_something bytes w = or_told zero_code (send_bytes Request.do_something bytes w)

  unfoldable pub cmd_do_something_reply :
      (bytes : List ℕ) (len : ℕ) → World → Done World (Code × List ℕ)
  unfolding told
  cmd_do_something_reply bytes len w =
      or_told_with (usb.control_transfer (in_request Request.do_something_reply 0 bytes len 3000) w)

  unfoldable pub cmd_get_crc_verify : (stack : List ℕ) → World → Done World Code
  unfolding or_shown
  cmd_get_crc_verify stack w =
      or_shown (λ r buffer. value (get_or buffer 0 0))
        (usb.control_transfer (in_request Request.get_crc_verify 0 stack 1 1000) w)

  unfoldable pub cmd_set_crc_verify : (verify : ℕ) → World → Done World Code
  unfolding or_shown
  cmd_set_crc_verify verify w =
      or_shown zero_code
        (usb.control_transfer (out_request Request.set_crc_verify (u16 verify) 0 [] 1000) w)

  -- `p` is the caller's packet, as its 64 bytes.
  unfoldable pub cmd_poll : (p : List ℕ) → World → Done World (Code × List ℕ)
  unfolding show_libusb_error
  cmd_poll p w = or_shown_with (usb.control_transfer (in_request Request.poll 0 p 64 1000) w)

  -- Both send the six bytes of `mac_address`.
  unfoldable pub cmd_btle_slave : (mac_address : List ℕ) → World → Done World Code
  unfolding or_told
  cmd_btle_slave mac_address w =
      or_told zero_code (send_bytes Request.btle_slave (take 6 mac_address) w)

  unfoldable pub cmd_btle_set_target : (mac_address : List ℕ) → World → Done World Code
  unfolding or_told
  cmd_btle_set_target mac_address w =
      or_told zero_code (send_bytes Request.btle_set_target (take 6 mac_address) w)
