-- ===== src/Host/Control/Transfer.antt =====
-- What ubertooth_control.c asks of libusb, and what its functions make of a failure. libusb is a
-- parameter: `World` is the state of what is at the other end of the bus.
use codetooth.Prelude.{ℕ, zero, suc, Bool, true, false, List, [], ◌∷◌}

pub data Direction : Type 0 where
  ctrl_in ctrl_out : Direction

-- The arguments of libusb_control_transfer. `buffer` is what stands at `data` before, `size` the
-- number of its bytes.
pub record Transfer : Type 0 where
  pub direction : Direction
  pub request : ℕ
  pub w_value : ℕ
  pub w_index : ℕ
  pub buffer : List ℕ
  pub size : ℕ
  pub timeout : ℕ

-- The codes LIBUSB_ERROR_* that the library tells apart, and the others by a number.
pub data LibusbError : Type 0 where
  timed_out no_device access overflow pipe other : LibusbError
  further : ℕ → LibusbError

-- An `int` that libusb or a function of the library returns: a number from 0 on, or an error, which
-- is negative.
pub data Code : Type 0 where
  value : ℕ → Code
  error : LibusbError → Code

-- What libusb_control_transfer returns, and what stands at `data` then.
pub record Outcome : Type 0 where
  pub r : Code
  pub buffer : List ℕ

-- `magnitude` is the absolute value of an error code.
pub record Libusb (World : Type 0) : Type 0 where
  pub control_transfer : Transfer → World → Outcome × World
  pub submit_transfer : Transfer → World → Code × World
  pub magnitude : LibusbError → ℕ

-- The names that show_libusb_error prints.
pub data ErrorName : Type 0 where
  timeout_name no_device_name permissions_name overflow_name command_error_name : ErrorName

-- The lines printed: the name of an error with its code, "control message unsupported", "result not
-- zero", and "Only r of n bytes transferred". A code that is not negative has no name of its own.
pub data Notice : Type 0 where
  libusb_error : ErrorName → Code → Notice
  unsupported : Notice
  result_not_zero : ℕ → Notice
  only : (r n : ℕ) → Notice
  clock_read : ℕ → Notice

unfoldable pub show_libusb_error : Code → Notice
show_libusb_error (error timed_out) = libusb_error timeout_name (error timed_out)
show_libusb_error (error no_device) = libusb_error no_device_name (error no_device)
show_libusb_error (error access) = libusb_error permissions_name (error access)
show_libusb_error (error overflow) = libusb_error overflow_name (error overflow)
show_libusb_error code = libusb_error command_error_name code

-- What a function returned, what it printed, and the world after it.
pub record Done (World A : Type 0) : Type 0 where
  pub result : A
  pub notices : List Notice
  pub world : World

abbrev pub done : {World A : Type 0} → A → List Notice → World → Done World A
done a said w = record { result = a; notices = said; world = w }

-- `if (r < 0) { show_libusb_error(r); return r; }`, and what is returned otherwise.
unfoldable pub or_shown :
    {World : Type 0} (otherwise : (r : ℕ) (buffer : List ℕ) → Code)
    → Outcome × World
    → Done World Code
unfolding show_libusb_error
or_shown otherwise (o, w) = elim (o.r) [
  | value r ↦ done (otherwise r o.buffer) [] w
  | error e ↦ done (error e) (show_libusb_error (error e) ∷ []) w
]

-- "control message unsupported" for LIBUSB_ERROR_PIPE, and show_libusb_error for the others.
unfoldable pub told : LibusbError → Notice
unfolding show_libusb_error
told pipe = unsupported
told e = show_libusb_error (error e)

-- The same with LIBUSB_ERROR_PIPE told apart.
unfoldable pub or_told :
    {World : Type 0} (otherwise : (r : ℕ) (buffer : List ℕ) → Code)
    → Outcome × World
    → Done World Code
unfolding told
or_told otherwise (o, w) = elim (o.r) [
  | value r ↦ done (otherwise r o.buffer) [] w
  | error e ↦ done (error e) (told e ∷ []) w
]

-- `if (r != LIBUSB_SUCCESS)`: a number over 0 is returned too, as a command error.
unfoldable pub or_unless_success : {World : Type 0} → Outcome × World → Done World Code
unfolding told show_libusb_error
or_unless_success (o, w) = elim (o.r) [
  | value zero ↦ done (value 0) [] w
  | value (suc r) ↦ done (value (suc r)) (show_libusb_error (value (suc r)) ∷ []) w
  | error e ↦ done (error e) (told e ∷ []) w
]

-- LIBUSB_ERROR_PIPE and LIBUSB_ERROR_OTHER are what a device that restarts leaves behind.
abbrev pub is_expected : LibusbError → Bool
is_expected pipe = true
is_expected other = true
is_expected _ = false

abbrev pub is_no_device : LibusbError → Bool
is_no_device no_device = true
is_no_device _ = false

-- `return 0`
abbrev pub zero_code : (r : ℕ) (buffer : List ℕ) → Code
zero_code r buffer = value 0
