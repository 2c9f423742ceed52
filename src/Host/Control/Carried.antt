-- ===== src/Host/Control/Carried.antt =====
-- A control transfer between ubertooth_control.c and vendor_request_handler: what libusb and the USB
-- stack of the firmware, which are not modelled, are taken to do with it.
use codetooth.Prelude.{
  ℕ, min, ◌≤◌, ◌≡◌, ap, true, if◌then◌else◌, List, [], ◌++◌, length, take, drop,
}
use codetooth.Firmware.Device.{Device, Build, Hardware}
use codetooth.Firmware.Vendor.Control.{Answer}
use codetooth.Firmware.Vendor.Transport.{usb_vendor_request_handler}
use codetooth.Firmware.Vendor.Commands.{Request, request_of}
use codetooth.Firmware.Vendor.Refusal.{returns?}
use codetooth.Host.Control.Requests.{out_request}
use codetooth.Host.Control.Transfer.{
  Direction, ctrl_in, ctrl_out, Transfer, pipe, value, error, Outcome, Libusb,
}

-- A request that is refused stalls the control pipe. One that is accepted counts the bytes sent, or
-- puts as many bytes of the reply as were asked for over the buffer.
abbrev pub sent : Transfer → Answer → Outcome × Device
sent t a =
    (record { r = if a.accepted then value t.size else error pipe; buffer = t.buffer }, a.device)

abbrev pub replied : Transfer → Answer → Outcome × Device
replied t a =
    let n = min t.size a.exchange.data_len in
    (
      (if a.accepted
          then (record { r = value n; buffer = take n a.exchange.bytes ++ drop n t.buffer })
          else (record { r = error pipe; buffer = t.buffer })),
      a.device,
    )

abbrev pub handled : Build → Hardware → Transfer → List ℕ → Device → Answer
handled b h t bytes d =
    usb_vendor_request_handler b h t.request t.w_value t.w_index
      (record { bytes = bytes; data_len = t.size }) d

-- Every transfer reaches the device, and ends where the handler of its request returns: what becomes of
-- the others is left open. `stale` is what earlier requests left in abVendorReqData, of 258
-- bytes, over whose front the bytes that are sent are written.
pub record Carries (b : Build) (h : Hardware) (usb : Libusb Device) : Type 0 where
  pub stale : Transfer → Device → List ℕ
  pub sends :
      (t : Transfer) (d : Device)
      → t.direction ≡ ctrl_out
      → t.size ≡ length t.buffer
      → t.size ≤ 258
      → returns? (request_of t.request) ≡ true
      → usb.control_transfer t d ≡ sent t (handled b h t (t.buffer ++ stale t d) d)
  pub asks :
      (t : Transfer) (d : Device)
      → t.direction ≡ ctrl_in
      → returns? (request_of t.request) ≡ true
      → usb.control_transfer t d ≡ replied t (handled b h t (stale t d) d)

-- The device after bytes that a request sends.
abbrev pub after :
    (b : Build) (h : Hardware) {usb : Libusb Device}
    → Carries b h usb
    → Request
    → (bytes : List ℕ) → Device
    → Device
after b h c r bytes d =
    let t = out_request r 0 0 bytes 1000 in (handled b h t (bytes ++ c.stale t d) d).device

-- A bus that behaves so: the device is at the other end of the call.
abbrev direct_transfer : Build → Hardware → Direction → Transfer → Device → Outcome × Device
direct_transfer b h ctrl_in t d = replied t (handled b h t [] d)
direct_transfer b h ctrl_out t d = sent t (handled b h t (t.buffer ++ []) d)

abbrev pub direct : Build → Hardware → Libusb Device
direct b h = record {
  control_transfer = λ t d. direct_transfer b h t.direction t d;
  submit_transfer = λ t d. (value 0, (direct_transfer b h t.direction t d).1);
  magnitude = λ e. 1;
}

pub direct-Carries : (b : Build) (h : Hardware) → Carries b h (direct b h)
direct-Carries b h = record {
  stale = λ t d. [];
  sends = λ t d out whole fits ends. ap (λ way. direct_transfer b h way t d) out;
  asks = λ t d inward ends. ap (λ way. direct_transfer b h way t d) inward;
}
