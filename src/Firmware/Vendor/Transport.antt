-- ===== src/Firmware/Vendor/Transport.antt =====
-- usb_vendor_request_handler of ubertooth_usb.c: a setup packet of the USB stack becomes a call of
-- the handler that ubertooth_usb_init was given, vendor_request_handler.
use codetooth.Prelude.{ℕ, [], ◌∷◌}
use codetooth.Firmware.Device.{Device, Build, Hardware}
use codetooth.Firmware.Vendor.Control.{Exchange, Answer}
use codetooth.Firmware.Vendor.{vendor_request_handler}

-- The fields of the setup packet are arguments; `accepted` is the result.
unfoldable pub usb_vendor_request_handler :
    Build → Hardware → (b_request w_value w_index : ℕ) → Exchange → Device → Answer
unfolding vendor_request_handler
usb_vendor_request_handler b h b_request w_value w_index x d =
    vendor_request_handler b h b_request (w_value ∷ w_index ∷ []) x d
