-- ===== src/Host/Control.antt =====
-- ubertooth_control.c: the requests that the host sends.
pub mod Transfer
pub mod Requests
pub mod Settings
pub mod Links
pub mod Carried
pub mod Roundtrip
pub mod Address
pub mod Readings
pub mod Tuned
pub mod Polled
