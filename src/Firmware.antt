-- ===== src/Firmware.antt =====
-- firmware/bluetooth_rxtx/bluetooth_rxtx.c: the globals of the radio firmware and what the main
-- loop, the interrupts and the USB requests do to them.
pub mod State
pub mod Enqueue
pub mod Follow
pub mod Timer
pub mod Promisc
pub mod Hop
pub mod Rssi
pub mod Squelch
pub mod Device
pub mod Vendor
pub mod Transmit
pub mod Sync
pub mod Ego
pub mod Symbols
pub mod Stream
pub mod Specan
