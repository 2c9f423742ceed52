-- ===== src/Usb.antt =====
-- The packets that the firmware passes to the host, and the ring of 128 of them in
-- firmware/bluetooth_rxtx/ubertooth_usb.c.
pub mod Packet
pub mod Fifo
pub mod Queue
pub mod Send
