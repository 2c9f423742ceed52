-- ===== src/Host.antt =====
-- The host's library, host/libubertooth/src, and of its tools the output of ubertooth-specan.
pub mod RingBuffer
pub mod Callback
pub mod Control
pub mod Specan
