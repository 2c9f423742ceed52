-- ===== src/Le.antt =====
-- firmware/bluetooth_rxtx/bluetooth_le.c and the tables of bluetooth_le.h: Low Energy channels,
-- the CRC of the link layer, computed three ways, and the reversal of bits that it needs.
pub mod Reversal
pub mod State
pub mod Channel
pub mod Crc
pub mod Tables
pub mod Whitening
