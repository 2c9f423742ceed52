-- ===== src/Classic.antt =====
-- Classic Bluetooth of the firmware, bluetooth.c: hopping and the search for an access code.
pub mod State
pub mod CountBits
pub mod Perm5
pub mod NextHop
pub mod AccessCode
