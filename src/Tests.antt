-- ===== src/Tests.antt =====
-- Runs of the code at concrete inputs.
mod Link
mod Ring
mod Receive
mod Recover
mod Piconet
mod Sweeping
mod Received
mod Vendor
mod Air
mod Bus
mod Symbols
mod Rounds
mod Scan
