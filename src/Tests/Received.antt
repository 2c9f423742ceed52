-- ===== src/Tests/Received.antt =====
-- The time that the host gives a packet.
use codetooth.Host.Callback.{Tracked}

-- One packet received, at 1000, and then one just before CLK100NS starts again.
abbrev tracked : Tracked
tracked = record {
  abs_start_ns = 5000;
  start_clk100ns = 1000;
  last_clk100ns = 3276799990;
  clk100ns_upper = 0;
}
