-- ===== src/Host/Callback/Time.antt =====
-- The time stamps of packets before and after CLK100NS starts again.
use codetooth.Prelude.{ℕ, ◌+◌, ◌-◌, ◌*◌, ◌<◌, ◌≤◌, ◌≡◌, arith}
use codetooth.Host.Callback.{Tracked, now_ns_from_clk100ns}

-- A host that has its first packet, and its last one at the reading `last`, in the same period.
pub record Tracking (first last : ℕ) (t : Tracked) : Type 0 where
  pub started : t.start_clk100ns ≡ first
  pub not_zero : 0 < first
  pub seen : t.last_clk100ns ≡ last
  pub in_order : first ≤ last
  pub same_period : t.clk100ns_upper ≡ 0
  pub fits : t.abs_start_ns < 18446743000000000000

module _ (now first last clk : ℕ) (t : Tracked) (h : Tracking first last t) where
  -- A packet that is not before the last one, in the period of CLK100NS that the first packet came
  -- in: its time stamp is the time of the first and 100 ns for each tick since.
  pub now_ns_exact :
      last ≤ clk
      → clk < 3276800000
      → ((now_ns_from_clk100ns now clk t).0 ≡ t.abs_start_ns + 100 * (clk - first))
        × Tracking first clk (now_ns_from_clk100ns now clk t).1
  unfolding now_ns_from_clk100ns
  now_ns_exact after small = ground arith

  -- A packet after CLK100NS has started again, at a reading before that of the first packet: its
  -- time stamp is 100 ns for each tick since the first packet, plus 531.3134592 seconds too much.
  pub now_ns_jumps :
      last < 3276800000
      → clk < first
      → (now_ns_from_clk100ns now clk t).0
        ≡ t.abs_start_ns + 100 * (clk + 3276800000 - first) + 531313459200
  unfolding now_ns_from_clk100ns
  now_ns_jumps small again = ground arith
