-- ===== src/Firmware/Ego/Sleep.antt =====
-- How long a machine of ego.c sleeps.
use codetooth.Prelude.{ℕ, ◌+◌, ◌*◌, ◌%◌, ◌<◌, ◌≡◌, refl, ap, ◌∙◌, leb, arith}
use codetooth.Firmware.State.{Clock, clk100ns_of}
use codetooth.Firmware.Sync.Timeout.{clk_period, elapsed_lem}
use codetooth.Firmware.Ego.{Ego, sleep_ms, sleep_elapsed}

-- The same machine later.
abbrev pub at_clock : Clock → Ego → Ego
at_clock clock e = record e { fw = record (e.fw) { clock = clock } }

elapsed_since :
    (clock : Clock) (start late : ℕ) (e : Ego)
    → late < clk_period
    → e.fsm.sleep_start ≡ start % clk_period
    → clk100ns_of clock ≡ (start + late) % clk_period
    → sleep_elapsed (at_clock clock e) ≡ leb e.fsm.sleep_duration late
unfolding sleep_elapsed
elapsed_since clock start late e small from now = rw (from, now, elapsed_lem start late small) refl

-- A machine that goes to sleep for a number of milliseconds at the time t (in units of 100 ns) has
-- slept enough exactly when 10000 times that number of units have passed; CLK100NS may start again
-- in between. The time passed is less than a period of CLK100NS, and the duration fits in 32 bits.
pub sleep_elapsed_lem :
    (clock : Clock) (duration t late : ℕ) (e : Ego)
    → duration * 10000 < 4294967296
    → late < clk_period
    → clk100ns_of e.fw.clock ≡ t % clk_period
    → clk100ns_of clock ≡ (t + late) % clk_period
    → sleep_elapsed (at_clock clock (sleep_ms duration e)) ≡ leb (duration * 10000) late
sleep_elapsed_lem clock duration t late e fits small from now =
    elapsed_since clock t late (sleep_ms duration e) small from now
    ∙ ap (λ d. leb d late) (omega arith)
