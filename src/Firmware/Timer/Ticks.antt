-- ===== src/Firmware/Timer/Ticks.antt =====
-- A connection through the ticks of 1.25 ms of its intervals.
use codetooth.Prelude.{
  ℕ, ltb, ◌||◌, zero, suc, ◌+◌, ◌/◌, ◌%◌, ◌<◌, ◌≡◌, refl, u16, Bool, true, false, arith,
}
use native.Mathlib.Decide.{dec_lt}
use codetooth.Le.State.{LeState}
use codetooth.Firmware.Timer.{interval_tick}

-- `n` ticks of 1.25 ms.
unfoldable pub interval_ticks : ℕ → LeState → LeState
interval_ticks zero le = le
interval_ticks (suc n) le = interval_ticks n (interval_tick le).1

-- Whether an interval ends with one of them.
unfoldable pub ended : ℕ → LeState → Bool
ended zero le = false
ended (suc n) le = (interval_tick le).0 || ended n (interval_tick le).1

-- Where a connection is in its interval: `done` ticks of the current one have passed.
pub record InInterval (interval done count : ℕ) (le : LeState) : Type 0 where
  pub same_interval : le.conn_interval ≡ interval
  pub timer : le.interval_timer + done ≡ interval
  pub counted : le.conn_count ≡ u16 count

module _ (interval : ℕ) (pos : 0 < interval) (small : interval < 65536) where
  tick_inside :
      (done count : ℕ) (le : LeState)
      → InInterval interval done count le
      → done + 1 < interval
      → InInterval interval (done + 1) count (interval_tick le).1 × ((interval_tick le).0 ≡ false)
  unfolding interval_tick
  tick_inside done count le h inside = ground arith

  tick_last :
      (done count : ℕ) (le : LeState)
      → InInterval interval done count le
      → done + 1 ≡ interval
      → InInterval interval 0 (count + 1) (interval_tick le).1 × ((interval_tick le).0 ≡ true)
  unfolding interval_tick
  tick_last done count le h last = ground arith

  -- From anywhere in an interval, `n` ticks later.
  pub interval_ticks_lem :
      (n done count : ℕ) (le : LeState)
      → done < interval
      → InInterval interval done count le
      → InInterval interval
          ((done + n) % interval)
          (count + (done + n) / interval)
          (interval_ticks n le)
  unfolding interval_ticks
  interval_ticks_lem zero done count le h at =
      let d : (done + 0) % interval ≡ done = grind arith in
      let c : count + (done + 0) / interval ≡ count = grind arith in rw (d, c) at
  interval_ticks_lem (suc n) done count le h at = elim (dec_lt (done + 1) interval) [
    | yes inside ↦
        let e : done + suc n ≡ done + 1 + n = omega arith in
        rw e (
          interval_ticks_lem n (done + 1) count (interval_tick le).1 inside
            (tick_inside done count le at inside).0)
    | no last ↦
        let full : done + 1 ≡ interval = omega arith in
        let d : (done + suc n) % interval ≡ (0 + n) % interval = grind arith in
        let c : count + (done + suc n) / interval ≡ count + 1 + (0 + n) / interval = grind arith in
        rw (d, c)
          (interval_ticks_lem n 0 (count + 1) (interval_tick le).1 pos
            (tick_last done count le at full).0)
  ]

  pub ended_lem :
      (n done count : ℕ) (le : LeState)
      → done < interval
      → InInterval interval done count le
      → ended n le ≡ ltb 0 ((done + n) / interval)
  unfolding ended
  ended_lem zero done count le h at = let c : (done + 0) / interval ≡ 0 = grind arith in rw c refl
  ended_lem (suc n) done count le h at = elim (dec_lt (done + 1) interval) [
    | yes inside ↦
        let e : done + suc n ≡ done + 1 + n = omega arith in
        let (later, stays) = tick_inside done count le at inside in
        rw (e, stays) (ended_lem n (done + 1) count (interval_tick le).1 inside later)
    | no last ↦
        let full : done + 1 ≡ interval = omega arith in
        let c : (done + suc n) / interval ≡ suc (n / interval) = grind arith in
        rw (c, (tick_last done count le at full).1) (ground arith)
  ]
