-- ===== src/Host/Callback.antt =====
-- host/libubertooth/src/ubertooth_callback.c: the strength of a signal in dBm, and the time of a
-- packet.
pub mod Strength
pub mod Time
use codetooth.Prelude.{
  ℕ, zero, suc, ◌+◌, ◌*◌, ◌%◌, sub32, ltb, ◌==◌, if◌then◌else◌, List, [], ◌∷◌, ◌++◌, get_or, set,
  drop,
}
use codetooth.Prelude.Int.{ℤ, pos, negsuc, ◌+ℤ◌, ◌-ℤ◌, scale, quotient, ltb_ℤ, int8}

-- cc2400_rssi_to_dbm, over the integers that int8_t stands for.
unfoldable pub rssi_to_dbm : ℤ → ℤ
rssi_to_dbm rssi =
    if ltb_ℤ rssi (negsuc 47)
    then negsuc 119
    else if ltb_ℤ rssi (negsuc 43)
    then scale (rssi +ℤ pos 28) 6
    else if ltb_ℤ rssi (pos 31)
    then int8 (quotient (scale (rssi -ℤ pos 62) 99) 110)
    else if ltb_ℤ rssi (pos 36)
    then int8 (quotient (scale (rssi -ℤ pos 35) 60) 11)
    else pos 0

-- The history of a channel, NUM_BANKS entries, the newest last.
abbrev pub shift_history : (history : List ℤ) (rssi_max : ℤ) → List ℤ
shift_history history rssi_max = drop 1 history ++ (rssi_max ∷ [])

abbrev pub max_ℤ : ℤ → ℤ → ℤ
max_ℤ a b = if ltb_ℤ b a then a else b

-- The loop over the entries after the first.
pub loudest : (rssi : ℤ) → List ℤ → ℤ
loudest rssi [] = rssi
loudest rssi (h ∷ history) = loudest (max_ℤ rssi h) history

abbrev pub history_max : List ℤ → ℤ
history_max [] = pos 0
history_max (h ∷ history) = loudest h history

-- determine_signal_and_noise: the signal, the noise, and the histories after.
unfoldable pub determine_signal_and_noise :
    (channel : ℕ) (rssi_max rssi_avg : ℤ) → List (List ℤ) → (ℤ × ℤ) × List (List ℤ)
unfolding loudest
determine_signal_and_noise channel rssi_max rssi_avg rssi_history =
    let history = shift_history (get_or rssi_history channel []) rssi_max in
    ((rssi_to_dbm (history_max history), rssi_to_dbm rssi_avg), set rssi_history channel history)

-- The fields of `ubertooth_t` for the time.
pub record Tracked : Type 0 where
  pub abs_start_ns : ℕ
  pub start_clk100ns : ℕ
  pub last_clk100ns : ℕ
  pub clk100ns_upper : ℕ

-- track_clk100ns; `now` is what now_ns() returns.
unfoldable pub track_clk100ns : (now clk100ns : ℕ) → Tracked → Tracked
track_clk100ns now clk100ns t =
    let started =
      if t.start_clk100ns == 0
      then record t { abs_start_ns = now; start_clk100ns = clk100ns; last_clk100ns = clk100ns }
      else t in
    record started {
      clk100ns_upper =
          (if ltb clk100ns started.last_clk100ns
            then (started.clk100ns_upper + 1) % 18446744073709551616
            else started.clk100ns_upper);
      last_clk100ns = clk100ns;
    }

-- now_ns_from_clk100ns, in 64 bits.
unfoldable pub now_ns_from_clk100ns : (now clk100ns : ℕ) → Tracked → ℕ × Tracked
unfolding track_clk100ns
now_ns_from_clk100ns now clk100ns t =
    let t' = track_clk100ns now clk100ns t in
    (
      (t'.abs_start_ns
            + 100 * sub32 clk100ns t'.start_clk100ns
            + 100 * t'.clk100ns_upper * 4294967296)
          % 18446744073709551616,
      t',
    )
