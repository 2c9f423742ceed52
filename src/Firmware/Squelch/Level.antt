-- ===== src/Firmware/Squelch/Level.antt =====
-- What a requested threshold becomes.
use codetooth.Prelude.{
  ℕ, ◌+◌, ◌*◌, ◌/◌, ◌%◌, ◌<◌, ◌≡◌, ◌↔◌, refl, ap, ◌∙◌, bit_and, bit_or, ◌==◌, ==_iff, true, arith,
}
use codetooth.Prelude.Bits.{and-mask}
use codetooth.Prelude.Table.{all_below, all_below_sound}
use codetooth.Prelude.Int.{ℤ, pos, negsuc, ◌+ℤ◌, ◌≤ℤ◌, scale, wrap}
use codetooth.Firmware.State.{Rssi, HopMode}
use codetooth.Firmware.Squelch.{
  Squelch, cs_threshold_set, cs_threshold_calc_and_set, level_for, clamp_level,
}

-- The threshold in force, from the level asked for, and its place in the register: the radio adds
-- 54 to a level and counts in steps of 4, in the upper six bits.
pub record Thresholded (level : ℤ) (samples : ℕ) (s : Squelch) : Type 0 where
  pub lowest : negsuc 119 ≤ℤ s.cs_threshold_cur
  pub highest : s.cs_threshold_cur ≤ℤ negsuc 19
  pub kept : negsuc 119 ≤ℤ level → level ≤ℤ negsuc 19 → s.cs_threshold_cur ≡ level
  pub open_at : (s.cs_no_squelch ≡ true) ↔ (level ≤ℤ negsuc 119)
  pub steps : ℤ
  pub register : s.rssi_register ≡ 4 * wrap 64 steps + samples % 4
  pub steps_low : scale steps 4 ≤ℤ (s.cs_threshold_cur +ℤ pos 56)
  pub steps_high : (s.cs_threshold_cur +ℤ pos 53) ≤ℤ scale steps 4

abbrev quarter : ℤ → ℤ
quarter (pos n) = pos (n / 4)
quarter (negsuc n) = negsuc (n / 4)

fields_below :
    all_below 256 (λ w. all_below 4 (λ k. bit_or (bit_and w 0xfc) k == 4 * (w / 4) + k)) ≡ true
unfolding all_below
fields_below = refl

fields : (w k : ℕ) → w < 256 → k < 4 → bit_or (bit_and w 0xfc) k ≡ 4 * (w / 4) + k
fields w k small few = (==_iff (bit_or (bit_and w 0xfc) k) (4 * (w / 4) + k)).0 (
    all_below_sound 4 (λ k. bit_or (bit_and w 0xfc) k == 4 * (w / 4) + k) k
      (all_below_sound 256 (λ w. all_below 4 (λ k. bit_or (bit_and w 0xfc) k == 4 * (w / 4) + k)) w
        fields_below small)
      few)

wrap_small : (z : ℤ) → wrap 256 z < 256
wrap_small z = ground arith

wrap-quarter : (z : ℤ) → wrap 256 z / 4 ≡ wrap 64 (quarter z)
wrap-quarter (pos n) = ground arith
wrap-quarter (negsuc n) = ground arith

in_register :
    (z : ℤ) (samples : ℕ)
    → bit_or (bit_and (wrap 256 z) 0xfc) (bit_and samples 3) ≡ 4 * wrap 64 (quarter z) + samples % 4
in_register z samples =
    ap (bit_or (bit_and (wrap 256 z) 0xfc)) (and-mask 2 samples)
    ∙ fields (wrap 256 z) (samples % 4) (wrap_small z) (omega arith)
    ∙ ap (λ q. 4 * q + samples % 4) (wrap-quarter z)

quarter_low : (z : ℤ) → scale (quarter z) 4 ≤ℤ z
quarter_low (pos n) = ground arith
quarter_low (negsuc n) = ground arith

quarter_high : (z c : ℤ) → z ≡ c +ℤ pos 56 → (c +ℤ pos 53) ≤ℤ scale (quarter z) 4
unfolding ◌+ℤ◌
quarter_high (pos n) c e = ground arith
quarter_high (negsuc n) c e = ground arith

clamped : (level : ℤ) → (negsuc 119 ≤ℤ clamp_level level) × (clamp_level level ≤ℤ negsuc 19)
clamped level = ground arith

clamp_kept : (level : ℤ) → negsuc 119 ≤ℤ level → level ≤ℤ negsuc 19 → clamp_level level ≡ level
clamp_kept level low high = ground arith

-- The level asked for cut to -120 … -20 is in force, all packets are received exactly when it is
-- -120 or below, and the register holds the level plus 56 in whole steps of 4, rounded down.
pub cs_threshold_set_lem :
    (level : ℤ) (samples : ℕ) (s : Squelch)
    → Thresholded level samples (cs_threshold_set level samples s)
unfolding cs_threshold_set
cs_threshold_set_lem level samples s = record {
  lowest = (clamped level).0;
  highest = (clamped level).1;
  kept = clamp_kept level;
  open_at = ground arith;
  steps = quarter (clamp_level level +ℤ pos 56);
  register = in_register (clamp_level level +ℤ pos 56) samples;
  steps_low = quarter_low (clamp_level level +ℤ pos 56);
  steps_high = quarter_high (clamp_level level +ℤ pos 56) (clamp_level level) refl;
}

-- What cs_threshold_calc_and_set leaves for each request: where the request is not positive, or
-- there is no hopping, the level is the request itself; otherwise it is the 8-bit value of the
-- average strength of the channel less 54 plus the request.
pub cs_threshold_calc_and_set_lem :
    (mode : HopMode) (channel : ℕ) (r : Rssi) (s : Squelch)
    → Thresholded
        (level_for mode channel r s.cs_threshold_req)
        3
        (cs_threshold_calc_and_set mode channel r s)
unfolding cs_threshold_calc_and_set
cs_threshold_calc_and_set_lem mode channel r s = cs_threshold_set_lem _ 3 s
