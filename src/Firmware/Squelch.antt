-- ===== src/Firmware/Squelch.antt =====
-- cs_threshold_set and cs_threshold_calc_and_set: the carrier sense threshold of the radio.
pub mod Level
use codetooth.Prelude.{
  ℕ, ◌-◌, bit_and, bit_or, leb, if◌then◌else◌, Bool, true, false, not, ◌&&◌, List, get_or,
}
use codetooth.Prelude.Int.{ℤ, pos, negsuc, ◌+ℤ◌, ◌-ℤ◌, quotient, ltb_ℤ, int8, wrap}
use codetooth.Firmware.State.{Rssi, HopMode, is_hop_none}

-- `rssi_register` is the register RSSI of the CC2400; a value of type int8_t is its integer.
pub record Squelch : Type 0 where
  pub cs_threshold_req : ℤ
  pub cs_threshold_cur : ℤ
  pub cs_no_squelch : Bool
  pub rssi_register : ℕ

abbrev pub cs_samples_4 : ℕ
cs_samples_4 = 3

-- `MIN(MAX(level,-120),(-20))`
abbrev pub clamp_level : ℤ → ℤ
clamp_level level =
    let raised = if ltb_ℤ (negsuc 119) level then level else negsuc 119 in
    if ltb_ℤ raised (negsuc 19) then raised else negsuc 19

unfoldable pub cs_threshold_set : (level : ℤ) (samples : ℕ) → Squelch → Squelch
cs_threshold_set level samples s =
    let level = clamp_level level in
    record s {
      rssi_register = bit_or (bit_and (wrap 256 (level +ℤ pos 56)) 0xfc) (bit_and samples 3);
      cs_threshold_cur = level;
      cs_no_squelch = not (ltb_ℤ (negsuc 119) level);
    }

-- `rssi_iir[channel-2402]`, of 79 entries. For a channel outside the band the source reads beyond them.
abbrev pub iir_of : Rssi → (channel : ℕ) → ℤ
iir_of r channel =
    if leb 2402 channel && leb channel 2480
    then get_or r.rssi_iir (channel - 2402) (pos 0)
    else r.beyond channel

abbrev pub rssi_of : Rssi → (channel : ℕ) → ℤ
rssi_of r channel = int8 (quotient (iir_of r channel +ℤ pos 128) 256)

-- The variable `level`, of 8 bits.
unfoldable pub level_for : HopMode → (channel : ℕ) → Rssi → (req : ℤ) → ℤ
level_for mode channel r req =
    if not (is_hop_none mode) && ltb_ℤ (pos 0) req
    then int8 (rssi_of r channel -ℤ pos 54 +ℤ req)
    else req

unfoldable pub cs_threshold_calc_and_set : HopMode → (channel : ℕ) → Rssi → Squelch → Squelch
unfolding level_for cs_threshold_set
cs_threshold_calc_and_set mode channel r s =
    cs_threshold_set (level_for mode channel r s.cs_threshold_req) cs_samples_4 s
