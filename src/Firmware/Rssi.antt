-- ===== src/Firmware/Rssi.antt =====
-- rssi_reset, rssi_add and rssi_iir_update: the signal strength while a packet is received. A value
-- of type int8_t is the integer that it stands for.
pub mod Samples
pub mod Average
use codetooth.Prelude.{ℕ, ◌+◌, ◌-◌, u8, ◌==◌, if◌then◌else◌, List, get_or, set}
use codetooth.Prelude.Int.{ℤ, pos, negsuc, ◌+ℤ◌, scale, quotient, int16, ltb_ℤ}
use codetooth.Firmware.State.{HopMode, Rssi, is_hop_none}

unfoldable pub rssi_reset : Rssi → Rssi
rssi_reset r = record r {
  rssi_count = 0;
  rssi_sum = pos 0;
  rssi_max = negsuc 127;
  rssi_min = pos 127;
}

unfoldable pub rssi_add : ℤ → Rssi → Rssi
rssi_add v r = record r {
  rssi_max = (if ltb_ℤ r.rssi_max v then v else r.rssi_max);
  rssi_min = (if ltb_ℤ v r.rssi_min then v else r.rssi_min);
  rssi_sum = r.rssi_sum +ℤ scale v 256;
  rssi_count = u8 (r.rssi_count + 1);
}

abbrev pub rssi_iir_alpha : ℕ
rssi_iir_alpha = 3

-- The filter itself: `acc` rounded and cut to 16 bits.
unfoldable pub iir_next : (old avg : ℤ) → ℤ
iir_next old avg =
    int16 (quotient (scale old (256 - rssi_iir_alpha) +ℤ scale avg rssi_iir_alpha +ℤ pos 128) 256)

unfoldable pub average : Rssi → ℤ
average r = if r.rssi_count == 0 then pos 0 else quotient (r.rssi_sum +ℤ pos 128) r.rssi_count

-- The slot of the array: the channel, or the first where there is no hopping.
abbrev pub iir_slot : HopMode → (channel : ℕ) → ℕ
iir_slot mode channel = if is_hop_none mode then 0 else channel - 2402

unfoldable pub rssi_iir_update : HopMode → (channel : ℕ) → Rssi → Rssi
unfolding iir_next average
rssi_iir_update mode channel r =
    let i = iir_slot mode channel in
    record r { rssi_iir = set r.rssi_iir i (iir_next (get_or r.rssi_iir i (pos 0)) (average r)) }
