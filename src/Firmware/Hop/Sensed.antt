-- ===== src/Firmware/Hop/Sensed.antt =====
-- The end of hop: the carrier sense threshold of the channel that it tuned to.
use codetooth.Prelude.{ℕ, ◌-◌, get_or, if◌then◌else◌, Option, none, some}
use codetooth.Prelude.Int.{ℤ, pos, ltb_ℤ, ◌+ℤ◌, ◌-ℤ◌, quotient, int8}
use codetooth.Classic.State.{Classic}
use codetooth.Firmware.State.{Firmware, is_hop_none}
use codetooth.Firmware.Hop.{hop}
use codetooth.Firmware.Squelch.{Squelch, cs_threshold_calc_and_set}

-- `if (hop_mode > 0) cs_threshold_calc_and_set()`. Where hop returns early, hop_mode is 0.
unfoldable pub sense_level : Firmware → Squelch → Squelch
sense_level s q =
    if is_hop_none s.radio.hop_mode
    then q
    else cs_threshold_calc_and_set s.radio.hop_mode s.radio.channel s.rssi q

abbrev pub sensed : Squelch → Option (ℕ × Firmware) → Option (ℕ × Firmware × Squelch)
sensed q none = none
sensed q (some (fsdiv, s)) = some (fsdiv, s, sense_level s q)

-- hop with the state of the squelch.
unfoldable pub hop_sensed :
    (fsdiv : ℕ) → Classic → Firmware → Squelch → Option (ℕ × Firmware × Squelch)
unfolding hop sense_level
hop_sensed fsdiv c s q = sensed q (hop fsdiv c s)

-- The average strength of a channel of the band, which rssi_iir holds in units of 1/256, rounded.
abbrev pub strength : Firmware → ℤ
strength s =
    int8 (quotient (get_or s.rssi.rssi_iir (s.radio.channel - 2402) (pos 0) +ℤ pos 128) 256)

-- The level that a request asks for.
abbrev pub asked_level : (requested : ℤ) → Firmware → ℤ
asked_level requested s =
    if ltb_ℤ (pos 0) requested then int8 (strength s -ℤ pos 54 +ℤ requested) else requested
