-- ===== src/Firmware/Rssi/Average.antt =====
-- The running average of rssi_iir_update stays where the averages of the packets are.
use codetooth.Prelude.{◌+◌, ◌*◌, ◌≤◌, ◌≡◌, arith}
use codetooth.Prelude.Int.{
  ℤ, pos, negsuc, pos_part, neg_part, ◌+ℤ◌, ◌≤ℤ◌, scale, quotient, int16, int_laws, scale_parts,
}
use codetooth.Firmware.Rssi.{iir_next}

-- The cut towards 0 never takes a quotient below a bound that the whole keeps, and lifts it by less
-- than 1.
quotient_between :
    (lo hi z : ℤ)
    → pos_part lo * 256 + neg_part z ≤ neg_part lo * 256 + pos_part z
    → pos_part z + neg_part hi * 256 ≤ pos_part hi * 256 + neg_part z + 128
    → (lo ≤ℤ quotient z 256) × (quotient z 256 ≤ℤ (hi +ℤ pos 1))
unfolding ◌+ℤ◌
quotient_between (pos lo) (pos hi) (pos z) low high = ground arith
quotient_between (pos lo) (pos hi) (negsuc z) low high = ground arith
quotient_between (pos lo) (negsuc hi) (pos z) low high = ground arith
quotient_between (pos lo) (negsuc hi) (negsuc z) low high = ground arith
quotient_between (negsuc lo) (pos hi) (pos z) low high = ground arith
quotient_between (negsuc lo) (pos hi) (negsuc z) low high = ground arith
quotient_between (negsuc lo) (negsuc hi) (pos z) low high = ground arith
quotient_between (negsuc lo) (negsuc hi) (negsuc z) low high = ground arith

int16_fits : (z : ℤ) → negsuc 32767 ≤ℤ z → z ≤ℤ pos 32767 → int16 z ≡ z
int16_fits (pos n) low high = ground arith
int16_fits (negsuc n) low high = ground arith

acc_between :
    (lo hi old avg : ℤ)
    → (lo ≤ℤ old) × (old ≤ℤ hi)
    → (lo ≤ℤ avg) × (avg ≤ℤ hi)
    → (lo ≤ℤ quotient (scale old 253 +ℤ scale avg 3 +ℤ pos 128) 256)
      × (quotient (scale old 253 +ℤ scale avg 3 +ℤ pos 128) 256 ≤ℤ (hi +ℤ pos 1))
acc_between lo hi old avg o a =
    quotient_between lo hi (scale old 253 +ℤ scale avg 3 +ℤ pos 128)
      (omega (int_laws, scale_parts old 253, scale_parts avg 3))
      (omega (int_laws, scale_parts old 253, scale_parts avg 3))

-- Where the old entry and the average of a packet lie in lo … hi, a range that with one more than
-- hi fits in int16_t, the new entry lies in lo … hi + 1: the cast loses nothing. (The division cuts
-- towards 0, so a negative entry may creep up by one.)
pub iir_next_between :
    (lo hi old avg : ℤ)
    → negsuc 32767 ≤ℤ lo
    → hi ≤ℤ pos 32766
    → (lo ≤ℤ old) × (old ≤ℤ hi)
    → (lo ≤ℤ avg) × (avg ≤ℤ hi)
    → (lo ≤ℤ iir_next old avg) × (iir_next old avg ≤ℤ (hi +ℤ pos 1))
unfolding iir_next
iir_next_between lo hi old avg low high o a =
    let b = acc_between lo hi old avg o a in
    let fits =
      int16_fits (quotient (scale old 253 +ℤ scale avg 3 +ℤ pos 128) 256) (omega (int_laws, b.0))
        (omega (int_laws, b.1)) in
    rw fits b
