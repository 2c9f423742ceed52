-- ===== src/Host/Callback/Strength.antt =====
-- The strength in dBm grows with what the radio measures.
use codetooth.Prelude.{
  ℕ, zero, suc, ◌+◌, ◌-◌, ◌<◌, ◌≤◌, ◌≡◌, refl, sym, ap, leb, leb→le, Bool, true, arith,
}
use codetooth.Prelude.Int.{ℤ, pos, negsuc, pos_part, neg_part, sub_ℕ, ◌+ℤ◌, ◌-ℤ◌, ◌≤ℤ◌}
use codetooth.Prelude.Table.{all_below, all_below_sound}
use codetooth.Host.Callback.{rssi_to_dbm}

-- The strength at -128, -127 and so on.
dbm : ℕ → ℤ
dbm w = rssi_to_dbm (sub_ℕ w 128)

leb_ℤ : ℤ → ℤ → Bool
leb_ℤ a b = leb (pos_part a + neg_part b) (pos_part b + neg_part a)

steps : all_below 255 (λ w. leb_ℤ (dbm w) (dbm (suc w))) ≡ true
unfolding all_below leb_ℤ dbm rssi_to_dbm ◌+ℤ◌ ◌-ℤ◌
steps = refl

one_step : (w : ℕ) → w < 255 → dbm w ≤ℤ dbm (suc w)
unfolding leb_ℤ
one_step w h = leb→le _ _ (all_below_sound 255 (λ w. leb_ℤ (dbm w) (dbm (suc w))) w steps h)

grows : (n w v : ℕ) → w + n ≡ v → v < 256 → dbm w ≤ℤ dbm v
grows zero w v e h = omega (arith, ap (λ u. pos_part (dbm u)) same, ap (λ u. neg_part (dbm u)) same)
  where
    same : w ≡ v
    same = omega arith
grows (suc n) w v e h = omega (arith, one_step w (omega arith), grows n (suc w) v (omega arith) h)

place : ℤ → ℕ
place a = pos_part (a +ℤ pos 128)

dbm-place : (a : ℤ) → negsuc 127 ≤ℤ a → dbm (place a) ≡ rssi_to_dbm a
unfolding dbm place ◌+ℤ◌
dbm-place a low = let e : sub_ℕ (pos_part (a +ℤ pos 128)) 128 ≡ a = ground arith in ap rssi_to_dbm e

ends : (negsuc 119 ≤ℤ dbm 0) × (dbm 255 ≤ℤ pos 0)
unfolding dbm rssi_to_dbm ◌+ℤ◌ ◌-ℤ◌
ends = ground arith

-- Over the values of int8_t the strength in dBm lies between -120 and 0, and a stronger reading
-- never gives a weaker one.
pub rssi_to_dbm_grows :
    (a b : ℤ)
    → negsuc 127 ≤ℤ a
    → a ≤ℤ b
    → b ≤ℤ pos 127
    → (rssi_to_dbm a ≤ℤ rssi_to_dbm b) × (negsuc 119 ≤ℤ rssi_to_dbm a) × (rssi_to_dbm b ≤ℤ pos 0)
unfolding place ◌+ℤ◌
rssi_to_dbm_grows a b low le high =
    let pa = dbm-place a low in
    let pb = dbm-place b (omega arith) in
    let below : place a ≤ place b = ground arith in
    let small : place b < 256 = ground arith in
    let mid = grows (place b - place a) (place a) (place b) (omega (arith, below)) small in
    let first = grows (place a) 0 (place a) (omega arith) (omega (arith, below, small)) in
    let last = grows (255 - place b) (place b) 255 (omega (arith, small)) (omega arith) in
    rw (sym pa, sym pb) (mid, omega (arith, first, ends.0), omega (arith, last, ends.1))
