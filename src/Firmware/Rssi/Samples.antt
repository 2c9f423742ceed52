-- ===== src/Firmware/Rssi/Samples.antt =====
-- What the counters say of the samples taken since rssi_reset.
use codetooth.Prelude.{
  ℕ, suc, ◌+◌, ◌<◌, ◌≡◌, refl, ap, ◌∙◌, u8, List, [], ◌∷◌, length, All, arith, ◌⊎◌, inl, inr, some,
  get_elem?, ap, sym,
}
use codetooth.Prelude.Int.{ℤ, pos, negsuc, ◌+ℤ◌, ◌≤ℤ◌, scale, int_laws, scale_parts}
use codetooth.Firmware.State.{Rssi}
use codetooth.Firmware.Rssi.{rssi_reset, rssi_add}

-- The samples in the order taken.
unfoldable pub add_all : List ℤ → Rssi → Rssi
add_all [] r = r
add_all (v ∷ vs) r = add_all vs (rssi_add v r)

pub total : List ℤ → ℤ
total [] = pos 0
total (v ∷ vs) = v +ℤ total vs

-- Every sample lies between the two bounds.
abbrev pub Within : ℤ → ℤ → List ℤ → Type 0
Within lo hi vs = All (λ v. (lo ≤ℤ v) × (v ≤ℤ hi)) vs

-- One of the samples.
abbrev pub Taken : ℤ → List ℤ → Type 0
Taken v vs = (i : ℕ) × (get_elem? vs i ≡ some v)

-- After the samples `vs`.
pub record Sampled (start : Rssi) (vs : List ℤ) (r : Rssi) : Type 0 where
  pub counted : r.rssi_count ≡ u8 (start.rssi_count + length vs)
  pub summed : r.rssi_sum ≡ start.rssi_sum +ℤ scale (total vs) 256
  pub between : Within r.rssi_min r.rssi_max vs
  pub lower : r.rssi_min ≤ℤ start.rssi_min
  pub upper : start.rssi_max ≤ℤ r.rssi_max
  pub max_taken : (r.rssi_max ≡ start.rssi_max) ⊎ Taken r.rssi_max vs
  pub min_taken : (r.rssi_min ≡ start.rssi_min) ⊎ Taken r.rssi_min vs

module _ (v : ℤ) (r : Rssi) where
  one : (rssi_add v r).rssi_count ≡ u8 (r.rssi_count + 1)
  unfolding rssi_add
  one = refl

  one_sum : (rssi_add v r).rssi_sum ≡ r.rssi_sum +ℤ scale v 256
  unfolding rssi_add
  one_sum = refl

  one_low : ((rssi_add v r).rssi_min ≤ℤ v) × ((rssi_add v r).rssi_min ≤ℤ r.rssi_min)
  unfolding rssi_add
  one_low = ground arith

  one_high : (v ≤ℤ (rssi_add v r).rssi_max) × (r.rssi_max ≤ℤ (rssi_add v r).rssi_max)
  unfolding rssi_add
  one_high = ground arith

  one_min : ((rssi_add v r).rssi_min ≡ v) ⊎ ((rssi_add v r).rssi_min ≡ r.rssi_min)
  unfolding rssi_add
  one_min = ground arith

  one_max : ((rssi_add v r).rssi_max ≡ v) ⊎ ((rssi_add v r).rssi_max ≡ r.rssi_max)
  unfolding rssi_add
  one_max = ground arith

-- What is left in a register is the first sample, an older value or a later sample.
one-Taken :
    {v m m' old : ℤ} (vs : List ℤ)
    → (m ≡ v) ⊎ (m ≡ old)
    → (m' ≡ m) ⊎ Taken m' vs
    → (m' ≡ old) ⊎ Taken m' (v ∷ vs)
one-Taken vs here (inr (i, h)) = inr (suc i, h)
one-Taken vs (inl e) (inl k) = inr (0, ap some (sym (k ∙ e)))
one-Taken vs (inr e) (inl k) = inl (k ∙ e)

add_all-Sampled : (vs : List ℤ) (r : Rssi) → r.rssi_count < 256 → Sampled r vs (add_all vs r)
unfolding add_all total
add_all-Sampled [] r small = record {
  counted = omega arith;
  summed = omega (int_laws, scale_parts (pos 0) 256);
  between = tt;
  lower = omega arith;
  upper = omega arith;
  max_taken = inl refl;
  min_taken = inl refl;
}
add_all-Sampled (v ∷ vs) r small =
    let r' : Rssi = rssi_add v r in
    let rest = add_all-Sampled vs r' (omega (arith, one v r)) in
    record {
      counted = omega (arith, rest.counted, one v r);
      summed =
          rest.summed
          ∙ ap (λ s. s +ℤ scale (total vs) 256) (one_sum v r)
          ∙ omega (
            int_laws,
            scale_parts v 256,
            scale_parts (total vs) 256,
            scale_parts (v +ℤ total vs) 256,
          );
      between = (
        (omega (arith, rest.lower, one_low v r), omega (arith, rest.upper, one_high v r)),
        rest.between,
      );
      lower = omega (arith, rest.lower, one_low v r);
      upper = omega (arith, rest.upper, one_high v r);
      max_taken = one-Taken vs (one_max v r) rest.max_taken;
      min_taken = one-Taken vs (one_min v r) rest.min_taken;
    }

-- The registers after a reset and a sample or more.
pub record Measured (v : ℤ) (vs : List ℤ) (r : Rssi) : Type 0 where
  pub count_is : r.rssi_count ≡ u8 (1 + length vs)
  pub sum_is : r.rssi_sum ≡ scale (total (v ∷ vs)) 256
  pub all_between : Within r.rssi_min r.rssi_max (v ∷ vs)
  pub max_is_one : Taken r.rssi_max (v ∷ vs)
  pub min_is_one : Taken r.rssi_min (v ∷ vs)

-- A register that kept its first value, an end of the range, equals the first sample.
at_end : {v m e : ℤ} (vs : List ℤ) → (m ≡ e → m ≡ v) → (m ≡ e) ⊎ Taken m (v ∷ vs) → Taken m (v ∷ vs)
at_end vs tight (inl k) = (0, ap some (sym (tight k)))
at_end vs tight (inr t) = t

tight_max : (m v : ℤ) → m ≡ negsuc 127 → v ≤ℤ m → negsuc 127 ≤ℤ v → m ≡ v
tight_max m v k low high = ground arith

tight_min : (m v : ℤ) → m ≡ pos 127 → m ≤ℤ v → v ≤ℤ pos 127 → m ≡ v
tight_min m v k low high = ground arith

-- After a reset, one sample v and more samples vs, all within the range of int8_t: the count is
-- their number modulo 256, the sum is 256 times their total, every one lies between the minimum
-- and the maximum, and the minimum and the maximum are each one of the samples.
pub rssi_add_measures :
    (v : ℤ) (vs : List ℤ) (r : Rssi)
    → Within (negsuc 127) (pos 127) (v ∷ vs)
    → Measured v vs (add_all (v ∷ vs) (rssi_reset r))
unfolding rssi_reset
rssi_add_measures v vs r range =
    let m = add_all-Sampled (v ∷ vs) (rssi_reset r) (omega arith) in
    record {
      count_is = omega (arith, m.counted);
      sum_is = m.summed ∙ omega int_laws;
      all_between = m.between;
      max_is_one = at_end vs (λ k. tight_max _ v k m.between.0.1 range.0.0) m.max_taken;
      min_is_one = at_end vs (λ k. tight_min _ v k m.between.0.0 range.0.1) m.min_taken;
    }
