-- ===== src/Le/Channel/Laws.antt =====
-- Indices and frequencies correspond, and hopping goes round all data channels.
use codetooth.Prelude.{
  ℕ, sym, get_or, ◌==◌, ==_iff, zero, suc, ◌+◌, ◌-◌, ◌*◌, ◌%◌, ◌<◌, ◌≡◌, ◌≢◌, refl, ap, ◌∙◌, true,
  arith, ltb, ltb→lt,
}
use codetooth.Prelude.Table.{all_below, all_below_sound}
use codetooth.Le.State.{LeState}
use codetooth.Le.Tables.{hop_interval_lut}
use codetooth.Le.Channel.{channel_index, channel_index_to_phys, btle_next_hop}
use native.Mathlib.Nat.{mod-add-mod}

-- From the index of a channel to its frequency and back.
pub channel_index-phys :
    (idx : ℕ) → idx < 40 → channel_index (channel_index_to_phys idx - 2402) ≡ idx
unfolding channel_index channel_index_to_phys
channel_index-phys idx h = ground arith

-- From a frequency in the band, 2402 + 2k MHz, to its index and back.
pub phys-channel_index :
    (k : ℕ) → k < 40 → channel_index_to_phys (channel_index (2 * k)) ≡ 2402 + 2 * k
unfolding channel_index channel_index_to_phys
phys-channel_index k h = ground arith

-- The state after `n` hops.
pub hops : ℕ → LeState → LeState
hops zero le = le
hops (suc n) le = hops n (btle_next_hop le).1

pub hops_increment : (n : ℕ) (le : LeState) → (hops n le).channel_increment ≡ le.channel_increment
unfolding hops btle_next_hop
hops_increment zero le = refl
hops_increment (suc n) le = hops_increment n (btle_next_hop le).1

pub hops_channel :
    (n : ℕ) (le : LeState)
    → le.channel_idx < 37
    → (hops n le).channel_idx ≡ (le.channel_idx + n * le.channel_increment) % 37
unfolding hops btle_next_hop
hops_channel zero le h = omega arith
hops_channel (suc n) le h =
    hops_channel n (btle_next_hop le).1 (omega arith)
    ∙ mod-add-mod (le.channel_idx + le.channel_increment) 37 (n * le.channel_increment)
    ∙ ap (λ (t : ℕ). t % 37) (grind arith)

-- No multiple of a step below 37 comes back to 0 before the 37th.
step_table : all_below 36 (λ m. all_below 36 (λ i. ltb 0 (suc m * suc i % 37))) ≡ true
unfolding all_below
step_table = refl

step_ne : (m i : ℕ) → m < 37 → i < 37 → 0 < m → 0 < i → 0 < m * i % 37
step_ne zero i hm hi pm pi = absurd (omega arith)
step_ne (suc m) zero hm hi pm pi = absurd (omega arith)
step_ne (suc m) (suc i) hm hi pm pi = ltb→lt _ _ (
    all_below_sound 36 (λ i. ltb 0 (suc m * suc i % 37)) i
      (all_below_sound 36 _ m step_table (omega arith)) (omega arith))

channels_distinct :
    (m d : ℕ) (le : LeState)
    → le.channel_idx < 37
    → 0 < le.channel_increment
    → le.channel_increment < 37
    → 0 < d
    → d < 37
    → (hops m le).channel_idx ≢ (hops (m + d) le).channel_idx
channels_distinct m d le h pi hi pd hd same =
    let split : (m + d) * le.channel_increment
        ≡ m * le.channel_increment + d * le.channel_increment =
      grind arith in
    omega (
      arith,
      same,
      split,
      hops_channel m le h,
      hops_channel (m + d) le h,
      step_ne d le.channel_increment hd hi pd pi,
    )

hops_below : (n : ℕ) (le : LeState) → le.channel_idx < 37 → (hops n le).channel_idx < 37
hops_below n le h = omega (arith, hops_channel n le h)

-- The frequency that the next hop tunes to.
abbrev pub next_frequency : LeState → ℕ
next_frequency le = (btle_next_hop le).0

-- From a data channel (index below 37), with a hop increment from 1 to 36, two hops less than 37 apart
-- tune to different frequencies.
pub hops_distinct :
    (m d : ℕ) (le : LeState)
    → le.channel_idx < 37
    → 0 < le.channel_increment
    → le.channel_increment < 37
    → 0 < d
    → d < 37
    → next_frequency (hops m le) ≢ next_frequency (hops (m + d) le)
unfolding btle_next_hop
hops_distinct m d le h pi hi pd hd same =
    let before = hops_below m le h in
    let after = hops_below (m + d) le h in
    channels_distinct m d le h pi hi pd hd (
      sym (channel_index-phys (hops m le).channel_idx (omega arith))
      ∙ ap (λ (f : ℕ). channel_index (f - 2402)) same
      ∙ channel_index-phys (hops (m + d) le).channel_idx (omega arith))

-- Multiples of a step reach every remainder.
reach_table :
    all_below 37
      (λ t. all_below 36 (λ i. t * get_or hop_interval_lut (suc i) 0 % 37 * suc i % 37 == t))
    ≡ true
unfolding all_below
reach_table = refl

reached : (t i : ℕ) → t < 37 → i < 37 → 0 < i → t * get_or hop_interval_lut i 0 % 37 * i % 37 ≡ t
reached t zero ht hi pi = absurd (omega arith)
reached t (suc i) ht hi pi =
    let row =
      all_below_sound 36 (λ i. t * get_or hop_interval_lut (suc i) 0 % 37 * suc i % 37 == t) i
        (all_below_sound 37 _ t reach_table ht) (omega arith) in
    (==_iff _ t).0 row

-- From a data channel (index below 37), with a hop increment from 1 to 36, each of the 37 data channels,
-- which are those of 2404 to 2478 MHz but 2426, is tuned to by one of 37 hops in a row.
pub hops_visit :
    (k : ℕ) (le : LeState)
    → le.channel_idx < 37
    → 0 < le.channel_increment
    → le.channel_increment < 37
    → 0 < k
    → k < 39
    → k ≢ 12
    → (n : ℕ) × (n < 37) × (next_frequency (hops n le) ≡ 2402 + 2 * k)
unfolding btle_next_hop
hops_visit k le h pi hi low high other =
    let target = channel_index (2 * k) in
    let data_channel : target < 37 = unfold channel_index in ground arith in
    let t = (target + 37 - le.channel_idx) % 37 in
    let n = t * get_or hop_interval_lut le.channel_increment 0 % 37 in
    let there : (hops n le).channel_idx ≡ target =
      omega (arith, hops_channel n le h, reached t le.channel_increment (omega arith) hi pi) in
    (n, omega arith, ap channel_index_to_phys there ∙ phys-channel_index k (omega arith))
