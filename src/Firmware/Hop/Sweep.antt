-- ===== src/Firmware/Hop/Sweep.antt =====
-- Sweeping comes round to every channel of the band, and so finds one that the map allows.
use codetooth.Prelude.{
  ℕ, zero, suc, ◌+◌, ◌-◌, ◌*◌, ◌%◌, ◌<◌, ◌≤◌, ◌≡◌, ◌≢◌, refl, sym, ap, ◌∙◌, ◌==◌, Bool, true, false,
  not, Option, some, Bool-cases, inl, inr, arith,
}
use native.Mathlib.Decide.{dec_lt}
use codetooth.Classic.State.{Classic}
use codetooth.Firmware.State.{Firmware, hop_sweep, hop_afh}
use codetooth.Firmware.Hop.{next_swept, in_map, sweep, skips_unused, skips_used, hop}

pub record InBand (channel : ℕ) : Type 0 where
  pub low : 2402 ≤ channel
  pub high : channel ≤ 2480

-- The channel `n` places on in the order of a sweep.
abbrev swept : (n channel : ℕ) → ℕ
swept n channel = 2402 + (channel - 2402 + 32 * n) % 79

next_swept_lem : (channel : ℕ) → InBand channel → next_swept channel ≡ swept 1 channel
unfolding next_swept
next_swept_lem channel h = ground arith

swept-InBand : (n channel : ℕ) → InBand (swept n channel)
swept-InBand n channel = record { low = omega arith; high = omega arith }

swept-suc : (n channel : ℕ) → swept n (swept 1 channel) ≡ swept (suc n) channel
swept-suc n channel = omega arith

-- How many places on a channel of the band lies: 42 is the inverse of 32 modulo 79.
abbrev distance : (from to : ℕ) → ℕ
distance from to = (to + 79 - from) * 42 % 79

swept-distance : (from to : ℕ) → InBand from → InBand to → swept (distance from to) from ≡ to
swept-distance from to h h' = omega (arith, h.low, h.high, h'.low, h'.high)

-- What a sweep that ends has found.
record Finds (again : ℕ → Bool) (result : Option ℕ) : Type 0 where
  channel : ℕ
  found : result ≡ some channel
  allowed : again channel ≡ false
  in_band : InBand channel

stops-Finds :
    (fuel : ℕ) (again : ℕ → Bool) (channel : ℕ)
    → InBand channel
    → again (swept 1 channel) ≡ false
    → Finds again (sweep (suc fuel) again channel)
unfolding sweep
stops-Finds fuel again channel h stop =
    rw (next_swept_lem channel h, stop)
      (record {
        channel = swept 1 channel;
        found = refl;
        allowed = stop;
        in_band = swept-InBand 1 channel;
      })

sweep-Finds :
    (fuel k : ℕ) (again : ℕ → Bool) (channel : ℕ)
    → InBand channel
    → k < fuel
    → again (swept (suc k) channel) ≡ false
    → Finds again (sweep fuel again channel)
unfolding sweep
sweep-Finds zero k again channel h few allowed = absurd (omega arith)
sweep-Finds (suc fuel) zero again channel h few allowed = stops-Finds fuel again channel h allowed
sweep-Finds (suc fuel) (suc k) again channel h few allowed =
    elim (Bool-cases (again (swept 1 channel))) [
      | inr stop ↦ stops-Finds fuel again channel h stop
      | inl on ↦
          rw (next_swept_lem channel h, on)
            (sweep-Finds fuel k again (swept 1 channel) (swept-InBand 1 channel) (omega arith)
              (ap again (swept-suc (suc k) channel) ∙ allowed))
    ]

-- From anywhere in the band a sweep of 79 rounds finds a channel that is allowed, if there is one.
sweep_all-Finds :
    (again : ℕ → Bool) (from to : ℕ)
    → InBand from
    → InBand to
    → again to ≡ false
    → Finds again (sweep 79 again from)
sweep_all-Finds again from to h h' allowed = elim (dec_lt 0 (distance from to)) [
  | yes apart ↦
      let count : suc (distance from to - 1) ≡ distance from to = omega arith in
      sweep-Finds 79 (distance from to - 1) again from h (omega arith) (
        ap (λ (n : ℕ). again (swept n from)) count
        ∙ ap again (swept-distance from to h h')
        ∙ allowed)
  | no here ↦
      let round : swept 79 from ≡ to = omega (arith, swept-distance from to h h', h.low, h.high) in
      sweep-Finds 79 78 again from h (omega arith) (ap again round ∙ allowed)
]

skips_unused_lem :
    (c : Classic) (channel : ℕ)
    → c.afh_enabled ≡ true
    → c.used_channels ≢ 0
    → skips_unused c channel ≡ not (in_map c channel)
unfolding skips_unused
skips_unused_lem c channel on some_used =
    let counted : (c.used_channels == 0) ≡ false = ground arith in rw (counted, on)

skips_used_lem :
    (c : Classic) (channel : ℕ) → c.used_channels ≢ 79 → skips_used c channel ≡ in_map c channel
unfolding skips_used
skips_used_lem c channel some_left =
    let counted : (c.used_channels == 79) ≡ false = ground arith in rw counted

-- The state after a hop of the sweeping modes.
abbrev pub tuned_to : ℕ → Firmware → Firmware
tuned_to channel s = record s {
  radio = record (s.radio) {
    channel = channel;
    do_hop = false;
    last_hop = s.clock.clkn;
    dma_discard = true;
  };
}

not-false : (b : Bool) → not b ≡ false → b ≡ true
not-false true h = refl
not-false false h = cc

-- In the sweeping mode, with adaptive hopping enabled, a map that has a channel of the band and a count
-- of its channels that is not 0, and from a channel of the band (2402 to 2480), hop ends and tunes to a
-- channel of the band that is in the map.
pub hop_sweep_used :
    (fsdiv used : ℕ) (c : Classic) (s : Firmware)
    → s.radio.hop_mode ≡ hop_sweep
    → InBand s.radio.channel
    → c.afh_enabled ≡ true
    → c.used_channels ≢ 0
    → InBand used
    → in_map c used ≡ true
    → (channel : ℕ) × (hop fsdiv c s ≡ some (channel - 1, tuned_to channel s))
      × (in_map c channel ≡ true)
      × InBand channel
unfolding hop
hop_sweep_used fsdiv used c s mode band on some_used inside has =
    let allowed = skips_unused_lem c used on some_used ∙ ap not has in
    let r = sweep_all-Finds (skips_unused c) s.radio.channel used band inside allowed in
    let kept = sym (skips_unused_lem c r.channel on some_used) ∙ r.allowed in
    (r.channel, rw (mode, r.found) refl, not-false _ kept, r.in_band)

-- In the mode that looks for unused channels, with a map that leaves a channel of the band out and a
-- count of its channels that is not 79, and from a channel of the band (2402 to 2480), hop ends and tunes
-- to a channel of the band that the map leaves out.
pub hop_afh_unused :
    (fsdiv free : ℕ) (c : Classic) (s : Firmware)
    → s.radio.hop_mode ≡ hop_afh
    → InBand s.radio.channel
    → c.used_channels ≢ 79
    → InBand free
    → in_map c free ≡ false
    → (channel : ℕ) × (hop fsdiv c s ≡ some (channel - 1, tuned_to channel s))
      × (in_map c channel ≡ false)
      × InBand channel
unfolding hop
hop_afh_unused fsdiv free c s mode band some_left inside lacks =
    let allowed = skips_used_lem c free some_left ∙ lacks in
    let r = sweep_all-Finds (skips_used c) s.radio.channel free band inside allowed in
    let left_out = sym (skips_used_lem c r.channel some_left) ∙ r.allowed in
    (r.channel, rw (mode, r.found) refl, left_out, r.in_band)
