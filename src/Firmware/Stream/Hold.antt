-- ===== src/Firmware/Stream/Hold.antt =====
-- How long bt_generic_le goes on looking at the buffers after a trigger.
use codetooth.Prelude.{
  ℕ, ◌-◌, ◌≡◌, refl, ap, ◌==◌, if◌then◌else◌, Bool, true, false, not, ◌||◌, Bool-cases, inl, inr,
  List, [], ◌∷◌, arith,
}
use codetooth.Firmware.Rssi.{rssi_iir_update}
use codetooth.Firmware.Stream.{Stream, end_round, generic_round, hold_for, is_sensed, is_loud}

-- The rounds of bt_generic_le. Each starts from what came of the one before in data_cb, in a hop and
-- while it waited, which is any function of the state. `looked_at` of each round with a transfer is
-- noted.
pub looks : (hold : ℕ) → List (Stream → Stream) → Stream → List Bool
looks hold [] r = []
looks hold (waited ∷ rounds) r =
    let h = generic_round hold (waited r) in
    let rest = looks h.hold rounds (end_round h.stream) in
    if (waited r).rx_tc == 0 then rest else h.looked_at ∷ rest

-- Whether the squelch lets a round pass. The average strength, which is brought up to date before the
-- tests, is not part of them.
abbrev pub passes : Stream → Bool
passes r = is_sensed r || is_loud r

-- Which rounds with a transfer pass by themselves.
pub triggers : (hold : ℕ) → List (Stream → Stream) → Stream → List Bool
triggers hold [] r = []
triggers hold (waited ∷ rounds) r =
    let h = generic_round hold (waited r) in
    let rest = triggers h.hold rounds (end_round h.stream) in
    if (waited r).rx_tc == 0 then rest else passes (waited r) ∷ rest

-- A buffer is worth looking at if it, or the one before it, passed.
pub this_or_last : (last : Bool) → List Bool → List Bool
this_or_last last [] = []
this_or_last last (t ∷ ts) = (t || last) ∷ this_or_last t ts

abbrev kept : Bool → ℕ
kept last = if last then 1 else 0

one_less : (p last : Bool) → (if p then 2 else kept last) - 1 ≡ kept p
one_less p last = ground arith

not_over : (p last : Bool) → not ((if p then 2 else kept last) == 0) ≡ (p || last)
not_over p last = ground arith

module _ (last : Bool) (r : Stream) (some_transfer : (r.rx_tc == 0) ≡ false) where
  hold_after : (generic_round (kept last) r).hold ≡ kept (passes r)
  unfolding generic_round hold_for rssi_iir_update
  hold_after = rw some_transfer (one_less (passes r) last)

  looked_after : (generic_round (kept last) r).looked_at ≡ (passes r || last)
  unfolding generic_round hold_for rssi_iir_update
  looked_after = rw some_transfer (not_over (passes r) last)

module _ (last : Bool) (r : Stream) (no_transfer : (r.rx_tc == 0) ≡ true) where
  hold_stays : (generic_round (kept last) r).hold ≡ kept last
  unfolding generic_round
  hold_stays = rw no_transfer refl

looks-kept :
    (last : Bool) (rounds : List (Stream → Stream)) (r : Stream)
    → looks (kept last) rounds r ≡ this_or_last last (triggers (kept last) rounds r)
unfolding looks triggers this_or_last
looks-kept last [] r = refl
looks-kept last (waited ∷ rounds) r = elim (Bool-cases ((waited r).rx_tc == 0)) [
  | inl no_transfer ↦
      let e = hold_stays last (waited r) no_transfer in
      rw (no_transfer, e)
        (looks-kept last rounds (end_round (generic_round (kept last) (waited r)).stream))
  | inr some_transfer ↦
      let e = hold_after last (waited r) some_transfer in
      rw (some_transfer, e, looked_after last (waited r) some_transfer)
        (ap (λ ts. (passes (waited r) || last) ∷ ts)
          (looks-kept (passes (waited r)) rounds
            (end_round (generic_round (kept last) (waited r)).stream)))
]

-- From its start bt_generic_le looks at the buffer of a transfer exactly where that buffer, or the
-- one of the transfer before, passed the squelch: by the carrier sense, by no squelch, or by its
-- strength. Rounds that end without a transfer do not count.
pub looks_lem :
    (rounds : List (Stream → Stream)) (r : Stream)
    → looks 0 rounds r ≡ this_or_last false (triggers 0 rounds r)
looks_lem rounds r = looks-kept false rounds r
