-- ===== src/Firmware/Timer/Interval.antt =====
-- How often a connection hops.
use codetooth.Prelude.{
  ℕ, ltb, ◌||◌, ap₂, sym, zero, suc, ◌+◌, ◌/◌, ◌%◌, ◌<◌, ◌≡◌, refl, ap, ◌∙◌, u32, sub32, ◌==◌,
  if◌then◌else◌, Bool, true, false, arith, Bool-cases, inl, inr,
}
use native.Mathlib.Decide.{dec_lt}
use codetooth.Prelude.Bits.{and-mask}
use codetooth.Le.State.{LeState, connected}
use codetooth.Firmware.State.{Firmware, hop_btle}
use codetooth.Firmware.Timer.{interval_tick, trigger, advance, timer0_irq_handler}
use codetooth.Firmware.Timer.Ticks.{
  interval_ticks, ended, InInterval, interval_ticks_lem, ended_lem,
}

-- A connection whose timer interrupts are counted: `phase` of them since its last tick.
pub record Ticking (phase : ℕ) (s : Firmware) : Type 0 where
  pub by_btle : s.radio.hop_mode ≡ hop_btle
  pub linked : s.le.link_state ≡ connected
  pub no_offset : s.clock.clkn_offset ≡ 0
  pub clkn_range : s.clock.clkn < 4294967296
  pub epoch_range : s.le.conn_epoch < 4294967296
  pub in_phase : sub32 s.clock.clkn s.le.conn_epoch % 4 ≡ phase

phase_step :
    (clkn epoch phase : ℕ)
    → clkn < 4294967296
    → epoch < 4294967296
    → sub32 clkn epoch % 4 ≡ phase
    → sub32 (u32 (clkn + 0 + 1)) epoch % 4 ≡ (phase + 1) % 4
phase_step clkn epoch phase hc he e = omega arith

abbrev moved : Firmware → Firmware
moved s = record s { clock = advance s.clock }

irq_le :
    (s : Firmware)
    → s.radio.hop_mode ≡ hop_btle
    → (timer0_irq_handler true s).le ≡ (trigger hop_btle (moved s)).1
unfolding timer0_irq_handler
irq_le s e = ap (λ m. (trigger m (moved s)).1) e

trigger_linked :
    (s : Firmware)
    → s.le.link_state ≡ connected
    → trigger hop_btle s
      ≡ (if sub32 s.clock.clkn s.le.conn_epoch % 4 == 0 then interval_tick s.le else (false, s.le))
unfolding trigger
trigger_linked s e = rw (e, and-mask 2 (sub32 s.clock.clkn s.le.conn_epoch))

tick_keeps :
    (le : LeState)
    → ((interval_tick le).1.link_state ≡ le.link_state)
      × ((interval_tick le).1.conn_epoch ≡ le.conn_epoch)
unfolding interval_tick
tick_keeps le = ground arith

if_ticked :
    (b : Bool) (tick : Bool × LeState) (le : LeState)
    → (if b then tick else (false, le)).1 ≡ (if b then tick.1 else le)
if_ticked true tick le = refl
if_ticked false tick le = refl

if_asked :
    (b : Bool) (tick : Bool × LeState) (le : LeState)
    → (if b then tick else (false, le)).0 ≡ (if b then tick.0 else false)
if_asked true tick le = refl
if_asked false tick le = refl

-- The ticks among the interrupts up to one: none or one.
abbrev tick_now : ℕ → LeState → LeState
tick_now phase le = if (phase + 1) % 4 == 0 then (interval_tick le).1 else le

abbrev hop_now : ℕ → LeState → Bool
hop_now phase le = if (phase + 1) % 4 == 0 then (interval_tick le).0 else false

irq_lem :
    (phase : ℕ) (s : Firmware)
    → Ticking phase s
    → ((timer0_irq_handler true s).le ≡ tick_now phase s.le)
      × Ticking ((phase + 1) % 4) (timer0_irq_handler true s)
      × ((timer0_irq_handler true s).radio.do_hop ≡ (s.radio.do_hop || hop_now phase s.le))
irq_lem phase s t = (
  changed,
  record {
    by_btle = unfold timer0_irq_handler in t.by_btle;
    linked = ap (λ l. l.link_state) changed ∙ kept.0 ∙ t.linked;
    no_offset = unfold timer0_irq_handler in refl;
    clkn_range = unfold timer0_irq_handler advance in omega arith;
    epoch_range = let e = ap (λ l. l.conn_epoch) changed ∙ kept.1 in rw e t.epoch_range;
    in_phase = let e = ap (λ l. l.conn_epoch) changed ∙ kept.1 in rw e next_phase;
  },
  unfold timer0_irq_handler in
      (ap (λ m. s.radio.do_hop || (trigger m (moved s)).0) t.by_btle
        ∙ ap (λ (r : Bool × LeState). s.radio.do_hop || r.0) (trigger_linked (moved s) t.linked)
        ∙ ap (λ (k : ℕ). s.radio.do_hop || (if k == 0 then interval_tick s.le else (false, s.le)).0)
            advanced
        ∙ ap (λ (b : Bool). s.radio.do_hop || b)
            (if_asked ((phase + 1) % 4 == 0) (interval_tick s.le) s.le)),
)
  where
    ticked : ℕ → LeState
    ticked k = (if k == 0 then interval_tick s.le else (false, s.le)).1

    advanced : sub32 (moved s).clock.clkn s.le.conn_epoch % 4 ≡ (phase + 1) % 4
    advanced =
        unfold advance in
        rw t.no_offset
          (phase_step s.clock.clkn s.le.conn_epoch phase t.clkn_range t.epoch_range t.in_phase)

    next_phase : sub32 (timer0_irq_handler true s).clock.clkn s.le.conn_epoch % 4 ≡ (phase + 1) % 4
    next_phase = unfold timer0_irq_handler in advanced

    changed : (timer0_irq_handler true s).le ≡ tick_now phase s.le
    changed =
        irq_le s t.by_btle
        ∙ ap (λ (r : Bool × LeState). r.1) (trigger_linked (moved s) t.linked)
        ∙ ap (λ (k : ℕ). ticked k) advanced
        ∙ if_ticked ((phase + 1) % 4 == 0) (interval_tick s.le) s.le

    kept :
        ((tick_now phase s.le).link_state ≡ s.le.link_state)
        × ((tick_now phase s.le).conn_epoch ≡ s.le.conn_epoch)
    kept = elim (Bool-cases ((phase + 1) % 4 == 0)) [
      | inl now ↦ rw now (tick_keeps s.le)
      | inr later ↦ rw later (refl, refl)
    ]

-- `m` timer interrupts in a row.
pub irqs : ℕ → Firmware → Firmware
irqs zero s = s
irqs (suc m) s = irqs m (timer0_irq_handler true s)

irqs_lem :
    (m phase : ℕ) (s : Firmware)
    → phase < 4
    → Ticking phase s
    → (irqs m s).le ≡ interval_ticks ((phase + m) / 4) s.le
unfolding irqs
irqs_lem zero phase s h t =
    let none_yet : (phase + 0) / 4 ≡ 0 = omega arith in rw none_yet (unfold interval_ticks in refl)
irqs_lem (suc m) phase s h t =
    let (changed, t', raised) = irq_lem phase s t in
    irqs_lem m ((phase + 1) % 4) (timer0_irq_handler true s) (omega arith) t'
    ∙ ap (interval_ticks (((phase + 1) % 4 + m) / 4)) changed
    ∙ (elim (dec_lt (phase + 1) 4) [
      | yes between ↦
          let p : (phase + 1) % 4 ≡ phase + 1 = omega arith in
          let n : (phase + 1 + m) / 4 ≡ (phase + suc m) / 4 = omega arith in
          let later : (phase + 1 == 0) ≡ false = ground arith in rw (p, later, n)
      | no fourth ↦
          let p : (phase + 1) % 4 ≡ 0 = omega arith in
          let n : (phase + suc m) / 4 ≡ suc ((0 + m) / 4) = omega arith in
          rw (p, n) (unfold interval_ticks in refl)
    ])

or_false : (b : Bool) → (b || false) ≡ b
or_false b = ground arith

or_assoc : (a b c : Bool) → ((a || b) || c) ≡ (a || (b || c))
or_assoc a b c = ground arith

irqs_hop :
    (m phase : ℕ) (s : Firmware)
    → phase < 4
    → Ticking phase s
    → (irqs m s).radio.do_hop ≡ (s.radio.do_hop || ended ((phase + m) / 4) s.le)
unfolding irqs
irqs_hop zero phase s h t =
    let none_yet : (phase + 0) / 4 ≡ 0 = omega arith in
    rw none_yet (unfold ended in sym (or_false s.radio.do_hop))
irqs_hop (suc m) phase s h t =
    let (changed, t', raised) = irq_lem phase s t in
    irqs_hop m ((phase + 1) % 4) (timer0_irq_handler true s) (omega arith) t'
    ∙ ap₂ (λ (b : Bool) le. b || ended (((phase + 1) % 4 + m) / 4) le) raised changed
    ∙ (elim (dec_lt (phase + 1) 4) [
      | yes between ↦
          let p : (phase + 1) % 4 ≡ phase + 1 = omega arith in
          let n : (phase + 1 + m) / 4 ≡ (phase + suc m) / 4 = omega arith in
          let later : (phase + 1 == 0) ≡ false = ground arith in
          rw (p, later, n)
            (ap (λ (b : Bool). b || ended ((phase + suc m) / 4) s.le) (or_false s.radio.do_hop))
      | no fourth ↦
          let p : (phase + 1) % 4 ≡ 0 = omega arith in
          let n : (phase + suc m) / 4 ≡ suc ((0 + m) / 4) = omega arith in
          rw (p, n)
            (unfold ended in
              or_assoc s.radio.do_hop (interval_tick s.le).0
                (ended ((0 + m) / 4) (interval_tick s.le).1))
    ])

-- From a tick of a connection on that hops by Low Energy, in intervals of 1 to 65535 ticks, where
-- the clock has 32 bits and no correction of it is due, every fourth timer interrupt is a tick of
-- 1.25 ms. `m` interrupts later the timer of the interval stands where that many ticks leave it,
-- conn_count has counted as many intervals as have ended, and a hop is asked for exactly if one
-- was before or an interval has ended.
pub irqs-InInterval :
    (m interval done count : ℕ) (s : Firmware)
    → 0 < interval
    → interval < 65536
    → done < interval
    → Ticking 0 s
    → InInterval interval done count s.le
    → InInterval interval
        ((done + m / 4) % interval)
        (count + (done + m / 4) / interval)
        (irqs m s).le
      × ((irqs m s).radio.do_hop ≡ (s.radio.do_hop || ltb 0 ((done + m / 4) / interval)))
irqs-InInterval m interval done count s pos small inside t at =
    let n : (0 + m) / 4 ≡ m / 4 = omega arith in
    (
      rw (irqs_lem m 0 s (omega arith) t)
          (rw n (interval_ticks_lem interval pos small (m / 4) done count s.le inside at)),
      irqs_hop m 0 s (omega arith) t
          ∙ ap (λ (k : ℕ). s.radio.do_hop || ended k s.le) n
          ∙ ap (λ (b : Bool). s.radio.do_hop || b)
              (ended_lem interval pos small (m / 4) done count s.le inside at),
    )
