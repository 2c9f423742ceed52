-- ===== src/Firmware/Ego/Machine.antt =====
-- Where the state machines of ego.c can get.
use codetooth.Prelude.{
  ℕ, ◌<◌, ◌≡◌, refl, ◌∙◌, ap, get_or, Bool, true, false, if◌then◌else◌, Option, none, some, List,
  arith,
}
use codetooth.Firmware.State.{Firmware, Clock, clk100ns_of}
use codetooth.Usb.Packet.{Packet}
use codetooth.Usb.Queue.{Queue, usb_enqueue}
use codetooth.Firmware.Enqueue.{enqueue_with_ts, put_in, stamp_with_ts}
use codetooth.Firmware.Ego.{
  EgoState, EgoMode, Ego, Heard, init, cap, sleep, start_jamming, jamming, follow, continuous_rx,
  jam, ego_channels, ego_start, sleep_elapsed, sleep_ms, goes_to, radio_off, cap_heard,
  queue_packet, cap_state, sleep_state, jam_cap_state, jamming_state, jam_sleep_state,
  follow_handler, continuous_rx_handler, jam_handler, handle,
}

put_in-radio :
    (s : Firmware) (fields : Packet → Packet) (slot : Option ℕ × Queue)
    → (put_in s fields slot).1.radio ≡ s.radio
put_in-radio s fields (none, q) = refl
put_in-radio s fields (some slot, q) = refl

-- Queueing a packet does not tune.
queued_channel :
    (bytes : List ℕ) (rxtime : ℕ) (e : Ego)
    → (queue_packet bytes rxtime e).fw.radio.channel ≡ e.fw.radio.channel
unfolding queue_packet enqueue_with_ts
queued_channel bytes rxtime e =
    ap (λ r. r.channel)
      (put_in-radio e.fw (stamp_with_ts e.fw bytes rxtime) (usb_enqueue e.fw.queue))

queued_fsm : (bytes : List ℕ) (rxtime : ℕ) (e : Ego) → (queue_packet bytes rxtime e).fsm ≡ e.fsm
unfolding queue_packet
queued_fsm bytes rxtime e = refl

abbrev pub transmits : EgoState → Bool
transmits start_jamming = true
transmits jamming = true
transmits _ = false

abbrev pub is_init : EgoState → Bool
is_init init = true
is_init _ = false

abbrev pub may_transmit : EgoMode → Bool
may_transmit jam = true
may_transmit _ = false

abbrev pub hops : EgoMode → Bool
hops continuous_rx = false
hops _ = true

-- What holds of a machine of mode `m` that started on the channel `from`.
pub record InMachine (m : EgoMode) (from : ℕ) (e : Ego) : Type 0 where
  pub index : e.fsm.channel_index < 4
  pub quiet : may_transmit m ≡ false → transmits e.fsm.state ≡ false
  pub tuned :
      hops m ≡ true
      → is_init e.fsm.state ≡ false
      → e.fw.radio.channel ≡ get_or ego_channels e.fsm.channel_index 0
  pub kept : hops m ≡ false → e.fw.radio.channel ≡ from

module _ (m : EgoMode) (from : ℕ) where
  queue-InMachine :
      (bytes : List ℕ) (rxtime : ℕ) (e : Ego)
      → InMachine m from e
      → InMachine m from (queue_packet bytes rxtime e)
  unfolding queue_packet
  queue-InMachine bytes rxtime e i = ground (arith, queued_channel bytes rxtime e)

  -- A packet heard, after the timeout or not.
  rest-InMachine :
      (e : Ego)
      → is_init e.fsm.state ≡ false
      → InMachine m from e
      → InMachine m from (goes_to sleep (sleep_ms 6 e))
  rest-InMachine e at i = ground arith

  off-InMachine : (e : Ego) → InMachine m from e → InMachine m from (radio_off e)
  off-InMachine e i = ground arith

  slept-InMachine :
      (c : Bool) (e : Ego)
      → is_init e.fsm.state ≡ false
      → InMachine m from e
      → InMachine m from (if c then goes_to sleep (sleep_ms 4 e) else e)
        × (is_init (if c then goes_to sleep (sleep_ms 4 e) else e).fsm.state ≡ false)
  slept-InMachine c e at i = ground arith

  heard-InMachine :
      (heard : Heard) (t : ℕ) (e : Ego)
      → is_init e.fsm.state ≡ false
      → InMachine m from e
      → InMachine m from (cap_heard heard t e)
  heard-InMachine none t e at i = i
  heard-InMachine (some bytes) t e at i =
      let same : is_init (queue_packet bytes t e).fsm.state ≡ false =
        ap (λ f. is_init f.state) (queued_fsm bytes t e) ∙ at in
      rest-InMachine (queue_packet bytes t e) same (queue-InMachine bytes t e i)

  cap-InMachine :
      (heard : Heard) (e : Ego)
      → is_init e.fsm.state ≡ false
      → InMachine m from e
      → InMachine m from (cap_state heard e)
  unfolding cap_state
  cap-InMachine heard e at i =
      let s = slept-InMachine (sleep_elapsed e) e at i in
      off-InMachine _ (heard-InMachine heard (clk100ns_of e.fw.clock) _ s.1 s.0)

follow-InMachine :
    (from : ℕ) (st : EgoState) (heard : Heard) (e : Ego)
    → e.fsm.state ≡ st
    → InMachine follow from e
    → InMachine follow from (follow_handler st heard e)
unfolding follow_handler sleep_state
follow-InMachine from cap heard e at i = cap-InMachine follow from heard e (ap is_init at) i
follow-InMachine from st heard e at i = ground arith

continuous-InMachine :
    (from : ℕ) (st : EgoState) (heard : Heard) (e : Ego)
    → e.fsm.state ≡ st
    → InMachine continuous_rx from e
    → InMachine continuous_rx from (continuous_rx_handler st heard e)
unfolding continuous_rx_handler
continuous-InMachine from cap none e at i = i
continuous-InMachine from cap (some bytes) e at i =
    queue-InMachine continuous_rx from bytes (clk100ns_of e.fw.clock) e i
continuous-InMachine from st heard e at i = ground arith

jam-InMachine :
    (from : ℕ) (st : EgoState) (heard : Heard) (e : Ego)
    → e.fsm.state ≡ st
    → InMachine jam from e
    → InMachine jam from (jam_handler st heard e)
unfolding jam_handler jam_cap_state jam_sleep_state jamming_state
jam-InMachine from cap none e at i = ground arith
jam-InMachine from cap (some bytes) e at i = ground arith
jam-InMachine from st heard e at i = ground arith

handle-InMachine :
    (m : EgoMode) (from : ℕ) (heard : Heard) (e : Ego)
    → InMachine m from e
    → InMachine m from (handle m heard e)
unfolding handle
handle-InMachine follow from heard e i = follow-InMachine from e.fsm.state heard e refl i
handle-InMachine continuous_rx from heard e i = continuous-InMachine from e.fsm.state heard e refl i
handle-InMachine jam from heard e i = jam-InMachine from e.fsm.state heard e refl i

-- What the loop of ego_main can reach: a call of a handler, or time that passes.
pub data Turns (m : EgoMode) (from : Ego) : Ego → Type 0 where
  begun : Turns m from from
  handled : (heard : Heard) (e : Ego) → Turns m from e → Turns m from (handle m heard e)
  ticked :
      (clock : Clock) (e : Ego)
      → Turns m from e
      → Turns m from (record e { fw = record (e.fw) { clock = clock } })

-- From its start, after any calls of its handlers and whatever they hear, a machine has a channel
-- index below 4; in the modes that hop it is tuned to the channel of that index once it has left its
-- first state; receiving on one channel, it stays on the user's; and only in the mode for jamming is it ever in a
-- state that transmits.
pub ego_main-InMachine :
    (m : EgoMode) (s : Firmware) (e : Ego)
    → Turns m (record { fsm = ego_start; fw = s }) e
    → InMachine m s.radio.channel e
ego_main-InMachine m s _ begun = ground arith
ego_main-InMachine m s _ (handled heard e before) =
    handle-InMachine m s.radio.channel heard e (ego_main-InMachine m s e before)
ego_main-InMachine m s _ (ticked clock e before) =
    let i = ego_main-InMachine m s e before in
    record { index = i.index; quiet = i.quiet; tuned = i.tuned; kept = i.kept }
