-- ===== src/Firmware/Ego.antt =====
-- firmware/bluetooth_rxtx/ego.c: the state machines that follow, receive and jam the link of a
-- skateboard. The registers of the radio and the waits for it are not state; a handler reads the clock
-- as it was when it was called.
pub mod Machine
pub mod Sleep
use codetooth.Prelude.{
  ℕ, zero, suc, ◌+◌, ◌*◌, ◌%◌, u32, sub32, ltb, leb, ◌==◌, if◌then◌else◌, Bool, true, false, ◌&&◌,
  Option, none, some, List, [], ◌∷◌, get_or,
}
use codetooth.Usb.Packet.{ego_packet}
use codetooth.Firmware.State.{Firmware, Mode, clk100ns_of}
use codetooth.Firmware.Enqueue.{enqueue_with_ts}

abbrev pub ego_channels : List ℕ
ego_channels = 2408 ∷ 2418 ∷ 2423 ∷ 2469 ∷ []

-- `ego_state_t` and `ego_mode_t`.
pub data EgoState : Type 0 where
  init start_rx cap sleep start_jamming jamming : EgoState

pub data EgoMode : Type 0 where
  follow continuous_rx jam : EgoMode

-- `ego_fsm_state_t`; the flags of type `int` hold 0 or 1.
pub record EgoFsm : Type 0 where
  pub state : EgoState
  pub channel_index : ℕ
  pub sleep_start : ℕ
  pub sleep_duration : ℕ
  pub timer_active : Bool
  pub packet_observed : Bool
  pub anchor : ℕ

pub record Ego : Type 0 where
  pub fsm : EgoFsm
  pub fw : Firmware

-- What the radio tells in one call of a handler: `some` bytes where sync_received() is true, the
-- bytes that do_rx then reads.
abbrev pub Heard : Type 0
Heard = Option (List ℕ)

-- sleep_ms, sleep_ms_anchor and sleep_elapsed.
abbrev pub sleep_ms : (duration : ℕ) → Ego → Ego
sleep_ms duration e = record e {
  fsm = record (e.fsm) {
    sleep_start = clk100ns_of e.fw.clock;
    sleep_duration = u32 (duration * 1000 * 10);
  };
}

abbrev pub sleep_ms_anchor : (duration : ℕ) → Ego → Ego
sleep_ms_anchor duration e = record e {
  fsm = record (e.fsm) { sleep_start = e.fsm.anchor; sleep_duration = u32 (duration * 1000 * 10) };
}

unfoldable pub sleep_elapsed : Ego → Bool
sleep_elapsed e =
    let read = clk100ns_of e.fw.clock in
    let now = if ltb read e.fsm.sleep_start then u32 (read + 3276800000) else read in
    leb e.fsm.sleep_duration (sub32 now e.fsm.sleep_start)

abbrev pub goes_to : EgoState → Ego → Ego
goes_to st e = record e { fsm = record (e.fsm) { state = st } }

-- `channel = channels[state->channel_index]`, with the index set.
abbrev pub tune_to : (index : ℕ) → Ego → Ego
tune_to index e = record e {
  fsm = record (e.fsm) { channel_index = index };
  fw = record (e.fw) { radio = record (e.fw.radio) { channel = get_or ego_channels index 0 } };
}

abbrev pub set_timer : Ego → Ego
set_timer e = record e { fsm = record (e.fsm) { timer_active = true } }

abbrev pub init_state : Ego → Ego
init_state e = goes_to start_rx (tune_to 0 e)

abbrev pub start_rf_state : Ego → Ego
start_rf_state e = goes_to cap e

-- do_rx and enqueue_with_ts; `rxtime` is CLK100NS on entry to the handler.
unfoldable pub queue_packet : (bytes : List ℕ) (rxtime : ℕ) → Ego → Ego
queue_packet bytes rxtime e = record e { fw = (enqueue_with_ts ego_packet bytes rxtime e.fw).1 }

abbrev pub cap_heard : Heard → (rxtime : ℕ) → Ego → Ego
cap_heard none rxtime e = e
cap_heard (some bytes) rxtime e = goes_to sleep (sleep_ms 6 (queue_packet bytes rxtime e))

abbrev pub is_cap : EgoState → Bool
is_cap cap = true
is_cap _ = false

-- `if (state->state != EGO_ST_CAP)`: the radio is off.
abbrev pub radio_off : Ego → Ego
radio_off e = if is_cap e.fsm.state then e else set_timer e

unfoldable pub cap_state : Heard → Ego → Ego
unfolding sleep_elapsed
cap_state heard e =
    let slept = if sleep_elapsed e then goes_to sleep (sleep_ms 4 e) else e in
    radio_off (cap_heard heard (clk100ns_of e.fw.clock) slept)

unfoldable pub sleep_state : Ego → Ego
unfolding sleep_elapsed
sleep_state e =
    if sleep_elapsed e
    then goes_to start_rx (set_timer (sleep_ms 7 (tune_to ((e.fsm.channel_index + 1) % 4) e)))
    else e

abbrev pub continuous_init_state : Ego → Ego
continuous_init_state e = goes_to start_rx e

abbrev pub continuous_cap_state : Heard → Ego → Ego
continuous_cap_state none e = e
continuous_cap_state (some bytes) e = queue_packet bytes (clk100ns_of e.fw.clock) e

abbrev pub jam_heard : Heard → Ego → Ego
jam_heard none e = e
jam_heard (some bytes) e = record e {
  fsm = record (e.fsm) {
    state = start_jamming;
    packet_observed = true;
    anchor = clk100ns_of e.fw.clock;
  };
}

unfoldable pub jam_cap_state : Heard → Ego → Ego
unfolding sleep_elapsed
jam_cap_state heard e =
    let seen = jam_heard heard e in
    if seen.fsm.timer_active && sleep_elapsed seen
    then sleep_ms 11
        (record seen { fsm = record (seen.fsm) { state = start_jamming; packet_observed = false } })
    else seen

abbrev pub start_jamming_state : Ego → Ego
start_jamming_state e = sleep_ms_anchor 2 (goes_to jamming e)

unfoldable pub jamming_state : Ego → Ego
unfolding sleep_elapsed
jamming_state e =
    if sleep_elapsed e
    then sleep_ms_anchor 6 (goes_to sleep (tune_to ((e.fsm.channel_index + 1) % 4) e))
    else e

unfoldable pub jam_sleep_state : Ego → Ego
unfolding sleep_elapsed
jam_sleep_state e =
    if sleep_elapsed e then sleep_ms_anchor 11 (set_timer (goes_to start_rx e)) else e

-- The three tables of handlers; nop_state leaves the state alone.
unfoldable pub follow_handler : EgoState → Heard → Ego → Ego
follow_handler init heard e = init_state e
follow_handler start_rx heard e = start_rf_state e
follow_handler cap heard e = cap_state heard e
follow_handler sleep heard e = sleep_state e
follow_handler _ heard e = e

unfoldable pub continuous_rx_handler : EgoState → Heard → Ego → Ego
continuous_rx_handler init heard e = continuous_init_state e
continuous_rx_handler start_rx heard e = start_rf_state e
continuous_rx_handler cap heard e = continuous_cap_state heard e
continuous_rx_handler _ heard e = e

unfoldable pub jam_handler : EgoState → Heard → Ego → Ego
jam_handler init heard e = init_state e
jam_handler start_rx heard e = start_rf_state e
jam_handler cap heard e = jam_cap_state heard e
jam_handler sleep heard e = jam_sleep_state e
jam_handler start_jamming heard e = start_jamming_state e
jam_handler jamming heard e = jamming_state e

-- `handler[state.state](&state)`
unfoldable pub handle : EgoMode → Heard → Ego → Ego
unfolding follow_handler continuous_rx_handler jam_handler
handle follow heard e = follow_handler e.fsm.state heard e
handle continuous_rx heard e = continuous_rx_handler e.fsm.state heard e
handle jam heard e = jam_handler e.fsm.state heard e

-- The handlers that ego_main takes for a mode: without TX_ENABLE there are none for jamming, and
-- the function returns with MODE_IDLE asked for.
abbrev pub ego_table : (tx_enable : Bool) (mode : ℕ) → Option EgoMode
ego_table tx_enable mode =
    if mode == 0
    then some follow
    else if mode == 1
    then some continuous_rx
    else if tx_enable && mode == 2
    then some jam
    else none

-- `state` of ego_main at its start; the fields without an initialiser are 0.
abbrev pub ego_start : EgoFsm
ego_start = record {
  state = init;
  channel_index = 0;
  sleep_start = 0;
  sleep_duration = 0;
  timer_active = false;
  packet_observed = false;
  anchor = 0;
}

-- ego_main up to its loop: `none` where it returns at once.
unfoldable pub ego_begin : (tx_enable : Bool) (mode : ℕ) → Firmware → Option EgoMode × Ego
ego_begin tx_enable mode s = elim (ego_table tx_enable mode) [
  | some m ↦ (some m, record { fsm = ego_start; fw = s })
  | none ↦ (none, record { fsm = ego_start; fw = record s { requested_mode = Mode.idle } })
]
