-- ===== src/Firmware/Timer.antt =====
-- TIMER0_IRQHandler: the native clock, and when each hopping mode asks for a hop. The LED that one
-- branch clears is not state.
pub mod Ticks
pub mod Interval
use codetooth.Prelude.{
  ℕ, ◌+◌, u16, u32, sub32, bit_and, ◌==◌, if◌then◌else◌, Bool, true, false, ◌||◌, ◌&&◌,
}
use codetooth.Le.State.{LeState, LinkState, connected}
use codetooth.Firmware.State.{
  Firmware, Clock, HopMode, hop_none, hop_sweep, hop_bluetooth, hop_btle, hop_direct, hop_afh,
}

abbrev pub is_connected : LinkState → Bool
is_connected connected = true
is_connected _ = false

-- One tick of 1.25 ms of a connection: whether to hop, and the counters after.
pub interval_tick : LeState → Bool × LeState
interval_tick le =
    let left = u16 (le.interval_timer + 65535) in
    if left == 0
    then (
      true,
      record le { conn_count = u16 (le.conn_count + 1); interval_timer = le.conn_interval },
    )
    else (false, record le { interval_timer = left })

-- The branches on `hop_mode`, after `clkn` has advanced.
pub trigger : HopMode → Firmware → Bool × LeState
unfolding interval_tick
trigger hop_none s = (bit_and s.clock.clkn 0x7f == 0, s.le)
trigger hop_sweep s = (bit_and s.clock.clkn 0x7f == 0, s.le)
trigger hop_bluetooth s = (bit_and s.clock.clkn 0x1 == 0, s.le)
trigger hop_btle s =
    let tick = interval_tick s.le in
    if is_connected s.le.link_state && bit_and (sub32 s.clock.clkn s.le.conn_epoch) 0x03 == 0
    then tick
    else (false, s.le)
trigger hop_direct s = (false, s.le)
trigger hop_afh s = (u32 (s.radio.last_hop + s.radio.hop_timeout) == s.clock.clkn, s.le)

-- The clock of one interrupt: `clkn` takes a step of the host's correction with it.
pub advance : Clock → Clock
advance c = record c {
  clkn = u32 (c.clkn + c.clkn_offset + 1);
  clkn_offset = 0;
  t0mr0 = 3124 + c.clk100ns_offset;
  clk100ns_offset = 0;
}

pub timer_matched : Firmware → Firmware
unfolding advance trigger
timer_matched s =
    let moved = record s { clock = advance s.clock } in
    let (hop, le) = trigger s.radio.hop_mode moved in
    record moved { le = le; radio = record (s.radio) { do_hop = s.radio.do_hop || hop } }

-- `matched` is `T0IR & TIR_MR0_Interrupt`.
unfoldable pub timer0_irq_handler : (matched : Bool) → Firmware → Firmware
unfolding timer_matched
timer0_irq_handler matched s = if matched then timer_matched s else s
