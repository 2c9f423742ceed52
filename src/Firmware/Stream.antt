-- ===== src/Firmware/Stream.antt =====
-- bt_stream_rx and bt_generic_le: what becomes of the buffers that the DMA fills, and the status byte
-- and the squelch that say which of them are worth sending. The waits for the radio, the strobes and
-- the LEDs are not state.
pub mod Status
pub mod Hold
use codetooth.Prelude.{
  ℕ, ◌+◌, ◌-◌, u8, u32, bit_and, bit_or, ◌>>>◌, ltb, ◌==◌, if◌then◌else◌, Bool, true, false, not,
  ◌&&◌, ◌||◌, List, [], ◌∷◌, replicate,
}
use codetooth.Prelude.Int.{ℤ, pos, negsuc, ◌+ℤ◌, ltb_ℤ}
use codetooth.Usb.Packet.{br_packet}
use codetooth.Firmware.State.{Firmware, Mode, HopMode, Rssi, clk100ns_of}
use codetooth.Firmware.Enqueue.{enqueue}
use codetooth.Firmware.Rssi.{rssi_reset, rssi_add, rssi_iir_update}
use codetooth.Firmware.Squelch.{Squelch}
use codetooth.Firmware.Symbols.{unpack, cb_follow_le}
use codetooth.Firmware.Symbols.Empty.{DataCb, follow_symbols, empty_symbols, cb_le_promisc}

-- `rx_tc` and `rx_err` count interrupts; the two buffers change places; `cs_trigger` is set by the
-- interrupt of the carrier sense.
pub record Stream : Type 0 where
  pub fw : Firmware
  pub squelch : Squelch
  pub rx_tc : ℕ
  pub rx_err : ℕ
  pub active_rxbuf : List ℕ
  pub idle_rxbuf : List ℕ
  pub cs_trigger : Bool

abbrev pub dma_overflow : ℕ
dma_overflow = 0x01

abbrev pub dma_error : ℕ
dma_error = 0x02

abbrev pub cs_trigger_bit : ℕ
cs_trigger_bit = 0x08

abbrev pub rssi_trigger_bit : ℕ
rssi_trigger_bit = 0x10

abbrev pub discard_bit : ℕ
discard_bit = 0x20

-- The end of a transfer: the time and the channel are noted, and the buffers change places.
unfoldable pub transfer_done : Stream → Stream
transfer_done r = record r {
  fw = record (r.fw) {
    idle_buf = record {
      clkn_high = bit_and (r.fw.clock.clkn >>> 20) 0xff;
      clk100ns = clk100ns_of r.fw.clock;
      channel = r.fw.radio.channel;
    };
  };
  active_rxbuf = r.idle_rxbuf;
  idle_rxbuf = r.active_rxbuf;
  rx_tc = u32 (r.rx_tc + 1);
}

-- The flags of DMACIntStat, DMACIntTCStat and DMACIntErrStat for channel 0.
unfoldable pub bt_stream_dma_handler : (pending done failed : Bool) → Stream → Stream
unfolding transfer_done
bt_stream_dma_handler pending done failed r =
    let after = if done then transfer_done r else r in
    if pending
    then (if failed then record after { rx_err = u32 (after.rx_err + 1) } else after)
    else r

-- DMA_IRQHandler: nothing is done in the other modes.
abbrev pub streams : Mode → Bool
streams Mode.rx_symbols = true
streams Mode.specan = true
streams Mode.bt_follow = true
streams Mode.bt_follow_le = true
streams Mode.bt_promisc_le = true
streams Mode.bt_slave_le = true
streams _ = false

unfoldable pub dma_irq_handler : (pending done failed : Bool) → Stream → Stream
unfolding bt_stream_dma_handler
dma_irq_handler pending done failed r =
    if streams r.fw.mode then bt_stream_dma_handler pending done failed r else r

-- `if (test) status |= flag`
abbrev pub raise_if : (test : Bool) (flag : ℕ) → Stream → Stream
raise_if test flag r = record r {
  fw = record (r.fw) { status = (if test then bit_or r.fw.status flag else r.fw.status) };
}

-- A reading of the signal strength while a transfer runs. The first after a trigger is not below the
-- threshold; `at_trigger` is rssi_at_trigger, whose start, INT8_MIN, is -128.
abbrev pub int8_min : ℤ
int8_min = negsuc 127

abbrev pub is_int8_min : ℤ → Bool
is_int8_min (negsuc n) = n == 127
is_int8_min (pos n) = false

abbrev pub floor_of : Squelch → ℤ
floor_of q = q.cs_threshold_cur +ℤ pos 54

unfoldable pub measure : (reading : ℤ) (triggered : Bool) → Squelch → ℤ × Rssi → ℤ × Rssi
unfolding rssi_add
measure reading triggered q (at_trigger, r) =
    if triggered && is_int8_min at_trigger
    then (let raised = if ltb_ℤ (floor_of q) reading then reading else floor_of q in
        (raised, rssi_add raised r))
    else (at_trigger, rssi_add reading r)

-- The strength of a round, from its readings.
pub measure_all : List (ℤ × Bool) → Squelch → ℤ × Rssi → ℤ × Rssi
unfolding measure
measure_all [] q m = m
measure_all ((reading, triggered) ∷ readings) q m =
    measure_all readings q (measure reading triggered q m)

unfoldable pub listen : List (ℤ × Bool) → Stream → Stream
unfolding measure_all rssi_reset
listen readings r = record r {
  fw = record (r.fw) { rssi = (measure_all readings r.squelch (int8_min, rssi_reset r.fw.rssi)).1 };
}

-- `rssi_iir_update()` and the two tests for the squelch, whose results are the flags.
abbrev pub is_sensed : Stream → Bool
is_sensed r = r.cs_trigger || r.squelch.cs_no_squelch

abbrev pub is_loud : Stream → Bool
is_loud r = not (ltb_ℤ r.fw.rssi.rssi_max (floor_of r.squelch))

abbrev pub update_average : Stream → Stream
update_average r = record r {
  fw = record (r.fw) { rssi = rssi_iir_update r.fw.radio.hop_mode r.fw.radio.channel r.fw.rssi };
}

unfoldable pub sense : Stream → Stream
sense r =
    let sensed = record (raise_if (is_sensed r) cs_trigger_bit r) {
      cs_trigger = (if is_sensed r then false else r.cs_trigger);
    } in
    raise_if (is_loud sensed) rssi_trigger_bit sensed

-- `rx_tc = 0; rx_err = 0`
abbrev pub end_round : Stream → Stream
end_round r = record r { rx_tc = 0; rx_err = 0 }

-- A round of bt_stream_rx once the wait for a transfer has ended: first the flags, then the packet.
unfoldable pub note_transfer : Stream → Stream
unfolding sense
note_transfer r =
    let noted =
      raise_if r.fw.radio.dma_discard discard_bit
        (raise_if (ltb 1 r.rx_tc) dma_overflow (raise_if (ltb 0 r.rx_err) dma_error r)) in
    sense (
      update_average (record noted {
        fw = record (noted.fw) {
          radio = record (noted.fw.radio) {
            dma_discard = (if r.fw.radio.dma_discard then false else r.fw.radio.dma_discard);
          };
        };
      }))

-- handle_usb, which follows, is that of Usb/Send.
unfoldable pub stream_round : Stream → Stream
unfolding note_transfer
stream_round r =
    let noted = note_transfer r in
    end_round (record noted { fw = (enqueue br_packet noted.idle_rxbuf noted.fw).1 })

-- A round of bt_generic_le, up to data_cb (give) and the end of the round (end_round): `hold` counts
-- the buffers that are still looked at after a trigger.
abbrev pub cs_hold_time : ℕ
cs_hold_time = 2

pub record Held : Type 0 where
  pub hold : ℕ
  pub looked_at : Bool
  pub stream : Stream

-- The tests for the squelch, and what becomes of `hold`.
unfoldable pub hold_for : (hold : ℕ) → Stream → ℕ
hold_for hold r = if is_sensed r || is_loud r then cs_hold_time else hold

-- `looked_at` says that the buffer is unpacked and given to `data_cb`.
unfoldable pub generic_round : (hold : ℕ) → Stream → Held
unfolding sense hold_for
generic_round hold r =
    let failed = raise_if (ltb 0 r.rx_err) dma_error r in
    let averaged = update_average (raise_if (ltb 1 r.rx_tc) dma_overflow failed) in
    let held = hold_for hold averaged in
    if r.rx_tc == 0
    then record { hold = hold; looked_at = false; stream = failed }
    else record { hold = held - 1; looked_at = not (held == 0); stream = sense averaged }

-- data_cb for a buffer that is looked at: unpacking leaves zeros in idle_rxbuf. What comes back is
-- whether the loop goes on, the symbols for the next buffer, and `data_cb`.
pub record Given : Type 0 where
  pub goes_on : Bool
  pub unpacked : List ℕ
  pub data_cb : DataCb
  pub fw : Firmware

unfoldable pub give : DataCb → (unpacked idle_rxbuf beyond : List ℕ) → Firmware → Given
unfolding unpack cb_follow_le cb_le_promisc
give follow_symbols unpacked idle_rxbuf beyond s =
    let symbols = unpack unpacked idle_rxbuf in
    record {
      goes_on = true;
      unpacked = symbols;
      data_cb = follow_symbols;
      fw = cb_follow_le symbols (replicate 50 0) beyond s;
    }
give empty_symbols unpacked idle_rxbuf beyond s =
    let symbols = unpack unpacked idle_rxbuf in
    let l = cb_le_promisc symbols (replicate 50 0) s in
    record { goes_on = l.goes_on; unpacked = symbols; data_cb = l.data_cb; fw = l.fw }
