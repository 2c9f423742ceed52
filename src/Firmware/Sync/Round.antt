-- ===== src/Firmware/Sync/Round.antt =====
-- The loop of bt_le_sync: the order of its steps, from a channel that was asked for to the next wait.
-- The squelch, which a hop sets too, is in Hop/Sensed; this loop does not read it.
pub mod Jamming
use codetooth.Prelude.{
  ℕ, ◌+◌, ◌-◌, bit_or, ltb, ◌==◌, if◌then◌else◌, Bool, true, false, not, ◌&&◌, ◌||◌, Option, none,
  some, List,
}
use codetooth.Prelude.Int.{ℤ}
use codetooth.Classic.State.{Classic}
use codetooth.Firmware.State.{Firmware, Mode, same_mode}
use codetooth.Firmware.Rssi.{rssi_reset}
use codetooth.Firmware.Hop.{hop}
use codetooth.Firmware.Stream.{dma_error}
use codetooth.Firmware.Sync.{Turn, sync_packet, on_packet, check_timeout}

-- The state of the loop: besides the globals of the firmware the register FSDIV, `saved_request`,
-- which is a global too, and the static variable `restart_jamming`.
pub record Loop : Type 0 where
  pub fw : Firmware
  pub fsdiv : ℕ
  pub saved_request : ℕ
  pub restart_jamming : Bool

-- What a wait for the DMA ends with: what interrupts did to the globals meanwhile, the counts of
-- transfers and errors, the strength read, the bytes received, and those of the stack.
pub record Wait : Type 0 where
  pub interrupts : Firmware → Firmware
  pub rx_tc : ℕ
  pub rx_err : ℕ
  pub rssi : ℤ
  pub rxbuf : List ℕ
  pub stack : List ℕ

-- A round: the loop goes on, it leaves for its clean-up, or hop does not end.
pub data Next : Type 0 where
  again : Loop → Next
  cleanup : Loop → Next
  stuck : Next

-- The radio is tuned to the channel that it has; the one asked for is only noted.
unfoldable pub take_request : Loop → Loop
take_request l = if l.fw.radio.requested_channel == 0 then l else record l {
  fsdiv = l.fw.radio.channel - 1;
  saved_request = l.fw.radio.requested_channel;
  fw = record (l.fw) { radio = record (l.fw.radio) { requested_channel = 0 } };
}

-- `rssi_reset()` before the wait, and the strength read after it.
unfoldable pub wait_ends : Wait → Loop → Loop
unfolding rssi_reset
wait_ends w l =
    let fresh = record (l.fw) { rssi = rssi_reset l.fw.rssi } in
    let woken = w.interrupts fresh in
    record l {
      fw = record woken { rssi = record (woken.rssi) { rssi_max = w.rssi; rssi_min = w.rssi } };
    }

abbrev pub note_error : Wait → Firmware → Firmware
note_error w s = record s {
  status = (if ltb 0 w.rx_err then bit_or s.status dma_error else s.status);
}

-- The hop that is due, if one is.
abbrev pub hop_due : Classic → Loop → Option (ℕ × Firmware)
hop_due c l = if l.fw.radio.do_hop then hop l.fsdiv c l.fw else some (l.fsdiv, l.fw)

-- After it, either jamming counts down, or the radio receives again. Where the loop restarts,
-- cc2400_rx_sync tunes it, for the modulation that bt_le_sync sets at its start.
abbrev pub jam_or_receive : Loop → Loop
jam_or_receive l =
    if ltb 0 l.fw.le_jam_count
    then record l { fw = record (l.fw) { le_jam_count = l.fw.le_jam_count - 1 } }
    else if l.restart_jamming
    then record l { restart_jamming = false; fsdiv = l.fw.radio.channel - 1 }
    else l

abbrev pub after_hop : Loop → Option (ℕ × Firmware) → Next
after_hop l none = stuck
after_hop l (some (fsdiv, s)) = again (jam_or_receive (record l { fsdiv = fsdiv; fw = s }))

-- From the timeout on, by what check_timeout decided.
abbrev pub after_timeout : Classic → Turn → Loop → Next
after_timeout c Turn.leaves l = cleanup l
after_timeout c Turn.goes_on l = after_hop l (hop_due c l)
after_timeout c Turn.restarts l =
    let restarted = record l { restart_jamming = true } in after_hop restarted (hop_due c restarted)

-- `rx_flush`
unfoldable pub flush : Classic → (active_mode : Mode) → Loop → Next
flush c active_mode l =
    let (turn, s) = check_timeout active_mode l.saved_request l.fw in
    after_timeout c turn (record l { fw = s })

-- The packet that came, from the words received.
abbrev pub receive : Wait → Firmware → Firmware
receive w s = on_packet (sync_packet s.le.access_address s.radio.channel w.rxbuf w.stack) s

unfoldable pub sync_round : Classic → (active_mode : Mode) → Wait → Loop → Next
unfolding take_request wait_ends flush
sync_round c active_mode w l =
    let woken = wait_ends w (take_request l) in
    let noted = record woken { fw = note_error w woken.fw } in
    if not (same_mode woken.fw.requested_mode active_mode)
    then cleanup woken
    else if noted.fw.radio.do_hop
    then flush c active_mode noted
    else if w.rx_tc == 0
    then again noted
    else flush c active_mode (record noted { fw = receive w noted.fw })
