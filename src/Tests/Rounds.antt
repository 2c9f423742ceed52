-- ===== src/Tests/Rounds.antt =====
-- Rounds of the loops that receive.
use codetooth.Prelude.{◌≡◌, refl, true, false, List, [], ◌∷◌, replicate, arith}
use codetooth.Prelude.Int.{negsuc}
use codetooth.Usb.Packet.{Packet}
use codetooth.Usb.Queue.Refine.{length-contents}
use codetooth.Firmware.State.{bt_follow_le}
use codetooth.Firmware.Stream.{Stream}
use codetooth.Firmware.Stream.Status.{Reported, stream_round-Reported}
use codetooth.Firmware.Stream.Hold.{looks, triggers, this_or_last, looks_lem}
use codetooth.Firmware.Sync.Round.{Loop, Wait}
use codetooth.Firmware.Sync.Round.Jamming.{EndsByHop, JammingEnds, jamming_ends}
use codetooth.Tests.Ring.{idle_ring, idle_ring-IsValid}
use codetooth.Tests.Receive.{device}
use codetooth.Tests.Piconet.{piconet}

-- A transfer just after tuning, with one too many, above the threshold.
abbrev strong : Stream
strong = record {
  fw = record device {
    radio = record (device.radio) { dma_discard = true };
    rssi = record (device.rssi) { rssi_max = negsuc 39; rssi_count = 1; rssi_sum = negsuc 39 };
  };
  squelch = record {
    cs_threshold_req = negsuc 119;
    cs_threshold_cur = negsuc 119;
    cs_no_squelch = false;
    rssi_register = 0;
  };
  rx_tc = 2;
  rx_err = 0;
  active_rxbuf = replicate 50 0;
  idle_rxbuf = replicate 50 0xaa;
  cs_trigger = false;
}

stream_round-Reported_example : (p : Packet) × Reported strong p
stream_round-Reported_example =
    stream_round-Reported strong refl idle_ring-IsValid (omega (arith, length-contents idle_ring))

-- A strong buffer, then weak ones, and a round without a transfer between them.
abbrev weaken : Stream → Stream
weaken r = record r {
  fw = record (r.fw) { rssi = record (r.fw.rssi) { rssi_max = negsuc 89; rssi_count = 1 } };
  rx_tc = 1;
}

abbrev fail : Stream → Stream
fail r = record r { rx_tc = 0; rx_err = 1 }

abbrev rounds : List (Stream → Stream)
rounds = (λ r. strong) ∷ fail ∷ weaken ∷ weaken ∷ []

looks_lem_example : looks 0 rounds strong ≡ this_or_last false (triggers 0 rounds strong)
looks_lem_example = looks_lem rounds strong

-- Two rounds of jamming left.
abbrev jammer : Loop
jammer = record {
  fw = record device { le_jam_count = 2; mode = bt_follow_le; requested_mode = bt_follow_le };
  fsdiv = 2401;
  saved_request = 2402;
  restart_jamming = false;
}

abbrev hops : Wait
hops = record {
  interrupts =
      λ s. record s { radio = record (s.radio) { do_hop = true }; requested_mode = bt_follow_le };
  rx_tc = 0;
  rx_err = 0;
  rssi = negsuc 59;
  rxbuf = [];
  stack = [];
}

hops-EndsByHop : EndsByHop bt_follow_le hops
hops-EndsByHop = record { due = λ s. refl; along = λ s. refl; same = λ s. refl; jams = λ s. refl }

jamming_ends_example : JammingEnds piconet bt_follow_le (hops ∷ hops ∷ []) jammer
jamming_ends_example =
    jamming_ends piconet bt_follow_le (hops ∷ hops ∷ []) jammer
      (hops-EndsByHop, (hops-EndsByHop, tt)) refl (omega arith)
