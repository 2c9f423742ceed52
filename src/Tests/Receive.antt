-- ===== src/Tests/Receive.antt =====
-- Packets of a connection, from CONNECT_REQ on, and the messages they become.
use codetooth.Prelude.{
  ltb, ℕ, zero, suc, ◌+◌, ◌/◌, ◌%◌, ◌<◌, ◌≡◌, refl, true, false, List, [], ◌∷◌, ◌++◌, replicate,
  All, arith,
}
use codetooth.Prelude.Int.{pos}
use codetooth.Le.State.{connected}
use codetooth.Firmware.State.{Firmware, idle, connection_follow, hop_btle}
use codetooth.Firmware.Follow.{byte, set_access_address, is_connect, connection_follow_cb}
use codetooth.Firmware.Follow.Link.{follow, connected_after_connect}
use codetooth.Firmware.Timer.Ticks.{InInterval}
use codetooth.Firmware.Timer.Interval.{Ticking, irqs, irqs-InInterval}
use codetooth.Tests.Link.{link}
use codetooth.Tests.Ring.{idle_ring}

-- Listening on the first advertising channel.
abbrev pub device : Firmware
device = record {
  le = link;
  promisc = record {
    active_aa = replicate 32 (record { aa = 0; count = 0 });
    smallest_hop_interval = 0xffffffff;
    consec_intervals = 0;
    first_ts = 0;
    prev_clk = 0;
  };
  clock = record { clkn = 2304; clkn_offset = 0; clk100ns_offset = 0; t0tc = 0; t0mr0 = 3124 };
  radio = record {
    channel = 2402;
    requested_channel = 0;
    hop_mode = hop_btle;
    do_hop = false;
    hop_direct_channel = 0;
    hop_timeout = 158;
    last_hop = 0;
    dma_discard = false;
  };
  rssi = record {
    rssi_max = pos 0;
    rssi_min = pos 0;
    rssi_count = 0;
    rssi_sum = pos 0;
    rssi_iir = replicate 79 (pos 0);
    beyond = λ channel. pos 0;
  };
  idle_buf = record { clkn_high = 0; clk100ns = 0; channel = 2402 };
  queue = idle_ring;
  status = 0;
  mode = idle;
  requested_mode = idle;
  jam_mode = 0;
  le_jam_count = 0;
  packet_cb = connection_follow;
}

-- CONNECT_REQ behind the access address of advertising: two addresses, the parameters, and hop 7
-- with a sleep clock accuracy of 1.
abbrev connect_req : List ℕ
connect_req =
    0xd6 ∷ 0xbe ∷ 0x89 ∷ 0x8e ∷ 0x05 ∷ 34 ∷ 1 ∷ 2 ∷ 3 ∷ 4 ∷ 5 ∷ 6 ∷ 7 ∷ 8 ∷ 9 ∷ 10 ∷ 11 ∷ 12 ∷ 0x74
    ∷ 0x65 ∷ 0x9a ∷ 0xaf ∷ 0x56 ∷ 0x34 ∷ 0x12 ∷ 2 ∷ 6 ∷ 0 ∷ 40 ∷ 0 ∷ 0 ∷ 0 ∷ 42 ∷ 0 ∷ 0xff ∷ 0xff
    ∷ 0xff ∷ 0xff ∷ 0x1f ∷ 0x27 ∷ []

abbrev advert : List ℕ
advert = 0xd6 ∷ 0xbe ∷ 0x89 ∷ 0x8e ∷ 0x00 ∷ 6 ∷ 1 ∷ 2 ∷ 3 ∷ 4 ∷ 5 ∷ 6 ∷ []

abbrev empty_data : List ℕ
empty_data = 0x74 ∷ 0x65 ∷ 0x9a ∷ 0xaf ∷ 0x01 ∷ 0x00 ∷ 1 ∷ 2 ∷ 3 ∷ []

is_byte : (p : List ℕ) → All (λ b. b < 256) p → (i : ℕ) → byte p i < 256
is_byte [] h i = omega arith
is_byte (b ∷ p) h zero = h.0
is_byte (b ∷ p) h (suc i) = is_byte p h.1 i

connect_req-All : All (λ b. b < 256) connect_req
connect_req-All = ground arith

abbrev heard : List (List ℕ)
heard = advert ∷ connect_req ∷ empty_data ∷ []

comes_to_connect : (follow heard device).le.link_state ≡ connected
unfolding follow connection_follow_cb is_connect set_access_address
comes_to_connect = refl

connected_after_connect_example :
    (before : List (List ℕ)) × (p : List ℕ) × (q : List ℕ) × (after : List (List ℕ)) × (heard
      ≡ before ++ (p ∷ q ∷ after))
    × (is_connect p link ≡ true)
connected_after_connect_example = connected_after_connect heard device refl comes_to_connect

-- In the middle of an interval of 3 ticks, its counter of hops about to wrap.
abbrev moving : Firmware
moving = record device {
  le = record link {
    link_state = connected;
    conn_epoch = 4;
    conn_interval = 3;
    interval_timer = 2;
    conn_count = 65535;
  };
}

moving-Ticking : Ticking 0 moving
moving-Ticking = record {
  by_btle = refl;
  linked = refl;
  no_offset = refl;
  clkn_range = omega arith;
  epoch_range = omega arith;
  in_phase = refl;
}

irqs-InInterval_example :
    InInterval 3 ((1 + 14 / 4) % 3) (65535 + (1 + 14 / 4) / 3) (irqs 14 moving).le
    × ((irqs 14 moving).radio.do_hop ≡ ltb 0 ((1 + 14 / 4) / 3))
irqs-InInterval_example =
    irqs-InInterval 14 3 1 65535 moving (omega arith) (omega arith) (omega arith) moving-Ticking
      (record { same_interval = refl; timer = refl; counted = refl })
