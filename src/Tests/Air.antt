-- ===== src/Tests/Air.antt =====
-- Packets on the air, their strength, and the silence after them.
use codetooth.Prelude.{
  Bool, none, some, ℕ, ◌≡◌, refl, ltb, ◌==◌, true, ◌&&◌, ◌||◌, List, [], ◌∷◌, ◌++◌, drop, replicate,
  arith,
}
use codetooth.Prelude.Int.{pos, negsuc}
use codetooth.Le.State.{connected}
use codetooth.Le.Channel.{channel_index_to_phys}
use codetooth.Firmware.State.{Firmware, Mode}
use codetooth.Firmware.Promisc.{bytes_of}
use codetooth.Firmware.Squelch.{Squelch}
use codetooth.Firmware.Transmit.{txbuf_of}
use codetooth.Firmware.Sync.{sync_packet, on_packet, deliver, timed_out, check_timeout}
use codetooth.Firmware.Sync.Accepted.{with_crc, transmitted_delivered}
use codetooth.Firmware.Sync.Timeout.{Given, timed_out_lem, check_timeout-Given}
use codetooth.Firmware.Ego.{Ego, follow, ego_start, handle}
use codetooth.Firmware.Ego.Machine.{InMachine, handled, begun, ego_main-InMachine}
use codetooth.Firmware.Symbols.{find_aa}
use codetooth.Firmware.Symbols.Search.{AreSymbols, first_place, find_aa-eq-first_place}
use codetooth.Tests.Receive.{device}

-- Asked for 10 above the average strength of a channel that has none yet.
abbrev asked : Squelch
asked = record {
  cs_threshold_req = pos 10;
  cs_threshold_cur = negsuc 119;
  cs_no_squelch = true;
  rssi_register = 0;
}

-- The advertising packet of bt_slave_le on the first advertising channel.
abbrev payload : List ℕ
payload = 6 ∷ 5 ∷ 4 ∷ 3 ∷ 2 ∷ 1 ∷ 0x02 ∷ 0x01 ∷ 0x05 ∷ []

transmitted_delivered_example :
    let sent = with_crc device.le.crc_init_reversed 0x00 0x09 payload in
    let packet =
      sync_packet device.le.access_address
        (channel_index_to_phys 37)
        (drop 4 (txbuf_of 0x8e89bed6 (channel_index_to_phys 37) sent) ++ replicate 30 0)
        [] in
    (tail : List ℕ) × (packet ≡ bytes_of device.le.access_address ++ (sent ++ tail))
    × (on_packet packet device ≡ deliver packet device)
transmitted_delivered_example =
    transmitted_delivered 37 0x8e89bed6 0x00 0x09 payload (replicate 30 0) [] device (omega arith)
      refl (omega arith) (ground arith) (ground arith) refl

-- Six seconds without a packet, over the end of CLK100NS.
abbrev silent : Firmware
silent = record device {
  le = record (device.le) { link_state = connected; last_packet = 3276799900 };
  clock = record (device.clock) { clkn = 19199; t0tc = 3025 };
}

timed_out_lem_example : timed_out silent ≡ (true && ltb 50000000 60000000 || 0 == 1)
timed_out_lem_example = timed_out_lem 3276799900 60000000 silent (omega arith) refl refl

check_timeout-Given_example :
    let after = check_timeout Mode.bt_follow_le 0 silent in
    Given (timed_out silent) Mode.bt_follow_le 0 silent after.1 after.0
check_timeout-Given_example = check_timeout-Given Mode.bt_follow_le 0 silent

-- A machine that follows, once it has started and heard a packet.
abbrev machine : Ego
machine = record { fsm = ego_start; fw = device }

ego_main-InMachine_example :
    InMachine follow 2402
      (handle follow (some (1 ∷ 2 ∷ [])) (handle follow none (handle follow none machine)))
ego_main-InMachine_example =
    ego_main-InMachine follow device
      (handle follow (some (1 ∷ 2 ∷ [])) (handle follow none (handle follow none machine)))
      (handled (some (1 ∷ 2 ∷ [])) (handle follow none (handle follow none machine))
        (handled none (handle follow none machine) (handled none machine begun)))

-- The advertising address behind ten ones, and zeros.
abbrev symbols : List ℕ
symbols =
    replicate 10 1
    ++ ((0 ∷ 1 ∷ 1 ∷ 0 ∷ 1 ∷ 0 ∷ 1 ∷ 1 ∷ 0 ∷ 1 ∷ 1 ∷ 1 ∷ 1 ∷ 1 ∷ 0 ∷ 1 ∷ [])
        ++ ((1 ∷ 0 ∷ 0 ∷ 1 ∷ 0 ∷ 0 ∷ 0 ∷ 1 ∷ 0 ∷ 1 ∷ 1 ∷ 1 ∷ 0 ∷ 0 ∷ 0 ∷ 1 ∷ [])
            ++ replicate 390 0))

are_symbols : List ℕ → Bool
are_symbols [] = true
are_symbols (b ∷ bits) = ltb b 2 && are_symbols bits

sound-AreSymbols : (bits : List ℕ) → are_symbols bits ≡ true → AreSymbols bits
unfolding are_symbols
sound-AreSymbols [] e = tt
sound-AreSymbols (b ∷ bits) e = ground (arith, sound-AreSymbols bits)

they_are : are_symbols symbols ≡ true
unfolding are_symbols
they_are = refl

found_at : find_aa 0x8e89bed6 symbols ≡ some 10
unfolding find_aa
found_at = refl

find_aa-eq-first_place_example : find_aa 0x8e89bed6 symbols ≡ first_place 401 0x8e89bed6 0 symbols
find_aa-eq-first_place_example =
    find_aa-eq-first_place 0x8e89bed6 symbols (sound-AreSymbols symbols they_are) (omega arith)
