-- ===== src/Tests/Recover.antt =====
-- Recovering a connection of interval 40 and hop increment 7.
use codetooth.Prelude.{
  ℕ, ◌<◌, ◌≤◌, ◌≡◌, refl, true, none, some, List, [], ◌∷◌, length, set, All, arith,
}
use codetooth.Le.State.{connected}
use codetooth.Le.Crc.{crcgen_lut}
use codetooth.Le.Reversal.{reverse_bits}
use codetooth.Firmware.State.{
  Firmware, SeenAddress, recover_hop_interval, connection_follow, hop_btle,
}
use codetooth.Firmware.Promisc.{
  promisc_follow_cb, promisc_recover_hop_increment, see_aa, count_known,
}
use codetooth.Firmware.Promisc.Recover.{
  IsPlainEmpty, promisc_follow_cb_recovers, promisc_recover_hop_increment_finds,
}
use codetooth.Firmware.Promisc.Seen.{count_at, see_aa_new}
use codetooth.Tests.Link.{link}
use codetooth.Tests.Receive.{device}

abbrev overheard : List ℕ
overheard = 0x74 ∷ 0x65 ∷ 0x9a ∷ 0xaf ∷ 0x01 ∷ 0x00 ∷ 0x60 ∷ 0x45 ∷ 0x46 ∷ []

overheard-IsPlainEmpty : IsPlainEmpty 0x123456 overheard
unfolding crcgen_lut
overheard-IsPlainEmpty = record {
  header = (refl, refl);
  bytes = (omega arith, omega arith, omega arith);
  crc = refl;
}

promisc_follow_cb_recovers_example :
    let s' = promisc_follow_cb overheard device in
    (s'.le.crc_init_reversed ≡ 0x123456)
    × (s'.le.crc_init ≡ reverse_bits 24 0x123456)
    × (s'.le.crc_verify ≡ true)
    × (s'.packet_cb ≡ recover_hop_interval)
promisc_follow_cb_recovers_example =
    promisc_follow_cb_recovers 0x123456 overheard device (omega arith) refl overheard-IsPlainEmpty

-- Sixteen intervals of 40 * 12500 ticks, and a little, after 3276000000, past the rollover.
abbrev second_sight : Firmware
second_sight = record device {
  le = record link { conn_interval = 40 };
  radio = record (device.radio) { channel = 2406 };
  promisc = record (device.promisc) { first_ts = 3276000000 };
  clock = record (device.clock) { clkn = 2304; t0tc = 77 };
}

promisc_recover_hop_increment_finds_example :
    let s' = promisc_recover_hop_increment second_sight in
    (s'.le.channel_increment ≡ 7)
    × (s'.le.channel_idx ≡ 8)
    × (s'.le.link_state ≡ connected)
    × (s'.radio.hop_mode ≡ hop_btle)
    × (s'.packet_cb ≡ connection_follow)
promisc_recover_hop_increment_finds_example =
    promisc_recover_hop_increment_finds 16 7 8000077 second_sight (omega arith) (omega arith) refl
      refl (omega arith) (omega arith) refl refl

abbrev seen : List SeenAddress
seen =
    record { aa = 11; count = 3 }
    ∷ record { aa = 12; count = 1 }
    ∷ record { aa = 13; count = 2 }
    ∷ []

abbrev seen_again : List SeenAddress
seen_again =
    record { aa = 11; count = 3 }
    ∷ record { aa = 12; count = 1 }
    ∷ record { aa = 13; count = 3 }
    ∷ []

known : count_known 13 seen ≡ some seen_again
unfolding count_known
known = refl

unknown : count_known 14 seen ≡ none
unfolding count_known
unknown = refl

see_aa_new_example :
    (victim : ℕ) × (victim < length seen)
    × All (λ e. count_at seen victim ≤ e.count) seen
    × (see_aa 14 seen ≡ set seen victim (record { aa = 14; count = 1 }))
see_aa_new_example = see_aa_new 14 seen (omega arith) unknown
