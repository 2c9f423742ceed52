-- ===== src/Tests/Link.antt =====
-- The link layer: CRC, whitening and channels.
use codetooth.Prelude.{◌+◌, ◌≡◌, ◌≢◌, refl, false, [], ◌∷◌, replicate, arith}
use codetooth.Le.State.{LeState, listening}
use codetooth.Le.Reversal.{reverse_bits}
use codetooth.Le.Crc.{calc_crc, crcgen_lut, reverse_crc}
use codetooth.Le.Crc.ByTable.{crcgen_lut-eq-calc_crc}
use codetooth.Le.Crc.Backward.{reverse_crc-calc_crc}
use codetooth.Le.Channel.Laws.{hops, next_frequency, hops_distinct}

-- A link after reset_le, with a hop increment of 7.
abbrev pub link : LeState
link = record {
  access_address = 0x8e89bed6;
  synch = 0x6b7d;
  syncl = 0x9171;
  crc_init = 0x555555;
  crc_init_reversed = 0xAAAAAA;
  crc_verify = false;
  link_state = listening;
  channel_idx = 0;
  channel_increment = 7;
  conn_epoch = 0;
  interval_timer = 0;
  conn_interval = 0;
  conn_count = 0;
  win_size = 0;
  win_offset = 0;
  update_pending = false;
  update_instant = 0;
  interval_update = 0;
  win_size_update = 0;
  win_offset_update = 0;
  target = replicate 6 0;
  target_set = false;
  last_packet = 0;
}

crc_of_header : calc_crc 0x555555 (0x40 ∷ 0x02 ∷ []) ≡ crcgen_lut 0x555555 (0x40 ∷ 0x02 ∷ [])
unfolding calc_crc crcgen_lut
crc_of_header = refl

crcgen_lut-eq-calc_crc_example :
    crcgen_lut 0xAAAAAA (0x40 ∷ 0xff ∷ []) ≡ calc_crc 0xAAAAAA (0x40 ∷ 0xff ∷ [])
crcgen_lut-eq-calc_crc_example =
    crcgen_lut-eq-calc_crc 0xAAAAAA (0x40 ∷ 0xff ∷ []) (omega arith, (omega arith, tt))

reverse_crc-calc_crc_example :
    reverse_crc (calc_crc 0x123456 (0x01 ∷ 0x00 ∷ [])) (0x01 ∷ 0x00 ∷ []) ≡ reverse_bits 24 0x123456
reverse_crc-calc_crc_example = reverse_crc-calc_crc 0x123456 (0x01 ∷ 0x00 ∷ []) (omega arith)

hops_distinct_example : next_frequency (hops 3 link) ≢ next_frequency (hops (3 + 5) link)
hops_distinct_example =
    hops_distinct 3 5 link (omega arith) (omega arith) (omega arith) (omega arith) (omega arith)
