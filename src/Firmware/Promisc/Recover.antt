-- ===== src/Firmware/Promisc/Recover.antt =====
-- What the callbacks recover is what the connection was opened with.
use codetooth.Prelude.{
  ℕ, ◌+◌, ◌-◌, ◌*◌, ◌/◌, ◌%◌, ◌^◌, ◌<◌, ◌≡◌, refl, ap, ◌∙◌, bit_or, ltb, ◌==◌, true, false, not,
  ◌||◌, List, [], ◌∷◌, arith, get_or,
}
use native.Mathlib.Decide.{dec_lt}
use native.Mathlib.Nat.{mod-eq_of_lt, mod-eq-sub-mod}
use codetooth.Usb.Packet.{le_promisc}
use codetooth.Firmware.Enqueue.Laws.{Untouched, enqueue-Untouched}
use codetooth.Prelude.Table.{all_below, all_below_sound}
use codetooth.Prelude.Bits.{or_fields}
use codetooth.Le.State.{LeState, connected}
use codetooth.Le.Tables.{hop_interval_lut}
use codetooth.Le.Reversal.{reverse_bits, reverse_bits_twice}
use codetooth.Le.Crc.{crcgen_lut, reverse_crc}
use codetooth.Le.Crc.ByTable.{crcgen_lut-eq-calc_crc}
use codetooth.Le.Crc.Backward.{reverse_crc-calc_crc}
use codetooth.Firmware.State.{
  Firmware, Radio, recover_hop_interval, connection_follow, hop_btle, clk100ns_of,
}
use codetooth.Firmware.Follow.{byte}
use codetooth.Firmware.Promisc.{
  elapsed, divide_round, le_baseclk, promisc_state, bytes_of, packet_crc, take_crc_init,
  start_following, promisc_recover_hop_increment, promisc_follow_cb,
}

-- A clock that starts again at `period` measures any time shorter than that.
pub elapsed_lem :
    (period start ticks : ℕ)
    → 0 < period
    → period < 4294967296
    → ticks < period
    → start < period
    → elapsed period start ((start + ticks) % period) ≡ ticks
unfolding elapsed
elapsed_lem period start ticks pos word short low = elim (dec_lt (start + ticks) period) [
  | yes before ↦
      let later : (start + ticks) % period ≡ start + ticks = mod-eq_of_lt before in
      rw later (ground arith)
  | no wrapped ↦
      let later : (start + ticks) % period ≡ start + ticks - period =
        mod-eq-sub-mod {n = start + ticks} {m = period} (omega arith)
        ∙ mod-eq_of_lt (omega arith) in
      rw later (ground arith)
]

-- Only one increment comes round to the next channel after `n` hops.
lut_table :
    all_below 37
      (λ n. all_below 37 (λ i. not (n * i % 37 == 1) || get_or hop_interval_lut n 0 == i))
    ≡ true
unfolding all_below
lut_table = refl

lut_lem : (n i : ℕ) → n < 37 → i < 37 → n * i % 37 ≡ 1 → get_or hop_interval_lut n 0 ≡ i
lut_lem n i hn hi h =
    let row = all_below_sound 37 _ i (all_below_sound 37 _ n lut_table hn) hi in ground (arith, row)

pub promisc_state-Untouched :
    (type : ℕ) (bytes : List ℕ) (len : ℕ) (s : Firmware)
    → Untouched s (promisc_state type bytes len s)
unfolding promisc_state
promisc_state-Untouched type bytes len s = enqueue-Untouched le_promisc _ s

-- An empty data packet whose bits NESN and SN are 0, so with the header 01 00, and whose CRC was computed from `init` by either routine.
pub record IsPlainEmpty (init : ℕ) (packet : List ℕ) : Type 0 where
  pub header : (byte packet 4 ≡ 1) × (byte packet 5 ≡ 0)
  pub bytes : (byte packet 6 < 256) × (byte packet 7 < 256) × (byte packet 8 < 256)
  pub crc :
      byte packet 6 + 256 * byte packet 7 + 65536 * byte packet 8 ≡ crcgen_lut init (1 ∷ 0 ∷ [])

crc_word :
    (b0 b1 b2 : ℕ)
    → b0 < 256
    → b1 < 256
    → bit_or (bit_or (b2 * 2 ^ 16) (b1 * 2 ^ 8)) b0 ≡ b0 + 256 * b1 + 65536 * b2
crc_word b0 b1 b2 h0 h1 =
    ap (λ (t : ℕ). bit_or t b0) (or_fields 16 b2 (b1 * 2 ^ 8) (omega arith) ∙ whole)
    ∙ or_fields 8 (b2 * 256 + b1) b0 h0
    ∙ omega arith
  where
    whole : b2 * 2 ^ 16 + b1 * 2 ^ 8 ≡ (b2 * 256 + b1) * 2 ^ 8
    whole = omega arith

recovered :
    (init : ℕ) (packet : List ℕ)
    → init < 2 ^ 24
    → IsPlainEmpty init packet
    → reverse_crc (packet_crc packet) (byte packet 4 ∷ byte packet 5 ∷ []) ≡ reverse_bits 24 init
recovered init packet h e =
    rw
      (
        crc_word (byte packet 6) (byte packet 7) (byte packet 8) e.bytes.0 e.bytes.1,
        e.header.0,
        e.header.1,
        e.crc,
        crcgen_lut-eq-calc_crc init (1 ∷ 0 ∷ []) (omega arith),
      )
      (reverse_crc-calc_crc init (1 ∷ 0 ∷ []) h)

abbrev with_crc_init : ℕ → LeState → LeState
with_crc_init c le = record le {
  crc_init = c;
  crc_init_reversed = reverse_bits 24 c;
  crc_verify = true;
}

take_crc_init_lem :
    (c : ℕ) (s : Firmware)
    → ((take_crc_init c s).le ≡ with_crc_init c s.le)
      × ((take_crc_init c s).packet_cb ≡ recover_hop_interval)
unfolding take_crc_init
take_crc_init_lem c s =
    let told =
      promisc_state-Untouched 1 (bytes_of c) 3
        (record s { le = with_crc_init c s.le; packet_cb = recover_hop_interval }) in
    (told.le, told.packet_cb)

-- While the CRC is not checked, from one empty data packet with NESN and SN 0 (header 01 00) of a
-- connection whose CRC starts from `init`, of 24 bits, promisc_follow_cb recovers `init`: it is
-- the value that the CRC check then uses, crc_init holds its bits in reverse order, packets with a
-- bad CRC are dropped from there on, and the search for the hop interval begins.
pub promisc_follow_cb_recovers :
    (init : ℕ) (packet : List ℕ) (s : Firmware)
    → init < 2 ^ 24
    → s.le.crc_verify ≡ false
    → IsPlainEmpty init packet
    → let s' = promisc_follow_cb packet s in
      (s'.le.crc_init_reversed ≡ init)
      × (s'.le.crc_init ≡ reverse_bits 24 init)
      × (s'.le.crc_verify ≡ true)
      × (s'.packet_cb ≡ recover_hop_interval)
promisc_follow_cb_recovers init packet s h off e =
    let (le, cb) = take_crc_init_lem (reverse_bits 24 init) s in
    rw (taken, le, cb) (reverse_bits_twice 24 init h, refl, refl, refl)
  where
    taken : promisc_follow_cb packet s ≡ take_crc_init (reverse_bits 24 init) s
    taken = unfold promisc_follow_cb in rw (off, recovered init packet h e, e.header.0, e.header.1)

abbrev increment_found : ℕ → LeState → LeState
increment_found n le = record le {
  channel_increment = get_or hop_interval_lut n 0;
  interval_timer = le.conn_interval / 2;
  conn_count = 0;
  conn_epoch = 0;
  channel_idx = (1 + get_or hop_interval_lut n 0) % 37;
  link_state = connected;
  crc_verify = false;
}

abbrev hopping : Radio → Radio
hopping r = record r { do_hop = false; hop_mode = hop_btle }

start_following_lem :
    (n : ℕ) (s : Firmware)
    → let s' = start_following n s in
      (s'.le ≡ increment_found n s.le)
      × (s'.radio ≡ hopping s.radio)
      × (s'.packet_cb ≡ connection_follow)
unfolding start_following
start_following_lem n s =
    let told = promisc_state-Untouched 3 (get_or hop_interval_lut n 0 ∷ []) 1 (record s {
      le = increment_found n s.le;
      radio = hopping s.radio;
      packet_cb = connection_follow;
    }) in
    (told.le, told.radio, told.packet_cb)

-- Seen on channel 2404 MHz and then, `n` intervals later, on 2406 MHz, a connection gives its hop
-- increment away: promisc_recover_hop_increment finds it and goes on as for a connection that
-- was seen to open, if the time between, on a clock that starts again at 3276800000 ticks, rounds
-- to `n` intervals. `n` is the number of hops from the one channel to the next.
pub promisc_recover_hop_increment_finds :
    (n increment ticks : ℕ) (s : Firmware)
    → n < 37
    → increment < 37
    → n * increment % 37 ≡ 1
    → s.radio.channel ≡ 2406
    → s.promisc.first_ts < 3276800000
    → ticks < 3276800000
    → clk100ns_of s.clock ≡ (s.promisc.first_ts + ticks) % 3276800000
    → divide_round ticks (s.le.conn_interval * le_baseclk) ≡ n
    → let s' = promisc_recover_hop_increment s in
      (s'.le.channel_increment ≡ increment)
      × (s'.le.channel_idx ≡ (1 + increment) % 37)
      × (s'.le.link_state ≡ connected)
      × (s'.radio.hop_mode ≡ hop_btle)
      × (s'.packet_cb ≡ connection_follow)
promisc_recover_hop_increment_finds n increment ticks s hn hi turns on start short now rounds =
    let (le, radio, cb) = start_following_lem n s in
    rw (found, le, radio, cb, lut_lem n increment hn hi turns) (refl, refl, refl, refl, refl)
  where
    few : ltb n 37 ≡ true
    few = ground arith

    found : promisc_recover_hop_increment s ≡ start_following n s
    found =
        unfold promisc_recover_hop_increment in
        rw
          (
            on,
            now,
            elapsed_lem 3276800000 s.promisc.first_ts ticks (omega arith) (omega arith) short start,
            rounds,
            few,
          )
          refl
