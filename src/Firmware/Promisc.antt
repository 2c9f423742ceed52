-- ===== src/Firmware/Promisc.antt =====
-- Finding connections that were not seen to open: the table of access addresses, and the callbacks
-- that recover the initial CRC value, the hop interval and the hop increment, one after another.
pub mod Seen
pub mod Recover
use codetooth.Prelude.{
  ℕ, zero, suc, ◌+◌, ◌-◌, ◌*◌, ◌/◌, ◌%◌, min, u16, u32, sub32, bit_and, bit_or, ◌<<<◌, ◌>>>◌, ltb,
  ◌==◌, if◌then◌else◌, Bool, true, false, not, ◌&&◌, ◌||◌, Option, none, some, List, [], ◌∷◌, ◌++◌,
  get_or, take, replicate, set,
}
use codetooth.Usb.Packet.{PacketType, le_promisc}
use codetooth.Le.State.{LeState, connected}
use codetooth.Le.Tables.{hop_interval_lut}
use codetooth.Le.Crc.{reverse_crc}
use codetooth.Le.Reversal.{reverse_bits}
use codetooth.Firmware.State.{
  Firmware, Clock, Radio, Promisc, SeenAddress, PacketCb, connection_follow, promisc_follow,
  recover_hop_interval, recover_hop_increment, hop_btle, hop_direct, jam_none, jam_count_default,
  clk100ns_of,
}
use codetooth.Firmware.Enqueue.{enqueue}
use codetooth.Firmware.Follow.{byte}

abbrev pub le_baseclk : ℕ
le_baseclk = 12500

-- reset_le_promisc. The static variables of the callbacks are not part of `le_promisc`.
unfoldable pub reset_le_promisc : Promisc → Promisc
reset_le_promisc p = record p {
  active_aa = replicate 32 (record { aa = 0; count = 0 });
  smallest_hop_interval = 0xffffffff;
  consec_intervals = 0;
}

-- le_promisc_state: a state message of `type` and the first `len` bytes of a variable.
unfoldable pub promisc_state : (type : ℕ) (bytes : List ℕ) (len : ℕ) → Firmware → Firmware
promisc_state type bytes len s =
    (enqueue le_promisc (take 50 (type ∷ take (min len 49) bytes ++ replicate 49 0)) s).1

-- The bytes of a variable in memory, lowest first.
abbrev pub bytes_of : ℕ → List ℕ
bytes_of x = x % 256 ∷ x / 256 % 256 ∷ x / 65536 % 256 ∷ x / 16777216 % 256 ∷ []

-- The macro DIVIDE_ROUND over uint32_t.
abbrev pub divide_round : ℕ → ℕ → ℕ
divide_round n d = u32 (n + d / 2) / d

-- The ticks from one reading of CLK100NS to a later one, for a clock that starts again at
-- `period`.
pub elapsed : (period earlier later : ℕ) → ℕ
elapsed period earlier later =
    sub32 (if ltb later earlier then u32 (later + period) else later) earlier

pub to_direct : ℕ → Firmware → Firmware
to_direct channel s = record s {
  radio = record (s.radio) { hop_direct_channel = channel; do_hop = true };
}

-- The branch of promisc_recover_hop_increment that knows the increment.
pub start_following : (channels_hopped : ℕ) → Firmware → Firmware
unfolding promisc_state
start_following channels_hopped s =
    let increment = get_or hop_interval_lut channels_hopped 0 in
    let le = record (s.le) {
      channel_increment = increment;
      interval_timer = s.le.conn_interval / 2;
      conn_count = 0;
      conn_epoch = 0;
      channel_idx = (1 + increment) % 37;
      link_state = connected;
      crc_verify = false;
    } in
    let followed = record s {
      le = le;
      radio = record (s.radio) { do_hop = false; hop_mode = hop_btle };
      packet_cb = connection_follow;
    } in
    let told = promisc_state 3 (increment ∷ []) 1 followed in
    record told {
      le_jam_count = (if s.jam_mode == jam_none then told.le_jam_count else jam_count_default);
    }

-- promisc_recover_hop_increment
unfoldable pub promisc_recover_hop_increment : Firmware → Firmware
unfolding elapsed to_direct start_following
promisc_recover_hop_increment s =
    let now = clk100ns_of s.clock in
    if s.radio.channel == 2404
    then to_direct 2406 (record s { promisc = record (s.promisc) { first_ts = now } })
    else if s.radio.channel == 2406
    then (let channels_hopped =
          divide_round (elapsed 3276800000 s.promisc.first_ts now)
            (s.le.conn_interval * le_baseclk) in
        if ltb channels_hopped 37 then start_following channels_hopped s else to_direct 2404 s)
    else to_direct 2404 s

-- The comparison of an observed interval with the one recovered so far; `cur_clk` is the reading
-- with the rollover added.
pub note_interval : (observed cur_clk : ℕ) → Firmware → Firmware
unfolding promisc_state
note_interval observed cur_clk s =
    if s.le.conn_interval == observed
    then (let counted = record s {
      promisc = record (s.promisc) {
        consec_intervals = s.promisc.consec_intervals + 1;
        prev_clk = cur_clk;
      };
    } in
        if s.promisc.consec_intervals + 1 == 5
        then promisc_state 2 (bytes_of observed) 2 (record counted {
          packet_cb = recover_hop_increment;
          radio = record (s.radio) {
            hop_direct_channel = 2404;
            hop_mode = hop_direct;
            do_hop = true;
          };
        })
        else counted)
    else record s {
      le = record (s.le) { conn_interval = observed };
      promisc = record (s.promisc) { consec_intervals = 0; prev_clk = cur_clk };
    }

-- promisc_recover_hop_interval. The constant that it adds on a rollover is 3267800000.
unfoldable pub promisc_recover_hop_interval : Firmware → Firmware
unfolding note_interval
promisc_recover_hop_interval s =
    let now = clk100ns_of s.clock in
    let cur_clk = if ltb now s.promisc.prev_clk then u32 (now + 3267800000) else now in
    let clk_diff = sub32 cur_clk s.promisc.prev_clk in
    if ltb clk_diff (2 * le_baseclk)
    then s
    else (let smallest = min clk_diff s.promisc.smallest_hop_interval in
        note_interval (u16 (divide_round smallest (37 * le_baseclk))) cur_clk
          (record s { promisc = record (s.promisc) { smallest_hop_interval = smallest } }))

-- promisc_follow_cb: an empty data packet gives the initial CRC value away.
pub take_crc_init : (crc_init : ℕ) → Firmware → Firmware
unfolding promisc_state
take_crc_init crc_init s = promisc_state 1 (bytes_of crc_init) 3 (record s {
  le = record (s.le) {
    crc_init = crc_init;
    crc_init_reversed = reverse_bits 24 crc_init;
    crc_verify = true;
  };
  packet_cb = recover_hop_interval;
})

abbrev pub packet_crc : List ℕ → ℕ
packet_crc packet = bit_or (bit_or (byte packet 8 <<< 16) (byte packet 7 <<< 8)) (byte packet 6)

unfoldable pub promisc_follow_cb : List ℕ → Firmware → Firmware
unfolding take_crc_init
promisc_follow_cb packet s =
    if not s.le.crc_verify && byte packet 4 == 0x01 && byte packet 5 == 0x00
    then take_crc_init (reverse_crc (packet_crc packet) (byte packet 4 ∷ byte packet 5 ∷ [])) s
    else s

-- see_aa, where the address is in the table: its first entry counts one more.
unfoldable pub count_known : ℕ → List SeenAddress → Option (List SeenAddress)
count_known aa [] = none
count_known aa (e ∷ es) =
    if e.aa == aa
    then some (record { aa = e.aa; count = e.count + 1 } ∷ es)
    else elim (count_known aa es) [ none ↦ none | some es' ↦ some (e ∷ es') ]

-- The loop that looks for an entry to evict, at index `i`: `max` is the count of the entry
-- `killme`, `none` the -1 before the first.
pub find_victim : (entries : List SeenAddress) (i killme : ℕ) (max : Option ℕ) → ℕ
find_victim [] i killme max = killme
find_victim (e ∷ es) i killme none = find_victim es (i + 1) i (some e.count)
find_victim (e ∷ es) i killme (some m) =
    let better = ltb e.count m in
    find_victim es (i + 1) (if better then i else killme) (some (if better then e.count else m))

unfoldable pub see_aa : ℕ → List SeenAddress → List SeenAddress
unfolding count_known find_victim
see_aa aa entries = elim (count_known aa entries) [
  | some counted ↦ counted
  | none ↦ set entries (find_victim entries 0 0 none) (record { aa = aa; count = 1 })
]
