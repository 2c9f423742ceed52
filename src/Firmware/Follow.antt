-- ===== src/Firmware/Follow.antt =====
-- Following a Low Energy connection: the access address, the reset of the link state, and what a
-- received packet does to it. Packets are lists of bytes; a byte out of range reads as 0, which C
-- leaves undefined and the 52 bytes of bt_le_sync exclude.
pub mod Link
use codetooth.Prelude.{
  ℕ, ◌+◌, ◌-◌, ◌*◌, ◌%◌, u8, u16, u32, bit_and, bit_or, bit_xor, ◌<<<◌, ◌>>>◌, ltb, ◌==◌,
  if◌then◌else◌, Bool, true, false, not, ◌&&◌, ◌||◌, List, [], ◌∷◌, get_or, take, drop,
}
use codetooth.Le.State.{LeState, LinkState, inactive, listening, conn_pending, connected}
use codetooth.Le.Reversal.{rbit}
use codetooth.Firmware.State.{Firmware, Clock, Radio, jam_none, jam_count_default}

abbrev pub byte : List ℕ → ℕ → ℕ
byte packet i = get_or packet i 0

-- `a[0] | a[1] << 8 | …`, as the loops and the expressions of the source assemble words.
abbrev pub le_word16 : List ℕ → ℕ → ℕ
le_word16 packet i = u16 (byte packet i + (byte packet (i + 1) <<< 8))

abbrev pub le_word24 : List ℕ → ℕ → ℕ
le_word24 packet i =
    bit_or (bit_or (byte packet (i + 2) <<< 16) (byte packet (i + 1) <<< 8)) (byte packet i)

abbrev pub le_word32 : List ℕ → ℕ → ℕ
le_word32 packet i =
    bit_or
      (bit_or (bit_or (byte packet i) (byte packet (i + 1) <<< 8)) (byte packet (i + 2) <<< 16))
      (byte packet (i + 3) <<< 24)

-- le_set_access_address
unfoldable pub set_access_address : ℕ → LeState → LeState
set_access_address aa le =
    let aa_rev = rbit aa in
    record le { access_address = aa; syncl = bit_and aa_rev 0xffff; synch = aa_rev >>> 16 }

-- The assignments of reset_le to the link; `target`, `target_set` and `win_offset_update`, whose line has no
-- assignment, stay.
unfoldable pub reset_link : LeState → LeState
reset_link le =
    let addressed = set_access_address 0x8e89bed6 le in
    record addressed {
      crc_init = 0x555555;
      crc_init_reversed = 0xAAAAAA;
      crc_verify = true;
      last_packet = 0;
      link_state = inactive;
      channel_idx = 0;
      channel_increment = 0;
      conn_epoch = 0;
      interval_timer = 0;
      conn_interval = 0;
      conn_count = 0;
      win_size = 0;
      win_offset = 0;
      update_pending = false;
      update_instant = 0;
      interval_update = 0;
      win_size_update = 0;
    }

unfoldable pub reset_le : Firmware → Firmware
unfolding reset_link
reset_le s = record s { le = reset_link s.le; radio = record (s.radio) { do_hop = false } }

abbrev same_bytes : List ℕ → List ℕ → Bool
same_bytes [] [] = true
same_bytes (x ∷ xs) (y ∷ ys) = x == y && same_bytes xs ys
same_bytes _ _ = false

-- `memcmp(le.target, &packet[i], 6) == 0`
abbrev pub address_at : LeState → List ℕ → ℕ → Bool
address_at le packet i = same_bytes le.target (take 6 (drop i packet))

-- The first packet on the channel of a new connection.
pub on_first_packet : Clock → LeState → LeState
on_first_packet clock le = record le {
  link_state = connected;
  conn_epoch = clock.clkn;
  interval_timer = u16 (le.conn_interval + 65535);
  conn_count = 0;
  update_pending = false;
}

-- New parameters take effect when the connection count reaches the instant.
pub apply_update : Clock → LeState → LeState
apply_update clock le =
    if le.update_pending && le.conn_count == le.update_instant
    then record le {
      conn_epoch = clock.clkn;
      conn_interval = le.interval_update;
      interval_timer = u16 (le.interval_update + 65535);
      win_size = le.win_size_update;
      win_offset = le.win_offset_update;
      update_pending = false;
    }
    else le

-- CONNECTION_UPDATE_REQ. The difference of the two counts is an `int`: below 32767 where the
-- instant lies less than 32767 ahead, and wherever it lies behind.
pub note_update : List ℕ → LeState → LeState
note_update packet le =
    if bit_and (byte packet 4) 0x03 == 0x03 && byte packet 6 == 0
    then record le {
      win_size_update = byte packet 7;
      win_offset_update = le_word16 packet 8;
      interval_update = le_word16 packet 10;
      update_instant = le_word16 packet 16;
      update_pending =
          (if ltb (le_word16 packet 16) (le.conn_count + 32767) then true else le.update_pending);
    }
    else le

-- A connect packet to or from the target, or any where no target is set.
pub is_wanted : List ℕ → LeState → Bool
is_wanted packet le =
    not (le.target_set && not (address_at le packet 6) && not (address_at le packet 12))

-- A packet that a listening link takes for the start of a connection.
unfoldable pub is_connect : List ℕ → LeState → Bool
unfolding is_wanted
is_connect packet le = bit_and (byte packet 4) 0x0F == 0x05 && is_wanted packet le

-- The fields of CONNECT_REQ. `win_offset` and `conn_interval` are read from one byte each.
pub open_connection : List ℕ → LeState → LeState
open_connection packet le =
    let pending = record le { link_state = conn_pending; crc_verify = false } in
    let addressed = set_access_address (le_word32 packet 18) pending in
    record addressed {
      crc_init = le_word24 packet 22;
      crc_init_reversed = rbit (le_word24 packet 22);
      win_size = byte packet 25;
      win_offset = byte packet 26;
      conn_interval = byte packet 28;
      channel_increment = bit_and (byte packet 39) 0x1f;
      channel_idx = bit_and (byte packet 39) 0x1f;
    }

pub follow_by : LinkState → List ℕ → Firmware → Firmware
unfolding on_first_packet apply_update note_update open_connection
follow_by conn_pending packet s = record s {
  le = on_first_packet s.clock s.le;
  le_jam_count = (if s.jam_mode == jam_none then s.le_jam_count else jam_count_default);
}
follow_by connected packet s = record s { le = note_update packet (apply_update s.clock s.le) }
follow_by listening packet s =
    if is_connect packet s.le
    then record s { le = open_connection packet s.le; radio = record (s.radio) { do_hop = true } }
    else s
follow_by inactive packet s = s

-- connection_follow_cb
unfoldable pub connection_follow_cb : List ℕ → Firmware → Firmware
unfolding follow_by
connection_follow_cb packet s = follow_by s.le.link_state packet s
