-- ===== src/Classic/NextHop.antt =====
-- precalc and next_hop: the channel of each clock value of a piconet.
pub mod Distinct
use codetooth.Prelude.{
  ℕ, zero, suc, ◌+◌, ◌*◌, ◌/◌, ◌%◌, u8, bit_and, bit_xor, ◌<<<◌, ◌>>>◌, ◌==◌, if◌then◌else◌, Option,
  none, some, List, [], ◌∷◌, get_or, get_elem?, set,
}
use codetooth.Classic.State.{Classic, channels}
use codetooth.Classic.CountBits.{count_bits}
use codetooth.Classic.Perm5.{perm5}

-- The loop that writes every entry of `bank`, from entry `i` on.
pub bank_from : (left i : ℕ) → List ℕ
bank_from zero i = []
bank_from (suc left) i = i * 2 % channels ∷ bank_from left (i + 1)

pub count_map : (afh_map : List ℕ) (used_channels : ℕ) → ℕ
count_map [] used = used
count_map (byte ∷ bytes) used = count_map bytes (u8 (used + count_bits byte))

-- The last loop has no braces: it only computes `chan`, again and again.
pub chan_after : (left i chan : ℕ) → ℕ
chan_after zero i chan = chan
chan_after (suc left) i chan = chan_after left (i + 1) (i * 2 % channels)

-- The statements under `if(afh_enabled)`. The test after the loop is made once, with the last
-- value of `chan`.
unfoldable pub precalc_afh : Classic → Classic
unfolding count_map chan_after
precalc_afh s =
    let chan = chan_after channels 0 0 in
    let missing = bit_and (get_or s.afh_map (chan / 8) 0) (1 <<< (chan % 8)) == 0 in
    record s {
      used_channels = count_map s.afh_map 0;
      bank = (if missing then s.bank else set s.bank 0 chan);
    }

unfoldable pub precalc : Classic → Classic
unfolding bank_from precalc_afh
precalc s =
    let address = bit_and s.address 0xffffffff in
    let ready = record s {
      syncword = 0;
      bank = bank_from channels 0;
      a1 = bit_and (address >>> 23) 0x1f;
      b = bit_and (address >>> 19) 0x0f;
      c1 =
          bit_and (address >>> 4) 0x10
          + bit_and (address >>> 3) 0x08
          + bit_and (address >>> 2) 0x04
          + bit_and (address >>> 1) 0x02
          + bit_and address 0x01;
      d1 = bit_and (address >>> 10) 0x1ff;
      e =
          bit_and (address >>> 7) 0x40
          + bit_and (address >>> 6) 0x20
          + bit_and (address >>> 5) 0x10
          + bit_and (address >>> 4) 0x08
          + bit_and (address >>> 3) 0x04
          + bit_and (address >>> 2) 0x02
          + bit_and (address >>> 1) 0x01;
    } in
    if s.afh_enabled then precalc_afh ready else ready

abbrev pub y1_of : (clock : ℕ) → ℕ
y1_of clock = bit_and (clock >>> 1) 0x01

abbrev pub base_f_of : (clock : ℕ) → ℕ
base_f_of clock = bit_and (clock >>> 3) 0x1fffff0

-- `perm` of next_hop.
pub perm_of : (clock : ℕ) → Classic → ℕ
perm_of clock s =
    let x = bit_and (clock >>> 2) 0x1f in
    let a = bit_and (bit_xor s.a1 (clock >>> 21)) 0x1f in
    let c = bit_and (bit_xor s.c1 (clock >>> 16)) 0x1f in
    let d = bit_and (bit_xor s.d1 (clock >>> 7)) 0x1ff in
    perm5 (bit_xor ((x + a) % 32) s.b) (bit_xor (y1_of clock * 0x1f) c) d

-- `return (2402 + next_channel)`
pub tuned : Option ℕ → Option ℕ
tuned none = none
tuned (some next_channel) = some (2402 + next_channel)

-- The frequency, or `none` where the source divides by zero or reads beyond an array.
unfoldable pub next_hop : (clock : ℕ) → Classic → Option ℕ
unfolding perm_of tuned
next_hop clock s =
    let y2 = y1_of clock <<< 5 in
    let f = base_f_of clock % 79 in
    let plain = get_elem? s.bank ((perm_of clock s + s.e + f + y2) % channels) in
    let f_dash = base_f_of clock % s.used_channels in
    let adapted = get_elem? s.afh_bank ((perm_of clock s + s.e + f_dash + y2) % s.used_channels) in
    tuned (if s.afh_enabled then (if s.used_channels == 0 then none else adapted) else plain)
