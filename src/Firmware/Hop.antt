-- ===== src/Firmware/Hop.antt =====
-- hop: the choice of the next channel. The strobes of the radio and the waits for its lock
-- are not state; the register FSDIV is. The squelch level that it sets is in Hop/Sensed.
pub mod Sweep
pub mod Sensed
use codetooth.Prelude.{
  ℕ, zero, suc, ◌+◌, ◌-◌, ◌/◌, ◌%◌, u16, bit_and, ◌<<<◌, ltb, leb, ◌==◌, if◌then◌else◌, Bool, true,
  false, not, ◌&&◌, Option, none, some, List, get_or,
}
use codetooth.Le.State.{LeState}
use codetooth.Le.Channel.{btle_next_hop}
use codetooth.Classic.State.{Classic}
use codetooth.Classic.NextHop.{next_hop}
use codetooth.Firmware.State.{
  Firmware, HopMode, hop_none, hop_sweep, hop_bluetooth, hop_btle, hop_direct, hop_afh, is_hop_none,
}

-- The body of both sweeping loops.
pub next_swept : (channel : ℕ) → ℕ
next_swept channel = let up = u16 (channel + 32) in if ltb 2480 up then up - 79 else up

-- Whether the map, of 80 bits, has a channel. Below 2402 the source reads before it.
unfoldable pub in_map : Classic → (channel : ℕ) → Bool
in_map c channel =
    let n = channel - 2402 in
    if leb 2402 channel && leb n 79
    then not (bit_and (get_or c.afh_map (n / 8) 0) (1 <<< (n % 8)) == 0)
    else c.beyond_map channel

-- The two loops, `again` their condition; 79 rounds pass every channel of the band.
pub sweep : (fuel : ℕ) (again : ℕ → Bool) (channel : ℕ) → Option ℕ
unfolding next_swept
sweep zero again channel = none
sweep (suc fuel) again channel =
    let next = next_swept channel in
    let rest = sweep fuel again next in if again next then rest else some next

pub skips_unused : Classic → ℕ → Bool
unfolding in_map
skips_unused c channel = not (c.used_channels == 0) && (c.afh_enabled && not (in_map c channel))

pub skips_used : Classic → ℕ → Bool
unfolding in_map
skips_used c channel = not (c.used_channels == 79) && in_map c channel

abbrev pub keep_link : LeState → Option ℕ → Option (ℕ × LeState)
keep_link le none = none
keep_link le (some channel) = some (channel, le)

-- The branches on `hop_mode`: the channel, `none` where a loop or next_hop gives none, and the
-- link.
pub choose : HopMode → Classic → Firmware → Option (ℕ × LeState)
unfolding sweep skips_unused skips_used
choose hop_none c s = some (s.radio.channel, s.le)
choose hop_sweep c s = keep_link s.le (sweep 79 (skips_unused c) s.radio.channel)
choose hop_afh c s = keep_link s.le (sweep 79 (skips_used c) s.radio.channel)
choose hop_bluetooth c s = keep_link s.le (next_hop s.clock.clkn c)
choose hop_btle c s = some (btle_next_hop s.le)
choose hop_direct c s = some (s.radio.hop_direct_channel, s.le)

pub retune : Firmware → Option (ℕ × LeState) → Option (ℕ × Firmware)
retune s none = none
retune s (some (channel, le)) = some (
  channel - 1,
  record s { le = le; radio = record (s.radio) { channel = channel; dma_discard = true } },
)

-- `fsdiv` is the register FSDIV before; its value after comes with the state.
unfoldable pub hop : (fsdiv : ℕ) → Classic → Firmware → Option (ℕ × Firmware)
unfolding choose retune
hop fsdiv c s =
    let noted = record s { radio = record (s.radio) { do_hop = false; last_hop = s.clock.clkn } } in
    if is_hop_none s.radio.hop_mode && fsdiv == s.radio.channel - 1
    then some (fsdiv, noted)
    else retune noted (choose s.radio.hop_mode c noted)
