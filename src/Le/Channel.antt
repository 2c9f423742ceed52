-- ===== src/Le/Channel.antt =====
-- Low Energy channels: indices, frequencies in MHz, and the hop from one to the next.
pub mod Laws
use codetooth.Prelude.{ℕ, ◌+◌, ◌-◌, ◌*◌, ◌/◌, ◌%◌, u8, ltb, ◌==◌, if◌then◌else◌}
use codetooth.Le.State.{LeState}

-- btle_channel_index of an offset from 2402 MHz, passed as a `u8`.
unfoldable pub channel_index : (channel : ℕ) → ℕ
channel_index channel =
    let half = u8 channel / 2 in
    if half == 0
    then 37
    else if ltb half 12
    then half - 1
    else if half == 12
    then 38
    else if ltb half 39
    then half - 2
    else 39

-- btle_channel_index_to_phys
unfoldable pub channel_index_to_phys : (idx : ℕ) → ℕ
channel_index_to_phys idx =
    if ltb idx 11
    then 2404 + 2 * idx
    else if ltb idx 37
    then 2428 + 2 * (idx - 11)
    else if idx == 37
    then 2402
    else if idx == 38
    then 2426
    else 2480

-- btle_next_hop: the frequency to tune to, and the state after.
unfoldable pub btle_next_hop : LeState → ℕ × LeState
unfolding channel_index_to_phys
btle_next_hop le = (
  channel_index_to_phys le.channel_idx,
  record le { channel_idx = (le.channel_idx + le.channel_increment) % 37 },
)
