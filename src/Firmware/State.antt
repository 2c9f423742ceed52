-- ===== src/Firmware/State.antt =====
-- The globals of bluetooth_rxtx.c, grouped by what they are about. Registers of the radio chip and
-- of the processor are state only where a function reads back what it wrote.
use codetooth.Prelude.{ℕ, ◌+◌, ◌*◌, u32, bit_and, ◌==◌, Bool, false, List}
use codetooth.Prelude.Int.{ℤ}
use codetooth.Le.State.{LeState}
use codetooth.Usb.Queue.{Queue}

-- enum hop_mode of ubertooth_interface.h.
pub data HopMode : Type 0 where
  hop_none hop_sweep hop_bluetooth hop_btle hop_direct hop_afh : HopMode

-- enum operating_modes of firmware/common/ubertooth.h.
pub data Mode : Type 0 where
  idle rx_symbols tx_symbols tx_test specan range_test repeater led_specan bt_follow bt_follow_le
        bt_promisc_le reset bt_slave_le ego afh :
      Mode

-- The numbers of the modes, by which they are compared.
abbrev pub mode_code : Mode → ℕ
mode_code idle = 0
mode_code rx_symbols = 1
mode_code tx_symbols = 2
mode_code tx_test = 3
mode_code specan = 4
mode_code range_test = 5
mode_code repeater = 6
mode_code led_specan = 7
mode_code bt_follow = 8
mode_code bt_follow_le = 9
mode_code bt_promisc_le = 10
mode_code reset = 11
mode_code bt_slave_le = 12
mode_code ego = 13
mode_code afh = 14

abbrev pub same_mode : Mode → Mode → Bool
same_mode m n = mode_code m == mode_code n

-- The functions that `packet_cb` points to.
pub data PacketCb : Type 0 where
  no_cb connection_follow promisc_follow recover_hop_interval recover_hop_increment : PacketCb

abbrev pub is_hop_none : HopMode → Bool
is_hop_none hop_none = Bool.true
is_hop_none _ = false

-- `le_promisc`, and the static variables of the two functions that recover hopping. `count` is an
-- `int` that only goes up.
pub record SeenAddress : Type 0 where
  pub aa : ℕ
  pub count : ℕ

pub record Promisc : Type 0 where
  pub active_aa : List SeenAddress
  pub smallest_hop_interval : ℕ
  pub consec_intervals : ℕ
  pub first_ts : ℕ
  pub prev_clk : ℕ

-- `t0tc` is the counter register T0TC, which the hardware advances within a tick of `clkn`, and
-- `t0mr0` the match register T0MR0.
pub record Clock : Type 0 where
  pub clkn : ℕ
  pub clkn_offset : ℕ
  pub clk100ns_offset : ℕ
  pub t0tc : ℕ
  pub t0mr0 : ℕ

pub record Radio : Type 0 where
  pub channel : ℕ
  pub requested_channel : ℕ
  pub hop_mode : HopMode
  pub do_hop : Bool
  pub hop_direct_channel : ℕ
  pub hop_timeout : ℕ
  pub last_hop : ℕ
  pub dma_discard : Bool

-- Signal strengths; the scaled average of each of the 79 channels, or of all in the first slot.
-- `beyond` is what the memory around rssi_iir holds at the place of a channel outside the band.
pub record Rssi : Type 0 where
  pub rssi_max : ℤ
  pub rssi_min : ℤ
  pub rssi_count : ℕ
  pub rssi_sum : ℤ
  pub rssi_iir : List ℤ
  pub beyond : (channel : ℕ) → ℤ

-- What bt_stream_dma_handler noted when the idle buffer was filled.
pub record IdleBuf : Type 0 where
  pub clkn_high : ℕ
  pub clk100ns : ℕ
  pub channel : ℕ

pub record Firmware : Type 0 where
  pub le : LeState
  pub promisc : Promisc
  pub clock : Clock
  pub radio : Radio
  pub rssi : Rssi
  pub idle_buf : IdleBuf
  pub queue : Queue
  pub status : ℕ
  pub mode : Mode
  pub requested_mode : Mode
  pub jam_mode : ℕ
  pub le_jam_count : ℕ
  pub packet_cb : PacketCb

abbrev pub jam_none : ℕ
jam_none = 0

abbrev pub jam_count_default : ℕ
jam_count_default = 40

-- The macro CLK100NS.
abbrev pub clk100ns_of : Clock → ℕ
clk100ns_of c = u32 (3125 * bit_and c.clkn 0xfffff + c.t0tc)
