-- ===== src/Usb/Packet.antt =====
-- `usb_pkt_rx` and the numbers of host/libubertooth/src/ubertooth_interface.h that travel in it.
use codetooth.Prelude.{ℕ, List}

-- `rssi_max`, `rssi_min` and `rssi_avg` are the bit patterns of signed bytes. `payload` is the
-- array `data` of DMA_SIZE bytes.
pub record Packet : Type 0 where
  pub pkt_type : ℕ
  pub status : ℕ
  pub channel : ℕ
  pub clkn_high : ℕ
  pub clk100ns : ℕ
  pub rssi_max : ℕ
  pub rssi_min : ℕ
  pub rssi_avg : ℕ
  pub rssi_count : ℕ
  pub payload : List ℕ

-- The members of enum usb_pkt_types.
pub data PacketType : Type 0 where
  br_packet le_packet message keep_alive specan le_promisc ego_packet : PacketType

abbrev pub type_code : PacketType → ℕ
type_code br_packet = 0
type_code le_packet = 1
type_code message = 2
type_code keep_alive = 3
type_code specan = 4
type_code le_promisc = 5
type_code ego_packet = 6
