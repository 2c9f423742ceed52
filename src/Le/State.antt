-- ===== src/Le/State.antt =====
-- `le_state_t` of bluetooth_le.h.
use codetooth.Prelude.{ℕ, Bool, List}

pub data LinkState : Type 0 where
  inactive listening conn_pending connected : LinkState

pub LinkState-discrete : Discrete LinkState
LinkState-discrete = hlevel

-- Integers of the widths of the source, kept below their moduli by the operations. The flags of
-- type `int` hold 0 or 1 only. `target` is the list of its 6 bytes.
pub record LeState : Type 0 where
  pub access_address : ℕ
  pub synch : ℕ
  pub syncl : ℕ
  pub crc_init : ℕ
  pub crc_init_reversed : ℕ
  pub crc_verify : Bool
  pub link_state : LinkState
  pub channel_idx : ℕ
  pub channel_increment : ℕ
  pub conn_epoch : ℕ
  pub interval_timer : ℕ
  pub conn_interval : ℕ
  pub conn_count : ℕ
  pub win_size : ℕ
  pub win_offset : ℕ
  pub update_pending : Bool
  pub update_instant : ℕ
  pub interval_update : ℕ
  pub win_size_update : ℕ
  pub win_offset_update : ℕ
  pub target : List ℕ
  pub target_set : Bool
  pub last_packet : ℕ
