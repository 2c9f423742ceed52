-- ===== src/Classic/State.antt =====
-- The globals of bluetooth.c and bluetooth.h.
use codetooth.Prelude.{ℕ, Bool, List}

-- `access_code` and `address` are the fields of `target`; `beyond_map` is what a test of afh_map for a
-- channel that it has no bit for comes to.
pub record Classic : Type 0 where
  pub address : ℕ
  pub access_code : ℕ
  pub syncword : ℕ
  pub afh_enabled : Bool
  pub afh_map : List ℕ
  pub beyond_map : (channel : ℕ) → Bool
  pub used_channels : ℕ
  pub a1 : ℕ
  pub b : ℕ
  pub c1 : ℕ
  pub d1 : ℕ
  pub e : ℕ
  pub bank : List ℕ
  pub afh_bank : List ℕ

abbrev pub channels : ℕ
channels = 79
