-- ===== src/Firmware/Vendor/Control.antt =====
-- One control transfer: the `bytes` at `data`, their number in `*data_len`, and what a case of
-- vendor_request_handler does with them before it returns.
use codetooth.Prelude.{
  ℕ, zero, suc, ◌+◌, ◌*◌, u32, bit_or, bit_and, ◌<<<◌, ◌>>>◌, if◌then◌else◌, Bool, true, false,
  List, [], ◌∷◌, ◌++◌, get_or, drop, length,
}
use codetooth.Usb.Packet.{Packet}
use codetooth.Firmware.Device.{Device}

pub record Exchange : Type 0 where
  pub bytes : List ℕ
  pub data_len : ℕ

-- `accepted` is what the handler returns, if it returns.
pub record Answer : Type 0 where
  pub returns : Bool
  pub accepted : Bool
  pub exchange : Exchange
  pub device : Device

-- `break` after the changes of a case, and `return 0`.
abbrev pub accept : Exchange → Device → Answer
accept x d = record { returns = true; accepted = true; exchange = x; device = d }

abbrev pub refuse : Exchange → Device → Answer
refuse x d = record { returns = true; accepted = false; exchange = x; device = d }

-- A case that hands the processor over and never comes back: to the boot loader, or to the watchdog,
-- which resets it long before the wait of reset() is over.
abbrev pub leave : Exchange → Device → Answer
leave x d = record { returns = false; accepted = true; exchange = x; device = d }

-- A case under `#ifdef`: without the option the request reaches `default`.
abbrev pub built_with : Bool → Exchange → Device → Answer → Answer
built_with option x d answer = if option then answer else refuse x d

-- `data[0] = …; data[1] = …; *data_len = …`, and `*data_len` alone.
unfoldable pub reply : List ℕ → Exchange → Exchange
reply sent x = record { bytes = sent ++ drop (length sent) x.bytes; data_len = length sent }

abbrev pub resize : ℕ → Exchange → Exchange
resize n x = record x { data_len = n }

abbrev pub param : List ℕ → ℕ → ℕ
param request_params i = get_or request_params i 0

abbrev pub datum : Exchange → ℕ → ℕ
datum x i = get_or x.bytes i 0

-- `data[i] = (word >> (8*i)) & 0xff` for the `n` bytes from byte `i` on.
unfoldable pub split_bytes : (n i word : ℕ) → List ℕ
split_bytes zero i word = []
split_bytes (suc n) i word = bit_and (word >>> (8 * i)) 0xff ∷ split_bytes n (i + 1) word

-- `word |= (uint64_t)data[start + i] << 8*i`
unfoldable pub join_bytes : (n i start word : ℕ) → Exchange → ℕ
join_bytes zero i start word x = word
join_bytes (suc n) i start word x =
    join_bytes n (i + 1) start (bit_or word (datum x (i + start) <<< (8 * i))) x

-- `word <<= 8; word |= data[i]`
unfoldable pub join_high_first : (n i word : ℕ) → Exchange → ℕ
join_high_first zero i word x = word
join_high_first (suc n) i word x =
    join_high_first n (i + 1) (bit_or (u32 (word <<< 8)) (datum x i)) x

-- The 64 bytes of a packet, with the two of `reserved`, which nothing writes.
unfoldable pub packet_bytes : Packet → List ℕ
unfolding split_bytes
packet_bytes p =
    (p.pkt_type ∷ p.status ∷ p.channel ∷ p.clkn_high ∷ split_bytes 4 0 p.clk100ns)
    ++ ((p.rssi_max ∷ p.rssi_min ∷ p.rssi_avg ∷ p.rssi_count ∷ 0 ∷ 0 ∷ []) ++ p.payload)
