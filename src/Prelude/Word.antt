-- ===== src/Prelude/Word.antt =====
-- Casts to the fixed widths and shifts of C. A `w`-bit value is a number below `2 ^ w`; `-` of ℕ
-- stops at 0, so a wrapping subtraction adds the modulus first.
use Prim.Native.Nat.{ℕ, ◌+◌, ◌-◌, ◌*◌, ◌/◌, ◌%◌, ◌^◌}

infixl 75 ◌<<<◌ ◌>>>◌
abbrev pub ◌<<<◌ : ℕ → ℕ → ℕ
x <<< k = x * 2 ^ k

abbrev pub ◌>>>◌ : ℕ → ℕ → ℕ
x >>> k = x / 2 ^ k

abbrev pub u32 : (x : ℕ) → ℕ
u32 x = x % 4294967296

-- `a - b` in `uint32_t`, for `b` below the modulus.
abbrev pub sub32 : (a b : ℕ) → ℕ
sub32 a b = u32 (a + 4294967296 - b)

abbrev pub u16 : (x : ℕ) → ℕ
u16 x = x % 65536

abbrev pub u8 : (x : ℕ) → ℕ
u8 x = x % 256
