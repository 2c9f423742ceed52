-- ===== src/Prelude/Table.antt =====
-- Facts about every number below a bound, by evaluation.
use Prim.Native.Nat.{ℕ, zero, suc, ◌<◌}
use mathlib.Core.Path.{◌≡◌}
use mathlib.Core.Bool.{Bool, true, ◌&&◌}
use native.Mathlib.Omega.{arith}

-- Whether a test passes at every number below `bound`.
unfoldable pub all_below : (bound : ℕ) (passes : ℕ → Bool) → Bool
all_below (suc m) passes = all_below m passes && passes m
all_below zero passes = true

pub all_below_sound :
    (bound : ℕ) (passes : ℕ → Bool) (i : ℕ)
    → all_below bound passes ≡ true
    → i < bound
    → passes i ≡ true
unfolding all_below
all_below_sound (suc m) passes i all inside = ground (arith, all_below_sound m passes i)
all_below_sound zero passes i all inside = absurd (omega arith)
