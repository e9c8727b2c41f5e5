-- ===== src/Prelude/Bytes.antt =====
-- Facts about all bytes, checked value by value.
use Prim.Native.Nat.{ℕ, zero, suc, ◌<◌}
use mathlib.Core.Path.{◌≡◌}
use mathlib.Core.Bool.{Bool, true, ◌&&◌}
use native.Mathlib.Omega.{arith}

-- Whether `test` holds of every number below `limit`.
unfoldable pub all_below : ℕ → (ℕ → Bool) → Bool
all_below zero test = true
all_below (suc limit) test = all_below limit test && test limit

pub all_below_sound :
    (limit : ℕ) (test : ℕ → Bool) (n : ℕ) → all_below limit test ≡ true → n < limit → test n ≡ true
unfolding all_below
all_below_sound zero test n all h = absurd (omega arith)
all_below_sound (suc limit) test n all h = ground (arith, all_below_sound limit test n)
