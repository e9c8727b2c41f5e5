-- ===== src/Prelude/Division.antt =====
-- Quotients and remainders by a divisor that is not a numeral.
use native.Mathlib.Nat.{mod-eq_of_lt, mod-add-mod, div-eq_of_lt, mul-add-div, div-add-mod}
use Prim.Native.Nat.{ℕ, ◌+◌, ◌*◌, ◌/◌, ◌%◌, ◌<◌}
use mathlib.Core.Path.{◌≡◌, sym, ap, ◌∙◌}
use native.Mathlib.Omega.{arith}

-- A step that does not reach the next multiple of `m`.
pub mod-within : (a k m : ℕ) → a % m + k < m → (a + k) % m ≡ a % m + k
mod-within a k m h = sym (mod-add-mod a m k) ∙ mod-eq_of_lt h

pub div-within : (a k m : ℕ) → a % m + k < m → (a + k) / m ≡ a / m
div-within a k m h =
    let whole : a + k ≡ m * (a / m) + (a % m + k) = omega (arith, div-add-mod a m) in
    ap (λ n. n / m) whole
    ∙ (mul-add-div (omega arith) (a / m) (a % m + k)
        ∙ (ap (λ n. a / m + n) (div-eq_of_lt h) ∙ omega arith))
