-- ===== src/Prelude/Words.antt =====
-- Conversions to the machine's unsigned types, and C's signed `int`.
use Prim.Native.Nat.{ℕ, zero, suc, ◌%◌, ◌^◌}

-- The implicit conversions to `uint8_t`, `uint16_t` and `uint32_t`.
abbrev pub u8 : ℕ → ℕ
u8 n = n % 256

abbrev pub u16 : ℕ → ℕ
u16 n = n % 65536

abbrev pub u32 : ℕ → ℕ
u32 n = n % 2 ^ 32

-- An `int`: `negsuc n` is -(n + 1).
pub data ℤ : Type 0 where
  pos : ℕ → ℤ
  negsuc : ℕ → ℤ

-- `-n`
abbrev pub neg : ℕ → ℤ
neg zero = pos 0
neg (suc n) = negsuc n
