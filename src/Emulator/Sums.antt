-- ===== src/Emulator/Sums.antt =====
-- Addition, subtraction and comparison: what ADC_op, SBC_op and CMP_op leave in A and in the flags.
pub mod Overflow
use kernel_nesemulator.Prelude.{
  ℕ, zero, suc, ◌+◌, ◌-◌, ◌*◌, ◌/◌, ◌%◌, ◌<◌, ◌≤◌, ◌≡◌, ◌≢◌, refl, sym, ap, ap₂, ◌∙◌, Bool, true,
  false, not, ◌&&◌, ◌||◌, ltb, leb, ◌==◌, ◌!=◌, if◌then◌else◌, bit_or, bit_and, bit_xor, u8, u16,
  arith, Bool-cases, inl, inr,
}
use kernel_nesemulator.Emulator.State.{
  Registers, TraceLog, Machine, Cpu, pure, gets, modify, ◌>>=◌, ◌>>◌, flag_carry, flag_zero,
  flag_overflow, flag_negative,
}
use kernel_nesemulator.Emulator.Bus.{
  nonzero, set_a_register, reg_a, reg_status, bit_xor_a, set_status_flag, set_zero_negative,
}
use kernel_nesemulator.Emulator.Alu.{adc_op, sbc_op, cmp_op, sign_without}
use kernel_nesemulator.Emulator.Keeps.Primitive.{InRange}
use kernel_nesemulator.Emulator.Bits.{put, has, has-put, put-lt, sign_bits, negative, eq_bool}
use kernel_nesemulator.Emulator.Effect.{
  Effect, Effect-bind, Effect-then, Effect-pure, Effect-gets, Effect-modify, registers-Effect,
  relog,
}

abbrev pub flagged : ℕ → Bool → Machine → Machine
flagged flag condition s = record s {
  registers = record s.registers { flags = put flag condition s.registers.flags };
}

pub Effect-set_status_flag :
    (flag : ℕ) (condition : Bool) (s : Machine)
    → Effect (set_status_flag flag condition) s tt (flagged flag condition s)
unfolding set_status_flag
Effect-set_status_flag flag condition s = Effect-modify _ s

abbrev pub marked : ℕ → Machine → Machine
marked result s = flagged flag_negative (negative result) (flagged flag_zero (result == 0) s)

pub Effect-set_zero_negative :
    (result : ℕ) (s : Machine) → Effect (set_zero_negative result) s tt (marked result s)
unfolding set_zero_negative
Effect-set_zero_negative result s =
    Effect-then (Effect-set_status_flag _ _ s) (λ _. Effect-set_status_flag _ _ _)

abbrev pub with_a : ℕ → Machine → Machine
with_a value s = record s { registers = record s.registers { a = u8 value } }

Effect-set_a_register :
    (value : ℕ) (s : Machine) → Effect (set_a_register value) s (u8 value) (with_a value s)
unfolding set_a_register
Effect-set_a_register value s = Effect-then (Effect-modify _ s) (λ _. Effect-pure _ _)

abbrev pub xored : ℕ → Machine → ℕ
xored value s = bit_xor s.registers.a (u8 value)

Effect-bit_xor_a :
    (value : ℕ) (s : Machine)
    → Effect (bit_xor_a value) s (u8 (xored value s)) (with_a (xored value s) s)
unfolding bit_xor_a reg_a
Effect-bit_xor_a value s = Effect-bind _ (Effect-gets _ s) (λ _. Effect-set_a_register _ _)

-- The machine with a sum in A, and the flags stored in the order V, C, Z, N.
abbrev pub summed : ℕ → Bool → Bool → Machine → Machine
summed sum overflow carry s =
    marked (u8 sum) (with_a sum (flagged flag_carry carry (flagged flag_overflow overflow s)))

abbrev pub carry_in : Machine → ℕ
carry_in s = if has flag_carry s.registers.flags then 1 else 0

abbrev pub plain_sum : ℕ → Machine → ℕ
plain_sum input s =
    if nonzero (bit_and s.registers.flags flag_carry)
    then s.registers.a + input + 1
    else s.registers.a + input

abbrev pub scrambled : ℕ → ℕ → ℕ
scrambled a value = u8 (bit_xor a (u8 value))

pub Effect-adc_op :
    (input : ℕ) (s : Machine)
    → (let sum = plain_sum input s in
        let first = scrambled s.registers.a input in
        Effect
          (adc_op input)
          s
          tt
          (summed sum (sign_without first (scrambled first sum)) (ltb 0xff sum) s))
unfolding adc_op reg_a reg_status
Effect-adc_op input s = Effect-bind _ (Effect-gets _ s) (λ _. Effect-bind _ (Effect-gets _ _) (λ _.
    Effect-bind _ (Effect-bit_xor_a _ _) (λ _. Effect-bind _ (Effect-bit_xor_a _ _) (λ _.
      Effect-then (Effect-set_status_flag _ _ _) (λ _.
        Effect-then (Effect-set_status_flag _ _ _)
          (λ _. Effect-bind _ (Effect-set_a_register _ _) (λ _. Effect-set_zero_negative _ _)))))))

abbrev pub wide_difference : ℕ → Machine → ℕ
wide_difference input s =
    if nonzero (bit_and s.registers.flags flag_carry)
    then s.registers.a + 256 - input
    else s.registers.a + 256 - input - 1

pub Effect-sbc_op :
    (input : ℕ) (s : Machine)
    → (let wide = wide_difference input s in
        let first = scrambled s.registers.a input in
        Effect (sbc_op input) s tt (
          summed wide
            (nonzero (bit_and (bit_and first (scrambled first wide)) 0x80))
            (leb 256 wide)
            s))
unfolding sbc_op reg_a reg_status
Effect-sbc_op input s = Effect-bind _ (Effect-gets _ s) (λ _. Effect-bind _ (Effect-gets _ _) (λ _.
    Effect-bind _ (Effect-bit_xor_a _ _) (λ _. Effect-bind _ (Effect-bit_xor_a _ _) (λ _.
      Effect-then (Effect-set_status_flag _ _ _) (λ _.
        Effect-then (Effect-set_status_flag _ _ _)
          (λ _. Effect-bind _ (Effect-set_a_register _ _) (λ _. Effect-set_zero_negative _ _)))))))

-- Reading back the four flags that an operation stores.
abbrev pub four : Bool → Bool → Bool → Bool → ℕ → ℕ
four v c z n flags =
    put flag_negative n (put flag_zero z (put flag_carry c (put flag_overflow v flags)))

pub four_flags :
    (v c z n : Bool) (flags : ℕ)
    → flags < 256
    → (has flag_overflow (four v c z n flags) ≡ v)
      × ((has flag_carry (four v c z n flags) ≡ c)
          × ((has flag_zero (four v c z n flags) ≡ z)
              × (has flag_negative (four v c z n flags) ≡ n)))
four_flags v c z n flags h =
    let f1 = put flag_overflow v flags in
    let f2 = put flag_carry c f1 in
    let f3 = put flag_zero z f2 in
    let l1 = put-lt flag_overflow flags v in
    let l2 = put-lt flag_carry f1 c in
    let l3 = put-lt flag_zero f2 z in
    let top = λ (j : ℕ) (k : j < 8). has-put 7 j f3 n (omega arith) k l3 in
    let third = λ (j : ℕ) (k : j < 8). has-put 1 j f2 z (omega arith) k l2 in
    let second = λ (j : ℕ) (k : j < 8). has-put 0 j f1 c (omega arith) k l1 in
    let first = λ (j : ℕ) (k : j < 8). has-put 6 j flags v (omega arith) k h in
    (
      top 6 (omega arith)
          ∙ (third 6 (omega arith) ∙ (second 6 (omega arith) ∙ first 6 (omega arith))),
      (
        top 0 (omega arith) ∙ (third 0 (omega arith) ∙ second 0 (omega arith)),
        (top 1 (omega arith) ∙ third 1 (omega arith), top 7 (omega arith)),
      ),
    )
