-- ===== src/Emulator/Sums/Overflow.antt =====
-- Results and flags of ADC, SBC and the comparisons against signed and unsigned arithmetic.
use kernel_nesemulator.Prelude.{
  ℕ, ◌+◌, ◌-◌, ◌*◌, ◌%◌, ◌<◌, ◌≡◌, refl, ap, ap₂, ◌∙◌, Bool, not, ◌&&◌, ◌||◌, ltb, leb, ◌==◌,
  if◌then◌else◌, bit_and, bit_xor, u8, arith,
}
use kernel_nesemulator.Emulator.State.{
  TraceLog, Machine, flag_carry, flag_zero, flag_overflow, flag_negative,
}
use kernel_nesemulator.Emulator.Bus.{nonzero}
use kernel_nesemulator.Emulator.Alu.{adc_op, sbc_op, cmp_op, sign_without}
use kernel_nesemulator.Emulator.Keeps.Primitive.{InRange}
use kernel_nesemulator.Emulator.Bits.{put, has, has-put, put-lt, sign_bits, negative, eq_bool}
use kernel_nesemulator.Emulator.Effect.{Effect, Effect-then, relog}
use kernel_nesemulator.Emulator.Sums.{
  Effect-set_status_flag, summed, carry_in, plain_sum, scrambled, wide_difference, Effect-adc_op,
  Effect-sbc_op, four_flags,
}

-- Whether the signed bytes `a` and `b` and the carry add up to something outside a signed byte.
abbrev pub signed_overflow : ℕ → ℕ → ℕ → Bool
signed_overflow a b c =
    let sum = (a + 128) % 256 + (b + 128) % 256 + c in ltb sum 128 || ltb 383 sum

-- Whether `a - b - (1 - c)` of signed bytes is outside a signed byte.
abbrev pub signed_underflow : ℕ → ℕ → ℕ → Bool
signed_underflow a b c =
    let sum = (a + 128) % 256 + 256 + c - (b + 128) % 256 in ltb sum 129 || ltb 384 sum

abbrev pub differ : Bool → Bool → Bool
differ x y = not (eq_bool x y)

adc_sign :
    (a b c sum : ℕ)
    → a < 256
    → b < 256
    → c < 2
    → sum ≡ a + b + c
    → (not (differ (negative a) (negative b))
        && differ (differ (negative a) (negative b)) (negative (u8 sum)))
      ≡ (if negative a && negative b then not (signed_overflow a b c) else signed_overflow a b c)
adc_sign a b c sum ha hb hc e = ground arith

sbc_sign :
    (a b c wide : ℕ)
    → a < 256
    → b < 256
    → c < 2
    → wide ≡ a + 255 + c - b
    → (differ (negative a) (negative b)
        && differ (differ (negative a) (negative b)) (negative (u8 wide)))
      ≡ (if not (negative a) && negative b
          then not (signed_underflow a b c)
          else signed_underflow a b c)
sbc_sign a b c wide ha hb hc e = ground arith

-- How `t` comes from `s` by a store into A and the flags Z and N of what is in A.
pub record Accumulated (s t : Machine) : Type 0 where
  pub byte : t.registers.a < 256
  pub zero : has flag_zero t.registers.flags ≡ (t.registers.a == 0)
  pub negative : has flag_negative t.registers.flags ≡ negative t.registers.a
  pub others : t.registers ≡ record s.registers { a = t.registers.a; flags = t.registers.flags }
  pub memory : t.ram ≡ s.ram

Accumulated-summed :
    (sum : ℕ) (v c : Bool) (log : TraceLog) (s : Machine)
    → InRange s.registers
    → Accumulated s (relog log (summed sum v c s))
Accumulated-summed sum v c log s h =
    let (_, (_, (z, n))) =
      four_flags v c (u8 sum == 0) (negative (u8 sum)) s.registers.flags h.flags in
    record { byte = omega arith; zero = z; negative = n; others = refl; memory = refl }

carry-lt : (s : Machine) → carry_in s < 2
carry-lt s = ground arith

plain : (input : ℕ) (s : Machine) → plain_sum input s ≡ s.registers.a + input + carry_in s
plain input s = ground arith

wide :
    (input : ℕ) (s : Machine)
    → input < 256
    → wide_difference input s ≡ s.registers.a + 255 + carry_in s - input
wide input s h = ground arith

bit_of : Bool → ℕ
bit_of c = if c then 1 else 0

sum_parts : (sum : ℕ) → sum < 512 → u8 sum + 256 * (if ltb 0xff sum then 1 else 0) ≡ sum
sum_parts sum h = ground arith

difference_parts : (w : ℕ) → w < 512 → u8 w + 256 * (if leb 256 w then 1 else 0) ≡ w
difference_parts w h = ground arith

-- The overflow tests in terms of signs.
signs_of_sum :
    (a b sum : ℕ)
    → a < 256
    → b < 256
    → (negative (scrambled a b) ≡ differ (negative a) (negative b))
      × (negative (scrambled (scrambled a b) sum)
          ≡ differ (differ (negative a) (negative b)) (negative (u8 sum)))
signs_of_sum a b sum ha hb =
    let small : u8 b ≡ b = omega arith in
    let first : negative (scrambled a b) ≡ differ (negative a) (negative b) =
      ap (λ x. negative (u8 (bit_xor a x))) small ∙ (sign_bits a b ha hb).0 in
    let second = (sign_bits (scrambled a b) (u8 sum) (omega arith) (omega arith)).0 in
    (first, second ∙ ap (λ x. differ x (negative (u8 sum))) first)

-- With registers in range and a byte as operand, ADC_op leaves in A, together with the carry flag
-- as bit 8, the sum of A, the operand and the carry before it. Z and N are those of A. V says
-- whether the signed sum overflows, unless both operands are negative: then it says the opposite.
-- The other registers and memory are as before.
pub adc_op-sum :
    (input : ℕ) (s : Machine)
    → InRange s.registers
    → input < 256
    → (let t = (adc_op input s).1 in
        Accumulated s t
        × ((t.registers.a + 256 * carry_in t ≡ s.registers.a + input + carry_in s)
            × (has flag_overflow t.registers.flags ≡ (
                if negative s.registers.a && negative input
                then not (signed_overflow s.registers.a input (carry_in s))
                else signed_overflow s.registers.a input (carry_in s)))))
adc_op-sum input s h hi =
    let a = s.registers.a in
    let sum = plain_sum input s in
    let first = scrambled a input in
    let v = sign_without first (scrambled first sum) in
    let effect = Effect-adc_op input s in
    let total = plain input s in
    let (v_flag, (c_flag, _)) =
      four_flags v (ltb 0xff sum) (u8 sum == 0) (negative (u8 sum)) s.registers.flags h.flags in
    let (s1, s2) = signs_of_sum a input sum h.a hi in
    let v_value =
      (sign_bits first (scrambled first sum) (omega arith) (omega arith)).1.0
      ∙ (ap₂ (λ x y. not x && y) s1 s2
          ∙ adc_sign a input (carry_in s) sum h.a hi (carry-lt s) total) in
    let end = relog effect.log (summed sum v (ltb 0xff sum) s) in
    rw (effect.runs) (
      Accumulated-summed sum v (ltb 0xff sum) effect.log s h,
      (
        ap (λ c. u8 sum + 256 * (if c then 1 else 0)) c_flag
            ∙ (sum_parts sum (omega (arith, total, carry-lt s, h.a)) ∙ total),
        v_flag ∙ v_value,
      ),
    )

-- With registers in range and a byte as operand, SBC_op leaves in A, together with the carry flag
-- as bit 8, A - operand - (1 - carry) + 256. Z and N are those of A. V says whether the signed
-- difference overflows, unless A was not negative and the operand is: then it says the opposite.
-- The other registers and memory are as before.
pub sbc_op-difference :
    (input : ℕ) (s : Machine)
    → InRange s.registers
    → input < 256
    → (let t = (sbc_op input s).1 in
        Accumulated s t
        × ((t.registers.a + 256 * carry_in t + input ≡ s.registers.a + 255 + carry_in s)
            × (has flag_overflow t.registers.flags ≡ (
                if not (negative s.registers.a) && negative input
                then not (signed_underflow s.registers.a input (carry_in s))
                else signed_underflow s.registers.a input (carry_in s)))))
sbc_op-difference input s h hi =
    let a = s.registers.a in
    let w = wide_difference input s in
    let first = scrambled a input in
    let v = nonzero (bit_and (bit_and first (scrambled first w)) 0x80) in
    let effect = Effect-sbc_op input s in
    let total = wide input s hi in
    let (v_flag, (c_flag, _)) =
      four_flags v (leb 256 w) (u8 w == 0) (negative (u8 w)) s.registers.flags h.flags in
    let (s1, s2) = signs_of_sum a input w h.a hi in
    let v_value =
      (sign_bits first (scrambled first w) (omega arith) (omega arith)).1.1
      ∙ (ap₂ (λ x y. x && y) s1 s2 ∙ sbc_sign a input (carry_in s) w h.a hi (carry-lt s) total) in
    rw (effect.runs) (
      Accumulated-summed w v (leb 256 w) effect.log s h,
      (
        ap (λ c. u8 w + 256 * (if c then 1 else 0) + input) c_flag
            ∙ (ap (λ n. n + input) (difference_parts w (omega (arith, total, carry-lt s, h.a)))
                ∙ omega (arith, total, hi, h.a)),
        v_flag ∙ v_value,
      ),
    )

compared : ℕ → ℕ → ℕ → ℕ
compared input value flags =
    put flag_negative (ltb (input + 127) value)
      (put flag_zero (value == input) (put flag_carry (leb input value) flags))

Effect-cmp_op :
    (input value : ℕ) (s : Machine)
    → Effect (cmp_op input value) s tt (record s {
      registers = record s.registers { flags = compared input value s.registers.flags };
    })
unfolding cmp_op compared
Effect-cmp_op input value s =
    Effect-then (Effect-set_status_flag _ _ s)
      (λ _. Effect-then (Effect-set_status_flag _ _ _) (λ _. Effect-set_status_flag _ _ _))

compare_sign :
    (input value : ℕ)
    → input < 256
    → value < 256
    → ltb (input + 127) value ≡ (leb input value && negative (u8 (value + 256 - input)))
compare_sign input value hi hv = ground arith

-- With registers in range, CMP_op of a byte against a byte of a register stores into C whether the
-- register is at least the operand, into Z whether they are equal, and into N the sign of the
-- difference modulo 256 if there is no borrow, and false if there is one. It changes nothing else
-- of the registers, and not the memory.
pub cmp_op-order :
    (input value : ℕ) (s : Machine)
    → InRange s.registers
    → input < 256
    → value < 256
    → (let t = (cmp_op input value s).1 in
        (has flag_carry t.registers.flags ≡ leb input value)
        × ((has flag_zero t.registers.flags ≡ (value == input))
            × ((has flag_negative t.registers.flags
                  ≡ (leb input value && negative (u8 (value + 256 - input))))
                × ((t.registers ≡ record s.registers { flags = t.registers.flags })
                    × (t.ram ≡ s.ram)))))
unfolding compared
cmp_op-order input value s h hi hv =
    let flags = s.registers.flags in
    let f1 = put flag_carry (leb input value) flags in
    let f2 = put flag_zero (value == input) f1 in
    let l1 = put-lt flag_carry flags (leb input value) in
    let l2 = put-lt flag_zero f1 (value == input) in
    let top = λ (j : ℕ) (k : j < 8). has-put 7 j f2 (ltb (input + 127) value) (omega arith) k l2 in
    let second = λ (j : ℕ) (k : j < 8). has-put 1 j f1 (value == input) (omega arith) k l1 in
    let first =
      λ (j : ℕ) (k : j < 8). has-put 0 j flags (leb input value) (omega arith) k h.flags in
    rw ((Effect-cmp_op input value s).runs) (
      top 0 (omega arith) ∙ (second 0 (omega arith) ∙ first 0 (omega arith)),
      (
        top 1 (omega arith) ∙ second 1 (omega arith),
        (top 7 (omega arith) ∙ compare_sign input value hi hv, (refl, refl)),
      ),
    )
