-- ===== src/Emulator/Alu.antt =====
-- The operations behind the opcodes: ASL_op to BIT_op of emulator.c.
use kernel_nesemulator.Prelude.{
  ℕ, ◌+◌, ◌-◌, ◌*◌, ◌/◌, Bool, ltb, leb, ◌==◌, if◌then◌else◌, bit_and, bit_or, u8,
}
use kernel_nesemulator.Emulator.State.{
  Cpu, ◌>>=◌, ◌>>◌, flag_carry, flag_zero, flag_negative, flag_overflow,
}
use kernel_nesemulator.Emulator.Bus.{
  nonzero, emu_write, set_a_register, reg_a, reg_status, bit_xor_a, set_status_flag,
  set_zero_negative,
}

unfoldable pub asl_op : ℕ → ℕ → Cpu (Unit {0})
asl_op input address = do
  set_status_flag flag_carry (nonzero (bit_and input 0x80))
  let shifted = u8 (input * 2)
  emu_write address shifted
  set_zero_negative shifted

unfoldable pub lsr_op : ℕ → ℕ → Cpu (Unit {0})
lsr_op input address = do
  set_status_flag flag_carry (nonzero (bit_and input 0x01))
  let shifted = input / 2
  emu_write address shifted
  set_zero_negative shifted

unfoldable pub rol_op : ℕ → ℕ → Cpu (Unit {0})
rol_op input address = do
  let new_carry_bit = leb 0x80 input
  status ← reg_status
  let shifted = u8 (input * 2)
  let rotated = if nonzero (bit_and status flag_carry) then u8 (bit_or shifted 0x1) else shifted
  emu_write address rotated
  set_status_flag flag_carry new_carry_bit
  set_zero_negative rotated

unfoldable pub ror_op : ℕ → ℕ → Cpu (Unit {0})
ror_op input address = do
  let new_carry_bit = nonzero (bit_and input 0x01)
  status ← reg_status
  let shifted = input / 2
  let rotated = if nonzero (bit_and status flag_carry) then u8 (bit_or shifted 0x80) else shifted
  emu_write address rotated
  set_status_flag flag_carry new_carry_bit
  set_zero_negative rotated

-- `~first & second & 0x80` over `int`, of two bytes: the bits above the byte are cleared by 0x80.
abbrev pub sign_without : ℕ → ℕ → Bool
sign_without first second = nonzero (bit_and (bit_and (255 - first) second) 0x80)

-- The two calls of `bit_XOR_A` change A one after the other. C leaves their order open; here they
-- run from left to right.
unfoldable pub adc_op : ℕ → Cpu (Unit {0})
adc_op input = do
  a ← reg_a
  status ← reg_status
  let sum = if nonzero (bit_and status flag_carry) then a + input + 1 else a + input
  first ← bit_xor_a input
  second ← bit_xor_a sum
  set_status_flag flag_overflow (sign_without first second)
  set_status_flag flag_carry (ltb 0xff sum)
  result ← set_a_register sum
  set_zero_negative result

-- `wide` is `sum + 256`, as `sum` goes down to -256.
unfoldable pub sbc_op : ℕ → Cpu (Unit {0})
sbc_op input = do
  a ← reg_a
  status ← reg_status
  let wide = if nonzero (bit_and status flag_carry) then a + 256 - input else a + 256 - input - 1
  first ← bit_xor_a input
  second ← bit_xor_a wide
  set_status_flag flag_overflow (nonzero (bit_and (bit_and first second) 0x80))
  set_status_flag flag_carry (leb 256 wide)
  result ← set_a_register wide
  set_zero_negative result

unfoldable pub inc_op : ℕ → ℕ → Cpu (Unit {0})
inc_op input address = do
  let result = u8 (input + 1)
  emu_write address result
  set_zero_negative result

unfoldable pub dec_op : ℕ → ℕ → Cpu (Unit {0})
dec_op input address = do
  let result = u8 (input + 255)
  emu_write address result
  set_zero_negative result

-- `reg_value - input > 127` over `int`.
unfoldable pub cmp_op : ℕ → ℕ → Cpu (Unit {0})
cmp_op input reg_value = do
  set_status_flag flag_carry (leb input reg_value)
  set_status_flag flag_zero (reg_value == input)
  set_status_flag flag_negative (ltb (input + 127) reg_value)

unfoldable pub bit_op : ℕ → Cpu (Unit {0})
bit_op input = do
  a ← reg_a
  set_status_flag flag_zero (bit_and a input == 0)
  set_status_flag flag_negative (nonzero (bit_and input 0x80))
  set_status_flag flag_overflow (nonzero (bit_and input 0x40))
