-- ===== src/Emulator/Bus.antt =====
-- Memory, the stack, the program counter, the registers and the flags: emulator.c and the release
-- half of emulator_debug.h.
use kernel_nesemulator.Prelude.{
  ℕ, ◌+◌, ◌-◌, ◌*◌, Bool, ltb, leb, ◌==◌, ◌!=◌, if◌then◌else◌, bit_and, bit_or, bit_xor, u8, u16,
}
use kernel_nesemulator.Emulator.Log
use kernel_nesemulator.Emulator.State.{
  Registers, TraceLog, Machine, Cpu, pure, gets, modify, ◌>>=◌, ◌>>◌, flag_zero, flag_negative,
}

-- `if` on a C integer
abbrev pub nonzero : ℕ → Bool
nonzero n = n != 0

-- `(high << 8) | low`, as a `uint16_t`
unfoldable pub word : ℕ → ℕ → ℕ
word high low = u16 (bit_or (high * 256) low)

unfoldable pub logging : (TraceLog → TraceLog) → Cpu (Unit {0})
logging f = modify (λ s. record s { log = f s.log })

abbrev pub loaded : Machine → ℕ → ℕ
loaded s address =
    if leb 0x8000 address
    then s.rom (address - 0x8000)
    else if ltb address 0x800
    then s.ram address
    else 0

-- The end of `emu_read`: a value that is not read at the program counter goes to the log.
unfoldable pub note_read : ℕ → ℕ → Cpu (Unit {0})
note_read address value = do
  counter ← gets (λ s. s.registers.program_counter)
  if address != counter then logging (Log.set_read_value value) else pure tt

unfoldable pub emu_read : ℕ → Cpu ℕ
emu_read address = do value ← gets (λ s. loaded s address); note_read address value; pure value

abbrev pub store : ℕ → ℕ → Machine → Machine
store address value s = record s { ram = λ i. if i == address then value else s.ram i }

unfoldable pub emu_write : ℕ → ℕ → Cpu (Unit {0})
emu_write address value =
    if ltb address 0x800
    then modify (store address (u8 value)) >> logging (Log.set_written_value (u8 value))
    else pure tt

abbrev pub with_registers : (Registers → Registers) → Machine → Machine
with_registers f s = record s { registers = f s.registers }

unfoldable pub set_a_register : ℕ → Cpu ℕ
set_a_register value = do modify (with_registers λ r. record r { a = u8 value }); pure (u8 value)

unfoldable pub set_x_register : ℕ → Cpu ℕ
set_x_register value = do modify (with_registers λ r. record r { x = u8 value }); pure (u8 value)

unfoldable pub set_y_register : ℕ → Cpu ℕ
set_y_register value = do modify (with_registers λ r. record r { y = u8 value }); pure (u8 value)

unfoldable pub set_sp : ℕ → Cpu ℕ
set_sp value = do
  modify (with_registers λ r. record r { stack_pointer = u8 value })
  pure (u8 value)

unfoldable pub set_status_register : ℕ → Cpu ℕ
set_status_register value = do
  modify (with_registers λ r. record r { flags = u8 value })
  pure (u8 value)

unfoldable pub reg_a : Cpu ℕ
reg_a = gets (λ s. s.registers.a)

unfoldable pub reg_x : Cpu ℕ
reg_x = gets (λ s. s.registers.x)

unfoldable pub reg_y : Cpu ℕ
reg_y = gets (λ s. s.registers.y)

unfoldable pub stack_pointer : Cpu ℕ
stack_pointer = gets (λ s. s.registers.stack_pointer)

unfoldable pub reg_status : Cpu ℕ
reg_status = gets (λ s. s.registers.flags)

unfoldable pub program_counter : Cpu ℕ
program_counter = gets (λ s. s.registers.program_counter)

unfoldable pub bit_or_a : ℕ → Cpu ℕ
bit_or_a value = do a ← reg_a; set_a_register (bit_or a (u8 value))

unfoldable pub bit_xor_a : ℕ → Cpu ℕ
bit_xor_a value = do a ← reg_a; set_a_register (bit_xor a (u8 value))

unfoldable pub bit_and_a : ℕ → Cpu ℕ
bit_and_a value = do a ← reg_a; set_a_register (bit_and a (u8 value))

unfoldable pub set_status_flag : ℕ → Bool → Cpu (Unit {0})
set_status_flag flag condition = modify (
    with_registers λ r. record r {
      flags = if condition then u8 (bit_or r.flags flag) else u8 (bit_and r.flags (255 - flag));
    })

-- The two calls that follow most results.
unfoldable pub set_zero_negative : ℕ → Cpu (Unit {0})
set_zero_negative result = do
  set_status_flag flag_zero (result == 0)
  set_status_flag flag_negative (leb 0x80 result)

unfoldable pub push_stack : ℕ → Cpu (Unit {0})
push_stack value = do
  sp ← stack_pointer
  emu_write (0x100 + sp) value
  modify (with_registers λ r. record r { stack_pointer = u8 (r.stack_pointer + 255) })

unfoldable pub pull_stack : Cpu ℕ
pull_stack = do
  modify (with_registers λ r. record r { stack_pointer = u8 (r.stack_pointer + 1) })
  sp ← stack_pointer
  emu_read (0x100 + sp)

unfoldable pub increment_pc : Cpu (Unit {0})
increment_pc =
    modify (with_registers λ r. record r { program_counter = u16 (r.program_counter + 1) })

unfoldable pub read_pc : Cpu ℕ
read_pc = do
  counter ← program_counter
  result ← emu_read counter
  logging (Log.set_operand result)
  pure result

unfoldable pub read_increment_pc : Cpu ℕ
read_increment_pc = do
  counter ← program_counter
  result ← emu_read counter
  increment_pc
  logging (Log.set_operand result)
  pure result

unfoldable pub set_pc : ℕ → Cpu (Unit {0})
set_pc address = do
  logging (Log.set_address (u16 address))
  modify (with_registers λ r. record r { program_counter = u16 address })
