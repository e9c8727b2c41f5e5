-- ===== src/Emulator/Execute/Control.antt =====
-- Branches, stack and jumps: the cases BNE to JMP indirect, PHP, PLP, BRK and RTI.
use kernel_nesemulator.Prelude.{
  ℕ, ◌+◌, ◌-◌, ◌/◌, Bool, not, leb, if◌then◌else◌, bit_and, bit_or, u8, u16,
}
use kernel_nesemulator.Emulator.State.{
  Cpu, pure, modify, ◌>>=◌, ◌>>◌, flag_carry, flag_zero, flag_negative, flag_overflow,
}
use kernel_nesemulator.Emulator.Bus.{
  nonzero, word, emu_read, set_a_register, set_status_register, reg_a, reg_status, program_counter,
  set_zero_negative, push_stack, pull_stack, increment_pc, read_pc, read_increment_pc, set_pc,
}
use kernel_nesemulator.Emulator.Addressing.{get_absolute_addr}
use kernel_nesemulator.Emulator.Opcode.{
  Branch, bne, beq, bpl, bmi, bvc, bvs, bcc, bcs, Control, pha, pla, jsr, rts, jmp, jmp_ind, php,
  plp, brk, rti,
}

-- `(uint16_t)((int)program_counter() + signed_value)`, with the byte read as -128 to 127.
abbrev pub branch_target : ℕ → ℕ → ℕ
branch_target counter result =
    u16 (if leb 0x80 result then counter + result + 65536 - 256 else counter + result)

-- The body of each branch: the byte behind the opcode, and the jump if the test holds.
unfoldable pub branch_if : (ℕ → Bool) → Cpu (Unit {0})
branch_if test = do
  result ← read_increment_pc
  status ← reg_status
  counter ← program_counter
  let taken = do
    set_pc (branch_target counter result)
    modify (λ s. record s { total_cpu_cycles = s.total_cpu_cycles + 1 })
  if test status then taken else pure tt

abbrev pub has_flag : ℕ → ℕ → Bool
has_flag flag status = nonzero (bit_and status flag)

unfoldable pub exec_branch : Branch → Cpu (Unit {0})
exec_branch bne = branch_if (λ status. not (has_flag flag_zero status))
exec_branch beq = branch_if (has_flag flag_zero)
exec_branch bpl = branch_if (λ status. not (has_flag flag_negative status))
exec_branch bmi = branch_if (has_flag flag_negative)
exec_branch bvc = branch_if (λ status. not (has_flag flag_overflow status))
exec_branch bvs = branch_if (has_flag flag_overflow)
exec_branch bcc = branch_if (λ status. not (has_flag flag_carry status))
exec_branch bcs = branch_if (has_flag flag_carry)

-- PHP
abbrev pub exec_php : Cpu (Unit {0})
exec_php = do status ← reg_status; push_stack (u8 (bit_or status 0x30))

-- PLP
abbrev pub exec_plp : Cpu (Unit {0})
exec_plp = do value ← pull_stack; _ ← set_status_register value; pure tt

-- BRK
abbrev pub exec_brk : Cpu (Unit {0})
exec_brk = do
  increment_pc
  counter ← program_counter
  push_stack (u8 (counter / 256))
  push_stack (u8 counter)
  status ← reg_status
  push_stack status
  low ← emu_read 0xfffe
  high ← emu_read 0xffff
  set_pc (word high low)

-- RTI
abbrev pub exec_rti : Cpu (Unit {0})
exec_rti = do
  value ← pull_stack
  _ ← set_status_register value
  low ← pull_stack
  high ← pull_stack
  set_pc (word high low)

unfoldable pub exec_control : Control → Cpu (Unit {0})
exec_control pha = do a ← reg_a; push_stack a
exec_control pla = do value ← pull_stack; result ← set_a_register value; set_zero_negative result
exec_control jsr = do
  low ← read_increment_pc
  high ← read_pc
  counter ← program_counter
  push_stack (u8 (counter / 256))
  push_stack (u8 counter)
  set_pc (word high low)
exec_control rts = do
  low ← pull_stack
  high ← pull_stack
  set_pc (word high low)
  _ ← read_increment_pc
  pure tt
exec_control jmp = do address ← get_absolute_addr; set_pc address
exec_control jmp_ind = do
  address ← get_absolute_addr
  low ← emu_read address
  high ← emu_read (u16 (address + 1))
  set_pc (word high low)
exec_control php = exec_php
exec_control plp = exec_plp
exec_control brk = exec_brk
exec_control rti = exec_rti
