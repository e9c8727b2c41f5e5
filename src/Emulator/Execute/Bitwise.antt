-- ===== src/Emulator/Execute/Bitwise.antt =====
-- Shifts and bitwise operations: the cases ASL to AND.
use kernel_nesemulator.Prelude.{ℕ, ◌*◌, ◌/◌, true, if◌then◌else◌, bit_and}
use kernel_nesemulator.Emulator.State.{Cpu, pure, ◌>>=◌, ◌>>◌, flag_carry}
use kernel_nesemulator.Emulator.Bus.{
  nonzero, emu_read, emu_write, set_a_register, reg_a, reg_status, bit_or_a, bit_xor_a, bit_and_a,
  set_status_flag, set_zero_negative, read_increment_pc,
}
use kernel_nesemulator.Emulator.Addressing.{get_absolute_addr}
use kernel_nesemulator.Emulator.Alu.{asl_op, lsr_op, rol_op, ror_op}
use kernel_nesemulator.Emulator.Opcode.{
  Shift, asl_a, asl_zp, asl_abs, lsr_a, lsr_zp, lsr_abs, rol_a, rol_zp, rol_abs, ror_zp, ror_abs,
  Logic, ora_imm, ora_zp, ora_abs, eor_imm, eor_zp, eor_abs, and_imm, and_zp, and_abs,
}

-- An operation on the byte at an address.
unfoldable pub on_memory : (ℕ → ℕ → Cpu (Unit {0})) → ℕ → Cpu (Unit {0})
on_memory op address = do value ← emu_read address; op value address

unfoldable pub exec_shift : Shift → Cpu (Unit {0})
exec_shift asl_a = do
  a ← reg_a
  set_status_flag flag_carry (nonzero (bit_and a 0x80))
  result ← set_a_register (a * 2)
  set_zero_negative result
exec_shift asl_zp = do address ← read_increment_pc; on_memory asl_op address
exec_shift asl_abs = do address ← get_absolute_addr; on_memory asl_op address
exec_shift lsr_a = do
  a ← reg_a
  if nonzero (bit_and a 0x01) then set_status_flag flag_carry true else pure tt
  result ← set_a_register (a / 2)
  set_zero_negative result
exec_shift lsr_zp = do address ← read_increment_pc; on_memory lsr_op address
exec_shift lsr_abs = do address ← get_absolute_addr; on_memory lsr_op address
exec_shift rol_a = do
  a ← reg_a
  let new_carry_bit = nonzero (bit_and a 0x80)
  shifted ← set_a_register (a * 2)
  status ← reg_status
  result ← if nonzero (bit_and status flag_carry) then bit_or_a 0x01 else pure shifted
  set_status_flag flag_carry new_carry_bit
  set_zero_negative result
exec_shift rol_zp = do address ← read_increment_pc; on_memory rol_op address
exec_shift rol_abs = do address ← get_absolute_addr; on_memory rol_op address
exec_shift ror_zp = do address ← read_increment_pc; on_memory ror_op address
exec_shift ror_abs = do address ← get_absolute_addr; on_memory ror_op address

-- The zero page and absolute forms of ORA, EOR and AND: the result also goes back to memory.
unfoldable pub combine_memory : (ℕ → Cpu ℕ) → ℕ → Cpu (Unit {0})
combine_memory op address = do
  value ← emu_read address
  temp ← op value
  emu_write address temp
  set_zero_negative temp

unfoldable pub combine_immediate : (ℕ → Cpu ℕ) → Cpu (Unit {0})
combine_immediate op = do value ← read_increment_pc; result ← op value; set_zero_negative result

unfoldable pub exec_logic : Logic → Cpu (Unit {0})
exec_logic ora_imm = combine_immediate bit_or_a
exec_logic ora_zp = do address ← read_increment_pc; combine_memory bit_or_a address
exec_logic ora_abs = do address ← get_absolute_addr; combine_memory bit_or_a address
exec_logic eor_imm = combine_immediate bit_xor_a
exec_logic eor_zp = do address ← read_increment_pc; combine_memory bit_xor_a address
exec_logic eor_abs = do address ← get_absolute_addr; combine_memory bit_xor_a address
exec_logic and_imm = combine_immediate bit_and_a
exec_logic and_zp = do address ← read_increment_pc; combine_memory bit_and_a address
exec_logic and_abs = do address ← get_absolute_addr; combine_memory bit_and_a address
