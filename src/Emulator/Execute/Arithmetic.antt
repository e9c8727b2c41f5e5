-- ===== src/Emulator/Execute/Arithmetic.antt =====
-- Arithmetic and comparisons: the cases INC to BIT.
use kernel_nesemulator.Prelude.{ℕ}
use kernel_nesemulator.Emulator.State.{Cpu, ◌>>=◌}
use kernel_nesemulator.Emulator.Bus.{emu_read, reg_a, reg_x, reg_y, read_increment_pc}
use kernel_nesemulator.Emulator.Addressing.{
  get_zp_indexed_address, get_absolute_addr, get_absolute_addr_x_indexed,
}
use kernel_nesemulator.Emulator.Alu.{adc_op, sbc_op, inc_op, dec_op, cmp_op, bit_op}
use kernel_nesemulator.Emulator.Opcode.{
  Arith, inc_zp, inc_abs, inc_absx, dec_zp, dec_abs, adc_imm, adc_zpx, adc_zp, adc_abs, sbc_imm,
  sbc_zp, sbc_abs, cmp_imm, cmp_zp, cmp_abs, cpx_imm, cpx_zp, cpx_abs, cpy_imm, cpy_zp, cpy_abs,
  bit_zp, bit_abs,
}
use kernel_nesemulator.Emulator.Execute.Bitwise.{on_memory}

-- An operation with the byte at an address as operand.
unfoldable pub with_memory : (ℕ → Cpu (Unit {0})) → ℕ → Cpu (Unit {0})
with_memory op address = do value ← emu_read address; op value

-- A comparison of a register with the byte at an address.
unfoldable pub compare_memory : Cpu ℕ → ℕ → Cpu (Unit {0})
compare_memory register address = do
  value ← emu_read address
  reg_value ← register
  cmp_op value reg_value

unfoldable pub compare_immediate : Cpu ℕ → Cpu (Unit {0})
compare_immediate register = do
  value ← read_increment_pc
  reg_value ← register
  cmp_op value reg_value

unfoldable pub exec_arith : Arith → Cpu (Unit {0})
exec_arith inc_zp = do address ← read_increment_pc; on_memory inc_op address
exec_arith inc_abs = do address ← get_absolute_addr; on_memory inc_op address
exec_arith inc_absx = do address ← get_absolute_addr_x_indexed; on_memory inc_op address
exec_arith dec_zp = do address ← read_increment_pc; on_memory dec_op address
exec_arith dec_abs = do address ← get_absolute_addr; on_memory dec_op address
exec_arith adc_imm = do value ← read_increment_pc; adc_op value
exec_arith adc_zpx = do x ← reg_x; address ← get_zp_indexed_address x; with_memory adc_op address
exec_arith adc_zp = do address ← read_increment_pc; with_memory adc_op address
exec_arith adc_abs = do address ← get_absolute_addr; with_memory adc_op address
exec_arith sbc_imm = do value ← read_increment_pc; sbc_op value
exec_arith sbc_zp = do address ← read_increment_pc; with_memory sbc_op address
exec_arith sbc_abs = do address ← get_absolute_addr; with_memory sbc_op address
exec_arith cmp_imm = compare_immediate reg_a
exec_arith cmp_zp = do address ← read_increment_pc; compare_memory reg_a address
exec_arith cmp_abs = do address ← get_absolute_addr; compare_memory reg_a address
exec_arith cpx_imm = compare_immediate reg_x
exec_arith cpx_zp = do address ← read_increment_pc; compare_memory reg_x address
exec_arith cpx_abs = do address ← get_absolute_addr; compare_memory reg_x address
exec_arith cpy_imm = compare_immediate reg_y
exec_arith cpy_zp = do address ← read_increment_pc; compare_memory reg_y address
exec_arith cpy_abs = do address ← get_absolute_addr; compare_memory reg_y address
exec_arith bit_zp = do address ← read_increment_pc; with_memory bit_op address
exec_arith bit_abs = do address ← get_absolute_addr; with_memory bit_op address
