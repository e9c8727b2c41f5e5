-- ===== src/Emulator/Execute/LoadStore.antt =====
-- Loads and stores: the cases LDY to STY of `emulate_CPU`.
use kernel_nesemulator.Prelude.{ℕ}
use kernel_nesemulator.Emulator.State.{Cpu, ◌>>=◌}
use kernel_nesemulator.Emulator.Bus.{
  emu_read, emu_write, set_a_register, set_x_register, set_y_register, reg_a, reg_x, reg_y,
  set_zero_negative, read_increment_pc,
}
use kernel_nesemulator.Emulator.Addressing.{
  get_zp_indexed_address, get_absolute_addr, get_absolute_addr_x_indexed,
  get_indirect_address_y_indexed, get_indirect_address_x_indexed,
}
use kernel_nesemulator.Emulator.Opcode.{
  LoadStore, ldy_imm, ldx_imm, lda_imm, lda_zp, lda_zpx, lda_abs, lda_absx, sta_zp, sta_zpx,
  sta_abs, sta_absx, sta_indy, sta_indx, stx_zp, stx_abs, sty_zp, sty_abs,
}

-- LDA from an address.
unfoldable pub load_a : ℕ → Cpu (Unit {0})
load_a address = do
  value ← emu_read address
  result ← set_a_register value
  set_zero_negative result

unfoldable pub exec_load_store : LoadStore → Cpu (Unit {0})
exec_load_store ldy_imm = do
  value ← read_increment_pc
  result ← set_y_register value
  set_zero_negative result
exec_load_store ldx_imm = do
  value ← read_increment_pc
  result ← set_x_register value
  set_zero_negative result
exec_load_store lda_imm = do
  value ← read_increment_pc
  result ← set_a_register value
  set_zero_negative result
exec_load_store lda_zp = do address ← read_increment_pc; load_a address
exec_load_store lda_zpx = do x ← reg_x; address ← get_zp_indexed_address x; load_a address
exec_load_store lda_abs = do address ← get_absolute_addr; load_a address
exec_load_store lda_absx = do address ← get_absolute_addr_x_indexed; load_a address
exec_load_store sta_zp = do address ← read_increment_pc; a ← reg_a; emu_write address a
exec_load_store sta_zpx = do
  x ← reg_x
  address ← get_zp_indexed_address x
  a ← reg_a
  emu_write address a
exec_load_store sta_abs = do address ← get_absolute_addr; a ← reg_a; emu_write address a
exec_load_store sta_absx = do address ← get_absolute_addr_x_indexed; a ← reg_a; emu_write address a
exec_load_store sta_indy = do
  address ← get_indirect_address_y_indexed
  a ← reg_a
  emu_write address a
exec_load_store sta_indx = do
  address ← get_indirect_address_x_indexed
  a ← reg_a
  emu_write address a
exec_load_store stx_zp = do address ← read_increment_pc; x ← reg_x; emu_write address x
exec_load_store stx_abs = do address ← get_absolute_addr; x ← reg_x; emu_write address x
exec_load_store sty_zp = do address ← read_increment_pc; y ← reg_y; emu_write address y
exec_load_store sty_abs = do address ← get_absolute_addr; y ← reg_y; emu_write address y
