-- ===== src/Emulator/Execute/Transfer.antt =====
-- Register moves and flag instructions: the cases INX to SED.
use kernel_nesemulator.Prelude.{◌+◌, true, false}
use kernel_nesemulator.Emulator.State.{
  Cpu, pure, ◌>>=◌, flag_carry, flag_overflow, flag_interrupt_disable, flag_decimal,
}
use kernel_nesemulator.Emulator.Bus.{
  set_a_register, set_x_register, set_y_register, set_sp, reg_a, reg_x, reg_y, stack_pointer,
  set_status_flag, set_zero_negative,
}
use kernel_nesemulator.Emulator.Opcode.{
  Transfer, inx, dex, iny, dey, tax, tay, txa, tya, txs, tsx, sec, clc, clv, sei, cli, sed,
}

-- `dey` writes X, as the source does.
unfoldable pub exec_transfer : Transfer → Cpu (Unit {0})
exec_transfer inx = do x ← reg_x; result ← set_x_register (x + 1); set_zero_negative result
exec_transfer dex = do x ← reg_x; result ← set_x_register (x + 255); set_zero_negative result
exec_transfer iny = do y ← reg_y; result ← set_y_register (y + 1); set_zero_negative result
exec_transfer dey = do x ← reg_x; result ← set_x_register (x + 255); set_zero_negative result
exec_transfer tax = do a ← reg_a; result ← set_x_register a; set_zero_negative result
exec_transfer tay = do a ← reg_a; result ← set_y_register a; set_zero_negative result
exec_transfer txa = do x ← reg_x; result ← set_a_register x; set_zero_negative result
exec_transfer tya = do y ← reg_y; result ← set_a_register y; set_zero_negative result
exec_transfer txs = do x ← reg_x; _ ← set_sp x; pure tt
exec_transfer tsx = do sp ← stack_pointer; result ← set_x_register sp; set_zero_negative result
exec_transfer sec = set_status_flag flag_carry true
exec_transfer clc = set_status_flag flag_carry false
exec_transfer clv = set_status_flag flag_overflow false
exec_transfer sei = set_status_flag flag_interrupt_disable true
exec_transfer cli = set_status_flag flag_interrupt_disable false
exec_transfer sed = set_status_flag flag_decimal true
