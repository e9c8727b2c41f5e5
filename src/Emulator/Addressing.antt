-- ===== src/Emulator/Addressing.antt =====
-- The addressing modes of emulator.c.
use kernel_nesemulator.Prelude.{ℕ, ◌+◌, u8, u16}
use kernel_nesemulator.Emulator.Log
use kernel_nesemulator.Emulator.State.{Cpu, pure, ◌>>=◌, ◌>>◌}
use kernel_nesemulator.Emulator.Bus.{word, logging, emu_read, reg_x, reg_y, read_increment_pc}

unfoldable pub get_zp_indexed_address : ℕ → Cpu ℕ
get_zp_indexed_address reg_value = do
  base ← read_increment_pc
  let indexed_address = u8 (base + reg_value)
  logging (Log.set_indexed_address indexed_address)
  pure indexed_address

unfoldable pub get_absolute_addr : Cpu ℕ
get_absolute_addr = do
  low ← read_increment_pc
  high ← read_increment_pc
  let address = word high low
  logging (Log.set_address address)
  pure address

unfoldable pub get_absolute_addr_x_indexed : Cpu ℕ
get_absolute_addr_x_indexed = do
  low ← read_increment_pc
  high ← read_increment_pc
  x ← reg_x
  let address = u16 (word high low + x)
  logging (Log.set_address address)
  pure address

unfoldable pub get_absolute_addr_y_indexed : Cpu ℕ
get_absolute_addr_y_indexed = do
  low ← read_increment_pc
  high ← read_increment_pc
  y ← reg_y
  let address = u16 (word high low + y)
  logging (Log.set_address address)
  pure address

-- The pointer's second byte is read at `address + 1`, which is 0x100 behind 0xFF.
unfoldable pub get_indirect_address_y_indexed : Cpu ℕ
get_indirect_address_y_indexed = do
  address ← read_increment_pc
  low ← emu_read address
  high ← emu_read (u16 (address + 1))
  y ← reg_y
  let indirect_addr = u16 (word high low + y)
  logging (Log.set_indexed_address indirect_addr)
  pure indirect_addr

unfoldable pub get_indirect_address_x_indexed : Cpu ℕ
get_indirect_address_x_indexed = do
  base ← read_increment_pc
  x ← reg_x
  let address = u8 (base + x)
  low ← emu_read address
  high ← emu_read (u16 (address + 1))
  let indirect_addr = word high low
  logging (Log.set_indexed_address indirect_addr)
  pure indirect_addr
