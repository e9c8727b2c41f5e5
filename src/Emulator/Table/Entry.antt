-- ===== src/Emulator/Table/Entry.antt =====
-- `struct opcode_entry` of opcode_table.h.
use kernel_nesemulator.Prelude.{ℕ, Bool}
use Prim.Native.String.{String}

pub data AddressingMode : Type 0 where
  addr_implied addr_accumulator addr_immediate addr_absolute addr_zero_page : AddressingMode
  addr_absolute_x addr_absolute_y addr_zero_page_x addr_zero_page_y : AddressingMode
  addr_indirect_x addr_indirect_y addr_abs_indirect addr_relative mode_unknown : AddressingMode

pub record OpcodeEntry : Type 0 where
  pub opcode : ℕ
  pub mnemonic : String
  pub addr_mode : AddressingMode
  pub num_bytes : ℕ
  pub cycles : ℕ
  pub reg_read_bitflag : ℕ
  pub reg_write_bitflag : ℕ
  pub reads_mem : Bool
  pub writes_mem : Bool

-- A row of the table, in the order in which the source writes it.
abbrev pub row : ℕ → String → AddressingMode → ℕ → ℕ → ℕ → ℕ → Bool → Bool → OpcodeEntry
row opcode mnemonic addr_mode num_bytes cycles reg_read_bitflag reg_write_bitflag reads_mem
      writes_mem =
    record {
      opcode = opcode;
      mnemonic = mnemonic;
      addr_mode = addr_mode;
      num_bytes = num_bytes;
      cycles = cycles;
      reg_read_bitflag = reg_read_bitflag;
      reg_write_bitflag = reg_write_bitflag;
      reads_mem = reads_mem;
      writes_mem = writes_mem;
    }
