-- ===== src/Emulator/Table.antt =====
-- `opcode_table` of opcode_table.c, and what the interpreter reads from it.
pub mod Entry
pub mod Low
pub mod High
use kernel_nesemulator.Prelude.{ℕ, suc, zero, Option, none, some, List, [], ◌∷◌, ◌++◌, get_elem?}
use Entry.{OpcodeEntry}
use Low.{low_rows}
use High.{high_rows}

unfoldable pub opcode_table : List OpcodeEntry
unfolding low_rows high_rows
opcode_table = low_rows ++ high_rows

-- `opcode_table[opcode].cycles`; an opcode is a byte, so the index is in range.
abbrev pub cycles_of : Option OpcodeEntry → ℕ
cycles_of none = 0
cycles_of (some entry) = entry.cycles

unfoldable pub opcode_cycles : ℕ → ℕ
unfolding opcode_table
opcode_cycles opcode = cycles_of (get_elem? opcode_table opcode)
