-- ===== src/Emulator/Table/Low.antt =====
-- Rows 0x00 to 0x7f of `opcode_table` in opcode_table.c.
use kernel_nesemulator.Prelude.{true, false, List, [], ◌∷◌}
use kernel_nesemulator.Emulator.Table.Entry.{
  OpcodeEntry, row, addr_implied, addr_accumulator, addr_immediate, addr_absolute, addr_zero_page,
  addr_absolute_x, addr_absolute_y, addr_zero_page_x, addr_indirect_x, addr_indirect_y,
  addr_abs_indirect, addr_relative, mode_unknown,
}

unfoldable pub low_rows : List OpcodeEntry
low_rows =
    row 0x00 "BRK" mode_unknown 1 7 0x03 0x02 true true
    ∷ row 0x01 "ORA" addr_indirect_x 2 6 0x10 0x01 true false
    ∷ row 0x02 "STP" mode_unknown 1 2 0x00 0x00 false false
    ∷ row 0x03 "SLO" addr_indirect_x 2 8 0x10 0x01 true true
    ∷ row 0x04 "NOP" addr_zero_page 2 3 0x00 0x00 true false
    ∷ row 0x05 "ORA" addr_zero_page 2 3 0x10 0x11 true false
    ∷ row 0x06 "ASL" addr_zero_page 2 5 0x00 0x01 true true
    ∷ row 0x07 "SLO" addr_zero_page 2 5 0x10 0x11 true true
    ∷ row 0x08 "PHP" mode_unknown 1 3 0x03 0x02 false true
    ∷ row 0x09 "ORA" addr_immediate 2 2 0x00 0x11 false false
    ∷ row 0x0a "ASL" mode_unknown 1 2 0x10 0x11 false false
    ∷ row 0x0b "ANC" addr_immediate 2 2 0x10 0x01 false false
    ∷ row 0x0c "NOP" addr_absolute 3 4 0x00 0x00 true false
    ∷ row 0x0d "ORA" addr_absolute 3 4 0x10 0x11 true false
    ∷ row 0x0e "ASL" addr_absolute 3 6 0x00 0x01 true true
    ∷ row 0x0f "SLO" addr_absolute 3 6 0x10 0x11 true true
    ∷ row 0x10 "BPL" addr_relative 2 2 0x01 0x00 false false
    ∷ row 0x11 "ORA" addr_indirect_y 2 5 0x10 0x01 true false
    ∷ row 0x12 "KIL" mode_unknown 1 0 0x00 0x00 false false
    ∷ row 0x13 "SLO" addr_indirect_y 2 8 0x10 0x01 true true
    ∷ row 0x14 "NOP" addr_zero_page_x 2 4 0x00 0x00 true false
    ∷ row 0x15 "ORA" addr_zero_page_x 2 4 0x10 0x11 true false
    ∷ row 0x16 "ASL" addr_zero_page_x 2 6 0x00 0x01 true true
    ∷ row 0x17 "SLO" addr_zero_page_x 2 6 0x10 0x11 true true
    ∷ row 0x18 "CLC" addr_implied 1 2 0x00 0x01 false false
    ∷ row 0x19 "ORA" addr_absolute_y 3 4 0x10 0x11 true false
    ∷ row 0x1a "NOP" addr_implied 1 2 0x00 0x00 false false
    ∷ row 0x1b "SLO" addr_absolute_y 3 7 0x10 0x11 true true
    ∷ row 0x1c "NOP" addr_absolute_x 3 4 0x00 0x00 true false
    ∷ row 0x1d "ORA" addr_absolute_x 3 4 0x10 0x11 true false
    ∷ row 0x1e "ASL" addr_absolute_x 3 7 0x00 0x01 true true
    ∷ row 0x1f "SLO" addr_absolute_x 3 7 0x10 0x11 true true
    ∷ row 0x20 "JSR" addr_absolute 3 6 0x02 0x02 false true
    ∷ row 0x21 "AND" addr_indirect_x 2 6 0x00 0x11 true false
    ∷ row 0x22 "KIL" mode_unknown 1 0 0x00 0x00 false false
    ∷ row 0x23 "RLA" addr_indirect_x 2 8 0x01 0x11 true true
    ∷ row 0x24 "BIT" addr_zero_page 2 3 0x10 0x01 true false
    ∷ row 0x25 "AND" addr_zero_page 2 3 0x10 0x11 true false
    ∷ row 0x26 "ROL" addr_zero_page 2 5 0x01 0x01 true true
    ∷ row 0x27 "RLA" addr_zero_page 2 5 0x11 0x11 true true
    ∷ row 0x28 "PLP" mode_unknown 1 4 0x02 0x03 false false
    ∷ row 0x29 "AND" addr_immediate 2 2 0x10 0x11 false false
    ∷ row 0x2a "ROL" addr_accumulator 1 2 0x11 0x11 false false
    ∷ row 0x2b "ANC" addr_immediate 2 2 0x10 0x01 false false
    ∷ row 0x2c "BIT" addr_absolute 3 4 0x10 0x01 true false
    ∷ row 0x2d "AND" addr_absolute 3 4 0x10 0x11 true false
    ∷ row 0x2e "ROL" addr_absolute 3 6 0x01 0x01 true true
    ∷ row 0x2f "RLA" addr_absolute 3 6 0x11 0x11 true true
    ∷ row 0x30 "BMI" addr_relative 2 2 0x01 0x00 false false
    ∷ row 0x31 "AND" addr_indirect_y 2 5 0x00 0x11 true false
    ∷ row 0x32 "KIL" mode_unknown 1 0 0x00 0x00 false false
    ∷ row 0x33 "RLA" addr_indirect_y 2 8 0x01 0x11 true true
    ∷ row 0x34 "NOP" addr_zero_page_x 2 4 0x00 0x00 true false
    ∷ row 0x35 "AND" addr_zero_page_x 2 4 0x10 0x11 true false
    ∷ row 0x36 "ROL" addr_zero_page_x 2 6 0x01 0x01 true true
    ∷ row 0x37 "RLA" addr_zero_page_x 2 6 0x11 0x11 true true
    ∷ row 0x38 "SEC" addr_implied 1 2 0x00 0x01 false false
    ∷ row 0x39 "AND" addr_absolute_y 3 4 0x10 0x11 true false
    ∷ row 0x3a "NOP" addr_implied 1 2 0x00 0x00 false false
    ∷ row 0x3b "RLA" addr_absolute_y 3 7 0x11 0x11 true true
    ∷ row 0x3c "NOP" addr_absolute_x 3 4 0x00 0x00 true false
    ∷ row 0x3d "AND" addr_absolute_x 3 4 0x10 0x11 true false
    ∷ row 0x3e "ROL" addr_absolute_x 3 7 0x01 0x01 true true
    ∷ row 0x3f "RLA" addr_absolute_x 3 7 0x11 0x11 true true
    ∷ row 0x40 "RTI" addr_implied 1 6 0x02 0x03 false false
    ∷ row 0x41 "EOR" addr_indirect_x 2 6 0x10 0x01 true false
    ∷ row 0x42 "KIL" mode_unknown 1 0 0x00 0x00 false false
    ∷ row 0x43 "SRE" addr_indirect_x 2 8 0x10 0x01 true true
    ∷ row 0x44 "NOP" addr_zero_page 2 3 0x00 0x00 true false
    ∷ row 0x45 "EOR" addr_zero_page 2 3 0x10 0x11 true false
    ∷ row 0x46 "LSR" addr_zero_page 2 5 0x00 0x01 true true
    ∷ row 0x47 "SRE" addr_zero_page 2 5 0x10 0x11 true true
    ∷ row 0x48 "PHA" addr_implied 1 3 0x12 0x02 false true
    ∷ row 0x49 "EOR" addr_immediate 2 2 0x10 0x11 false false
    ∷ row 0x4a "LSR" addr_accumulator 1 2 0x10 0x11 false false
    ∷ row 0x4b "ALR" addr_immediate 2 2 0x10 0x11 false false
    ∷ row 0x4c "JMP" addr_absolute 3 3 0x00 0x00 false false
    ∷ row 0x4d "EOR" addr_absolute 3 4 0x10 0x11 true false
    ∷ row 0x4e "LSR" addr_absolute 3 6 0x00 0x01 true true
    ∷ row 0x4f "SRE" addr_absolute 3 6 0x10 0x11 true true
    ∷ row 0x50 "BVC" addr_relative 2 3 0x01 0x00 false false
    ∷ row 0x51 "EOR" addr_indirect_y 2 5 0x10 0x01 true false
    ∷ row 0x52 "KIL" mode_unknown 1 0 0x00 0x00 false false
    ∷ row 0x53 "SRE" addr_indirect_y 2 8 0x10 0x01 true true
    ∷ row 0x54 "NOP" addr_zero_page_x 2 4 0x00 0x00 true false
    ∷ row 0x55 "EOR" addr_zero_page_x 2 4 0x10 0x11 true false
    ∷ row 0x56 "LSR" addr_zero_page_x 2 6 0x00 0x01 true true
    ∷ row 0x57 "SRE" addr_zero_page_x 2 6 0x10 0x11 true true
    ∷ row 0x58 "CLI" addr_implied 1 2 0x00 0x01 false false
    ∷ row 0x59 "EOR" addr_absolute_y 3 4 0x10 0x11 true false
    ∷ row 0x5a "NOP" addr_implied 1 2 0x00 0x00 false false
    ∷ row 0x5b "SRE" addr_absolute_y 3 7 0x10 0x11 true true
    ∷ row 0x5c "NOP" addr_absolute_x 3 4 0x00 0x00 true false
    ∷ row 0x5d "EOR" addr_absolute_x 3 4 0x10 0x11 true false
    ∷ row 0x5e "LSR" addr_absolute_x 3 7 0x00 0x01 true true
    ∷ row 0x5f "SRE" addr_absolute_x 3 7 0x10 0x11 true true
    ∷ row 0x60 "RTS" addr_implied 1 6 0x02 0x02 false false
    ∷ row 0x61 "ADC" addr_indirect_x 2 6 0x11 0x11 true false
    ∷ row 0x62 "KIL" mode_unknown 1 0 0x00 0x00 false false
    ∷ row 0x63 "RRA" addr_indirect_x 2 8 0x11 0x11 true true
    ∷ row 0x64 "NOP" addr_zero_page 2 3 0x00 0x00 true false
    ∷ row 0x65 "ADC" addr_zero_page 2 3 0x11 0x11 true false
    ∷ row 0x66 "ROR" addr_zero_page 2 5 0x01 0x01 true true
    ∷ row 0x67 "RRA" addr_zero_page 2 5 0x11 0x11 true true
    ∷ row 0x68 "PLA" addr_implied 1 4 0x02 0x13 false false
    ∷ row 0x69 "ADC" addr_immediate 2 2 0x11 0x11 false false
    ∷ row 0x6a "ROR" addr_accumulator 1 2 0x11 0x11 false false
    ∷ row 0x6b "ARR" addr_immediate 2 2 0x11 0x11 false false
    ∷ row 0x6c "JMP" addr_abs_indirect 3 5 0x00 0x00 false false
    ∷ row 0x6d "ADC" addr_absolute 3 4 0x11 0x11 true false
    ∷ row 0x6e "ROR" addr_absolute 3 6 0x01 0x01 true true
    ∷ row 0x6f "RRA" addr_absolute 3 6 0x11 0x11 true true
    ∷ row 0x70 "BVS" addr_relative 2 2 0x01 0x00 false false
    ∷ row 0x71 "ADC" addr_indirect_y 2 5 0x11 0x11 true false
    ∷ row 0x72 "KIL" mode_unknown 1 0 0x00 0x00 false false
    ∷ row 0x73 "RRA" addr_indirect_y 2 8 0x11 0x11 true true
    ∷ row 0x74 "NOP" addr_zero_page_x 2 4 0x00 0x00 true false
    ∷ row 0x75 "ADC" addr_zero_page_x 2 4 0x19 0x11 true false
    ∷ row 0x76 "ROR" addr_zero_page_x 2 6 0x01 0x01 true true
    ∷ row 0x77 "RRA" addr_zero_page_x 2 6 0x11 0x11 true true
    ∷ row 0x78 "SEI" addr_implied 1 2 0x00 0x01 false false
    ∷ row 0x79 "ADC" addr_absolute_y 3 4 0x11 0x11 true false
    ∷ row 0x7a "NOP" addr_implied 1 2 0x00 0x00 false false
    ∷ row 0x7b "RRA" addr_absolute_y 3 7 0x11 0x11 true true
    ∷ row 0x7c "NOP" addr_absolute_x 3 4 0x00 0x00 true false
    ∷ row 0x7d "ADC" addr_absolute_x 3 4 0x11 0x11 true false
    ∷ row 0x7e "ROR" addr_absolute_x 3 7 0x01 0x01 true true
    ∷ row 0x7f "RRA" addr_absolute_x 3 7 0x11 0x11 true true
    ∷ []
