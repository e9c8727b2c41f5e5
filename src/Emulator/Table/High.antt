-- ===== src/Emulator/Table/High.antt =====
-- Rows 0x80 to 0xff of `opcode_table` in opcode_table.c.
use kernel_nesemulator.Prelude.{true, false, List, [], ◌∷◌}
use kernel_nesemulator.Emulator.Table.Entry.{
  OpcodeEntry, row, addr_implied, addr_immediate, addr_absolute, addr_zero_page, addr_absolute_x,
  addr_absolute_y, addr_zero_page_x, addr_zero_page_y, addr_indirect_x, addr_indirect_y,
  addr_relative, mode_unknown,
}

unfoldable pub high_rows : List OpcodeEntry
high_rows =
    row 0x80 "NOP" addr_immediate 2 2 0x00 0x00 false false
    ∷ row 0x81 "STA" addr_indirect_x 2 6 0x10 0x00 true true
    ∷ row 0x82 "NOP" addr_immediate 2 2 0x00 0x00 false false
    ∷ row 0x83 "SAX" addr_indirect_x 2 6 0x00 0x00 true true
    ∷ row 0x84 "STY" addr_zero_page 2 3 0x04 0x00 false true
    ∷ row 0x85 "STA" addr_zero_page 2 3 0x10 0x00 false true
    ∷ row 0x86 "STX" addr_zero_page 2 3 0x08 0x00 false true
    ∷ row 0x87 "SAX" addr_zero_page 2 3 0x00 0x00 false true
    ∷ row 0x88 "DEY" addr_implied 1 2 0x04 0x05 false false
    ∷ row 0x89 "NOP" addr_immediate 2 2 0x00 0x00 false false
    ∷ row 0x8a "TXA" addr_implied 1 2 0x08 0x11 false false
    ∷ row 0x8b "XAA" addr_immediate 2 2 0x00 0x11 false false
    ∷ row 0x8c "STY" addr_absolute 3 4 0x04 0x00 false true
    ∷ row 0x8d "STA" addr_absolute 3 4 0x10 0x00 false true
    ∷ row 0x8e "STX" addr_absolute 3 4 0x08 0x00 false true
    ∷ row 0x8f "SAX" addr_absolute 3 4 0x00 0x00 false true
    ∷ row 0x90 "BCC" addr_relative 2 3 0x01 0x00 false false
    ∷ row 0x91 "STA" addr_indirect_y 2 6 0x14 0x00 true true
    ∷ row 0x92 "KIL" mode_unknown 1 0 0x00 0x00 false false
    ∷ row 0x93 "AHX" addr_indirect_y 2 6 0x00 0x00 true true
    ∷ row 0x94 "STY" addr_zero_page_x 2 4 0x04 0x00 true true
    ∷ row 0x95 "STA" addr_zero_page_x 2 4 0x18 0x00 false true
    ∷ row 0x96 "STX" addr_zero_page_y 2 4 0x08 0x00 true true
    ∷ row 0x97 "SAX" addr_zero_page_y 2 4 0x00 0x00 true true
    ∷ row 0x98 "TYA" addr_implied 1 2 0x04 0x11 false false
    ∷ row 0x99 "STA" addr_absolute_y 3 5 0x10 0x00 true true
    ∷ row 0x9a "TXS" addr_implied 1 2 0x08 0x02 false false
    ∷ row 0x9b "TAS" addr_absolute_y 1 5 0x04 0x02 false true
    ∷ row 0x9c "SHY" addr_absolute_x 3 5 0x04 0x00 true true
    ∷ row 0x9d "STA" addr_absolute_x 3 5 0x10 0x00 true true
    ∷ row 0x9e "SHX" addr_absolute_y 3 5 0x08 0x00 true true
    ∷ row 0x9f "AHX" addr_absolute_y 3 5 0x00 0x00 true true
    ∷ row 0xa0 "LDY" addr_immediate 2 2 0x00 0x05 false false
    ∷ row 0xa1 "LDA" addr_indirect_x 2 6 0x00 0x11 true false
    ∷ row 0xa2 "LDX" addr_immediate 2 2 0x00 0x09 false false
    ∷ row 0xa3 "LAX" addr_indirect_x 2 6 0x00 0x19 true false
    ∷ row 0xa4 "LDY" addr_zero_page 2 3 0x00 0x05 true false
    ∷ row 0xa5 "LDA" addr_zero_page 2 3 0x00 0x11 true false
    ∷ row 0xa6 "LDX" addr_zero_page 2 3 0x00 0x09 true false
    ∷ row 0xa7 "LAX" addr_zero_page 2 3 0x00 0x19 true false
    ∷ row 0xa8 "TAY" addr_implied 1 2 0x10 0x05 false false
    ∷ row 0xa9 "LDA" addr_immediate 2 2 0x00 0x11 false false
    ∷ row 0xaa "TAX" addr_implied 1 2 0x10 0x09 false false
    ∷ row 0xab "LAX" addr_immediate 2 2 0x10 0x19 false false
    ∷ row 0xac "LDY" addr_absolute 3 4 0x00 0x05 true false
    ∷ row 0xad "LDA" addr_absolute 3 4 0x00 0x11 true false
    ∷ row 0xae "LDX" addr_absolute 3 4 0x00 0x09 true false
    ∷ row 0xaf "LAX" addr_absolute 3 4 0x00 0x19 true false
    ∷ row 0xb0 "BCS" addr_relative 2 2 0x01 0x00 false false
    ∷ row 0xb1 "LDA" addr_indirect_y 2 5 0x00 0x11 true false
    ∷ row 0xb2 "KIL" mode_unknown 1 0 0x00 0x00 false false
    ∷ row 0xb3 "LAX" addr_indirect_y 2 5 0x00 0x19 true false
    ∷ row 0xb4 "LDY" addr_zero_page_x 2 4 0x00 0x05 true false
    ∷ row 0xb5 "LDA" addr_zero_page_x 2 4 0x08 0x11 true false
    ∷ row 0xb6 "LDX" addr_zero_page_y 2 4 0x00 0x09 true false
    ∷ row 0xb7 "LAX" addr_zero_page_y 2 4 0x00 0x19 true false
    ∷ row 0xb8 "CLV" addr_implied 1 2 0x00 0x01 false false
    ∷ row 0xb9 "LDA" addr_absolute_y 3 4 0x00 0x11 true false
    ∷ row 0xba "TSX" addr_implied 1 2 0x02 0x09 false false
    ∷ row 0xbb "LAS" addr_absolute_y 3 4 0x02 0x1b true false
    ∷ row 0xbc "LDY" addr_absolute_x 3 4 0x00 0x05 true false
    ∷ row 0xbd "LDA" addr_absolute_x 3 4 0x08 0x11 true false
    ∷ row 0xbe "LDX" addr_absolute_y 3 4 0x00 0x09 true false
    ∷ row 0xbf "LAX" addr_absolute_y 3 4 0x00 0x19 true false
    ∷ row 0xc0 "CPY" addr_immediate 2 2 0x04 0x01 false false
    ∷ row 0xc1 "CMP" addr_indirect_x 2 6 0x10 0x01 true false
    ∷ row 0xc2 "NOP" addr_immediate 2 2 0x00 0x00 false false
    ∷ row 0xc3 "DCP" addr_indirect_x 2 8 0x10 0x01 true true
    ∷ row 0xc4 "CPY" addr_zero_page 2 3 0x04 0x01 true false
    ∷ row 0xc5 "CMP" addr_zero_page 2 3 0x10 0x01 true false
    ∷ row 0xc6 "DEC" addr_zero_page 2 5 0x00 0x01 true true
    ∷ row 0xc7 "DCP" addr_zero_page 2 5 0x10 0x01 true true
    ∷ row 0xc8 "INY" addr_implied 1 2 0x04 0x05 false false
    ∷ row 0xc9 "CMP" addr_immediate 2 2 0x10 0x01 false false
    ∷ row 0xca "DEX" addr_implied 1 2 0x08 0x09 false false
    ∷ row 0xcb "AXS" addr_immediate 2 2 0x00 0x09 false false
    ∷ row 0xcc "CPY" addr_absolute 3 4 0x04 0x01 true false
    ∷ row 0xcd "CMP" addr_absolute 3 4 0x10 0x01 true false
    ∷ row 0xce "DEC" addr_absolute 3 6 0x00 0x01 true true
    ∷ row 0xcf "DCP" addr_absolute 3 6 0x10 0x01 true true
    ∷ row 0xd0 "BNE" addr_relative 2 2 0x01 0x00 false false
    ∷ row 0xd1 "CMP" addr_indirect_y 2 5 0x10 0x01 true false
    ∷ row 0xd2 "KIL" mode_unknown 1 0 0x00 0x00 false false
    ∷ row 0xd3 "DCP" addr_indirect_y 2 8 0x10 0x01 true true
    ∷ row 0xd4 "NOP" addr_zero_page_x 2 4 0x00 0x00 true false
    ∷ row 0xd5 "CMP" addr_zero_page_x 2 4 0x10 0x01 true false
    ∷ row 0xd6 "DEC" addr_zero_page_x 2 6 0x00 0x01 true true
    ∷ row 0xd7 "DCP" addr_zero_page_x 2 6 0x10 0x01 true true
    ∷ row 0xd8 "CLD" addr_implied 1 2 0x00 0x01 false false
    ∷ row 0xd9 "CMP" addr_absolute_y 3 4 0x10 0x01 true false
    ∷ row 0xda "NOP" addr_implied 1 2 0x00 0x00 false false
    ∷ row 0xdb "DCP" addr_absolute_y 3 7 0x10 0x01 true true
    ∷ row 0xdc "NOP" addr_absolute_x 3 4 0x00 0x00 true false
    ∷ row 0xdd "CMP" addr_absolute_x 3 4 0x10 0x01 true false
    ∷ row 0xde "DEC" addr_absolute_x 3 7 0x00 0x01 true true
    ∷ row 0xdf "DCP" addr_absolute_x 3 7 0x10 0x01 true true
    ∷ row 0xe0 "CPX" addr_immediate 2 2 0x08 0x01 false false
    ∷ row 0xe1 "SBC" addr_indirect_x 2 6 0x11 0x11 true false
    ∷ row 0xe2 "NOP" addr_immediate 2 2 0x00 0x00 false false
    ∷ row 0xe3 "ISC" addr_indirect_x 2 8 0x11 0x11 true true
    ∷ row 0xe4 "CPX" addr_zero_page 2 3 0x08 0x01 true false
    ∷ row 0xe5 "SBC" addr_zero_page 2 3 0x11 0x11 true false
    ∷ row 0xe6 "INC" addr_zero_page 2 5 0x00 0x01 true true
    ∷ row 0xe7 "ISC" addr_zero_page 2 5 0x11 0x11 true true
    ∷ row 0xe8 "INX" addr_implied 1 2 0x08 0x09 false false
    ∷ row 0xe9 "SBC" addr_immediate 2 2 0x11 0x11 false false
    ∷ row 0xea "NOP" addr_implied 1 2 0x00 0x00 false false
    ∷ row 0xeb "SBC" addr_immediate 2 2 0x11 0x11 false false
    ∷ row 0xec "CPX" addr_absolute 3 4 0x08 0x01 true false
    ∷ row 0xed "SBC" addr_absolute 3 4 0x11 0x11 true false
    ∷ row 0xee "INC" addr_absolute 3 6 0x00 0x01 true true
    ∷ row 0xef "ISC" addr_absolute 3 6 0x11 0x11 true true
    ∷ row 0xf0 "BEQ" addr_relative 2 2 0x01 0x00 false false
    ∷ row 0xf1 "SBC" addr_indirect_y 2 5 0x11 0x11 true false
    ∷ row 0xf2 "KIL" mode_unknown 1 0 0x00 0x00 false false
    ∷ row 0xf3 "ISC" addr_indirect_y 2 8 0x11 0x11 true true
    ∷ row 0xf4 "NOP" addr_zero_page_x 2 4 0x00 0x00 true false
    ∷ row 0xf5 "SBC" addr_zero_page_x 2 4 0x11 0x11 true false
    ∷ row 0xf6 "INC" addr_zero_page_x 2 6 0x00 0x01 true true
    ∷ row 0xf7 "ISC" addr_zero_page_x 2 6 0x11 0x11 true true
    ∷ row 0xf8 "SED" addr_implied 1 2 0x00 0x01 false false
    ∷ row 0xf9 "SBC" addr_absolute_y 3 4 0x11 0x11 true false
    ∷ row 0xfa "NOP" addr_implied 1 2 0x00 0x00 false false
    ∷ row 0xfb "ISC" addr_absolute_y 3 7 0x11 0x11 true true
    ∷ row 0xfc "NOP" addr_absolute_x 3 4 0x00 0x00 true false
    ∷ row 0xfd "SBC" addr_absolute_x 3 4 0x11 0x11 true false
    ∷ row 0xfe "INC" addr_absolute_x 3 7 0x08 0x01 true true
    ∷ row 0xff "ISC" addr_absolute_x 3 7 0x11 0x11 true true
    ∷ []
