-- ===== src/Emulator/Opcode.antt =====
-- The labels of the `switch` of `emulate_CPU`, in the groups in which it lists them.
use kernel_nesemulator.Prelude.{ℕ, List, [], ◌∷◌, ◌==◌, if◌then◌else◌}

-- Loads and stores.
pub data LoadStore : Type 0 where
  ldy_imm ldx_imm lda_imm lda_zp lda_zpx lda_abs lda_absx : LoadStore
  sta_zp sta_zpx sta_abs sta_absx sta_indy sta_indx : LoadStore
  stx_zp stx_abs sty_zp sty_abs : LoadStore

pub data Branch : Type 0 where
  bne beq bpl bmi bvc bvs bcc bcs : Branch

-- Stack and jumps. 0x48 and 0x68 carry each other's name in the source's comments.
pub data Control : Type 0 where
  pha pla jsr rts jmp jmp_ind php plp brk rti : Control

-- Register moves, and instructions that only set a flag.
pub data Transfer : Type 0 where
  inx dex iny dey tax tay txa tya txs tsx : Transfer
  sec clc clv sei cli sed : Transfer

pub data Shift : Type 0 where
  asl_a asl_zp asl_abs lsr_a lsr_zp lsr_abs rol_a rol_zp rol_abs ror_zp ror_abs : Shift

pub data Logic : Type 0 where
  ora_imm ora_zp ora_abs eor_imm eor_zp eor_abs and_imm and_zp and_abs : Logic

pub data Arith : Type 0 where
  inc_zp inc_abs inc_absx dec_zp dec_abs adc_imm adc_zpx adc_zp adc_abs : Arith
  sbc_imm sbc_zp sbc_abs cmp_imm cmp_zp cmp_abs cpx_imm cpx_zp cpx_abs : Arith
  cpy_imm cpy_zp cpy_abs bit_zp bit_abs : Arith

-- A case of the `switch`; `unknown` is its `default`.
pub data Opcode : Type 0 where
  load_store : LoadStore → Opcode
  branch : Branch → Opcode
  control : Control → Opcode
  transfer : Transfer → Opcode
  shift : Shift → Opcode
  logic : Logic → Opcode
  arithmetic : Arith → Opcode
  hlt nop unknown : Opcode

abbrev load_store_cases : List (ℕ × Opcode)
load_store_cases =
    (0xa0, load_store ldy_imm)
    ∷ (0xa2, load_store ldx_imm)
    ∷ (0xa9, load_store lda_imm)
    ∷ (0xa5, load_store lda_zp)
    ∷ (0xb5, load_store lda_zpx)
    ∷ (0xad, load_store lda_abs)
    ∷ (0xbd, load_store lda_absx)
    ∷ (0x85, load_store sta_zp)
    ∷ (0x95, load_store sta_zpx)
    ∷ (0x8d, load_store sta_abs)
    ∷ (0x9d, load_store sta_absx)
    ∷ (0x91, load_store sta_indy)
    ∷ (0x81, load_store sta_indx)
    ∷ (0x86, load_store stx_zp)
    ∷ (0x8e, load_store stx_abs)
    ∷ (0x84, load_store sty_zp)
    ∷ (0x8c, load_store sty_abs)
    ∷ []

abbrev control_cases : List (ℕ × Opcode)
control_cases =
    (0x02, hlt)
    ∷ (0xd0, branch bne)
    ∷ (0xf0, branch beq)
    ∷ (0x10, branch bpl)
    ∷ (0x30, branch bmi)
    ∷ (0x50, branch bvc)
    ∷ (0x70, branch bvs)
    ∷ (0x90, branch bcc)
    ∷ (0xb0, branch bcs)
    ∷ (0x48, control pha)
    ∷ (0x68, control pla)
    ∷ (0x20, control jsr)
    ∷ (0x60, control rts)
    ∷ (0x4c, control jmp)
    ∷ (0x6c, control jmp_ind)
    ∷ (0x08, control php)
    ∷ (0x28, control plp)
    ∷ (0x00, control brk)
    ∷ (0x40, control rti)
    ∷ (0xea, nop)
    ∷ []

abbrev transfer_cases : List (ℕ × Opcode)
transfer_cases =
    (0xe8, transfer inx)
    ∷ (0xca, transfer dex)
    ∷ (0xc8, transfer iny)
    ∷ (0x88, transfer dey)
    ∷ (0xaa, transfer tax)
    ∷ (0xa8, transfer tay)
    ∷ (0x8a, transfer txa)
    ∷ (0x98, transfer tya)
    ∷ (0x9a, transfer txs)
    ∷ (0xba, transfer tsx)
    ∷ (0x38, transfer sec)
    ∷ (0x18, transfer clc)
    ∷ (0xb8, transfer clv)
    ∷ (0x78, transfer sei)
    ∷ (0x58, transfer cli)
    ∷ (0xf8, transfer sed)
    ∷ []

abbrev shift_cases : List (ℕ × Opcode)
shift_cases =
    (0x0a, shift asl_a)
    ∷ (0x06, shift asl_zp)
    ∷ (0x0e, shift asl_abs)
    ∷ (0x4a, shift lsr_a)
    ∷ (0x46, shift lsr_zp)
    ∷ (0x4e, shift lsr_abs)
    ∷ (0x2a, shift rol_a)
    ∷ (0x26, shift rol_zp)
    ∷ (0x2e, shift rol_abs)
    ∷ (0x66, shift ror_zp)
    ∷ (0x6e, shift ror_abs)
    ∷ (0x09, logic ora_imm)
    ∷ (0x05, logic ora_zp)
    ∷ (0x0d, logic ora_abs)
    ∷ (0x49, logic eor_imm)
    ∷ (0x45, logic eor_zp)
    ∷ (0x4d, logic eor_abs)
    ∷ (0x29, logic and_imm)
    ∷ (0x25, logic and_zp)
    ∷ (0x2d, logic and_abs)
    ∷ []

abbrev arithmetic_cases : List (ℕ × Opcode)
arithmetic_cases =
    (0xe6, arithmetic inc_zp)
    ∷ (0xee, arithmetic inc_abs)
    ∷ (0xfe, arithmetic inc_absx)
    ∷ (0xc6, arithmetic dec_zp)
    ∷ (0xce, arithmetic dec_abs)
    ∷ (0x69, arithmetic adc_imm)
    ∷ (0x75, arithmetic adc_zpx)
    ∷ (0x65, arithmetic adc_zp)
    ∷ (0x6d, arithmetic adc_abs)
    ∷ (0xe9, arithmetic sbc_imm)
    ∷ (0xe5, arithmetic sbc_zp)
    ∷ (0xed, arithmetic sbc_abs)
    ∷ (0xc9, arithmetic cmp_imm)
    ∷ (0xc5, arithmetic cmp_zp)
    ∷ (0xcd, arithmetic cmp_abs)
    ∷ (0xe0, arithmetic cpx_imm)
    ∷ (0xe4, arithmetic cpx_zp)
    ∷ (0xec, arithmetic cpx_abs)
    ∷ (0xc0, arithmetic cpy_imm)
    ∷ (0xc4, arithmetic cpy_zp)
    ∷ (0xcc, arithmetic cpy_abs)
    ∷ (0x24, arithmetic bit_zp)
    ∷ (0x2c, arithmetic bit_abs)
    ∷ []

-- The case among `cases`, or else `other`.
unfoldable pub select : List (ℕ × Opcode) → ℕ → Opcode → Opcode
select [] opcode other = other
select ((label, case) ∷ rest) opcode other =
    if label == opcode then case else select rest opcode other

unfoldable pub decode : ℕ → Opcode
unfolding select
decode opcode = select load_store_cases opcode (
    select control_cases opcode (
      select transfer_cases opcode
        (select shift_cases opcode (select arithmetic_cases opcode unknown))))
