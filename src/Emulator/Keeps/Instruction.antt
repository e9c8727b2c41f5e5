-- ===== src/Emulator/Keeps/Instruction.antt =====
-- Stable predicates and the instructions, case by case.
use kernel_nesemulator.Prelude.{ℕ, Bool}
use kernel_nesemulator.Emulator.State.{Cpu}
use kernel_nesemulator.Emulator.Addressing.{
  get_zp_indexed_address, get_absolute_addr, get_absolute_addr_x_indexed,
  get_indirect_address_y_indexed, get_indirect_address_x_indexed,
}
use kernel_nesemulator.Emulator.Alu.{
  asl_op, lsr_op, rol_op, ror_op, adc_op, sbc_op, inc_op, dec_op, cmp_op, bit_op,
}
use kernel_nesemulator.Emulator.Opcode.{
  LoadStore, Branch, Control, Transfer, Shift, Logic, Arith, Opcode, ldy_imm, bne, pha, inx, asl_a,
  ora_imm, inc_zp, load_store, branch, control, transfer, shift, logic, arithmetic,
}
use kernel_nesemulator.Emulator.Execute.LoadStore.{load_a, exec_load_store}
use kernel_nesemulator.Emulator.Execute.Control.{branch_if, exec_branch, exec_control}
use kernel_nesemulator.Emulator.Execute.Transfer.{exec_transfer}
use kernel_nesemulator.Emulator.Execute.Bitwise.{
  on_memory, exec_shift, combine_memory, combine_immediate, exec_logic,
}
use kernel_nesemulator.Emulator.Execute.Arithmetic.{
  with_memory, compare_memory, compare_immediate, exec_arith,
}
use kernel_nesemulator.Emulator.Execute.{execute}
use kernel_nesemulator.Emulator.Keeps.Primitive.{Keeps, keeps_bus}

Keeps-get_zp_indexed_address : (v : ℕ) → Keeps (get_zp_indexed_address v)
unfolding get_zp_indexed_address
Keeps-get_zp_indexed_address v = search keeps_bus

Keeps-get_absolute_addr : Keeps (get_absolute_addr)
unfolding get_absolute_addr
Keeps-get_absolute_addr = search keeps_bus

Keeps-get_absolute_addr_x_indexed : Keeps (get_absolute_addr_x_indexed)
unfolding get_absolute_addr_x_indexed
Keeps-get_absolute_addr_x_indexed = search keeps_bus depth 12

Keeps-get_indirect_address_y_indexed : Keeps (get_indirect_address_y_indexed)
unfolding get_indirect_address_y_indexed
Keeps-get_indirect_address_y_indexed = search keeps_bus depth 12

Keeps-get_indirect_address_x_indexed : Keeps (get_indirect_address_x_indexed)
unfolding get_indirect_address_x_indexed
Keeps-get_indirect_address_x_indexed = search keeps_bus depth 12

ruleset keeps_modes = (
  keeps_bus, Keeps-get_zp_indexed_address, Keeps-get_absolute_addr,
  Keeps-get_absolute_addr_x_indexed, Keeps-get_indirect_address_y_indexed,
  Keeps-get_indirect_address_x_indexed,
)

Keeps-asl_op : (input : ℕ) → (address : ℕ) → Keeps (asl_op input address)
unfolding asl_op
Keeps-asl_op input address = search keeps_bus

Keeps-lsr_op : (input : ℕ) → (address : ℕ) → Keeps (lsr_op input address)
unfolding lsr_op
Keeps-lsr_op input address = search keeps_bus

Keeps-rol_op : (input : ℕ) → (address : ℕ) → Keeps (rol_op input address)
unfolding rol_op
Keeps-rol_op input address = search keeps_bus

Keeps-ror_op : (input : ℕ) → (address : ℕ) → Keeps (ror_op input address)
unfolding ror_op
Keeps-ror_op input address = search keeps_bus

Keeps-inc_op : (input : ℕ) → (address : ℕ) → Keeps (inc_op input address)
unfolding inc_op
Keeps-inc_op input address = search keeps_bus

Keeps-dec_op : (input : ℕ) → (address : ℕ) → Keeps (dec_op input address)
unfolding dec_op
Keeps-dec_op input address = search keeps_bus

Keeps-cmp_op : (input : ℕ) → (value : ℕ) → Keeps (cmp_op input value)
unfolding cmp_op
Keeps-cmp_op input value = search keeps_bus

Keeps-adc_op : (input : ℕ) → Keeps (adc_op input)
unfolding adc_op
Keeps-adc_op input = search keeps_bus depth 12

Keeps-sbc_op : (input : ℕ) → Keeps (sbc_op input)
unfolding sbc_op
Keeps-sbc_op input = search keeps_bus depth 12

Keeps-bit_op : (input : ℕ) → Keeps (bit_op input)
unfolding bit_op
Keeps-bit_op input = search keeps_bus

ruleset keeps_alu = (
  keeps_modes, Keeps-asl_op, Keeps-lsr_op, Keeps-rol_op, Keeps-ror_op, Keeps-inc_op, Keeps-dec_op,
  Keeps-cmp_op, Keeps-adc_op, Keeps-sbc_op, Keeps-bit_op,
)

Keeps-load_a : (address : ℕ) → Keeps (load_a address)
unfolding load_a
Keeps-load_a address = search keeps_bus

Keeps-branch_if : (test : ℕ → Bool) → Keeps (branch_if test)
unfolding branch_if
Keeps-branch_if test = search keeps_bus depth 12

Keeps-on_memory :
    (op : ℕ → ℕ → Cpu (Unit {0})) (address : ℕ)
    → ((v w : ℕ) → Keeps (op v w))
    → Keeps (on_memory op address)
unfolding on_memory
Keeps-on_memory op address k = search keeps_bus

Keeps-with_memory :
    (op : ℕ → Cpu (Unit {0})) (address : ℕ)
    → ((v : ℕ) → Keeps (op v))
    → Keeps (with_memory op address)
unfolding with_memory
Keeps-with_memory op address k = search keeps_bus

Keeps-combine_memory :
    (op : ℕ → Cpu ℕ) (address : ℕ) → ((v : ℕ) → Keeps (op v)) → Keeps (combine_memory op address)
unfolding combine_memory
Keeps-combine_memory op address k = search keeps_bus

Keeps-combine_immediate : (op : ℕ → Cpu ℕ) → ((v : ℕ) → Keeps (op v)) → Keeps (combine_immediate op)
unfolding combine_immediate
Keeps-combine_immediate op k = search keeps_bus

Keeps-compare_memory : (r : Cpu ℕ) (address : ℕ) → Keeps r → Keeps (compare_memory r address)
unfolding compare_memory
Keeps-compare_memory r address k = search keeps_alu

Keeps-compare_immediate : (r : Cpu ℕ) → Keeps r → Keeps (compare_immediate r)
unfolding compare_immediate
Keeps-compare_immediate r k = search keeps_alu

ruleset keeps_forms = (
  keeps_alu, Keeps-load_a, Keeps-branch_if, Keeps-on_memory, Keeps-with_memory,
  Keeps-combine_memory, Keeps-combine_immediate, Keeps-compare_memory, Keeps-compare_immediate,
)

Keeps-exec_load_store : (op : LoadStore) → Keeps (exec_load_store op)
unfolding exec_load_store
Keeps-exec_load_store ldy_imm = search keeps_forms depth 12
Keeps-exec_load_store _ = search keeps_forms depth 12

Keeps-exec_branch : (op : Branch) → Keeps (exec_branch op)
unfolding exec_branch
Keeps-exec_branch bne = search keeps_forms depth 12
Keeps-exec_branch _ = search keeps_forms depth 12

Keeps-exec_control : (op : Control) → Keeps (exec_control op)
unfolding exec_control
Keeps-exec_control pha = search keeps_forms depth 12
Keeps-exec_control _ = search keeps_forms depth 12

Keeps-exec_transfer : (op : Transfer) → Keeps (exec_transfer op)
unfolding exec_transfer
Keeps-exec_transfer inx = search keeps_forms depth 12
Keeps-exec_transfer _ = search keeps_forms depth 12

Keeps-exec_shift : (op : Shift) → Keeps (exec_shift op)
unfolding exec_shift
Keeps-exec_shift asl_a = search keeps_forms depth 12
Keeps-exec_shift _ = search keeps_forms depth 12

Keeps-exec_logic : (op : Logic) → Keeps (exec_logic op)
unfolding exec_logic
Keeps-exec_logic ora_imm = search keeps_forms depth 12
Keeps-exec_logic _ = search keeps_forms depth 12

Keeps-exec_arith : (op : Arith) → Keeps (exec_arith op)
unfolding exec_arith
Keeps-exec_arith inc_zp = search keeps_forms depth 12
Keeps-exec_arith _ = search keeps_forms depth 12

-- Whatever the opcode, the `switch` of `emulate_CPU` preserves every stable predicate.
pub Keeps-execute : (op : Opcode) → Keeps (execute op)
unfolding execute
Keeps-execute (load_store op) = Keeps-exec_load_store op
Keeps-execute (branch op) = Keeps-exec_branch op
Keeps-execute (control op) = Keeps-exec_control op
Keeps-execute (transfer op) = Keeps-exec_transfer op
Keeps-execute (shift op) = Keeps-exec_shift op
Keeps-execute (logic op) = Keeps-exec_logic op
Keeps-execute (arithmetic op) = Keeps-exec_arith op
Keeps-execute _ = search keeps_bus
