-- ===== src/Emulator/Tests.antt =====
-- A machine at the start of a program whose bytes are their own addresses modulo 256.
use kernel_nesemulator.Prelude.{
  ℕ, ◌+◌, ◌-◌, ◌*◌, ◌%◌, ◌≤◌, ◌≡◌, inr, refl, true, drop, false, not, ◌&&◌, some, [], ◌∷◌, length,
  leb, ◌==◌, if◌then◌else◌, u8, u16, arith,
}
use kernel_nesemulator.Heap
use kernel_nesemulator.Heap.{Heap, get_entry_type}
use kernel_nesemulator.Heap.Search.{free_prefix}
use kernel_nesemulator.Heap.Chain.{chain}
use kernel_nesemulator.Heap.RoundTrip.{IsValid}
use kernel_nesemulator.Emulator.State.{Machine, flag_carry, flag_zero, flag_negative, flag_overflow}
use kernel_nesemulator.Emulator.Log.{add_tracelog_entry, make_room, entry_size}
use kernel_nesemulator.Emulator.Alu.{adc_op, sbc_op, cmp_op, rol_op, ror_op}
use kernel_nesemulator.Emulator.Opcode.{rts, jsr, rti, brk}
use kernel_nesemulator.Emulator.Execute.Control.{exec_control}
use kernel_nesemulator.Emulator.Execute.Bitwise.{on_memory}
use kernel_nesemulator.Emulator.Run.{emulate_cpu, boot, start_state, emu_init, running}
use kernel_nesemulator.Emulator.Keeps.Primitive.{InRange}
use kernel_nesemulator.Emulator.Step.{IsTyped}
use kernel_nesemulator.Emulator.Termination.Start.{run_fuel, AreBytes, Buffers, emu_init-terminates}
use kernel_nesemulator.Emulator.Bits.{has, negative}
use kernel_nesemulator.Emulator.Stack.{rts-jsr}
use kernel_nesemulator.Emulator.Stack.Interrupt.{rti-brk}
use kernel_nesemulator.Emulator.Sums.{carry_in}
use kernel_nesemulator.Emulator.Sums.Overflow.{
  Accumulated, signed_overflow, signed_underflow, adc_op-sum, sbc_op-difference, cmp_op-order,
}
use kernel_nesemulator.Emulator.Memory.{ror-rol}
use kernel_nesemulator.Emulator.LogBound.{
  IsCounted, length-add_tracelog_entry, emulate_cpu-IsCounted,
}

abbrev small_heap : Heap
small_heap = record { entries = 0 ∷ 0 ∷ 0 ∷ []; total = 3; saddr = 0x2000 }

abbrev image : ℕ → ℕ
image i = i % 256

abbrev start : Machine
start = record {
  registers = record {
    a = 0x80;
    x = 1;
    y = 2;
    flags = 1;
    stack_pointer = 0;
    program_counter = 0x8000;
  };
  ram = image;
  rom = image;
  cur_opcode = 0;
  total_cpu_cycles = 8;
  halted = false;
  log = record { entries = []; current_length = 0; current_operand = 0; selected = 0; faults = 0 };
  heap = small_heap;
}

start-InRange : InRange start.registers
start-InRange = record {
  a = omega arith;
  x = omega arith;
  y = omega arith;
  flags = omega arith;
  stack_pointer = omega arith;
  program_counter = omega arith;
}

start-IsTyped : IsTyped start
start-IsTyped = record { registers = start-InRange; ram = λ i. omega arith; rom = λ i. omega arith }

start-IsCounted : IsCounted start
start-IsCounted = record { counted = inr (refl, refl); bounded = omega arith }

image-AreBytes : AreBytes (some image)
unfolding AreBytes
image-AreBytes = λ i. omega arith

abbrev twelve_blocks : Heap
twelve_blocks = record {
  entries = 0x41 ∷ 0 ∷ 0 ∷ 0 ∷ 0 ∷ 0 ∷ 0 ∷ 0 ∷ 0 ∷ 0 ∷ 0 ∷ 0 ∷ [];
  total = 12;
  saddr = 0x2000;
}

twelve_blocks-IsValid : IsValid twelve_blocks
unfolding chain
twelve_blocks-IsValid = record {
  sized = refl;
  chained = refl;
  nonnull = omega arith;
  small = omega arith;
  placed = omega arith;
}

twelve_blocks-run : free_prefix 10 (drop 1 twelve_blocks.entries) ≡ true
unfolding free_prefix get_entry_type
twelve_blocks-run = refl

emu_init-terminates_example :
    (after : Heap) × ((boot twelve_blocks ≡ some (start_state after))
      × (Buffers twelve_blocks after
          × ((end : Machine) × ((emu_init run_fuel twelve_blocks (some image) ≡ some end)
                × ((running end ≡ false) × IsTyped end)))))
emu_init-terminates_example =
    emu_init-terminates twelve_blocks 1 (some image) twelve_blocks-IsValid twelve_blocks-run
      image-AreBytes

rts-jsr_example :
    (exec_control rts (exec_control jsr start).1).1.registers
    ≡ record start.registers { program_counter = u16 (0x8000 + 2) }
rts-jsr_example = rts-jsr start start-InRange

rti-brk_example :
    (exec_control rti (exec_control brk start).1).1.registers
    ≡ record start.registers { program_counter = u16 (0x8000 + 1) }
rti-brk_example = rti-brk start start-InRange

-- -128 + -1 + 1 is in the range of a signed byte, and V is set.
adc_op-sum_example :
    (let t = (adc_op 0xff start).1 in
      Accumulated start t
      × ((t.registers.a + 256 * carry_in t ≡ 0x80 + 0xff + carry_in start)
          × (has flag_overflow t.registers.flags ≡ (
              if negative 0x80 && negative 0xff
              then not (signed_overflow 0x80 0xff (carry_in start))
              else signed_overflow 0x80 0xff (carry_in start)))))
adc_op-sum_example = adc_op-sum 0xff start start-InRange (omega arith)

sbc_op-difference_example :
    (let t = (sbc_op 1 start).1 in
      Accumulated start t
      × ((t.registers.a + 256 * carry_in t + 1 ≡ 0x80 + 255 + carry_in start)
          × (has flag_overflow t.registers.flags ≡ (
              if not (negative 0x80) && negative 1
              then not (signed_underflow 0x80 1 (carry_in start))
              else signed_underflow 0x80 1 (carry_in start)))))
sbc_op-difference_example = sbc_op-difference 1 start start-InRange (omega arith)

cmp_op-order_example :
    (let t = (cmp_op 0xff 0x10 start).1 in
      (has flag_carry t.registers.flags ≡ leb 0xff 0x10)
      × ((has flag_zero t.registers.flags ≡ (0x10 == 0xff))
          × ((has flag_negative t.registers.flags
                ≡ (leb 0xff 0x10 && negative (u8 (0x10 + 256 - 0xff))))
              × ((t.registers ≡ record start.registers { flags = t.registers.flags })
                  × (t.ram ≡ image)))))
cmp_op-order_example = cmp_op-order 0xff 0x10 start start-InRange (omega arith) (omega arith)

ror-rol_example :
    (let t = (on_memory ror_op 0x81 (on_memory rol_op 0x81 start).1).1 in
      ((i : ℕ) → t.ram i ≡ i % 256) × (has flag_carry t.registers.flags ≡ has flag_carry 1))
ror-rol_example = ror-rol 0x81 start (omega arith) (omega arith) (omega arith)

length-add_tracelog_entry_example : length (add_tracelog_entry start).log.entries ≡ (
    if (Heap.malloc (make_room start).heap entry_size).0 == 0
    then (if length start.log.entries == 257 then 256 else length start.log.entries)
    else (if length start.log.entries == 257 then 256 else length start.log.entries) + 1)
length-add_tracelog_entry_example = length-add_tracelog_entry start start-IsCounted

emulate_cpu-IsCounted_example :
    IsCounted (emulate_cpu start).1 × (length (emulate_cpu start).1.log.entries ≤ 257)
emulate_cpu-IsCounted_example = emulate_cpu-IsCounted start start-IsCounted
