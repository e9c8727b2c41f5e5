-- ===== src/Emulator/Run.antt =====
-- One instruction, the loop, and the start: emulate_CPU, emu_run, emu_reset and emu_init.
use kernel_nesemulator.Prelude.{
  ℕ, zero, suc, ◌+◌, Bool, true, false, not, ◌&&◌, ◌||◌, ◌==◌, Option, none, some, [], ltb,
  if◌then◌else◌,
}
use kernel_nesemulator.Heap
use kernel_nesemulator.Heap.{Heap}
use kernel_nesemulator.Emulator.State.{
  Machine, Cpu, pure, modify, ◌>>=◌, ◌>>◌, flag_interrupt_disable,
}
use kernel_nesemulator.Emulator.Log.{add_tracelog_entry}
use kernel_nesemulator.Emulator.Bus.{word, emu_read, read_increment_pc, set_status_flag}
use kernel_nesemulator.Emulator.Opcode.{decode}
use kernel_nesemulator.Emulator.Execute.{execute}
use kernel_nesemulator.Emulator.Table.{opcode_cycles}

abbrev pub spend : ℕ → Machine → Machine
spend cycles s = record s { total_cpu_cycles = s.total_cpu_cycles + cycles }

-- With DEBUG off, `reset_tracker` and `compare_with_table` touch nothing of this state.
unfoldable pub emulate_cpu : Cpu (Unit {0})
emulate_cpu = do
  modify add_tracelog_entry
  opcode ← read_increment_pc
  modify (λ s. record s { cur_opcode = opcode })
  execute (decode opcode)
  modify (spend (opcode_cycles opcode))

abbrev pub cycle_limit : ℕ
cycle_limit = 1000

abbrev pub running : Machine → Bool
running s = not s.halted && ltb s.total_cpu_cycles cycle_limit

-- `while (!CPU_halted && total_CPU_cycles < 1000)` with fuel; `none` if it runs out. What is
-- printed behind the loop changes nothing.
unfoldable pub emu_run : ℕ → Machine → Option Machine
emu_run zero s = none
emu_run (suc fuel) s =
    let rest = emu_run fuel (emulate_cpu s).1 in if running s then rest else some s

-- The file that `emu_reset` opens: `none` if `fopen` gives 0, and else what `fread` stores of the
-- program behind the 16 bytes of header.
unfoldable pub load_rom : Option (ℕ → ℕ) → Cpu (Unit {0})
load_rom none = pure tt
load_rom (some image) = do
  modify (λ s. record s { rom = image })
  set_status_flag flag_interrupt_disable true

-- `emu_reset` up to the call of `emu_run`.
unfoldable pub reset : Option (ℕ → ℕ) → Cpu (Unit {0})
reset file = do
  load_rom file
  low ← emu_read 0xfffc
  high ← emu_read 0xfffd
  modify (λ s. record s {
    registers = record s.registers { program_counter = word high low; stack_pointer = 0xfd };
  })

-- The globals as the kernel starts with them, the two zeroed buffers, and the kernel heap.
abbrev pub start_state : Heap → Machine
start_state heap = record {
  registers = record { a = 0; x = 0; y = 0; flags = 0; stack_pointer = 0; program_counter = 0 };
  ram = λ i. 0;
  rom = λ i. 0;
  cur_opcode = 0;
  total_cpu_cycles = 8;
  halted = false;
  log = record { entries = []; current_length = 0; current_operand = 0; selected = 0; faults = 0 };
  heap = heap;
}

-- `emu_init` before `emu_reset`: the three buffers of the kernel heap. No result is tested:
-- `none` stands for a buffer that is NULL and is used all the same.
unfoldable pub boot : Heap → Option Machine
boot heap =
    let ram = Heap.malloc heap 0x800 in
    let rom = Heap.malloc ram.1 0x8000 in
    let header = Heap.malloc rom.1 0x10 in
    if (ram.0 == 0) || ((rom.0 == 0) || (header.0 == 0)) then none else some (start_state header.1)

-- `emu_reset` on a machine, with the loop that it ends in.
abbrev pub run_from : ℕ → Option (ℕ → ℕ) → Option Machine → Option Machine
run_from fuel file none = none
run_from fuel file (some s) = emu_run fuel (reset file s).1

unfoldable pub emu_init : ℕ → Heap → Option (ℕ → ℕ) → Option Machine
unfolding boot
emu_init fuel heap file = run_from fuel file (boot heap)
