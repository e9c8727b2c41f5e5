-- ===== src/Emulator/State.antt =====
-- The emulator's state (emulator.h, tracelogger.h) and commands that change it.
use kernel_nesemulator.Prelude.{ℕ, Bool, List}
use kernel_nesemulator.Heap.{Heap}

abbrev pub flag_carry : ℕ
flag_carry = 0x01

abbrev pub flag_zero : ℕ
flag_zero = 0x02

abbrev pub flag_interrupt_disable : ℕ
flag_interrupt_disable = 0x04

abbrev pub flag_decimal : ℕ
flag_decimal = 0x08

abbrev pub flag_overflow : ℕ
flag_overflow = 0x40

abbrev pub flag_negative : ℕ
flag_negative = 0x80

-- `struct registers` of emulator.h
pub record Registers : Type 0 where
  pub a : ℕ
  pub x : ℕ
  pub y : ℕ
  pub flags : ℕ
  pub stack_pointer : ℕ
  pub program_counter : ℕ

-- `struct tracelog_entry`. `self` is the address of the entry; `next` and `prev` are the order of
-- the list in `TraceLog`.
pub record LogEntry : Type 0 where
  pub self : ℕ
  pub opcode : ℕ
  pub operand0 : ℕ
  pub operand1 : ℕ
  pub address : ℕ
  pub indexed_address : ℕ
  pub read_value : ℕ
  pub written_value : ℕ
  pub read_value_set : Bool
  pub write_value_set : Bool
  pub total_cpu_cycles : ℕ
  pub registers : Registers

-- The globals of tracelogger.c. The entries stand from `log_tail` back to `log_head`, so both
-- pointers are NULL if there are none. `selected` is `cur_selected_entry`. `faults` counts the
-- accesses outside every object: a store through a NULL `log_tail`, a store behind `operands`, and
-- a `kfree` of a pointer below the heap. In the kernel such a store hits memory that none of this
-- code reads, so the rest of the state stays as it is.
pub record TraceLog : Type 0 where
  pub entries : List LogEntry
  pub current_length : ℕ
  pub current_operand : ℕ
  pub selected : ℕ
  pub faults : ℕ

-- `struct emulator`, `CPU_halted`, the log, and the kernel heap that log entries come from.
-- `ram` is read below 0x800 and `rom` below 0x8000.
pub record Machine : Type 0 where
  pub registers : Registers
  pub ram : ℕ → ℕ
  pub rom : ℕ → ℕ
  pub cur_opcode : ℕ
  pub total_cpu_cycles : ℕ
  pub halted : Bool
  pub log : TraceLog
  pub heap : Heap

abbrev pub Cpu : Type 0 → Type 0
Cpu A = Machine → A × Machine

unfoldable pub pure : {A : Type 0} → A → Cpu A
pure a s = (a, s)

unfoldable pub gets : {A : Type 0} → (Machine → A) → Cpu A
gets f s = (f s, s)

unfoldable pub modify : (Machine → Machine) → Cpu (Unit {0})
modify f s = (tt, f s)

module _ {A B : Type 0} where
  infixl 10 ◌>>=◌ ◌>>◌
  unfoldable pub ◌>>=◌ : Cpu A → (A → Cpu B) → Cpu B
  ◌>>=◌ m f s = let (a, s') = m s in f a s'

  unfoldable pub ◌>>◌ : Cpu A → Cpu B → Cpu B
  ◌>>◌ m n s = let (_, s') = m s in n s'
