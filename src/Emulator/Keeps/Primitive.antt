-- ===== src/Emulator/Keeps/Primitive.antt =====
-- Stable predicates, and the commands of emulator.c that all instructions are made of.
use kernel_nesemulator.Prelude.{
  ℕ, ◌+◌, ◌-◌, bit_or, bit_and, ◌<◌, Bool, true, false, if◌then◌else◌, u8, u16, arith,
}
use kernel_nesemulator.Emulator.State.{
  Registers, TraceLog, Machine, Cpu, pure, gets, modify, ◌>>=◌, ◌>>◌,
}
use kernel_nesemulator.Emulator.Log.{add_tracelog_entry}
use kernel_nesemulator.Emulator.Keeps.Setter.{Setter, setters}
use kernel_nesemulator.Emulator.Bus.{
  logging, note_read, emu_read, store, emu_write, with_registers, set_a_register, set_x_register,
  set_y_register, set_sp, set_status_register, reg_a, reg_x, reg_y, stack_pointer, reg_status,
  program_counter, bit_or_a, bit_xor_a, bit_and_a, set_status_flag, set_zero_negative, push_stack,
  pull_stack, increment_pc, read_pc, read_increment_pc, set_pc,
}

-- Each register holds a value of its C type.
pub record InRange (r : Registers) : Type 0 where
  pub a : r.a < 256
  pub x : r.x < 256
  pub y : r.y < 256
  pub flags : r.flags < 256
  pub stack_pointer : r.stack_pointer < 256
  pub program_counter : r.program_counter < 65536

-- A predicate that the state changes of instructions cannot break.
pub record Stable (P : Machine → Type 0) : Type 0 where
  pub at_log :
      (s : Machine) (f : TraceLog → TraceLog) → Setter f → P s → P (record s { log = f s.log })
  pub at_registers :
      (s : Machine) (f : Registers → Registers)
      → ((r : Registers) → InRange r → InRange (f r))
      → P s
      → P (with_registers f s)
  pub at_store : (s : Machine) (address value : ℕ) → P s → P (store address (u8 value) s)
  pub at_entry : (s : Machine) → P s → P (add_tracelog_entry s)
  pub at_opcode : (s : Machine) (opcode : ℕ) → P s → P (record s { cur_opcode = opcode })
  pub at_spend :
      (s : Machine) (n : ℕ) → P s → P (record s { total_cpu_cycles = s.total_cpu_cycles + n })
  pub at_halt : (s : Machine) → P s → P (record s { halted = true })

-- `m` preserves every stable predicate.
pub record Keeps {A : Type 0} (m : Cpu A) : Type 1 where
  pub at : (P : Machine → Type 0) → Stable P → (s : Machine) → P s → P (m s).1

pub Keeps-pure : {A : Type 0} (a : A) → Keeps (pure a)
unfolding pure
Keeps-pure a = record { at = λ P st s h. h }

pub Keeps-gets : {A : Type 0} (f : Machine → A) → Keeps (gets f)
unfolding gets
Keeps-gets f = record { at = λ P st s h. h }

pub Keeps-bind :
    {A B : Type 0} (m : Cpu A) (f : A → Cpu B) → Keeps m → ((a : A) → Keeps (f a)) → Keeps (m >>= f)
unfolding ◌>>=◌
Keeps-bind m f km kf = record {
  at = λ P st s h. let (a, s') = m s in (kf a).at P st s' (km.at P st s h);
}

pub Keeps-then : {A B : Type 0} (m : Cpu A) (n : Cpu B) → Keeps m → Keeps n → Keeps (m >> n)
unfolding ◌>>◌
Keeps-then m n km kn = record {
  at = λ P st s h. let (_, s') = m s in kn.at P st s' (km.at P st s h);
}

pub Keeps-if :
    {A : Type 0} (b : Bool) (m n : Cpu A) → Keeps m → Keeps n → Keeps (if b then m else n)
Keeps-if true m n km kn = km
Keeps-if false m n km kn = kn

pub Keeps-logging : (f : TraceLog → TraceLog) → Setter f → Keeps (logging f)
unfolding logging modify
Keeps-logging f ok = record { at = λ P st s h. st.at_log s f ok h }

pub Keeps-add_tracelog_entry : Keeps (modify add_tracelog_entry)
unfolding modify
Keeps-add_tracelog_entry = record { at = λ P st s h. st.at_entry s h }

pub Keeps-registers :
    (f : Registers → Registers)
    → ((r : Registers) → InRange r → InRange (f r))
    → Keeps (modify (with_registers f))
unfolding modify
Keeps-registers f ok = record { at = λ P st s h. st.at_registers s f ok h }

pub Keeps-store : (address value : ℕ) → Keeps (modify (store address (u8 value)))
unfolding modify
Keeps-store address value = record { at = λ P st s h. st.at_store s address value h }

pub Keeps-spend :
    (n : ℕ) → Keeps (modify (λ s. record s { total_cpu_cycles = s.total_cpu_cycles + n }))
unfolding modify
Keeps-spend n = record { at = λ P st s h. st.at_spend s n h }

pub Keeps-cur_opcode : (opcode : ℕ) → Keeps (modify (λ s. record s { cur_opcode = opcode }))
unfolding modify
Keeps-cur_opcode opcode = record { at = λ P st s h. st.at_opcode s opcode h }

pub Keeps-halt : Keeps (modify (λ s. record s { halted = true }))
unfolding modify
Keeps-halt = record { at = λ P st s h. st.at_halt s h }

pub ruleset keeps_base = (
  Keeps-pure, Keeps-gets, Keeps-bind, Keeps-then, Keeps-if, Keeps-logging, setters, Keeps-store,
  Keeps-spend, Keeps-cur_opcode, Keeps-halt,
)

-- A store into one register, of a value of its type.
Keeps-a : (v : ℕ) → Keeps (modify (with_registers λ r. record r { a = u8 v }))
Keeps-a v = Keeps-registers (λ r. record r { a = u8 v }) (λ r h. omega arith)

Keeps-x : (v : ℕ) → Keeps (modify (with_registers λ r. record r { x = u8 v }))
Keeps-x v = Keeps-registers (λ r. record r { x = u8 v }) (λ r h. omega arith)

Keeps-y : (v : ℕ) → Keeps (modify (with_registers λ r. record r { y = u8 v }))
Keeps-y v = Keeps-registers (λ r. record r { y = u8 v }) (λ r h. omega arith)

Keeps-sp : (v : ℕ) → Keeps (modify (with_registers λ r. record r { stack_pointer = u8 v }))
Keeps-sp v = Keeps-registers (λ r. record r { stack_pointer = u8 v }) (λ r h. omega arith)

Keeps-flags : (v : ℕ) → Keeps (modify (with_registers λ r. record r { flags = u8 v }))
Keeps-flags v = Keeps-registers (λ r. record r { flags = u8 v }) (λ r h. omega arith)

Keeps-pc : (v : ℕ) → Keeps (modify (with_registers λ r. record r { program_counter = u16 v }))
Keeps-pc v = Keeps-registers (λ r. record r { program_counter = u16 v }) (λ r h. omega arith)

Keeps-sp_down :
    Keeps (modify (with_registers λ r. record r { stack_pointer = u8 (r.stack_pointer + 255) }))
Keeps-sp_down =
    Keeps-registers (λ r. record r { stack_pointer = u8 (r.stack_pointer + 255) })
      (λ r h. omega arith)

Keeps-sp_up :
    Keeps (modify (with_registers λ r. record r { stack_pointer = u8 (r.stack_pointer + 1) }))
Keeps-sp_up =
    Keeps-registers (λ r. record r { stack_pointer = u8 (r.stack_pointer + 1) })
      (λ r h. omega arith)

ruleset keeps_changes =
    (Keeps-a, Keeps-x, Keeps-y, Keeps-sp, Keeps-flags, Keeps-pc, Keeps-sp_down, Keeps-sp_up)

Keeps-note_read : (address value : ℕ) → Keeps (note_read address value)
unfolding note_read
Keeps-note_read address value = search keeps_base

pub Keeps-emu_read : (address : ℕ) → Keeps (emu_read address)
unfolding emu_read
Keeps-emu_read address = search (keeps_base, Keeps-note_read)

pub Keeps-emu_write : (address value : ℕ) → Keeps (emu_write address value)
unfolding emu_write
Keeps-emu_write address value = search keeps_base

pub Keeps-set_a_register : (value : ℕ) → Keeps (set_a_register value)
unfolding set_a_register
Keeps-set_a_register value = search (keeps_base, keeps_changes)

pub Keeps-set_x_register : (value : ℕ) → Keeps (set_x_register value)
unfolding set_x_register
Keeps-set_x_register value = search (keeps_base, keeps_changes)

pub Keeps-set_y_register : (value : ℕ) → Keeps (set_y_register value)
unfolding set_y_register
Keeps-set_y_register value = search (keeps_base, keeps_changes)

pub Keeps-set_sp : (value : ℕ) → Keeps (set_sp value)
unfolding set_sp
Keeps-set_sp value = search (keeps_base, keeps_changes)

pub Keeps-set_status_register : (value : ℕ) → Keeps (set_status_register value)
unfolding set_status_register
Keeps-set_status_register value = search (keeps_base, keeps_changes)

pub Keeps-reg_a : Keeps reg_a
unfolding reg_a
Keeps-reg_a = Keeps-gets _

pub Keeps-reg_x : Keeps reg_x
unfolding reg_x
Keeps-reg_x = Keeps-gets _

pub Keeps-reg_y : Keeps reg_y
unfolding reg_y
Keeps-reg_y = Keeps-gets _

pub Keeps-stack_pointer : Keeps stack_pointer
unfolding stack_pointer
Keeps-stack_pointer = Keeps-gets _

pub Keeps-reg_status : Keeps reg_status
unfolding reg_status
Keeps-reg_status = Keeps-gets _

pub Keeps-program_counter : Keeps program_counter
unfolding program_counter
Keeps-program_counter = Keeps-gets _

pub ruleset keeps_registers = (
  keeps_base, Keeps-emu_read, Keeps-emu_write, Keeps-set_a_register, Keeps-set_x_register,
  Keeps-set_y_register, Keeps-set_sp, Keeps-set_status_register, Keeps-reg_a, Keeps-reg_x,
  Keeps-reg_y, Keeps-stack_pointer, Keeps-reg_status, Keeps-program_counter,
)

pub Keeps-bit_or_a : (value : ℕ) → Keeps (bit_or_a value)
unfolding bit_or_a
Keeps-bit_or_a value = search keeps_registers

pub Keeps-bit_xor_a : (value : ℕ) → Keeps (bit_xor_a value)
unfolding bit_xor_a
Keeps-bit_xor_a value = search keeps_registers

pub Keeps-bit_and_a : (value : ℕ) → Keeps (bit_and_a value)
unfolding bit_and_a
Keeps-bit_and_a value = search keeps_registers

pub Keeps-set_status_flag : (flag : ℕ) (condition : Bool) → Keeps (set_status_flag flag condition)
unfolding set_status_flag
Keeps-set_status_flag flag true =
    Keeps-registers (λ r. record r { flags = u8 (bit_or r.flags flag) }) (λ r h. omega arith)
Keeps-set_status_flag flag false =
    Keeps-registers (λ r. record r { flags = u8 (bit_and r.flags (255 - flag)) })
      (λ r h. omega arith)

pub Keeps-set_zero_negative : (result : ℕ) → Keeps (set_zero_negative result)
unfolding set_zero_negative
Keeps-set_zero_negative result = search (keeps_base, Keeps-set_status_flag)

pub Keeps-push_stack : (value : ℕ) → Keeps (push_stack value)
unfolding push_stack
Keeps-push_stack value = search (keeps_registers, keeps_changes)

pub Keeps-pull_stack : Keeps pull_stack
unfolding pull_stack
Keeps-pull_stack = search (keeps_registers, keeps_changes)

pub Keeps-increment_pc : Keeps increment_pc
unfolding increment_pc
Keeps-increment_pc =
    Keeps-registers (λ r. record r { program_counter = u16 (r.program_counter + 1) })
      (λ r h. omega arith)

pub Keeps-read_pc : Keeps read_pc
unfolding read_pc
Keeps-read_pc = search keeps_registers

pub Keeps-read_increment_pc : Keeps read_increment_pc
unfolding read_increment_pc
Keeps-read_increment_pc = search (keeps_registers, Keeps-increment_pc) depth 12

pub Keeps-set_pc : (address : ℕ) → Keeps (set_pc address)
unfolding set_pc
Keeps-set_pc address = search (keeps_base, keeps_changes)

pub ruleset keeps_bus = (
  keeps_registers, Keeps-bit_or_a, Keeps-bit_xor_a, Keeps-bit_and_a, Keeps-set_status_flag,
  Keeps-set_zero_negative, Keeps-push_stack, Keeps-pull_stack, Keeps-increment_pc, Keeps-read_pc,
  Keeps-read_increment_pc, Keeps-set_pc,
)
