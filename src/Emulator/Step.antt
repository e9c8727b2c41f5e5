-- ===== src/Emulator/Step.antt =====
-- One call of emulate_CPU: what it fetches, what it keeps, and how many cycles it counts.
use kernel_nesemulator.Prelude.{
  Bool-cases, inl, inr, ℕ, ◌+◌, ◌≤◌, ◌<◌, ◌≡◌, refl, sym, ap, ◌∙◌, Option, none, some, List, [],
  ◌∷◌, ltb, ◌==◌, u16, arith,
}
use mathlib.Core.Path.{subst}
use kernel_nesemulator.Heap
use kernel_nesemulator.Heap.{Heap}
use kernel_nesemulator.Emulator.State.{
  Registers, LogEntry, TraceLog, Machine, pure, gets, modify, ◌>>=◌, ◌>>◌,
}
use kernel_nesemulator.Emulator.Log.{
  kfree, after_free, make_room, link_entry, head_address, remove_from, remove_first_entry,
  append_entry, add_tracelog_entry, max_length,
}
use kernel_nesemulator.Emulator.Bus.{
  logging, loaded, emu_read, program_counter, increment_pc, read_increment_pc,
}
use kernel_nesemulator.Emulator.Opcode.{decode}
use kernel_nesemulator.Emulator.Execute.{execute}
use kernel_nesemulator.Emulator.Table.{opcode_cycles}
use kernel_nesemulator.Emulator.Run.{emulate_cpu, spend}
use kernel_nesemulator.Emulator.Keeps.Noted.{note_read-log}
use kernel_nesemulator.Emulator.Keeps.Primitive.{
  keeps_base, InRange, Stable, Keeps, Keeps-add_tracelog_entry, Keeps-read_increment_pc,
}
use kernel_nesemulator.Emulator.Keeps.Instruction.{Keeps-execute}

-- The two states agree but for the log and the kernel heap.
pub record SameCpu (s t : Machine) : Type 0 where
  pub registers : t.registers ≡ s.registers
  pub ram : t.ram ≡ s.ram
  pub rom : t.rom ≡ s.rom
  pub cycles : t.total_cpu_cycles ≡ s.total_cpu_cycles
  pub halted : t.halted ≡ s.halted
  pub opcode : t.cur_opcode ≡ s.cur_opcode

-- A change of the log and the heap alone, before or after a step that is already covered.
same :
    (s : Machine) {log : TraceLog} {heap : Heap} → SameCpu s (record s { log = log; heap = heap })
same s = record {
  registers = refl;
  ram = refl;
  rom = refl;
  cycles = refl;
  halted = refl;
  opcode = refl;
}

kept :
    {s t : Machine} {before after : TraceLog} {h k : Heap}
    → SameCpu (record s { log = before; heap = h }) t
    → SameCpu s (record t { log = after; heap = k })
kept p = record {
  registers = p.registers;
  ram = p.ram;
  rom = p.rom;
  cycles = p.cycles;
  halted = p.halted;
  opcode = p.opcode;
}

SameCpu-trans : {s t u : Machine} → SameCpu s t → SameCpu t u → SameCpu s u
SameCpu-trans p q = record {
  registers = q.registers ∙ p.registers;
  ram = q.ram ∙ p.ram;
  rom = q.rom ∙ p.rom;
  cycles = q.cycles ∙ p.cycles;
  halted = q.halted ∙ p.halted;
  opcode = q.opcode ∙ p.opcode;
}

SameCpu-after_free : (o : Option Heap) (s : Machine) → SameCpu s (after_free o s)
SameCpu-after_free none s = same s
SameCpu-after_free (some heap) s = same s

SameCpu-kfree : (ptr : ℕ) (s : Machine) → SameCpu s (kfree ptr s)
unfolding kfree
SameCpu-kfree ptr s = SameCpu-after_free (Heap.free s.heap ptr) s

SameCpu-remove_from : (entries : List LogEntry) (s : Machine) → SameCpu s (remove_from entries s)
unfolding remove_from
SameCpu-remove_from [] s = same s
SameCpu-remove_from (tail ∷ rest) s = kept (SameCpu-kfree (head_address tail rest) _)

SameCpu-make_room : (s : Machine) → SameCpu s (make_room s)
unfolding make_room remove_first_entry
SameCpu-make_room s = elim (Bool-cases (ltb max_length (s.log.current_length + 1))) [
  | inl full ↦ rw full (SameCpu-remove_from s.log.entries s)
  | inr room ↦ rw room (same s)
]

SameCpu-append_entry :
    (entries : List LogEntry) (self : ℕ) (s : Machine) → SameCpu s (append_entry entries self s)
unfolding append_entry
SameCpu-append_entry [] self s = same s
SameCpu-append_entry (e ∷ entries) self s = same s

SameCpu-link_entry : (self : ℕ) (s : Machine) → SameCpu s (link_entry self s)
unfolding link_entry
SameCpu-link_entry self s = elim (Bool-cases (self == 0)) [
  | inl full ↦ rw full (SameCpu-kfree self s)
  | inr got ↦ rw got (SameCpu-append_entry s.log.entries self s)
]

pub SameCpu-add_tracelog_entry : (s : Machine) → SameCpu s (add_tracelog_entry s)
unfolding add_tracelog_entry
SameCpu-add_tracelog_entry s = SameCpu-trans (SameCpu-make_room s) (kept (SameCpu-link_entry _ _))

-- What differs in the log and the heap alone.
SameCpu-eq : {s t : Machine} → SameCpu s t → record s { log = t.log; heap = t.heap } ≡ t
SameCpu-eq {s} {t} p = λ i. record {
  registers = sym p.registers i;
  ram = sym p.ram i;
  rom = sym p.rom i;
  cur_opcode = sym p.opcode i;
  total_cpu_cycles = sym p.cycles i;
  halted = sym p.halted i;
  log = t.log;
  heap = t.heap;
}

-- What does not depend on the log or the heap is kept.
kept_by_entry :
    (P : Machine → Type 0)
    → ((s : Machine) (log : TraceLog) (heap : Heap) → P s → P (record s { log = log; heap = heap }))
    → (s : Machine) → P s
    → P (add_tracelog_entry s)
kept_by_entry P any s h =
    let t = add_tracelog_entry s in
    subst P (SameCpu-eq (SameCpu-add_tracelog_entry s)) (any s t.log t.heap h)

-- A whole call of emulate_CPU preserves every stable predicate.
pub Keeps-emulate_cpu : Keeps emulate_cpu
unfolding emulate_cpu
Keeps-emulate_cpu =
    search (keeps_base, Keeps-add_tracelog_entry, Keeps-read_increment_pc, Keeps-execute)

-- Every register and every byte of memory holds a value of its C type.
pub record IsTyped (s : Machine) : Type 0 where
  pub registers : InRange s.registers
  pub ram : (i : ℕ) → s.ram i < 256
  pub rom : (i : ℕ) → s.rom i < 256

pub Stable-IsTyped : Stable IsTyped
Stable-IsTyped = record {
  at_log = λ s f ok h. record { registers = h.registers; ram = h.ram; rom = h.rom };
  at_entry =
      kept_by_entry IsTyped
        (λ s log heap h. record { registers = h.registers; ram = h.ram; rom = h.rom });
  at_registers = λ s f ok h. record { registers = ok _ h.registers; ram = h.ram; rom = h.rom };
  at_store = λ s address value h. record {
    registers = h.registers;
    ram = λ i. ground (arith, h.ram i);
    rom = h.rom;
  };
  at_opcode = λ s opcode h. record { registers = h.registers; ram = h.ram; rom = h.rom };
  at_spend = λ s n h. record { registers = h.registers; ram = h.ram; rom = h.rom };
  at_halt = λ s h. record { registers = h.registers; ram = h.ram; rom = h.rom };
}

pub Stable-cycles : (n : ℕ) → Stable (λ s. n ≤ s.total_cpu_cycles)
Stable-cycles n = record {
  at_log = λ s f ok h. h;
  at_entry = kept_by_entry _ (λ s log heap h. h);
  at_registers = λ s f ok h. h;
  at_store = λ s address value h. h;
  at_opcode = λ s opcode h. h;
  at_spend = λ s k h. omega arith;
  at_halt = λ s h. h;
}

-- The byte that emulate_CPU fetches as its opcode.
abbrev pub fetched_opcode : Machine → ℕ
fetched_opcode s = loaded s s.registers.program_counter

-- The state in which emulate_CPU begins its `switch`.
unfoldable pub after_fetch : Machine → Machine
after_fetch s =
    let (opcode, t) = read_increment_pc (add_tracelog_entry s) in record t { cur_opcode = opcode }

fetch-opcode : (s : Machine) → (read_increment_pc s).0 ≡ fetched_opcode s
unfolding read_increment_pc emu_read program_counter increment_pc logging modify gets pure ◌>>=◌
    ◌>>◌
fetch-opcode s = refl

pub emulate_cpu-split :
    (s : Machine)
    → (emulate_cpu s).1
      ≡ spend
          (opcode_cycles (fetched_opcode s))
          (execute (decode (fetched_opcode s)) (after_fetch s)).1
unfolding emulate_cpu modify ◌>>=◌ ◌>>◌ after_fetch
emulate_cpu-split s =
    let logged = add_tracelog_entry s in
    let same_byte : fetched_opcode logged ≡ fetched_opcode s =
      ap fetched_opcode (sym (SameCpu-eq (SameCpu-add_tracelog_entry s))) in
    ap
      (λ opcode.
        spend (opcode_cycles opcode)
          (execute (decode opcode)
            (record (read_increment_pc logged).1 { cur_opcode = (read_increment_pc logged).0 })).1)
      (fetch-opcode logged ∙ same_byte)

-- The fetch moves the program counter on by one, round at 2^16, and counts no cycle.
fetch_moves :
    (s : Machine)
    → ((read_increment_pc s).1.registers.program_counter ≡ u16 (s.registers.program_counter + 1))
      × ((read_increment_pc s).1.total_cpu_cycles ≡ s.total_cpu_cycles)
unfolding read_increment_pc emu_read program_counter increment_pc logging modify gets pure ◌>>=◌
    ◌>>◌
fetch_moves s =
    let counter = s.registers.program_counter in
    let noted = note_read-log counter (loaded s counter) s in
    (
      ap (λ (t : Machine). u16 (t.registers.program_counter + 1)) noted,
      ap (λ (t : Machine). t.total_cpu_cycles) noted,
    )

pub after_fetch_moves :
    (s : Machine)
    → ((after_fetch s).registers.program_counter ≡ u16 (s.registers.program_counter + 1))
      × ((after_fetch s).total_cpu_cycles ≡ s.total_cpu_cycles)
unfolding after_fetch
after_fetch_moves s =
    let p = SameCpu-add_tracelog_entry s in
    let (counter, cycles) = fetch_moves (add_tracelog_entry s) in
    (counter ∙ ap (λ (r : Registers). u16 (r.program_counter + 1)) p.registers, cycles ∙ p.cycles)

-- A call of emulate_CPU keeps every register and every byte of memory in the range of its C type.
pub emulate_cpu-IsTyped : (s : Machine) → IsTyped s → IsTyped (emulate_cpu s).1
emulate_cpu-IsTyped s h = Keeps-emulate_cpu.at IsTyped Stable-IsTyped s h

-- A call of emulate_CPU counts at least the cycles that the opcode table states for its opcode.
pub cycles-emulate_cpu :
    (s : Machine)
    → s.total_cpu_cycles + opcode_cycles (fetched_opcode s) ≤ (emulate_cpu s).1.total_cpu_cycles
cycles-emulate_cpu s =
    let c = s.total_cpu_cycles in
    let op = fetched_opcode s in
    let grown =
      (Keeps-execute (decode op)).at (λ t. c ≤ t.total_cpu_cycles) (Stable-cycles c) (after_fetch s)
        (omega (arith, (after_fetch_moves s).1)) in
    omega (arith, grown, ap (λ (t : Machine). t.total_cpu_cycles) (emulate_cpu-split s))
