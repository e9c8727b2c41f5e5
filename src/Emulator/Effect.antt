-- ===== src/Emulator/Effect.antt =====
-- What a command returns and does, its entries in the trace log left aside.
use kernel_nesemulator.Prelude.{
  ℕ, ◌+◌, ◌<◌, ◌≡◌, refl, sym, ap, ◌∙◌, true, ltb, ◌==◌, if◌then◌else◌, u8, u16, arith,
}
use kernel_nesemulator.Emulator.Log
use kernel_nesemulator.Emulator.State.{TraceLog, Machine, Cpu, pure, gets, modify, ◌>>=◌, ◌>>◌}
use kernel_nesemulator.Emulator.Bus.{
  logging, loaded, note_read, emu_read, emu_write, stack_pointer, program_counter, push_stack,
  pull_stack, increment_pc, read_pc, read_increment_pc, set_pc,
}
use kernel_nesemulator.Emulator.Keeps.Noted.{note_read-log}

abbrev pub relog : TraceLog → Machine → Machine
relog log s = record s { log = log }

-- From `s`, the command returns `a` and leaves `t`, but for the log.
pub record Effect {A : Type 0} (m : Cpu A) (s : Machine) (a : A) (t : Machine) : Type 0 where
  pub log : TraceLog
  pub runs : m s ≡ (a, relog log t)

-- The parts of the state that an effect fixes.
pub registers-Effect :
    {A : Type 0} {m : Cpu A} {s : Machine} {a : A} {t : Machine}
    → Effect m s a t
    → (m s).1.registers ≡ t.registers
registers-Effect e = ap (λ p. p.1.registers) e.runs

pub ram-Effect :
    {A : Type 0} {m : Cpu A} {s : Machine} {a : A} {t : Machine}
    → Effect m s a t
    → (m s).1.ram ≡ t.ram
ram-Effect e = ap (λ p. p.1.ram) e.runs

module _ {A B : Type 0} where
  pub Effect-bind :
      (f : A → Cpu B) {m : Cpu A} {s : Machine} {a : A} {t : Machine} {b : B} {u : Machine}
      → Effect m s a t
      → ((log : TraceLog) → Effect (f a) (relog log t) b (relog log u))
      → Effect (m >>= f) s b u
  unfolding ◌>>=◌
  Effect-bind f e k =
      let rest = k e.log in record { log = rest.log; runs = ap (λ p. f p.0 p.1) e.runs ∙ rest.runs }

  pub Effect-then :
      {m : Cpu A} {n : Cpu B} {s : Machine} {a : A} {t : Machine} {b : B} {u : Machine}
      → Effect m s a t
      → ((log : TraceLog) → Effect n (relog log t) b (relog log u))
      → Effect (m >> n) s b u
  unfolding ◌>>◌
  Effect-then {n} e k =
      let rest = k e.log in record { log = rest.log; runs = ap (λ p. n p.1) e.runs ∙ rest.runs }

pub Effect-pure : {A : Type 0} (a : A) (s : Machine) → Effect (pure a) s a s
unfolding pure
Effect-pure a s = record { log = s.log; runs = refl }

pub Effect-gets : {A : Type 0} (f : Machine → A) (s : Machine) → Effect (gets f) s (f s) s
unfolding gets
Effect-gets f s = record { log = s.log; runs = refl }

pub Effect-modify : (f : Machine → Machine) (s : Machine) → Effect (modify f) s tt (f s)
unfolding modify
Effect-modify f s = record { log = (f s).log; runs = refl }

pub Effect-logging : (f : TraceLog → TraceLog) (s : Machine) → Effect (logging f) s tt s
unfolding logging modify
Effect-logging f s = record { log = f s.log; runs = refl }

pub Effect-emu_read : (address : ℕ) (s : Machine) → Effect (emu_read address) s (loaded s address) s
unfolding emu_read gets pure ◌>>=◌ ◌>>◌
Effect-emu_read address s = record {
  log = (note_read address (loaded s address) s).1.log;
  runs = ap (λ t. (loaded s address, t)) (note_read-log address (loaded s address) s);
}

-- The machine with the counter moved on.
abbrev pub advanced : Machine → Machine
advanced s = record s {
  registers = record s.registers { program_counter = u16 (s.registers.program_counter + 1) };
}

abbrev pub at_counter : Machine → ℕ
at_counter s = loaded s s.registers.program_counter

pub Effect-read_pc : (s : Machine) → Effect read_pc s (at_counter s) s
unfolding read_pc program_counter
Effect-read_pc s = Effect-bind _ (Effect-gets _ s) (λ _.
    Effect-bind _ (Effect-emu_read _ _)
      (λ _. Effect-then (Effect-logging _ _) (λ _. Effect-pure _ _)))

pub Effect-read_increment_pc :
    (s : Machine) → Effect read_increment_pc s (at_counter s) (advanced s)
unfolding read_increment_pc program_counter increment_pc
Effect-read_increment_pc s = Effect-bind _ (Effect-gets _ s) (λ _.
    Effect-bind _ (Effect-emu_read _ _) (λ _.
      Effect-then (Effect-modify _ _)
        (λ _. Effect-then (Effect-logging _ _) (λ _. Effect-pure _ _))))

abbrev pub jumped : ℕ → Machine → Machine
jumped address s = record s { registers = record s.registers { program_counter = u16 address } }

pub Effect-set_pc : (address : ℕ) (s : Machine) → Effect (set_pc address) s tt (jumped address s)
unfolding set_pc
Effect-set_pc address s = Effect-then (Effect-logging _ s) (λ _. Effect-modify _ _)

-- The machine after a push.
abbrev pub pushed : ℕ → Machine → Machine
pushed value s = record s {
  ram = λ i. if i == 0x100 + s.registers.stack_pointer then u8 value else s.ram i;
  registers = record s.registers { stack_pointer = u8 (s.registers.stack_pointer + 255) };
}

stack_page : (sp : ℕ) → sp < 256 → ltb (0x100 + sp) 0x800 ≡ true
stack_page sp h = ground arith

pub Effect-push_stack :
    (value : ℕ) (s : Machine)
    → s.registers.stack_pointer < 256
    → Effect (push_stack value) s tt (pushed value s)
unfolding push_stack emu_write stack_pointer logging gets modify ◌>>=◌ ◌>>◌
Effect-push_stack value s h = record {
  log = Log.set_written_value (u8 value) s.log;
  runs = rw (stack_page s.registers.stack_pointer h) refl;
}

-- The machine after a pull, and the byte that the pull gives.
abbrev pub pulled : Machine → Machine
pulled s = record s {
  registers = record s.registers { stack_pointer = u8 (s.registers.stack_pointer + 1) };
}

abbrev pub top : Machine → ℕ
top s = s.ram (0x100 + u8 (s.registers.stack_pointer + 1))

page_read : (s : Machine) (sp : ℕ) → loaded s (0x100 + u8 sp) ≡ s.ram (0x100 + u8 sp)
page_read s sp = ground arith

pub Effect-pull_stack : (s : Machine) → Effect pull_stack s (top s) (pulled s)
unfolding pull_stack stack_pointer
Effect-pull_stack s =
    let sp = s.registers.stack_pointer + 1 in
    let read : (log : TraceLog)
        → Effect (emu_read (0x100 + u8 sp)) (relog log (pulled s)) (top s) (relog log (pulled s)) =
      λ log. rw (sym (page_read s sp)) (Effect-emu_read (0x100 + u8 sp) (relog log (pulled s))) in
    Effect-then (Effect-modify _ s) (λ _. Effect-bind _ (Effect-gets _ _) (λ log. read log))
