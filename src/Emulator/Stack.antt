-- ===== src/Emulator/Stack.antt =====
-- The stack of the emulator and the instruction pairs that use it.
pub mod Interrupt
use kernel_nesemulator.Prelude.{
  ℕ, ◌+◌, ◌/◌, ◌<◌, ◌≡◌, ◌≢◌, ap, ap₂, ◌∙◌, ◌==◌, if◌then◌else◌, bit_or, u8, u16, arith,
}
use kernel_nesemulator.Emulator.State.{Machine}
use kernel_nesemulator.Emulator.Bus.{
  word, loaded, set_status_register, reg_status, program_counter, push_stack, pull_stack,
  increment_pc,
}
use kernel_nesemulator.Emulator.Opcode.{jsr, rts, php, plp, brk, rti}
use kernel_nesemulator.Emulator.Execute.Control.{exec_control}
use kernel_nesemulator.Emulator.Keeps.Primitive.{InRange}
use kernel_nesemulator.Emulator.Bits.{word-bytes}
use kernel_nesemulator.Emulator.Effect.{
  Effect, Effect-bind, Effect-then, Effect-pure, Effect-gets, Effect-modify, Effect-emu_read,
  advanced, at_counter, Effect-read_pc, Effect-read_increment_pc, jumped, Effect-set_pc, pushed,
  Effect-push_stack, pulled, top, Effect-pull_stack, relog,
}

-- The stack pointer after a push and a pull.
sp_back : (sp : ℕ) → sp < 256 → u8 (u8 (sp + 255) + 1) ≡ sp
sp_back sp h = omega arith

same_cell : (a v w : ℕ) → (if a == a then v else w) ≡ v
same_cell a v w = ground arith

other_cell : (a b v w : ℕ) → a ≢ b → (if a == b then v else w) ≡ w
other_cell a b v w h = ground arith

top-pushed :
    (value : ℕ) (s : Machine) → s.registers.stack_pointer < 256 → top (pushed value s) ≡ u8 value
top-pushed value s h =
    rw (sp_back s.registers.stack_pointer h)
      (same_cell (0x100 + s.registers.stack_pointer) (u8 value) _)

registers-pulled :
    (value : ℕ) (s : Machine)
    → s.registers.stack_pointer < 256
    → (pulled (pushed value s)).registers ≡ s.registers
registers-pulled value s h =
    ap (λ sp. record s.registers { stack_pointer = sp }) (sp_back s.registers.stack_pointer h)

-- With a stack pointer that is a byte, also where it wraps, pull_stack after push_stack gives back
-- the byte that was pushed and leaves the registers as they were before both.
pub pull_stack-push_stack :
    (value : ℕ) (s : Machine)
    → s.registers.stack_pointer < 256
    → ((pull_stack (push_stack value s).1).0 ≡ u8 value)
      × ((pull_stack (push_stack value s).1).1.registers ≡ s.registers)
pull_stack-push_stack value s h =
    let push = Effect-push_stack value s h in
    let pull = Effect-pull_stack (relog push.log (pushed value s)) in
    let after : pull_stack (push_stack value s).1
        ≡ (top (pushed value s), relog pull.log (pulled (pushed value s))) =
      ap (λ (p : Unit × Machine). pull_stack p.1) push.runs ∙ pull.runs in
    (
      ap (λ p. p.0) after ∙ top-pushed value s h,
      ap (λ p. p.1.registers) after ∙ registers-pulled value s h,
    )

-- JSR: two bytes of the counter on the stack, and the jump.
called : ℕ → ℕ → Machine → Machine
called counter address s = jumped address (pushed (u8 counter) (pushed (u8 (counter / 256)) s))

jsr_target : Machine → ℕ
jsr_target s = word (at_counter (advanced s)) (at_counter s)

Effect-jsr :
    (s : Machine)
    → s.registers.stack_pointer < 256
    → Effect
        (exec_control jsr)
        s
        tt
        (called (u16 (s.registers.program_counter + 1)) (jsr_target s) (advanced s))
unfolding exec_control called jsr_target program_counter
Effect-jsr s h = Effect-bind _ (Effect-read_increment_pc s) (λ _.
    Effect-bind _ (Effect-read_pc _) (λ _. Effect-bind _ (Effect-gets _ _) (λ _.
      Effect-then (Effect-push_stack _ _ h)
        (λ _. Effect-then (Effect-push_stack _ _ (omega arith)) (λ _. Effect-set_pc _ _)))))

returned : Machine → Machine
returned s = advanced (jumped (word (top (pulled s)) (top s)) (pulled (pulled s)))

Effect-rts : (s : Machine) → Effect (exec_control rts) s tt (returned s)
unfolding exec_control returned
Effect-rts s = Effect-bind _ (Effect-pull_stack s) (λ _. Effect-bind _ (Effect-pull_stack _) (λ _.
    Effect-then (Effect-set_pc _ _)
      (λ _. Effect-bind _ (Effect-read_increment_pc _) (λ _. Effect-pure _ _))))

-- Two bytes on the stack come back in the other order.
two_back : (sp : ℕ) → sp < 256 → u8 (u8 (u8 (u8 (sp + 255) + 255) + 1) + 1) ≡ sp
two_back sp h = omega arith

next_cell : (sp : ℕ) → sp < 256 → (0x100 + sp) ≢ (0x100 + u8 (sp + 255))
next_cell sp h e = omega arith

second-pushed :
    (high low : ℕ) (s : Machine)
    → s.registers.stack_pointer < 256
    → top (pulled (pushed low (pushed high s))) ≡ u8 high
second-pushed high low s h =
    let sp = s.registers.stack_pointer in
    rw (two_back sp h) (
      other_cell (0x100 + sp) (0x100 + u8 (sp + 255)) (u8 low) _ (next_cell sp h)
      ∙ same_cell (0x100 + sp) (u8 high) _)

stacked_word :
    (counter : ℕ) (s : Machine)
    → counter < 65536
    → s.registers.stack_pointer < 256
    → (let t = pushed (u8 counter) (pushed (u8 (counter / 256)) s) in word (top (pulled t)) (top t))
      ≡ counter
stacked_word counter s h k =
    let low = u8 counter in
    let high = u8 (counter / 256) in
    ap₂ word (second-pushed high low s k) (top-pushed low (pushed high s) (omega arith))
    ∙ (word-bytes (u8 high) (u8 low) (omega arith) (omega arith) ∙ omega (arith, h))

-- With registers in range, RTS right behind JSR comes back: it leaves the registers as they were at
-- JSR, but for the program counter, which then stands behind JSR's two bytes of operand.
pub rts-jsr :
    (s : Machine)
    → InRange s.registers
    → (exec_control rts (exec_control jsr s).1).1.registers
      ≡ record s.registers { program_counter = u16 (s.registers.program_counter + 2) }
unfolding called returned
rts-jsr s h =
    let counter = u16 (s.registers.program_counter + 1) in
    let t = called counter (jsr_target s) (advanced s) in
    let jump = Effect-jsr s h.stack_pointer in
    let back = Effect-rts (relog jump.log t) in
    let both : (exec_control rts (exec_control jsr s).1).1.registers ≡ (returned t).registers =
      ap (λ (p : Unit × Machine). (exec_control rts p.1).1.registers) jump.runs
      ∙ ap (λ p. p.1.registers) back.runs in
    let count : u16 (u16 (word (top (pulled t)) (top t)) + 1)
        ≡ u16 (s.registers.program_counter + 2) =
      ap (λ w. u16 (u16 w + 1)) (stacked_word counter (advanced s) (omega arith) h.stack_pointer)
      ∙ omega arith in
    both
    ∙ ap₂ (λ p sp. record s.registers { program_counter = p; stack_pointer = sp }) count
        (two_back s.registers.stack_pointer h.stack_pointer)

-- PHP and PLP.
Effect-php :
    (s : Machine)
    → s.registers.stack_pointer < 256
    → Effect (exec_control php) s tt (pushed (u8 (bit_or s.registers.flags 0x30)) s)
unfolding exec_control reg_status
Effect-php s h = Effect-bind _ (Effect-gets _ s) (λ _. Effect-push_stack _ _ h)

with_status : ℕ → Machine → Machine
with_status value s = record s { registers = record s.registers { flags = u8 value } }

Effect-set_status_register :
    (value : ℕ) (s : Machine)
    → Effect (set_status_register value) s (u8 value) (with_status value s)
unfolding set_status_register with_status
Effect-set_status_register value s = Effect-then (Effect-modify _ s) (λ _. Effect-pure _ _)

Effect-plp : (s : Machine) → Effect (exec_control plp) s tt (with_status (top s) (pulled s))
unfolding exec_control with_status
Effect-plp s =
    Effect-bind _ (Effect-pull_stack s)
      (λ _. Effect-bind _ (Effect-set_status_register _ _) (λ _. Effect-pure _ _))

-- With registers in range, PLP right behind PHP sets bits 4 and 5 of the flags, and leaves every
-- other bit of them and every other register as it was.
pub plp-php :
    (s : Machine)
    → InRange s.registers
    → (exec_control plp (exec_control php s).1).1.registers
      ≡ record s.registers { flags = u8 (bit_or s.registers.flags 0x30) }
unfolding with_status
plp-php s h =
    let status = u8 (bit_or s.registers.flags 0x30) in
    let push = Effect-php s h.stack_pointer in
    let pull = Effect-plp (relog push.log (pushed status s)) in
    let both : (exec_control plp (exec_control php s).1).1.registers
        ≡ (with_status (top (pushed status s)) (pulled (pushed status s))).registers =
      ap (λ (p : Unit × Machine). (exec_control plp p.1).1.registers) push.runs
      ∙ ap (λ p. p.1.registers) pull.runs in
    both
    ∙ ap₂ (λ f sp. record s.registers { flags = u8 f; stack_pointer = sp })
        (top-pushed status s h.stack_pointer) (sp_back s.registers.stack_pointer h.stack_pointer)
    ∙ ap (λ f. record s.registers { flags = f }) (omega arith)
