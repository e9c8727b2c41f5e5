-- ===== src/Emulator/Stack/Interrupt.antt =====
-- BRK and RTI: the frame of three bytes on the stack.
use kernel_nesemulator.Prelude.{ℕ, ◌+◌, ◌/◌, ◌<◌, ◌≡◌, ◌≢◌, ap, ap₂, ◌∙◌, u8, u16, arith}
use kernel_nesemulator.Emulator.State.{Machine}
use kernel_nesemulator.Emulator.Bus.{word, loaded, reg_status, program_counter, increment_pc}
use kernel_nesemulator.Emulator.Opcode.{brk, rti}
use kernel_nesemulator.Emulator.Execute.Control.{exec_control}
use kernel_nesemulator.Emulator.Keeps.Primitive.{InRange}
use kernel_nesemulator.Emulator.Bits.{word-bytes}
use kernel_nesemulator.Emulator.Effect.{
  Effect, Effect-bind, Effect-then, Effect-gets, Effect-modify, Effect-emu_read, advanced, jumped,
  Effect-set_pc, pushed, Effect-push_stack, pulled, top, Effect-pull_stack, relog,
}
use kernel_nesemulator.Emulator.Stack.{
  same_cell, other_cell, top-pushed, next_cell, second-pushed, with_status,
  Effect-set_status_register,
}

-- BRK: the counter and the flags on the stack, and the jump through the vector at 0xfffe.
interrupted : Machine → Machine
interrupted s =
    let counter = u16 (s.registers.program_counter + 1) in
    let t =
      pushed s.registers.flags (pushed (u8 counter) (pushed (u8 (counter / 256)) (advanced s))) in
    jumped (word (loaded t 0xffff) (loaded t 0xfffe)) t

Effect-brk :
    (s : Machine) → s.registers.stack_pointer < 256 → Effect (exec_control brk) s tt (interrupted s)
unfolding exec_control interrupted increment_pc program_counter reg_status
Effect-brk s h = Effect-then (Effect-modify _ s) (λ _. Effect-bind _ (Effect-gets _ _) (λ _.
    Effect-then (Effect-push_stack _ _ h) (λ _.
      Effect-then (Effect-push_stack _ _ (omega arith)) (λ _. Effect-bind _ (Effect-gets _ _) (λ _.
        Effect-then (Effect-push_stack _ _ (omega arith)) (λ _.
          Effect-bind _ (Effect-emu_read _ _)
            (λ _. Effect-bind _ (Effect-emu_read _ _) (λ _. Effect-set_pc _ _))))))))

resumed : Machine → Machine
resumed s =
    let t = with_status (top s) (pulled s) in
    jumped (word (top (pulled t)) (top t)) (pulled (pulled t))

Effect-rti : (s : Machine) → Effect (exec_control rti) s tt (resumed s)
unfolding exec_control resumed with_status
Effect-rti s = Effect-bind _ (Effect-pull_stack s) (λ _.
    Effect-bind _ (Effect-set_status_register _ _) (λ _.
      Effect-bind _ (Effect-pull_stack _)
        (λ _. Effect-bind _ (Effect-pull_stack _) (λ _. Effect-set_pc _ _))))

-- The first of three bytes on the stack.
three_back :
    (sp : ℕ) → sp < 256 → u8 (u8 (u8 (u8 (u8 (u8 (sp + 255) + 255) + 255) + 1) + 1) + 1) ≡ sp
three_back sp h = omega arith

last_cell : (sp : ℕ) → sp < 256 → (0x100 + sp) ≢ (0x100 + u8 (u8 (sp + 255) + 255))
last_cell sp h e = omega arith

third-pushed :
    (high low status : ℕ) (s : Machine)
    → s.registers.stack_pointer < 256
    → top (pulled (pulled (pushed status (pushed low (pushed high s))))) ≡ u8 high
third-pushed high low status s h =
    let sp = s.registers.stack_pointer in
    rw (three_back sp h) (
      other_cell (0x100 + sp) (0x100 + u8 (u8 (sp + 255) + 255)) (u8 status) _ (last_cell sp h)
      ∙ (other_cell (0x100 + sp) (0x100 + u8 (sp + 255)) (u8 low) _ (next_cell sp h)
          ∙ same_cell (0x100 + sp) (u8 high) _))

stacked_frame :
    (counter status : ℕ) (s : Machine)
    → counter < 65536
    → s.registers.stack_pointer < 256
    → (let t = pulled (pushed status (pushed (u8 counter) (pushed (u8 (counter / 256)) s))) in
        word (top (pulled t)) (top t))
      ≡ counter
stacked_frame counter status s h k =
    let low = u8 counter in
    let high = u8 (counter / 256) in
    ap₂ word (third-pushed high low status s k)
      (second-pushed low status (pushed high s) (omega arith))
    ∙ (word-bytes (u8 high) (u8 low) (omega arith) (omega arith) ∙ omega (arith, h))

-- With registers in range, RTI right behind BRK restores every register, the flags included, but
-- for the program counter, which then stands one byte further.
pub rti-brk :
    (s : Machine)
    → InRange s.registers
    → (exec_control rti (exec_control brk s).1).1.registers
      ≡ record s.registers { program_counter = u16 (s.registers.program_counter + 1) }
unfolding interrupted resumed with_status
rti-brk s h =
    let counter = u16 (s.registers.program_counter + 1) in
    let status = s.registers.flags in
    let t = interrupted s in
    let stack = pushed status (pushed (u8 counter) (pushed (u8 (counter / 256)) (advanced s))) in
    let call = Effect-brk s h.stack_pointer in
    let back = Effect-rti (relog call.log t) in
    let both : (exec_control rti (exec_control brk s).1).1.registers ≡ (resumed t).registers =
      ap (λ (p : Unit × Machine). (exec_control rti p.1).1.registers) call.runs
      ∙ ap (λ p. p.1.registers) back.runs in
    let count : u16 (word (top (pulled (pulled stack))) (top (pulled stack))) ≡ counter =
      ap u16 (stacked_frame counter status (advanced s) (omega arith) h.stack_pointer)
      ∙ omega arith in
    let flags : u8 (top stack) ≡ status =
      ap u8 (
        top-pushed status (pushed (u8 counter) (pushed (u8 (counter / 256)) (advanced s)))
          (omega arith))
      ∙ omega (arith, h.flags) in
    both
    ∙ (ap₂
          (λ p f. record s.registers {
            program_counter = p;
            flags = f;
            stack_pointer = u8 (u8 (u8 (stack.registers.stack_pointer + 1) + 1) + 1);
          })
          count flags
        ∙ ap (λ sp. record s.registers { program_counter = counter; stack_pointer = sp })
            (three_back s.registers.stack_pointer h.stack_pointer))
