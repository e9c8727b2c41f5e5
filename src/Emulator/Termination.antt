-- ===== src/Emulator/Termination.antt =====
-- The rounds of emu_run: a bound on those that are left, also where opcodes count no cycles.
pub mod Start
use kernel_nesemulator.Prelude.{
  Bool-cases, inl, inr, ◌⊎◌, ℕ, zero, suc, ◌+◌, ◌-◌, ◌*◌, ◌%◌, ◌≤◌, ◌<◌, ◌≡◌, refl, sym, ap, ◌∙◌,
  Bool, true, false, ◌||◌, Option, none, some, ltb, leb, ◌==◌, ◌!=◌, u16, arith,
}
use kernel_nesemulator.Prelude.Bytes.{all_below, all_below_sound}
use kernel_nesemulator.Emulator.State.{Machine, pure, modify, ◌>>◌, flag_interrupt_disable}
use kernel_nesemulator.Emulator.Bus.{word, set_status_flag}
use kernel_nesemulator.Heap.{Heap}
use kernel_nesemulator.Emulator.Keeps.Primitive.{
  Keeps, Keeps-registers, Keeps-set_status_flag, keeps_bus,
}
use kernel_nesemulator.Emulator.Opcode.{Opcode, unknown, decode}
use kernel_nesemulator.Emulator.Execute.{execute}
use kernel_nesemulator.Emulator.Table.{opcode_cycles}
use kernel_nesemulator.Emulator.Run.{
  emulate_cpu, emu_run, running, spend, cycle_limit, boot, reset, load_rom, emu_init,
}
use kernel_nesemulator.Emulator.Step.{
  Stable-IsTyped, IsTyped, fetched_opcode, after_fetch, after_fetch_moves, emulate_cpu-split,
  emulate_cpu-IsTyped, cycles-emulate_cpu,
}

abbrev is_unknown : Opcode → Bool
is_unknown unknown = true
is_unknown _ = false

-- Every opcode that the table gives no cycles falls to the `default` of the `switch`.
free_opcodes : all_below 256 (λ op. opcode_cycles op != 0 || is_unknown (decode op)) ≡ true
unfolding all_below opcode_cycles decode
free_opcodes = refl

unknown_of : (op : Opcode) → is_unknown op ≡ true → op ≡ unknown
unknown_of unknown e = refl
unknown_of _ e = cc

decode-unknown : (op : ℕ) → op < 256 → opcode_cycles op ≡ 0 → decode op ≡ unknown
decode-unknown op h free =
    let known =
      all_below_sound 256 (λ op. opcode_cycles op != 0 || is_unknown (decode op)) op free_opcodes
        h in
    unknown_of (decode op) (ground arith)

brk_cycles : opcode_cycles 0 ≡ 7
unfolding opcode_cycles
brk_cycles = refl

-- How many steps of the program counter lead to 0x800, where the memory is not mapped.
abbrev distance : ℕ → ℕ
distance counter = (0x800 + 65536 - counter) % 65536

-- A bound on the rounds that are left.
unfoldable pub rounds : Machine → ℕ
rounds s = (cycle_limit - s.total_cpu_cycles) * 65536 + distance s.registers.program_counter

fetched-lt : (s : Machine) → IsTyped s → fetched_opcode s < 256
fetched-lt s h =
    ground (arith, h.rom (s.registers.program_counter - 0x8000), h.ram s.registers.program_counter)

-- Where nothing is mapped, the byte read is 0, which the table gives cycles.
unmapped :
    (s : Machine)
    → 0x800 ≤ s.registers.program_counter
    → s.registers.program_counter < 0x8000
    → fetched_opcode s ≡ 0
unmapped s h k = ground arith

mapped :
    (s : Machine)
    → opcode_cycles (fetched_opcode s) ≡ 0
    → (s.registers.program_counter < 0x800) ⊎ (0x8000 ≤ s.registers.program_counter)
mapped s free = elim (Bool-cases (ltb s.registers.program_counter 0x800)) [
  | inl low ↦ inl (ground arith)
  | inr not_low ↦ elim (Bool-cases (leb 0x8000 s.registers.program_counter)) [
    | inl high ↦ inr (ground arith)
    | inr not_high ↦
        let zero_byte = unmapped s (ground arith) (ground arith) in
        absurd (omega (arith, sym brk_cycles ∙ ap opcode_cycles (sym zero_byte) ∙ free))
  ]
]

-- A step of the counter that starts elsewhere is a step nearer to 0x800.
nearer :
    (counter : ℕ)
    → counter < 65536
    → (counter < 0x800) ⊎ (0x8000 ≤ counter)
    → distance (u16 (counter + 1)) < distance counter
nearer counter h (inl low) = omega arith
nearer counter h (inr high) = omega arith

-- The effect of a round without cycles.
free_round :
    (s : Machine)
    → IsTyped s
    → opcode_cycles (fetched_opcode s) ≡ 0
    → ((emulate_cpu s).1.registers.program_counter ≡ u16 (s.registers.program_counter + 1))
      × ((emulate_cpu s).1.total_cpu_cycles ≡ s.total_cpu_cycles)
unfolding execute pure
free_round s h free =
    let op = fetched_opcode s in
    let unknown_op = decode-unknown op (fetched-lt s h) free in
    let moved = after_fetch_moves s in
    let split : (emulate_cpu s).1 ≡ spend (opcode_cycles op) (after_fetch s) =
      emulate_cpu-split s
      ∙ ap (λ d. spend (opcode_cycles op) (execute d (after_fetch s)).1) unknown_op in
    (
      ap (λ (t : Machine). t.registers.program_counter) split ∙ moved.0,
      ap (λ (t : Machine). t.total_cpu_cycles) split ∙ omega (arith, moved.1, free),
    )

closer : (m n d e : ℕ) → m ≤ n → d < e → m * 65536 + d < n * 65536 + e
closer m n d e h k = omega arith

bounded : (m d : ℕ) → m ≤ 1000 → d < 65536 → m * 65536 + d < 1001 * 65536
bounded m d h k = omega arith

fewer : (m n d e : ℕ) → m < n → d < 65536 → m * 65536 + d < n * 65536 + e
fewer m n d e h k = omega arith

-- Each round with cycles lowers the first part of the bound, and each round without the second.
round_down : (s : Machine) → running s ≡ true → IsTyped s → rounds (emulate_cpu s).1 < rounds s
unfolding rounds
round_down s go h = elim (Bool-cases (opcode_cycles (fetched_opcode s) == 0)) [
  | inl free ↦
      let none_spent : opcode_cycles (fetched_opcode s) ≡ 0 = ground arith in
      let (counter, cycles) = free_round s h none_spent in
      let near =
        nearer s.registers.program_counter h.registers.program_counter (mapped s none_spent) in
      let near' : distance (emulate_cpu s).1.registers.program_counter
          < distance s.registers.program_counter =
        rw counter near in
      closer _ _ _ _ (omega (arith, cycles)) near'
  | inr spent ↦
      let some_spent : 1 ≤ opcode_cycles (fetched_opcode s) = ground arith in
      let below : s.total_cpu_cycles < cycle_limit = ground arith in
      let grown : s.total_cpu_cycles + 1 ≤ (emulate_cpu s).1.total_cpu_cycles =
        omega (arith, cycles-emulate_cpu s, some_spent) in
      fewer _ _ (distance (emulate_cpu s).1.registers.program_counter) _
        (omega (arith, grown, below)) (omega arith)
]

-- From a state whose registers and memory hold values of their C types, emu_run returns with any
-- fuel above `rounds`: the state it ends in is in range as well, and has halted or has counted
-- `cycle_limit` cycles.
pub emu_run-terminates :
    (fuel : ℕ) (s : Machine)
    → IsTyped s
    → rounds s < fuel
    → (end : Machine) × ((emu_run fuel s ≡ some end) × ((running end ≡ false) × IsTyped end))
unfolding emu_run
emu_run-terminates zero s h enough = absurd (omega arith)
emu_run-terminates (suc fuel) s h enough = elim (Bool-cases (running s)) [
  | inl go ↦
      let down = round_down s go h in
      let (end, (returned, (stopped, typed))) =
        emu_run-terminates fuel (emulate_cpu s).1 (emulate_cpu-IsTyped s h) (omega arith) in
      (end, (rw go returned, (stopped, typed)))
  | inr stop ↦ (s, (rw stop refl, (stop, h)))
]
