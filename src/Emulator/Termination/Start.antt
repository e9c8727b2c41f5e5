-- ===== src/Emulator/Termination/Start.antt =====
-- The fuel for emu_init, and the state that emu_reset leaves.
use kernel_nesemulator.Prelude.{
  ℕ, ◌+◌, ◌*◌, ◌<◌, ◌≡◌, refl, ap, ◌∙◌, ◌==◌, drop, true, false, Option, none, some, arith,
}
use kernel_nesemulator.Emulator.State.{Machine, pure, modify, ◌>>◌, flag_interrupt_disable}
use kernel_nesemulator.Emulator.Bus.{word, set_status_flag}
use kernel_nesemulator.Heap.{Heap, block_size, malloc, malloc_blocks, align_value_to_upper}
use kernel_nesemulator.Heap.Search.{free_prefix}
use kernel_nesemulator.Heap.RoundTrip.{IsValid, FreeRun, allocated}
use kernel_nesemulator.Heap.Sequence.{takes}
use kernel_nesemulator.Emulator.Keeps.Primitive.{
  Keeps, Keeps-registers, Keeps-set_status_flag, keeps_bus,
}
use kernel_nesemulator.Emulator.Run.{
  running, start_state, run_from, boot, reset, load_rom, emu_init,
}
use kernel_nesemulator.Emulator.Step.{Stable-IsTyped, IsTyped}
use kernel_nesemulator.Emulator.Termination.{bounded, rounds, emu_run-terminates}

-- Enough fuel whatever the state is.
abbrev pub run_fuel : ℕ
run_fuel = 1001 * 65536

pub rounds-lt : (s : Machine) → rounds s < run_fuel
unfolding rounds
rounds-lt s = bounded _ _ (omega arith) (omega arith)

Keeps-vectors :
    (low high : ℕ)
    → Keeps (
        modify (λ s. record s {
          registers = record s.registers { program_counter = word high low; stack_pointer = 0xfd };
        }))
unfolding word
Keeps-vectors low high =
    Keeps-registers (λ r. record r { program_counter = word high low; stack_pointer = 0xfd })
      (λ r h. omega arith)

Keeps-reset : Keeps (reset none)
unfolding reset load_rom
Keeps-reset = search (keeps_bus, Keeps-vectors)

-- What fread stores of a file are bytes.
unfoldable pub AreBytes : Option (ℕ → ℕ) → Type 0
AreBytes none = Unit
AreBytes (some image) = (i : ℕ) → image i < 256

with_rom :
    (s : Machine) (image : ℕ → ℕ)
    → ((i : ℕ) → image i < 256)
    → IsTyped s
    → IsTyped (record s { rom = image })
with_rom s image bytes h = record { registers = h.registers; ram = h.ram; rom = bytes }

IsTyped-reset :
    (file : Option (ℕ → ℕ)) (s : Machine) → AreBytes file → IsTyped s → IsTyped (reset file s).1
unfolding reset load_rom modify ◌>>◌ AreBytes set_status_flag pure
IsTyped-reset none s bytes h = Keeps-reset.at IsTyped Stable-IsTyped s h
IsTyped-reset (some image) s bytes h =
    let loaded_rom = with_rom s image bytes h in
    let flagged =
      (Keeps-set_status_flag flag_interrupt_disable true).at IsTyped Stable-IsTyped _ loaded_rom in
    Keeps-reset.at IsTyped Stable-IsTyped _ flagged

IsTyped-start_state : (heap : Heap) → IsTyped (start_state heap)
IsTyped-start_state heap = record {
  registers = record {
    a = omega arith;
    x = omega arith;
    y = omega arith;
    flags = omega arith;
    stack_pointer = omega arith;
    program_counter = omega arith;
  };
  ram = λ i. omega arith;
  rom = λ i. omega arith;
}

-- The heap behind the three buffers: runs of one, eight and one blocks, each free when it is taken.
pub record Buffers (heap after : Heap) : Type 0 where
  pub ram : ℕ
  pub ram_run : FreeRun heap 1 ram
  pub rom : ℕ
  pub rom_run : FreeRun (allocated heap 1 ram) 8 rom
  pub header : ℕ
  pub header_run : FreeRun (allocated (allocated heap 1 ram) 8 rom) 1 header
  pub taken : after ≡ allocated (allocated (allocated heap 1 ram) 8 rom) 1 header

sizes :
    (heap : Heap)
    → (malloc heap 0x800 ≡ malloc_blocks heap 1)
      × (malloc heap 0x8000 ≡ malloc_blocks heap 8)
      × (malloc heap 0x10 ≡ malloc_blocks heap 1)
unfolding malloc align_value_to_upper
sizes heap = (refl, refl, refl)

boot-Buffers :
    (heap : Heap) (k : ℕ)
    → IsValid heap
    → free_prefix 10 (drop k heap.entries) ≡ true
    → (after : Heap) × (boot heap ≡ some (start_state after)) × Buffers heap after
unfolding boot
boot-Buffers heap k v run =
    let (ram, t1) = takes heap 0 k 9 v run in
    let h1 = allocated heap 1 ram in
    let (rom, t2) = takes h1 7 (k + 1) 1 t1.valid t1.rest in
    let h2 = allocated h1 8 rom in
    let (header, t3) = takes h2 0 (k + 1 + 8) 0 t2.valid t2.rest in
    let h3 = allocated h2 1 header in
    let (first, _, _) = sizes heap in
    let (_, second, _) = sizes h1 in
    let (_, _, third) = sizes h2 in
    let above1 : (heap.saddr + ram * block_size == 0) ≡ false = ground (arith, v.nonnull) in
    let above2 : (heap.saddr + rom * block_size == 0) ≡ false = ground (arith, v.nonnull) in
    let above3 : (heap.saddr + header * block_size == 0) ≡ false = ground (arith, v.nonnull) in
    (
      h3,
      rw (first ∙ t1.gives, second ∙ t2.gives, third ∙ t3.gives, above1, above2, above3) refl,
      record {
        ram = ram;
        ram_run = t1.run;
        rom = rom;
        rom_run = t2.run;
        header = header;
        header_run = t3.run;
        taken = refl;
      },
    )

-- On a valid heap with a run of ten free blocks, the allocations of emu_init succeed: they take
-- free blocks for 0x800, 0x8000 and 0x10 bytes, one behind the other. With that state, and whatever
-- file of bytes emu_reset opens, also if it finds none, emu_init returns within `run_fuel` rounds
-- of the loop, in a state whose registers and memory are in range and which has halted or has
-- counted `cycle_limit` cycles.
pub emu_init-terminates :
    (heap : Heap) (k : ℕ) (file : Option (ℕ → ℕ))
    → IsValid heap
    → free_prefix 10 (drop k heap.entries) ≡ true
    → AreBytes file
    → (after : Heap) × ((boot heap ≡ some (start_state after))
        × (Buffers heap after
            × ((end : Machine) × ((emu_init run_fuel heap file ≡ some end)
                  × ((running end ≡ false) × IsTyped end)))))
unfolding emu_init
emu_init-terminates heap k file v run bytes =
    let (after, booted, buffers) = boot-Buffers heap k v run in
    let s = start_state after in
    let (end, (ends, (stopped, typed))) =
      emu_run-terminates run_fuel (reset file s).1
        (IsTyped-reset file s bytes (IsTyped-start_state after)) (rounds-lt (reset file s).1) in
    (
      after,
      (booted, (buffers, (end, (ap (run_from run_fuel file) booted ∙ ends, (stopped, typed))))),
    )
