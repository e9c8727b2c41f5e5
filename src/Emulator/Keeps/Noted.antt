-- ===== src/Emulator/Keeps/Noted.antt =====
-- What the logging of a read does to the state.
use kernel_nesemulator.Prelude.{ℕ, ◌≡◌, refl, ap, ◌!=◌, Bool-cases, inl, inr}
use kernel_nesemulator.Emulator.State.{Machine, pure, gets, modify, ◌>>=◌, ◌>>◌}
use kernel_nesemulator.Emulator.Bus.{logging, note_read}

pub note_read-log :
    (address value : ℕ) (s : Machine)
    → (note_read address value s).1 ≡ record s { log = (note_read address value s).1.log }
unfolding note_read logging gets modify pure ◌>>=◌ ◌>>◌
note_read-log address value s = elim (Bool-cases (address != s.registers.program_counter)) [
  | inl other ↦ rw other refl
  | inr own ↦ rw own refl
]

pub registers-note_read :
    (address value : ℕ) (s : Machine) → (note_read address value s).1.registers ≡ s.registers
registers-note_read address value s =
    ap (λ (t : Machine). t.registers) (note_read-log address value s)

pub ram-note_read : (address value : ℕ) (s : Machine) → (note_read address value s).1.ram ≡ s.ram
ram-note_read address value s = ap (λ (t : Machine). t.ram) (note_read-log address value s)

pub rom-note_read : (address value : ℕ) (s : Machine) → (note_read address value s).1.rom ≡ s.rom
rom-note_read address value s = ap (λ (t : Machine). t.rom) (note_read-log address value s)

pub ruleset noted = (registers-note_read, ram-note_read, rom-note_read)
