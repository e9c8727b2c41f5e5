-- ===== src/Emulator/Memory.antt =====
-- What emu_read and emu_write do with the memory map.
use kernel_nesemulator.Prelude.{
  ℕ, ◌*◌, ◌/◌, ◌<◌, ◌≡◌, refl, ap, ap₂, ◌∙◌, Bool, true, false, not, ◌&&◌, ltb, ◌==◌, if◌then◌else◌,
  bit_or, bit_and, u8, arith, Bool-cases, inl, inr,
}
use kernel_nesemulator.Emulator.State.{
  TraceLog, Machine, Cpu, pure, modify, ◌>>◌, flag_carry, flag_zero, flag_negative,
}
use kernel_nesemulator.Emulator.Bus.{nonzero, reg_status}
use kernel_nesemulator.Emulator.Bits.{put, has, has-put, put-lt, negative}
use kernel_nesemulator.Emulator.Effect.{Effect, Effect-bind, Effect-then, Effect-gets, relog}
use kernel_nesemulator.Emulator.Log
use kernel_nesemulator.Prelude.Bytes.{all_below, all_below_sound}
use kernel_nesemulator.Emulator.Alu.{rol_op, ror_op}
use kernel_nesemulator.Emulator.Execute.Bitwise.{on_memory}
use kernel_nesemulator.Emulator.Bus.{loaded, emu_write, logging}
use kernel_nesemulator.Emulator.Effect.{Effect-emu_read}
use kernel_nesemulator.Emulator.Sums.{
  flagged, marked, Effect-set_status_flag, Effect-set_zero_negative,
}

-- The machine after a store, which memory above the first 2 KB ignores.
abbrev pub stored : ℕ → ℕ → Machine → Machine
stored address value s = record s {
  ram = if ltb address 0x800 then (λ i. if i == address then u8 value else s.ram i) else s.ram;
}

pub Effect-emu_write :
    (address value : ℕ) (s : Machine)
    → Effect (emu_write address value) s tt (stored address value s)
unfolding emu_write logging modify pure ◌>>◌
Effect-emu_write address value s = elim (Bool-cases (ltb address 0x800)) [
  | inl low ↦ record { log = Log.set_written_value (u8 value) s.log; runs = rw low refl }
  | inr high ↦ record { log = s.log; runs = rw high refl }
]

loaded-stored :
    (address other value : ℕ) (s : Machine)
    → loaded (stored other value s) address
      ≡ (if address == other && ltb other 0x800 then u8 value else loaded s address)
loaded-stored address other value s = ground arith

-- ROL: the byte it makes, and the machine it leaves.
abbrev rolled : ℕ → Bool → ℕ
rolled v carry = if carry then u8 (bit_or (u8 (v * 2)) 0x1) else u8 (v * 2)

abbrev rored : ℕ → Bool → ℕ
rored v carry = if carry then u8 (bit_or (v / 2) 0x80) else v / 2

abbrev rotated : ℕ → ℕ → Bool → Machine → Machine
rotated address value carry s = marked value (flagged flag_carry carry (stored address value s))

Effect-rol_op :
    (input address : ℕ) (s : Machine)
    → Effect
        (rol_op input address)
        s
        tt
        (rotated address (rolled input (has flag_carry s.registers.flags)) (negative input) s)
unfolding rol_op reg_status
Effect-rol_op input address s = Effect-bind _ (Effect-gets _ s) (λ _.
    Effect-then (Effect-emu_write _ _ _)
      (λ _. Effect-then (Effect-set_status_flag _ _ _) (λ _. Effect-set_zero_negative _ _)))

Effect-ror_op :
    (input address : ℕ) (s : Machine)
    → Effect (ror_op input address) s tt (
        rotated address
          (rored input (has flag_carry s.registers.flags))
          (nonzero (bit_and input 1))
          s)
unfolding ror_op reg_status
Effect-ror_op input address s = Effect-bind _ (Effect-gets _ s) (λ _.
    Effect-then (Effect-emu_write _ _ _)
      (λ _. Effect-then (Effect-set_status_flag _ _ _) (λ _. Effect-set_zero_negative _ _)))

Effect-on_memory :
    (op : ℕ → ℕ → Cpu (Unit {0})) (address : ℕ) (s t : Machine)
    → ((log : TraceLog) → Effect (op (loaded s address) address) (relog log s) tt (relog log t))
    → Effect (on_memory op address) s tt t
unfolding on_memory
Effect-on_memory op address s t k = Effect-bind _ (Effect-emu_read address s) k

rotations :
    all_below 256 (λ v.
      (rored (rolled v true) (negative v) == v)
      && nonzero (bit_and (rolled v true) 1)
      && (rored (rolled v false) (negative v) == v)
      && not (nonzero (bit_and (rolled v false) 1)))
    ≡ true
unfolding all_below
rotations = refl

chosen :
    (m n : ℕ) (p q : Bool) (v w : ℕ)
    → ((m == v) && p && (n == w) && q) ≡ true
    → (m ≡ v) × (p ≡ true)
chosen m n p q v w h = ground arith

chosen_not :
    (m n : ℕ) (p q : Bool) (v w : ℕ)
    → ((m == v) && p && (n == w) && not q) ≡ true
    → (n ≡ w) × (q ≡ false)
chosen_not m n p q v w h = ground arith

rotation_back :
    (v : ℕ) (c : Bool)
    → v < 256
    → (rored (rolled v c) (negative v) ≡ v) × (nonzero (bit_and (rolled v c) 1) ≡ c)
rotation_back v true h = let all = all_below_sound 256 _ v rotations h in chosen _ _ _ _ v v all
rotation_back v false h =
    let all = all_below_sound 256 _ v rotations h in chosen_not _ _ _ _ v v all

rolled-lt : (v : ℕ) (c : Bool) → rolled v c < 256
rolled-lt v true = omega arith
rolled-lt v false = omega arith

-- The carry flag behind the flags that a rotation stores.
carry-rotated :
    (address value : ℕ) (carry : Bool) (s : Machine)
    → s.registers.flags < 256
    → has flag_carry (rotated address value carry s).registers.flags ≡ carry
carry-rotated address value carry s h =
    let flags = s.registers.flags in
    let f1 = put flag_carry carry flags in
    let f2 = put flag_zero (value == 0) f1 in
    let l1 = put-lt flag_carry flags carry in
    let l2 = put-lt flag_zero f1 (value == 0) in
    has-put 7 0 f2 (negative value) (omega arith) (omega arith) l2
    ∙ (has-put 1 0 f1 (value == 0) (omega arith) (omega arith) l1
        ∙ has-put 0 0 flags carry (omega arith) (omega arith) h)

loaded-rotated :
    (address value : ℕ) (carry : Bool) (s : Machine)
    → address < 0x800
    → value < 256
    → loaded (rotated address value carry s) address ≡ value
loaded-rotated address value carry s h k = loaded-stored address address value s ∙ ground arith

ram-rotated :
    (address value again : ℕ) (c d : Bool) (s : Machine) (i : ℕ)
    → address < 0x800
    → again ≡ s.ram address
    → again < 256
    → (rotated address again d (rotated address value c s)).ram i ≡ s.ram i
ram-rotated address value again c d s i h e k = ground arith

-- On a byte below 0x800, ROR behind ROL restores the whole memory and the carry flag.
pub ror-rol :
    (address : ℕ) (s : Machine)
    → s.registers.flags < 256
    → address < 0x800
    → s.ram address < 256
    → (let t = (on_memory ror_op address (on_memory rol_op address s).1).1 in
        ((i : ℕ) → t.ram i ≡ s.ram i)
        × (has flag_carry t.registers.flags ≡ has flag_carry s.registers.flags))
ror-rol address s h low byte =
    let v = loaded s address in
    let c = has flag_carry s.registers.flags in
    let from_ram : v ≡ s.ram address = ground arith in
    let r = rolled v c in
    let t = rotated address r (negative v) s in
    let first =
      Effect-on_memory rol_op address s t (λ log. Effect-rol_op v address (relog log s)) in
    let w = loaded t address in
    let u =
      rotated address (rored w (has flag_carry t.registers.flags)) (nonzero (bit_and w 1)) t in
    let second =
      Effect-on_memory ror_op address (relog first.log t) u
        (λ log. Effect-ror_op w address (relog log t)) in
    let end : (on_memory ror_op address (on_memory rol_op address s).1).1 ≡ relog second.log u =
      ap (λ (p : Unit × Machine). (on_memory ror_op address p.1).1) first.runs
      ∙ ap (λ p. p.1) second.runs in
    let back = rotation_back v c (omega (arith, from_ram, byte)) in
    let read : w ≡ r = loaded-rotated address r (negative v) s low (rolled-lt v c) in
    let again : rored w (has flag_carry t.registers.flags) ≡ v =
      ap₂ rored read (carry-rotated address r (negative v) s h) ∙ back.0 in
    let carry : nonzero (bit_and w 1) ≡ c = ap (λ n. nonzero (bit_and n 1)) read ∙ back.1 in
    let flags_small : t.registers.flags < 256 = put-lt flag_negative _ (negative r) in
    rw end (
      (λ i.
          ram-rotated address r (rored w (has flag_carry t.registers.flags)) (negative v)
            (nonzero (bit_and w 1)) s i low (again ∙ from_ram)
            (omega (arith, again, from_ram, byte))),
      carry-rotated address _ (nonzero (bit_and w 1)) t flags_small ∙ carry,
    )
