-- ===== src/Emulator/Keeps/Setter.antt =====
-- The functions of tracelogger.c that fill in the last entry, and the number of entries.
use kernel_nesemulator.Prelude.{
  ℕ, ◌≡◌, refl, List, [], ◌∷◌, length, ltb, ◌==◌, Bool-cases, inl, inr,
}
use kernel_nesemulator.Emulator.State.{LogEntry, TraceLog}
use kernel_nesemulator.Emulator.Log.{
  set_tail, set_operand, set_address, set_indexed_address, set_written_value, set_read_value,
  operand_into, count_operand,
}

-- The change keeps the number of entries, and the count of them.
pub record Setter (f : TraceLog → TraceLog) : Type 0 where
  pub count : (l : TraceLog) → length (f l).entries ≡ length l.entries
  pub counted : (l : TraceLog) → (f l).current_length ≡ l.current_length

same_count :
    (f : LogEntry → LogEntry) (l : TraceLog) (entries : List LogEntry)
    → l.entries ≡ entries
    → (length (set_tail f l).entries ≡ length l.entries)
      × ((set_tail f l).current_length ≡ l.current_length)
unfolding set_tail
same_count f l [] e = rw e (refl, refl)
same_count f l (tail ∷ rest) e = rw e (refl, refl)

pub Setter-set_tail : (f : LogEntry → LogEntry) → Setter (set_tail f)
Setter-set_tail f = record {
  count = λ l. (same_count f l l.entries refl).0;
  counted = λ l. (same_count f l l.entries refl).1;
}

pub Setter-set_address : (address : ℕ) → Setter (set_address address)
unfolding set_address
Setter-set_address address = Setter-set_tail _

pub Setter-set_indexed_address : (address : ℕ) → Setter (set_indexed_address address)
unfolding set_indexed_address
Setter-set_indexed_address address = Setter-set_tail _

pub Setter-set_written_value : (byte : ℕ) → Setter (set_written_value byte)
unfolding set_written_value
Setter-set_written_value byte = Setter-set_tail _

pub Setter-set_read_value : (byte : ℕ) → Setter (set_read_value byte)
unfolding set_read_value
Setter-set_read_value byte = Setter-set_tail _

count_operand-same :
    (i : ℕ) (l : TraceLog)
    → (length (count_operand i l).entries ≡ length l.entries)
      × ((count_operand i l).current_length ≡ l.current_length)
count_operand-same i l = elim (Bool-cases (ltb i 2)) [
  | inl inside ↦ rw inside (refl, refl)
  | inr outside ↦ rw outside (refl, refl)
]

operand_into-same :
    (byte : ℕ) (l : TraceLog) (entries : List LogEntry)
    → l.entries ≡ entries
    → (length (operand_into byte l entries).entries ≡ length entries)
      × ((operand_into byte l entries).current_length ≡ l.current_length)
operand_into-same byte l [] e = (rw e refl, refl)
operand_into-same byte l (tail ∷ rest) e = elim (Bool-cases (tail.opcode == 0)) [
  | inl first ↦ rw first (refl, refl)
  | inr later ↦ rw later (count_operand-same l.current_operand _)
]

pub Setter-set_operand : (byte : ℕ) → Setter (set_operand byte)
unfolding set_operand
Setter-set_operand byte = record {
  count = λ l. (operand_into-same byte l l.entries refl).0;
  counted = λ l. (operand_into-same byte l l.entries refl).1;
}

pub ruleset setters = (
  Setter-set_operand, Setter-set_address, Setter-set_indexed_address, Setter-set_written_value,
  Setter-set_read_value,
)
