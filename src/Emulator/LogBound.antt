-- ===== src/Emulator/LogBound.antt =====
-- How many entries the trace log of tracelogger.c holds.
use kernel_nesemulator.Prelude.{
  ℕ, suc, ◌+◌, ◌<◌, ◌≤◌, ◌≡◌, refl, ap, ◌∙◌, ◌⊎◌, inl, inr, Option, none, some, List, [], ◌∷◌, ltb,
  ◌==◌, if◌then◌else◌, length, arith, Bool-cases,
}
use kernel_nesemulator.Heap
use kernel_nesemulator.Heap.{Heap}
use kernel_nesemulator.Emulator.State.{LogEntry, Machine}
use kernel_nesemulator.Emulator.Log.{
  kfree, after_free, make_room, link_entry, head_address, without_head, remove_from,
  remove_first_entry, append_entry, add_tracelog_entry, max_length, entry_size,
}
use kernel_nesemulator.Emulator.Run.{emulate_cpu}
use kernel_nesemulator.Emulator.Keeps.Primitive.{Stable}
use kernel_nesemulator.Emulator.Step.{Keeps-emulate_cpu}

-- `current_length` is one less than the number of entries, as the first entry is not counted, and
-- stays at most TRACELOG_MAX_LENGTH.
pub record Counts (entries current : ℕ) : Type 0 where
  pub counted : (entries ≡ current + 1) ⊎ ((entries ≡ 0) × (current ≡ 0))
  pub bounded : current ≤ max_length

abbrev pub IsCounted : Machine → Type 0
IsCounted m = Counts (length m.log.entries) m.log.current_length

length-without_head :
    (e : LogEntry) (rest : List LogEntry) → length (without_head e rest) ≡ length rest
unfolding without_head
length-without_head e [] = refl
length-without_head e (older ∷ rest) = ap suc (length-without_head older rest)

-- kfree leaves the entries and their count alone.
log-kfree :
    (ptr : ℕ) (m : Machine)
    → ((kfree ptr m).log.entries ≡ m.log.entries)
      × ((kfree ptr m).log.current_length ≡ m.log.current_length)
unfolding kfree
log-kfree ptr m = log-after_free (Heap.free m.heap ptr) m
  where
    log-after_free :
        (o : Option Heap) (m : Machine)
        → ((after_free o m).log.entries ≡ m.log.entries)
          × ((after_free o m).log.current_length ≡ m.log.current_length)
    log-after_free none m = (refl, refl)
    log-after_free (some heap) m = (refl, refl)

-- remove_first_entry on a log that has as many entries as it may.
remove-Counts :
    (entries : List LogEntry) (m : Machine)
    → max_length < m.log.current_length + 1
    → Counts (length entries) m.log.current_length
    → (length (remove_from entries m).log.entries + 1 ≡ length entries)
      × ((remove_from entries m).log.current_length + 1 ≡ m.log.current_length)
unfolding remove_from
remove-Counts [] m full h = absurd (ground (arith, h.counted))
remove-Counts (tail ∷ rest) m full h =
    let (entries, current) =
      log-kfree (head_address tail rest)
        (record m { log = record m.log { entries = without_head tail rest } }) in
    (omega (arith, ap length entries, length-without_head tail rest), omega (arith, current, full))

-- The state in which an entry is added: there is room, and nothing else has changed.
make_room-Counts :
    (m : Machine)
    → IsCounted m
    → IsCounted (make_room m) × ((make_room m).log.current_length < max_length)
unfolding make_room remove_first_entry
make_room-Counts m h = elim (Bool-cases (ltb max_length (m.log.current_length + 1))) [
  | inl full ↦
      let (entries, current) = remove-Counts m.log.entries m (ground arith) h in
      rw full (
        record {
          counted = ground (arith, h.counted, entries, current);
          bounded = omega (arith, h.bounded, current);
        },
        omega (arith, h.bounded, current),
      )
  | inr room ↦ rw room (h, ground arith)
]

append_entry-Counts :
    (entries : List LogEntry) (self : ℕ) (m : Machine)
    → Counts (length entries) m.log.current_length
    → m.log.current_length < max_length
    → IsCounted (append_entry entries self m)
      × (length (append_entry entries self m).log.entries ≡ length entries + 1)
unfolding append_entry
append_entry-Counts [] self m h room =
    (record { counted = ground (arith, h.counted); bounded = h.bounded }, refl)
append_entry-Counts (tail ∷ rest) self m h room =
    (record { counted = ground (arith, h.counted); bounded = omega (arith, room) }, omega arith)

-- The entries after the address of the new entry is known.
link_entry-Counts :
    (self : ℕ) (m : Machine)
    → IsCounted m
    → m.log.current_length < max_length
    → IsCounted (link_entry self m)
      × (length (link_entry self m).log.entries
          ≡ (if self == 0 then length m.log.entries else length m.log.entries + 1))
unfolding link_entry
link_entry-Counts self m h room = elim (Bool-cases (self == 0)) [
  | inl full ↦
      let (entries, current) = log-kfree self m in
      rw full (
        record {
          counted = rw (entries, current) h.counted;
          bounded = omega (arith, h.bounded, current);
        },
        ap length entries,
      )
  | inr got ↦ rw got (append_entry-Counts m.log.entries self m h room)
]

IsCounted-add_tracelog_entry : (m : Machine) → IsCounted m → IsCounted (add_tracelog_entry m)
unfolding add_tracelog_entry
IsCounted-add_tracelog_entry m h =
    let (counted, room) = make_room-Counts m h in (link_entry-Counts _ _ counted room).0

-- The number of entries before the new one is linked: one fewer if the log is full.
length-make_room :
    (m : Machine)
    → IsCounted m
    → length (make_room m).log.entries
      ≡ (if length m.log.entries == 257 then 256 else length m.log.entries)
unfolding make_room remove_first_entry
length-make_room m h = elim (Bool-cases (ltb max_length (m.log.current_length + 1))) [
  | inl full ↦
      let (entries, current) = remove-Counts m.log.entries m (ground arith) h in
      rw full (ground (arith, h.counted, h.bounded, entries))
  | inr room ↦ rw room (ground (arith, h.counted))
]

-- On a log that is counted right, add_tracelog_entry adds one entry if kzalloc succeeds and none if
-- it fails; but if the log already holds 257 entries, it drops one before.
pub length-add_tracelog_entry :
    (m : Machine)
    → IsCounted m
    → (let before = if length m.log.entries == 257 then 256 else length m.log.entries in
        length (add_tracelog_entry m).log.entries
        ≡ (if (Heap.malloc (make_room m).heap entry_size).0 == 0 then before else before + 1))
unfolding add_tracelog_entry
length-add_tracelog_entry m h =
    let (counted, room) = make_room-Counts m h in
    let (self, heap) = Heap.malloc (make_room m).heap entry_size in
    (link_entry-Counts self (record (make_room m) { heap = heap }) counted room).1
    ∙ ap (λ n. if self == 0 then n else n + 1) (length-make_room m h)

Stable-IsCounted : Stable IsCounted
Stable-IsCounted = record {
  at_log = λ s f ok h. record {
    counted = rw (ok.count s.log, ok.counted s.log) h.counted;
    bounded = omega (arith, h.bounded, ok.counted s.log);
  };
  at_entry = IsCounted-add_tracelog_entry;
  at_registers = λ s f ok h. h;
  at_store = λ s address value h. h;
  at_opcode = λ s opcode h. h;
  at_spend = λ s n h. h;
  at_halt = λ s h. h;
}

-- A call of emulate_CPU keeps the count of the log's entries right, and so the entries at most 257.
pub emulate_cpu-IsCounted :
    (s : Machine)
    → IsCounted s
    → IsCounted (emulate_cpu s).1 × (length (emulate_cpu s).1.log.entries ≤ 257)
emulate_cpu-IsCounted s h =
    let kept = Keeps-emulate_cpu.at IsCounted Stable-IsCounted s h in
    (kept, ground (arith, kept.counted, kept.bounded))
