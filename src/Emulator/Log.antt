-- ===== src/Emulator/Log.antt =====
-- The trace log of emulator/CPU/tracelogger.c: the operations that change it.
use kernel_nesemulator.Prelude.{
  ℕ, ◌+◌, ◌-◌, true, false, Option, none, some, List, [], ◌∷◌, ltb, ◌==◌, if◌then◌else◌,
}
use kernel_nesemulator.Heap
use kernel_nesemulator.Heap.{Heap}
use kernel_nesemulator.Emulator.State.{LogEntry, TraceLog, Machine}

abbrev pub max_length : ℕ
max_length = 256

-- `sizeof(struct tracelog_entry)`
abbrev pub entry_size : ℕ
entry_size = 32

abbrev pub fault : TraceLog → TraceLog
fault l = record l { faults = l.faults + 1 }

abbrev pub after_free : Option Heap → Machine → Machine
after_free none m = record m { log = fault m.log }
after_free (some heap) m = record m { heap = heap }

-- `kfree` on the kernel heap.
unfoldable pub kfree : ℕ → Machine → Machine
kfree ptr m = after_free (Heap.free m.heap ptr) m

-- The entries without the last, which is `log_head`.
unfoldable pub without_head : LogEntry → List LogEntry → List LogEntry
without_head e [] = []
without_head e (older ∷ rest) = e ∷ without_head older rest

unfoldable pub head_address : LogEntry → List LogEntry → ℕ
head_address e [] = e.self
head_address e (older ∷ rest) = head_address older rest

abbrev pub shorten : Machine → Machine
shorten m = record m { log = record m.log { current_length = m.log.current_length - 1 } }

unfoldable pub remove_from : List LogEntry → Machine → Machine
remove_from [] m = m
remove_from (tail ∷ rest) m = shorten (
    kfree (head_address tail rest)
      (record m { log = record m.log { entries = without_head tail rest } }))

unfoldable pub remove_first_entry : Machine → Machine
remove_first_entry m = remove_from m.log.entries m

-- A zeroed entry at `self`, with what `init_log_entry` stores.
abbrev pub init_log_entry : ℕ → Machine → LogEntry
init_log_entry self m = record {
  self = self;
  opcode = 0;
  operand0 = 0;
  operand1 = 0;
  address = 0;
  indexed_address = 0;
  read_value = 0;
  written_value = 0;
  read_value_set = false;
  write_value_set = false;
  total_cpu_cycles = m.total_cpu_cycles;
  registers = m.registers;
}

-- The end of `add_tracelog_entry`, with the entries before the call.
unfoldable pub append_entry : List LogEntry → ℕ → Machine → Machine
append_entry [] self m = record m {
  log = record m.log { entries = init_log_entry self m ∷ []; selected = self; current_operand = 0 };
}
append_entry (tail ∷ rest) self m = record m {
  log = record m.log {
    entries = init_log_entry self m ∷ tail ∷ rest;
    current_operand = 0;
    current_length = m.log.current_length + 1;
  };
}

unfoldable pub make_room : Machine → Machine
make_room m = if ltb max_length (m.log.current_length + 1) then remove_first_entry m else m

-- `kzalloc` gives NULL if the heap is full, and then `kfree(NULL)` follows.
unfoldable pub link_entry : ℕ → Machine → Machine
link_entry self m = if self == 0 then kfree self m else append_entry m.log.entries self m

unfoldable pub add_tracelog_entry : Machine → Machine
add_tracelog_entry m =
    let m1 = make_room m in
    let (self, heap) = Heap.malloc m1.heap entry_size in link_entry self (record m1 { heap = heap })

-- A store into `*log_tail`.
unfoldable pub set_tail : (LogEntry → LogEntry) → TraceLog → TraceLog
set_tail f l = elim l.entries [ [] ↦ fault l | tail ∷ rest ↦ record l { entries = f tail ∷ rest } ]

-- `operands[i] = byte`, for an entry; outside the array see `set_operand`.
abbrev pub with_operand : ℕ → ℕ → LogEntry → LogEntry
with_operand i byte e =
    if i == 0
    then record e { operand0 = byte }
    else if i == 1
    then record e { operand1 = byte }
    else e

abbrev pub count_operand : ℕ → TraceLog → TraceLog
count_operand i l = record (if ltb i 2 then l else fault l) { current_operand = i + 1 }

abbrev pub operand_into : ℕ → TraceLog → List LogEntry → TraceLog
operand_into byte l [] = fault l
operand_into byte l (tail ∷ rest) =
    if tail.opcode == 0
    then record l { entries = record tail { opcode = byte } ∷ rest }
    else count_operand l.current_operand
        (record l { entries = with_operand l.current_operand byte tail ∷ rest })

unfoldable pub set_operand : ℕ → TraceLog → TraceLog
set_operand byte l = operand_into byte l l.entries

unfoldable pub set_address : ℕ → TraceLog → TraceLog
unfolding set_tail
set_address address = set_tail (λ e. record e { address = address })

unfoldable pub set_indexed_address : ℕ → TraceLog → TraceLog
unfolding set_tail
set_indexed_address address = set_tail (λ e. record e { indexed_address = address })

unfoldable pub set_written_value : ℕ → TraceLog → TraceLog
unfolding set_tail
set_written_value byte = set_tail (λ e. record e { written_value = byte; write_value_set = true })

unfoldable pub set_read_value : ℕ → TraceLog → TraceLog
unfolding set_tail
set_read_value byte = set_tail (λ e. record e { read_value = byte; read_value_set = true })
