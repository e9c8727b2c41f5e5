-- ===== src/Tasks/Tests.antt =====
-- Three tasks at 0x1000, 0x2000 and 0x3000, and a fourth at 0x4000 that is in no list.
use kernel_nesemulator.Prelude.{
  ℕ, zero, suc, ◌<◌, ◌≡◌, ◌≢◌, refl, List, [], ◌∷◌, ◌++◌, get_or, ◌==◌, if◌then◌else◌, arith,
}
use kernel_nesemulator.Tasks.{Task, Tasks, link_task, list_remove, rounds}
use kernel_nesemulator.Tasks.Ring.{IsRing, IsFresh}
use kernel_nesemulator.Tasks.Join.{link_task-IsRing}
use kernel_nesemulator.Tasks.Schedule.{current_as, rounds-reaches}
use kernel_nesemulator.Tasks.Removal.{AreNeighbours, list_remove-stale}

abbrev linked : ℕ → ℕ → Task
linked prev next = record {
  page_directory = 0x9000;
  ip = 0x400000;
  ss = 0x23;
  esp = 0x3FF000;
  process = 0x8000;
  next = next;
  prev = prev;
}

abbrev memory : ℕ → Task
memory i =
    if i == 0x1000
    then linked 0 0x2000
    else if i == 0x2000
    then linked 0x1000 0x3000
    else if i == 0x3000
    then linked 0x2000 0
    else linked 0 0

abbrev tasks : Tasks
tasks = record { memory = memory; current_task = 0x2000; task_head = 0x1000; task_tail = 0x3000 }

abbrev three : List ℕ
three = 0x1000 ∷ 0x2000 ∷ 0x3000 ∷ []

three-IsRing : IsRing tasks three
three-IsRing = record {
  nonempty = omega arith;
  head = refl;
  tail = refl;
  next = next_of;
  last = refl;
  prev = prev_of;
  nonnull = λ i h. ground arith;
  distinct = λ i j hi hj e. ground arith;
}
  where
    next_of : (i : ℕ) → suc i < 3 → (memory (get_or three i 0)).next ≡ get_or three (suc i) 0
    next_of zero h = refl
    next_of (suc zero) h = refl
    next_of (suc (suc i)) h = absurd (omega arith)

    prev_of : (i : ℕ) → suc i < 3 → (memory (get_or three (suc i) 0)).prev ≡ get_or three i 0
    prev_of zero h = refl
    prev_of (suc zero) h = refl
    prev_of (suc (suc i)) h = absurd (omega arith)

rounds-reaches_example :
    (k : ℕ) × ((k < 3) × (rounds k (current_as tasks 0x3000) ≡ current_as tasks 0x2000))
rounds-reaches_example = rounds-reaches 2 1 tasks three three-IsRing (omega arith) (omega arith)

fourth-IsFresh : IsFresh tasks three 0x4000
fourth-IsFresh = record { nonnull = omega arith; apart = apart; unlinked = refl }
  where
    apart : (i : ℕ) → i < 3 → get_or three i 0 ≢ 0x4000
    apart zero h = omega arith
    apart (suc zero) h = omega arith
    apart (suc (suc zero)) h = omega arith
    apart (suc (suc (suc i))) h = absurd (omega arith)

link_task-IsRing_example : IsRing (link_task tasks 0x4000) (three ++ (0x4000 ∷ []))
link_task-IsRing_example = link_task-IsRing tasks three 0x4000 three-IsRing fourth-IsFresh

neighbours : AreNeighbours tasks 0x1000 0x2000 0x3000
neighbours = record {
  next_a = refl;
  prev_b = refl;
  next_b = refl;
  prev_c = refl;
  nonnull_a = omega arith;
  nonnull_b = omega arith;
  apart_ab = omega arith;
  apart_ac = omega arith;
  apart_bc = omega arith;
}

list_remove-stale_example :
    ((list_remove (list_remove tasks 0x2000) 0x3000).memory 0x1000).next ≡ 0x3000
list_remove-stale_example = list_remove-stale tasks 0x1000 0x2000 0x3000 neighbours
