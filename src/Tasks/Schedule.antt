-- ===== src/Tasks/Schedule.antt =====
-- Switching to the next task again and again.
use native.Mathlib.Nat.{mod-eq_of_lt, mod-add-mod, mod_self, mod-lt, add-mod_left}
use native.Mathlib.Decide.{ℕ_discrete}
use kernel_nesemulator.Prelude.{
  ℕ, zero, suc, ◌+◌, ◌-◌, ◌%◌, ◌<◌, ◌≡◌, ◌≢◌, sym, ap, ◌∙◌, List, length, get_or, ◌==◌,
  if◌then◌else◌, arith, Bool-cases, leb, inl, inr, leb→le, leb-false→lt,
}
use kernel_nesemulator.Prelude.Division.{mod-within}
use kernel_nesemulator.Tasks.{Tasks, get_next, switch, rounds}
use kernel_nesemulator.Tasks.Ring.{IsRing}

-- Switches change neither the tasks nor their order.
abbrev pub current_as : Tasks → ℕ → Tasks
current_as tasks task = record tasks { current_task = task }

next_or_head : (a head next : ℕ) → a ≡ next → next ≢ 0 → (if a == 0 then head else a) ≡ next
next_or_head a head next e h = ground arith

get_next-inner :
    (tasks : Tasks) (ts : List ℕ) (i : ℕ)
    → IsRing tasks ts
    → suc i < length ts
    → get_next (current_as tasks (get_or ts i 0)) ≡ get_or ts (suc i) 0
unfolding get_next
get_next-inner tasks ts i ring h =
    next_or_head _ tasks.task_head (get_or ts (suc i) 0) (ring.next i h) (ring.nonnull (suc i) h)

zero_or_head : (a head : ℕ) → a ≡ 0 → (if a == 0 then head else a) ≡ head
zero_or_head a head e = ground arith

get_next-last :
    (tasks : Tasks) (ts : List ℕ) (i : ℕ)
    → IsRing tasks ts
    → suc i ≡ length ts
    → get_next (current_as tasks (get_or ts i 0)) ≡ get_or ts 0 0
unfolding get_next
get_next-last tasks ts i ring h =
    let end : i ≡ length ts - 1 = omega (arith, h) in
    zero_or_head _ tasks.task_head (ap (λ k. (tasks.memory (get_or ts k 0)).next) end ∙ ring.last)
    ∙ ring.head

-- One step further round, at the last place or before.
get_next-mod :
    (tasks : Tasks) (ts : List ℕ) (a : ℕ)
    → IsRing tasks ts
    → get_next (current_as tasks (get_or ts (a % length ts) 0)) ≡ get_or ts ((a + 1) % length ts) 0
get_next-mod tasks ts a ring =
    let n = length ts in
    let below : a % n < n = mod-lt a ring.nonempty in
    elim (ℕ_discrete (suc (a % n)) n) [
      | yes last ↦
          let wraps : (a + 1) % n ≡ 0 =
            sym (mod-add-mod a n 1) ∙ (ap (λ k. k % n) (one_more (a % n) n last) ∙ mod_self n) in
          get_next-last tasks ts (a % n) ring last ∙ ap (λ k. get_or ts k 0) (sym wraps)
      | no inner ↦
          let room : a % n + 1 < n = room_of (a % n) n below inner in
          let moves : (a + 1) % n ≡ suc (a % n) = mod-within a 1 n room ∙ omega arith in
          get_next-inner tasks ts (a % n) ring (omega (arith, room))
          ∙ ap (λ k. get_or ts k 0) (sym moves)
    ]
  where
    one_more : (r n : ℕ) → suc r ≡ n → r + 1 ≡ n
    one_more r n e = omega arith

    room_of : (r n : ℕ) → r < n → suc r ≢ n → r + 1 < n
    room_of r n h ne = ground arith

rounds-mod :
    (k i : ℕ) (tasks : Tasks) (ts : List ℕ)
    → IsRing tasks ts
    → i < length ts
    → rounds k (current_as tasks (get_or ts i 0))
      ≡ current_as tasks (get_or ts ((i + k) % length ts) 0)
unfolding rounds switch
rounds-mod zero i tasks ts ring h =
    let same : i ≡ (i + 0) % length ts =
      sym (ap (λ n. n % length ts) (plus_zero i) ∙ mod-eq_of_lt h) in
    ap (λ n. current_as tasks (get_or ts n 0)) same
  where
    plus_zero : (i : ℕ) → i + 0 ≡ i
    plus_zero i = omega arith
rounds-mod (suc k) i tasks ts ring h =
    let before = rounds-mod k i tasks ts ring h in
    let further : i + k + 1 ≡ i + suc k = omega arith in
    ap (λ t. switch t (get_next t)) before
    ∙ ap (current_as tasks)
        (get_next-mod tasks ts (i + k) ring ∙ ap (λ n. get_or ts (n % length ts) 0) further)

-- From any task of a list that is linked well, switching to the next task makes each task of the
-- list the current one within fewer switches than there are tasks, and changes nothing else.
pub rounds-reaches :
    (i j : ℕ) (tasks : Tasks) (ts : List ℕ)
    → IsRing tasks ts
    → i < length ts
    → j < length ts
    → (k : ℕ) × ((k < length ts)
        × (rounds k (current_as tasks (get_or ts i 0)) ≡ current_as tasks (get_or ts j 0)))
rounds-reaches i j tasks ts ring hi hj = elim (Bool-cases (leb i j)) [
  | inl ahead ↦
      let place : (i + (j - i)) % length ts ≡ j =
        ap (λ n. n % length ts) (omega (arith, leb→le i j ahead)) ∙ mod-eq_of_lt hj in
      (
        j - i,
        (
          omega arith,
          rounds-mod (j - i) i tasks ts ring hi ∙ ap (λ n. current_as tasks (get_or ts n 0)) place,
        ),
      )
  | inr round ↦
      let k = length ts - i + j in
      let place : (i + k) % length ts ≡ j =
        ap (λ n. n % length ts) (whole i j (length ts) hi)
        ∙ (add-mod_left (length ts) j ∙ mod-eq_of_lt hj) in
      (
        k,
        (
          omega (arith, leb-false→lt i j round),
          rounds-mod k i tasks ts ring hi ∙ ap (λ n. current_as tasks (get_or ts n 0)) place,
        ),
      )
]
  where
    whole : (i j n : ℕ) → i < n → i + (n - i + j) ≡ n + j
    whole i j n h = omega arith
