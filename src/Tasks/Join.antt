-- ===== src/Tasks/Join.antt =====
-- How a new task joins the list.
use native.Mathlib.Decide.{ℕ_discrete}
use kernel_nesemulator.Prelude.{
  ℕ, suc, ◌-◌, ◌<◌, ◌≡◌, ◌≢◌, sym, ap, ◌∙◌, false, List, [], ◌∷◌, ◌++◌, length, get_or,
  length-append, ◌==◌, arith,
}
use kernel_nesemulator.Tasks.{Task, Tasks, set_next, set_prev, link_task}
use kernel_nesemulator.Tasks.Ring.{IsRing, IsFresh, get_or-append_left, get_or-end, elsewhere, here}

-- The memory behind the two stores of link_task.
abbrev joined : Tasks → ℕ → ℕ → Task
joined tasks task = set_prev (set_next tasks.memory tasks.task_tail task) task tasks.task_tail

joined-elsewhere :
    (tasks : Tasks) (task i : ℕ)
    → i ≢ task
    → i ≢ tasks.task_tail
    → joined tasks task i ≡ tasks.memory i
joined-elsewhere tasks task i h1 h2 =
    elsewhere (set_next tasks.memory tasks.task_tail task) task i _ h1
    ∙ elsewhere tasks.memory tasks.task_tail i _ h2

joined-prev :
    (tasks : Tasks) (task i : ℕ) → i ≢ task → (joined tasks task i).prev ≡ (tasks.memory i).prev
joined-prev tasks task i h =
    ap (λ (t : Task). t.prev) (elsewhere (set_next tasks.memory tasks.task_tail task) task i _ h)
    ∙ elim (ℕ_discrete i tasks.task_tail) [
      | yes tail ↦
          ap (λ n. (set_next tasks.memory tasks.task_tail task n).prev) tail
          ∙ (ap (λ (t : Task). t.prev)
                (here tasks.memory tasks.task_tail
                  (record (tasks.memory tasks.task_tail) { next = task }))
              ∙ ap (λ n. (tasks.memory n).prev) (sym tail))
      | no inner ↦ ap (λ (t : Task). t.prev) (elsewhere tasks.memory tasks.task_tail i _ inner)
    ]

joined-tail :
    (tasks : Tasks) (task : ℕ)
    → tasks.task_tail ≢ task
    → (joined tasks task tasks.task_tail).next ≡ task
joined-tail tasks task h =
    ap (λ (t : Task). t.next)
      (elsewhere (set_next tasks.memory tasks.task_tail task) task tasks.task_tail _ h
        ∙ here tasks.memory tasks.task_tail (record (tasks.memory tasks.task_tail) { next = task }))

joined-task :
    (tasks : Tasks) (task : ℕ)
    → task ≢ tasks.task_tail
    → ((joined tasks task task).next ≡ (tasks.memory task).next)
      × ((joined tasks task task).prev ≡ tasks.task_tail)
joined-task tasks task h =
    let middle = set_next tasks.memory tasks.task_tail task in
    let at = here middle task (record (middle task) { prev = tasks.task_tail }) in
    (
      ap (λ (t : Task). t.next) (at)
          ∙ ap (λ (t : Task). t.next) (elsewhere tasks.memory tasks.task_tail task _ h),
      ap (λ (t : Task). t.prev) at,
    )

room_of : (i n : ℕ) → i < n → suc i ≢ n → suc i < n
room_of i n h ne = ground arith

not_empty : (tasks : Tasks) (ts : List ℕ) → IsRing tasks ts → (tasks.task_head == 0) ≡ false
not_empty tasks ts ring =
    test tasks.task_head (get_or ts 0 0) ring.head (ring.nonnull 0 ring.nonempty)
  where
    test : (a b : ℕ) → a ≡ b → b ≢ 0 → (a == 0) ≡ false
    test a b e h = ground arith

module _ (tasks : Tasks) (ts : List ℕ) (task : ℕ) (ring : IsRing tasks ts)
    (fresh : IsFresh tasks ts task) where
  abbrev all : List ℕ
  all = ts ++ (task ∷ [])

  size : length all ≡ suc (length ts)
  size = omega (arith, length-append ts (task ∷ []))

  old_at : (i : ℕ) → i < length ts → get_or all i 0 ≡ get_or ts i 0
  old_at i h = get_or-append_left ts (task ∷ []) i h

  new_at : (i : ℕ) → i ≡ length ts → get_or all i 0 ≡ task
  new_at i e = ap (λ k. get_or all k 0) e ∙ get_or-end ts task

  tail_not_task : tasks.task_tail ≢ task
  tail_not_task e = fresh.apart (length ts - 1) (omega (arith, ring.nonempty)) (sym ring.tail ∙ e)

  -- The last old place is the tail's.
  tail_at : (i : ℕ) → suc i ≡ length ts → get_or ts i 0 ≡ tasks.task_tail
  tail_at i e = ap (λ k. get_or ts k 0) (omega (arith, e)) ∙ sym ring.tail

  next_joined :
      (i : ℕ)
      → suc i < length all
      → (joined tasks task (get_or all i 0)).next ≡ get_or all (suc i) 0
  next_joined i h =
      let below : i < length ts = omega (arith, h, size) in
      ap (λ k. (joined tasks task k).next) (old_at i below)
      ∙ elim (ℕ_discrete (suc i) (length ts)) [
        | yes last ↦
            ap (λ k. (joined tasks task k).next) (tail_at i last)
            ∙ (joined-tail tasks task tail_not_task ∙ sym (new_at (suc i) last))
        | no inner ↦
            let room : suc i < length ts = room_of i (length ts) below inner in
            ap (λ (t : Task). t.next)
              (joined-elsewhere tasks task (get_or ts i 0) (fresh.apart i below) (λ e. inner (
                place i
                  (ring.distinct i (length ts - 1) below (omega (arith, below)) (e ∙ ring.tail)))))
            ∙ (ring.next i room ∙ sym (old_at (suc i) room))
      ]
    where
      place : (i : ℕ) → i ≡ length ts - 1 → suc i ≡ length ts
      place i e = omega (arith, e, ring.nonempty)

  prev_joined :
      (i : ℕ)
      → suc i < length all
      → (joined tasks task (get_or all (suc i) 0)).prev ≡ get_or all i 0
  prev_joined i h =
      let below : i < length ts = omega (arith, h, size) in
      elim (ℕ_discrete (suc i) (length ts)) [
        | yes last ↦
            ap (λ k. (joined tasks task k).prev) (new_at (suc i) last)
            ∙ ((joined-task tasks task (λ e. tail_not_task (sym e))).1
                ∙ (sym (tail_at i last) ∙ sym (old_at i below)))
        | no inner ↦
            let room : suc i < length ts = room_of i (length ts) below inner in
            ap (λ k. (joined tasks task k).prev) (old_at (suc i) room)
            ∙ (joined-prev tasks task (get_or ts (suc i) 0) (fresh.apart (suc i) room)
                ∙ (ring.prev i room ∙ sym (old_at i below)))
      ]

  under : (i : ℕ) → i < length all → i ≢ length ts → i < length ts
  under i h ne = ground (arith, size)

  nonnull_joined : (i : ℕ) → i < length all → get_or all i 0 ≢ 0
  nonnull_joined i h e = elim (ℕ_discrete i (length ts)) [
    | yes last ↦ fresh.nonnull (sym (new_at i last) ∙ e)
    | no inner ↦ let below = under i h inner in ring.nonnull i below (sym (old_at i below) ∙ e)
  ]

  distinct_joined :
      (i j : ℕ) → i < length all → j < length all → get_or all i 0 ≡ get_or all j 0 → i ≡ j
  distinct_joined i j hi hj e = elim (ℕ_discrete i (length ts)) [
    | yes i_last ↦ elim (ℕ_discrete j (length ts)) [
      | yes j_last ↦ i_last ∙ sym j_last
      | no j_old ↦
          let below = under j hj j_old in
          absurd (fresh.apart j below (sym (old_at j below) ∙ (sym e ∙ new_at i i_last)))
    ]
    | no i_old ↦
        let below = under i hi i_old in
        elim (ℕ_discrete j (length ts)) [
          | yes j_last ↦ absurd (fresh.apart i below (sym (old_at i below) ∙ (e ∙ new_at j j_last)))
          | no j_old ↦
              let other = under j hj j_old in
              ring.distinct i j below other (sym (old_at i below) ∙ (e ∙ old_at j other))
        ]
  ]

  joined-IsRing : IsRing (record tasks { memory = joined tasks task; task_tail = task }) all
  joined-IsRing = record {
    nonempty = omega (arith, size);
    head = ring.head ∙ sym (old_at 0 ring.nonempty);
    tail = sym (new_at (length all - 1) (omega (arith, size)));
    next = next_joined;
    last =
        ap (λ k. (joined tasks task k).next) (new_at (length all - 1) (omega (arith, size)))
        ∙ ((joined-task tasks task (λ e. tail_not_task (sym e))).0 ∙ fresh.unlinked);
    prev = prev_joined;
    nonnull = nonnull_joined;
    distinct = distinct_joined;
  }

-- A task that is in no list, and joins a list of tasks that is linked well, becomes its last one,
-- and the list remains linked well.
pub link_task-IsRing :
    (tasks : Tasks) (ts : List ℕ) (task : ℕ)
    → IsRing tasks ts
    → IsFresh tasks ts task
    → IsRing (link_task tasks task) (ts ++ (task ∷ []))
unfolding link_task
link_task-IsRing tasks ts task ring fresh =
    rw (not_empty tasks ts ring) (joined-IsRing tasks ts task ring fresh)
