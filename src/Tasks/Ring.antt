-- ===== src/Tasks/Ring.antt =====
-- Lists of tasks that are linked well.
use kernel_nesemulator.Prelude.{
  ℕ, zero, suc, ◌-◌, ◌<◌, ◌≡◌, ◌≢◌, refl, ap, ◌∙◌, true, false, List, [], ◌∷◌, ◌++◌, length, get_or,
  get_or-append, ◌==◌, arith,
}
use kernel_nesemulator.Tasks.{Task, Tasks, with_task}

-- The addresses of the tasks in their order, as head, tail and links give them.
pub record IsRing (tasks : Tasks) (ts : List ℕ) : Type 0 where
  pub nonempty : 0 < length ts
  pub head : tasks.task_head ≡ get_or ts 0 0
  pub tail : tasks.task_tail ≡ get_or ts (length ts - 1) 0
  pub next : (i : ℕ) → suc i < length ts → (tasks.memory (get_or ts i 0)).next ≡ get_or ts (suc i) 0
  pub last : (tasks.memory (get_or ts (length ts - 1) 0)).next ≡ 0
  pub prev : (i : ℕ) → suc i < length ts → (tasks.memory (get_or ts (suc i) 0)).prev ≡ get_or ts i 0
  pub nonnull : (i : ℕ) → i < length ts → get_or ts i 0 ≢ 0
  pub distinct : (i j : ℕ) → i < length ts → j < length ts → get_or ts i 0 ≡ get_or ts j 0 → i ≡ j

-- A task that is in no list: at an address of its own, and not linked.
pub record IsFresh (tasks : Tasks) (ts : List ℕ) (task : ℕ) : Type 0 where
  pub nonnull : task ≢ 0
  pub apart : (i : ℕ) → i < length ts → get_or ts i 0 ≢ task
  pub unlinked : (tasks.memory task).next ≡ 0

pub get_or-append_left :
    (ts us : List ℕ) (i : ℕ) → i < length ts → get_or (ts ++ us) i 0 ≡ get_or ts i 0
get_or-append_left [] us i h = absurd (omega arith)
get_or-append_left (t ∷ ts) us zero h = refl
get_or-append_left (t ∷ ts) us (suc i) h = get_or-append_left ts us i (omega arith)

pub get_or-end : (ts : List ℕ) (task : ℕ) → get_or (ts ++ (task ∷ [])) (length ts) 0 ≡ task
get_or-end ts task =
    ap (λ i. get_or (ts ++ (task ∷ [])) i 0) (omega arith) ∙ get_or-append ts (task ∷ []) 0 0

pub elsewhere :
    (memory : ℕ → Task) (address i : ℕ) (task : Task)
    → i ≢ address
    → with_task memory address task i ≡ memory i
elsewhere memory address i task h = let test : (i == address) ≡ false = ground arith in rw test refl

pub here :
    (memory : ℕ → Task) (address : ℕ) (task : Task) → with_task memory address task address ≡ task
here memory address task = let test : (address == address) ≡ true = ground arith in rw test refl
