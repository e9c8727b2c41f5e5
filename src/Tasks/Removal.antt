-- ===== src/Tasks/Removal.antt =====
-- Removing two neighbours one behind the other.
use kernel_nesemulator.Prelude.{ℕ, ◌≡◌, ◌≢◌, refl, sym, ap, ◌∙◌, true, ◌!=◌, arith}
use kernel_nesemulator.Tasks.{Task, Tasks, set_next, list_remove}
use kernel_nesemulator.Tasks.Ring.{elsewhere, here}

-- Three neighbours somewhere in a list, at addresses of their own.
pub record AreNeighbours (tasks : Tasks) (a b c : ℕ) : Type 0 where
  pub next_a : (tasks.memory a).next ≡ b
  pub prev_b : (tasks.memory b).prev ≡ a
  pub next_b : (tasks.memory b).next ≡ c
  pub prev_c : (tasks.memory c).prev ≡ b
  pub nonnull_a : a ≢ 0
  pub nonnull_b : b ≢ 0
  pub apart_ab : a ≢ b
  pub apart_ac : a ≢ c
  pub apart_bc : b ≢ c

abbrev prev_update : Tasks → ℕ → ℕ → Task
prev_update tasks task =
    let prev = (tasks.memory task).prev in set_next tasks.memory prev (tasks.memory task).next

memory-list_remove :
    (tasks : Tasks) (task : ℕ)
    → (tasks.memory task).prev ≢ 0
    → (list_remove tasks task).memory ≡ prev_update tasks task
unfolding list_remove
memory-list_remove tasks task h =
    let linked : ((tasks.memory task).prev != 0) ≡ true = ground arith in rw linked refl

-- With neighbours a, b and c, task_list_remove of b and then of c leaves a with c as its next task.
pub list_remove-stale :
    (tasks : Tasks) (a b c : ℕ)
    → AreNeighbours tasks a b c
    → ((list_remove (list_remove tasks b) c).memory a).next ≡ c
list_remove-stale tasks a b c n =
    let first : (list_remove tasks b).memory ≡ set_next tasks.memory a c =
      memory-list_remove tasks b (λ e. n.nonnull_a (sym n.prev_b ∙ e))
      ∙ (λ t. set_next tasks.memory (n.prev_b t) (n.next_b t)) in
    let c_kept : ((list_remove tasks b).memory c).prev ≡ b =
      ap (λ (m : ℕ → Task). (m c).prev) first
      ∙ (ap (λ (t : Task). t.prev)
            (elsewhere tasks.memory a c (record (tasks.memory a) { next = c })
              (λ e. n.apart_ac (sym e)))
          ∙ n.prev_c) in
    let second = memory-list_remove (list_remove tasks b) c (λ e. n.nonnull_b (sym c_kept ∙ e)) in
    let once = (list_remove tasks b).memory in
    ap (λ (m : ℕ → Task). (m a).next) second
    ∙ (ap (λ p. (set_next once p (once c).next a).next) c_kept
        ∙ (ap (λ (t : Task). t.next)
              (elsewhere once b a (record (once b) { next = (once c).next }) n.apart_ab)
            ∙ (ap (λ (m : ℕ → Task). (m a).next) first
                ∙ ap (λ (t : Task). t.next)
                    (here tasks.memory a (record (tasks.memory a) { next = c })))))
