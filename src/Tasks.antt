-- ===== src/Tasks.antt =====
-- The list of tasks and the choice of the next one: task/task.c. Memory gives the task at each
-- address. The page directories, the kernel heap and the switch of registers and address spaces are
-- left out.
pub mod Ring
pub mod Join
pub mod Schedule
pub mod Removal
mod Tests
use kernel_nesemulator.Prelude.{ℕ, zero, suc, ◌+◌, ◌-◌, ◌==◌, ◌!=◌, if◌then◌else◌, ltb, true, false}

-- struct task: its links, and what task_init sets.
pub record Task : Type 0 where
  pub page_directory : ℕ
  pub ip : ℕ
  pub ss : ℕ
  pub esp : ℕ
  pub process : ℕ
  pub next : ℕ
  pub prev : ℕ

pub record Tasks : Type 0 where
  pub memory : ℕ → Task
  pub current_task : ℕ
  pub task_head : ℕ
  pub task_tail : ℕ

abbrev pub with_task : (ℕ → Task) → ℕ → Task → ℕ → Task
with_task memory address task = λ i. if i == address then task else memory i

-- A task as task_init leaves it, with the directory that it got.
unfoldable pub task_init : ℕ → ℕ → Task
task_init page_directory process = record {
  page_directory = page_directory;
  ip = 0x400000;
  ss = 0x23;
  esp = 0x3FF000;
  process = process;
  next = 0;
  prev = 0;
}

abbrev pub set_next : (ℕ → Task) → ℕ → ℕ → ℕ → Task
set_next memory address next = with_task memory address (record (memory address) { next = next })

abbrev pub set_prev : (ℕ → Task) → ℕ → ℕ → ℕ → Task
set_prev memory address prev = with_task memory address (record (memory address) { prev = prev })

-- The end of task_new: a task that stands at an address is put into the list.
unfoldable pub link_task : Tasks → ℕ → Tasks
link_task tasks task =
    if tasks.task_head == 0
    then record tasks { task_head = task; task_tail = task }
    else record tasks {
      memory = set_prev (set_next tasks.memory tasks.task_tail task) task tasks.task_tail;
      task_tail = task;
    }

unfoldable pub get_next : Tasks → ℕ
get_next tasks =
    let next = (tasks.memory tasks.current_task).next in if next == 0 then tasks.task_head else next

-- The four `if`s of task_list_remove, in their order.
abbrev pub unlink_next : Tasks → ℕ → Tasks
unlink_next tasks task =
    let prev = (tasks.memory task).prev in
    let next = (tasks.memory task).next in
    record tasks { memory = if prev != 0 then set_next tasks.memory prev next else tasks.memory }

abbrev pub unlink_head : Tasks → ℕ → Tasks
unlink_head tasks task = record tasks {
  task_head = if task == tasks.task_head then (tasks.memory task).next else tasks.task_head;
}

abbrev pub unlink_tail : Tasks → ℕ → Tasks
unlink_tail tasks task = record tasks {
  task_tail = if task == tasks.task_tail then (tasks.memory task).prev else tasks.task_tail;
}

abbrev pub leave_current : Tasks → ℕ → Tasks
leave_current tasks task = record tasks {
  current_task = if task == tasks.current_task then get_next tasks else tasks.current_task;
}

unfoldable pub list_remove : Tasks → ℕ → Tasks
unfolding get_next
list_remove tasks task =
    leave_current (unlink_tail (unlink_head (unlink_next tasks task) task) task) task

-- The part of task_switch that stays in the kernel's state.
unfoldable pub switch : Tasks → ℕ → Tasks
switch tasks task = record tasks { current_task = task }

-- `count` switches to the next task.
unfoldable pub rounds : ℕ → Tasks → Tasks
unfolding switch get_next
rounds zero tasks = tasks
rounds (suc count) tasks = let before = rounds count tasks in switch before (get_next before)
