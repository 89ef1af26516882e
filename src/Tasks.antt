-- ===== src/Tasks.antt =====
-- kernel/tasks/tasks.c and include/tasks.h: the tasks, the list of tasks and the current task of
-- each CPU. Task structures are objects in a store, found by their address, since the list, the
-- CPUs, the parents and the semaphores all point to them. Each section under `lock_tasklist` is
-- one step here; what the lock guarantees is the matter of Sync.Rwlock.
pub mod Create
pub mod Schedule
pub mod Count
pub mod Slots
pub mod Lifecycle
pub mod Pick
pub mod Bound
pub mod Fair
pub mod Semaphore
use catch_os.Base.{ℕ, zero, suc, ◌+◌, ◌-◌, ◌%◌, ◌^◌, Bool, true, false, ltb, ◌==◌, if◌then◌else◌}
use catch_os.Base.{null, update, ℤ, pos, negsuc, ◌+ℤ◌, ◌-ℤ◌, List, [], ◌∷◌}

-- MAX_CONCURRENT_TASKS
abbrev pub max_concurrent_tasks : ℕ
max_concurrent_tasks = 64

pub data TaskState : Type 0 where
  task_ready task_waiting task_running task_terminated : TaskState

pub data JoinState : Type 0 where
  join_joinable join_detached : JoinState

-- `struct task_struct`; of the two saved register sets only what the C code reads and writes.
pub record TaskStruct : Type 0 where
  pub esp : ℕ
  pub eip : ℕ
  pub pid : ℕ
  pub state : TaskState
  pub static_prio : ℤ
  pub dynamic_prio : ℤ
  pub stack_bottom : ℕ
  pub stack_size : ℕ
  pub interruptible : Bool
  pub join_state : JoinState
  pub sleep_avg : ℤ

-- `task_at` is the store of task structures, `word` the words of the tasks' stacks, and `freed`
-- lists what `mmu_munmap` was called with, the latest first.
pub record Tasks : Type 0 where
  pub task_at : ℕ → TaskStruct
  pub word : ℕ → ℕ
  pub freed : List ℕ
  pub tasks : ℕ → ℕ
  pub nr_tasks : ℤ
  pub current : ℕ → ℕ

abbrev pub is_ready : TaskState → Bool
is_ready task_ready = true
is_ready _ = false

abbrev pub is_running : TaskState → Bool
is_running task_running = true
is_running _ = false

abbrev pub is_terminated : TaskState → Bool
is_terminated task_terminated = true
is_terminated _ = false

abbrev pub is_detached : JoinState → Bool
is_detached join_detached = true
is_detached _ = false

-- `*t = v`
abbrev pub set_task : Tasks → ℕ → TaskStruct → Tasks
set_task s t v = record s { task_at = update s.task_at t v }

abbrev pub with_state : TaskStruct → TaskState → TaskStruct
with_state t st = record t { state = st }

abbrev pub with_dynamic_prio : TaskStruct → ℤ → TaskStruct
with_dynamic_prio t p = record t { dynamic_prio = p }

abbrev pub with_interruptible : TaskStruct → Bool → TaskStruct
with_interruptible t b = record t { interruptible = b }

-- `smp_get_cpu_id()` reads the CPU's own number, which is an argument here.
abbrev pub task_get_current : Tasks → ℕ → ℕ
task_get_current s cpu = s.current cpu

abbrev pub task_set_current : Tasks → ℕ → ℕ → Tasks
task_set_current s cpu t = record s { current = update s.current cpu t }

abbrev pub task_getpid : Tasks → ℕ → ℕ
task_getpid s cpu = (s.task_at (s.current cpu)).pid

abbrev pub task_get_nr : Tasks → ℤ
task_get_nr s = s.nr_tasks

unfoldable pub task_cleanup : Tasks → ℕ → Tasks
task_cleanup s t = record s { freed = t ∷ (s.task_at t).stack_bottom ∷ s.freed }

unfoldable pub task_detach : Tasks → ℕ → Tasks
task_detach s t = set_task s t (record (s.task_at t) { join_state = join_detached })
