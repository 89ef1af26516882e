-- ===== src/Tasks/Create.antt =====
-- `task_new` of tasks.c, and what runs when a task's function returns.
use catch_os.Base.{ℕ, zero, suc, ◌+◌, ◌-◌, ◌%◌, ◌^◌, bit_or, Option, none, some}
use catch_os.Base.{Bool, true, false, ◌==◌, if◌then◌else◌, null, update, ℤ, pos, negsuc, ◌+ℤ◌, ◌-ℤ◌}
use catch_os.Tasks.{Tasks, TaskStruct, max_concurrent_tasks, set_task}
use catch_os.Tasks.{task_ready, task_terminated, join_joinable, is_running, is_detached}
use catch_os.Tasks.{with_state, with_interruptible, task_cleanup}

-- The addresses of functions that `task_new` stores, from the linker.
pub record CodeAddrs : Type 0 where
  pub task_startup : ℕ
  pub on_current_task_return_cb : ℕ

-- What `task_new` gets from outside: its arguments, the results of its two calls of `mmu_mmap`,
-- and the flags register.
pub record NewArgs : Type 0 where
  pub fp : ℕ
  pub arg : ℕ
  pub stack_size : ℕ
  pub priority : ℤ
  pub task_mem : ℕ
  pub stack_mem : ℕ
  pub flags : ℕ

-- The first free slot from `i` on, with `n` slots left.
unfoldable pub find_slot : (ℕ → ℕ) → ℕ → ℕ → Option ℕ
find_slot tasks zero i = none
find_slot tasks (suc n) i =
    let rest = find_slot tasks n (i + 1) in if tasks i == null then some i else rest

-- `p - k` on 32-bit addresses
abbrev pub down : ℕ → ℕ → ℕ
down p k = (p + 2 ^ 32 - k) % 2 ^ 32

-- The top of the new stack, where `esp` starts.
abbrev pub stack_top : NewArgs → ℕ
stack_top a = (a.stack_mem + a.stack_size) % 2 ^ 32

-- `esp` after the three words and the saved registers: `sizeof(struct cpu_state)` is 32.
abbrev pub initial_esp : NewArgs → ℕ
initial_esp a = down (down (down (stack_top a) 4) 4) (32 + 4)

abbrev pub stack_words : CodeAddrs → NewArgs → (ℕ → ℕ) → ℕ → ℕ
stack_words code a w =
    let w1 = update w (stack_top a) a.arg in
    let w2 = update w1 (down (stack_top a) 4) a.fp in
    let w3 = update w2 (down (down (stack_top a) 4) 4) code.on_current_task_return_cb in
    update w3 (initial_esp a) (bit_or a.flags (2 ^ 9))

abbrev pub new_struct : CodeAddrs → NewArgs → ℕ → TaskStruct
new_struct code a pid = record {
  esp = initial_esp a;
  eip = code.task_startup;
  pid = pid;
  state = task_ready;
  static_prio = a.priority;
  dynamic_prio = pos 0;
  stack_bottom = a.stack_mem;
  stack_size = 0;
  interruptible = true;
  join_state = join_joinable;
  sleep_avg = pos 0;
}

-- The new task's structure, its stack and its slot.
abbrev pub install : CodeAddrs → Tasks → NewArgs → ℕ → Tasks
install code s a pid = record s {
  task_at = update s.task_at a.task_mem (new_struct code a pid);
  word = stack_words code a s.word;
  tasks = update s.tasks pid a.task_mem;
  nr_tasks = s.nr_tasks +ℤ pos 1;
}

abbrev pub is_full : ℤ → Bool
is_full (pos n) = n == max_concurrent_tasks
is_full (negsuc n) = false

-- `task_new`: the new task's address, null when there is no room.
unfoldable pub task_new : CodeAddrs → Tasks → NewArgs → ℕ × Tasks
task_new code s a =
    let slot = find_slot s.tasks max_concurrent_tasks 0 in
    if is_full s.nr_tasks
    then (null, s)
    else elim slot [ none ↦ (null, s) | some pid ↦ (a.task_mem, install code s a pid) ]

abbrev on_return_state : TaskStruct → TaskStruct
on_return_state t = if is_running t.state then with_state t task_terminated else t

-- `on_current_task_return_cb` up to its `task_yield()`: the task leaves the list and ends; a
-- detached task frees itself.
unfoldable pub task_return : Tasks → ℕ → Tasks
unfolding task_cleanup
task_return s cpu =
    let t = s.current cpu in
    let v = with_interruptible (s.task_at t) false in
    let s1 = record s {
      task_at = update s.task_at t (on_return_state v);
      tasks = update s.tasks v.pid null;
      nr_tasks = s.nr_tasks -ℤ pos 1;
    } in
    if is_detached v.join_state then task_cleanup s1 t else s1

-- One look of `task_join` at the task: freed when it has ended, else it waits and looks again.
unfoldable pub task_join_step : Tasks → ℕ → Bool × Tasks
unfolding task_cleanup
task_join_step s t = elim (s.task_at t).state [
  | task_terminated ↦ (true, task_cleanup s t)
  | _ ↦ (false, set_task s t (record (s.task_at t) { dynamic_prio = pos 0 }))
]
