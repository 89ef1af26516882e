-- ===== src/Tasks/Schedule.antt =====
-- `schedule` of tasks.c, and its callers `task_yield` and `task_isr_tick`.
use catch_os.Base.{ℕ, zero, suc, Option, none, some, for_range}
use catch_os.Base.{Bool, true, false, not, ◌&&◌, ◌||◌, ◌==◌, if◌then◌else◌, null, update}
use catch_os.Base.{ℤ, pos, negsuc, ◌+ℤ◌, ◌-ℤ◌, ltb_ℤ, half}
use catch_os.Tasks.{Tasks, TaskStruct, max_concurrent_tasks, set_task}
use catch_os.Tasks.{task_ready, task_running, is_ready, is_running}
use catch_os.Tasks.{with_state, with_interruptible, with_dynamic_prio}

-- The local variables of the search for a task to run.
pub record Choice : Type 0 where
  pub c : ℤ
  pub next : ℕ

abbrev pub pick_step : Tasks → ℕ → Choice → Choice
pick_step s i ch =
    let t = s.task_at (s.tasks i) in
    if not (s.tasks i == null) && is_ready t.state && ltb_ℤ ch.c t.dynamic_prio
    then record { c = t.dynamic_prio; next = i }
    else ch

unfoldable pub pick : Tasks → Choice
pick s = for_range max_concurrent_tasks 0 (pick_step s) (record { c = negsuc 0; next = 0 })

-- `(t->dynamic_prio >> 1) + t->static_prio`
unfoldable pub refilled : TaskStruct → ℤ
refilled t = half t.dynamic_prio +ℤ t.static_prio

abbrev pub refill_step : ℕ → Tasks → Tasks
refill_step i s =
    let t = s.task_at (s.tasks i) in
    if not (s.tasks i == null) && is_ready t.state
    then set_task s (s.tasks i) (with_dynamic_prio t (refilled t))
    else s

-- The second loop of `schedule`.
unfoldable pub refill : Tasks → Tasks
refill s = for_range max_concurrent_tasks 0 refill_step s

-- The task in slot `next` is set to running.
abbrev pub set_running : Tasks → ℕ → Tasks
set_running s next = set_task s (s.tasks next) (with_state (s.task_at (s.tasks next)) task_running)

-- The endless loop of `schedule`, on fuel: the chosen slot, and the state with its task running.
unfoldable pub schedule_loop : ℕ → Tasks → Option (ℕ × Tasks)
schedule_loop zero s = none
schedule_loop (suc f) s =
    let rest = schedule_loop f (refill s) in
    let ch = pick s in if ltb_ℤ (pos 0) ch.c then some (ch.next, set_running s ch.next) else rest

-- `task_switch_to` up to `cpu_switch_to`, which exchanges the registers and the stack.
abbrev pub task_switch_to : Tasks → ℕ → ℕ → Tasks
task_switch_to s cpu next =
    if s.current cpu == next then s else record s { current = update s.current cpu next }

-- `schedule` up to the switch.
unfoldable pub schedule : ℕ → Tasks → ℕ → Option Tasks
schedule f s cpu =
    let cur = s.current cpu in
    let s1 = set_task s cur (with_interruptible (s.task_at cur) false) in
    elim (schedule_loop f s1) [
      | none ↦ none
      | some (next, s2) ↦ some (task_switch_to s2 cpu (s2.tasks next))
    ]

-- What `schedule` does when the task that called it runs again.
unfoldable pub schedule_resume : Tasks → ℕ → Tasks
schedule_resume s cpu =
    set_task s (s.current cpu) (with_interruptible (s.task_at (s.current cpu)) true)

abbrev pub to_ready : TaskStruct → TaskStruct
to_ready t = if is_running t.state then with_state t task_ready else t

unfoldable pub task_yield : ℕ → Tasks → ℕ → Option Tasks
task_yield f s cpu =
    let cur = s.current cpu in
    schedule f (set_task s cur (with_dynamic_prio (to_ready (s.task_at cur)) (pos 0))) cpu

-- The counters of a tick: `DEC_TIL_ZERO(t->sleep_avg)` decrements the field and drops its value.
unfoldable pub ticked : TaskStruct → TaskStruct
ticked t = record t { dynamic_prio = t.dynamic_prio -ℤ pos 1; sleep_avg = t.sleep_avg -ℤ pos 1 }

-- Whether a tick leaves the current task running.
abbrev pub may_not_interrupt : TaskStruct → Bool
may_not_interrupt t = not t.interruptible || ltb_ℤ (pos 0) t.dynamic_prio

unfoldable pub task_isr_tick : ℕ → Tasks → ℕ → Option Tasks
task_isr_tick f s cpu =
    let cur = s.current cpu in
    let t = ticked (s.task_at cur) in
    let out = schedule f (set_task s cur (to_ready (with_dynamic_prio t (pos 0)))) cpu in
    if may_not_interrupt t then some (set_task s cur t) else out
