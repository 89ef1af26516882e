-- ===== src/Tasks/Bound.antt =====
-- The bound on a task's counter, kept by every operation that writes one.
use catch_os.Base.{ℕ, zero, suc, ◌*◌, ◌≤◌, ◌≡◌, refl, arith, ◌==◌}
use catch_os.Base.{false, Option, none, some, OnSome, inl, inr, Bool-cases}
use catch_os.Base.{pos, ◌+ℤ◌, ◌-ℤ◌, ltb_ℤ, pos_part, neg_part, for_range_inv}
use catch_os.Tasks.{Tasks, TaskStruct, max_concurrent_tasks, set_task, with_dynamic_prio}
use catch_os.Tasks.{with_interruptible}
use catch_os.Tasks.Schedule.{pick, refilled, refill_step, refill, schedule_loop, schedule}
use catch_os.Tasks.Schedule.{
  task_yield, task_isr_tick, ticked, to_ready, task_switch_to, may_not_interrupt,
}
use catch_os.Tasks.Create.{CodeAddrs, NewArgs, task_new}
use catch_os.Tasks.Lifecycle.{task_new-cases}
use catch_os.Tasks.Pick.{is_candidate}

-- A task's counter is at most twice its priority, which is not negative.
abbrev pub IsBoundedTask : TaskStruct → Type 0
IsBoundedTask t =
    (pos_part t.dynamic_prio ≤ 2 * pos_part t.static_prio) × (neg_part t.static_prio ≡ 0)

abbrev pub IsBounded : Tasks → Type 0
IsBounded s = (p : ℕ) → IsBoundedTask (s.task_at p)

refilled-IsBoundedTask :
    (t : TaskStruct) → IsBoundedTask t → IsBoundedTask (with_dynamic_prio t (refilled t))
unfolding refilled ◌+ℤ◌
refilled-IsBoundedTask t h = ground arith

set_task-IsBounded :
    (s : Tasks) (t : ℕ) (v : TaskStruct)
    → IsBounded s
    → IsBoundedTask v
    → IsBounded (set_task s t v)
set_task-IsBounded s t v h hv p = elim (Bool-cases (p == t)) [
  | inl e ↦ rw e hv
  | inr e ↦ rw e (h p)
]

refill_step-IsBounded : (i : ℕ) (s : Tasks) → IsBounded s → IsBounded (refill_step i s)
refill_step-IsBounded i s h = elim (Bool-cases (is_candidate s i)) [
  | inl e ↦ rw e (set_task-IsBounded s (s.tasks i) _ h (refilled-IsBoundedTask _ (h (s.tasks i))))
  | inr e ↦ rw e h
]

-- The refill of the counters keeps every counter within twice its task's priority.
refill-IsBounded : (s : Tasks) → IsBounded s → IsBounded (refill s)
unfolding refill
refill-IsBounded s h =
    for_range_inv (λ i t. IsBounded t) refill_step max_concurrent_tasks
      (λ i t lt b. refill_step-IsBounded i t b) max_concurrent_tasks 0 s refl h

schedule_loop-IsBounded :
    (f : ℕ) (s : Tasks)
    → IsBounded s
    → OnSome (λ (r : ℕ × Tasks). IsBounded r.1) (schedule_loop f s)
unfolding schedule_loop
schedule_loop-IsBounded zero s h = tt
schedule_loop-IsBounded (suc f) s h = elim (Bool-cases (ltb_ℤ (pos 0) (pick s).c)) [
  | inl g ↦ rw g (set_task-IsBounded s _ _ h (h _))
  | inr g ↦ rw g (schedule_loop-IsBounded f (refill s) (refill-IsBounded s h))
]

schedule-IsBounded :
    (f : ℕ) (s : Tasks) (cpu : ℕ) → IsBounded s → OnSome IsBounded (schedule f s cpu)
unfolding schedule
schedule-IsBounded f s cpu h = go _ (
    schedule_loop-IsBounded f _ (
      set_task-IsBounded s (s.current cpu) (with_interruptible (s.task_at (s.current cpu)) false) h
        (h (s.current cpu))))
  where
    switched : (t : Tasks) (next : ℕ) → IsBounded t → IsBounded (task_switch_to t cpu next)
    switched t next b p = elim (Bool-cases (t.current cpu == next)) [
      | inl e ↦ rw e (b p)
      | inr e ↦ rw e (b p)
    ]

    go :
        (o : Option (ℕ × Tasks))
        → OnSome (λ (r : ℕ × Tasks). IsBounded r.1) o
        → OnSome IsBounded
            (elim o [ none ↦ none | some (next, t) ↦ some (task_switch_to t cpu (t.tasks next)) ])
    go none h = tt
    go (some (next, t)) h = switched t (t.tasks next) h

to_ready-IsBoundedTask : (t : TaskStruct) → IsBoundedTask t → IsBoundedTask (to_ready t)
to_ready-IsBoundedTask t h = ground arith

ticked-IsBoundedTask : (t : TaskStruct) → IsBoundedTask t → IsBoundedTask (ticked t)
unfolding ticked ◌-ℤ◌
ticked-IsBoundedTask t h = ground arith

-- `task_yield` keeps every counter within twice its task's priority.
pub task_yield-IsBounded :
    (f : ℕ) (s : Tasks) (cpu : ℕ) → IsBounded s → OnSome IsBounded (task_yield f s cpu)
unfolding task_yield
task_yield-IsBounded f s cpu h =
    let b = to_ready-IsBoundedTask _ (h (s.current cpu)) in
    schedule-IsBounded f _ cpu (set_task-IsBounded s (s.current cpu) _ h (omega arith, b.1))

-- A timer tick keeps every counter within twice its task's priority.
pub task_isr_tick-IsBounded :
    (f : ℕ) (s : Tasks) (cpu : ℕ) → IsBounded s → OnSome IsBounded (task_isr_tick f s cpu)
unfolding task_isr_tick
task_isr_tick-IsBounded f s cpu h =
    elim (Bool-cases (may_not_interrupt (ticked (s.task_at (s.current cpu))))) [
      | inl e ↦
          rw e
            (set_task-IsBounded s (s.current cpu) _ h (ticked-IsBoundedTask _ (h (s.current cpu))))
      | inr e ↦ rw e (
          let b = ticked-IsBoundedTask _ (h (s.current cpu)) in
          schedule-IsBounded f _ cpu (
            set_task-IsBounded s (s.current cpu) _ h (to_ready-IsBoundedTask _ (omega arith, b.1))))
    ]

-- `task_new` with a priority that is not negative keeps every counter within twice its task's
-- priority.
pub task_new-IsBounded :
    (code : CodeAddrs) (s : Tasks) (a : NewArgs)
    → neg_part a.priority ≡ 0
    → IsBounded s
    → IsBounded (task_new code s a).1
task_new-IsBounded code s a nonneg h = elim (task_new-cases code s a) [
  | inl e ↦ rw e h
  | inr (pid, e) ↦ rw e (set_task-IsBounded s a.task_mem _ h (omega arith, nonneg))
]
