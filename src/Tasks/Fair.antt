-- ===== src/Tasks/Fair.antt =====
-- That the endless loop of `schedule` ends, and what it chooses.
use catch_os.Base.{ℕ, suc, ◌+◌, ◌<◌, ◌≡◌, ◌≢◌, refl, sym, ap, ◌∙◌, arith, ltb, ◌==◌, if◌then◌else◌}
use catch_os.Base.{true, false, null, some, inl, inr, Bool-cases, ◌&&◌}
use catch_os.Base.{pos, ◌+ℤ◌, ltb_ℤ, pos_part, neg_part, for_range_inv, update_self, lt→ltb, ltb→lt}
use catch_os.Tasks.{Tasks, TaskStruct, max_concurrent_tasks, set_task, with_dynamic_prio}
use catch_os.Tasks.{task_running, with_state, with_interruptible}
use catch_os.Tasks.Schedule.{
  pick, refilled, refill_step, refill, schedule_loop, schedule, set_running,
}
use catch_os.Tasks.Schedule.{task_switch_to}
use catch_os.Tasks.Pick.{pick-Best, is_candidate, prio_of}
use catch_os.Tasks.Slots.{IsListed}

-- No task stands in two slots.
abbrev pub IsDistinct : Tasks → Type 0
IsDistinct s =
    (i j : ℕ)
    → i < max_concurrent_tasks
    → j < max_concurrent_tasks
    → s.tasks i ≢ null
    → s.tasks i ≡ s.tasks j
    → i ≡ j

pub IsListed-IsDistinct : (s : Tasks) → IsListed s → IsDistinct s
IsListed-IsDistinct s v i j hi hj ne e =
    sym (v.pids i hi ne) ∙ ap (λ p. (s.task_at p).pid) e ∙ v.pids j hj (λ z. ne (e ∙ z))

-- What the refill leaves of the task in each slot when it has passed the slots below `i`.
record Refilled (s : Tasks) (i : ℕ) (t : Tasks) : Type 0 where
  same_tasks : (j : ℕ) → t.tasks j ≡ s.tasks j
  same_current : t.current ≡ s.current
  slots :
      (j : ℕ)
      → j < max_concurrent_tasks
      → s.tasks j ≢ null
      → t.task_at (s.tasks j) ≡ (
          if ltb j i && is_candidate s j
          then with_dynamic_prio (s.task_at (s.tasks j)) (refilled (s.task_at (s.tasks j)))
          else s.task_at (s.tasks j))

Refilled-step :
    (s t : Tasks) (i : ℕ)
    → i < max_concurrent_tasks
    → IsDistinct s
    → Refilled s i t
    → Refilled s (i + 1) (refill_step i t)
Refilled-step s t i lt d r = record {
  same_tasks = λ j. ground (arith, r.same_tasks j);
  same_current = ground (arith, r.same_current);
  slots = λ j lj ne. elim (Bool-cases (j == i)) [
    | inl e ↦
        let e' : j ≡ i = ground arith in
        rw e' (ground (arith, r.same_tasks i, r.slots i lt (rw e' at ne)))
    | inr e ↦ ground (arith, r.same_tasks i, r.slots j lj ne, d j i lj lt ne)
  ];
}

refill-Refilled : (s : Tasks) → IsDistinct s → Refilled s max_concurrent_tasks (refill s)
unfolding refill
refill-Refilled s d =
    for_range_inv (Refilled s) refill_step max_concurrent_tasks
      (λ i t lt r. Refilled-step s t i lt d r) max_concurrent_tasks 0 s refl
      (record { same_tasks = λ j. refl; same_current = refl; slots = λ j lj ne. ground arith })

-- The task in slot `k` is ready, with a counter that is not negative and a positive priority.
pub record IsRunnable (s : Tasks) (k : ℕ) : Type 0 where
  pub slot : k < max_concurrent_tasks
  pub ready : is_candidate s k ≡ true
  pub counter : neg_part (prio_of s k) ≡ 0
  pub prio : 0 < pos_part (s.task_at (s.tasks k)).static_prio

refilled-positive :
    (t : TaskStruct)
    → neg_part t.dynamic_prio ≡ 0
    → 0 < pos_part t.static_prio
    → (0 < pos_part (refilled t)) × (neg_part (refilled t) ≡ 0)
unfolding refilled ◌+ℤ◌
refilled-positive t h k = ground arith

module _ (s : Tasks) (d : IsDistinct s) where
  refill-at :
      (k : ℕ)
      → k < max_concurrent_tasks
      → is_candidate s k ≡ true
      → (refill s).task_at ((refill s).tasks k)
        ≡ with_dynamic_prio (s.task_at (s.tasks k)) (refilled (s.task_at (s.tasks k)))
  refill-at k lt r =
      let f = refill-Refilled s d in rw (f.same_tasks k) (ground (arith, f.slots k lt))

  refill-candidate :
      (k : ℕ)
      → k < max_concurrent_tasks
      → is_candidate (refill s) k ≡ true
      → is_candidate s k ≡ true
  refill-candidate k lt r =
      let f = refill-Refilled s d in ground (arith, f.same_tasks k, f.slots k lt)

  -- After a refill a runnable task has a positive counter, so the search succeeds.
  refill-pick : (k : ℕ) → IsRunnable s k → ltb_ℤ (pos 0) (pick (refill s)).c ≡ true
  refill-pick k r =
      let f = refill-Refilled s d in
      let at_k = refill-at k r.slot r.ready in
      let ready : is_candidate (refill s) k ≡ true =
        ground (arith, at_k, f.same_tasks k, r.ready) in
      let best = (pick-Best (refill s)).highest k r.slot ready in
      let e : prio_of (refill s) k ≡ refilled (s.task_at (s.tasks k)) =
        ap (λ (t : TaskStruct). t.dynamic_prio) at_k in
      let best' = rw e at best in
      lt→ltb _ _ (omega (arith, best', refilled-positive (s.task_at (s.tasks k)) r.counter r.prio))

-- What a round of `schedule` that finds a task returns: a ready task's slot, whose task runs.
pub record Chosen (s : Tasks) (next : ℕ) (t : Tasks) : Type 0 where
  pub slot : next < max_concurrent_tasks
  pub ready : is_candidate s next ≡ true
  pub same_slot : t.tasks next ≡ s.tasks next
  pub runs : (t.task_at (t.tasks next)).state ≡ task_running
  pub same_current : t.current ≡ s.current

found-Chosen :
    (s : Tasks)
    → ltb_ℤ (pos 0) (pick s).c ≡ true
    → Chosen s (pick s).next (set_running s (pick s).next)
found-Chosen s e =
    let b = (pick-Best s).chosen (omega (arith, ltb→lt _ _ e)) in
    record {
      slot = b.0;
      ready = b.1;
      same_slot = refl;
      runs =
          rw
            (update_self s.task_at (s.tasks (pick s).next)
              (with_state (s.task_at (s.tasks (pick s).next)) task_running))
            refl;
      same_current = refl;
    }

-- The loop of `schedule` ends in its second round at the latest if some task is runnable.
schedule_loop-Chosen :
    (f : ℕ) (s : Tasks) (k : ℕ)
    → IsDistinct s
    → IsRunnable s k
    → (next : ℕ) × (t : Tasks) × (schedule_loop (suc (suc f)) s ≡ some (next, t)) × Chosen s next t
unfolding schedule_loop
schedule_loop-Chosen f s k d r = elim (Bool-cases (ltb_ℤ (pos 0) (pick s).c)) [
  | inl e ↦ ((pick s).next, set_running s (pick s).next, rw (e, schedule_loop), found-Chosen s e)
  | inr e ↦
      let e2 = refill-pick s d k r in
      let c = found-Chosen (refill s) e2 in
      let w = refill-Refilled s d in
      (
        (pick (refill s)).next,
        set_running (refill s) (pick (refill s)).next,
        rw (e, e2, schedule_loop),
        record {
          slot = c.slot;
          ready = refill-candidate s d _ c.slot c.ready;
          same_slot = c.same_slot ∙ w.same_tasks _;
          runs = c.runs;
          same_current = c.same_current ∙ w.same_current;
        },
      )
]

-- What `schedule` leaves: the CPU runs a task of the list that was ready before.
pub record Scheduled (s : Tasks) (cpu : ℕ) (t : Tasks) : Type 0 where
  pub next : ℕ
  pub slot : next < max_concurrent_tasks
  pub was_ready : is_candidate s next ≡ true
  pub now_current : t.current cpu ≡ s.tasks next
  pub runs : (t.task_at (t.current cpu)).state ≡ task_running

switch_current : (t : Tasks) (cpu p : ℕ) → (task_switch_to t cpu p).current cpu ≡ p
switch_current t cpu p = ground arith

switch_task_at : (t : Tasks) (cpu p : ℕ) → (task_switch_to t cpu p).task_at ≡ t.task_at
switch_task_at t cpu p = ground arith

abbrev masked : Tasks → ℕ → Tasks
masked s p = set_task s p (with_interruptible (s.task_at p) false)

masked-candidate : (s : Tasks) (p j : ℕ) → is_candidate (masked s p) j ≡ is_candidate s j
masked-candidate s p j = elim (Bool-cases (s.tasks j == p)) [
  | inl e ↦ let e' : s.tasks j ≡ p = ground arith in rw e' (ground arith)
  | inr e ↦ rw e refl
]

masked-IsRunnable : (s : Tasks) (p k : ℕ) → IsRunnable s k → IsRunnable (masked s p) k
masked-IsRunnable s p k r = record {
  slot = r.slot;
  ready = masked-candidate s p k ∙ r.ready;
  counter = ground (arith, r.counter);
  prio = ground (arith, r.prio);
}

-- When the list is in order and the task of some slot is ready, with a counter that is not
-- negative and a positive priority, `schedule` ends after two rounds at most, and leaves the CPU
-- running a task of the list that was ready.
pub schedule-Scheduled :
    (f : ℕ) (s : Tasks) (cpu k : ℕ)
    → IsListed s
    → IsRunnable s k
    → (t : Tasks) × (schedule (suc (suc f)) s cpu ≡ some t) × Scheduled s cpu t
unfolding schedule
schedule-Scheduled f s cpu k v r =
    let s1 : Tasks =
      set_task s (s.current cpu) (with_interruptible (s.task_at (s.current cpu)) false) in
    let (next, t, e, c) =
      schedule_loop-Chosen f s1 k (IsListed-IsDistinct s v)
        (masked-IsRunnable s (s.current cpu) k r) in
    (
      task_switch_to t cpu (t.tasks next),
      rw (e, schedule),
      record {
        next = next;
        slot = c.slot;
        was_ready = sym (masked-candidate s (s.current cpu) next) ∙ c.ready;
        now_current = switch_current t cpu (t.tasks next) ∙ c.same_slot;
        runs = rw (switch_current t cpu (t.tasks next), switch_task_at t cpu (t.tasks next)) c.runs;
      },
    )
