-- ===== src/Tasks/Lifecycle.antt =====
-- The end of a task: what leaves the list, what is freed, and when `task_join` returns.
use catch_os.Base.{ℕ, ◌+◌, ◌≤◌, ◌<◌, ◌≡◌, ◌≢◌, refl, arith, ◌==◌, if◌then◌else◌}
use catch_os.Base.{true, null, update, Option, none, some, inl, inr, Bool-cases, pos, ◌-ℤ◌}
use catch_os.Base.{◌∷◌, ap, ◌⊎◌, ◌^◌, bit_or}
use catch_os.Tasks.{Tasks, max_concurrent_tasks}
use catch_os.Tasks.{task_terminated, task_running, join_joinable, is_detached}
use catch_os.Tasks.Create.{CodeAddrs, NewArgs, task_new, task_return, task_join_step}
use catch_os.Tasks.Create.{initial_esp, install, is_full, find_slot, new_struct}
use catch_os.Base.{update_self}
use catch_os.Tasks.Count.{count_slots, count_slots-update}
use catch_os.Tasks.Slots.{IsListed}

-- The task that CPU `cpu` runs stands in the slot of its pid.
pub record IsRunning (s : Tasks) (cpu : ℕ) : Type 0 where
  pub there : s.current cpu ≢ null
  pub slot : (s.task_at (s.current cpu)).pid < max_concurrent_tasks
  pub listed : s.tasks (s.task_at (s.current cpu)).pid ≡ s.current cpu
  pub running : (s.task_at (s.current cpu)).state ≡ task_running

-- What a task's end leaves.
pub record Ended (s : Tasks) (cpu : ℕ) (t : Tasks) : Type 0 where
  pub in_order : IsListed t
  pub terminated : (t.task_at (s.current cpu)).state ≡ task_terminated
  pub slots :
      (j : ℕ) → t.tasks j ≡ (if j == (s.task_at (s.current cpu)).pid then null else s.tasks j)
  pub others : (p : ℕ) → p ≢ s.current cpu → t.task_at p ≡ s.task_at p
  pub released : t.freed ≡ (
      if is_detached (s.task_at (s.current cpu)).join_state
      then s.current cpu ∷ (s.task_at (s.current cpu)).stack_bottom ∷ s.freed
      else s.freed)

module _ (s : Tasks) (cpu : ℕ) (v : IsListed s) (r : IsRunning s cpu) where
  task_return-counted :
      s.nr_tasks -ℤ pos 1
      ≡ pos (count_slots (update s.tasks (s.task_at (s.current cpu)).pid null) max_concurrent_tasks)
  unfolding ◌-ℤ◌
  task_return-counted = ground (
    arith,
    v.counted,
    count_slots-update s.tasks (s.task_at (s.current cpu)).pid null max_concurrent_tasks r.slot,
    r.there,
    r.listed,
  )

  -- When the list is in order and the running task stands in the slot of its pid: a task that
  -- returns leaves the list, which stays in order, is terminated, and its memory is freed at once
  -- exactly when it is detached.
  pub task_return-Ended : Ended s cpu (task_return s cpu)
  unfolding task_return
  task_return-Ended = record {
    in_order = record {
      counted = let e = task_return-counted in ground (arith, e);
      pids = λ i lt ne. ground (arith, v.pids i lt);
    };
    terminated = ground (arith, r.running);
    slots = λ j. ground arith;
    others = λ p ne. ground arith;
    released = ground arith;
  }

-- When the list is in order, the running task stands in the slot of its pid and is joinable: once
-- it has returned, `task_join` does not wait and frees its stack and its structure, each once.
pub task_join-return :
    (s : Tasks) (cpu : ℕ)
    → IsListed s
    → IsRunning s cpu
    → (s.task_at (s.current cpu)).join_state ≡ join_joinable
    → let (done, t) = task_join_step (task_return s cpu) (s.current cpu) in
      (done ≡ true) × (t.freed ≡ s.current cpu ∷ (s.task_at (s.current cpu)).stack_bottom ∷ s.freed)
unfolding task_join_step task_return
task_join-return s cpu v r j = ground (arith, r.running)

-- The stack map of a new task: the first word at the very end of the stack's memory, the saved
-- flags with interrupts enabled where `esp` points, and between them the return address and the
-- function below the argument.
pub record StackMap (code : CodeAddrs) (a : NewArgs) (w : ℕ → ℕ) (esp : ℕ) : Type 0 where
  pub argument : w (esp + 44) ≡ a.arg
  pub argument_at : esp + 44 ≡ a.stack_mem + a.stack_size
  pub function : w (esp + 40) ≡ a.fp
  pub return_address : w (esp + 36) ≡ code.on_current_task_return_cb
  pub flags : w esp ≡ bit_or a.flags (2 ^ 9)

install-StackMap :
    (code : CodeAddrs) (s : Tasks) (a : NewArgs) (pid : ℕ)
    → 44 ≤ a.stack_size
    → a.stack_mem + a.stack_size < 2 ^ 32
    → StackMap code a (install code s a pid).word (initial_esp a)
install-StackMap code s a pid large fits = record {
  argument = ground arith;
  argument_at = omega arith;
  function = ground arith;
  return_address = ground arith;
  flags = ground arith;
}

pub task_new-cases :
    (code : CodeAddrs) (s : Tasks) (a : NewArgs)
    → (task_new code s a ≡ (null, s))
      ⊎ ((pid : ℕ) × (task_new code s a ≡ (a.task_mem, install code s a pid)))
unfolding task_new
task_new-cases code s a = elim (Bool-cases (is_full s.nr_tasks)) [
  | inl e ↦ inl (rw e)
  | inr e ↦ rw e (go (find_slot s.tasks max_concurrent_tasks 0))
]
  where
    go :
        (o : Option ℕ)
        → let r : ℕ × Tasks = (elim o [
          | none ↦ (null, s)
          | some pid ↦ (a.task_mem, install code s a pid)
        ]) in
          (r ≡ (null, s)) ⊎ ((pid : ℕ) × (r ≡ (a.task_mem, install code s a pid)))
    go none = inl refl
    go (some pid) = inr (pid, refl)

-- When the stack has at least 44 bytes and ends below 2 ^ 32, a task that `task_new` creates
-- starts with the words that the first switch to it expects: the saved flags with interrupts
-- enabled where `esp` points, above them the function, the return address and the argument. The
-- argument stands in the word at `stack_bottom + stack_size`, the first word past the memory of
-- the stack.
pub task_new-StackMap :
    (code : CodeAddrs) (s : Tasks) (a : NewArgs)
    → 44 ≤ a.stack_size
    → a.stack_mem + a.stack_size < 2 ^ 32
    → (task_new code s a).0 ≢ null
    → let t = (task_new code s a).1 in
      StackMap code a t.word (t.task_at a.task_mem).esp
      × ((t.task_at a.task_mem).stack_bottom ≡ a.stack_mem)
task_new-StackMap code s a large fits ne = elim (task_new-cases code s a) [
  | inl e ↦ absurd (ne (ap (λ (r : ℕ × Tasks). r.0) e))
  | inr (pid, e) ↦
      rw (e, update_self s.task_at a.task_mem (new_struct code a pid))
        (install-StackMap code s a pid large fits, refl)
]
