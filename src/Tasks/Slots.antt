-- ===== src/Tasks/Slots.antt =====
-- The task list: `_nr_tasks` counts its tasks, and a task's pid is its slot.
use catch_os.Base.{ℕ, ◌<◌, ◌≡◌, ◌≢◌, refl, arith, ◌==◌, if◌then◌else◌}
use catch_os.Base.{null, Option, none, some, inl, inr, Bool-cases, pos, ◌+ℤ◌, ◌∙◌, ap}
use catch_os.Tasks.{Tasks, max_concurrent_tasks, task_ready}
use catch_os.Tasks.Create.{CodeAddrs, NewArgs, install, task_new}
use catch_os.Tasks.Count.{count_slots, count_slots-update, count_slots-lt}
use catch_os.Tasks.Count.{FreeSlot, find_slot-FreeSlot}

pub record IsListed (s : Tasks) : Type 0 where
  pub counted : s.nr_tasks ≡ pos (count_slots s.tasks max_concurrent_tasks)
  pub pids : (i : ℕ) → i < max_concurrent_tasks → s.tasks i ≢ null → (s.task_at (s.tasks i)).pid ≡ i

-- What the allocator gives for a task structure: an address that no listed task has.
abbrev pub IsFresh : Tasks → ℕ → Type 0
IsFresh s p = (p ≢ null) × ((i : ℕ) → i < max_concurrent_tasks → s.tasks i ≢ p)

module _ (code : CodeAddrs) (s : Tasks) (a : NewArgs) (fresh : IsFresh s a.task_mem)
    (v : IsListed s) where
  install-IsListed :
      (pid : ℕ) → pid < max_concurrent_tasks → s.tasks pid ≡ null → IsListed (install code s a pid)
  unfolding ◌+ℤ◌
  install-IsListed pid lt e = record {
    counted = ground (
      arith,
      v.counted,
      count_slots-update s.tasks pid a.task_mem max_concurrent_tasks lt,
      fresh.0,
    );
    pids = λ i li ne. ground (arith, fresh.1 i li, v.pids i li);
  }

  -- What `task_new` returns.
  pub data Creation : ℕ × Tasks → Type 0 where
    -- The lowest free slot, and no other, holds the new task; it is ready, at the given priority,
    -- and the other tasks are as they were.
    created :
        {r : ℕ × Tasks} (pid : ℕ)
        → pid < max_concurrent_tasks
        → s.tasks pid ≡ null
        → ((j : ℕ) → j < pid → s.tasks j ≢ null)
        → r.0 ≡ a.task_mem
        → ((j : ℕ) → r.1.tasks j ≡ (if j == pid then a.task_mem else s.tasks j))
        → (r.1.task_at a.task_mem).state ≡ task_ready
        → (r.1.task_at a.task_mem).static_prio ≡ a.priority
        → ((p : ℕ) → p ≢ a.task_mem → r.1.task_at p ≡ s.task_at p)
        → IsListed r.1
        → Creation r
    -- Every slot holds a task, and nothing changes.
    refused :
        {r : ℕ × Tasks}
        → ((i : ℕ) → i < max_concurrent_tasks → s.tasks i ≢ null)
        → r ≡ (null, s)
        → Creation r

  install-Creation :
      (pid : ℕ)
      → pid < max_concurrent_tasks
      → s.tasks pid ≡ null
      → ((j : ℕ) → j < pid → s.tasks j ≢ null)
      → Creation (a.task_mem, install code s a pid)
  install-Creation pid lt e low =
      created pid lt e low refl (λ j. refl) (ground arith) (ground arith) (λ p ne. ground arith)
        (install-IsListed pid lt e)

  full-all : s.nr_tasks ≡ pos 64 → (i : ℕ) → i < max_concurrent_tasks → s.tasks i ≢ null
  full-all e i lt f = ground (arith, v.counted, count_slots-lt s.tasks 64 i lt f)

  pick_slot-Creation :
      (o : Option ℕ)
      → FreeSlot s.tasks max_concurrent_tasks 0 o
      → Creation (elim o [ none ↦ (null, s) | some pid ↦ (a.task_mem, install code s a pid) ])
  pick_slot-Creation none h = refused (λ i lt. h i (omega arith) (omega arith)) refl
  pick_slot-Creation (some pid) h =
      install-Creation pid (omega arith) h.2 (λ j lt. h.3 j (omega arith) lt)

  -- On a list whose task count and pids are in order, and for a new task structure at an address
  -- that no listed task has, `task_new` puts the task into the lowest free slot and keeps the list
  -- in order; it fails only when the list is full, and then changes nothing.
  pub task_new-Creation : Creation (task_new code s a)
  unfolding task_new
  task_new-Creation = elim (Bool-cases (count_slots s.tasks 64 == 64)) [
    | inl e ↦ simp (v.counted, e) (refused (full-all (v.counted ∙ ap pos (ground arith))) refl)
    | inr e ↦ simp (v.counted, e) (pick_slot-Creation _ (find_slot-FreeSlot s.tasks 64 0))
  ]
