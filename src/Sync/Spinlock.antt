-- ===== src/Sync/Spinlock.antt =====
-- kernel/utils/spinlock.c, on any number of CPUs: each access to the shared lock is one step of one
-- CPU, and a schedule says which CPU moves next.
pub mod Exclusion
use catch_os.Base.{ℕ, List, [], ◌∷◌, Bool, true, false, update, if◌then◌else◌}
use catch_os.Sync.Atomic.{atomic_compare_exchange, atomic_store}

-- `struct spinlock`
pub record Spinlock : Type 0 where
  pub locked : ℕ
  pub is_irq_enabled_when_locked : Bool

unfoldable pub spinlock_init : Spinlock → Spinlock
spinlock_init p = record { locked = 0; is_irq_enabled_when_locked = false }

-- Where a CPU stands: outside, in the loop of `spinlock_lock`, between the two calls, or in
-- `spinlock_unlock` behind its store.
pub data Place : Type 0 where
  outside : Place
  spinning : Place
  inside : Place
  leaving : Place

pub record System : Type 0 where
  pub lock : Spinlock
  pub place : ℕ → Place
  pub irq_enabled : ℕ → Bool

-- `spinlock_lock` up to its loop: the flag is noted in the lock, and interrupts are off.
unfoldable pub enter : ℕ → System → System
enter c s = record {
  lock = record { locked = s.lock.locked; is_irq_enabled_when_locked = s.irq_enabled c };
  place = update s.place c spinning;
  irq_enabled = if s.irq_enabled c then update s.irq_enabled c false else s.irq_enabled;
}

-- One round of the loop.
unfoldable pub attempt : ℕ → System → System
attempt c s =
    let (won, locked) = atomic_compare_exchange s.lock.locked 0 1 in
    record s {
      lock = record {
        locked = locked;
        is_irq_enabled_when_locked = s.lock.is_irq_enabled_when_locked;
      };
      place = if won then update s.place c inside else s.place;
    }

-- `spinlock_unlock`: the store, and then the interrupts.
unfoldable pub release : ℕ → System → System
release c s = record s {
  lock = record {
    locked = atomic_store s.lock.locked 0;
    is_irq_enabled_when_locked = s.lock.is_irq_enabled_when_locked;
  };
  place = update s.place c leaving;
}

unfoldable pub restore : ℕ → System → System
restore c s = record s {
  place = update s.place c outside;
  irq_enabled =
      if s.lock.is_irq_enabled_when_locked then update s.irq_enabled c true else s.irq_enabled;
}

unfoldable pub move : ℕ → System → System
move c s = elim (s.place c) [
  | outside ↦ enter c s
  | spinning ↦ attempt c s
  | inside ↦ release c s
  | leaving ↦ restore c s
]

-- The moves of a schedule, the first of the list first.
unfoldable pub run : List ℕ → System → System
run [] s = s
run (c ∷ cs) s = run cs (move c s)
