-- ===== src/Sync/Rwlock.antt =====
-- kernel/utils/rwlock.c, on any number of CPUs: each access to the semaphore's count, the readers'
-- count or one of the two spin locks is one step of one CPU. The interrupt flags are noted and
-- restored in the step of the access next to them.
pub mod Places
pub mod Count
pub mod Invariant
pub mod Turns
pub mod Handover
pub mod Moves
pub mod Exclusion
use catch_os.Base.{
  ℕ, ◌+◌, ◌-◌, ◌%◌, ◌^◌, List, [], ◌∷◌, Bool, true, false, update, ◌==◌, if◌then◌else◌,
}
use catch_os.Sync.Atomic.{
  atomic_compare_exchange, atomic_store, atomic_load, atomic_fetch_add, atomic_fetch_sub,
}
use catch_os.Sync.Spinlock.{Spinlock}

-- `struct rwlock`; `reader_count` is taken modulo 2 ^ 32.
pub record Rwlock : Type 0 where
  pub sem_count : ℕ
  pub reader_count : ℕ
  pub mtx : Spinlock
  pub sem_mtx : Spinlock
  pub is_irq_enabled_when_locked : Bool

unfoldable pub rwlock_init : Rwlock → Rwlock
rwlock_init lock = record {
  sem_count = 1;
  reader_count = 0;
  mtx = record { locked = 0; is_irq_enabled_when_locked = false };
  sem_mtx = record { locked = 0; is_irq_enabled_when_locked = false };
  is_irq_enabled_when_locked = false;
}

-- Where a CPU stands. In `rwlock_read_acquire`: at the loop of the spin lock `mtx`, at the count, in
-- `_psem_wait` (`first_…`), at the unlock. In `rwlock_read_release`: likewise. In
-- `rwlock_write_acquire`: in `_psem_wait`.
pub data Place : Type 0 where
  outside : Place
  read_spin : Place
  counting : Place
  first_spin : Place
  first_wait : Place
  first_take : Place
  first_unlock : Place
  read_unlock : Place
  reading : Place
  leave_spin : Place
  uncounting : Place
  last_signal : Place
  leave_unlock : Place
  write_spin : Place
  write_wait : Place
  write_take : Place
  write_unlock : Place
  writing : Place

pub record System : Type 0 where
  pub lock : Rwlock
  pub place : ℕ → Place
  pub irq_enabled : ℕ → Bool

abbrev pub goto : ℕ → Place → System → System
goto c p s = record s { place = update s.place c p }

-- `is_irq_enabled_when_locked = eflags & IF`, and `cli`.
abbrev pub save_irq : ℕ → System → System
save_irq c s = record s {
  lock = record s.lock { is_irq_enabled_when_locked = s.irq_enabled c };
  irq_enabled = update s.irq_enabled c false;
}

abbrev pub restore_irq : ℕ → Bool → System → System
restore_irq c flag s = record s {
  irq_enabled = if flag then update s.irq_enabled c true else s.irq_enabled;
}

-- `spinlock_lock` up to its loop.
abbrev pub noted : ℕ → System → Spinlock → Spinlock
noted c s l = record { locked = l.locked; is_irq_enabled_when_locked = s.irq_enabled c }

abbrev pub enter_mtx : ℕ → System → System
enter_mtx c s = record s {
  lock = record s.lock { mtx = noted c s s.lock.mtx };
  irq_enabled = update s.irq_enabled c false;
}

abbrev pub enter_sem_mtx : ℕ → System → System
enter_sem_mtx c s = record s {
  lock = record s.lock { sem_mtx = noted c s s.lock.sem_mtx };
  irq_enabled = update s.irq_enabled c false;
}

abbrev pub with_locked : Spinlock → ℕ → Spinlock
with_locked l locked = record {
  locked = locked;
  is_irq_enabled_when_locked = l.is_irq_enabled_when_locked;
}

-- One round of the loop of `spinlock_lock`; `next` is behind it.
unfoldable pub try_mtx : ℕ → Place → System → System
try_mtx c next s =
    let (won, locked) = atomic_compare_exchange s.lock.mtx.locked 0 1 in
    record s {
      lock = record s.lock { mtx = with_locked s.lock.mtx locked };
      place = if won then update s.place c next else s.place;
    }

unfoldable pub try_sem_mtx : ℕ → Place → System → System
try_sem_mtx c next s =
    let (won, locked) = atomic_compare_exchange s.lock.sem_mtx.locked 0 1 in
    record s {
      lock = record s.lock { sem_mtx = with_locked s.lock.sem_mtx locked };
      place = if won then update s.place c next else s.place;
    }

-- `spinlock_unlock`
unfoldable pub leave_mtx : ℕ → Place → System → System
leave_mtx c next s = restore_irq c s.lock.mtx.is_irq_enabled_when_locked (record s {
  lock = record s.lock { mtx = with_locked s.lock.mtx (atomic_store s.lock.mtx.locked 0) };
  place = update s.place c next;
})

unfoldable pub leave_sem_mtx : ℕ → Place → System → System
leave_sem_mtx c next s = restore_irq c s.lock.sem_mtx.is_irq_enabled_when_locked (record s {
  lock = record s.lock {
    sem_mtx = with_locked s.lock.sem_mtx (atomic_store s.lock.sem_mtx.locked 0);
  };
  place = update s.place c next;
})

-- `reader_count++`; the first reader goes on to `_psem_wait`.
unfoldable pub count_reader : ℕ → System → System
count_reader c s =
    let count = (s.lock.reader_count + 1) % 2 ^ 32 in
    let t : System = record s { lock = record s.lock { reader_count = count } } in
    if count == 1 then goto c first_spin (enter_sem_mtx c t) else goto c read_unlock t

-- `reader_count--`; the last reader goes on to `_psem_signal`.
unfoldable pub uncount_reader : ℕ → System → System
uncount_reader c s =
    let count = (s.lock.reader_count + 2 ^ 32 - 1) % 2 ^ 32 in
    let t : System = record s { lock = record s.lock { reader_count = count } } in
    if count == 0 then goto c last_signal t else goto c leave_unlock t

-- `while (atomic_load(&lock->sem_count) == 0)`
unfoldable pub look : ℕ → Place → System → System
look c next s = if atomic_load s.lock.sem_count == 0 then s else goto c next s

unfoldable pub take_sem : ℕ → Place → System → System
take_sem c next s =
    goto c next
      (record s { lock = record s.lock { sem_count = (atomic_fetch_sub s.lock.sem_count 1).1 } })

-- `_psem_signal`
unfoldable pub psem_signal : ℕ → Place → System → System
psem_signal c next s =
    goto c next
      (record s { lock = record s.lock { sem_count = (atomic_fetch_add s.lock.sem_count 1).1 } })

-- The next step of CPU `c`; `write` says what a CPU outside begins with.
unfoldable pub move : ℕ → Bool → System → System
move c write s = elim (s.place c) [
  | outside ↦
      if write
      then goto c write_spin (enter_sem_mtx c (save_irq c s))
      else goto c read_spin (enter_mtx c (save_irq c s))
  | read_spin ↦ try_mtx c counting s
  | counting ↦ count_reader c s
  | first_spin ↦ try_sem_mtx c first_wait s
  | first_wait ↦ look c first_take s
  | first_take ↦ take_sem c first_unlock s
  | first_unlock ↦ leave_sem_mtx c read_unlock s
  | read_unlock ↦ leave_mtx c reading s
  | reading ↦ goto c leave_spin (enter_mtx c s)
  | leave_spin ↦ try_mtx c uncounting s
  | uncounting ↦ uncount_reader c s
  | last_signal ↦ psem_signal c leave_unlock s
  | leave_unlock ↦ restore_irq c s.lock.is_irq_enabled_when_locked (leave_mtx c outside s)
  | write_spin ↦ try_sem_mtx c write_wait s
  | write_wait ↦ look c write_take s
  | write_take ↦ take_sem c write_unlock s
  | write_unlock ↦ leave_sem_mtx c writing s
  | writing ↦ restore_irq c s.lock.is_irq_enabled_when_locked (psem_signal c outside s)
]

unfoldable pub run : List (ℕ × Bool) → System → System
run [] s = s
run ((c, write) ∷ cs) s = run cs (move c write s)
