-- ===== src/Tests/Locks.antt =====
-- The readers-writer lock, the semaphore and the driver that uses it.
use catch_os.Base.{
  ℕ, pos, ◌+ℤ◌, some, none, ◌==◌, if◌then◌else◌, ◌≡◌, ◌≢◌, refl, arith, List, [], ◌∷◌, Bool, true,
  false,
}
use catch_os.Sync.Rwlock.{Rwlock, System, outside, writing, reading, rwlock_init}
use catch_os.Sync.Rwlock.Exclusion.{run-writer_alone, Unused}
use catch_os.Sync.Rwlock
use catch_os.Sync.Atomic
use catch_os.Base.Words.{pointer_bytes}
use catch_os.LinkedList.Chain.{Cell, Cells}
use catch_os.Queue.Fifo.{cell}
use catch_os.Tasks.{
  Tasks, TaskStruct, task_running, task_ready, join_joinable, set_task, with_state,
}
use catch_os.Tasks.Semaphore.{SemState, sem_init, sem_signal}
use catch_os.Tasks.Semaphore.Wake.{Waiting, sem_signal-wakes}
use catch_os.Drivers.IoApic.{IoApic, ioapic_redirect_external_int}
use catch_os.Drivers.IoApic.Redirect.{IsFree, overridden, entry_writes, redirect-written}
use catch_os.Tests.Firmware.{empty_info}
use catch_os.Acpi.Madt.{MadtInfo}

abbrev raw_lock : Rwlock
raw_lock = record {
  sem_count = 7;
  reader_count = 7;
  mtx = record { locked = 7; is_irq_enabled_when_locked = true };
  sem_mtx = record { locked = 7; is_irq_enabled_when_locked = true };
  is_irq_enabled_when_locked = true;
}

abbrev unused : System
unused = record { lock = rwlock_init raw_lock; place = λ i. outside; irq_enabled = λ i. true }

unused-Unused : Unused unused
unused-Unused = ((raw_lock, refl), λ i. refl)

-- CPU 1 becomes the writer while CPU 2 begins to read.
abbrev writer_first : List (ℕ × Bool)
writer_first =
    (1, true)
    ∷ (2, false)
    ∷ (1, true)
    ∷ (1, true)
    ∷ (2, false)
    ∷ (1, true)
    ∷ (2, false)
    ∷ (1, true)
    ∷ (2, false)
    ∷ []

one_writing : (Rwlock.run writer_first unused).place 1 ≡ writing
unfolding Rwlock.run Rwlock.move Rwlock.rwlock_init Rwlock.try_mtx Rwlock.try_sem_mtx Rwlock.look
    Rwlock.take_sem Rwlock.leave_sem_mtx Rwlock.count_reader Atomic.atomic_compare_exchange
    Atomic.atomic_store
one_writing = refl

run-writer_alone_example :
    ((Rwlock.run writer_first unused).place 2 ≢ writing)
    × ((Rwlock.run writer_first unused).place 2 ≢ reading)
run-writer_alone_example =
    run-writer_alone 3 writer_first unused (omega arith)
      (
        omega arith,
        (
          omega arith,
          (
            omega arith,
            (
              omega arith,
              (omega arith, (omega arith, (omega arith, (omega arith, (omega arith, tt))))),
            ),
          ),
        ),
      )
      unused-Unused 1 2 (omega arith) one_writing

-- Two tasks at a semaphore: 300 waits, and CPU 0 runs 700.
abbrev a_task : ℕ → TaskStruct
a_task t = record {
  esp = 0;
  eip = 0;
  pid = 1;
  state = task_running;
  static_prio = pos 1;
  dynamic_prio = pos 1;
  stack_bottom = 0;
  stack_size = 64;
  interruptible = true;
  join_state = join_joinable;
  sleep_avg = pos 0;
}

abbrev two_tasks : Tasks
two_tasks = record {
  task_at = a_task;
  word = λ a. 0;
  freed = [];
  tasks = λ i. 0;
  nr_tasks = pos 2;
  current = λ cpu. 700;
}

abbrev one_waits : SemState
one_waits = record {
  sem = record { count = pos 0; task_queue = record { head = 10; tail = 10; size = pos 1 } };
  tasks = two_tasks;
  heap = record {
    node = λ a. if a == 10 then some (record { next = 0; content = 20 }) else none;
    block = λ a. if a == 20 then some (pointer_bytes 300) else none;
    supply = 12 ∷ 22 ∷ [];
    freed = [];
  };
}

abbrev its_cell : Cell
its_cell = cell 10 20 (pointer_bytes 300)

one_waits-Waiting : Waiting one_waits (its_cell ∷ []) (300 ∷ [])
one_waits-Waiting = record {
  queue = record {
    front = refl;
    back = refl;
    counted = refl;
    chain = (omega arith, refl, refl, tt, tt, omega arith, tt);
  };
  tasks = (refl, omega arith, tt);
}

sem_signal-wakes_example :
    (u : SemState) × (sem_signal 1 one_waits ≡ some u)
    × ((rest : Cells) × Waiting u rest [])
    × (u.tasks ≡ set_task two_tasks 300 (with_state (a_task 300) task_ready))
    × (u.sem.count ≡ pos 0 +ℤ pos 1)
sem_signal-wakes_example =
    sem_signal-wakes 1 one_waits (its_cell ∷ []) 300 [] one_waits-Waiting (omega arith)

abbrev idle_ioapic : IoApic
idle_ioapic = record {
  lapic_base = 4096;
  is_initialized = true;
  ioapic_sem = record {
    sem = sem_init (pos 1);
    tasks = two_tasks;
    heap = record { node = λ a. none; block = λ a. none; supply = []; freed = [] };
  };
  out = [];
}

idle_ioapic-IsFree : IsFree idle_ioapic.ioapic_sem
unfolding sem_init
idle_ioapic-IsFree = (refl, refl)

-- The MADT redirects interrupt 0 to line 2.
abbrev timer_override : MadtInfo
timer_override = record empty_info { irq_override = λ irq. if irq == 0 then 2 else 0 }

-- The timer's line to CPU 0.
redirect-written_example :
    ioapic_redirect_external_int 0 0 timer_override 0 0 idle_ioapic
    ≡ some (record idle_ioapic { out = entry_writes 4096 2 32 0 [] })
redirect-written_example =
    redirect-written 0 0 0 2 0 timer_override idle_ioapic (overridden 2 refl (omega arith) refl)
      idle_ioapic-IsFree (omega arith) (omega arith)
