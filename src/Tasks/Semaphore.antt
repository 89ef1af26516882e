-- ===== src/Tasks/Semaphore.antt =====
-- kernel/tasks/sem.c: counting semaphores over the task states and a queue of task pointers. Each
-- function runs without steps of other CPUs in between; the lock of the semaphore guards each of
-- its sections only.
pub mod Wake
use catch_os.Base.{
  ℕ, zero, suc, Option, none, some, List, ℤ, pos, negsuc, ◌+ℤ◌, ◌-ℤ◌, ltb_ℤ, if◌then◌else◌, null,
}
use catch_os.Base.Words.{word_of, pointer_bytes}
use catch_os.LinkedList.{Heap}
use catch_os.Queue.{Queue, queue_push, queue_pop}
use catch_os.Tasks.{Tasks, task_ready, task_waiting, set_task, with_state, task_get_current}
use catch_os.Tasks.Schedule.{task_yield}

-- `struct semaphore` without its lock.
pub record Semaphore : Type 0 where
  pub count : ℤ
  pub task_queue : Queue

pub record SemState : Type 0 where
  pub sem : Semaphore
  pub tasks : Tasks
  pub heap : Heap

unfoldable pub sem_init : ℤ → Semaphore
sem_init count = record {
  count = count;
  task_queue = record { head = null; tail = null; size = pos 0 };
}

-- The branch that takes the count down.
abbrev pub sem_take : SemState → SemState
sem_take s = record s {
  sem = record { count = s.sem.count -ℤ pos 1; task_queue = s.sem.task_queue };
}

-- The branch that waits, up to its `task_yield()`.
unfoldable pub sem_block : ℕ → SemState → Option SemState
sem_block cpu s =
    let curtask = task_get_current s.tasks cpu in
    elim (queue_push s.sem.task_queue (pointer_bytes curtask) s.heap) [
      | none ↦ none
      | some (q, h) ↦ some (record {
        sem = record { count = s.sem.count; task_queue = q };
        tasks = set_task s.tasks curtask (with_state (s.tasks.task_at curtask) task_waiting);
        heap = h;
      })
    ]

-- `f` is fuel for the scheduler.
unfoldable pub sem_wait : ℕ → ℕ → SemState → Option SemState
sem_wait f cpu s = if ltb_ℤ (pos 0) s.sem.count then some (sem_take s) else elim (sem_block cpu s) [
  | none ↦ none
  | some t ↦ elim (task_yield f t.tasks cpu) [
    | none ↦ none
    | some tasks ↦ some (record t { tasks = tasks })
  ]
]

-- `f` is fuel for the queue.
unfoldable pub sem_signal : ℕ → SemState → Option SemState
sem_signal f s = elim (queue_pop f s.sem.task_queue 4 s.heap) [
  | none ↦ none
  | some ((is_queue_empty, bytes, q), h) ↦
      let popped_task = word_of bytes in
      some (record {
        sem = record { count = s.sem.count +ℤ pos 1; task_queue = q };
        tasks = elim is_queue_empty [
          | pos zero ↦
              set_task s.tasks popped_task (with_state (s.tasks.task_at popped_task) task_ready)
          | _ ↦ s.tasks
        ];
        heap = h;
      })
]
