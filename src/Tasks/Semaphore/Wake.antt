-- ===== src/Tasks/Semaphore/Wake.antt =====
-- The waiting tasks of a semaphore are woken in the order in which they came.
use catch_os.Base.{
  update_self, ℕ, suc, ◌<◌, ◌^◌, ◌≡◌, ◌≢◌, refl, ap, ◌∙◌, some, List, [], ◌∷◌, ◌++◌, length, take,
  pos, ◌+ℤ◌, null,
}
use catch_os.Base.Words.{word_of, pointer_bytes, word_of-pointer_bytes}
use catch_os.LinkedList.Chain.{Cell, Cells, Apart}
use catch_os.Queue.Fifo.{IsQueue, cell, queue_push-IsQueue, queue_pop-IsQueue}
use catch_os.Tasks.{task_ready, task_waiting, set_task, with_state}
use catch_os.Tasks.Semaphore.{SemState, sem_block, sem_signal}

-- The cells have the pointers of the tasks.
abbrev pub Point : Cells → List ℕ → Type 0
Point [] [] = Unit
Point [] (t ∷ ts) = ⊥
Point (c ∷ cs) [] = ⊥
Point (c ∷ cs) (t ∷ ts) = (c.bytes ≡ pointer_bytes t) × (t < 2 ^ 32) × Point cs ts

-- The tasks wait at the semaphore, the one that came first in front; `cells` hold their pointers.
pub record Waiting (s : SemState) (cells : Cells) (ts : List ℕ) : Type 0 where
  pub queue : IsQueue s.heap s.sem.task_queue cells
  pub tasks : Point cells ts

Point-snoc :
    (cs : Cells) (ts : List ℕ) (c : Cell) (t : ℕ)
    → Point cs ts
    → c.bytes ≡ pointer_bytes t
    → t < 2 ^ 32
    → Point (cs ++ c ∷ []) (ts ++ t ∷ [])
Point-snoc [] [] c t h e lt = (e, lt, tt)
Point-snoc [] (x ∷ ts) c t h e lt = absurd h
Point-snoc (d ∷ cs) [] c t h e lt = absurd h
Point-snoc (d ∷ cs) (x ∷ ts) c t h e lt = (h.0, h.1, Point-snoc cs ts c t h.2 e lt)

-- When the allocator next gives two different addresses, neither null nor in use by the queue, and
-- the current task lies below 2 ^ 32, the branch of `sem_wait` that waits returns up to its
-- `task_yield`: the current task is waiting, behind those that waited already, and the count is as
-- before.
sem_block-Waiting :
    (cpu p d : ℕ) (ps ts : List ℕ) (cs : Cells) (s : SemState)
    → Waiting s cs ts
    → s.heap.supply ≡ p ∷ d ∷ ps
    → p ≢ null
    → d ≢ null
    → p ≢ d
    → Apart p cs
    → Apart d cs
    → s.tasks.current cpu < 2 ^ 32
    → (u : SemState) × (sem_block cpu s ≡ some u)
      × Waiting u
          (cs ++ cell p d (pointer_bytes (s.tasks.current cpu)) ∷ [])
          (ts ++ s.tasks.current cpu ∷ [])
      × ((u.tasks.task_at (s.tasks.current cpu)).state ≡ task_waiting)
      × (u.sem.count ≡ s.sem.count)
unfolding sem_block
sem_block-Waiting cpu p d ps ts cs s w supplied hp hd pd ap1 ap2 lt =
    let cur = s.tasks.current cpu in
    let (q, g, runs, inv) =
      queue_push-IsQueue s.heap p d (pointer_bytes cur) ps supplied hp hd s.sem.task_queue cs
        w.queue pd ap1 ap2 in
    (
      record {
        sem = record { count = s.sem.count; task_queue = q };
        tasks = set_task s.tasks cur (with_state (s.tasks.task_at cur) task_waiting);
        heap = g;
      },
      rw (sem_block, runs) refl,
      record { queue = inv; tasks = Point-snoc cs ts _ cur w.tasks refl lt },
      ap (λ t. t.state) (update_self s.tasks.task_at cur _),
      refl,
    )

-- When tasks wait at a semaphore and the fuel exceeds the number of the others, `sem_signal`
-- returns: the task that came first is ready, the others wait on in order, the count is one
-- higher, and no other task has changed.
pub sem_signal-wakes :
    (f : ℕ) (s : SemState) (cells : Cells) (t : ℕ) (ts : List ℕ)
    → Waiting s cells (t ∷ ts)
    → length ts < f
    → (u : SemState) × (sem_signal f s ≡ some u)
      × ((rest : Cells) × Waiting u rest ts)
      × (u.tasks ≡ set_task s.tasks t (with_state (s.tasks.task_at t) task_ready))
      × (u.sem.count ≡ s.sem.count +ℤ pos 1)
unfolding sem_signal
sem_signal-wakes f s [] t ts w lt = absurd w.tasks
sem_signal-wakes f s (c ∷ cs) t ts w lt =
    let (q, runs, inv) =
      queue_pop-IsQueue f s.heap s.sem.task_queue 4 c cs w.queue
        (rw (Point-length cs ts w.tasks.2) lt) in
    let pointer : word_of (take 4 c.bytes) ≡ t =
      ap (λ b. word_of (take 4 b)) w.tasks.0 ∙ word_of-pointer_bytes t w.tasks.1 in
    (
      record {
        sem = record { count = s.sem.count +ℤ pos 1; task_queue = q };
        tasks = set_task s.tasks t (with_state (s.tasks.task_at t) task_ready);
        heap = s.heap;
      },
      rw (sem_signal, runs, pointer) refl,
      (cs, record { queue = inv; tasks = w.tasks.2 }),
      refl,
      refl,
    )
  where
    Point-length : (cs : Cells) (ts : List ℕ) → Point cs ts → length cs ≡ length ts
    Point-length [] [] h = refl
    Point-length [] (x ∷ ts) h = absurd h
    Point-length (c ∷ cs) [] h = absurd h
    Point-length (c ∷ cs) (x ∷ ts) h = ap suc (Point-length cs ts h.2)
