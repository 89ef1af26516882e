-- ===== src/Sync/Rwlock/Exclusion.antt =====
-- Under every schedule, a writer is alone.
use catch_os.Base.{
  ℕ, ◌<◌, ◌^◌, ◌≡◌, ◌≢◌, refl, sym, ap, arith, Bool, Bool-cases, inl, inr, List, [], ◌∷◌,
}
use catch_os.Sync.Atomic.{atomic_store}
use catch_os.Sync.Rwlock.{
  Place, System, Rwlock, rwlock_init, outside, counting, first_spin, first_take, first_unlock,
  read_unlock, uncounting, last_signal, leave_unlock, write_take, write_unlock, writing, read_spin,
  first_wait, reading, leave_spin, write_spin, write_wait, leave_mtx, leave_sem_mtx, take_sem,
  psem_signal, move, run,
}
use catch_os.Sync.Rwlock.Places.{in_mtx, in_sem_mtx, is_counted, is_admitted, is_writer}
use catch_os.Sync.Rwlock.Count.{count_none}
use catch_os.Sync.Rwlock.Invariant.{Inv}
use catch_os.Sync.Rwlock.Handover.{first_take-Inv, write_take-Inv, last_signal-Inv, writing-Inv}
use catch_os.Sync.Rwlock.Moves.{
  IsSafe, goto-IsSafe, try_mtx-IsSafe, try_sem_mtx-IsSafe, leave_mtx-IsSafe, leave_sem_mtx-IsSafe,
  look-IsSafe, count_reader-IsSafe, uncount_reader-IsSafe,
}

move-IsSafe : (n c : ℕ) (write : Bool) (s : System) → c < n → IsSafe n s → IsSafe n (move c write s)
unfolding move leave_mtx leave_sem_mtx take_sem psem_signal atomic_store
move-IsSafe n c write s below safe = go (s.place c) refl
  where
    go : (p : Place) → s.place c ≡ p → IsSafe n (move c write s)
    go outside at = elim (Bool-cases write) [
      | inl e ↦
          rw (move, at, e)
            (goto-IsSafe n c s below safe outside write_spin at (refl, refl, refl, refl, refl) refl
              refl (λ t. cc))
      | inr e ↦
          rw (move, at, e)
            (goto-IsSafe n c s below safe outside read_spin at (refl, refl, refl, refl, refl) refl
              refl (λ t. cc))
    ]
    go read_spin at =
        rw (move, at)
          (try_mtx-IsSafe n c s below safe read_spin counting at (refl, refl, refl, refl, refl) refl
            refl refl)
    go counting at = rw (move, at) (count_reader-IsSafe n c s below safe at)
    go first_spin at =
        rw (move, at)
          (try_sem_mtx-IsSafe n c s below safe first_spin first_wait at
            (refl, refl, refl, refl, refl) refl refl refl)
    go first_wait at =
        rw (move, at)
          (look-IsSafe n c s below safe first_wait first_take at (refl, refl, refl, refl, refl) refl
            refl)
    go first_take at =
        let one : s.lock.sem_count ≡ 1 = safe.taking c (rw at refl) in
        rw (move, at, take_sem, one) (first_take-Inv n c _ _ _ _ s.place below safe at)
    go first_unlock at =
        rw (move, at)
          (leave_sem_mtx-IsSafe n c s below safe first_unlock read_unlock at
            (refl, refl, refl, refl, refl) refl refl refl refl)
    go read_unlock at =
        rw (move, at)
          (leave_mtx-IsSafe n c s below safe read_unlock reading at (refl, refl, refl, refl, refl)
            refl refl refl refl)
    go reading at =
        rw (move, at)
          (goto-IsSafe n c s below safe reading leave_spin at (refl, refl, refl, refl, refl) refl
            refl (λ t. cc))
    go leave_spin at =
        rw (move, at)
          (try_mtx-IsSafe n c s below safe leave_spin uncounting at (refl, refl, refl, refl, refl)
            refl refl refl)
    go uncounting at = rw (move, at) (uncount_reader-IsSafe n c s below safe at)
    go last_signal at =
        let (zero_now, next) = last_signal-Inv n c _ _ _ _ s.place below safe at in
        rw (move, at, psem_signal, zero_now) next
    go leave_unlock at =
        rw (move, at)
          (leave_mtx-IsSafe n c s below safe leave_unlock outside at (refl, refl, refl, refl, refl)
            refl refl refl refl)
    go write_spin at =
        rw (move, at)
          (try_sem_mtx-IsSafe n c s below safe write_spin write_wait at
            (refl, refl, refl, refl, refl) refl refl refl)
    go write_wait at =
        rw (move, at)
          (look-IsSafe n c s below safe write_wait write_take at (refl, refl, refl, refl, refl) refl
            refl)
    go write_take at =
        let one : s.lock.sem_count ≡ 1 = safe.taking c (rw at refl) in
        rw (move, at, take_sem, one) (write_take-Inv n c _ _ _ _ s.place below safe at)
    go write_unlock at =
        rw (move, at)
          (leave_sem_mtx-IsSafe n c s below safe write_unlock writing at
            (refl, refl, refl, refl, refl) refl refl refl refl)
    go writing at =
        let (zero_now, next) = writing-Inv n c _ _ _ _ s.place below safe at in
        rw (move, at, psem_signal, zero_now) next

-- The CPUs of a schedule are below `n`.
abbrev pub Below : ℕ → List (ℕ × Bool) → Type 0
Below n [] = Unit
Below n ((c, write) ∷ cs) = (c < n) × Below n cs

run-IsSafe :
    (n : ℕ) (cs : List (ℕ × Bool)) (s : System) → Below n cs → IsSafe n s → IsSafe n (run cs s)
unfolding run
run-IsSafe n [] s b safe = safe
run-IsSafe n ((c, write) ∷ cs) s b safe =
    run-IsSafe n cs (move c write s) b.1 (move-IsSafe n c write s b.0 safe)

-- The lock is as `rwlock_init` leaves it, and no CPU is in one of its functions.
abbrev pub Unused : System → Type 0
Unused s = ((l : Rwlock) × (s.lock ≡ rwlock_init l)) × ((i : ℕ) → s.place i ≡ outside)

Unused-IsSafe : (n : ℕ) (s : System) → n < 2 ^ 31 → Unused s → IsSafe n s
unfolding rwlock_init
Unused-IsSafe n s small ((l, e), away) = rw e record {
  small = small;
  beyond = λ i le. away i;
  mtx_held = inl (refl, λ i. ap in_mtx (away i));
  sem_mtx_held = inl (refl, λ i. ap in_sem_mtx (away i));
  counted = sym (count_none is_counted s.place n (λ i lt. ap is_counted (away i)));
  taking = λ i t. refl;
  signal = λ i t. refl;
  token = inl (refl, λ i. ap is_writer (away i), λ i. ap is_admitted (away i));
}

alone :
    (n m q sem readers : ℕ) (place : ℕ → Place)
    → Inv n m q sem readers place
    → (i j : ℕ) → i ≢ j
    → place i ≡ writing
    → (place j ≢ writing) × (place j ≢ reading)
alone n m q sem readers place inv i j ne at = elim inv.token [
  | inl t ↦ absurd (ground (arith, t.1 i))
  | inr (inl (z, (d, w), a)) ↦ (λ e. ne (ground (arith, w.1 i, w.1 j)), λ e. ground (arith, a j))
  | inr (inr t) ↦ absurd (ground (arith, t.1 i))
]

-- On fewer than 2 ^ 31 CPUs, from a lock as `rwlock_init` leaves it and under every schedule of
-- acquisitions and releases: while a CPU is between `rwlock_write_acquire` and
-- `rwlock_write_release`, no other CPU is there, and none is between `rwlock_read_acquire` and
-- `rwlock_read_release`.
pub run-writer_alone :
    (n : ℕ) (cs : List (ℕ × Bool)) (s : System)
    → n < 2 ^ 31
    → Below n cs
    → Unused s
    → (i j : ℕ) → i ≢ j
    → (run cs s).place i ≡ writing
    → ((run cs s).place j ≢ writing) × ((run cs s).place j ≢ reading)
run-writer_alone n cs s small b unused =
    alone n _ _ _ _ _ (run-IsSafe n cs s b (Unused-IsSafe n s small unused))
