-- ===== src/Sync/Rwlock/Moves.antt =====
-- Each kind of step of the readers-writer lock keeps the invariant.
use catch_os.Base.{
  ℕ, ◌+◌, ◌-◌, ◌%◌, ◌<◌, ◌^◌, ◌≡◌, refl, ap, ◌∙◌, arith, true, false, Bool-cases, inl, inr, update,
  ◌==◌,
}
use catch_os.Sync.Atomic.{atomic_compare_exchange}
use catch_os.Sync.Rwlock.{
  Place, System, counting, uncounting, try_mtx, try_sem_mtx, count_reader, uncount_reader, look,
}
use catch_os.Sync.Rwlock.Places.{in_mtx, in_sem_mtx, is_taking, Guards-won, Guards-left}
use catch_os.Sync.Rwlock.Invariant.{Inv, Alike, Inv-goto, mtx-same, sem_mtx-same}
use catch_os.Sync.Rwlock.Turns.{readers_bound, sem_cases, counting-Inv, counting_next-Inv}
use catch_os.Sync.Rwlock.Handover.{some_counted, last-Inv, uncounting-Inv}

abbrev pub IsSafe : ℕ → System → Type 0
IsSafe n s =
    Inv n s.lock.mtx.locked s.lock.sem_mtx.locked s.lock.sem_count s.lock.reader_count s.place

module _ (n c : ℕ) (s : System) (below : c < n) (safe : IsSafe n s) where
  abbrev m : ℕ
  m = s.lock.mtx.locked

  abbrev q : ℕ
  q = s.lock.sem_mtx.locked

  abbrev sem : ℕ
  sem = s.lock.sem_count

  abbrev readers : ℕ
  readers = s.lock.reader_count

  -- A step to a place that means the same for every part.
  pub goto-IsSafe :
      (old next : Place)
      → s.place c ≡ old
      → Alike old next
      → in_mtx next ≡ in_mtx old
      → in_sem_mtx next ≡ in_sem_mtx old
      → (is_taking next ≡ true → sem ≡ 1)
      → Inv n m q sem readers (update s.place c next)
  goto-IsSafe old next at alike e1 e2 takes =
      Inv-goto n c s.place old next below at m q m q sem readers alike takes
        (mtx-same n c s.place old next below at m e1 safe.mtx_held)
        (sem_mtx-same n c s.place old next below at q e2 safe.sem_mtx_held) safe

  pub try_mtx-IsSafe :
      (old next : Place)
      → s.place c ≡ old
      → Alike old next
      → in_mtx next ≡ true
      → in_sem_mtx next ≡ in_sem_mtx old
      → is_taking next ≡ false
      → IsSafe n (try_mtx c next s)
  unfolding try_mtx atomic_compare_exchange
  try_mtx-IsSafe old next at alike e1 e2 takes = elim (Bool-cases (m == 0)) [
    | inr lost ↦ rw (try_mtx, atomic_compare_exchange, lost) safe
    | inl won ↦
        (let free : m ≡ 0 = ground arith in
          rw (try_mtx, atomic_compare_exchange, won)
            (Inv-goto n c s.place old next below at m q 1 q sem readers alike (λ t. cc)
              (Guards-won in_mtx s.place c next e1 (rw free at safe.mtx_held))
              (sem_mtx-same n c s.place old next below at q e2 safe.sem_mtx_held) safe))
  ]

  pub try_sem_mtx-IsSafe :
      (old next : Place)
      → s.place c ≡ old
      → Alike old next
      → in_sem_mtx next ≡ true
      → in_mtx next ≡ in_mtx old
      → is_taking next ≡ false
      → IsSafe n (try_sem_mtx c next s)
  unfolding try_sem_mtx atomic_compare_exchange
  try_sem_mtx-IsSafe old next at alike e1 e2 takes = elim (Bool-cases (q == 0)) [
    | inr lost ↦ rw (try_sem_mtx, atomic_compare_exchange, lost) safe
    | inl won ↦
        (let free : q ≡ 0 = ground arith in
          rw (try_sem_mtx, atomic_compare_exchange, won)
            (Inv-goto n c s.place old next below at m q m 1 sem readers alike (λ t. cc)
              (mtx-same n c s.place old next below at m e2 safe.mtx_held)
              (Guards-won in_sem_mtx s.place c next e1 (rw free at safe.sem_mtx_held)) safe))
  ]

  pub leave_mtx-IsSafe :
      (old next : Place)
      → s.place c ≡ old
      → Alike old next
      → in_mtx old ≡ true
      → in_mtx next ≡ false
      → in_sem_mtx next ≡ in_sem_mtx old
      → is_taking next ≡ false
      → Inv n 0 q sem readers (update s.place c next)
  leave_mtx-IsSafe old next at alike was e1 e2 takes =
      Inv-goto n c s.place old next below at m q 0 q sem readers alike (λ t. cc)
        (Guards-left in_mtx s.place c next m (ap in_mtx at ∙ was) e1 safe.mtx_held)
        (sem_mtx-same n c s.place old next below at q e2 safe.sem_mtx_held) safe

  pub leave_sem_mtx-IsSafe :
      (old next : Place)
      → s.place c ≡ old
      → Alike old next
      → in_sem_mtx old ≡ true
      → in_sem_mtx next ≡ false
      → in_mtx next ≡ in_mtx old
      → is_taking next ≡ false
      → Inv n m 0 sem readers (update s.place c next)
  leave_sem_mtx-IsSafe old next at alike was e1 e2 takes =
      Inv-goto n c s.place old next below at m q m 0 sem readers alike (λ t. cc)
        (mtx-same n c s.place old next below at m e2 safe.mtx_held)
        (Guards-left in_sem_mtx s.place c next q (ap in_sem_mtx at ∙ was) e1 safe.sem_mtx_held) safe

  pub look-IsSafe :
      (old next : Place)
      → s.place c ≡ old
      → Alike old next
      → in_mtx next ≡ in_mtx old
      → in_sem_mtx next ≡ in_sem_mtx old
      → IsSafe n (look c next s)
  unfolding look
  look-IsSafe old next at alike e1 e2 = elim (Bool-cases (sem == 0)) [
    | inl none ↦ rw (look, none) safe
    | inr some ↦
        rw (look, some)
          (goto-IsSafe old next at alike e1 e2 (λ t.
            elim (sem_cases n c m q sem readers s.place below safe) [
              | inl z ↦ absurd (ground arith)
              | inr o ↦ o
            ]))
  ]

  pub count_reader-IsSafe : s.place c ≡ counting → IsSafe n (count_reader c s)
  unfolding count_reader
  count_reader-IsSafe at =
      let bound = readers_bound n c m q sem readers s.place below safe in
      elim (Bool-cases (readers == 0)) [
        | inl none ↦
            (let z : readers ≡ 0 = ground arith in
              let one : (readers + 1) % 2 ^ 32 ≡ 1 = omega arith in
              rw (count_reader, one) (counting-Inv n c m q sem readers s.place below safe at z))
        | inr some ↦
            (let more : (readers + 1) % 2 ^ 32 ≡ readers + 1 = omega (arith, bound, safe.small) in
              let many : (readers + 1 == 1) ≡ false = ground arith in
              rw (count_reader, more, many)
                (counting_next-Inv n c m q sem readers s.place below safe at (ground arith)))
      ]

  pub uncount_reader-IsSafe : s.place c ≡ uncounting → IsSafe n (uncount_reader c s)
  unfolding uncount_reader
  uncount_reader-IsSafe at =
      let bound = readers_bound n c m q sem readers s.place below safe in
      let some = some_counted n c m q sem readers s.place below safe (rw at refl) in
      let less : (readers + 2 ^ 32 - 1) % 2 ^ 32 ≡ readers - 1 =
        omega (arith, bound, safe.small, some) in
      elim (Bool-cases (readers == 1)) [
        | inl one ↦
            (let o : readers ≡ 1 = ground arith in
              let z : readers - 1 ≡ 0 = omega arith in
              rw (uncount_reader, less, z) (last-Inv n c m q sem readers s.place below safe at o))
        | inr more ↦
            (let many : (readers - 1 == 0) ≡ false = ground (arith, some) in
              rw (uncount_reader, less, many)
                (uncounting-Inv n c m q sem readers s.place below safe at (ground (arith, some))
                  (readers - 1) (omega (arith, some))))
      ]
