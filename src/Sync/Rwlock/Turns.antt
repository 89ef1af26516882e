-- ===== src/Sync/Rwlock/Turns.antt =====
-- What the invariant of the readers-writer lock says to the CPU that moves, and the readers' count going up.
use catch_os.Base.{
  ltb, ℕ, ◌+◌, ◌<◌, ◌≤◌, ◌≡◌, ◌≢◌, refl, ◌∙◌, arith, true, false, Bool-cases, inl, inr, ◌⊎◌, update,
  ◌==◌,
}
use catch_os.Sync.Rwlock.{
  Place, counting, first_spin, first_take, first_unlock, read_unlock, uncounting, last_signal,
  write_take, first_wait, reading, leave_spin,
}
use catch_os.Sync.Rwlock.Places.{
  in_mtx, in_sem_mtx, is_taking, is_counted, is_first, is_admitted, is_last, is_writer, Nobody,
  Only-same, Guards-alone,
}
use catch_os.Sync.Rwlock.Count.{bit, count-update, count_some, count_none, count_bound}
use catch_os.Sync.Rwlock.Invariant.{
  Inv, Free, Read, Nobody-same, still_beyond, still, mtx-same, sem_mtx-same,
}

pub first-in_mtx : (p : Place) → in_mtx p ≡ false → is_first p ≡ false
first-in_mtx p h =
    elim p as (λ k. in_mtx k ≡ false → is_first k ≡ false) [
      | first_spin ↦ λ e. e
      | first_wait ↦ λ e. e
      | first_take ↦ λ e. e
      | _ ↦ λ e. refl
    ]
      h

pub last-in_mtx : (p : Place) → in_mtx p ≡ false → is_last p ≡ false
last-in_mtx p h =
    elim p as (λ k. in_mtx k ≡ false → is_last k ≡ false) [ last_signal ↦ λ e. e | _ ↦ λ e. refl ] h

pub taking-in_sem_mtx : (p : Place) → in_sem_mtx p ≡ false → is_taking p ≡ false
taking-in_sem_mtx p h =
    elim p as (λ k. in_sem_mtx k ≡ false → is_taking k ≡ false) [
      | first_take ↦ λ e. e
      | write_take ↦ λ e. e
      | _ ↦ λ e. refl
    ]
      h

-- A counted reader is the first, or admitted; an admitted one is counted, or the last.
pub counted-split : (p : Place) → is_first p ≡ false → is_admitted p ≡ false → is_counted p ≡ false
counted-split p =
    elim p as (λ k. is_first k ≡ false → is_admitted k ≡ false → is_counted k ≡ false) [
      | first_spin ↦ λ e f. e
      | first_wait ↦ λ e f. e
      | first_take ↦ λ e f. e
      | first_unlock ↦ λ e f. f
      | read_unlock ↦ λ e f. f
      | reading ↦ λ e f. f
      | leave_spin ↦ λ e f. f
      | uncounting ↦ λ e f. f
      | _ ↦ λ e f. refl
    ]

pub admitted-split : (p : Place) → is_counted p ≡ false → is_last p ≡ false → is_admitted p ≡ false
admitted-split p =
    elim p as (λ k. is_counted k ≡ false → is_last k ≡ false → is_admitted k ≡ false) [
      | first_unlock ↦ λ e f. e
      | read_unlock ↦ λ e f. e
      | reading ↦ λ e f. e
      | leave_spin ↦ λ e f. e
      | uncounting ↦ λ e f. e
      | last_signal ↦ λ e f. f
      | _ ↦ λ e f. refl
    ]

module _ (n c mtx sem_mtx sem readers : ℕ) (place : ℕ → Place) (below : c < n)
    (inv : Inv n mtx sem_mtx sem readers place) where
  pub others_in_mtx : in_mtx (place c) ≡ true → (i : ℕ) → i ≢ c → in_mtx (place i) ≡ false
  others_in_mtx was i ne = Guards-alone in_mtx place c counting mtx was inv.mtx_held i ne

  pub others_in_sem_mtx :
      in_sem_mtx (place c) ≡ true → (i : ℕ) → i ≢ c → in_sem_mtx (place i) ≡ false
  others_in_sem_mtx was i ne =
      Guards-alone in_sem_mtx place c counting sem_mtx was inv.sem_mtx_held i ne

  -- While the others are outside `mtx` and no reader is admitted, no other reader is counted.
  pub not_counted :
      is_counted (place c) ≡ false
      → in_mtx (place c) ≡ true
      → Nobody is_admitted place
      → readers ≡ 0
  not_counted e was none_in =
      inv.counted
      ∙ count_none is_counted place n (λ i lt. elim (Bool-cases (i == c)) [
        | inl same ↦ (let s : i ≡ c = ground arith in rw s e)
        | inr other ↦
            counted-split (place i) (first-in_mtx (place i) (others_in_mtx was i (ground arith)))
              (none_in i)
      ])

  pub no_last : in_mtx (place c) ≡ true → is_last (place c) ≡ false → Nobody is_last place
  no_last was e i = elim (Bool-cases (i == c)) [
    | inl same ↦ (let s : i ≡ c = ground arith in rw s e)
    | inr other ↦ last-in_mtx (place i) (others_in_mtx was i (ground arith))
  ]

  pub readers_bound : readers ≤ n
  readers_bound = let b = count_bound is_counted place n in omega (arith, inv.counted, b)

  pub none_counted : readers ≡ 0 → Nobody is_counted place
  none_counted z i = elim (Bool-cases (is_counted (place i))) [
    | inr e ↦ e
    | inl e ↦
        (let inside : i < n = elim (Bool-cases (ltb i n)) [
          | inl l ↦ ground arith
          | inr l ↦ absurd (ground (arith, inv.beyond i))
        ] in
          absurd (omega (arith, count_some is_counted place i n inside e, inv.counted)))
  ]

  pub sem_cases : (sem ≡ 0) ⊎ (sem ≡ 1)
  sem_cases = elim inv.token [ inl t ↦ inr t.0 | inr (inl t) ↦ inl t.0 | inr (inr t) ↦ inl t.0 ]

  pub token-Free : sem ≡ 1 → Free sem readers place
  token-Free e = elim inv.token [
    | inl t ↦ t
    | inr (inl t) ↦ absurd (omega (arith, t.0))
    | inr (inr t) ↦ absurd (omega (arith, t.0))
  ]

  pub token-Read : is_admitted (place c) ≡ true → Read sem readers place
  token-Read e = elim inv.token [
    | inl t ↦ absurd (ground (arith, t.2 c))
    | inr (inl t) ↦ absurd (ground (arith, t.2 c))
    | inr (inr t) ↦ t
  ]

  pub counting-Inv :
      place c ≡ counting → (readers ≡ 0) → Inv n mtx sem_mtx sem 1 (update place c first_spin)
  counting-Inv at none_yet =
      let was : in_mtx (place c) ≡ true = rw at refl in
      let unlike : is_last (place c) ≡ false = rw at refl in
      record {
        small = inv.small;
        beyond = still_beyond n c place counting first_spin below at inv.beyond;
        mtx_held = mtx-same n c place counting first_spin below at mtx refl inv.mtx_held;
        sem_mtx_held =
            sem_mtx-same n c place counting first_spin below at sem_mtx refl inv.sem_mtx_held;
        counted =
            let r = count-update is_counted place c first_spin n below in
            let old : bit (is_counted (place c)) ≡ 0 = rw at refl in
            omega (arith, r, old, inv.counted);
        taking = still n c place counting first_spin below at is_taking (λ t. cc) inv.taking;
        signal =
            still n c place counting first_spin below at is_last (λ t. cc)
              (λ i t. absurd (ground (arith, no_last was unlike i)));
        token = elim inv.token [
          | inl (f, w, a) ↦ inl (
            f,
            Nobody-same n c place counting first_spin below at is_writer refl w,
            Nobody-same n c place counting first_spin below at is_admitted refl a,
          )
          | inr (inl (f, (d, w), a)) ↦ inr (
              inl (
                f,
                (d, Only-same is_writer place c first_spin d (rw at refl) w),
                Nobody-same n c place counting first_spin below at is_admitted refl a,
              ))
          | inr (inr (f, w, a, inl r)) ↦ absurd (omega arith)
          | inr (inr (f, w, a, inr (d, l))) ↦ absurd (ground (arith, no_last was unlike d))
        ];
      }

  pub counting_next-Inv :
      place c ≡ counting
      → 1 ≤ readers
      → Inv n mtx sem_mtx sem (readers + 1) (update place c read_unlock)
  counting_next-Inv at some =
      let was : in_mtx (place c) ≡ true = rw at refl in
      let unlike : is_last (place c) ≡ false = rw at refl in
      let uncounted : is_counted (place c) ≡ false = rw at refl in
      record {
        small = inv.small;
        beyond = still_beyond n c place counting read_unlock below at inv.beyond;
        mtx_held = mtx-same n c place counting read_unlock below at mtx refl inv.mtx_held;
        sem_mtx_held =
            sem_mtx-same n c place counting read_unlock below at sem_mtx refl inv.sem_mtx_held;
        counted =
            let r = count-update is_counted place c read_unlock n below in
            let old : bit (is_counted (place c)) ≡ 0 = rw at refl in
            omega (arith, r, old, inv.counted);
        taking = still n c place counting read_unlock below at is_taking (λ t. cc) inv.taking;
        signal =
            still n c place counting read_unlock below at is_last (λ t. cc)
              (λ i t. absurd (ground (arith, no_last was unlike i)));
        token = elim inv.token [
          | inl (f, w, a) ↦ absurd (omega (arith, not_counted uncounted was a))
          | inr (inl (f, (d, w), a)) ↦ absurd (omega (arith, not_counted uncounted was a))
          | inr (inr (f, w, a, r)) ↦ inr (
              inr (
                f,
                Nobody-same n c place counting read_unlock below at is_writer refl w,
                Nobody-same n c place counting read_unlock below at is_first refl a,
                inl (omega arith),
              ))
        ];
      }
