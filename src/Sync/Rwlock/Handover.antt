-- ===== src/Sync/Rwlock/Handover.antt =====
-- The readers' count going down, and the semaphore changing hands.
use catch_os.Base.{
  ℕ, suc, ◌<◌, ◌≤◌, ◌≡◌, ◌≢◌, refl, sym, ap, ◌∙◌, arith, Bool, true, false, Bool-cases, inl, inr,
  update, update_self, ◌==◌,
}
use catch_os.Sync.Rwlock.{
  Place, outside, first_take, first_unlock, uncounting, last_signal, leave_unlock, write_take,
  write_unlock, writing,
}
use catch_os.Sync.Rwlock.Places.{
  in_mtx, in_sem_mtx, is_taking, is_counted, is_first, is_admitted, is_last, is_writer, Nobody,
  Only-new,
}
use catch_os.Sync.Rwlock.Count.{bit, count-update, count_some}
use catch_os.Sync.Rwlock.Invariant.{
  Inv, Written, counted-same, Nobody-same, still_beyond, still, mtx-same, sem_mtx-same,
}
use catch_os.Sync.Rwlock.Turns.{
  first-in_mtx, last-in_mtx, taking-in_sem_mtx, admitted-split, others_in_mtx, others_in_sem_mtx,
  no_last, none_counted, token-Free, token-Read,
}

module _ (n c mtx sem_mtx sem readers : ℕ) (place : ℕ → Place) (below : c < n)
    (inv : Inv n mtx sem_mtx sem readers place) where
  abbrev others : in_mtx (place c) ≡ true → (i : ℕ) → i ≢ c → in_mtx (place i) ≡ false
  others = others_in_mtx n c mtx sem_mtx sem readers place below inv

  abbrev other_takers : in_sem_mtx (place c) ≡ true → (i : ℕ) → i ≢ c → is_taking (place i) ≡ false
  other_takers was i ne =
      taking-in_sem_mtx (place i)
        (others_in_sem_mtx n c mtx sem_mtx sem readers place below inv was i ne)

  -- A kind of places that the others are not at.
  Nobody-new :
      (kind : Place → Bool) (q : Place)
      → kind q ≡ false
      → ((i : ℕ) → i ≢ c → kind (place i) ≡ false)
      → Nobody kind (update place c q)
  Nobody-new kind q e h i = elim (Bool-cases (i == c)) [
    | inl same ↦ rw same e
    | inr other ↦ rw other (h i (ground arith))
  ]

  pub some_counted : is_counted (place c) ≡ true → 1 ≤ readers
  some_counted e = let r = count_some is_counted place c n below e in omega (arith, inv.counted)

  pub last-Inv :
      place c ≡ uncounting → readers ≡ 1 → Inv n mtx sem_mtx sem 0 (update place c last_signal)
  last-Inv at one =
      let (f, w, a, r) = token-Read n c mtx sem_mtx sem readers place below inv (rw at refl) in
      record {
        small = inv.small;
        beyond = still_beyond n c place uncounting last_signal below at inv.beyond;
        mtx_held = mtx-same n c place uncounting last_signal below at mtx refl inv.mtx_held;
        sem_mtx_held =
            sem_mtx-same n c place uncounting last_signal below at sem_mtx refl inv.sem_mtx_held;
        counted =
            let r = count-update is_counted place c last_signal n below in
            let old : bit (is_counted (place c)) ≡ 1 = rw at refl in
            omega (arith, r, old, inv.counted);
        taking = still n c place uncounting last_signal below at is_taking (λ t. cc) inv.taking;
        signal = λ i t. refl;
        token = inr (
            inr (
              f,
              Nobody-same n c place uncounting last_signal below at is_writer refl w,
              Nobody-same n c place uncounting last_signal below at is_first refl a,
              inr (c, ap is_last (update_self place c last_signal)),
            ));
      }

  pub uncounting-Inv :
      place c ≡ uncounting
      → 1 < readers
      → (left : ℕ) → readers ≡ suc left
      → Inv n mtx sem_mtx sem left (update place c leave_unlock)
  uncounting-Inv at many left e =
      let (f, w, a, r) = token-Read n c mtx sem_mtx sem readers place below inv (rw at refl) in
      let was : in_mtx (place c) ≡ true = rw at refl in
      let unlike : is_last (place c) ≡ false = rw at refl in
      record {
        small = inv.small;
        beyond = still_beyond n c place uncounting leave_unlock below at inv.beyond;
        mtx_held = mtx-same n c place uncounting leave_unlock below at mtx refl inv.mtx_held;
        sem_mtx_held =
            sem_mtx-same n c place uncounting leave_unlock below at sem_mtx refl inv.sem_mtx_held;
        counted =
            let r = count-update is_counted place c leave_unlock n below in
            let old : bit (is_counted (place c)) ≡ 1 = rw at refl in
            omega (arith, r, old, inv.counted);
        taking = still n c place uncounting leave_unlock below at is_taking (λ t. cc) inv.taking;
        signal =
            still n c place uncounting leave_unlock below at is_last (λ t. cc)
              (λ i t.
                absurd (
                  ground
                    (arith, no_last n c mtx sem_mtx sem readers place below inv was unlike i)));
        token = inr (
            inr (
              f,
              Nobody-same n c place uncounting leave_unlock below at is_writer refl w,
              Nobody-same n c place uncounting leave_unlock below at is_first refl a,
              inl (omega arith),
            ));
      }

  -- The first reader takes the semaphore.
  pub first_take-Inv :
      place c ≡ first_take → Inv n mtx sem_mtx 0 readers (update place c first_unlock)
  first_take-Inv at =
      let was : in_mtx (place c) ≡ true = rw at refl in
      let was_sem : in_sem_mtx (place c) ≡ true = rw at refl in
      let (f, w, a) =
        token-Free n c mtx sem_mtx sem readers place below inv (inv.taking c (rw at refl)) in
      record {
        small = inv.small;
        beyond = still_beyond n c place first_take first_unlock below at inv.beyond;
        mtx_held = mtx-same n c place first_take first_unlock below at mtx refl inv.mtx_held;
        sem_mtx_held =
            sem_mtx-same n c place first_take first_unlock below at sem_mtx refl inv.sem_mtx_held;
        counted = inv.counted ∙ sym (counted-same n c place first_take first_unlock below at refl);
        taking = λ i t.
            absurd
              (ground (arith, Nobody-new is_taking first_unlock refl (other_takers was_sem) i));
        signal = still n c place first_take first_unlock below at is_last (λ t. cc) inv.signal;
        token = inr (
            inr (
              refl,
              Nobody-same n c place first_take first_unlock below at is_writer refl w,
              Nobody-new is_first first_unlock refl
                  (λ i ne. first-in_mtx (place i) (others was i ne)),
              inl (some_counted (rw at refl)),
            ));
      }

  pub write_take-Inv :
      place c ≡ write_take → Inv n mtx sem_mtx 0 readers (update place c write_unlock)
  write_take-Inv at =
      let was_sem : in_sem_mtx (place c) ≡ true = rw at refl in
      let (f, w, a) =
        token-Free n c mtx sem_mtx sem readers place below inv (inv.taking c (rw at refl)) in
      record {
        small = inv.small;
        beyond = still_beyond n c place write_take write_unlock below at inv.beyond;
        mtx_held = mtx-same n c place write_take write_unlock below at mtx refl inv.mtx_held;
        sem_mtx_held =
            sem_mtx-same n c place write_take write_unlock below at sem_mtx refl inv.sem_mtx_held;
        counted = inv.counted ∙ sym (counted-same n c place write_take write_unlock below at refl);
        taking = λ i t.
            absurd
              (ground (arith, Nobody-new is_taking write_unlock refl (other_takers was_sem) i));
        signal = still n c place write_take write_unlock below at is_last (λ t. cc) inv.signal;
        token = inr (
            inl (
              refl,
              (c, Only-new is_writer place c write_unlock refl w),
              Nobody-same n c place write_take write_unlock below at is_admitted refl a,
            ));
      }

  -- The last reader gives the semaphore back.
  pub last_signal-Inv :
      place c ≡ last_signal → (sem ≡ 0) × Inv n mtx sem_mtx 1 readers (update place c leave_unlock)
  last_signal-Inv at =
      let was : in_mtx (place c) ≡ true = rw at refl in
      let (f, w, a, r) = token-Read n c mtx sem_mtx sem readers place below inv (rw at refl) in
      let none =
        none_counted n c mtx sem_mtx sem readers place below inv (inv.signal c (rw at refl)) in
      (
        f,
        record {
          small = inv.small;
          beyond = still_beyond n c place last_signal leave_unlock below at inv.beyond;
          mtx_held = mtx-same n c place last_signal leave_unlock below at mtx refl inv.mtx_held;
          sem_mtx_held =
              sem_mtx-same n c place last_signal leave_unlock below at sem_mtx refl
                inv.sem_mtx_held;
          counted =
              inv.counted ∙ sym (counted-same n c place last_signal leave_unlock below at refl);
          taking = λ i t. refl;
          signal = still n c place last_signal leave_unlock below at is_last (λ t. cc) inv.signal;
          token = inl (
            refl,
            Nobody-same n c place last_signal leave_unlock below at is_writer refl w,
            Nobody-new is_admitted leave_unlock refl (λ i ne.
                admitted-split (place i) (none i) (last-in_mtx (place i) (others was i ne))),
          );
        },
      )

  pub writing-Inv :
      place c ≡ writing → (sem ≡ 0) × Inv n mtx sem_mtx 1 readers (update place c outside)
  writing-Inv at =
      let (f, w, a) = token-Written in
      (
        f,
        record {
          small = inv.small;
          beyond = still_beyond n c place writing outside below at inv.beyond;
          mtx_held = mtx-same n c place writing outside below at mtx refl inv.mtx_held;
          sem_mtx_held =
              sem_mtx-same n c place writing outside below at sem_mtx refl inv.sem_mtx_held;
          counted = inv.counted ∙ sym (counted-same n c place writing outside below at refl);
          taking = λ i t. refl;
          signal = still n c place writing outside below at is_last (λ t. cc) inv.signal;
          token = inl (
            refl,
            Nobody-new is_writer outside refl (λ i ne. ground (arith, w.1.1 i, w.1.1 c)),
            Nobody-same n c place writing outside below at is_admitted refl a,
          );
        },
      )
    where
      token-Written : Written sem readers place
      token-Written = elim inv.token [
        | inl t ↦ absurd (ground (arith, t.1 c))
        | inr (inl t) ↦ t
        | inr (inr t) ↦ absurd (ground (arith, t.1 c))
      ]
