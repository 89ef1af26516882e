-- ===== src/Sync/Rwlock/Invariant.antt =====
-- The invariant of the readers-writer lock, and its behaviour when one CPU changes its place.
use catch_os.Base.{
  ℕ, ◌<◌, ◌≤◌, ◌^◌, ◌≡◌, sym, ap, ◌∙◌, arith, Bool, true, Bool-cases, inl, inr, ◌⊎◌, update,
  update_ne, ◌==◌,
}
use catch_os.Sync.Rwlock.{Place, outside}
use catch_os.Sync.Rwlock.Places.{
  in_mtx, in_sem_mtx, is_taking, is_counted, is_first, is_admitted, is_last, is_writer, Nobody,
  Only, Guards, Nobody-update, Only-same, Guards-same,
}
use catch_os.Sync.Rwlock.Count.{bit, count, count-update}

-- The semaphore is free, or a writer has it, or the readers have it.
abbrev pub Free : ℕ → ℕ → (ℕ → Place) → Type 0
Free sem readers place = (sem ≡ 1) × Nobody is_writer place × Nobody is_admitted place

abbrev pub Written : ℕ → ℕ → (ℕ → Place) → Type 0
Written sem readers place =
    (sem ≡ 0) × ((d : ℕ) × Only is_writer d place) × Nobody is_admitted place

abbrev pub Read : ℕ → ℕ → (ℕ → Place) → Type 0
Read sem readers place =
    (sem ≡ 0)
    × Nobody is_writer place
    × Nobody is_first place
    × ((1 ≤ readers) ⊎ ((d : ℕ) × (is_last (place d) ≡ true)))

abbrev pub Token : ℕ → ℕ → (ℕ → Place) → Type 0
Token sem readers place =
    Free sem readers place ⊎ (Written sem readers place ⊎ Read sem readers place)

-- For `n` CPUs: the values of the two spin locks, of the semaphore and of the readers' count.
pub record Inv (n mtx sem_mtx sem readers : ℕ) (place : ℕ → Place) : Type 0 where
  pub small : n < 2 ^ 31
  pub beyond : (i : ℕ) → n ≤ i → place i ≡ outside
  pub mtx_held : Guards in_mtx mtx place
  pub sem_mtx_held : Guards in_sem_mtx sem_mtx place
  pub counted : readers ≡ count is_counted place n
  pub taking : (i : ℕ) → is_taking (place i) ≡ true → sem ≡ 1
  pub signal : (i : ℕ) → is_last (place i) ≡ true → readers ≡ 0
  pub token : Token sem readers place

-- Places that mean the same for the semaphore and the count.
abbrev pub Alike : Place → Place → Type 0
Alike p q =
    (is_counted q ≡ is_counted p)
    × (is_first q ≡ is_first p)
    × (is_admitted q ≡ is_admitted p)
    × (is_last q ≡ is_last p)
    × (is_writer q ≡ is_writer p)

module _ (n c : ℕ) (place : ℕ → Place) (p q : Place) (below : c < n) (at : place c ≡ p) where
  pub counted-same :
      is_counted q ≡ is_counted p → count is_counted (update place c q) n ≡ count is_counted place n
  counted-same e =
      let r = count-update is_counted place c q n below in
      let same : is_counted q ≡ is_counted (place c) = rw at e in omega (arith, r, ap bit same)

  pub Nobody-same :
      (kind : Place → Bool) → kind q ≡ kind p → Nobody kind place → Nobody kind (update place c q)
  Nobody-same kind e h = Nobody-update kind place c q (e ∙ ap kind (sym at) ∙ h c) h

  kept_last :
      is_last q ≡ is_last p
      → (d : ℕ) → is_last (place d) ≡ true
      → is_last (update place c q d) ≡ true
  kept_last e d h = ground (arith, at)

  Token-same :
      (sem readers : ℕ) → Alike p q → Token sem readers place → Token sem readers (update place c q)
  Token-same sem readers (e1, e2, e3, e4, e5) (inl (f, w, a)) =
      inl (f, Nobody-same is_writer e5 w, Nobody-same is_admitted e3 a)
  Token-same sem readers (e1, e2, e3, e4, e5) (inr (inl (f, (d, w), a))) = inr (
      inl (
        f,
        (d, Only-same is_writer place c q d (e5 ∙ ap is_writer (sym at)) w),
        Nobody-same is_admitted e3 a,
      ))
  Token-same sem readers (e1, e2, e3, e4, e5) (inr (inr (f, w, a, inl r))) =
      inr (inr (f, Nobody-same is_writer e5 w, Nobody-same is_first e2 a, inl r))
  Token-same sem readers (e1, e2, e3, e4, e5) (inr (inr (f, w, a, inr (d, l)))) =
      inr
        (inr (f, Nobody-same is_writer e5 w, Nobody-same is_first e2 a, inr (d, kept_last e4 d l)))

  pub still_beyond :
      ((i : ℕ) → n ≤ i → place i ≡ outside) → (i : ℕ) → n ≤ i → update place c q i ≡ outside
  still_beyond h i le = update_ne place c q i (omega arith) ∙ h i le

  -- A kind of places has a consequence: if the new place has it, it is shown for that.
  pub still {ℓ} :
      {X : Type ℓ} (kind : Place → Bool)
      → (kind q ≡ true → X)
      → ((i : ℕ) → kind (place i) ≡ true → X)
      → (i : ℕ) → kind (update place c q i) ≡ true
      → X
  still kind new h i = elim (Bool-cases (i == c)) [
    | inl e ↦ rw e (λ t. new t)
    | inr e ↦ rw e (λ t. h i t)
  ]

  -- A step that only changes the place and the spin locks.
  pub Inv-goto :
      (mtx sem_mtx mtx' sem_mtx' sem readers : ℕ)
      → Alike p q
      → (is_taking q ≡ true → sem ≡ 1)
      → Guards in_mtx mtx' (update place c q)
      → Guards in_sem_mtx sem_mtx' (update place c q)
      → Inv n mtx sem_mtx sem readers place
      → Inv n mtx' sem_mtx' sem readers (update place c q)
  Inv-goto mtx sem_mtx mtx' sem_mtx' sem readers alike takes m s inv = record {
    small = inv.small;
    beyond = still_beyond inv.beyond;
    mtx_held = m;
    sem_mtx_held = s;
    counted = inv.counted ∙ sym (counted-same alike.0);
    taking = still is_taking takes inv.taking;
    signal = still is_last (λ t. inv.signal c (ap is_last at ∙ sym alike.3 ∙ t)) inv.signal;
    token = Token-same sem readers alike inv.token;
  }

  pub mtx-same :
      (mtx : ℕ)
      → in_mtx q ≡ in_mtx p
      → Guards in_mtx mtx place
      → Guards in_mtx mtx (update place c q)
  mtx-same mtx e h = Guards-same in_mtx place c q mtx (e ∙ ap in_mtx (sym at)) h

  pub sem_mtx-same :
      (mtx : ℕ)
      → in_sem_mtx q ≡ in_sem_mtx p
      → Guards in_sem_mtx mtx place
      → Guards in_sem_mtx mtx (update place c q)
  sem_mtx-same mtx e h = Guards-same in_sem_mtx place c q mtx (e ∙ ap in_sem_mtx (sym at)) h
