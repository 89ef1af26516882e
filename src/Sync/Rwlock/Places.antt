-- ===== src/Sync/Rwlock/Places.antt =====
-- What the places of a CPU mean for the parts of the lock, and what one change of place does.
use catch_os.Base.{ℕ, ◌≡◌, ◌≢◌, refl, arith, Bool, true, false, inl, inr, ◌⊎◌, update}
use catch_os.Sync.Rwlock.{
  Place, counting, first_spin, first_wait, first_take, first_unlock, read_unlock, reading,
  leave_spin, uncounting, last_signal, leave_unlock, write_wait, write_take, write_unlock, writing,
}

-- Inside `mtx`.
abbrev pub in_mtx : Place → Bool
in_mtx p = elim p [
  | counting ↦ true
  | first_spin ↦ true
  | first_wait ↦ true
  | first_take ↦ true
  | first_unlock ↦ true
  | read_unlock ↦ true
  | uncounting ↦ true
  | last_signal ↦ true
  | leave_unlock ↦ true
  | _ ↦ false
]

-- Inside `sem_mtx`.
abbrev pub in_sem_mtx : Place → Bool
in_sem_mtx p = elim p [
  | first_wait ↦ true
  | first_take ↦ true
  | first_unlock ↦ true
  | write_wait ↦ true
  | write_take ↦ true
  | write_unlock ↦ true
  | _ ↦ false
]

-- About to take the semaphore.
abbrev pub is_taking : Place → Bool
is_taking p = elim p [ first_take ↦ true | write_take ↦ true | _ ↦ false ]

-- Counted in `reader_count`.
abbrev pub is_counted : Place → Bool
is_counted p = elim p [
  | first_spin ↦ true
  | first_wait ↦ true
  | first_take ↦ true
  | first_unlock ↦ true
  | read_unlock ↦ true
  | reading ↦ true
  | leave_spin ↦ true
  | uncounting ↦ true
  | _ ↦ false
]

-- The first reader, before it has the semaphore.
abbrev pub is_first : Place → Bool
is_first p = elim p [ first_spin ↦ true | first_wait ↦ true | first_take ↦ true | _ ↦ false ]

-- A reader while the readers have the semaphore.
abbrev pub is_admitted : Place → Bool
is_admitted p = elim p [
  | first_unlock ↦ true
  | read_unlock ↦ true
  | reading ↦ true
  | leave_spin ↦ true
  | uncounting ↦ true
  | last_signal ↦ true
  | _ ↦ false
]

-- The last reader, before it has given the semaphore back.
abbrev pub is_last : Place → Bool
is_last p = elim p [ last_signal ↦ true | _ ↦ false ]

-- A writer that has the semaphore.
abbrev pub is_writer : Place → Bool
is_writer p = elim p [ write_unlock ↦ true | writing ↦ true | _ ↦ false ]

-- No CPU is at such a place.
abbrev pub Nobody : (Place → Bool) → (ℕ → Place) → Type 0
Nobody at place = (i : ℕ) → at (place i) ≡ false

-- CPU `c` alone is at such a place.
abbrev pub Only : (Place → Bool) → ℕ → (ℕ → Place) → Type 0
Only at c place = (at (place c) ≡ true) × ((i : ℕ) → i ≢ c → at (place i) ≡ false)

-- A spin lock and the places inside it.
abbrev pub Guards : (Place → Bool) → ℕ → (ℕ → Place) → Type 0
Guards at locked place =
    ((locked ≡ 0) × Nobody at place) ⊎ ((locked ≡ 1) × (c : ℕ) × Only at c place)

module _ (at : Place → Bool) (place : ℕ → Place) (c : ℕ) (p : Place) where
  pub Nobody-update : at p ≡ false → Nobody at place → Nobody at (update place c p)
  Nobody-update e h i = ground (arith, h i)

  pub Only-new : at p ≡ true → Nobody at place → Only at c (update place c p)
  Only-new e h = (ground arith, λ i ne. ground (arith, h i))

  pub Only-same : (d : ℕ) → at p ≡ at (place c) → Only at d place → Only at d (update place c p)
  Only-same d e h = (ground (arith, h.0), λ i ne. ground (arith, h.1 i ne))

  pub Only-gone : at p ≡ false → Only at c place → Nobody at (update place c p)
  Only-gone e h i = ground (arith, h.1 i)

  pub Only-is : (d : ℕ) → at (place c) ≡ true → Only at d place → d ≡ c
  Only-is d e h = ground (arith, h.1 c)

  pub Guards-same :
      (locked : ℕ)
      → at p ≡ at (place c)
      → Guards at locked place
      → Guards at locked (update place c p)
  Guards-same locked e (inl h) = inl (h.0, λ i. ground (arith, h.1 i))
  Guards-same locked e (inr (o, d, h)) = inr (o, d, Only-same d e h)

  pub Guards-won : at p ≡ true → Guards at 0 place → Guards at 1 (update place c p)
  Guards-won e (inl h) = inr (refl, c, Only-new e h.1)
  Guards-won e (inr (o, d, h)) = absurd (omega arith)

  pub Guards-left :
      (locked : ℕ)
      → at (place c) ≡ true
      → at p ≡ false
      → Guards at locked place
      → Guards at 0 (update place c p)
  Guards-left locked was e (inl h) = absurd (ground (arith, h.1 c))
  Guards-left locked was e (inr (o, d, h)) =
      let same = Only-is d was h in inl (refl, Only-gone e (rw same at h))

  pub Guards-alone :
      (locked : ℕ)
      → at (place c) ≡ true
      → Guards at locked place
      → (i : ℕ) → i ≢ c
      → at (place i) ≡ false
  Guards-alone locked was (inl h) i ne = h.1 i
  Guards-alone locked was (inr (o, d, h)) i ne = ground (arith, h.1 i, h.1 c)
