-- ===== src/Sync/Spinlock/Exclusion.antt =====
-- One CPU at a time between `spinlock_lock` and `spinlock_unlock`.
use catch_os.Base.{ℕ, ◌≡◌, ◌≢◌, refl, arith, List, [], ◌∷◌, Bool, true, false, inl, inr, ◌⊎◌}
use catch_os.Sync.Atomic.{atomic_compare_exchange, atomic_store}
use catch_os.Sync.Spinlock.{
  Place, System, enter, attempt, release, restore, move, run, outside, spinning, inside, leaving,
}

abbrev pub is_inside : Place → Bool
is_inside outside = false
is_inside spinning = false
is_inside inside = true
is_inside leaving = false

-- The lock is free and no CPU is inside.
abbrev pub Free : System → Type 0
Free s = (s.lock.locked ≡ 0) × ((i : ℕ) → is_inside (s.place i) ≡ false)

-- CPU `c` alone is inside, and the lock is taken.
abbrev Held : ℕ → System → Type 0
Held c s =
    (s.lock.locked ≡ 1)
    × (is_inside (s.place c) ≡ true)
    × ((i : ℕ) → i ≢ c → is_inside (s.place i) ≡ false)

abbrev IsGuarded : System → Type 0
IsGuarded s = Free s ⊎ ((c : ℕ) × Held c s)

module _ (c : ℕ) (s : System) where
  enter-IsGuarded : s.place c ≡ outside → IsGuarded s → IsGuarded (enter c s)
  unfolding enter
  enter-IsGuarded e (inl f) = inl (f.0, λ i. ground (arith, f.1 i))
  enter-IsGuarded e (inr (k, f)) =
      inr (k, (f.0, ground (arith, f.1), λ i ne. ground (arith, f.2 i ne)))

  attempt-IsGuarded : s.place c ≡ spinning → IsGuarded s → IsGuarded (attempt c s)
  unfolding attempt atomic_compare_exchange
  attempt-IsGuarded e (inl f) =
      inr (c, (ground (arith, f.0), ground (arith, f.0), λ i ne. ground (arith, f.0, f.1 i)))
  attempt-IsGuarded e (inr (k, f)) =
      inr
        (k, (ground (arith, f.0), ground (arith, f.0, f.1), λ i ne. ground (arith, f.0, f.2 i ne)))

  release-IsGuarded : s.place c ≡ inside → IsGuarded s → IsGuarded (release c s)
  unfolding release atomic_store
  release-IsGuarded e (inl f) = absurd (ground (arith, f.1 c))
  release-IsGuarded e (inr (k, f)) = inl (refl, λ i. ground (arith, f.2 i, f.2 c))

  restore-IsGuarded : s.place c ≡ leaving → IsGuarded s → IsGuarded (restore c s)
  unfolding restore
  restore-IsGuarded e (inl f) = inl (f.0, λ i. ground (arith, f.1 i))
  restore-IsGuarded e (inr (k, f)) =
      inr (k, (f.0, ground (arith, f.1), λ i ne. ground (arith, f.2 i ne)))

  place_cases : (p : Place) → (p ≡ outside) ⊎ ((p ≡ spinning) ⊎ ((p ≡ inside) ⊎ (p ≡ leaving)))
  place_cases outside = inl refl
  place_cases spinning = inr (inl refl)
  place_cases inside = inr (inr (inl refl))
  place_cases leaving = inr (inr (inr refl))

  move-IsGuarded : IsGuarded s → IsGuarded (move c s)
  unfolding move
  move-IsGuarded h = elim (place_cases (s.place c)) [
    | inl e ↦ rw (move, e) (enter-IsGuarded e h)
    | inr (inl e) ↦ rw (move, e) (attempt-IsGuarded e h)
    | inr (inr (inl e)) ↦ rw (move, e) (release-IsGuarded e h)
    | inr (inr (inr e)) ↦ rw (move, e) (restore-IsGuarded e h)
  ]

run-IsGuarded : (cs : List ℕ) (s : System) → IsGuarded s → IsGuarded (run cs s)
unfolding run
run-IsGuarded [] s h = h
run-IsGuarded (c ∷ cs) s h = run-IsGuarded cs (move c s) (move-IsGuarded c s h)

alone : (s : System) → IsGuarded s → (i j : ℕ) → s.place i ≡ inside → s.place j ≡ inside → i ≡ j
alone s (inl f) i j hi hj = absurd (ground (arith, f.1 i))
alone s (inr (k, f)) i j hi hj = ground (arith, f.2 i, f.2 j)

-- From a free lock, whatever the schedule: while a CPU is between `spinlock_lock` and
-- `spinlock_unlock`, no other CPU is.
pub run-exclusive :
    (cs : List ℕ) (s : System)
    → Free s
    → (i j : ℕ) → i ≢ j
    → (run cs s).place i ≡ inside
    → (run cs s).place j ≢ inside
run-exclusive cs s f i j ne hi hj = ne (alone (run cs s) (run-IsGuarded cs s (inl f)) i j hi hj)
