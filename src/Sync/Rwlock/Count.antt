-- ===== src/Sync/Rwlock/Count.antt =====
-- How many CPUs below a bound are at a place of some kind.
use catch_os.Base.{
  ℕ, zero, suc, ◌+◌, ◌<◌, ◌≤◌, ◌≡◌, refl, arith, Bool, true, false, Bool-cases, inl, inr, update,
  ◌==◌, if◌then◌else◌,
}
use catch_os.Sync.Rwlock.{Place}

-- 1 for true.
abbrev pub bit : Bool → ℕ
bit b = if b then 1 else 0

abbrev pub count : (Place → Bool) → (ℕ → Place) → ℕ → ℕ
count at place zero = 0
count at place (suc n) = bit (at (place n)) + count at place n

module _ (at : Place → Bool) (place : ℕ → Place) where
  count-beyond :
      (c : ℕ) (p : Place) (n : ℕ) → n ≤ c → count at (update place c p) n ≡ count at place n
  count-beyond c p zero le = refl
  count-beyond c p (suc n) le = let r = count-beyond c p n (omega arith) in ground (arith, r)

  pub count-update :
      (c : ℕ) (p : Place) (n : ℕ)
      → c < n
      → count at (update place c p) n + bit (at (place c)) ≡ count at place n + bit (at p)
  count-update c p zero lt = absurd (omega arith)
  count-update c p (suc n) lt = elim (Bool-cases (n == c)) [
    | inl e ↦
        (let r = count-beyond c p n (ground arith) in
          let same : n ≡ c = ground arith in rw (e, r, same) (omega arith))
    | inr e ↦ (let r = count-update c p n (ground arith) in rw e (omega (arith, r)))
  ]

  pub count_some : (c n : ℕ) → c < n → at (place c) ≡ true → 1 ≤ count at place n
  count_some c zero lt e = absurd (omega arith)
  count_some c (suc n) lt e = elim (Bool-cases (n == c)) [
    | inl same ↦ (let s : n ≡ c = ground arith in rw (s, e) (omega arith))
    | inr other ↦ (let r = count_some c n (ground arith) e in omega (arith, r))
  ]

  pub count_none : (n : ℕ) → ((i : ℕ) → i < n → at (place i) ≡ false) → count at place n ≡ 0
  count_none zero h = refl
  count_none (suc n) h =
      let r = count_none n (λ i lt. h i (omega arith)) in rw (h n (omega arith)) (omega (arith, r))

  pub count_bound : (n : ℕ) → count at place n ≤ n
  count_bound zero = omega arith
  count_bound (suc n) = let r = count_bound n in ground (arith, r)
