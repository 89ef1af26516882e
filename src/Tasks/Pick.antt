-- ===== src/Tasks/Pick.antt =====
-- The search of `schedule` for a task to run.
use catch_os.Base.{ℕ, ◌+◌, ◌<◌, ◌≡◌, refl, arith, ◌==◌}
use catch_os.Base.{Bool, true, false, null, inl, inr, Bool-cases, not, ◌&&◌, ltb→lt, ltb→le}
use catch_os.Base.{ℤ, pos, negsuc, ◌≤ℤ◌, ltb_ℤ, pos_part, neg_part, for_range_inv}
use catch_os.Tasks.{Tasks, max_concurrent_tasks, is_ready}
use catch_os.Tasks.Schedule.{Choice, pick, pick_step}

abbrev pub is_candidate : Tasks → ℕ → Bool
is_candidate s j = not (s.tasks j == null) && is_ready (s.task_at (s.tasks j)).state

abbrev pub prio_of : Tasks → ℕ → ℤ
prio_of s j = (s.task_at (s.tasks j)).dynamic_prio

abbrev pub ◌<ℤ◌ : ℤ → ℤ → Type 0
◌<ℤ◌ a b = pos_part a + neg_part b < pos_part b + neg_part a

-- What the search knows after the slots below `i`.
pub record Best (s : Tasks) (i : ℕ) (ch : Choice) : Type 0 where
  -- No ready task has a higher priority.
  pub highest : (j : ℕ) → j < i → is_candidate s j ≡ true → prio_of s j ≤ℤ ch.c
  -- The priority is that of the ready task in the chosen slot, and earlier ready tasks have less.
  pub chosen :
      pos 0 ≤ℤ ch.c
      → (ch.next < i)
        × (is_candidate s ch.next ≡ true)
        × (prio_of s ch.next ≡ ch.c)
        × ((j : ℕ) → j < ch.next → is_candidate s j ≡ true → ◌<ℤ◌ (prio_of s j) ch.c)
  pub least : negsuc 0 ≤ℤ ch.c

module _ (s : Tasks) (i : ℕ) (ch : Choice) (b : Best s i ch) where
  better-Best :
      is_candidate s i ≡ true
      → ltb_ℤ ch.c (prio_of s i) ≡ true
      → Best s (i + 1) (record { c = prio_of s i; next = i })
  better-Best cand lt = record {
    highest = λ j le cj. elim (Bool-cases (j == i)) [
      | inl e ↦ let e' : j ≡ i = ground arith in rw e' (omega arith)
      | inr e ↦ omega (arith, ltb→lt _ _ lt, b.highest j (ground arith) cj)
    ];
    chosen =
        λ p. (omega arith, cand, refl, λ j le cj. omega (arith, ltb→lt _ _ lt, b.highest j le cj));
    least = omega (arith, ltb→lt _ _ lt, b.least);
  }

  same-Best : (is_candidate s i ≡ true → ltb_ℤ ch.c (prio_of s i) ≡ false) → Best s (i + 1) ch
  same-Best no_better = record {
    highest = λ j le cj. elim (Bool-cases (j == i)) [
      | inl e ↦ let e' : j ≡ i = ground arith in rw e' (ltb→le _ _ (no_better (rw e' at cj)))
      | inr e ↦ b.highest j (ground arith) cj
    ];
    chosen = λ p. let h = b.chosen p in (omega (arith, h.0), h.1, h.2, h.3);
    least = b.least;
  }

  Best-step : Best s (i + 1) (pick_step s i ch)
  Best-step = elim (Bool-cases (is_candidate s i)) [
    | inl e ↦ elim (Bool-cases (ltb_ℤ ch.c (prio_of s i))) [
      | inl f ↦
          let p : pick_step s i ch ≡ record { c = prio_of s i; next = i } = ground arith in
          rw p (better-Best e f)
      | inr f ↦ let p : pick_step s i ch ≡ ch = ground arith in rw p (same-Best (λ c. f))
    ]
    | inr e ↦ let p : pick_step s i ch ≡ ch = ground arith in rw p (same-Best (λ c. cc))
  ]

-- The search of `schedule` finds the ready task of the highest priority, the first of several in
-- the order of the slots; a negative `c` means that no ready task has a priority of 0 or more.
pub pick-Best : (s : Tasks) → Best s max_concurrent_tasks (pick s)
unfolding pick
pick-Best s =
    for_range_inv (Best s) (pick_step s) max_concurrent_tasks (λ i ch lt b. Best-step s i ch b)
      max_concurrent_tasks 0 _ refl
      (record {
        highest = λ j lt cj. absurd (omega arith);
        chosen = λ p. absurd (omega arith);
        least = omega arith;
      })
