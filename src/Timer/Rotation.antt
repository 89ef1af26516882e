-- ===== src/Timer/Rotation.antt =====
-- The timer interrupt visits the CPUs in turn.
use catch_os.Base.{ℕ, zero, suc, ◌+◌, ◌%◌, ◌^◌, ◌<◌, ◌≡◌, refl, sym, ap, ◌∙◌, arith}
use native.Mathlib.Nat.{mod-add-mod, mod-eq_of_lt}
use catch_os.Timer.{Timer, rotate}

-- `n` ticks.
unfoldable pub rotate_times : ℕ → ℕ → (ℕ → ℕ) → Timer → Timer
rotate_times zero count ids t = t
rotate_times (suc n) count ids t = rotate_times n count ids (rotate count ids t)

module _ (count : ℕ) (ids : ℕ → ℕ) (some : 0 < count) (few : count < 2 ^ 8) where
  rotate-cpuno : (t : Timer) → t.cpuno < count → (rotate count ids t).cpuno ≡ (t.cpuno + 1) % count
  unfolding rotate
  rotate-cpuno t lt = ap (λ c. c % count) (omega arith)

  mod_below : (a : ℕ) → a % count < count
  mod_below a = ground arith

  at_rest : (a : ℕ) → a < count → a ≡ (a + 0) % count
  at_rest a lt = sym (mod-eq_of_lt lt) ∙ ap (λ x. x % count) (omega arith)

  -- For 1 to 255 CPUs, from a CPU below their number: after any number of ticks the CPU is the one
  -- as many places further in the round, and the count of ticks is as much higher, modulo 2 ^ 32.
  rotate_times-round :
      (n : ℕ) (t : Timer)
      → t.cpuno < count
      → t.ticks < 2 ^ 32
      → let u = rotate_times n count ids t in
        (u.cpuno ≡ (t.cpuno + n) % count) × (u.ticks ≡ (t.ticks + n) % 2 ^ 32)
  unfolding rotate_times
  rotate_times-round zero t lt small = (at_rest t.cpuno lt, omega arith)
  rotate_times-round (suc n) t lt small =
      let u = rotate count ids t in
      let step = rotate-cpuno t lt in
      let tick : u.ticks ≡ (t.ticks + 1) % 2 ^ 32 = unfold rotate in refl in
      let ih = rotate_times-round n u (rw step (mod_below (t.cpuno + 1))) (omega arith) in
      (
        ih.0
            ∙ ap (λ c. (c + n) % count) step
            ∙ mod-add-mod (t.cpuno + 1) count n
            ∙ ap (λ c. c % count) (omega arith),
        ih.1 ∙ ap (λ x. (x + n) % 2 ^ 32) tick ∙ omega arith,
      )
