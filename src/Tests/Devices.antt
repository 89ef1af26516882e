-- ===== src/Tests/Devices.antt =====
-- The drivers and the spin lock on small inputs.
use catch_os.Base.{ℕ, ◌≡◌, ◌≢◌, refl, arith, List, [], ◌∷◌, true, false}
use catch_os.Drivers.Keyboard.{Keyboard}
use catch_os.Drivers.Keyboard.Shift.{run_codes, run_codes-shift_parity}
use catch_os.Sync.Spinlock.{System, outside, inside}
use catch_os.Sync.Spinlock.Exclusion.{run-exclusive}
use catch_os.Sync.Spinlock
use catch_os.Sync.Atomic

abbrev idle_keys : Keyboard
idle_keys = record { is_shift_key_depressed = 0; handler = 1; typed = [] }

-- A press of the left shift key that repeats once.
run_codes-shift_parity_example :
    (run_codes (42 ∷ 42 ∷ 30 ∷ []) idle_keys).is_shift_key_depressed ≡ 0
run_codes-shift_parity_example =
    run_codes-shift_parity (42 ∷ 42 ∷ 30 ∷ []) idle_keys
      (omega arith, (omega arith, (omega arith, tt))) (omega arith)

abbrev free_system : System
free_system = record {
  lock = record { locked = 0; is_irq_enabled_when_locked = false };
  place = λ _. outside;
  irq_enabled = λ _. true;
}

-- CPU 1 takes the lock while CPU 2 waits.
abbrev contended : List ℕ
contended = 1 ∷ 2 ∷ 1 ∷ 2 ∷ []

one_inside : (Spinlock.run contended free_system).place 1 ≡ inside
unfolding Spinlock.run Spinlock.move Spinlock.enter Spinlock.attempt Atomic.atomic_compare_exchange
one_inside = refl

run-exclusive_example : (Spinlock.run contended free_system).place 2 ≢ inside
run-exclusive_example =
    run-exclusive contended free_system (refl, λ _. refl) 1 2 (omega arith) one_inside
