-- ===== src/Base/Loops.antt =====
-- Counted loops and their invariant rule.
use Prim.Native.Nat.{ℕ, zero, suc, ◌+◌, ◌<◌}
use mathlib.Core.Path.{◌≡◌}
use native.Mathlib.Omega.{arith}

-- `for (k = first; k < first + rounds; k++) st = body k st`, by the rounds left.
unfoldable pub for_range {ℓ} : {S : Type ℓ} → ℕ → ℕ → (ℕ → S → S) → S → S
for_range zero first body st = st
for_range (suc rounds) first body st = for_range rounds (first + 1) body (body first st)

-- The rule with the index in its range, which ends at `e`.
pub for_range_inv {ℓ κ} :
    {S : Type ℓ} (Inv : ℕ → S → Type κ) (body : ℕ → S → S) (e : ℕ)
    → ((k : ℕ) (st : S) → k < e → Inv k st → Inv (k + 1) (body k st))
    → (rounds first : ℕ) (st : S) → first + rounds ≡ e
    → Inv first st
    → Inv e (for_range rounds first body st)
unfolding for_range
for_range_inv Inv body e step zero first st end inv =
    let done : first ≡ e = omega arith in rw (← done) inv
for_range_inv Inv body e step (suc rounds) first st end inv =
    let inv' = step first st (omega arith) inv in
    for_range_inv Inv body e step rounds (first + 1) (body first st) (omega arith) inv'
