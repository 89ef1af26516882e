-- ===== src/Base/Arrays.antt =====
-- C arrays and raw memory: a function from the index or the address. A write out of the bounds
-- that the program means is a write at that index, as on the machine.
use Prim.Native.Nat.{ℕ, zero, suc}
use mathlib.Core.Path.{◌≡◌}
use mathlib.Core.Logic.{◌≢◌}
use mathlib.Core.List.{List, [], ◌∷◌}
use native.Mathlib.Omega.{arith}
use catch_os.Base.Tests.{◌==◌, if◌then◌else◌}

-- Byte-addressed memory.
abbrev pub Mem : Type 0
Mem = ℕ → ℕ

-- The null pointer.
abbrev pub null : ℕ
null = 0

-- One assignment `xs[i] = v`.
abbrev pub update {ℓ} : {A : Type ℓ} → (ℕ → A) → ℕ → A → ℕ → A
update xs i v j = if j == i then v else xs j

module _ {ℓ} {A : Type ℓ} (xs : ℕ → A) (i : ℕ) (v : A) where
  pub update_self : update xs i v i ≡ v
  update_self = ground arith

  pub update_ne : (j : ℕ) → j ≢ i → update xs i v j ≡ xs j
  update_ne j h = ground arith

module _ {ℓ} {A : Type ℓ} where
  abbrev pub length : List A → ℕ
  length [] = 0
  length (x ∷ xs) = suc (length xs)

  -- An initialised C array: `d` fills it up behind the listed items.
  abbrev pub array : A → List A → ℕ → A
  array d [] i = d
  array d (x ∷ xs) zero = x
  array d (x ∷ xs) (suc i) = array d xs i

  abbrev pub take : ℕ → List A → List A
  take zero xs = []
  take (suc n) [] = []
  take (suc n) (x ∷ xs) = x ∷ take n xs
