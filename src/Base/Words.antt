-- ===== src/Base/Words.antt =====
-- Stores and loads of 8, 16 and 32 bits, the low byte first.
use Prim.Native.Nat.{ℕ, ◌+◌, ◌*◌, ◌/◌, ◌%◌, ◌^◌, ◌≤◌, ◌<◌}
use mathlib.Core.List.{List, [], ◌∷◌}
use mathlib.Core.Path.{◌≡◌}
use mathlib.Core.Logic.{◌⊎◌}
use native.Mathlib.Omega.{arith}
use catch_os.Base.Arrays.{Mem, update}

abbrev pub store8 : Mem → ℕ → ℕ → Mem
store8 mem p v = update mem p (v % 256)

abbrev pub store16 : Mem → ℕ → ℕ → Mem
store16 mem p v = store8 (store8 mem p v) (p + 1) (v / 2 ^ 8)

abbrev pub store32 : Mem → ℕ → ℕ → Mem
store32 mem p v = store16 (store16 mem p v) (p + 2) (v / 2 ^ 16)

abbrev pub load32 : Mem → ℕ → ℕ
load32 mem p = mem p + 2 ^ 8 * mem (p + 1) + 2 ^ 16 * mem (p + 2) + 2 ^ 24 * mem (p + 3)

pub store32-other : (m : Mem) (p v a : ℕ) → (a < p) ⊎ (p + 4 ≤ a) → store32 m p v a ≡ m a
store32-other m p v a h = ground arith

pub load32-store32 : (m : Mem) (p v : ℕ) → load32 (store32 m p v) p ≡ v % 2 ^ 32
load32-store32 m p v = ground arith

pub load32-other :
    (m : Mem) (p v q : ℕ) → (q + 4 ≤ p) ⊎ (p + 4 ≤ q) → load32 (store32 m p v) q ≡ load32 m q
load32-other m p v q h = ground (
  arith,
  store32-other m p v q,
  store32-other m p v (q + 1),
  store32-other m p v (q + 2),
  store32-other m p v (q + 3),
)

-- The little-endian number of the bytes.
abbrev pub word_of : List ℕ → ℕ
word_of [] = 0
word_of (b ∷ bs) = b + 2 ^ 8 * word_of bs

-- The four bytes of a pointer.
abbrev pub pointer_bytes : ℕ → List ℕ
pointer_bytes p = p % 2 ^ 8 ∷ p / 2 ^ 8 % 2 ^ 8 ∷ p / 2 ^ 16 % 2 ^ 8 ∷ p / 2 ^ 24 % 2 ^ 8 ∷ []

pub word_of-pointer_bytes : (p : ℕ) → p < 2 ^ 32 → word_of (pointer_bytes p) ≡ p
word_of-pointer_bytes p lt = omega arith
