-- ===== src/Str/Compare.antt =====
-- `_strcmp` and `_strncmp` against the order of the two strings' bytes.
use catch_os.Base.{ℕ, zero, suc, ◌+◌, ◌<◌, ◌≡◌, refl, arith, ◌↔◌}
use catch_os.Base.{ltb, ◌==◌, if◌then◌else◌, Mem, ℤ, pos, negsuc}
use catch_os.Base.{List, [], ◌∷◌, some, length, take, ◌∙◌, ap}
use catch_os.Str.{strcmp, strncmp}
use catch_os.Str.Blocks.{IsString}

-- The lexicographic order of byte strings: -1, 0 or 1.
abbrev pub compare_bytes : List ℕ → List ℕ → ℤ
compare_bytes [] [] = pos 0
compare_bytes [] (y ∷ ys) = negsuc 0
compare_bytes (x ∷ xs) [] = pos 1
compare_bytes (x ∷ xs) (y ∷ ys) =
    let rest = compare_bytes xs ys in if x == y then rest else if ltb x y then negsuc 0 else pos 1

-- `_strcmp` gives the lexicographic order of the two strings, and stops when the fuel exceeds the
-- length of the first.
pub strcmp-compare :
    (f : ℕ) (mem : Mem) (s t : ℕ) (xs ys : List ℕ)
    → IsString mem s xs
    → IsString mem t ys
    → length xs < f
    → strcmp f mem s t ≡ some (compare_bytes xs ys)
unfolding strcmp
strcmp-compare zero mem s t xs ys h k lt = absurd (omega arith)
strcmp-compare (suc f) mem s t [] [] h k lt = ground arith
strcmp-compare (suc f) mem s t [] (y ∷ ys) h k lt = ground arith
strcmp-compare (suc f) mem s t (x ∷ xs) [] h k lt = ground arith
strcmp-compare (suc f) mem s t (x ∷ xs) (y ∷ ys) h k lt =
    ground (arith, strcmp-compare f mem (s + 1) (t + 1) xs ys)

-- `_strncmp` compares the first `n` bytes of the two strings.
pub strncmp-compare :
    (n : ℕ) (mem : Mem) (s t : ℕ) (xs ys : List ℕ)
    → IsString mem s xs
    → IsString mem t ys
    → strncmp mem s t n ≡ compare_bytes (take n xs) (take n ys)
unfolding strncmp
strncmp-compare zero mem s t xs ys h k = refl
strncmp-compare (suc n) mem s t [] [] h k = ground arith
strncmp-compare (suc n) mem s t [] (y ∷ ys) h k = ground arith
strncmp-compare (suc n) mem s t (x ∷ xs) [] h k = ground arith
strncmp-compare (suc n) mem s t (x ∷ xs) (y ∷ ys) h k =
    ground (arith, strncmp-compare n mem (s + 1) (t + 1) xs ys)

-- The order is 0 exactly for equal strings.
pub compare_bytes_eq : (xs ys : List ℕ) → compare_bytes xs ys ≡ pos 0 → xs ≡ ys
compare_bytes_eq [] [] h = refl
compare_bytes_eq [] (y ∷ ys) h = cc
compare_bytes_eq (x ∷ xs) [] h = cc
compare_bytes_eq (x ∷ xs) (y ∷ ys) h = ground (arith, compare_bytes_eq xs ys)

pub compare_bytes_self : (xs : List ℕ) → compare_bytes xs xs ≡ pos 0
compare_bytes_self [] = refl
compare_bytes_self (x ∷ xs) = ground (arith, compare_bytes_self xs)

-- On two strings in memory, `_strcmp` returns 0 exactly when they are the same bytes, when the
-- fuel exceeds the length of the first.
strcmp_eq :
    (f : ℕ) (mem : Mem) (s t : ℕ) (xs ys : List ℕ)
    → IsString mem s xs
    → IsString mem t ys
    → length xs < f
    → (strcmp f mem s t ≡ some (pos 0)) ↔ (xs ≡ ys)
strcmp_eq f mem s t xs ys h k lt = (
  λ e. compare_bytes_eq xs ys (cc (strcmp-compare f mem s t xs ys h k lt)),
  λ e. strcmp-compare f mem s t xs ys h k lt ∙ ap some (rw (← e) (compare_bytes_self xs)),
)
