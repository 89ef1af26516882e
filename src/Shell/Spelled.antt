-- ===== src/Shell/Spelled.antt =====
-- The line that keys spell, in reading order and as a string in memory.
use catch_os.Base.{
  ℕ, suc, ◌+◌, ◌≡◌, ◌≢◌, arith, inl, inr, Mem, length, List, [], ◌∷◌, ◌==◌, Bool-cases, ap, Option,
  none, some,
}
use mathlib.Core.Path.{subst}
use catch_os.Str.Blocks.{IsString}
use catch_os.Shell.{newline}
use catch_os.Shell.Edit.{edit, Holds}
use catch_os.Shell.Cin.{typed_line}

-- The line in reading order, before `acc`.
abbrev pub onto : List ℕ → List ℕ → List ℕ
onto [] acc = acc
onto (x ∷ xs) acc = onto xs (x ∷ acc)

abbrev pub spelled : List ℕ → List ℕ
spelled line = onto line []

pub length-onto : (line acc : List ℕ) → length (onto line acc) ≡ length line + length acc
length-onto [] acc = omega arith
length-onto (x ∷ xs) acc = let ih = length-onto xs (x ∷ acc) in omega arith

abbrev pub NoZero : List ℕ → Type 0
NoZero [] = Unit
NoZero (x ∷ xs) = (x ≢ 0) × NoZero xs

pub Holds-IsString :
    (m : Mem) (a : ℕ) (line acc : List ℕ)
    → NoZero line
    → Holds m a line
    → IsString m (a + length line) acc
    → IsString m a (onto line acc)
Holds-IsString m a [] acc nz h string = let e : a + 0 ≡ a = omega arith in rw e at string
Holds-IsString m a (x ∷ xs) acc (some_char, nz) (e, h) string =
    let next : a + suc (length xs) ≡ a + length xs + 1 = omega arith in
    Holds-IsString m a xs (x ∷ acc) nz h (e, some_char, (rw next at string))

edit-NoZero : (key : ℕ) (line : List ℕ) → NoZero line → NoZero (edit key line)
edit-NoZero key [] nz = ground arith
edit-NoZero key (x ∷ xs) nz = ground arith

abbrev line_in : Option (List ℕ × List ℕ) → List ℕ
line_in none = []
line_in (some (line, left)) = line

pub typed_line-NoZero :
    (keys line final left : List ℕ)
    → NoZero line
    → typed_line line keys ≡ some (final, left)
    → NoZero final
typed_line-NoZero [] line final left nz e = cc
typed_line-NoZero (key ∷ keys) line final left nz e = elim (Bool-cases (key == newline)) [
  | inl is_end ↦ subst NoZero (ap line_in (rw is_end at e)) nz
  | inr other ↦
      typed_line-NoZero keys (edit key line) final left (edit-NoZero key line nz) (rw other at e)
]
