-- ===== src/Shell/Edit.antt =====
-- The abstract input line, a list of characters with the latest first, and such a line in memory.
use catch_os.Base.{
  ℕ, ◌+◌, ◌<◌, ◌≡◌, arith, Mem, length, List, [], ◌∷◌, leb, ◌==◌, if◌then◌else◌, ◌∙◌,
}
use catch_os.Shell.{cin_bufsz}
use catch_os.Drivers.Keyboard.{key_backspace}

-- All but the last character.
abbrev pub drop_last : List ℕ → List ℕ
drop_last [] = []
drop_last (x ∷ xs) = xs

-- What a key does to the line: 0 and keys behind a full line are ignored.
abbrev pub edit : ℕ → List ℕ → List ℕ
edit key line =
    if key == 0
    then line
    else if leb cin_bufsz (length line)
    then line
    else if key == key_backspace
    then drop_last line
    else key ∷ line

-- The characters of the line lie at `a`, the first one lowest.
abbrev pub Holds : Mem → ℕ → List ℕ → Type 0
Holds m a [] = Unit
Holds m a (x ∷ xs) = (m (a + length xs) ≡ x) × Holds m a xs

-- The same characters at another place of another memory.
pub Holds-moved :
    (m n : Mem) (a b : ℕ) (xs : List ℕ)
    → ((k : ℕ) → k < length xs → n (b + k) ≡ m (a + k))
    → Holds m a xs
    → Holds n b xs
Holds-moved m n a b [] same h = tt
Holds-moved m n a b (x ∷ xs) same (e, h) =
    (same (length xs) (omega arith) ∙ e, Holds-moved m n a b xs (λ k lt. same k (omega arith)) h)
