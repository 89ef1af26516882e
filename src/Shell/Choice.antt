-- ===== src/Shell/Choice.antt =====
-- Which command a line asks for: the first whose name the line begins with.
use catch_os.Base.{
  ℕ, ◌≤◌, ◌<◌, ◌≡◌, refl, arith, List, [], ◌∷◌, Mem, length, take, ap, some, Bool, true, false,
  if◌then◌else◌, ◌==◌, Bool-cases, inl, inr,
}
use catch_os.Str.Blocks.{IsString, strlen-length}
use catch_os.Str.Compare.{compare_bytes, strncmp-compare}
use catch_os.Shell.Command.{
  Command, uptime, help, program, picture, tests, restart, power_off, clear, nothing, Texts,
  asks_for, is_zero, find_command,
}

-- The names of the commands.
abbrev pub name_of : Command → List ℕ
name_of uptime = b'u' ∷ b'p' ∷ b't' ∷ b'i' ∷ b'm' ∷ b'e' ∷ []
name_of help = b'h' ∷ b'e' ∷ b'l' ∷ b'p' ∷ []
name_of program = b'p' ∷ b'r' ∷ b'o' ∷ b'g' ∷ b'r' ∷ b'a' ∷ b'm' ∷ []
name_of picture = b'r' ∷ b'e' ∷ b'i' ∷ b'.' ∷ b'b' ∷ b'm' ∷ b'p' ∷ []
name_of tests = b't' ∷ b'e' ∷ b's' ∷ b't' ∷ b's' ∷ []
name_of restart = b'r' ∷ b'e' ∷ b'b' ∷ b'o' ∷ b'o' ∷ b't' ∷ []
name_of power_off = b's' ∷ b'h' ∷ b'u' ∷ b't' ∷ b'd' ∷ b'o' ∷ b'w' ∷ b'n' ∷ []
name_of clear = b'c' ∷ b'l' ∷ b'e' ∷ b'a' ∷ b'r' ∷ []
name_of nothing = []

-- `xs` begins with `ys`.
abbrev pub begins_with : List ℕ → List ℕ → Bool
begins_with xs [] = true
begins_with [] (y ∷ ys) = false
begins_with (x ∷ xs) (y ∷ ys) = let rest = begins_with xs ys in if x == y then rest else false

abbrev pub first_command : List ℕ → List Command → Command
first_command line [] = nothing
first_command line (c ∷ cs) =
    let rest = first_command line cs in if begins_with line (name_of c) then c else rest

take-length : (ys : List ℕ) → take (length ys) ys ≡ ys
take-length [] = refl
take-length (y ∷ ys) = ap (λ r. y ∷ r) (take-length ys)

compare-begins_with :
    (xs ys : List ℕ)
    → is_zero (compare_bytes (take (length ys) xs) (take (length ys) ys)) ≡ begins_with xs ys
compare-begins_with xs [] = refl
compare-begins_with [] (y ∷ ys) = refl
compare-begins_with (x ∷ xs) (y ∷ ys) = ground (arith, compare-begins_with xs ys)

-- The names lie at their addresses.
abbrev pub IsNamed : Mem → Texts → Type 0
IsNamed mem texts = (c : Command) → IsString mem (texts.name c) (name_of c)

name_short : (c : Command) → length (name_of c) < 9
name_short uptime = omega arith
name_short help = omega arith
name_short program = omega arith
name_short picture = omega arith
name_short tests = omega arith
name_short restart = omega arith
name_short power_off = omega arith
name_short clear = omega arith
name_short nothing = omega arith

asks_for-begins_with :
    (f : ℕ) (mem : Mem) (texts : Texts) (cmd : ℕ) (line : List ℕ) (c : Command)
    → 9 ≤ f
    → IsNamed mem texts
    → IsString mem cmd line
    → asks_for f mem cmd (texts.name c) ≡ some (begins_with line (name_of c))
unfolding asks_for
asks_for-begins_with f mem texts cmd line c le names string =
    let n = name_of c in
    rw
      (
        asks_for,
        strlen-length f mem (texts.name c) n (names c) (omega (arith, name_short c)),
        strncmp-compare (length n) mem cmd (texts.name c) line n string (names c),
        compare-begins_with line n,
      )
      refl

-- With the names of the commands at their addresses and a string at `cmd`: the chain of tests of
-- `shell_handle_cmd` comes to an end with a fuel of 9 or more, and takes the first command of the
-- list whose name the string begins with.
pub find_command-first :
    (f : ℕ) (mem : Mem) (texts : Texts) (cmd : ℕ) (line : List ℕ) (cs : List Command)
    → 9 ≤ f
    → IsNamed mem texts
    → IsString mem cmd line
    → find_command f mem texts cmd cs ≡ some (first_command line cs)
unfolding find_command
find_command-first f mem texts cmd line [] le names string = refl
find_command-first f mem texts cmd line (c ∷ cs) le names string =
    let asks = asks_for-begins_with f mem texts cmd line c le names string in
    elim (Bool-cases (begins_with line (name_of c))) [
      | inl e ↦ rw (find_command, asks, e) refl
      | inr e ↦
          rw (find_command, asks, e) (find_command-first f mem texts cmd line cs le names string)
    ]
