-- ===== src/Shell/Cin.antt =====
-- `shell_cin` returns the line that the keys spell.
use catch_os.Base.{
  ℕ, ◌+◌, ◌-◌, ◌≤◌, ◌<◌, ◌≡◌, refl, arith, ◌⊎◌, inl, inr, Mem, length, List, [], ◌∷◌, leb, ltb,
  ◌&&◌, ◌==◌, if◌then◌else◌, true, false, Bool-cases, ap, ◌∙◌, Option, none, some,
}
use mathlib.Core.Path.{subst}
use catch_os.Str.{memset, memcpy}
use catch_os.Str.Blocks.{memset_lem, memcpy_lem}
use catch_os.Console.{with_mem}
use catch_os.Console.Inside.{IsOutside}
use catch_os.Console.Cursor.{cells}
use catch_os.Shell.{
  Shell, cin_bufsz, newline, set_mem, mem_of, shell_handle_keypress, accept_key, Input, received,
  waiting, receive, shell_cin, take_line,
}
use catch_os.Shell.Line.{IsReady, IsTyped, keypress-edit}
use catch_os.Shell.Edit.{edit, Holds, Holds-moved}

-- The line behind the keys, with the keys left, none when there is no newline among them.
abbrev pub typed_line : List ℕ → List ℕ → Option (List ℕ × List ℕ)
typed_line line [] = none
typed_line line (key ∷ keys) =
    let rest = typed_line (edit key line) keys in if key == newline then some (line, keys) else rest

abbrev pub stopped : Shell → Shell
stopped s = record s { receiving_user_input = false }

receive-stopped : (keys : List ℕ) (s : Shell) → receive keys (stopped s) ≡ received (stopped s) keys
unfolding receive
receive-stopped [] s = refl
receive-stopped (key ∷ keys) s = refl

receive-on :
    (key : ℕ) (keys : List ℕ) (s : Shell)
    → s.receiving_user_input ≡ true
    → receive (key ∷ keys) s ≡ receive keys (shell_handle_keypress key s)
unfolding receive
receive-on key keys s on =
    ap (λ b. if b then receive keys (shell_handle_keypress key s) else received s (key ∷ keys)) on

receive-none : (s : Shell) → s.receiving_user_input ≡ true → receive [] s ≡ waiting
unfolding receive
receive-none s on = ap (λ b. if b then waiting else received s []) on

newline_lem :
    (key : ℕ) (s : Shell)
    → key ≡ newline
    → s.receiving_user_input ≡ true
    → shell_handle_keypress key s ≡ stopped s
unfolding shell_handle_keypress accept_key
newline_lem key s e on = ap (λ b. if b then accept_key key s else s) on ∙ rw (accept_key, e) refl

-- How waiting ends against how the abstract line ends.
abbrev Ends : Shell → Option (List ℕ × List ℕ) → Input → Type 0
Ends s none i = i ≡ waiting
Ends s (some (line, left)) i = (u : Shell) × (i ≡ received (stopped u) left) × IsTyped s line u

module _ (s : Shell) (v : IsReady s) where
  receive-typed_line :
      (keys line : List ℕ) (t : Shell)
      → IsTyped s line t
      → Ends s (typed_line line keys) (receive keys t)
  receive-typed_line [] line t y = receive-none t (ap (λ u. u.receiving_user_input) y.same)
  receive-typed_line (key ∷ keys) line t y =
      let on : t.receiving_user_input ≡ true = ap (λ u. u.receiving_user_input) y.same in
      elim (Bool-cases (key == newline)) [
        | inl e ↦ rw e (
          t,
          receive-on key keys t on
              ∙ ap (receive keys) (newline_lem key t (ground arith) on)
              ∙ receive-stopped keys t,
          y,
        )
        | inr e ↦
            rw (e, receive-on key keys t on)
              (receive-typed_line keys (edit key line) (shell_handle_keypress key t)
                (keypress-edit s v line key t (ground arith) y))
      ]

-- The memory behind the copy of the line and the clearing of the buffer.
abbrev taken_mem : Shell → ℕ → ℕ → Mem → Mem
taken_mem s out n m = memset (memcpy m out s.cin n) s.cin 0 cin_bufsz

taken_mem_lem :
    (s : Shell) (out n : ℕ) (m : Mem) (a : ℕ)
    → n ≤ cin_bufsz
    → (out + cin_bufsz ≤ s.cin) ⊎ (s.cin + cin_bufsz ≤ out)
    → taken_mem s out n m a ≡ (
        if leb s.cin a && ltb a (s.cin + cin_bufsz)
        then 0
        else if leb out a && ltb a (out + n)
        then m (s.cin + (a - out))
        else m a)
taken_mem_lem s out n m a le apart =
    ground
      (arith, memset_lem (memcpy m out s.cin n) s.cin 0 cin_bufsz a, memcpy_lem m out s.cin n a)

-- What `shell_cin` leaves, for the line that the keys spell: the line at `out`, the input buffer
-- cleared, the cursor behind a cell of the screen, and no other byte outside the screen's two
-- buffers changed.
pub record IsTaken (s : Shell) (out : ℕ) (line : List ℕ) (u : Shell) : Type 0 where
  pub mem : Mem
  pub cur : ℕ
  pub same : u ≡ record (set_mem s mem) { cur = cur; cin_pos = 0; receiving_user_input = false }
  pub holds : Holds mem out line
  pub bounded : length line ≤ cin_bufsz
  pub cleared : (a : ℕ) → s.cin ≤ a → a < s.cin + cin_bufsz → mem a ≡ 0
  pub some_cell : 0 < cur
  pub on : cur ≤ cells s.display.screen
  pub kept :
      (a : ℕ)
      → IsOutside s.display.screen a
      → (a < s.cin) ⊎ (s.cin + cin_bufsz ≤ a)
      → (a < out) ⊎ (out + length line ≤ a)
      → mem a ≡ mem_of s a

take_line-IsTaken :
    (s : Shell) (out : ℕ) (line left : List ℕ) (u : Shell)
    → (out + cin_bufsz ≤ s.cin) ⊎ (s.cin + cin_bufsz ≤ out)
    → IsTyped s line u
    → (w : Shell) × (take_line out (received (stopped u) left) ≡ received w left)
      × IsTaken s out line w
unfolding with_mem
take_line-IsTaken s out line left u apart y =
    let n = length line in
    let le : leb n cin_bufsz ≡ true = ground (arith, y.bounded) in
    let at = λ (a : ℕ). taken_mem_lem s out n y.mem a y.bounded apart in
    (
      _,
      ap (λ w. take_line out (received (stopped w) left)) y.same ∙ rw le refl,
      record {
        mem = taken_mem s out n y.mem;
        cur = y.cur;
        same = refl;
        holds =
            Holds-moved y.mem (taken_mem s out n y.mem) s.cin out line
              (λ k lt. at (out + k) ∙ ground (arith, y.bounded)) y.holds;
        bounded = y.bounded;
        cleared = λ a lo hi. at a ∙ ground arith;
        some_cell = omega (arith, y.behind);
        on = y.on;
        kept = λ a o h k. at a ∙ ground (arith, y.kept a o h);
      },
    )

-- With the cursor behind a cell of a 32-bit screen, the input buffer outside the screen's memory
-- and apart from the 256 bytes at `out`, and room on the screen for a line: if there is a newline
-- among the keys, `shell_cin` returns without a panic, with the keys behind it left, and leaves at
-- `out` the line that the keys before it spell, where a backspace takes the last character away
-- and keys behind 256 characters are ignored.
pub shell_cin-line :
    (s : Shell) (out : ℕ) (keys line left : List ℕ)
    → IsReady s
    → 0 < s.cur
    → s.cur ≤ cells s.display.screen
    → (out + cin_bufsz ≤ s.cin) ⊎ (s.cin + cin_bufsz ≤ out)
    → typed_line [] keys ≡ some (line, left)
    → (u : Shell) × (shell_cin out keys s ≡ received u left) × IsTaken s out line u
unfolding shell_cin with_mem
shell_cin-line s out keys line left v some_cell on apart e =
    let start = record s { cin_pos = 0; receiving_user_input = true } in
    let (u, eu, y) =
      subst (λ o. Ends s o (receive keys start)) e
        (receive-typed_line s v keys [] start (record {
          mem = mem_of s;
          cur = s.cur;
          same = refl;
          holds = tt;
          bounded = omega arith;
          behind = some_cell;
          on = on;
          kept = λ a o h. refl;
        })) in
    let (w, ew, z) = take_line-IsTaken s out line left u apart y in
    (w, ap (take_line out) eu ∙ ew, z)
