-- ===== src/Shell/Line.antt =====
-- The input line of the shell against an abstract one.
use catch_os.Base.{
  ℕ, suc, ◌+◌, ◌-◌, ◌^◌, ◌≤◌, ◌<◌, ◌≡◌, ◌≢◌, arith, ◌⊎◌, inl, inr, Mem, update, length, update_self,
  update_ne, List, [], ◌∷◌, leb, ◌==◌, if◌then◌else◌, true, false, Bool-cases, ap, sym, ◌∙◌,
}
use mathlib.Core.Path.{subst}
use catch_os.Console.{with_mem, svga_clr_cell}
use catch_os.Console.Inside.{IsScreen, IsOutside}
use catch_os.Console.Cursor.{cells, next_cell, char_cell-next}
use catch_os.Console.Colour.{font_get_char}
use catch_os.Syscall.{brush_color, black_color, with_screen}
use catch_os.Shell.{
  decrement, Shell, cin_bufsz, newline, set_mem, mem_of, append, erase, shell_handle_keypress,
  accept_key,
}
use catch_os.Drivers.Keyboard.{key_backspace}
use catch_os.Shell.Edit.{drop_last, edit, Holds, Holds-moved}

-- A shell that waits for input, by what changes meanwhile.
abbrev pub at_input : Shell → Mem → ℕ → ℕ → Shell
at_input s m cur pos = record (set_mem s m) {
  cur = cur;
  cin_pos = pos;
  receiving_user_input = true;
}

-- The input buffer lies outside the screen's two buffers, and the screen has room for a whole
-- line behind the first cell, and one line more.
pub record IsReady (s : Shell) : Type 0 where
  pub screen : IsScreen s.display.screen
  pub small : cells s.display.screen < 2 ^ 31
  pub room : s.display.screen.scr_columns + cin_bufsz ≤ cells s.display.screen
  pub apart : (a : ℕ) → s.cin ≤ a → a < s.cin + cin_bufsz → IsOutside s.display.screen a

-- `t` is `s` with the line typed in: the cursor is on the screen and behind the line.
pub record IsTyped (s : Shell) (line : List ℕ) (t : Shell) : Type 0 where
  pub mem : Mem
  pub cur : ℕ
  pub same : t ≡ at_input s mem cur (length line)
  pub holds : Holds mem s.cin line
  pub bounded : length line ≤ cin_bufsz
  pub behind : length line < cur
  pub on : cur ≤ cells s.display.screen
  pub kept :
      (a : ℕ)
      → IsOutside s.display.screen a
      → (a < s.cin) ⊎ (s.cin + cin_bufsz ≤ a)
      → mem a ≡ mem_of s a

module _ (s : Shell) (v : IsReady s) where
  append_lem :
      (m : Mem) (cur pos key : ℕ)
      → cur ≤ cells s.display.screen
      → (m' : Mem) × (append key (at_input s m cur pos)
          ≡ at_input s m' (next_cell s.display.screen cur) (suc pos))
        × ((a : ℕ) → IsOutside s.display.screen a → m' a ≡ update m (s.cin + pos) key a)
  unfolding with_mem
  append_lem m cur pos key on =
      let one : pos + 1 ≡ suc pos = omega arith in
      let (m', e, kept) =
        char_cell-next s.display.screen (update m (s.cin + pos) key) cur
          (font_get_char s.display.font key) (brush_color s.display) v.screen on v.small in
      (
        m',
        ap
              (λ p. record (set_mem s m) {
                display = with_screen s.display p.1;
                cur = p.0;
                cin_pos = pos + 1;
                receiving_user_input = true;
              })
              e
            ∙ ap (λ n. at_input s m' (next_cell s.display.screen cur) n) one,
        kept,
      )

  erase_lem :
      (m : Mem) (cur pos : ℕ)
      → 0 < cur
      → cur ≤ cells s.display.screen
      → (m' : Mem) × (erase (at_input s m cur pos) ≡ at_input s m' (cur - 1) (pos - 1))
        × ((a : ℕ) → IsOutside s.display.screen a → m' a ≡ update m (s.cin + pos) 0 a)
  unfolding with_mem svga_clr_cell
  erase_lem m cur pos some_cell on =
      let back : decrement cur ≡ cur - 1 = ground arith in
      let (m', e, kept) =
        char_cell-next s.display.screen (update m (s.cin + pos) 0) (decrement cur)
          (font_get_char s.display.font 255) (black_color s.display) v.screen (omega arith)
          v.small in
      let stop : decrement (next_cell s.display.screen (decrement cur)) ≡ cur - 1 =
        rw back (ground arith) in
      (
        m',
        ap
              (λ p. record (set_mem s m) {
                display = with_screen s.display p.1;
                cur = decrement p.0;
                cin_pos = pos - 1;
                receiving_user_input = true;
              })
              e
            ∙ ap (λ c. at_input s m' c (pos - 1)) stop,
        kept,
      )

  -- One byte of the buffer behind the line may change.
  Holds-changed :
      (line : List ℕ) (m n : Mem) (x : ℕ)
      → length line ≤ cin_bufsz
      → ((a : ℕ) → IsOutside s.display.screen a → n a ≡ update m (s.cin + length line) x a)
      → Holds m s.cin line
      → Holds n s.cin line
  Holds-changed line m n x bounded same holds =
      Holds-moved m n s.cin s.cin line
        (λ k lt.
          same (s.cin + k) (v.apart (s.cin + k) (omega arith) (omega arith))
          ∙ update_ne m (s.cin + length line) x (s.cin + k) (omega arith))
        holds

  append-IsTyped :
      (line : List ℕ) (key : ℕ) (t : Shell)
      → length line < cin_bufsz
      → IsTyped s line t
      → IsTyped s (key ∷ line) (append key t)
  append-IsTyped line key t short y =
      let (m', e, same) = append_lem y.mem y.cur (length line) key y.on in
      let at = s.cin + length line in
      record {
        mem = m';
        cur = next_cell s.display.screen y.cur;
        same = ap (append key) y.same ∙ e;
        holds = (
          same at (v.apart at (omega arith) (omega arith)) ∙ update_self y.mem at key,
          Holds-changed line y.mem m' key y.bounded same y.holds,
        );
        bounded = short;
        behind = ground (arith, v.room, y.behind);
        on = ground (arith, v.room, y.on);
        kept = λ a o h. same a o ∙ ground (arith, y.kept a);
      }

  erase-IsTyped :
      (x : ℕ) (line : List ℕ) (t : Shell)
      → length (x ∷ line) < cin_bufsz
      → IsTyped s (x ∷ line) t
      → IsTyped s line (erase t)
  erase-IsTyped x line t short y =
      let one : suc (length line) - 1 ≡ length line = omega arith in
      let (m', e, same) =
        erase_lem y.mem y.cur (suc (length line)) (omega (arith, y.behind)) y.on in
      record {
        mem = m';
        cur = y.cur - 1;
        same = ap erase y.same ∙ e ∙ ap (λ n. at_input s m' (y.cur - 1) n) one;
        holds = (Holds-changed (x ∷ line) y.mem m' 0 y.bounded same y.holds).1;
        bounded = omega (arith, y.bounded);
        behind = omega (arith, y.behind);
        on = omega (arith, y.on);
        kept = λ a o h. same a o ∙ ground (arith, y.kept a);
      }

  backspace-IsTyped :
      (line : List ℕ) (t : Shell)
      → length line < cin_bufsz
      → IsTyped s line t
      → IsTyped s (drop_last line) (if t.cin_pos == 0 then t else erase t)
  backspace-IsTyped [] t short y =
      let at : t.cin_pos ≡ 0 = ap (λ u. u.cin_pos) y.same in
      let e : (t.cin_pos == 0) ≡ true = ground arith in rw e y
  backspace-IsTyped (x ∷ line) t short y =
      let at : t.cin_pos ≡ suc (length line) = ap (λ u. u.cin_pos) y.same in
      let e : (t.cin_pos == 0) ≡ false = ground arith in rw e (erase-IsTyped x line t short y)

  accept_key-edit :
      (line : List ℕ) (key : ℕ) (t : Shell)
      → key ≢ newline
      → IsTyped s line t
      → IsTyped s (edit key line) (accept_key key t)
  unfolding accept_key
  accept_key-edit line key t other y =
      let at : t.cin_pos ≡ length line = ap (λ u. u.cin_pos) y.same in
      let no : (key == newline) ≡ false = ground arith in
      elim (Bool-cases (key == 0)) [
        | inl e ↦ rw (accept_key, e) y
        | inr e ↦ elim (Bool-cases (leb cin_bufsz t.cin_pos)) [
          | inl full ↦
              (let long : leb cin_bufsz (length line) ≡ true = ground arith in
                rw (accept_key, e, no, full, long) y)
          | inr short ↦
              let room : leb cin_bufsz (length line) ≡ false = ground arith in
              elim (Bool-cases (key == key_backspace)) [
                | inl back ↦
                    rw (accept_key, e, no, short, room, back)
                      (backspace-IsTyped line t (ground arith) y)
                | inr char ↦
                    rw (accept_key, e, no, short, room, char)
                      (append-IsTyped line key t (ground arith) y)
              ]
        ]
      ]

  -- A key that is not the newline does to the shell what it does to the line.
  pub keypress-edit :
      (line : List ℕ) (key : ℕ) (t : Shell)
      → key ≢ newline
      → IsTyped s line t
      → IsTyped s (edit key line) (shell_handle_keypress key t)
  unfolding shell_handle_keypress
  keypress-edit line key t other y =
      let on : t.receiving_user_input ≡ true = ap (λ u. u.receiving_user_input) y.same in
      subst (λ b. IsTyped s (edit key line) (if b then accept_key key t else t)) (sym on)
        (accept_key-edit line key t other y)
