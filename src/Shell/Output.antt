-- ===== src/Shell/Output.antt =====
-- `shell_cout`: it ends, draws inside the screen's memory, and moves the cursor as the text says.
use catch_os.Base.{
  ℕ, zero, suc, ◌+◌, ◌-◌, ◌*◌, ◌%◌, ◌^◌, ◌≤◌, ◌<◌, ◌≡◌, refl, arith, Mem, length, List, [], ◌∷◌,
  leb, ◌==◌, if◌then◌else◌, true, false, Bool-cases, inl, inr, ap, sym, ◌∙◌, some,
}
use catch_os.Str.Blocks.{IsString}
use catch_os.Console.{Svga, with_mem, svga_scroll_down}
use catch_os.Console.Inside.{IsScreen, IsOutside, scroll_down-Drawn}
use catch_os.Console.Cursor.{cells, next_cell, char_cell-next, columns_fit, IsScreen-with_mem}
use catch_os.Console.Colour.{font_get_char}
use catch_os.Syscall.{brush_color, with_screen}
use catch_os.Shell.{Shell, newline, set_mem, write_chr, line_break, shell_cout}

-- The cursor behind a line break, and behind a text.
abbrev pub break_cell : Svga → ℕ → ℕ
break_cell s at =
    let next = at + (s.scr_columns - at % s.scr_columns) in
    if leb (cells s) next then next - s.scr_columns else next

abbrev pub place_after : Svga → ℕ → ℕ → ℕ
place_after s at c = if c == newline then break_cell s at else next_cell s at

abbrev pub cursor_after : Svga → ℕ → List ℕ → ℕ
cursor_after s at [] = at
cursor_after s at (c ∷ cs) = cursor_after s (place_after s at c) cs

pub IsString-same :
    (m n : Mem) (a : ℕ) (xs : List ℕ)
    → ((b : ℕ) → a ≤ b → b ≤ a + length xs → n b ≡ m b)
    → IsString m a xs
    → IsString n a xs
IsString-same m n a [] same h = same a (omega arith) (omega arith) ∙ h
IsString-same m n a (x ∷ xs) same (e, some_char, h) = (
  same a (omega arith) (omega arith) ∙ e,
  some_char,
  IsString-same m n (a + 1) xs (λ b lo hi. same b (omega arith) (omega arith)) h,
)

-- The variables of the shell agree with the screen.
pub record IsShell (s : Shell) : Type 0 where
  pub screen : IsScreen s.display.screen
  pub small : cells s.display.screen < 2 ^ 31
  pub columns : s.screen_columns ≡ s.display.screen.scr_columns
  pub rows : s.screen_rows ≡ s.display.screen.scr_rows

abbrev pub at_output : Shell → Mem → ℕ → Shell
at_output s m cur = record (set_mem s m) { cur = cur }

break_on : (s : Svga) (at : ℕ) → IsScreen s → at ≤ cells s → break_cell s at ≤ cells s
break_on s at v on = let some = v.some_column in let room = columns_fit s v in ground arith

next_on : (s : Svga) (at : ℕ) → IsScreen s → at ≤ cells s → next_cell s at ≤ cells s
next_on s at v on = let some = v.some_column in let room = columns_fit s v in ground arith

module _ (s : Shell) (v : IsShell s) where
  write_chr-next :
      (m : Mem) (cur c : ℕ)
      → cur ≤ cells s.display.screen
      → (m' : Mem) × (write_chr c (at_output s m cur)
          ≡ at_output s m' (next_cell s.display.screen cur))
        × ((a : ℕ) → IsOutside s.display.screen a → m' a ≡ m a)
  unfolding with_mem
  write_chr-next m cur c on =
      let (m', e, kept) =
        char_cell-next s.display.screen m cur (font_get_char s.display.font c)
          (brush_color s.display) v.screen on v.small in
      (m', ap (λ p. record s { display = with_screen s.display p.1; cur = p.0 }) e, kept)

  -- The two ways of a line break.
  abbrev scrolled : Mem → ℕ → Shell
  scrolled m next = record s {
    display = with_screen s.display (svga_scroll_down (with_mem s.display.screen m) 1);
    cur = (next + 2 ^ 32 - s.screen_columns) % 2 ^ 32;
  }

  abbrev broken : Mem → ℕ → ℕ → Shell
  broken m area next = if leb area next then scrolled m next else at_output s m next

  broken_lem :
      (m : Mem) (cur : ℕ)
      → cur ≤ cells s.display.screen
      → line_break (at_output s m cur)
        ≡ broken m
            (cells s.display.screen)
            (cur + (s.display.screen.scr_columns - cur % s.display.screen.scr_columns))
  unfolding with_mem
  broken_lem m cur on =
      let screen = s.display.screen in
      let room = columns_fit screen v.screen in
      let next = cur + (screen.scr_columns - cur % screen.scr_columns) in
      let wraps : (cur + (s.screen_columns - cur % s.screen_columns)) % 2 ^ 32 ≡ next =
        rw v.columns (ground (arith, v.small)) in
      let area : s.screen_columns * s.screen_rows ≡ cells screen =
        rw (v.columns, v.rows) (ground arith) in
      ap (broken m (s.screen_columns * s.screen_rows)) wraps ∙ ap (λ a. broken m a next) area

  line_break-next :
      (m : Mem) (cur : ℕ)
      → cur ≤ cells s.display.screen
      → (m' : Mem) × (line_break (at_output s m cur)
          ≡ at_output s m' (break_cell s.display.screen cur))
        × ((a : ℕ) → IsOutside s.display.screen a → m' a ≡ m a)
  unfolding with_mem
  line_break-next m cur on =
      let screen = s.display.screen in
      let room = columns_fit screen v.screen in
      let some = v.screen.some_column in
      let next = cur + (screen.scr_columns - cur % screen.scr_columns) in
      let (m', e, kept) =
        scroll_down-Drawn (with_mem screen m) (IsScreen-with_mem screen m v.screen) 1 in
      elim (Bool-cases (leb (cells screen) next)) [
        | inl full ↦
            (let back : (next + 2 ^ 32 - s.screen_columns) % 2 ^ 32 ≡ next - screen.scr_columns =
                rw v.columns (ground (arith, v.small)) in
              (
                m',
                broken_lem m cur on
                    ∙ ap (λ b. if b then scrolled m next else at_output s m next) full
                    ∙ ap
                        (λ t. record s {
                          display = with_screen s.display t;
                          cur = (next + 2 ^ 32 - s.screen_columns) % 2 ^ 32;
                        })
                        e
                    ∙ ap (at_output s m') back
                    ∙ ap (λ b. at_output s m' (if b then next - screen.scr_columns else next))
                        (sym full),
                kept,
              ))
        | inr free ↦ (
          m,
          broken_lem m cur on
              ∙ ap (λ b. if b then scrolled m next else at_output s m next) free
              ∙ ap (λ b. at_output s m (if b then next - screen.scr_columns else next)) (sym free),
          λ a o. refl,
        )
      ]

  put_char : ℕ → Shell → Shell
  put_char c t = if c == newline then line_break t else write_chr c t

  put_char-next :
      (m : Mem) (cur c : ℕ)
      → cur ≤ cells s.display.screen
      → (m' : Mem) × (put_char c (at_output s m cur)
          ≡ at_output s m' (place_after s.display.screen cur c))
        × (place_after s.display.screen cur c ≤ cells s.display.screen)
        × ((a : ℕ) → IsOutside s.display.screen a → m' a ≡ m a)
  unfolding put_char
  put_char-next m cur c on = elim (Bool-cases (c == newline)) [
    | inl e ↦
        (let (m', step, kept) = line_break-next m cur on in
          rw e (m', step, break_on s.display.screen cur v.screen on, kept))
    | inr e ↦
        (let (m', step, kept) = write_chr-next m cur c on in
          rw e (m', step, next_on s.display.screen cur v.screen on, kept))
  ]

  -- On a 32-bit screen, with the cursor on it and a string outside the screen's memory:
  -- `shell_cout` comes to an end with a fuel above the length of the string, changes nothing but
  -- the cursor and bytes of the screen's memory, and leaves the cursor on the screen, where the
  -- line breaks and the characters of the string bring it.
  pub cout-cursor :
      (f a : ℕ) (xs : List ℕ) (m : Mem) (cur : ℕ)
      → length xs < f
      → ((b : ℕ) → a ≤ b → b ≤ a + length xs → IsOutside s.display.screen b)
      → IsString m a xs
      → cur ≤ cells s.display.screen
      → (m' : Mem) × (shell_cout f a (at_output s m cur)
          ≡ some (at_output s m' (cursor_after s.display.screen cur xs)))
        × (cursor_after s.display.screen cur xs ≤ cells s.display.screen)
        × ((b : ℕ) → IsOutside s.display.screen b → m' b ≡ m b)
  unfolding shell_cout with_mem put_char
  cout-cursor zero a xs m cur lt apart string on = absurd (omega arith)
  cout-cursor (suc f) a [] m cur lt apart string on =
      let e : (m a == 0) ≡ true = ground arith in (m, rw e refl, on, λ b o. refl)
  cout-cursor (suc f) a (x ∷ xs) m cur lt apart (at, some_char, string) on =
      let e : (m a == 0) ≡ false = ground arith in
      let (m1, step, on1, kept1) = put_char-next m cur x on in
      let same = λ (b : ℕ) (lo : a + 1 ≤ b) (hi : b ≤ a + 1 + length xs).
        kept1 b (apart b (omega arith) (omega arith)) in
      let (m2, rest, on2, kept2) =
        cout-cursor f (a + 1) xs m1 (place_after s.display.screen cur x) (omega arith)
          (λ b lo hi. apart b (omega arith) (omega arith))
          (IsString-same m m1 (a + 1) xs same string) on1 in
      (
        m2,
        ap
              (λ b.
                if b
                then some (at_output s m cur)
                else shell_cout f (a + 1) (put_char (m a) (at_output s m cur)))
              e
            ∙ ap (λ c. shell_cout f (a + 1) (put_char c (at_output s m cur))) at
            ∙ ap (shell_cout f (a + 1)) step
            ∙ rest,
        on2,
        λ b o. kept2 b o ∙ kept1 b o,
      )
