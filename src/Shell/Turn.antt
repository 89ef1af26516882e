-- ===== src/Shell/Turn.antt =====
-- One round of `shell_main`: the command that it runs is the one that the keys spell.
use catch_os.Base.{
  ℕ, ◌+◌, ◌≤◌, ◌<◌, ◌≡◌, refl, arith, ◌⊎◌, inr, Mem, length, List, [], ◌∷◌, false, ap, ◌∙◌, some,
  sym,
}
use catch_os.Str.{memset}
use catch_os.Str.Blocks.{IsString, memset_lem}
use catch_os.Bmp.{Bmp}
use catch_os.Console.{with_mem}
use catch_os.Console.Inside.{IsOutside}
use catch_os.Console.Cursor.{cells, next_cell, IsScreen-with_mem}
use catch_os.Shell.{Shell, cin_bufsz, newline, set_mem, mem_of, shell_cout, shell_cin, received}
use catch_os.Shell.Line.{IsReady}
use catch_os.Shell.Cin.{typed_line, IsTaken, shell_cin-line}
use catch_os.Shell.Output.{IsShell, IsString-same, at_output, cursor_after, cout-cursor}
use catch_os.Shell.Command.{
  Command, Texts, Outside, commands, run_command, shell_handle_cmd, turn_of, obey_line, ask, obey,
  shell_turn,
}
use catch_os.Shell.Choice.{name_of, first_command, IsNamed, find_command-first}
use catch_os.Shell.Spelled.{spelled, length-onto, Holds-IsString, typed_line-NoZero}

-- A byte that a round of the shell leaves alone.
abbrev pub IsFixed : Shell → ℕ → ℕ → Type 0
IsFixed s buf b =
    IsOutside s.display.screen b
    × ((b < s.cin) ⊎ (s.cin + cin_bufsz ≤ b))
    × ((b < buf) ⊎ (buf + cin_bufsz ≤ b))

-- The `n` bytes from `a` on and the one behind them.
abbrev pub AreFixed : Shell → ℕ → ℕ → ℕ → Type 0
AreFixed s buf a n = (b : ℕ) → a ≤ b → b ≤ a + n → IsFixed s buf b

-- The strings of the code, the two buffers and the screen's memory lie apart.
pub record IsLaidOut (s : Shell) (texts : Texts) (buf : ℕ) : Type 0 where
  pub ready : IsReady s
  pub shell : IsShell s
  pub apart : (buf + cin_bufsz ≤ s.cin) ⊎ (s.cin + cin_bufsz ≤ buf)
  pub outside : (a : ℕ) → buf ≤ a → a < buf + cin_bufsz → IsOutside s.display.screen a
  pub names : IsNamed (mem_of s) texts
  pub names_fixed : (c : Command) → AreFixed s buf (texts.name c) (length (name_of c))
  pub prompt : IsString (mem_of s) texts.prompt (b'>' ∷ [])
  pub prompt_fixed : AreFixed s buf texts.prompt 1
  pub break : IsString (mem_of s) texts.break (newline ∷ [])
  pub break_fixed : AreFixed s buf texts.break 1

-- The shell at the end of a line, with what changed.
abbrev pub resting : Shell → Mem → ℕ → Shell
resting s m cur = record (set_mem s m) { cur = cur; cin_pos = 0; receiving_user_input = false }

-- How a round comes to the shell `w` in which it looks at the command: it clears the buffer and
-- shows the prompt, reads the line behind that, and shows the line break behind the line.
pub record IsRound (s : Shell) (texts : Texts) (buf f : ℕ) (keys line left : List ℕ) (w : Shell)
    : Type 0 where
  pub prompted : Shell
  pub taken : Shell
  pub shows :
      shell_cout f texts.prompt (set_mem s (memset (mem_of s) buf 0 cin_bufsz)) ≡ some prompted
  pub empty : (a : ℕ) → buf ≤ a → a < buf + cin_bufsz → mem_of prompted a ≡ 0
  pub behind_prompt : prompted.cur ≡ next_cell s.display.screen s.cur
  pub reads : shell_cin buf keys prompted ≡ received taken left
  pub takes : IsTaken prompted buf line taken
  pub breaks : shell_cout f texts.break taken ≡ some w
  pub behind_break : w.cur ≡ cursor_after s.display.screen taken.cur (newline ∷ [])

module _ (s : Shell) (texts : Texts) (buf : ℕ) (v : IsLaidOut s texts buf) where
  IsReady-output : (m : Mem) (cur : ℕ) → IsReady (at_output s m cur)
  unfolding with_mem
  IsReady-output m cur = record {
    screen = IsScreen-with_mem s.display.screen m v.ready.screen;
    small = v.ready.small;
    room = v.ready.room;
    apart = v.ready.apart;
  }

  IsShell-resting : (m : Mem) (cur : ℕ) → IsShell (resting s m cur)
  unfolding with_mem
  IsShell-resting m cur = record {
    screen = IsScreen-with_mem s.display.screen m v.shell.screen;
    small = v.shell.small;
    columns = v.shell.columns;
    rows = v.shell.rows;
  }

  -- The prompt behind the clearing of the line.
  prompt_lem :
      (f : ℕ)
      → 1 < f
      → s.cur ≤ cells s.display.screen
      → (m : Mem) × (shell_cout f texts.prompt (set_mem s (memset (mem_of s) buf 0 cin_bufsz))
          ≡ some (at_output s m (next_cell s.display.screen s.cur)))
        × (next_cell s.display.screen s.cur ≤ cells s.display.screen)
        × ((a : ℕ) → buf ≤ a → a < buf + cin_bufsz → m a ≡ 0)
        × ((b : ℕ) → IsFixed s buf b → m b ≡ mem_of s b)
  prompt_lem f lt on =
      let m0 = memset (mem_of s) buf 0 cin_bufsz in
      let set = λ (b : ℕ). memset_lem (mem_of s) buf 0 cin_bufsz b in
      let fixed0 = λ (b : ℕ) (x : IsFixed s buf b). set b ∙ ground (arith, x.2) in
      let set_zero = λ (a : ℕ) (lo : buf ≤ a) (hi : a < buf + cin_bufsz). set a ∙ ground arith in
      let (m, e, le, kept) =
        cout-cursor s v.shell f texts.prompt (b'>' ∷ []) m0 s.cur lt
          (λ b lo hi. (v.prompt_fixed b lo hi).0)
          (IsString-same (mem_of s) m0 texts.prompt (b'>' ∷ [])
            (λ b lo hi. fixed0 b (v.prompt_fixed b lo hi)) v.prompt)
          on in
      (
        m,
        e,
        le,
        λ a lo hi. kept a (v.outside a lo hi) ∙ set_zero a lo hi,
        λ b x. kept b x.0 ∙ fixed0 b x,
      )

  -- The command behind the line.
  handle_lem :
      (f : ℕ) (o : Outside) (blank : Bmp) (m : Mem) (cur : ℕ) (line : List ℕ)
      → 9 ≤ f
      → IsString m buf line
      → ((b : ℕ) → IsFixed s buf b → m b ≡ mem_of s b)
      → shell_handle_cmd f texts o blank buf (resting s m cur)
        ≡ run_command f texts o blank (first_command line commands) (resting s m cur)
  unfolding shell_handle_cmd with_mem
  handle_lem f o blank m cur line le string fixed =
      let names : IsNamed m texts = λ c.
        IsString-same (mem_of s) m (texts.name c) (name_of c)
          (λ b lo hi. fixed b (v.names_fixed c b lo hi)) (v.names c) in
      rw (shell_handle_cmd, find_command-first f m texts buf line commands le names string) refl

  obey_lem :
      (f : ℕ) (o : Outside) (blank : Bmp) (m : Mem) (cur : ℕ) (line left : List ℕ)
      → 9 ≤ f
      → length line < cin_bufsz
      → cur ≤ cells s.display.screen
      → IsString m buf line
      → ((b : ℕ) → IsFixed s buf b → m b ≡ mem_of s b)
      → (m' : Mem) × (cur' : ℕ) × (obey f texts o blank buf (received (resting s m cur) left)
          ≡ turn_of left
              (run_command f texts o blank (first_command line commands) (resting s m' cur')))
        × (shell_cout f texts.break (resting s m cur) ≡ some (resting s m' cur'))
        × (cur' ≡ cursor_after s.display.screen cur (newline ∷ []))
        × IsString m' buf line
        × (cur' ≤ cells s.display.screen)
  unfolding with_mem
  obey_lem f o blank m cur line left le short on string fixed =
      let (m', e, on', kept) =
        cout-cursor (resting s m cur) (IsShell-resting m cur) f texts.break (newline ∷ []) m cur
          (omega arith) (λ b lo hi. (v.break_fixed b lo hi).0)
          (IsString-same (mem_of s) m texts.break (newline ∷ [])
            (λ b lo hi. fixed b (v.break_fixed b lo hi)) v.break)
          on in
      let cur' = cursor_after s.display.screen cur (newline ∷ []) in
      let string' =
        IsString-same m m' buf line (λ b lo hi. kept b (v.outside b lo (omega arith))) string in
      (
        m',
        cur',
        ap (obey_line f texts o blank buf left) e
            ∙ ap (turn_of left)
                (handle_lem f o blank m' cur' line le string' (λ b x. kept b x.0 ∙ fixed b x)),
        e,
        refl,
        string',
        on',
      )

-- The strings of the code, the two buffers and the screen's memory lie apart, the cursor is on the
-- screen, the keys hold a newline and the fuel is at least 9: if the line that the keys before the
-- newline spell has fewer than 256 characters, a round of `shell_main` clears the buffer, shows
-- its prompt, which moves the cursor by one cell, reads the line behind that, shows a line break,
-- and runs, in the shell that this leaves, the first command whose name the line begins with, the
-- line being a string in the buffer then; the keys behind the newline are left.
pub turn-first_command :
    (s : Shell) (texts : Texts) (buf f : ℕ) (o : Outside) (blank : Bmp) (keys line left : List ℕ)
    → IsLaidOut s texts buf
    → 9 ≤ f
    → s.cur ≤ cells s.display.screen
    → typed_line [] keys ≡ some (line, left)
    → length line < cin_bufsz
    → (m : Mem) × (cur : ℕ) × (shell_turn f texts o blank buf keys s
        ≡ turn_of left
            (run_command f texts o blank (first_command (spelled line) commands) (resting s m cur)))
      × IsRound s texts buf f keys line left (resting s m cur)
      × IsString m buf (spelled line)
      × (cur ≤ cells s.display.screen)
unfolding shell_turn with_mem
turn-first_command s texts buf f o blank keys line left v le on typed short =
    let (m1, e1, on1, zero1, fixed1) = prompt_lem s texts buf v f (omega arith) on in
    let (u, e2, y) =
      shell_cin-line (at_output s m1 (next_cell s.display.screen s.cur)) buf keys line left
        (IsReady-output s texts buf v m1 (next_cell s.display.screen s.cur)) (ground arith) on1
        v.apart typed in
    let end =
      y.kept (buf + length line) (v.outside (buf + length line) (omega arith) (omega arith))
        (omega (arith, v.apart)) (inr (omega arith))
      ∙ zero1 (buf + length line) (omega arith) (omega arith) in
    let string =
      Holds-IsString y.mem buf line [] (typed_line-NoZero keys [] line left tt typed) y.holds end in
    let fixed =
      λ (b : ℕ) (x : IsFixed s buf b). y.kept b x.0 x.1 (omega (arith, x.2)) ∙ fixed1 b x in
    let (m, cur, e3, e4, at, string', on') =
      obey_lem s texts buf v f o blank y.mem y.cur (spelled line) left le
        (omega (arith, length-onto line [])) y.on string fixed in
    (
      m,
      cur,
      ap (ask f texts o blank buf keys) e1
          ∙ ap (obey f texts o blank buf) e2
          ∙ ap (λ w. obey f texts o blank buf (received w left)) y.same
          ∙ e3,
      record {
        prompted = at_output s m1 (next_cell s.display.screen s.cur);
        taken = u;
        shows = e1;
        empty = zero1;
        behind_prompt = refl;
        reads = e2;
        takes = y;
        breaks = ap (λ v. shell_cout f texts.break v) y.same ∙ e4;
        behind_break =
            at ∙ ap (λ v. cursor_after s.display.screen v.cur (newline ∷ [])) (sym y.same);
      },
      string',
      on',
    )
