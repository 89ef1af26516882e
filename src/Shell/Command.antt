-- ===== src/Shell/Command.antt =====
-- The commands of kernel/shell/shell.c: which one a line asks for, and what it does.
use catch_os.Base.{
  ℕ, zero, suc, ◌+◌, ◌-◌, ◌*◌, ◌%◌, ◌^◌, Option, none, some, List, [], ◌∷◌, Mem, ltb, if◌then◌else◌,
  Bool, true, false, for_range, ℤ, pos, negsuc,
}
use catch_os.Str.{strlen, strncmp, memset}
use catch_os.Str.Decimal.{int_to_str_u, int_to_str_s}
use catch_os.Bmp.{Bmp, BmpPixel, libbmp_decode_bmp, libbmp_get_all_pixels}
use catch_os.Console.{svga_draw_pixel}
use catch_os.Console.Colour.{svga_translate_rgb}
use catch_os.Syscall.{
  Display, with_screen, syscall_fb_brush_set_color, syscall_fb_draw_rect, syscall_fb_clr_scr,
}
use catch_os.Shell.{
  Shell, cin_bufsz, mem_of, set_mem, shell_cout, shell_cin, Input, received, waiting, panicked,
}

pub data Command : Type 0 where
  uptime : Command
  help : Command
  program : Command
  picture : Command
  tests : Command
  restart : Command
  power_off : Command
  clear : Command
  nothing : Command

-- The addresses of the names in the code, the text of the help, the line breaks and prompts, and
-- the two static buffers of 12 bytes.
pub record Texts : Type 0 where
  pub name : Command → ℕ
  pub msg_help : ℕ
  pub break : ℕ
  pub prompt : ℕ
  pub ticksbuf : ℕ
  pub ret_s : ℕ
  pub test_vga : ℕ
  pub test_multitask : ℕ

abbrev pub is_zero : ℤ → Bool
is_zero (pos zero) = true
is_zero (pos (suc n)) = false
is_zero (negsuc n) = false

-- `_strncmp(cmd, name, _strlen(name)) == 0`; the fuel is for `_strlen`.
unfoldable pub asks_for : ℕ → Mem → ℕ → ℕ → Option Bool
asks_for f mem cmd name = elim (strlen f mem name) [
  | none ↦ none
  | some n ↦ some (is_zero (strncmp mem cmd name n))
]

-- The chain of tests, in the order of the code.
unfoldable pub find_command : ℕ → Mem → Texts → ℕ → List Command → Option Command
find_command f mem texts cmd [] = some nothing
find_command f mem texts cmd (c ∷ cs) =
    let rest = find_command f mem texts cmd cs in
    elim (asks_for f mem cmd (texts.name c)) [
      | none ↦ none
      | some true ↦ some c
      | some false ↦ rest
    ]

abbrev pub commands : List Command
commands = uptime ∷ help ∷ program ∷ picture ∷ tests ∷ restart ∷ power_off ∷ clear ∷ []

-- What the commands use beyond the shell: the ticks, the module that the boot loader brought, the
-- tasks, the power, the address of the picture, and fresh memory for its pixels. Restarting and
-- powering off return when they fail. A count of ticks is an `unsigned int`.
pub record Outside : Type 0 where
  pub gettime : ℕ
  pub mod_size : ℕ
  pub start_program : Shell → ℤ × Shell
  pub start_tasks : Shell → Shell
  pub reboot : Shell → Shell
  pub shutdown : Shell → Shell
  pub img_rei : ℕ
  pub fresh : ℕ → BmpPixel

-- A module without a size is not started.
unfoldable pub call_user_module : Outside → Shell → ℤ × Shell
call_user_module o s = if ltb 0 o.mod_size then o.start_program s else (pos 0, s)

-- Two calls of `shell_cout`.
unfoldable pub say : ℕ → ℕ → ℕ → Shell → Option Shell
say f first second s = elim (shell_cout f first s) [ none ↦ none | some t ↦ shell_cout f second t ]

-- A number that `print` puts into a cleared buffer, and then on the screen.
unfoldable pub say_number : ℕ → Texts → ℕ → (Mem → ℤ × Mem) → Shell → Option Shell
say_number f texts buffer print s =
    say f buffer texts.break (set_mem s (print (memset (mem_of s) buffer 0 12)).1)

-- `i` and `j` run over the picture, which stands upside down in its file.
unfoldable pub draw_picture : Bmp → (ℕ → BmpPixel) → Display → Display
draw_picture bmp pix d =
    for_range bmp.h 0
      (λ i e.
        for_range bmp.w 0
          (λ j u.
            let p = pix ((i * bmp.w + j) % 2 ^ 32) in
            let color =
              svga_translate_rgb u.scaled u.format (record { r = p.r; g = p.g; b = p.b }) in
            with_screen u (
              svga_draw_pixel u.screen ((450 + j) % 2 ^ 32) ((100 + bmp.h + 2 ^ 32 - i) % 2 ^ 32)
                color))
          e)
      d

-- The case of `rei.bmp`; `blank` is what `bmp_rei` holds before.
unfoldable pub show_picture : Outside → Bmp → Shell → Option Shell
show_picture o blank s =
    let bmp = (libbmp_decode_bmp (mem_of s) o.img_rei blank).1 in
    elim (libbmp_get_all_pixels (mem_of s) bmp o.fresh) [
      | none ↦ none
      | some pix ↦ some (record s { display = draw_picture bmp pix s.display })
    ]

-- Four rectangles between the two texts, then the tasks.
unfoldable pub run_tests : ℕ → Texts → Outside → Shell → Option Shell
run_tests f texts o s = elim (shell_cout f texts.test_vga s) [
  | none ↦ none
  | some t ↦
      (let d = syscall_fb_brush_set_color 0xff 0 0 t.display in
        let d = syscall_fb_draw_rect 300 200 350 250 d in
        let d = syscall_fb_brush_set_color 0 0xff 0 d in
        let d = syscall_fb_draw_rect 350 200 400 250 d in
        let d = syscall_fb_brush_set_color 0 0 0xff d in
        let d = syscall_fb_draw_rect 400 200 450 250 d in
        let d = syscall_fb_brush_set_color 0xff 0xff 0 d in
        elim (shell_cout f texts.test_multitask (record t { display = d })) [
          | none ↦ none
          | some u ↦ some (o.start_tasks u)
        ])
]

unfoldable pub run_command : ℕ → Texts → Outside → Bmp → Command → Shell → Option Shell
run_command f texts o blank uptime s =
    say_number f texts texts.ticksbuf (λ m. int_to_str_u m texts.ticksbuf 12 o.gettime) s
run_command f texts o blank help s = say f texts.msg_help texts.break s
run_command f texts o blank program s =
    let (ret, t) = call_user_module o s in
    say_number f texts texts.ret_s (λ m. int_to_str_s m texts.ret_s 12 ret) t
run_command f texts o blank picture s = show_picture o blank s
run_command f texts o blank tests s = run_tests f texts o s
run_command f texts o blank restart s = some (o.reboot s)
run_command f texts o blank power_off s = some (o.shutdown s)
run_command f texts o blank clear s =
    some (record s { display = syscall_fb_clr_scr s.display; cur = 0 })
run_command f texts o blank nothing s = some s

unfoldable pub shell_handle_cmd : ℕ → Texts → Outside → Bmp → ℕ → Shell → Option Shell
shell_handle_cmd f texts o blank cmd s = elim (find_command f (mem_of s) texts cmd commands) [
  | none ↦ none
  | some c ↦ run_command f texts o blank c s
]

-- One round of `shell_main`, with the line at `buf`: how it ends.
pub data Turn : Type 0 where
  handled : Shell → List ℕ → Turn
  stuck : Input → Turn
  unfinished : Turn

-- How the round ends behind its command.
abbrev pub turn_of : List ℕ → Option Shell → Turn
turn_of keys none = unfinished
turn_of keys (some s) = handled s keys

-- Behind the line break that follows the line.
abbrev pub obey_line : ℕ → Texts → Outside → Bmp → ℕ → List ℕ → Option Shell → Turn
obey_line f texts o blank buf keys none = unfinished
obey_line f texts o blank buf keys (some s) = turn_of keys (shell_handle_cmd f texts o blank buf s)

-- Behind the line.
abbrev pub obey : ℕ → Texts → Outside → Bmp → ℕ → Input → Turn
obey f texts o blank buf (received s keys) =
    obey_line f texts o blank buf keys (shell_cout f texts.break s)
obey f texts o blank buf waiting = stuck waiting
obey f texts o blank buf panicked = stuck panicked

-- Behind the prompt.
abbrev pub ask : ℕ → Texts → Outside → Bmp → ℕ → List ℕ → Option Shell → Turn
ask f texts o blank buf keys none = unfinished
ask f texts o blank buf keys (some s) = obey f texts o blank buf (shell_cin buf keys s)

unfoldable pub shell_turn : ℕ → Texts → Outside → Bmp → ℕ → List ℕ → Shell → Turn
shell_turn f texts o blank buf keys s =
    ask f texts o blank buf keys
      (shell_cout f texts.prompt (set_mem s (memset (mem_of s) buf 0 cin_bufsz)))
