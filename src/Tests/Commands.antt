-- ===== src/Tests/Commands.antt =====
-- The shell on a small screen, with its strings and buffers in one memory, and the power.
use catch_os.Base.{
  ℕ, ◌+◌, ◌^◌, ◌≤◌, ◌<◌, ◌≡◌, refl, arith, Mem, List, [], ◌∷◌, length, some, array, false, inl, inr,
  pos,
}
use catch_os.Str.Blocks.{IsString}
use catch_os.Console.{Svga}
use catch_os.Console.Inside.{IsScreen, IsOutside}
use catch_os.Shell.{Shell, received, shell_cin, shell_cout}
use catch_os.Shell.Line.{IsReady}
use catch_os.Shell.Cin.{IsTaken, shell_cin-line}
use catch_os.Shell.Output.{IsShell, at_output, cursor_after, cout-cursor}
use catch_os.Shell.Command.{
  Command, uptime, help, program, picture, tests, restart, power_off, clear, nothing, Texts,
  Outside, turn_of, commands, find_command, run_command, shell_turn,
}
use catch_os.Shell.Choice.{name_of, first_command, IsNamed, find_command-first}
use catch_os.Shell.Turn.{IsLaidOut, IsFixed, IsRound, resting, turn-first_command}
use catch_os.Shell.Spelled.{spelled}
use catch_os.Tests.Pictures.{indexed, grey, blank, small}

-- Each name with its terminator, then the prompt and the line break.
abbrev strings : Mem
strings = array 0 (
    b'u' ∷ b'p' ∷ b't' ∷ b'i' ∷ b'm' ∷ b'e' ∷ 0 ∷ b'h' ∷ b'e' ∷ b'l' ∷ b'p' ∷ 0 ∷ b'p' ∷ b'r' ∷ b'o'
    ∷ b'g' ∷ b'r' ∷ b'a' ∷ b'm' ∷ 0 ∷ b'r' ∷ b'e' ∷ b'i' ∷ b'.' ∷ b'b' ∷ b'm' ∷ b'p' ∷ 0 ∷ b't'
    ∷ b'e' ∷ b's' ∷ b't' ∷ b's' ∷ 0 ∷ b'r' ∷ b'e' ∷ b'b' ∷ b'o' ∷ b'o' ∷ b't' ∷ 0 ∷ b's' ∷ b'h'
    ∷ b'u' ∷ b't' ∷ b'd' ∷ b'o' ∷ b'w' ∷ b'n' ∷ 0 ∷ b'c' ∷ b'l' ∷ b'e' ∷ b'a' ∷ b'r' ∷ 0 ∷ b'>' ∷ 0
    ∷ 10 ∷ 0 ∷ [])

abbrev place : Command → ℕ
place uptime = 0
place help = 7
place program = 12
place picture = 20
place tests = 28
place restart = 34
place power_off = 41
place clear = 50
place nothing = 6

abbrev texts : Texts
texts = record {
  name = place;
  msg_help = 7;
  break = 58;
  prompt = 56;
  ticksbuf = 3000;
  ret_s = 3100;
  test_vga = 7;
  test_multitask = 7;
}

-- Twenty columns and fifteen rows.
abbrev screen : Svga
screen = record {
  scr_w = 160;
  scr_h = 165;
  scr_columns = 20;
  scr_rows = 15;
  svga_lfb = 2 ^ 20;
  backbuffer = 2 ^ 21;
  framebuffer_pitch = 640;
  framebuffer_bpp = 32;
  mem = strings;
}

screen-IsScreen : IsScreen screen
screen-IsScreen = record {
  columns = refl;
  rows = refl;
  some_column = omega arith;
  some_row = omega arith;
  deep = refl;
  wide = omega arith;
  front_fits = omega arith;
  back_fits = omega arith;
}

abbrev shell : Shell
shell = record {
  display = record {
    screen = screen;
    format = indexed;
    font = 5000;
    scaled = λ c m. 0;
    brush = grey;
  };
  screen_columns = 20;
  screen_rows = 15;
  cur = 299;
  receiving_user_input = false;
  cin = 1000;
  cin_pos = 0;
}

shell-IsReady : IsReady shell
shell-IsReady = record {
  screen = screen-IsScreen;
  small = omega arith;
  room = omega arith;
  apart = λ a lo hi. (inl (omega arith), inl (omega arith));
}

shell-IsShell : IsShell shell
shell-IsShell = record {
  screen = screen-IsScreen;
  small = omega arith;
  columns = refl;
  rows = refl;
}

names-IsNamed : IsNamed strings texts
names-IsNamed uptime = ground arith
names-IsNamed help = ground arith
names-IsNamed program = ground arith
names-IsNamed picture = ground arith
names-IsNamed tests = ground arith
names-IsNamed restart = ground arith
names-IsNamed power_off = ground arith
names-IsNamed clear = ground arith
names-IsNamed nothing = refl

low-IsFixed : (b : ℕ) → b < 100 → IsFixed shell 2000 b
low-IsFixed b lt = ((inl (omega arith), inl (omega arith)), inl (omega arith), inl (omega arith))

place_low : (c : Command) → place c + length (name_of c) < 100
place_low uptime = omega arith
place_low help = omega arith
place_low program = omega arith
place_low picture = omega arith
place_low tests = omega arith
place_low restart = omega arith
place_low power_off = omega arith
place_low clear = omega arith
place_low nothing = omega arith

shell-IsLaidOut : IsLaidOut shell texts 2000
shell-IsLaidOut = record {
  ready = shell-IsReady;
  shell = shell-IsShell;
  apart = inr (omega arith);
  outside = λ a lo hi. (inl (omega arith), inl (omega arith));
  names = names-IsNamed;
  names_fixed = λ c b lo hi. low-IsFixed b (omega (arith, place_low c));
  prompt = ground arith;
  prompt_fixed = λ b lo hi. low-IsFixed b (omega arith);
  break = ground arith;
  break_fixed = λ b lo hi. low-IsFixed b (omega arith);
}

-- "cx", a correction, "lear" and the newline, and a key behind it.
abbrev keys : List ℕ
keys = b'c' ∷ b'x' ∷ 8 ∷ b'l' ∷ b'e' ∷ b'a' ∷ b'r' ∷ 10 ∷ b'u' ∷ []

abbrev line : List ℕ
line = b'r' ∷ b'a' ∷ b'e' ∷ b'l' ∷ b'c' ∷ []

shell_cin-line_example :
    (u : Shell) × (shell_cin 2000 keys shell ≡ received u (b'u' ∷ [])) × IsTaken shell 2000 line u
shell_cin-line_example =
    shell_cin-line shell 2000 keys line (b'u' ∷ []) shell-IsReady (omega arith) (omega arith)
      (inr (omega arith)) refl

-- "uptime" in the last cells but one of the screen, which scrolls.
cout-cursor_example :
    (m : Mem) × (shell_cout 9 0 (at_output shell strings 299)
      ≡ some (at_output shell m (cursor_after screen 299 (name_of uptime))))
    × (cursor_after screen 299 (name_of uptime) ≤ 300)
    × ((b : ℕ) → IsOutside screen b → m b ≡ strings b)
cout-cursor_example =
    cout-cursor shell shell-IsShell 9 0 (name_of uptime) strings 299 (omega arith)
      (λ b lo hi. (low-IsFixed b (omega arith)).0) (names-IsNamed uptime) (omega arith)

find_command-first_example :
    find_command 9 strings texts 50 commands ≡ some (first_command (name_of clear) commands)
find_command-first_example =
    find_command-first 9 strings texts 50 (name_of clear) commands (omega arith) names-IsNamed
      (names-IsNamed clear)

abbrev others : Outside
others = record {
  gettime = 7;
  mod_size = 0;
  start_program = λ s. (pos 1, s);
  start_tasks = λ s. s;
  reboot = λ s. s;
  shutdown = λ s. s;
  img_rei = 0;
  fresh = λ k. blank;
}

turn-first_command_example :
    (m : Mem) × (cur : ℕ) × (shell_turn 9 texts others small 2000 keys shell
      ≡ turn_of (b'u' ∷ []) (
          run_command 9 texts others small
            (first_command (spelled line) commands)
            (resting shell m cur)))
    × IsRound shell texts 2000 9 keys line (b'u' ∷ []) (resting shell m cur)
    × IsString m 2000 (spelled line)
    × (cur ≤ 300)
turn-first_command_example =
    turn-first_command shell texts 2000 9 others small keys line (b'u' ∷ []) shell-IsLaidOut
      (omega arith) (omega arith) refl (omega arith)
