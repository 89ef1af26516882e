-- ===== src/Shell.antt =====
-- kernel/shell/shell.c: the input line, the output and the commands of the shell. Its variables are
-- a record, its buffers lie in the memory of the screen. The loop over a string runs on fuel.
pub mod Command
pub mod Edit
pub mod Line
pub mod Spelled
pub mod Cin
pub mod Choice
pub mod Output
pub mod Turn
use catch_os.Base.{
  ℕ, zero, suc, ◌+◌, ◌-◌, ◌*◌, ◌%◌, ◌^◌, Option, none, some, List, [], ◌∷◌, Mem, update, leb, ◌==◌,
  if◌then◌else◌, Bool, true, false,
}
use catch_os.Str.{memcpy, memset}
use catch_os.Drivers.Keyboard.{key_backspace}
use catch_os.Console.{Svga, with_mem}
use catch_os.Syscall.{
  Display, with_screen, syscall_fb_write_chr, syscall_fb_clr_cell, syscall_fb_clr_scr,
  syscall_fb_scroll_down, syscall_fb_get_scr_cols, syscall_fb_get_scr_rows,
}

abbrev pub cin_bufsz : ℕ
cin_bufsz = 256

abbrev pub newline : ℕ
newline = 10

-- `cin` is the address of `_cin_buf_`.
pub record Shell : Type 0 where
  pub display : Display
  pub screen_columns : ℕ
  pub screen_rows : ℕ
  pub cur : ℕ
  pub receiving_user_input : Bool
  pub cin : ℕ
  pub cin_pos : ℕ

abbrev pub mem_of : Shell → Mem
mem_of s = s.display.screen.mem

abbrev pub set_mem : Shell → Mem → Shell
set_mem s m = record s { display = with_screen s.display (with_mem s.display.screen m) }

abbrev pub decrement : ℕ → ℕ
decrement n = (n + 2 ^ 32 - 1) % 2 ^ 32

abbrev pub write_chr : ℕ → Shell → Shell
write_chr c s =
    let (next, d) = syscall_fb_write_chr c s.cur s.display in record s { display = d; cur = next }

-- The case of the backspace key.
abbrev pub erase : Shell → Shell
erase s =
    let t = set_mem s (update (mem_of s) (s.cin + s.cin_pos) 0) in
    let (next, d) = syscall_fb_clr_cell (decrement t.cur) t.display in
    record t { display = d; cur = decrement next; cin_pos = t.cin_pos - 1 }

abbrev pub append : ℕ → Shell → Shell
append ascii s =
    let t = set_mem s (update (mem_of s) (s.cin + s.cin_pos) ascii) in
    write_chr ascii (record t { cin_pos = t.cin_pos + 1 })

-- The body for a shell that receives input. Moving the cursor does nothing on a graphics screen.
unfoldable pub accept_key : ℕ → Shell → Shell
accept_key ascii s =
    if ascii == 0
    then s
    else if ascii == newline
    then record s { receiving_user_input = false }
    else if leb cin_bufsz s.cin_pos
    then s
    else if ascii == key_backspace
    then (if s.cin_pos == 0 then s else erase s)
    else append ascii s

unfoldable pub shell_handle_keypress : ℕ → Shell → Shell
shell_handle_keypress ascii s = if s.receiving_user_input then accept_key ascii s else s

-- A line break: to the start of the next line, or of the last one on a scrolled screen.
abbrev pub line_break : Shell → Shell
line_break s =
    let next = (s.cur + (s.screen_columns - s.cur % s.screen_columns)) % 2 ^ 32 in
    if leb (s.screen_columns * s.screen_rows) next
    then record s {
      display = syscall_fb_scroll_down 1 s.display;
      cur = (next + 2 ^ 32 - s.screen_columns) % 2 ^ 32;
    }
    else record s { cur = next }

unfoldable pub shell_cout : ℕ → ℕ → Shell → Option Shell
shell_cout zero str s = none
shell_cout (suc f) str s =
    let c = mem_of s str in
    let rest = shell_cout f (str + 1) (if c == newline then line_break s else write_chr c s) in
    if c == 0 then some s else rest

-- How waiting for a line ends: with the keys left, still waiting, or in a panic.
pub data Input : Type 0 where
  received : Shell → List ℕ → Input
  waiting : Input
  panicked : Input

-- `while (_receiving_user_input)`, with the keys that the interrupts of the keyboard bring.
unfoldable pub receive : List ℕ → Shell → Input
receive [] s = if s.receiving_user_input then waiting else received s []
receive (key ∷ keys) s =
    let rest = receive keys (shell_handle_keypress key s) in
    if s.receiving_user_input then rest else received s (key ∷ keys)

abbrev pub take_line : ℕ → Input → Input
take_line out (received s keys) =
    if leb s.cin_pos cin_bufsz
    then received
        (record (set_mem s (memset (memcpy (mem_of s) out s.cin s.cin_pos) s.cin 0 cin_bufsz)) {
          cin_pos = 0;
        })
        keys
    else panicked
take_line out waiting = waiting
take_line out panicked = panicked

unfoldable pub shell_cin : ℕ → List ℕ → Shell → Input
shell_cin out keys s =
    take_line out (receive keys (record s { cin_pos = 0; receiving_user_input = true }))

-- Behind the driver's own initialisation; `cin_buf` is the address of the buffer and `greeting` of
-- the text.
unfoldable pub shell_init : ℕ → ℕ → ℕ → Shell → Option Shell
shell_init f cin_buf greeting s = shell_cout f greeting (record {
  display = syscall_fb_clr_scr s.display;
  screen_columns = syscall_fb_get_scr_cols s.display;
  screen_rows = syscall_fb_get_scr_rows s.display;
  cur = 0;
  receiving_user_input = false;
  cin = cin_buf;
  cin_pos = s.cin_pos;
})
