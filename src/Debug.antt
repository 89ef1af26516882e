-- ===== src/Debug.antt =====
-- kernel/utils/debug.c: formatted output on the serial line and on the screen. The two functions
-- differ in where their output goes, which is a `Sink`. The arguments behind the format are a
-- function of their position.
pub mod Items
pub mod Render
pub mod Format
use catch_os.Base.{
  ℕ, zero, suc, ◌+◌, ◌-◌, ◌*◌, ◌/◌, ◌%◌, ◌^◌, Option, none, some, List, [], ◌∷◌, map, Mem, Bool,
  true, false, ltb, ◌==◌, if◌then◌else◌,
}
use catch_os.Str.{strlen, int_to_str_static}
use catch_os.Boot.{bytes_at}
use catch_os.Drivers.{Writes}
use catch_os.Drivers.Serial.{serial_write}
use catch_os.Console.{svga_draw_char_cell, svga_write_str}
use catch_os.Console.Colour.{svga_translate_rgb, font_get_char}
use catch_os.Syscall.{Display, with_screen}

-- Where output goes: the memory it is read from, a character outside of directives, a character,
-- and the text of some length at an address. `none` says that the output waits for ever.
pub record Sink (S : Type 0) : Type 0 where
  pub mem_of : S → Mem
  pub set_mem : S → Mem → S
  pub put_ordinary : ℕ → S → Option S
  pub put_char : ℕ → S → Option S
  pub put_text : ℕ → ℕ → S → Option S

-- The arguments, the static buffer of `_int_to_str_static`, and the fuel for `_strlen`.
pub record Args : Type 0 where
  pub va_arg : ℕ → ℕ
  pub static_buffer : ℕ
  pub fuel : ℕ

-- How the function ends: at the end of its loop, or from the inner loop, which in `_dbg_log`
-- unlocks the lock before; or not at all.
pub data Logged (S : Type 0) : Type 0 where
  finished : S → Logged S
  unlocked : S → Logged S
  starved : Logged S

-- Behind a directive.
abbrev pub then_log : {S : Type 0} → ℕ × Option S → (ℕ → S → Logged S) → Logged S
then_log (next, none) rest = starved
then_log (next, some u) rest = rest next u

module _ {S : Type 0} (k : Sink S) (args : Args) where
  unfoldable pub put_string : ℕ → S → Option S
  put_string p s = elim (strlen args.fuel (k.mem_of s) p) [
    | none ↦ none
    | some n ↦ k.put_text p n s
  ]

  unfoldable pub put_number : ℕ → ℕ → S → Option S
  put_number num base s = elim (int_to_str_static (k.mem_of s) args.static_buffer num base) [
    | none ↦ none
    | some (mem, p) ↦ put_string p (k.set_mem s mem)
  ]

  unfoldable pub put_signed : ℕ → S → Option S
  put_signed i s =
      if ltb i (2 ^ 31)
      then put_number i 10 s
      else elim (k.put_char b'-' s) [ none ↦ none | some t ↦ put_number (2 ^ 32 - i) 10 t ]

  -- The `switch`: the position of the next argument, and the state.
  unfoldable pub directive : ℕ → ℕ → S → ℕ × Option S
  directive c arg s =
      let i = args.va_arg arg % 2 ^ 32 in
      if c == b'c'
      then (arg + 1, k.put_char (i % 2 ^ 8) s)
      else if c == b'u'
      then (arg + 1, put_number i 10 s)
      else if c == b'd'
      then (arg + 1, put_signed i s)
      else if c == b'o'
      then (arg + 1, put_number i 8 s)
      else if c == b's'
      then (arg + 1, put_string i s)
      else if c == b'x'
      then (arg + 1, put_number i 16 s)
      else (arg, some s)

  -- One round for each directive or character outside of one, by fuel.
  unfoldable pub dbg_loop : ℕ → ℕ → ℕ → S → Logged S
  dbg_loop zero t arg s = starved
  dbg_loop (suc f) t arg s =
      let c = k.mem_of s t in
      if c == 0
      then finished s
      else if c == b'%'
      then then_log (directive (k.mem_of s (t + 1)) arg s) (λ next u. dbg_loop f (t + 2) next u)
      else elim (k.put_ordinary c s) [
        | none ↦ starved
        | some u ↦
            let rest = dbg_loop f (t + 1) arg u in
            if k.mem_of u (t + 1) == 0 then unlocked u else rest
      ]

-- The serial line: the memory, the readings of its status port, and the bytes sent.
pub record Line : Type 0 where
  pub mem : Mem
  pub readings : List ℕ
  pub out : Writes

abbrev pub serial_com1_base : ℕ
serial_com1_base = 0x3f8

abbrev pub send : List ℕ → Line → Option Line
send bytes s = elim (serial_write serial_com1_base bytes s.readings s.out) [
  | none ↦ none
  | some (readings, out) ↦ some (record s { readings = readings; out = out })
]

abbrev pub serial_sink : Sink Line
serial_sink = record {
  mem_of = λ s. s.mem;
  set_mem = λ s m. record s { mem = m };
  put_ordinary = λ c s. send (c ∷ []) s;
  put_char = λ c s. send (c ∷ []) s;
  put_text = λ p n s. send (bytes_at s.mem p n) s;
}

unfoldable pub dbg_log : ℕ → Args → ℕ → Line → Logged Line
dbg_log f args format s = dbg_loop serial_sink args f format 0 s

-- The screen, with the static `scrpos`.
pub record Page : Type 0 where
  pub display : Display
  pub scrpos : ℕ

abbrev pub white_color : Display → ℕ
white_color d = svga_translate_rgb d.scaled d.format (record { r = 0xff; g = 0xff; b = 0xff })

abbrev pub draw_char : ℕ → Page → Page
draw_char c s =
    let d = s.display in
    let (next, t) =
      svga_draw_char_cell d.screen s.scrpos (font_get_char d.font c) (white_color d) in
    record { display = with_screen d t; scrpos = next }

abbrev pub draw_text : ℕ → ℕ → Page → Page
draw_text p n s =
    let d = s.display in
    let glyphs = map (font_get_char d.font) (bytes_at d.screen.mem p n) in
    let (next, t) =
      svga_write_str d.screen glyphs s.scrpos (font_get_char d.font b'x') (white_color d) in
    record { display = with_screen d t; scrpos = next }

-- A line break is drawn, too, behind the end of a line of 100 cells.
abbrev pub draw_ordinary : ℕ → Page → Page
draw_ordinary c s =
    let broken = (s.scrpos + (100 - (s.scrpos + 100) % 2 ^ 32 % 100)) % 2 ^ 32 in
    draw_char c (if c == 10 then record s { scrpos = broken } else s)

abbrev pub screen_sink : Sink Page
screen_sink = record {
  mem_of = λ s. s.display.screen.mem;
  set_mem =
      λ s m. record s { display = with_screen s.display (record s.display.screen { mem = m }) };
  put_ordinary = λ c s. some (draw_ordinary c s);
  put_char = λ c s. some (draw_char c s);
  put_text = λ p n s. some (draw_text p n s);
}

unfoldable pub dbg_screen : ℕ → Args → ℕ → Page → Logged Page
dbg_screen f args format s = dbg_loop screen_sink args f format 0 s
