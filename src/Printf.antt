-- ===== src/Printf.antt =====
-- kernel/utils/printf.c: formatted output into a buffer, over byte-addressed memory. The arguments
-- behind the format are a function of their position, 32 bits each.
pub mod Bounds
use catch_os.Base.{
  ℕ, zero, suc, ◌+◌, ◌-◌, ◌%◌, ◌^◌, Option, none, some, Mem, update, ltb, leb, ◌==◌, if◌then◌else◌,
  Bool, true, false,
}
use catch_os.Str.{strlen, memcpy, int_to_str_static}

-- What stays the same in a call: `maxlen`, the arguments, the static buffer of
-- `_int_to_str_static`, and the fuel for `_strlen`.
pub record Call : Type 0 where
  pub maxlen : ℕ
  pub va_arg : ℕ → ℕ
  pub static_buffer : ℕ
  pub fuel : ℕ

-- The memory and the local variables; `arg` is the position of the next argument.
pub record Printing : Type 0 where
  pub mem : Mem
  pub buf : ℕ
  pub len : ℕ
  pub arg : ℕ

-- One round: the function returns, or goes on with the format at an address, or a loop in it has no
-- fuel left.
pub data Round : Type 0 where
  returned : Mem → Round
  onward : ℕ → Printing → Round
  unfinished : Mem → Round

-- `*buf++ = c; len++;`
abbrev pub put : ℕ → Printing → Printing
put c s = record s { mem = update s.mem s.buf (c % 2 ^ 8); buf = s.buf + 1; len = s.len + 1 }

abbrev pub next_arg : Printing → Printing
next_arg s = record s { arg = s.arg + 1 }

-- `if (len >= maxlen) return;`
abbrev pub check_len : Call → ℕ → Printing → Round
check_len call t s = if leb call.maxlen s.len then returned s.mem else onward t s

-- The end of the cases `d`, `x` and `s`: as much of the string of `l` bytes as there is room for,
-- by a sum of 32 bits.
abbrev pub copy_text : Call → ℕ → ℕ → ℕ → Printing → Round
copy_text call t text l s =
    let room = if ltb call.maxlen ((s.len + l) % 2 ^ 32) then call.maxlen - s.len else l in
    check_len call t
      (record s { mem = memcpy s.mem s.buf text room; len = s.len + room; buf = s.buf + room })

abbrev pub put_string : Call → ℕ → ℕ → Printing → Round
put_string call t text s = elim (strlen call.fuel s.mem text) [
  | none ↦ unfinished s.mem
  | some l ↦ copy_text call t text l s
]

abbrev pub put_number : Call → ℕ → ℕ → ℕ → Printing → Round
put_number call t num base s = elim (int_to_str_static s.mem call.static_buffer num base) [
  | none ↦ unfinished s.mem
  | some (mem, text) ↦ put_string call t text (record s { mem = mem })
]

-- The case `d`; a negative number has its sign put first.
abbrev pub put_decimal : Call → ℕ → ℕ → Printing → Round
put_decimal call t i s =
    if ltb i (2 ^ 31)
    then put_number call t i 10 s
    else let signed = put b'-' s in
      if leb call.maxlen signed.len
      then returned signed.mem
      else put_number call t (2 ^ 32 - i) 10 signed

-- The `switch` on the character at `t`; the format goes on behind it.
abbrev pub directive : Call → ℕ → Printing → Round
directive call t s =
    let c = s.mem t in
    let i = call.va_arg s.arg % 2 ^ 32 in
    if c == b'c'
    then check_len call (t + 1) (put i (next_arg s))
    else if c == b'd'
    then put_decimal call (t + 1) i (next_arg s)
    else if c == b'x'
    then put_number call (t + 1) i 16 (next_arg s)
    else if c == b's'
    then put_string call (t + 1) i (next_arg s)
    else onward (t + 1) s

-- The body of the inner loop; a `char` of less than 128 is not negative.
abbrev pub ordinary : Call → ℕ → Printing → Round
ordinary call t s =
    let u = put (s.mem t) s in
    if u.len == call.maxlen
    then returned u.mem
    else if ltb (u.mem (t + 1)) 128
    then returned u.mem
    else onward (t + 1) u

unfoldable pub round : Call → ℕ → Printing → Round
round call t s =
    if s.mem t == 0
    then returned s.mem
    else if s.mem t == b'%'
    then directive call (t + 1) s
    else ordinary call t s

-- The memory behind a round, and whether the function has returned.
abbrev pub after_round : Round → (ℕ → Printing → Mem × Bool) → Mem × Bool
after_round (returned mem) rest = (mem, true)
after_round (unfinished mem) rest = (mem, false)
after_round (onward t s) rest = rest t s

unfoldable pub rounds : ℕ → Call → ℕ → Printing → Mem × Bool
rounds zero call t s = (s.mem, false)
rounds (suc f) call t s = after_round (round call t s) (λ next u. rounds f call next u)

unfoldable pub snprintf : ℕ → Call → Mem → ℕ → ℕ → Mem × Bool
snprintf f call mem buf format =
    rounds f call format (record { mem = mem; buf = buf; len = 0; arg = 0 })
