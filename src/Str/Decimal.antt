-- ===== src/Str/Decimal.antt =====
-- `_int_to_str_u` and `_int_to_str_s` of string.c: decimal digits into a buffer of a given size.
pub mod Laws
use catch_os.Base.{
  ℕ, zero, suc, ◌+◌, ◌-◌, ◌/◌, ◌%◌, Option, none, some, Mem, update, ltb, ◌==◌, if◌then◌else◌, ℤ,
  pos, negsuc,
}

-- The loop over the digits, the lowest first, by the bytes left: the memory, and where the loop
-- stopped with what was left, none where it met the end of the buffer.
unfoldable pub digits_loop : Mem → ℕ → ℕ → ℕ → Mem × Option (ℕ × ℕ)
digits_loop mem out zero n = (mem, none)
digits_loop mem out (suc bufsize) n =
    let mem' = update mem out (n % 10 + b'0') in
    let rest = digits_loop mem' (out + 1) bufsize (n / 10) in
    if n / 10 == 0 then (mem', some (out + 1, bufsize)) else rest

-- `while (start < out)`, by rounds of which `out - start` are more than enough.
unfoldable pub reverse_loop : ℕ → Mem → ℕ → ℕ → Mem
reverse_loop zero mem start out = mem
reverse_loop (suc f) mem start out =
    let a = mem start in
    let mem' = update (update mem start (mem out)) out a in
    let rest = reverse_loop f mem' (start + 1) (out - 1) in if ltb start out then rest else mem

-- The terminator and the reversal behind the loop.
abbrev pub finish : ℕ → Mem × Option (ℕ × ℕ) → ℤ × Mem
finish start (mem, none) = (negsuc 0, mem)
finish start (mem, some (out, zero)) = (negsuc 0, mem)
finish start (mem, some (out, suc bufsize)) =
    (pos 0, reverse_loop (out - start) (update mem out 0) start (out - 1))

unfoldable pub int_to_str_u : Mem → ℕ → ℕ → ℕ → ℤ × Mem
int_to_str_u mem out bufsize n = finish out (digits_loop mem out bufsize n)

-- A negative `n` keeps its sign through `n /= 10`, and its digits lose theirs.
unfoldable pub int_to_str_s : Mem → ℕ → ℕ → ℤ → ℤ × Mem
int_to_str_s mem out bufsize (pos n) = finish out (digits_loop mem out bufsize n)
int_to_str_s mem out zero (negsuc n) = (negsuc 0, mem)
int_to_str_s mem out (suc bufsize) (negsuc n) =
    finish (out + 1) (digits_loop (update mem out b'-') (out + 1) bufsize (suc n))
