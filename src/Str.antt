-- ===== src/Str.antt =====
-- kernel/utils/string.c: strings and blocks of bytes in memory. A string is the address of its
-- first byte. The loops that look for the terminator run on fuel, and `none` says that the fuel
-- ran out; the laws below show how much is enough. Addresses do not wrap.
pub mod Blocks
pub mod Compare
pub mod Digits
pub mod Decimal
use catch_os.Base.{ℕ, zero, suc, ◌+◌, ◌-◌, ◌*◌, ◌/◌, ◌%◌, ◌^◌, Option, none, some, List, [], ◌∷◌}
use catch_os.Base.{Bool, true, false, ltb, ◌==◌, if◌then◌else◌, Mem, null, update, array}
use catch_os.Base.{ℤ, pos, negsuc, pos_part, neg_part}

-- `while (*(s++)) ret++;`
strlen_loop : ℕ → Mem → ℕ → ℕ → Option ℕ
strlen_loop zero mem s ret = none
strlen_loop (suc f) mem s ret =
    let rest = strlen_loop f mem (s + 1) (ret + 1) in if mem s == 0 then some ret else rest

unfoldable pub strlen : ℕ → Mem → ℕ → Option ℕ
unfolding strlen_loop
strlen f mem s = strlen_loop f mem s 0

-- `c1 < c2 ? -1 : 1`
abbrev order_of : ℕ → ℕ → ℤ
order_of c1 c2 = if ltb c1 c2 then negsuc 0 else pos 1

-- `count` bounds the rounds.
unfoldable pub strncmp : Mem → ℕ → ℕ → ℕ → ℤ
strncmp mem cs ct zero = pos 0
strncmp mem cs ct (suc count) =
    let rest = strncmp mem (cs + 1) (ct + 1) count in
    let c1 = mem cs in
    let c2 = mem ct in if c1 == c2 then (if c1 == 0 then pos 0 else rest) else order_of c1 c2

unfoldable pub strcmp : ℕ → Mem → ℕ → ℕ → Option ℤ
strcmp zero mem cs ct = none
strcmp (suc f) mem cs ct =
    let rest = strcmp f mem (cs + 1) (ct + 1) in
    let c1 = mem cs in
    let c2 = mem ct in
    if c1 == c2 then (if c1 == 0 then some (pos 0) else rest) else some (order_of c1 c2)

-- `c` is stored as a byte.
unfoldable pub memset : Mem → ℕ → ℕ → ℕ → Mem
memset mem dst c zero = mem
memset mem dst c (suc len) = memset (update mem dst (c % 2 ^ 8)) (dst + 1) c len

unfoldable pub memcpy : Mem → ℕ → ℕ → ℕ → Mem
memcpy mem dst src zero = mem
memcpy mem dst src (suc len) = memcpy (update mem dst (mem src)) (dst + 1) (src + 1) len

strcpy_loop : ℕ → Mem → ℕ → ℕ → ℕ → Option (Mem × ℕ)
strcpy_loop zero mem dst src ret = none
strcpy_loop (suc f) mem dst src ret =
    let rest = strcpy_loop f (update mem dst (mem src)) (dst + 1) (src + 1) (ret + 1) in
    if mem src == 0 then some (mem, ret) else rest

-- `_strcpy_s` and `_strcpy_u`: the memory behind the copy, and the number of bytes copied. The
-- terminator is not copied.
unfoldable pub strcpy : ℕ → Mem → ℕ → ℕ → Option (Mem × ℕ)
unfolding strcpy_loop
strcpy f mem dst src = strcpy_loop f mem dst src 0

-- `(int)maxlen` as a number of rounds: a negative bound allows none.
abbrev int_rounds : ℕ → ℕ
int_rounds maxlen = if ltb maxlen (2 ^ 31) then maxlen else 0

-- By the rounds that `ret < (int)maxlen` leaves.
strncpy_loop : Mem → ℕ → ℕ → ℕ → ℕ → Mem × ℕ
strncpy_loop mem dst src zero ret = (mem, ret)
strncpy_loop mem dst src (suc n) ret =
    let rest = strncpy_loop (update mem dst (mem src)) (dst + 1) (src + 1) n (ret + 1) in
    if mem src == 0 then (mem, ret) else rest

-- `_strncpy_s` and `_strncpy_u`
unfoldable pub strncpy : Mem → ℕ → ℕ → ℕ → Mem × ℕ
unfolding strncpy_loop
strncpy mem dst src maxlen = strncpy_loop mem dst src (int_rounds maxlen) 0

-- The loop of `_strnstr`, by fuel: `len` falls by one in each round.
strnstr_loop : ℕ → Mem → ℕ → ℕ → ℕ → ℕ → Option ℕ
strnstr_loop zero mem s1 s2 l2 len = none
strnstr_loop (suc f) mem s1 s2 l2 len =
    let rest = strnstr_loop f mem (s1 + 1) s2 l2 (len - 1) in
    let differ = strncmp mem s1 s2 l2 in
    if ltb len l2 then some null else elim differ [ pos zero ↦ some s1 | _ ↦ rest ]

-- The fuel `f` is for `_strlen(s2)`. The loop makes fewer than `len + 1` rounds when `s2` is not
-- empty; the result is null when there is no match.
unfoldable pub strnstr : ℕ → Mem → ℕ → ℕ → ℕ → Option ℕ
unfolding strnstr_loop
strnstr f mem s1 s2 len = elim (strlen f mem s2) [
  | none ↦ none
  | some l2 ↦ if l2 == 0 then some s1 else strnstr_loop (len + 1) mem s1 s2 l2 len
]

-- `"0123456789ABCDEF"` with its terminator; a base of more than 17 reads past it.
abbrev pub representation : ℕ → ℕ
representation d = if ltb d 10 then b'0' + d else if ltb d 16 then b'A' + (d - 10) else 0

-- The loop of `_int_to_str_static`, which writes backwards from `ptr`.
unfoldable pub static_loop : ℕ → Mem → ℕ → ℕ → ℕ → Option (Mem × ℕ)
static_loop zero mem ptr num base = none
static_loop (suc f) mem ptr num base =
    let mem' = update mem (ptr - 1) (representation (num % base)) in
    let rest = static_loop f mem' (ptr - 1) (num / base) base in
    if num / base == 0 then some (mem', ptr - 1) else rest

-- `buffer` is the address of the function's static array of 64 bytes. A number of 32 bits has at
-- most 32 digits, so that is the fuel.
unfoldable pub int_to_str_static : Mem → ℕ → ℕ → ℕ → Option (Mem × ℕ)
unfolding static_loop
int_to_str_static mem buffer num base =
    static_loop 32 (update mem (buffer + 63) 0) (buffer + 63) num base
