-- ===== src/Sync/Atomic.antt =====
-- kernel/utils/atomic.c: each operation is one indivisible step on one variable, by the documented
-- meaning of the compiler's builtins; `int` values are taken modulo 2 ^ 32.
use catch_os.Base.{ℕ, ◌+◌, ◌-◌, ◌%◌, ◌^◌, Bool, true, false, ◌==◌, if◌then◌else◌}

-- Whether the exchange took place, and the variable.
unfoldable pub atomic_compare_exchange : ℕ → ℕ → ℕ → Bool × ℕ
atomic_compare_exchange addr expected desired =
    if addr == expected then (true, desired) else (false, addr)

-- The argument `value` is not used.
unfoldable pub atomic_store : ℕ → ℕ → ℕ
atomic_store dst value = 0

abbrev pub atomic_load : ℕ → ℕ
atomic_load src = src

-- The old value, and the variable.
abbrev pub atomic_fetch_add : ℕ → ℕ → ℕ × ℕ
atomic_fetch_add addr n = (addr, (addr + n) % 2 ^ 32)

abbrev pub atomic_fetch_sub : ℕ → ℕ → ℕ × ℕ
atomic_fetch_sub addr n = (addr, (addr + 2 ^ 32 - n % 2 ^ 32) % 2 ^ 32)
