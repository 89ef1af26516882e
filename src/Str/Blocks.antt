-- ===== src/Str/Blocks.antt =====
-- `_memset`, `_memcpy` and the copies of strings: what each byte of the memory is afterwards.
use catch_os.Base.{ℕ, zero, suc, ◌+◌, ◌-◌, ◌%◌, ◌^◌, ◌≤◌, ◌<◌, ◌≡◌, ◌≢◌, ◌⊎◌, arith}
use catch_os.Base.{ltb, leb, ◌&&◌, if◌then◌else◌, Mem, update}
use catch_os.Base.{List, [], ◌∷◌, some, length, ◌==◌, Bool-cases, inl, inr}
use catch_os.Str.{memset, memcpy, strlen_loop, strlen}

-- `_memset` writes `c` to the `len` bytes from `dst` on, and to no other byte.
pub memset_lem :
    (mem : Mem) (dst c len a : ℕ)
    → memset mem dst c len a ≡ (if leb dst a && ltb a (dst + len) then c % 2 ^ 8 else mem a)
unfolding memset
memset_lem mem dst c zero a = ground arith
memset_lem mem dst c (suc len) a =
    ground (arith, memset_lem (update mem dst (c % 2 ^ 8)) (dst + 1) c len a)

-- `_memcpy` copies the `len` bytes from `src` on to `dst`, and changes no other byte, if it goes
-- downwards in memory or starts behind the source.
pub memcpy_lem :
    (mem : Mem) (dst src len a : ℕ)
    → (dst ≤ src) ⊎ (src + len ≤ dst)
    → memcpy mem dst src len a
      ≡ (if leb dst a && ltb a (dst + len) then mem (src + (a - dst)) else mem a)
unfolding memcpy
memcpy_lem mem dst src zero a h = ground arith
memcpy_lem mem dst src (suc len) a h =
    ground (arith, memcpy_lem (update mem dst (mem src)) (dst + 1) (src + 1) len a (omega arith))

-- The string at `s` is `xs`: its bytes, none of them 0, and the terminator.
abbrev pub IsString : Mem → ℕ → List ℕ → Type 0
IsString mem s [] = mem s ≡ 0
IsString mem s (x ∷ xs) = (mem s ≡ x) × (x ≢ 0) × IsString mem (s + 1) xs

strlen_loop-length :
    (f : ℕ) (mem : Mem) (s ret : ℕ) (xs : List ℕ)
    → IsString mem s xs
    → length xs < f
    → strlen_loop f mem s ret ≡ some (ret + length xs)
unfolding strlen_loop
strlen_loop-length zero mem s ret xs h lt = absurd (omega arith)
strlen_loop-length (suc f) mem s ret [] h lt = ground arith
strlen_loop-length (suc f) mem s ret (x ∷ xs) h lt =
    ground (arith, strlen_loop-length f mem (s + 1) (ret + 1) xs h.2)

-- `_strlen` of a string is its length, and stops when the fuel exceeds that.
pub strlen-length :
    (f : ℕ) (mem : Mem) (s : ℕ) (xs : List ℕ)
    → IsString mem s xs
    → length xs < f
    → strlen f mem s ≡ some (length xs)
unfolding strlen
strlen-length f mem s xs h lt = ground (arith, strlen_loop-length f mem s 0 xs h lt)

-- The bytes of `xs` at `a`, with nothing said of what follows.
abbrev pub Bytes : Mem → ℕ → List ℕ → Type 0
Bytes mem a [] = Unit
Bytes mem a (x ∷ xs) = (mem a ≡ x) × Bytes mem (a + 1) xs

pub Bytes-same :
    (m n : Mem) (a : ℕ) (xs : List ℕ) → ((b : ℕ) → a ≤ b → m b ≡ n b) → Bytes n a xs → Bytes m a xs
Bytes-same m n a [] h p = tt
Bytes-same m n a (x ∷ xs) h p =
    (ground (arith, h a), Bytes-same m n (a + 1) xs (λ b hb. h b (omega arith)) p.1)

strlen_loop-bound :
    (f : ℕ) (mem : Mem) (s ret l : ℕ) → strlen_loop f mem s ret ≡ some l → l < ret + f
unfolding strlen_loop
strlen_loop-bound zero mem s ret l h = absurd (cc)
strlen_loop-bound (suc f) mem s ret l h = elim (Bool-cases (mem s == 0)) [
  | inl e ↦ let found : some ret ≡ some l = rw e at h in let same : ret ≡ l = cc in omega arith
  | inr e ↦
      let later : strlen_loop f mem (s + 1) (ret + 1) ≡ some l = rw e at h in
      let ih = strlen_loop-bound f mem (s + 1) (ret + 1) l later in omega arith
]

-- A length that `_strlen` finds is below its fuel.
pub strlen-bound : (f : ℕ) (mem : Mem) (s l : ℕ) → strlen f mem s ≡ some l → l < f
unfolding strlen
strlen-bound f mem s l h = let b = strlen_loop-bound f mem s 0 l h in omega arith
