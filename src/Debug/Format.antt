-- ===== src/Debug/Format.antt =====
-- The loop of `_dbg_log` over a format.
use catch_os.Base.{
  ℕ, zero, suc, ◌+◌, ◌≤◌, ◌<◌, ◌≡◌, ◌≢◌, ◌⊎◌, refl, ap, sym, ◌∙◌, arith, some, List, [], ◌∷◌, ◌++◌,
  length, Mem, true, false, ◌==◌, if◌then◌else◌,
}
use catch_os.Str.Blocks.{IsString}
use catch_os.Drivers.Serial.{ready_count}
use catch_os.Debug.{Args, unlocked, directive, dbg_loop, then_log, Line, send, serial_sink, dbg_log}
use catch_os.Debug.Render.{IsSent, send-IsSent, directive-IsSent, IsSent-append}
use catch_os.Debug.Items.{
  Directive, letter, Item, plain, argument, spell, NoPercent, Reads, weight, ends_plain, logged,
}

-- The format lies off the static buffer.
abbrev IsApart : Args → ℕ → List ℕ → Type 0
IsApart args t xs = (t + length xs < args.static_buffer) ⊎ (args.static_buffer + 64 ≤ t)

-- A string off the static buffer stays.
IsString-kept :
    (args : Args) (m n : Mem) (t : ℕ) (xs : List ℕ)
    → IsApart args t xs
    → ((a : ℕ) → (a < args.static_buffer) ⊎ (args.static_buffer + 64 ≤ a) → n a ≡ m a)
    → IsString m t xs
    → IsString n t xs
IsString-kept args m n t [] apart same h = same t (ground arith) ∙ h
IsString-kept args m n t (x ∷ xs) apart same (e, some_char, h) =
    (same t (ground arith) ∙ e, some_char, IsString-kept args m n (t + 1) xs (ground arith) same h)

ends-argument :
    (d : Directive) (items : List Item) → ends_plain (argument d ∷ items) ≡ ends_plain items
ends-argument d [] = refl
ends-argument d (i ∷ items) = refl

first_spelled :
    (m : Mem) (t : ℕ) (i : Item) (items : List Item)
    → IsString m t (spell (i ∷ items))
    → (m t == 0) ≡ false
first_spelled m t (plain c) items (e, some_char, h) = ground arith
first_spelled m t (argument d) items (e, some_char, h) = ground arith

module _ (args : Args) (fuel : 63 < args.fuel) where
  -- How the loop ends for the items from an argument on.
  abbrev IsLogged : ℕ → ℕ → ℕ → List Item → Line → Type 0
  IsLogged f t arg items s =
      (u : Line) × (bytes : List ℕ) × Reads args.va_arg arg items bytes
      × (dbg_loop serial_sink args f t arg s ≡ logged (ends_plain items) u)
      × IsSent args s bytes u

  plain_step :
      (f t arg c : ℕ) (s u : Line)
      → s.mem t ≡ c
      → c ≢ 0
      → c ≢ b'%'
      → send (c ∷ []) s ≡ some u
      → dbg_loop serial_sink args (suc f) t arg s
        ≡ (if u.mem (t + 1) == 0 then unlocked u else dbg_loop serial_sink args f (t + 1) arg u)
  unfolding dbg_loop
  plain_step f t arg c s u at some_char other e =
      let e0 : (c == 0) ≡ false = ground arith in
      let e1 : (c == b'%') ≡ false = ground arith in rw (dbg_loop, at, e0, e1, e) refl

  argument_step :
      (f t arg : ℕ) (d : Directive) (s u : Line)
      → s.mem t ≡ b'%'
      → s.mem (t + 1) ≡ letter d
      → directive serial_sink args (letter d) arg s ≡ (arg + 1, some u)
      → dbg_loop serial_sink args (suc f) t arg s ≡ dbg_loop serial_sink args f (t + 2) (arg + 1) u
  unfolding dbg_loop
  argument_step f t arg d s u at next e =
      rw (dbg_loop, at, next)
        (ap (λ p. then_log p (λ n w. dbg_loop serial_sink args f (t + 2) n w)) e)

  loop-IsLogged :
      (f t arg : ℕ) (items : List Item) (s : Line)
      → length items < f
      → IsString s.mem t (spell items)
      → IsApart args t (spell items)
      → NoPercent items
      → weight items ≤ ready_count s.readings
      → IsLogged f t arg items s
  unfolding dbg_loop
  loop-IsLogged zero t arg items s lt string apart ordinary enough = absurd (omega arith)
  loop-IsLogged (suc f) t arg [] s lt string apart ordinary enough =
      let e : (s.mem t == 0) ≡ true = ground arith in
      (
        s,
        [],
        refl,
        rw (dbg_loop, e) refl,
        record { out = refl; ready = omega arith; kept = λ a o. refl },
      )
  loop-IsLogged (suc f) t arg (plain c ∷ []) s lt (at, some_char, string) apart (other, none_left)
        enough =
      let (u, e, y, same) = send-IsSent args (c ∷ []) s (omega arith) in
      let last : (u.mem (t + 1) == 0) ≡ true = rw same (ground arith) in
      (u, c ∷ [], ([], refl, refl), plain_step f t arg c s u at some_char other e ∙ rw last refl, y)
  loop-IsLogged (suc f) t arg (plain c ∷ i ∷ items) s lt (at, some_char, string) apart
        (other, ordinary) enough =
      let (u, e, y, same) = send-IsSent args (c ∷ []) s (omega arith) in
      let next =
        IsString-kept args s.mem u.mem (t + 1) (spell (i ∷ items)) (ground arith) y.kept string in
      let more = first_spelled u.mem (t + 1) i items next in
      let (w, bytes, reads, rest, z) =
        loop-IsLogged f (t + 1) arg (i ∷ items) u (omega arith) next (ground arith) ordinary
          (omega (arith, y.ready)) in
      (
        w,
        c ∷ bytes,
        (bytes, refl, reads),
        plain_step f t arg c s u at some_char other e ∙ rw more rest,
        IsSent-append args s u w (c ∷ []) bytes y z,
      )
  loop-IsLogged (suc f) t arg (argument d ∷ items) s lt (at, some_char, (next, some_letter, string))
        apart ordinary enough =
      let (u, first, e, y, says, short) = directive-IsSent args d arg s fuel (omega arith) in
      let two : t + 1 + 1 ≡ t + 2 = omega arith in
      let behind =
        IsString-kept args s.mem u.mem (t + 2) (spell items) (ground arith) y.kept
          (rw two at string) in
      let (w, bytes, reads, rest, z) =
        loop-IsLogged f (t + 2) (arg + 1) items u (omega arith) behind (ground arith) ordinary
          (omega (arith, y.ready)) in
      (
        w,
        first ++ bytes,
        (first, bytes, refl, says, reads),
        argument_step f t arg d s u at next e
            ∙ rest
            ∙ ap (λ b. logged b w) (sym (ends-argument d items)),
        IsSent-append args s u w first bytes y z,
      )

-- For a format of ordinary characters and of the directives c, u, d, o and x, off the static
-- buffer of the conversion, with a fuel above the number of its items and above 63, and 64 ready
-- readings of the status port for each directive and one for each character: `_dbg_log` returns.
-- It has sent the text of the format, with a character or the numeral of the value in the base for
-- each directive, each byte once and in order, and no byte of memory outside the static buffer has
-- changed. The spin lock, which it never takes, is released exactly when the format ends in an
-- ordinary character.
pub dbg_log-Reads :
    (f : ℕ) (args : Args) (format : ℕ) (items : List Item) (s : Line)
    → 63 < args.fuel
    → length items < f
    → IsString s.mem format (spell items)
    → (format + length (spell items) < args.static_buffer) ⊎ (args.static_buffer + 64 ≤ format)
    → NoPercent items
    → weight items ≤ ready_count s.readings
    → (u : Line) × (bytes : List ℕ) × Reads args.va_arg 0 items bytes
      × (dbg_log f args format s ≡ logged (ends_plain items) u)
      × IsSent args s bytes u
unfolding dbg_log
dbg_log-Reads f args format items s fuel lt string apart ordinary enough =
    loop-IsLogged args fuel f format 0 items s lt string apart ordinary enough
