-- ===== src/Debug/Render.antt =====
-- What `_dbg_log` sends for a format of ordinary characters and directives for numbers.
use catch_os.Base.{
  ℕ, ◌+◌, ◌-◌, ◌%◌, ◌^◌, ◌≤◌, ◌<◌, ◌≡◌, ◌⊎◌, inl, inr, refl, ap, sym, ◌∙◌, arith, some, List, [],
  ◌∷◌, ◌++◌, length, Mem, Bool-cases, ltb,
}
use catch_os.Str.Blocks.{IsString, strlen-length}
use catch_os.Str.Digits.{Numeral, int_to_str_static-Converted}
use catch_os.Boot.{bytes_at}
use catch_os.Drivers.Serial.{sent, ready_count, serial_write-sent}
use catch_os.Debug.{
  Args, put_string, put_number, put_signed, directive, Line, send, serial_sink, serial_com1_base,
}
use catch_os.Debug.Items.{Directive, character, unsigned, signed, octal, hex, letter, Says}

sent-append :
    (base : ℕ) (xs ys : List ℕ) (out : List (ℕ × ℕ))
    → sent base (xs ++ ys) out ≡ sent base ys (sent base xs out)
sent-append base [] ys out = refl
sent-append base (x ∷ xs) ys out = sent-append base xs ys ((base, x % 256) ∷ out)

length-bytes : (m : Mem) (p : ℕ) (xs : List ℕ) → IsString m p xs → bytes_at m p (length xs) ≡ xs
length-bytes m p [] h = refl
length-bytes m p (x ∷ xs) (e, some_char, h) = λ i. e i ∷ length-bytes m (p + 1) xs h i

length-append : (xs ys : List ℕ) → length (xs ++ ys) ≡ length xs + length ys
length-append [] ys = omega arith
length-append (x ∷ xs) ys = let ih = length-append xs ys in omega arith

-- `bytes` went out between two states, and memory off the static buffer is as it was.
pub record IsSent (args : Args) (s : Line) (bytes : List ℕ) (u : Line) : Type 0 where
  pub out : u.out ≡ sent serial_com1_base bytes s.out
  pub ready : ready_count u.readings + length bytes ≡ ready_count s.readings
  pub kept : (a : ℕ) → (a < args.static_buffer) ⊎ (args.static_buffer + 64 ≤ a) → u.mem a ≡ s.mem a

module _ (args : Args) where
  pub send-IsSent :
      (bytes : List ℕ) (s : Line)
      → length bytes ≤ ready_count s.readings
      → (u : Line) × (send bytes s ≡ some u) × IsSent args s bytes u × (u.mem ≡ s.mem)
  send-IsSent bytes s enough =
      let (rest, e, n) = serial_write-sent serial_com1_base bytes s.readings s.out enough in
      (
        record s { readings = rest; out = sent serial_com1_base bytes s.out },
        rw (send, e) refl,
        record { out = refl; ready = n; kept = λ a o. refl },
        refl,
      )

  string-IsSent :
      (p : ℕ) (ds : List ℕ) (s : Line)
      → IsString s.mem p ds
      → length ds < args.fuel
      → length ds ≤ ready_count s.readings
      → (u : Line) × (put_string serial_sink args p s ≡ some u)
        × IsSent args s ds u
        × (u.mem ≡ s.mem)
  unfolding put_string
  string-IsSent p ds s string fuel enough =
      let len = strlen-length args.fuel s.mem p ds string fuel in
      let (u, e, y, z) = send-IsSent ds s enough in
      (u, rw (put_string, len, length-bytes s.mem p ds string) e, y, z)

  number-IsSent :
      (num base : ℕ) (s : Line)
      → 2 ≤ base
      → base ≤ 16
      → num < 2 ^ 32
      → 63 < args.fuel
      → 63 ≤ ready_count s.readings
      → (u : Line) × (ds : List ℕ) × (put_number serial_sink args num base s ≡ some u)
        × IsSent args s ds u
        × Numeral base num ds
        × (length ds ≤ 63)
  unfolding put_number
  number-IsSent num base s small large lt fuel enough =
      let ((mem, p), e, r) =
        int_to_str_static-Converted base small large s.mem args.static_buffer num lt in
      let ds = r.digits in
      let short : length ds ≤ 63 = omega (arith, r.ends, r.inside.0) in
      let (u, eu, y, z) =
        string-IsSent p ds (record s { mem = mem }) r.string (omega arith) (omega arith) in
      (
        u,
        ds,
        rw (put_number, e) eu,
        record { out = y.out; ready = y.ready; kept = λ a o. ap (λ m. m a) z ∙ r.kept a o },
        r.numeral,
        short,
      )

  -- One after the other.
  pub IsSent-append :
      (s t u : Line) (xs ys : List ℕ)
      → IsSent args s xs t
      → IsSent args t ys u
      → IsSent args s (xs ++ ys) u
  IsSent-append s t u xs ys x y = record {
    out =
        y.out
        ∙ ap (sent serial_com1_base ys) x.out
        ∙ sym (sent-append serial_com1_base xs ys s.out);
    ready = omega (arith, x.ready, y.ready, length-append xs ys);
    kept = λ a o. y.kept a o ∙ x.kept a o;
  }

  signed-IsSent :
      (i : ℕ) (s : Line)
      → i < 2 ^ 32
      → 63 < args.fuel
      → 64 ≤ ready_count s.readings
      → (u : Line) × (bytes : List ℕ) × (put_signed serial_sink args i s ≡ some u)
        × IsSent args s bytes u
        × Says signed i bytes
        × (length bytes ≤ 64)
  unfolding put_signed
  signed-IsSent i s lt fuel enough = elim (Bool-cases (ltb i (2 ^ 31))) [
    | inl e ↦
        (let (u, ds, eu, y, value, short) =
            number-IsSent i 10 s (omega arith) (omega arith) lt fuel (omega arith) in
          (u, ds, rw (put_signed, e) eu, y, inl (ground arith, value), omega arith))
    | inr e ↦
        (let (t, et, x, z) = send-IsSent (b'-' ∷ []) s (omega arith) in
          let (u, ds, eu, y, value, short) =
            number-IsSent (2 ^ 32 - i) 10 t (omega arith) (omega arith) (ground arith) fuel
              (omega (arith, x.ready)) in
          (
            u,
            b'-' ∷ ds,
            rw (put_signed, e, et) eu,
            IsSent-append s t u (b'-' ∷ []) ds x y,
            inr (ground arith, ds, refl, value),
            omega arith,
          ))
  ]

  pub directive-IsSent :
      (d : Directive) (arg : ℕ) (s : Line)
      → 63 < args.fuel
      → 64 ≤ ready_count s.readings
      → (u : Line) × (bytes : List ℕ) × (directive serial_sink args (letter d) arg s
          ≡ (arg + 1, some u))
        × IsSent args s bytes u
        × Says d (args.va_arg arg % 2 ^ 32) bytes
        × (length bytes ≤ 64)
  unfolding directive
  directive-IsSent character arg s fuel enough =
      let c = args.va_arg arg % 2 ^ 32 % 2 ^ 8 in
      let (u, e, y, z) = send-IsSent (c ∷ []) s (omega arith) in
      (u, c ∷ [], ap (λ o. (arg + 1, o)) e, y, refl, omega arith)
  directive-IsSent unsigned arg s fuel enough =
      let (u, ds, e, y, value, short) =
        number-IsSent (args.va_arg arg % 2 ^ 32) 10 s (omega arith) (omega arith) (omega arith) fuel
          (omega arith) in
      (u, ds, ap (λ o. (arg + 1, o)) e, y, value, omega arith)
  directive-IsSent signed arg s fuel enough =
      let (u, ds, e, y, says, short) =
        signed-IsSent (args.va_arg arg % 2 ^ 32) s (omega arith) fuel enough in
      (u, ds, ap (λ o. (arg + 1, o)) e, y, says, short)
  directive-IsSent octal arg s fuel enough =
      let (u, ds, e, y, value, short) =
        number-IsSent (args.va_arg arg % 2 ^ 32) 8 s (omega arith) (omega arith) (omega arith) fuel
          (omega arith) in
      (u, ds, ap (λ o. (arg + 1, o)) e, y, value, omega arith)
  directive-IsSent hex arg s fuel enough =
      let (u, ds, e, y, value, short) =
        number-IsSent (args.va_arg arg % 2 ^ 32) 16 s (omega arith) (omega arith) (omega arith) fuel
          (omega arith) in
      (u, ds, ap (λ o. (arg + 1, o)) e, y, value, omega arith)
