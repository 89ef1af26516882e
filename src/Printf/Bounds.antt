-- ===== src/Printf/Bounds.antt =====
-- Formatted output stays inside its buffer.
use catch_os.Base.{
  ℕ, zero, suc, ◌+◌, ◌-◌, ◌%◌, ◌^◌, ◌≤◌, ◌<◌, ◌≡◌, ◌⊎◌, inl, inr, refl, ◌∙◌, arith, Option-cases,
  Mem, update, update_ne, ltb, leb, ◌==◌, if◌then◌else◌, Bool, Bool-cases, false,
}
use catch_os.Str.{strlen, memcpy}
use catch_os.Str.Blocks.{strlen-bound}
use catch_os.Str.Digits.{int_to_str_static-Converted}
use catch_os.Printf.{
  Call, Printing, Round, returned, onward, unfinished, put, next_arg, check_len, copy_text,
  put_string, put_number, put_decimal, directive, ordinary, round, after_round, rounds, snprintf,
}

memcpy-kept :
    (len : ℕ) (mem : Mem) (dst src a : ℕ)
    → (a < dst) ⊎ (dst + len ≤ a)
    → memcpy mem dst src len a ≡ mem a
unfolding memcpy
memcpy-kept zero mem dst src a o = refl
memcpy-kept (suc len) mem dst src a o =
    memcpy-kept len (update mem dst (mem src)) (dst + 1) (src + 1) a
      (elim o [ inl l ↦ inl (omega arith) | inr g ↦ inr (omega arith) ])
    ∙ update_ne mem dst (mem src) a (λ e. elim o [ inl l ↦ omega arith | inr g ↦ omega arith ])

-- `a` lies outside of a block.
abbrev pub Off : ℕ → ℕ → ℕ → Type 0
Off p n a = (a < p) ⊎ (p + n ≤ a)

module _ (call : Call) (buf : ℕ) (mem0 : Mem) where
  -- The memory outside the buffer and the static buffer is as it was.
  abbrev pub Kept : Mem → Type 0
  Kept mem = (a : ℕ) → Off buf call.maxlen a → Off call.static_buffer 64 a → mem a ≡ mem0 a

  -- There is room in the buffer, `buf` stands behind what is written, and no text is so long that
  -- its length and what is written need more than 32 bits.
  pub record Within (s : Printing) : Type 0 where
    pub room : s.len < call.maxlen
    pub place : s.buf ≡ buf + s.len
    pub short : call.maxlen + call.fuel ≤ 2 ^ 32
    pub kept : Kept s.mem

  abbrev pub Good : Round → Type 0
  Good (returned mem) = Kept mem
  Good (onward t s) = Within s
  Good (unfinished mem) = Kept mem

  put-Kept : (c : ℕ) (s : Printing) → Within s → Kept (put c s).mem
  put-Kept c s w a o1 o2 =
      update_ne s.mem s.buf (c % 2 ^ 8) a
        (λ e. elim o1 [ inl l ↦ omega (arith, w.place) | inr g ↦ omega (arith, w.place, w.room) ])
      ∙ w.kept a o1 o2

  check_len-Good :
      (t : ℕ) (s : Printing)
      → s.buf ≡ buf + s.len
      → call.maxlen + call.fuel ≤ 2 ^ 32
      → Kept s.mem
      → Good (check_len call t s)
  check_len-Good t s place short kept = elim (Bool-cases (leb call.maxlen s.len)) [
    | inl e ↦ rw e kept
    | inr e ↦ rw e (record { room = ground arith; place = place; short = short; kept = kept })
  ]

  copy_text-Good :
      (t text l : ℕ) (s : Printing) → l < call.fuel → Within s → Good (copy_text call t text l s)
  copy_text-Good t text l s lt w =
      let room = if ltb call.maxlen ((s.len + l) % 2 ^ 32) then call.maxlen - s.len else l in
      let fits : s.len + room ≤ call.maxlen = ground (arith, w.room, w.short) in
      check_len-Good t _ (omega (arith, w.place)) w.short (λ a o1 o2.
        memcpy-kept room s.mem s.buf text a (elim o1 [
          | inl l ↦ inl (omega (arith, w.place))
          | inr g ↦ inr (omega (arith, w.place, fits))
        ])
        ∙ w.kept a o1 o2)

  put_string-Good : (t text : ℕ) (s : Printing) → Within s → Good (put_string call t text s)
  put_string-Good t text s w = elim (Option-cases (strlen call.fuel s.mem text)) [
    | inl e ↦ rw (put_string, e) w.kept
    | inr (l, e) ↦
        rw (put_string, e) (copy_text-Good t text l s (strlen-bound call.fuel s.mem text l e) w)
  ]

  put_number-Good :
      (t num base : ℕ) (s : Printing)
      → 2 ≤ base
      → base ≤ 16
      → num < 2 ^ 32
      → Within s
      → Good (put_number call t num base s)
  put_number-Good t num base s small large lt w =
      let ((mem, text), e, r) =
        int_to_str_static-Converted base small large s.mem call.static_buffer num lt in
      rw (put_number, e)
        (put_string-Good t text (record s { mem = mem })
          (record {
            room = w.room;
            place = w.place;
            short = w.short;
            kept = λ a o1 o2. r.kept a o2 ∙ w.kept a o1 o2;
          }))

  put-Within :
      (c : ℕ) (s : Printing) → Within s → leb call.maxlen (put c s).len ≡ false → Within (put c s)
  put-Within c s w more = record {
    room = ground arith;
    place = omega (arith, w.place);
    short = w.short;
    kept = put-Kept c s w;
  }

  next_arg-Within : (s : Printing) → Within s → Within (next_arg s)
  next_arg-Within s w = record { room = w.room; place = w.place; short = w.short; kept = w.kept }

  put_decimal-Good :
      (t i : ℕ) (s : Printing) → i < 2 ^ 32 → Within s → Good (put_decimal call t i s)
  put_decimal-Good t i s lt w = elim (Bool-cases (ltb i (2 ^ 31))) [
    | inl small ↦ rw small (put_number-Good t i 10 s (omega arith) (omega arith) lt w)
    | inr negative ↦ elim (Bool-cases (leb call.maxlen (put b'-' s).len)) [
      | inl full ↦ rw (negative, full) (put-Kept b'-' s w)
      | inr more ↦
          rw (negative, more)
            (put_number-Good t (2 ^ 32 - i) 10 (put b'-' s) (omega arith) (omega arith)
              (ground arith) (put-Within b'-' s w more))
    ]
  ]

  directive-Good : (t : ℕ) (s : Printing) → Within s → Good (directive call t s)
  directive-Good t s w =
      let i = call.va_arg s.arg % 2 ^ 32 in
      let small : i < 2 ^ 32 = omega arith in
      let n = next_arg s in
      let wn = next_arg-Within s w in
      elim (Bool-cases (s.mem t == b'c')) [
        | inl e ↦
            rw e
              (check_len-Good (t + 1) (put i n) (omega (arith, w.place)) w.short (put-Kept i n wn))
        | inr e1 ↦ elim (Bool-cases (s.mem t == b'd')) [
          | inl e ↦ rw (e1, e) (put_decimal-Good (t + 1) i n small wn)
          | inr e2 ↦ elim (Bool-cases (s.mem t == b'x')) [
            | inl e ↦
                rw (e1, e2, e) (put_number-Good (t + 1) i 16 n (omega arith) (omega arith) small wn)
            | inr e3 ↦ elim (Bool-cases (s.mem t == b's')) [
              | inl e ↦ rw (e1, e2, e3, e) (put_string-Good (t + 1) i n wn)
              | inr e4 ↦ rw (e1, e2, e3, e4) w
            ]
          ]
        ]
      ]

  ordinary-Good : (t : ℕ) (s : Printing) → Within s → Good (ordinary call t s)
  ordinary-Good t s w =
      let u = put (s.mem t) s in
      elim (Bool-cases (u.len == call.maxlen)) [
        | inl e ↦ rw e (put-Kept (s.mem t) s w)
        | inr e1 ↦ elim (Bool-cases (ltb (u.mem (t + 1)) 128)) [
          | inl e ↦ rw (e1, e) (put-Kept (s.mem t) s w)
          | inr e2 ↦ rw (e1, e2) (put-Within (s.mem t) s w (ground (arith, w.room)))
        ]
      ]

  round-Good : (t : ℕ) (s : Printing) → Within s → Good (round call t s)
  unfolding round
  round-Good t s w = elim (Bool-cases (s.mem t == 0)) [
    | inl e ↦ rw (round, e) w.kept
    | inr e1 ↦ elim (Bool-cases (s.mem t == b'%')) [
      | inl e ↦ rw (round, e1, e) (directive-Good (t + 1) s w)
      | inr e2 ↦ rw (round, e1, e2) (ordinary-Good t s w)
    ]
  ]

  after_round-Kept :
      (r : Round) (rest : ℕ → Printing → Mem × Bool)
      → Good r
      → ((t : ℕ) (s : Printing) → Within s → Kept (rest t s).0)
      → Kept (after_round r rest).0
  after_round-Kept (returned mem) rest g k = g
  after_round-Kept (unfinished mem) rest g k = g
  after_round-Kept (onward t s) rest g k = k t s g

  rounds-Kept : (f t : ℕ) (s : Printing) → Within s → Kept (rounds f call t s).0
  unfolding rounds
  rounds-Kept zero t s w = w.kept
  rounds-Kept (suc f) t s w =
      after_round-Kept (round call t s) (λ next u. rounds f call next u) (round-Good t s w)
        (λ next u good. rounds-Kept f next u good)

-- For a positive `maxlen`, whatever the format, the arguments and the memory, while `maxlen` and
-- the length that `_strlen` may count to do not exceed 2^32 together: after any number of rounds
-- `_snprintf` has changed no byte outside the `maxlen` bytes of its buffer and the static buffer
-- of `_int_to_str_static`.
pub snprintf-inside :
    (f : ℕ) (call : Call) (mem : Mem) (buf format a : ℕ)
    → 0 < call.maxlen
    → call.maxlen + call.fuel ≤ 2 ^ 32
    → Off buf call.maxlen a
    → Off call.static_buffer 64 a
    → (snprintf f call mem buf format).0 a ≡ mem a
unfolding snprintf
snprintf-inside f call mem buf format a some_room short =
    rounds-Kept call buf mem f format (record { mem = mem; buf = buf; len = 0; arg = 0 })
      (record { room = some_room; place = omega arith; short = short; kept = λ a o1 o2. refl }) a
