-- ===== src/Str/Digits.antt =====
-- `_int_to_str_static`: the digits of a number in a base of 2 to 16.
use catch_os.Base.{ℕ, zero, suc, ◌+◌, ◌-◌, ◌*◌, ◌/◌, ◌%◌, ◌^◌, ◌≤◌, ◌<◌, ◌≡◌, ◌≢◌, refl, ◌∙◌, arith}
use native.Mathlib.Nat.{pow-suc}
use catch_os.Base.{
  ltb, ◌==◌, if◌then◌else◌, Mem, update, update_self, update_ne, ◌⊎◌, List, [], ◌∷◌, length, some,
  Bool-cases, inl, inr, mul_le_right,
}
use catch_os.Str.{representation, static_loop, int_to_str_static}
use catch_os.Str.Blocks.{IsString}

-- The digit that a character stands for.
abbrev pub digit_value : ℕ → ℕ
digit_value c = if ltb c b'A' then c - b'0' else c - b'A' + 10

-- The number that digits stand for behind those of `acc`, the highest first.
abbrev pub number_from : ℕ → ℕ → List ℕ → ℕ
number_from base acc [] = acc
number_from base acc (x ∷ xs) = number_from base (acc * base + digit_value x) xs

-- A digit of the base: `0` to `9` or `A` to `F`, of a value below the base.
abbrev pub IsDigit : ℕ → ℕ → Type 0
IsDigit base c = ((b'0' ≤ c) × (c ≤ b'9') ⊎ (b'A' ≤ c) × (c ≤ b'F')) × (digit_value c < base)

abbrev pub AllDigits : ℕ → List ℕ → Type 0
AllDigits base [] = Unit
AllDigits base (x ∷ xs) = IsDigit base x × AllDigits base xs

-- The first digit is not `0`, unless it is the only one.
abbrev pub NoLeadingZero : List ℕ → Type 0
NoLeadingZero [] = Unit
NoLeadingZero (x ∷ xs) = (x ≢ b'0') ⊎ (xs ≡ [])

-- The numeral of `n` in the base.
pub record Numeral (base n : ℕ) (ds : List ℕ) : Type 0 where
  pub valid : AllDigits base ds
  pub some_digit : 0 < length ds
  pub no_leading_zero : NoLeadingZero ds
  pub value : number_from base 0 ds ≡ n

representation-IsDigit : (base d : ℕ) → d < base → base ≤ 16 → IsDigit base (representation d)
representation-IsDigit base d lt le = elim (Bool-cases (ltb d 10)) [
  | inl e ↦ (inl (ground arith, ground arith), ground arith)
  | inr e ↦ (inr (ground arith, ground arith), ground arith)
]

digit_value-representation : (d : ℕ) → d < 16 → digit_value (representation d) ≡ d
digit_value-representation d h = ground arith

IsString-update :
    (mem : Mem) (a v s : ℕ) (xs : List ℕ)
    → a < s
    → IsString mem s xs
    → IsString (update mem a v) s xs
IsString-update mem a v s [] lt h = ground arith
IsString-update mem a v s (x ∷ xs) lt h =
    (ground arith, h.1, IsString-update mem a v (s + 1) xs (omega arith) h.2)

-- A proper division step halves at least, and loses nothing.
division :
    (n base : ℕ)
    → 2 ≤ base
    → (n / base * base + n % base ≡ n) × (2 * (n / base) ≤ n) × (n % base < base)
division n base h =
    let m = mul_le_right (n / base) 2 base h in
    let e : n / base * base + n % base ≡ n = ground arith in (e, omega arith, ground arith)

-- What the conversion leaves: the numeral of the number as a string, inside the buffer, with its
-- terminator at `last`.
pub record Converted (mem : Mem) (low top last base n : ℕ) (out : Mem × ℕ) : Type 0 where
  pub digits : List ℕ
  pub string : IsString out.0 out.1 digits
  pub numeral : Numeral base n digits
  pub ends : out.1 + length digits ≡ last
  pub inside : (low ≤ out.1) × (out.1 < top)
  pub kept : (a : ℕ) → (a < low) ⊎ (top ≤ a) → out.0 a ≡ mem a

positive : (c q : ℕ) → q < 2 ^ c → 0 < q → 0 < c
positive zero q lt some_q = absurd (omega arith)
positive (suc c) q lt some_q = omega arith

module _ (base : ℕ) (small : 2 ≤ base) (large : base ≤ 16) where
  static_loop-Converted :
      (f : ℕ) (mem : Mem) (low ptr num n : ℕ) (ys : List ℕ)
      → IsString mem ptr ys
      → number_from base num ys ≡ n
      → AllDigits base ys
      → (0 < num) ⊎ (ys ≡ [])
      → num < 2 ^ f
      → 0 < f
      → low + f ≤ ptr
      → (out : Mem × ℕ) × (static_loop f mem ptr num base ≡ some out)
        × Converted mem low ptr (ptr + length ys) base n out
  unfolding static_loop
  static_loop-Converted zero mem low ptr num n ys h v valid more lt some_fuel room =
      absurd (omega arith)
  static_loop-Converted (suc f) mem low ptr num n ys h v valid more lt some_fuel room =
      let (whole, halves, digit) = division num base small in
      let c = representation (num % base) in
      let mem' = update mem (ptr - 1) c in
      let back : ptr - 1 + 1 ≡ ptr = omega arith in
      let longer : IsString mem' (ptr - 1) (c ∷ ys) = (
        update_self mem (ptr - 1) c,
        ground arith,
        rw back (IsString-update mem (ptr - 1) c ptr ys (omega arith) h),
      ) in
      let value : number_from base (num / base) (c ∷ ys) ≡ n =
        rw (digit_value-representation (num % base) (omega arith), whole) v in
      let valid' : AllDigits base (c ∷ ys) =
        (representation-IsDigit base (num % base) digit large, valid) in
      let half : num / base < 2 ^ f =
        let p : num < 2 ^ f * 2 = rw (pow-suc 2 f) at lt in omega arith in
      elim (Bool-cases (num / base == 0)) [
        | inl e ↦
            (let none_left : num / base ≡ 0 = ground arith in
              (
                (mem', ptr - 1),
                rw (static_loop, e) refl,
                record {
                  digits = c ∷ ys;
                  string = longer;
                  numeral = record {
                    valid = valid';
                    some_digit = omega arith;
                    no_leading_zero = elim more [
                      | inl lt0 ↦ inl (ground arith)
                      | inr none_yet ↦ inr none_yet
                    ];
                    value = rw none_left at value;
                  };
                  ends = omega arith;
                  inside = (omega arith, omega arith);
                  kept = λ a o.
                      update_ne mem (ptr - 1) c a
                        (λ q. elim o [ inl l ↦ omega arith | inr g ↦ omega arith ]);
                },
              ))
        | inr e ↦
            (let (out, ends, r) =
                static_loop-Converted f mem' low (ptr - 1) (num / base) n (c ∷ ys) longer value
                  valid' (inl (ground arith)) half (positive f (num / base) half (ground arith))
                  (omega arith) in
              (
                out,
                rw (static_loop, e) ends,
                record {
                  digits = r.digits;
                  string = r.string;
                  numeral = r.numeral;
                  ends = omega (arith, r.ends);
                  inside = (r.inside.0, omega (arith, r.inside.1));
                  kept = λ a o.
                      r.kept a (elim o [ inl l ↦ inl l | inr g ↦ inr (omega arith) ])
                      ∙ update_ne mem (ptr - 1) c a
                          (λ q. elim o [ inl l ↦ omega arith | inr g ↦ omega arith ]);
                },
              ))
      ]

  -- For a base of 2 to 16 and a number of 32 bits, `_int_to_str_static` returns the numeral of the
  -- number as a string: at least one digit, each `0` to `9` or `A` to `F` and of a value below the
  -- base, without a leading zero, and with the value of the number. It lies in the 64 bytes of the
  -- buffer, and no other byte of memory changes.
  pub int_to_str_static-Converted :
      (mem : Mem) (buffer num : ℕ)
      → num < 2 ^ 32
      → (out : Mem × ℕ) × (int_to_str_static mem buffer num base ≡ some out)
        × Converted mem buffer (buffer + 64) (buffer + 63) base num out
  unfolding int_to_str_static
  int_to_str_static-Converted mem buffer num lt =
      let start = update mem (buffer + 63) 0 in
      let (out, ends, r) =
        static_loop-Converted 32 start (buffer + 31) (buffer + 63) num num []
          (update_self mem (buffer + 63) 0) refl tt (inr refl) lt (omega arith) (omega arith) in
      (
        out,
        ends,
        record {
          digits = r.digits;
          string = r.string;
          numeral = r.numeral;
          ends = omega (arith, r.ends);
          inside = (omega (arith, r.inside.0), omega (arith, r.inside.1));
          kept = λ a o.
              r.kept a (elim o [ inl l ↦ inl (omega arith) | inr g ↦ inr (omega arith) ])
              ∙ update_ne mem (buffer + 63) 0 a
                  (λ q. elim o [ inl l ↦ omega arith | inr g ↦ omega arith ]);
        },
      )
