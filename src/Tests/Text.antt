-- ===== src/Tests/Text.antt =====
-- Numbers as text, in a memory of zeros.
use catch_os.Base.{refl, [], ◌∷◌, ◌-◌, array, inr, ℕ, ◌≡◌, arith, some, pos, Mem}
use catch_os.Str.{int_to_str_static, static_loop, strlen, memcpy}
use catch_os.Printf.{Call, snprintf, rounds, round}
use catch_os.Printf.Bounds.{snprintf-inside}
use catch_os.Str.Digits.{Converted, int_to_str_static-Converted}
use catch_os.Str.Decimal.{int_to_str_u}
use catch_os.Str.Decimal.Laws.{Decimal, int_to_str_u-Decimal}

abbrev zeros : Mem
zeros = λ a. 0

int_to_str_static-Converted_example :
    (out : Mem × ℕ) × (int_to_str_static zeros 1000 255 16 ≡ some out)
    × Converted zeros 1000 1064 1063 16 255 out
int_to_str_static-Converted_example =
    int_to_str_static-Converted 16 (omega arith) (omega arith) zeros 1000 255 (omega arith)

int_to_str_u-Decimal_example :
    (m : Mem) × (int_to_str_u zeros 1000 4 205 ≡ (pos 0, m)) × Decimal zeros 1000 4 205 m
int_to_str_u-Decimal_example = int_to_str_u-Decimal zeros 1000 3 205 (omega arith) (omega arith)

-- The format `%d-%x` at 2000, with the arguments -5 and 255.
abbrev format_at : Mem
format_at a = array 0 (b'%' ∷ b'd' ∷ b'%' ∷ b'x' ∷ b'-' ∷ b'-' ∷ 0 ∷ []) (a - 2000)

abbrev two_numbers : Call
two_numbers = record {
  maxlen = 8;
  va_arg = array 0 (4294967291 ∷ 255 ∷ []);
  static_buffer = 1000;
  fuel = 20;
}

-- It prints `-5FF-`.
printed :
    (let out = (snprintf 9 two_numbers format_at 3000 2000).0 in
      out 3000 ∷ out 3001 ∷ out 3002 ∷ out 3003 ∷ out 3004 ∷ out 3005 ∷ [])
    ≡ b'-' ∷ b'5' ∷ b'F' ∷ b'F' ∷ b'-' ∷ 0 ∷ []
unfolding snprintf rounds round strlen int_to_str_static static_loop memcpy
printed = refl

snprintf-inside_example : (snprintf 9 two_numbers format_at 3000 2000).0 3008 ≡ 0
snprintf-inside_example =
    snprintf-inside 9 two_numbers format_at 3000 2000 3008 (omega arith) (omega arith)
      (inr (omega arith)) (inr (omega arith))
