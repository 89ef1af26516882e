-- ===== src/Debug/Items.antt =====
-- Formats of ordinary characters and directives for numbers, and the texts that they stand for.
use catch_os.Base.{
  ℕ, suc, ◌+◌, ◌-◌, ◌%◌, ◌^◌, ◌≤◌, ◌<◌, ◌≡◌, ◌≢◌, ◌⊎◌, List, [], ◌∷◌, ◌++◌, Bool, true, false,
}
use catch_os.Str.Digits.{Numeral}
use catch_os.Debug.{Logged, finished, unlocked, Line}

-- The directives that print a number, and the letter of each.
pub data Directive : Type 0 where
  character : Directive
  unsigned : Directive
  signed : Directive
  octal : Directive
  hex : Directive

abbrev pub letter : Directive → ℕ
letter character = b'c'
letter unsigned = b'u'
letter signed = b'd'
letter octal = b'o'
letter hex = b'x'

pub data Item : Type 0 where
  plain : ℕ → Item
  argument : Directive → Item

-- The format of the items.
abbrev pub spell : List Item → List ℕ
spell [] = []
spell (plain c ∷ items) = c ∷ spell items
spell (argument d ∷ items) = b'%' ∷ letter d ∷ spell items

abbrev pub NoPercent : List Item → Type 0
NoPercent [] = Unit
NoPercent (plain c ∷ items) = (c ≢ b'%') × NoPercent items
NoPercent (argument d ∷ items) = NoPercent items

-- The text for a value of 32 bits.
abbrev pub Says : Directive → ℕ → List ℕ → Type 0
Says character i bytes = bytes ≡ i % 2 ^ 8 ∷ []
Says unsigned i bytes = Numeral 10 i bytes
Says octal i bytes = Numeral 8 i bytes
Says hex i bytes = Numeral 16 i bytes
Says signed i bytes =
    ((i < 2 ^ 31) × Numeral 10 i bytes)
    ⊎ ((2 ^ 31 ≤ i) × (ds : List ℕ) × (bytes ≡ b'-' ∷ ds) × Numeral 10 (2 ^ 32 - i) ds)

-- The text for the items, from an argument on.
abbrev pub Reads : (ℕ → ℕ) → ℕ → List Item → List ℕ → Type 0
Reads va arg [] bytes = bytes ≡ []
Reads va arg (plain c ∷ items) bytes =
    (rest : List ℕ) × (bytes ≡ c ∷ rest) × Reads va arg items rest
Reads va arg (argument d ∷ items) bytes =
    (first : List ℕ) × (rest : List ℕ) × (bytes ≡ first ++ rest)
    × Says d (va arg % 2 ^ 32) first
    × Reads va (arg + 1) items rest

-- The bytes that the items need at most.
abbrev pub weight : List Item → ℕ
weight [] = 0
weight (plain c ∷ items) = suc (weight items)
weight (argument d ∷ items) = 64 + weight items

abbrev pub ends_plain : List Item → Bool
ends_plain [] = false
ends_plain (plain c ∷ []) = true
ends_plain (argument d ∷ []) = false
ends_plain (i ∷ j ∷ items) = ends_plain (j ∷ items)

abbrev pub logged : Bool → Line → Logged Line
logged true u = unlocked u
logged false u = finished u
