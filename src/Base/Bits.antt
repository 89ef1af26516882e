-- ===== src/Base/Bits.antt =====
-- Single bits of a byte under the C operators, by a table over all bytes and all positions.
use Prim.Native.Nat.{ℕ, zero, suc, ◌-◌, ◌/◌, ◌%◌, ◌^◌, ◌<◌, bit_and, bit_or, bit_xor}
use mathlib.Core.Path.{◌≡◌, refl}
use mathlib.Core.Bool.{Bool, true, ◌&&◌}
use native.Mathlib.Omega.{arith}
use catch_os.Base.Tests.{◌==◌, ltb, ltb→lt, ==_iff, if◌then◌else◌}

-- Whether a test passes at every number below the first argument.
unfoldable pub every_below : ℕ → (ℕ → Bool) → Bool
every_below zero test = true
every_below (suc top) test = test top && every_below top test

pub every_below-at :
    (top : ℕ) (test : ℕ → Bool) (i : ℕ) → every_below top test ≡ true → i < top → test i ≡ true
unfolding every_below
every_below-at zero test i passed below = absurd (omega arith)
every_below-at (suc top) test i passed below = ground (arith, every_below-at top test i)

-- `(b >> k) & 1`
abbrev pub bit_at : ℕ → ℕ → ℕ
bit_at b k = bit_and (b / 2 ^ k) 1

-- `b & ~(1 << k)`, cast to a byte
abbrev pub clear_mask : ℕ → ℕ
clear_mask k = 2 ^ 32 - 1 - 2 ^ k

abbrev holds_for_bits : (ℕ → ℕ → ℕ → Bool) → Bool
holds_for_bits p = every_below 256 (λ b. every_below 8 (λ k. every_below 8 (λ j. p b k j)))

abbrev set_test : ℕ → ℕ → ℕ → Bool
set_test b k j = bit_at (bit_or b (2 ^ k)) j == (if j == k then 1 else bit_at b j)

abbrev clear_test : ℕ → ℕ → ℕ → Bool
clear_test b k j = bit_at (bit_and b (clear_mask k) % 256) j == (if j == k then 0 else bit_at b j)

abbrev toggle_test : ℕ → ℕ → ℕ → Bool
toggle_test b k j = bit_at (bit_xor b (2 ^ k)) j == (if j == k then 1 - bit_at b j else bit_at b j)

set_table : holds_for_bits set_test ≡ true
unfolding every_below
set_table = refl

clear_table : holds_for_bits clear_test ≡ true
unfolding every_below
clear_table = refl

toggle_table : holds_for_bits toggle_test ≡ true
unfolding every_below
toggle_table = refl

table_lem :
    (p : ℕ → ℕ → ℕ → Bool)
    → holds_for_bits p ≡ true
    → (b k j : ℕ) → b < 256
    → k < 8
    → j < 8
    → p b k j ≡ true
table_lem p h b k j hb hk hj =
    every_below-at 8 _ j
      (every_below-at 8 _ k
        (every_below-at 256 (λ b. every_below 8 (λ k. every_below 8 (λ j. p b k j))) b h hb) hk)
      hj

pub bit_at-set :
    (b k j : ℕ)
    → b < 256
    → k < 8
    → j < 8
    → bit_at (bit_or b (2 ^ k)) j ≡ (if j == k then 1 else bit_at b j)
bit_at-set b k j hb hk hj = (==_iff _ _).0 (table_lem set_test set_table b k j hb hk hj)

pub bit_at-clear :
    (b k j : ℕ)
    → b < 256
    → k < 8
    → j < 8
    → bit_at (bit_and b (clear_mask k) % 256) j ≡ (if j == k then 0 else bit_at b j)
bit_at-clear b k j hb hk hj = (==_iff _ _).0 (table_lem clear_test clear_table b k j hb hk hj)

pub bit_at-toggle :
    (b k j : ℕ)
    → b < 256
    → k < 8
    → j < 8
    → bit_at (bit_xor b (2 ^ k)) j ≡ (if j == k then 1 - bit_at b j else bit_at b j)
bit_at-toggle b k j hb hk hj = (==_iff _ _).0 (table_lem toggle_test toggle_table b k j hb hk hj)

abbrev byte_test : ℕ → ℕ → ℕ → Bool
byte_test b k j = ltb (bit_or b (2 ^ k)) 256 && ltb (bit_xor b (2 ^ k)) 256

byte_table : holds_for_bits byte_test ≡ true
unfolding every_below
byte_table = refl

-- Setting or toggling a bit of a byte gives a byte.
pub byte_of_bit : (b k : ℕ) → b < 256 → k < 8 → (bit_or b (2 ^ k) < 256) × (bit_xor b (2 ^ k) < 256)
byte_of_bit b k hb hk = ground (arith, table_lem byte_test byte_table b k 0 hb hk (omega arith))

pub bit_at-lt : (b k : ℕ) → b < 256 → k < 8 → bit_at b k < 2
unfolding every_below
bit_at-lt b k hb hk = ltb→lt _ _ (table_lem bit_test bit_table b k 0 hb hk (omega arith))
  where
    bit_test : ℕ → ℕ → ℕ → Bool
    bit_test b k j = ltb (bit_at b k) 2

    bit_table : holds_for_bits bit_test ≡ true
    bit_table = refl
