-- ===== src/Bitmap/Laws.antt =====
-- What a write to one bit does to every bit of the string, and what it leaves alone.
use catch_os.Base.{ℕ, ◌+◌, ◌-◌, ◌*◌, ◌/◌, ◌%◌, ◌^◌, ◌≤◌, ◌<◌}
use catch_os.Base.{◌≡◌, ◌≢◌, refl, ◌⊎◌, arith, ltb, ◌==◌, ◌&&◌, leb}
use catch_os.Base.{if◌then◌else◌, Mem, for_range_inv, pos}
use catch_os.Base.Bits.{bit_at, bit_at-set, bit_at-clear, bit_at-toggle, byte_of_bit, bit_at-lt}
use catch_os.Bitmap.{
  bitmap_set_bit, bitmap_clear_bit, bitmap_get_bit, bitmap_toggle_bit, bitmap_set_bits,
}

-- Bit `j` of the string at `p`.
abbrev pub bit : Mem → ℕ → ℕ → ℕ
bit mem p j = bit_at (mem (p + j / 8)) (j % 8)

-- Memory holds bytes.
abbrev pub IsBytes : Mem → Type 0
IsBytes mem = (a : ℕ) → mem a < 256

module _ (mem : Mem) (p i : ℕ) (hp : p ≢ 0) (hm : IsBytes mem) where
  -- Setting bit `i` sets it and no other bit.
  pub set_bit-bit : (j : ℕ) → bit (bitmap_set_bit mem p i) p j ≡ (if j == i then 1 else bit mem p j)
  unfolding bitmap_set_bit
  set_bit-bit j = ground (arith, hm (p + i / 8), bit_at-set (mem (p + i / 8)) (i % 8) (j % 8))

  -- Clearing bit `i` clears it and no other bit.
  pub clear_bit-bit :
      (j : ℕ) → bit (bitmap_clear_bit mem p i) p j ≡ (if j == i then 0 else bit mem p j)
  unfolding bitmap_clear_bit
  clear_bit-bit j = ground (arith, hm (p + i / 8), bit_at-clear (mem (p + i / 8)) (i % 8) (j % 8))

  -- Toggling bit `i` flips it and no other bit.
  pub toggle_bit-bit :
      (j : ℕ)
      → bit (bitmap_toggle_bit mem p i) p j ≡ (if j == i then 1 - bit mem p j else bit mem p j)
  unfolding bitmap_toggle_bit
  toggle_bit-bit j = ground (arith, hm (p + i / 8), bit_at-toggle (mem (p + i / 8)) (i % 8) (j % 8))

  pub set_bit-IsBytes : IsBytes (bitmap_set_bit mem p i)
  unfolding bitmap_set_bit
  set_bit-IsBytes a = ground (arith, hm a, hm (p + i / 8), byte_of_bit (mem (p + i / 8)) (i % 8))

  pub clear_bit-IsBytes : IsBytes (bitmap_clear_bit mem p i)
  unfolding bitmap_clear_bit
  clear_bit-IsBytes a = ground (arith, hm a)

  pub get_bit-bit : bitmap_get_bit mem p i ≡ pos (bit mem p i)
  unfolding bitmap_get_bit
  get_bit-bit = ground arith

module _ (mem : Mem) (p i : ℕ) where
  -- A write to bit `i` changes no byte but the one that holds it.
  pub set_bit-other : (a : ℕ) → a ≢ p + i / 8 → bitmap_set_bit mem p i a ≡ mem a
  unfolding bitmap_set_bit
  set_bit-other a h = ground arith

  pub clear_bit-other : (a : ℕ) → a ≢ p + i / 8 → bitmap_clear_bit mem p i a ≡ mem a
  unfolding bitmap_clear_bit
  clear_bit-other a h = ground arith

-- The bits from `s` up to `e` are ones, all others are those of `mem`, and so are the bytes
-- outside the string's first `n` bytes.
pub record SetFrom (mem : Mem) (p s e n : ℕ) (m : Mem) : Type 0 where
  pub bytes : IsBytes m
  pub bits : (j : ℕ) → bit m p j ≡ (if leb s j && ltb j e then 1 else bit mem p j)
  pub outside : (a : ℕ) → (a < p) ⊎ (p + n ≤ a) → m a ≡ mem a

module _ (mem : Mem) (p s n : ℕ) (hp : p ≢ 0) where
  SetFrom-step :
      (i : ℕ) (m : Mem)
      → s ≤ i
      → i < n * 8
      → SetFrom mem p s i n m
      → SetFrom mem p s (i + 1) n (bitmap_set_bit m p i)
  SetFrom-step i m hs hi h = record {
    bytes = set_bit-IsBytes m p i hp h.bytes;
    bits = λ j. ground (arith, set_bit-bit m p i hp h.bytes j, h.bits j);
    outside = λ a ha. ground (arith, set_bit-other m p i a, h.outside a ha);
  }

  -- On memory of bytes and for a range inside a bitmap of less than 2 ^ 32 bits, `bitmap_set_bits`
  -- sets the bits from `s` up to `s + count` and changes nothing else.
  pub set_bits-SetFrom :
      (count : ℕ)
      → IsBytes mem
      → s + count ≤ n * 8
      → n * 8 < 2 ^ 32
      → SetFrom mem p s (s + count) n (bitmap_set_bits mem p s count)
  unfolding bitmap_set_bits
  set_bits-SetFrom count hm fits small =
      (for_range_inv (λ i m. (s ≤ i) × SetFrom mem p s i n m) (λ i m. bitmap_set_bit m p i)
        (s + count) (λ i m lt h. (omega arith, SetFrom-step i m h.0 (omega arith) h.1))
        ((s + count) % 2 ^ 32 - s) s mem (omega arith)
        (omega arith, record { bytes = hm; bits = λ j. ground arith; outside = λ a ha. refl })).1

pub bit-lt : (mem : Mem) (p j : ℕ) → IsBytes mem → bit mem p j < 2
bit-lt mem p j h = bit_at-lt (mem (p + j / 8)) (j % 8) (h (p + j / 8)) (omega arith)
