-- ===== src/Bitmap.antt =====
-- kernel/utils/bitmap.c: bits of a byte string in memory. `bitstring` is the address of its first
-- byte, 0 for a null pointer.
pub mod Laws
use catch_os.Base.{ℕ, zero, suc, ◌+◌, ◌-◌, ◌*◌, ◌/◌, ◌%◌, ◌^◌, bit_and, bit_or, bit_xor}
use catch_os.Base.{ltb, ◌==◌, if◌then◌else◌, Mem, null, update, for_range, ℤ, pos, negsuc, sub_ℕ}
use catch_os.Base.Bits.{clear_mask}

unfoldable pub bitmap_set_bit : Mem → ℕ → ℕ → Mem
bitmap_set_bit mem bitstring bitno =
    if bitstring == null
    then mem
    else update mem (bitstring + bitno / 8) (bit_or (mem (bitstring + bitno / 8)) (2 ^ (bitno % 8)))

unfoldable pub bitmap_clear_bit : Mem → ℕ → ℕ → Mem
bitmap_clear_bit mem bitstring bitno =
    if bitstring == null
    then mem
    else update mem (bitstring + bitno / 8)
        (bit_and (mem (bitstring + bitno / 8)) (clear_mask (bitno % 8)) % 256)

unfoldable pub bitmap_get_bit : Mem → ℕ → ℕ → ℤ
bitmap_get_bit mem bitstring bitno =
    if bitstring == null
    then negsuc 0
    else pos (bit_and (mem (bitstring + bitno / 8) / 2 ^ (bitno % 8)) 1)

unfoldable pub bitmap_get_bit_reverse : Mem → ℕ → ℕ → ℤ
bitmap_get_bit_reverse mem bitstring bitno =
    if bitstring == null
    then negsuc 0
    else pos (bit_and (mem (bitstring + bitno / 8) / 2 ^ (7 - bitno % 8)) 1)

unfoldable pub bitmap_toggle_bit : Mem → ℕ → ℕ → Mem
bitmap_toggle_bit mem bitstring bitno =
    if bitstring == null
    then mem
    else update mem (bitstring + bitno / 8)
        (bit_xor (mem (bitstring + bitno / 8)) (2 ^ (bitno % 8)))

-- The loop runs from `startbit` to `startbit + count`, a sum of `unsigned int` that wraps.
unfoldable pub bitmap_set_bits : Mem → ℕ → ℕ → ℕ → Mem
bitmap_set_bits mem bitstring startbit count =
    for_range ((startbit + count) % 2 ^ 32 - startbit) startbit
      (λ i m. bitmap_set_bit m bitstring i) mem

-- The compiler's `__builtin_ffsl` on 32 bits: one more than the index of the lowest set bit, 0 if
-- there is none. The first argument counts the bits left, the second is the index reached.
unfoldable pub ffs_from : ℕ → ℕ → ℕ → ℕ
ffs_from zero i w = 0
ffs_from (suc n) i w = let rest = ffs_from n (i + 1) (w / 2) in if w % 2 == 1 then i + 1 else rest

abbrev pub builtin_ffsl : ℕ → ℕ
unfolding ffs_from
builtin_ffsl w = ffs_from 32 0 w

-- `*(unsigned int*)p`, little endian
abbrev pub load32 : Mem → ℕ → ℕ
load32 mem p = mem p + 2 ^ 8 * mem (p + 1) + 2 ^ 16 * mem (p + 2) + 2 ^ 24 * mem (p + 3)

-- The loop over the words, by the words left; its result is `bitno` behind the loop.
unfoldable pub first_set_loop : Mem → ℕ → ℕ → ℕ → ℕ
unfolding ffs_from
first_set_loop mem bitstring zero i = 0
first_set_loop mem bitstring (suc n) i =
    let bitno = builtin_ffsl (load32 mem (bitstring + i)) in
    let rest = first_set_loop mem bitstring n (i + 4) in if ltb 0 bitno then bitno + i * 8 else rest

unfoldable pub bitmap_find_first_set : Mem → ℕ → ℕ → ℤ
unfolding first_set_loop
bitmap_find_first_set mem bitstring maxbyte =
    if bitstring == null then negsuc 0 else sub_ℕ (first_set_loop mem bitstring (maxbyte / 4) 0) 1
