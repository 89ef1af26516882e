-- ===== src/KHeap/Laws.antt =====
-- What the bump allocator hands out: aligned, cleared, and above all that it handed out before.
use native.Mathlib.Nat.{mod-add-mod, mod-eq_of_lt, mod_self, add-mod-mod}
use catch_os.Base.{ℕ, zero, suc, ◌+◌, ◌-◌, ◌%◌, ◌^◌, ◌≤◌, ◌<◌, ◌≡◌, refl, arith}
use catch_os.Base.{some}
use catch_os.Base.{◌⊎◌, sym, ap, ◌∙◌}
use catch_os.Str.Blocks.{memset_lem}
use catch_os.KHeap.{KHeap, align_loop, kmalloc, kmalloc_align, take_at}

-- How far the next multiple of `a` is.
abbrev pub padding : ℕ → ℕ → ℕ
padding next a = (a - next % a) % a

-- A distance below `a` between two multiples of `a` is 0.
distance_zero : (n d a : ℕ) → n % a ≡ 0 → d < a → (n + d) % a ≡ 0 → d ≡ 0
distance_zero n d a h lt k = grind (arith, mod-add-mod n a d, mod-eq_of_lt lt)

add-padding-mod : (n a : ℕ) → 0 < a → (n + padding n a) % a ≡ 0
add-padding-mod n a h =
    rw add-mod-mod (sym (mod-add-mod n a (a - n % a)) ∙ ap (λ k. k % a) (omega arith) ∙ mod_self a)

-- With `d` steps to the next multiple, `d + 1` rounds are enough.
align_loop_stops :
    (f d next alignment : ℕ)
    → d < f
    → d < alignment
    → (next + d) % alignment ≡ 0
    → next + d < 2 ^ 32
    → align_loop f next alignment ≡ some (next + d)
unfolding align_loop
align_loop_stops zero d next alignment lt hd h small = absurd (omega arith)
align_loop_stops (suc f) zero next alignment lt hd h small = ground arith
align_loop_stops (suc f) (suc d) next alignment lt hd h small =
    ground (arith, distance_zero next (suc d) alignment, align_loop_stops f d (next + 1) alignment)

-- What an allocation of `size` bytes at `p` leaves: the block is cleared, no other byte is
-- touched, and the next allocation starts behind the block.
pub record Allocated (h : KHeap) (size p : ℕ) (h' : KHeap) : Type 0 where
  pub fresh : h.heap_cur ≤ p
  pub next : h'.heap_cur ≡ p + size
  pub cleared : (a : ℕ) → p ≤ a → a < p + size → h'.mem a ≡ 0
  pub kept : (a : ℕ) → (a < p) ⊎ (p + size ≤ a) → h'.mem a ≡ h.mem a

module _ (h : KHeap) (size : ℕ) where
  take_at-Allocated :
      (p : ℕ) → h.heap_cur ≤ p → p + size < 2 ^ 32 → Allocated h size p (take_at h size p).1
  take_at-Allocated p le small = record {
    fresh = le;
    next = omega arith;
    cleared = λ a lo hi. ground (arith, memset_lem h.mem p 0 size a);
    kept = λ a out. ground (arith, memset_lem h.mem p 0 size a);
  }

  -- `kmalloc` hands out the block at the heap's end, cleared, if the address space holds it.
  pub kmalloc-Allocated :
      h.heap_cur + size < 2 ^ 32
      → let (p, h') = kmalloc h size in (p ≡ h.heap_cur) × Allocated h size p h'
  unfolding kmalloc
  kmalloc-Allocated small = (refl, take_at-Allocated h.heap_cur (omega arith) small)

  -- `kmalloc_align` stops for every positive alignment, and hands out the cleared block at the
  -- first multiple of the alignment from the end of the heap on, if the address space holds it.
  pub kmalloc_align-Allocated :
      (alignment : ℕ)
      → 0 < alignment
      → h.heap_cur + alignment + size < 2 ^ 32
      → (h' : KHeap) × (kmalloc_align h size alignment
          ≡ some (h.heap_cur + padding h.heap_cur alignment, h'))
        × ((h.heap_cur + padding h.heap_cur alignment) % alignment ≡ 0)
        × (padding h.heap_cur alignment < alignment)
        × Allocated h size (h.heap_cur + padding h.heap_cur alignment) h'
  unfolding kmalloc_align
  kmalloc_align-Allocated alignment hp small =
      let near : padding h.heap_cur alignment < alignment = omega arith in
      let p : ℕ = h.heap_cur + padding h.heap_cur alignment in
      let e =
        align_loop_stops alignment (padding h.heap_cur alignment) h.heap_cur alignment near near
          (add-padding-mod h.heap_cur alignment hp) (omega arith) in
      (
        (take_at h size p).1,
        rw (e, kmalloc_align),
        add-padding-mod h.heap_cur alignment hp,
        near,
        take_at-Allocated p (omega arith) (omega arith),
      )
