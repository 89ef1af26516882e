-- ===== src/KHeap.antt =====
-- kernel/mmu/kheap.c: the kernel's bump allocator. `heap_cur` is its only variable; what it hands
-- out is cleared, and `kfree` does nothing.
pub mod Laws
use catch_os.Base.{ℕ, zero, suc, ◌+◌, ◌-◌, ◌%◌, ◌^◌, Option, none, some, ◌==◌, if◌then◌else◌, Mem}
use catch_os.Str.{memset}

pub record KHeap : Type 0 where
  pub mem : Mem
  pub heap_cur : ℕ

-- `kernel_end_virtual` comes from the linker.
unfoldable pub kheap_init : ℕ → KHeap → KHeap
kheap_init kernel_end_virtual h = record h { heap_cur = kernel_end_virtual }

unfoldable pub kmalloc : KHeap → ℕ → ℕ × KHeap
kmalloc h size = (
  h.heap_cur,
  record { mem = memset h.mem h.heap_cur 0 size; heap_cur = (h.heap_cur + size) % 2 ^ 32 },
)

-- `for (;; next++) if (next % alignment == 0) break;`, on fuel.
unfoldable pub align_loop : ℕ → ℕ → ℕ → Option ℕ
align_loop zero next alignment = none
align_loop (suc f) next alignment =
    let rest = align_loop f ((next + 1) % 2 ^ 32) alignment in
    if next % alignment == 0 then some next else rest

abbrev take_at : KHeap → ℕ → ℕ → ℕ × KHeap
take_at h size next =
    (next, record { mem = memset h.mem next 0 size; heap_cur = (next + size) % 2 ^ 32 })

-- `alignment` rounds are enough for a positive alignment; at 0 the code divides by 0.
unfoldable pub kmalloc_align : KHeap → ℕ → ℕ → Option (ℕ × KHeap)
unfolding align_loop
kmalloc_align h size alignment = elim (align_loop alignment h.heap_cur alignment) [
  | none ↦ none
  | some next ↦ some (take_at h size next)
]

unfoldable pub kfree : KHeap → ℕ → KHeap
kfree h ptr = h
