-- ===== src/Tests/Memory.antt =====
-- The bitmap, the kernel heap, the page frames and the strings on small inputs.
use catch_os.Base.{ℕ, ◌-◌, ◌==◌, ◌*◌, ◌≡◌, refl, arith, Mem}
use catch_os.Base.{some, true, false, pos, if◌then◌else◌}
use catch_os.Bitmap.{bitmap_get_bit}
use catch_os.KHeap.{KHeap}
use catch_os.PageFrame.{
  PageFrame, pageframe_alloc, pageframe_alloc_init, pageframe_free, best_fit_pos_in,
}
use catch_os.PageFrame.{skip_full, firstfit_page, alloc_initialized}
use catch_os.PageFrame.State.{IsReady, Marked, page_bit}
use catch_os.PageFrame.FirstFit.{First, firstfit-First}
use catch_os.PageFrame.Alloc.{Allocation, pageframe_alloc-Allocation}
use catch_os.PageFrame.Free.{pageframe_free-Marked, pageframe_free-alloc}
use catch_os.PageFrame.Init.{Initialised, pageframe_alloc_init-Initialised}

abbrev zeros : Mem
zeros = λ a. 0

-- 32 pages, the first five taken, with the bitmap at address 64.
abbrev five_taken : Mem
five_taken a = if a == 64 then 0x1f else 0

abbrev small : PageFrame
small = record {
  heap = record { mem = five_taken; heap_cur = 128 };
  is_initialized = true;
  pageframe_bitmap = 64;
  pages_total_phys = 32;
}

small-IsReady : IsReady small
small-IsReady = record {
  started = refl;
  has_bitmap = omega arith;
  bytes = λ a. ground arith;
  few = omega arith;
}

abbrev heap : KHeap
heap = record { mem = λ a. 7; heap_cur = 5000 }

pageframe_alloc-Allocation_example :
    (out : ℕ × PageFrame) × (pageframe_alloc 0 small 9 ≡ some out) × Allocation small 9 out
pageframe_alloc-Allocation_example =
    pageframe_alloc-Allocation small 9 small-IsReady (omega arith) 0

-- Nine pages start at page 5, at once behind the taken ones.
nine_pages : (alloc_initialized small 9).0 ≡ 5 * 4096
unfolding alloc_initialized firstfit_page bitmap_get_bit skip_full
nine_pages = refl

firstfit-First_example : First small 9 (small-IsReady.has_bitmap) (small-IsReady.bytes) 32 (
    firstfit_page small 9
      (32 - skip_full small 4 0 0)
      (skip_full small 4 0 0)
      (skip_full small 4 0 0)
      0)
firstfit-First_example =
    firstfit-First small 9 small-IsReady.has_bitmap small-IsReady.bytes (omega arith)

-- In the byte 01100001 a run of one page is found at bit 7, the shortest of the two.
best_of_two : best_fit_pos_in 0x61 1 ≡ pos 7
unfolding best_fit_pos_in
best_of_two = refl

-- The allocation of nine pages, given back.
nine_granted : pageframe_alloc 0 small 9 ≡ some (alloc_initialized small 9)
unfolding pageframe_alloc
nine_granted = refl

pageframe_free-Marked_example : Marked small 1 3 0 (pageframe_free small 4096 3)
pageframe_free-Marked_example = pageframe_free-Marked small 4096 3 small-IsReady (omega arith)

pageframe_free-alloc_example :
    page_bit (pageframe_free (alloc_initialized small 9).1 (alloc_initialized small 9).0 9) 6
    ≡ page_bit small 6
pageframe_free-alloc_example =
    pageframe_free-alloc 0 small (alloc_initialized small 9).1 9 (alloc_initialized small 9).0
      small-IsReady (omega arith) nine_granted (rw nine_pages (omega arith)) 6

abbrev boot : PageFrame
boot = record {
  heap = record { mem = λ a. 7; heap_cur = 0x300000 };
  is_initialized = false;
  pageframe_bitmap = 0;
  pages_total_phys = 0;
}

-- 64 MiB of memory.
pageframe_alloc_init-Initialised_example :
    (t : PageFrame) × (pageframe_alloc_init 65536 boot ≡ some t) × Initialised boot 65536 t
pageframe_alloc_init-Initialised_example =
    pageframe_alloc_init-Initialised boot 65536 (λ a. omega arith) (omega arith) (omega arith)
      (omega arith)
