-- ===== src/PageFrame.antt =====
-- kernel/mmu/pageframe_alloc.c: the allocator of physical page frames. One bit of a bitmap stands
-- for one page of 4 KiB, 1 for an allocated page. The file's variables are a record, with the
-- memory and the kernel heap that the bitmap lives in. Page numbers are at most `_pages_total_phys`
-- plus what is asked for, so their sums do not wrap; the products with 1024 and 4096 may.
pub mod Runs
pub mod State
pub mod BestFit
pub mod FirstFit
pub mod Alloc
pub mod Free
pub mod Init
use catch_os.Base.{ℕ, zero, suc, ◌+◌, ◌-◌, ◌*◌, ◌/◌, ◌%◌, ◌^◌, bit_and, Option, none, some}
use catch_os.Base.{Bool, true, false, ltb, leb, ◌==◌, ◌&&◌, if◌then◌else◌, Mem, null, for_range}
use catch_os.Base.{ℤ, pos, negsuc, ◌+ℤ◌, ltb_ℤ, pos_part}
use catch_os.KHeap
use catch_os.KHeap.{KHeap, kmalloc_align}
use catch_os.Bitmap.{bitmap_set_bit, bitmap_clear_bit, bitmap_get_bit, bitmap_set_bits}

pub record PageFrame : Type 0 where
  pub heap : KHeap
  pub is_initialized : Bool
  pub pageframe_bitmap : ℕ
  pub pages_total_phys : ℕ

abbrev pub mem_of : PageFrame → Mem
mem_of s = s.heap.mem

abbrev pub with_mem : PageFrame → Mem → PageFrame
with_mem s m = record s { heap = record { mem = m; heap_cur = s.heap.heap_cur } }

abbrev pub pageframe_alloc_set_page : PageFrame → ℕ → PageFrame
pageframe_alloc_set_page s page_no =
    with_mem s (bitmap_set_bit (mem_of s) s.pageframe_bitmap page_no)

abbrev pub pageframe_alloc_get_page : PageFrame → ℕ → ℤ
pageframe_alloc_get_page s page_no = bitmap_get_bit (mem_of s) s.pageframe_bitmap page_no

abbrev pub pageframe_alloc_set_pages : PageFrame → ℕ → ℕ → PageFrame
pageframe_alloc_set_pages s page_start pages =
    with_mem s (bitmap_set_bits (mem_of s) s.pageframe_bitmap page_start pages)

abbrev pub pageframe_alloc_clear_page : PageFrame → ℕ → PageFrame
pageframe_alloc_clear_page s page_no =
    with_mem s (bitmap_clear_bit (mem_of s) s.pageframe_bitmap page_no)

abbrev pub pageframe_addr_from_page : ℕ → ℕ
pageframe_addr_from_page page_no = page_no * 4096 % 2 ^ 32

abbrev pub page_from_addr : ℕ → ℕ
page_from_addr addr = addr / 4096

-- The local variables of the scan of one byte.
pub record Scan : Type 0 where
  pub best_fit_len : ℕ
  pub best_fit_pos : ℤ
  pub cur_len : ℕ
  pub last_one : ℤ

-- `if (best_fit_len > cur_len && cur_len >= (int)pages) …`; `pages` is at most 8.
abbrev take_run : ℕ → Scan → Scan
take_run pages t =
    if ltb t.cur_len t.best_fit_len && leb pages t.cur_len
    then record t { best_fit_len = t.cur_len; best_fit_pos = t.last_one +ℤ pos 1 }
    else t

abbrev scan_bit : ℕ → ℕ → ℕ → Scan → Scan
scan_bit byte pages j t =
    if bit_and byte (2 ^ j) == 0
    then (let t' = record t { cur_len = t.cur_len + 1 } in if j == 7 then take_run pages t' else t')
    else record (take_run pages t) { cur_len = 0; last_one = pos j }

abbrev scan_start : Scan
scan_start = record { best_fit_len = 9; best_fit_pos = negsuc 0; cur_len = 0; last_one = negsuc 0 }

-- `best_fit_pos` behind the loop over the eight bits.
unfoldable pub best_fit_pos_in : ℕ → ℕ → ℤ
unfolding for_range ◌+ℤ◌
best_fit_pos_in byte pages = (for_range 8 0 (scan_bit byte pages) scan_start).best_fit_pos

-- The page that `pageframe_alloc_bestfit` settles on, by the bytes left; `i` is the next byte.
unfoldable pub bestfit_page : PageFrame → ℕ → ℕ → ℕ → Option ℕ
unfolding best_fit_pos_in
bestfit_page s pages zero i = none
bestfit_page s pages (suc n) i =
    let rest = bestfit_page s pages n (i + 1) in
    let byte = mem_of s (s.pageframe_bitmap + i) in
    let best = best_fit_pos_in byte pages in
    if byte == 0xff then rest else elim best [ pos j ↦ some (i * 8 + j) | negsuc _ ↦ rest ]

-- Marks the pages and returns their address; the null pointer without a page.
abbrev pub claim_page : PageFrame → ℕ → Option ℕ → ℕ × PageFrame
claim_page s pages none = (null, s)
claim_page s pages (some page_no) =
    (pageframe_addr_from_page page_no, pageframe_alloc_set_pages s page_no pages)

unfoldable pub pageframe_alloc_bestfit : PageFrame → ℕ → ℕ × PageFrame
unfolding bestfit_page
pageframe_alloc_bestfit s pages =
    claim_page s pages (bestfit_page s pages (s.pages_total_phys / 8) 0)

-- `page_no` behind the loop that skips full bytes.
unfoldable pub skip_full : PageFrame → ℕ → ℕ → ℕ → ℕ
skip_full s zero i page_no = page_no
skip_full s (suc n) i page_no =
    let rest = skip_full s n (i + 1) (page_no + 8) in
    if mem_of s (s.pageframe_bitmap + i) == 0xff then rest else page_no

abbrev is_int : ℤ → ℕ → Bool
is_int (pos n) k = n == k
is_int (negsuc n) k = false

-- The page that the second loop settles on, by the pages left; `i` is the next page.
unfoldable pub firstfit_page : PageFrame → ℕ → ℕ → ℕ → ℕ → ℕ → Option ℕ
firstfit_page s pages zero i page_no cur_len = none
firstfit_page s pages (suc n) i page_no cur_len =
    let longer = firstfit_page s pages n (i + 1) page_no (cur_len + 1) in
    let over = firstfit_page s pages n (i + 1) (page_no + cur_len + 1) 0 in
    if is_int (pageframe_alloc_get_page s i) 0
    then (if cur_len + 1 == pages then some page_no else longer)
    else over

unfoldable pub pageframe_alloc_firstfit : PageFrame → ℕ → ℕ × PageFrame
unfolding skip_full firstfit_page
pageframe_alloc_firstfit s pages =
    let page_no = skip_full s (s.pages_total_phys / 8) 0 0 in
    claim_page s pages (firstfit_page s pages (s.pages_total_phys - page_no) page_no page_no 0)

-- `phys_mem_upper` is the memory above 1 MiB in KiB, from the boot loader.
unfoldable pub pageframe_alloc_init : ℕ → PageFrame → Option PageFrame
unfolding kmalloc_align
pageframe_alloc_init phys_mem_upper s =
    let total = phys_mem_upper * 1024 % 2 ^ 32 / 4096 in
    elim (kmalloc_align s.heap (total / 8) 4096) [
      | none ↦ none
      | some (p, h) ↦ some (
          for_range (1024 * 2) 0 (λ i t. pageframe_alloc_set_page t i)
            (record {
              heap = h;
              is_initialized = true;
              pageframe_bitmap = p;
              pages_total_phys = total;
            }))
    ]

-- The choice of the algorithm, once the allocator is initialised.
unfoldable pub alloc_initialized : PageFrame → ℕ → ℕ × PageFrame
unfolding pageframe_alloc_firstfit pageframe_alloc_bestfit
alloc_initialized s pages =
    if ltb 8 pages then pageframe_alloc_firstfit s pages else pageframe_alloc_bestfit s pages

unfoldable pub pageframe_alloc : ℕ → PageFrame → ℕ → Option (ℕ × PageFrame)
unfolding alloc_initialized pageframe_alloc_init
pageframe_alloc phys_mem_upper s pages =
    elim (if s.is_initialized then some s else pageframe_alloc_init phys_mem_upper s) [
      | none ↦ none
      | some t ↦ some (alloc_initialized t pages)
    ]

-- One round of `pageframe_free`: a page that is free already is only reported.
abbrev free_page : PageFrame → ℕ → PageFrame
free_page s page_no =
    if is_int (pageframe_alloc_get_page s page_no) 1
    then pageframe_alloc_clear_page s page_no
    else s

-- `(int)pages` as a number of rounds.
unfoldable pub pageframe_free : PageFrame → ℕ → ℕ → PageFrame
pageframe_free s phys_addr pages =
    if s.is_initialized
    then for_range (if ltb pages (2 ^ 31) then pages else 0) (page_from_addr phys_addr)
        (λ i t. free_page t i) s
    else s

unfoldable pub pageframe_set_page_from_addr : PageFrame → ℕ → ℕ → PageFrame
pageframe_set_page_from_addr s phys_addr pages =
    pageframe_alloc_set_pages s (page_from_addr phys_addr) pages
