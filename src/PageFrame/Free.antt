-- ===== src/PageFrame/Free.antt =====
-- `pageframe_free` and `pageframe_alloc_init`.
use catch_os.Base.{ℕ, ◌+◌, ◌-◌, ◌*◌, ◌/◌, ◌^◌, ◌≤◌, ◌<◌, ◌≡◌, ◌≢◌, refl, arith, ap}
use catch_os.Base.{true, ltb}
use catch_os.Base.{some, null, for_range_inv}
use catch_os.PageFrame.{PageFrame, mem_of, pageframe_free, free_page}
use catch_os.PageFrame.{pageframe_alloc}
use catch_os.PageFrame.Alloc.{Allocation, granted, refused, pageframe_alloc-Allocation}
use catch_os.PageFrame.Runs.{AllFree}
use catch_os.PageFrame.State.{IsReady, Marked, Marked-none, page_bit, free_page-Marked}

-- On an initialised allocator and for a range inside the memory, `pageframe_free` clears the pages
-- of its range, whether they were allocated or not, and changes no other page and no byte outside
-- the bitmap.
pub pageframe_free-Marked :
    (s : PageFrame) (addr pages : ℕ)
    → IsReady s
    → addr / 4096 + pages ≤ s.pages_total_phys
    → Marked s (addr / 4096) pages 0 (pageframe_free s addr pages)
unfolding pageframe_free
pageframe_free-Marked s addr pages r fits =
    let few = r.few in
    let small : ltb pages (2 ^ 31) ≡ true = ground arith in
    let page = addr / 4096 in
    let done =
      for_range_inv (λ i t. (page ≤ i) × Marked s page (i - page) 0 t) (λ i t. free_page t i)
        (page + pages)
        (λ i t lt h. (
          omega arith,
          let e : i + 1 - page ≡ i - page + 1 = omega arith in
              let f : page + (i - page) ≡ i = omega arith in
              rw e (rw f at (free_page-Marked s page (i - page) (omega arith) t h.1)),
        ))
        pages page s refl
        (omega arith, let e : page - page ≡ 0 = omega arith in rw e (Marked-none s page 0 r)) in
    let e : page + pages - page ≡ pages = omega arith in simp (r.started, small) (rw e at done.1)

free-granted :
    (s t : PageFrame) (page pages : ℕ)
    → AllFree (mem_of s) s.pageframe_bitmap page pages
    → page + pages ≤ s.pages_total_phys
    → Marked s page pages 1 t
    → (j : ℕ) → page_bit (pageframe_free t (page * 4096) pages) j ≡ page_bit s j
free-granted s t page pages free fits h j =
    let e : page * 4096 / 4096 ≡ page = omega arith in
    let back =
      rw e at (pageframe_free-Marked t (page * 4096) pages h.ready (rw (e, h.same_total) fits)) in
    ground (arith, back.pages j, h.pages j, free j)

-- On an initialised allocator, freeing what `pageframe_alloc` has just returned, for at least one
-- page and when it is not the null pointer, restores the bit of every page.
pub pageframe_free-alloc :
    (phys_mem_upper : ℕ) (s t : PageFrame) (pages addr : ℕ)
    → IsReady s
    → 0 < pages
    → pageframe_alloc phys_mem_upper s pages ≡ some (addr, t)
    → addr ≢ null
    → (j : ℕ) → page_bit (pageframe_free t addr pages) j ≡ page_bit s j
pageframe_free-alloc phys_mem_upper s t pages addr r lo e ne j =
    let (out, f, a) = pageframe_alloc-Allocation s pages r lo phys_mem_upper in
    let same : out ≡ (addr, t) = cc in restores (rw same at a)
  where
    restores :
        Allocation s pages (addr, t) → page_bit (pageframe_free t addr pages) j ≡ page_bit s j
    restores (granted page serves fits free at_page h) =
        rw at_page (free-granted s t page pages free fits h j)
    restores (refused no_room f) = absurd (ne (ap (λ (o : ℕ × PageFrame). o.0) f))
