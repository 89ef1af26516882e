-- ===== src/PageFrame/Alloc.antt =====
-- `pageframe_alloc` on an initialised allocator.
use catch_os.Base.{ℕ, ◌+◌, ◌*◌, ◌/◌, ◌%◌, ◌≤◌, ◌<◌, ◌≡◌, refl, arith}
use catch_os.Base.{ltb, ◌⊎◌, inl, inr, Bool-cases}
use catch_os.Base.{Option, none, some, null}
use catch_os.PageFrame.{PageFrame, mem_of, claim_page}
use catch_os.PageFrame.{pageframe_alloc_bestfit, pageframe_alloc_firstfit, alloc_initialized}
use catch_os.PageFrame.{pageframe_alloc}
use catch_os.PageFrame.Runs.{AllFree}
use catch_os.PageFrame.State.{IsReady, Marked, set_pages-Marked}
use catch_os.PageFrame.BestFit.{Searched, bestfit_page-Searched}
use catch_os.PageFrame.FirstFit.{First, firstfit-First}

-- A request of up to eight pages is served from one whole byte of the bitmap.
abbrev pub Serves : PageFrame → ℕ → ℕ → Type 0
Serves s pages q =
    (8 < pages) × (q + pages ≤ s.pages_total_phys)
    ⊎ (pages ≤ 8) × (q % 8 + pages ≤ 8) × (q + pages ≤ s.pages_total_phys / 8 * 8)

-- What an allocation of `pages` pages returns.
pub data Allocation (s : PageFrame) (pages : ℕ) : ℕ × PageFrame → Type 0 where
  -- the address of `page`: its pages lie in the memory, in a window that the request may be served
  -- from, and were free, and are now marked
  granted :
      {r : ℕ × PageFrame} (page : ℕ)
      → Serves s pages page
      → page + pages ≤ s.pages_total_phys
      → AllFree (mem_of s) s.pageframe_bitmap page pages
      → r.0 ≡ page * 4096
      → Marked s page pages 1 r.1
      → Allocation s pages r
  -- the null pointer and the same state: no window that the request may be served from is free
  refused :
      {r : ℕ × PageFrame}
      → ((q : ℕ) → Serves s pages q → ¬ AllFree (mem_of s) s.pageframe_bitmap q pages)
      → r ≡ (null, s)
      → Allocation s pages r

module _ (s : PageFrame) (pages : ℕ) (r : IsReady s) (lo : 0 < pages) where
  claim-Allocation :
      (page : ℕ)
      → Serves s pages page
      → page + pages ≤ s.pages_total_phys
      → AllFree (mem_of s) s.pageframe_bitmap page pages
      → Allocation s pages (claim_page s pages (some page))
  claim-Allocation page serves fits free =
      granted page serves fits free (let few = r.few in omega arith)
        (set_pages-Marked s page pages r fits)

  firstfit-Allocation : 8 < pages → Allocation s pages (pageframe_alloc_firstfit s pages)
  unfolding pageframe_alloc_firstfit
  firstfit-Allocation lt = go _ (firstfit-First s pages r.has_bitmap r.bytes lo)
    where
      go :
          (o : Option ℕ)
          → First s pages r.has_bitmap r.bytes s.pages_total_phys o
          → Allocation s pages (claim_page s pages o)
      go none h =
          refused (λ q serves. elim serves [ inl ok ↦ h q ok.1 | inr other ↦ absurd (omega arith) ])
            refl
      go (some page) h = claim-Allocation page (inl (lt, h.0)) h.0 h.1

  bestfit-Allocation : pages ≤ 8 → Allocation s pages (pageframe_alloc_bestfit s pages)
  unfolding pageframe_alloc_bestfit
  bestfit-Allocation le =
      go _ (bestfit_page-Searched s pages lo le r.bytes (s.pages_total_phys / 8) 0)
    where
      go :
          (o : Option ℕ)
          → Searched s pages lo le r.bytes 0 (s.pages_total_phys / 8) o
          → Allocation s pages (claim_page s pages o)
      go none h =
          refused
            (λ q serves. elim serves [
              | inl other ↦ absurd (omega arith)
              | inr ok ↦ h (q / 8) (omega arith) (omega arith) q (omega arith) (omega arith)
            ])
            refl
      go (some page) (from, to, byte, free) =
          claim-Allocation page (inr (le, byte, omega arith)) (omega arith) free

  alloc_initialized-Allocation : Allocation s pages (alloc_initialized s pages)
  unfolding alloc_initialized
  alloc_initialized-Allocation = elim (Bool-cases (ltb 8 pages)) [
    | inl e ↦ rw e (firstfit-Allocation (ground arith))
    | inr e ↦ rw e (bestfit-Allocation (ground arith))
  ]

  -- On an initialised allocator and for at least one page, `pageframe_alloc` returns. It either
  -- grants pages inside the memory that were all free, in a window that the request may be served
  -- from, and marks exactly them, or finds that no such window is free, returns the null pointer
  -- and changes nothing. A request of up to eight pages may be served from a window inside one
  -- whole byte of the bitmap, a larger one from anywhere below `pages_total_phys`.
  pub pageframe_alloc-Allocation :
      (phys_mem_upper : ℕ)
      → (out : ℕ × PageFrame) × (pageframe_alloc phys_mem_upper s pages ≡ some out)
        × Allocation s pages out
  unfolding pageframe_alloc
  pageframe_alloc-Allocation phys_mem_upper =
      (alloc_initialized s pages, rw (r.started, pageframe_alloc), alloc_initialized-Allocation)
