-- ===== src/PageFrame/State.antt =====
-- The allocator's state once it is initialised, and what a mark of some pages changes.
use catch_os.Base.{ℕ, ◌+◌, ◌/◌, ◌^◌, ◌≤◌, ◌<◌, ◌≡◌, ◌≢◌, refl, arith}
use catch_os.Base.{true, ltb, leb, ◌==◌, ◌&&◌, if◌then◌else◌, Mem, ◌⊎◌}
use catch_os.Base.{Bool-cases, inl, inr}
use catch_os.Bitmap.{bitmap_set_bit, bitmap_clear_bit}
use catch_os.Bitmap.Laws.{bit, bit-lt, IsBytes, set_bits-SetFrom, get_bit-bit}
use catch_os.Bitmap.Laws.{set_bit-bit, set_bit-other, set_bit-IsBytes}
use catch_os.Bitmap.Laws.{clear_bit-bit, clear_bit-other, clear_bit-IsBytes}
use catch_os.PageFrame.{with_mem, pageframe_alloc_set_page, free_page}
use catch_os.PageFrame.{PageFrame, mem_of, pageframe_alloc_set_pages}

-- The bytes of memory that the bits of all pages lie in.
abbrev pub bitmap_bytes : PageFrame → ℕ
bitmap_bytes s = (s.pages_total_phys + 7) / 8

-- The allocator has its bitmap, and a 32-bit machine has at most 2 ^ 20 pages.
pub record IsReady (s : PageFrame) : Type 0 where
  pub started : s.is_initialized ≡ true
  pub has_bitmap : s.pageframe_bitmap ≢ 0
  pub bytes : IsBytes (mem_of s)
  pub few : s.pages_total_phys ≤ 2 ^ 20

-- Whether page `j` is allocated: 1 or 0.
abbrev pub page_bit : PageFrame → ℕ → ℕ
page_bit s j = bit (mem_of s) s.pageframe_bitmap j

-- Between the states `s` and `t` the pages from `page` up to `page + n` become `v`; no other page
-- changes, no byte outside the bitmap, and none of the other variables.
pub record Marked (s : PageFrame) (page n v : ℕ) (t : PageFrame) : Type 0 where
  pub ready : IsReady t
  pub pages : (j : ℕ) → page_bit t j ≡ (if leb page j && ltb j (page + n) then v else page_bit s j)
  pub outside :
      (a : ℕ)
      → (a < s.pageframe_bitmap) ⊎ (s.pageframe_bitmap + bitmap_bytes s ≤ a)
      → mem_of t a ≡ mem_of s a
  pub same_bitmap : t.pageframe_bitmap ≡ s.pageframe_bitmap
  pub same_total : t.pages_total_phys ≡ s.pages_total_phys
  pub same_heap : t.heap.heap_cur ≡ s.heap.heap_cur

pub set_pages-Marked :
    (s : PageFrame) (page n : ℕ)
    → IsReady s
    → page + n ≤ s.pages_total_phys
    → Marked s page n 1 (pageframe_alloc_set_pages s page n)
set_pages-Marked s page n r fits =
    let few = r.few in
    let h =
      set_bits-SetFrom (mem_of s) s.pageframe_bitmap page (bitmap_bytes s) r.has_bitmap n r.bytes
        (omega arith) (omega arith) in
    record {
      ready = record {
        started = r.started;
        has_bitmap = r.has_bitmap;
        bytes = h.bytes;
        few = r.few;
      };
      pages = h.bits;
      outside = h.outside;
      same_bitmap = refl;
      same_total = refl;
      same_heap = refl;
    }

-- One more page of a range, by an operation on the one bit of page `page + n`.
module _ (s : PageFrame) (page n : ℕ) (inside : page + n < s.pages_total_phys) where
  Marked-step :
      (v : ℕ) (t : PageFrame) (m : Mem)
      → Marked s page n v t
      → IsBytes m
      → ((j : ℕ) → bit m t.pageframe_bitmap j ≡ (if j == page + n then v else page_bit t j))
      → ((a : ℕ) → a ≢ t.pageframe_bitmap + (page + n) / 8 → m a ≡ mem_of t a)
      → Marked s page (n + 1) v (with_mem t m)
  Marked-step v t m h hb hj ha = record {
    ready = record {
      started = h.ready.started;
      has_bitmap = h.ready.has_bitmap;
      bytes = hb;
      few = h.ready.few;
    };
    pages = λ j. ground (arith, hj j, h.pages j);
    outside = λ a out. ground (arith, ha a, h.outside a out, h.same_bitmap);
    same_bitmap = h.same_bitmap;
    same_total = h.same_total;
    same_heap = h.same_heap;
  }

  pub set_page-Marked :
      (t : PageFrame)
      → Marked s page n 1 t
      → Marked s page (n + 1) 1 (pageframe_alloc_set_page t (page + n))
  set_page-Marked t h =
      let p = t.pageframe_bitmap in
      let ne = h.ready.has_bitmap in
      Marked-step 1 t (bitmap_set_bit (mem_of t) p (page + n)) h
        (set_bit-IsBytes (mem_of t) p (page + n) ne h.ready.bytes)
        (set_bit-bit (mem_of t) p (page + n) ne h.ready.bytes)
        (set_bit-other (mem_of t) p (page + n))

  pub free_page-Marked :
      (t : PageFrame) → Marked s page n 0 t → Marked s page (n + 1) 0 (free_page t (page + n))
  free_page-Marked t h =
      let p = t.pageframe_bitmap in
      let ne = h.ready.has_bitmap in
      rw (get_bit-bit (mem_of t) p (page + n) ne h.ready.bytes)
        (elim (Bool-cases (page_bit t (page + n) == 1)) [
          | inl e ↦ rw e (
              Marked-step 0 t (bitmap_clear_bit (mem_of t) p (page + n)) h
                (clear_bit-IsBytes (mem_of t) p (page + n) ne h.ready.bytes)
                (clear_bit-bit (mem_of t) p (page + n) ne h.ready.bytes)
                (clear_bit-other (mem_of t) p (page + n)))
          | inr e ↦ rw e (
              Marked-step 0 t (mem_of t) h h.ready.bytes
                (λ j. ground (arith, bit-lt (mem_of t) p j h.ready.bytes)) (λ a ne. refl))
        ])

pub Marked-none : (s : PageFrame) (page v : ℕ) → IsReady s → Marked s page 0 v s
Marked-none s page v r = record {
  ready = r;
  pages = λ j. ground arith;
  outside = λ a out. refl;
  same_bitmap = refl;
  same_total = refl;
  same_heap = refl;
}
