-- ===== src/PageFrame/Init.antt =====
-- `pageframe_alloc_init`: the bitmap on the kernel heap, with the kernel's first 8 MiB reserved.
use catch_os.Base.{ℕ, ◌+◌, ◌*◌, ◌/◌, ◌%◌, ◌^◌, ◌≤◌, ◌<◌, ◌≡◌, refl, arith, ◌∙◌}
use catch_os.Base.{true, ltb, leb, ◌&&◌, if◌then◌else◌, inl, inr, Bool-cases}
use catch_os.Base.{some, for_range, for_range_inv}
use catch_os.Base.Bits.{bit_at}
use catch_os.Bitmap.Laws.{IsBytes}
use catch_os.KHeap.{KHeap}
use catch_os.KHeap.Laws.{Allocated, kmalloc_align-Allocated}
use catch_os.PageFrame.{PageFrame, mem_of, pageframe_alloc_init, pageframe_alloc_set_page}
use catch_os.PageFrame.State.{IsReady, Marked, Marked-none, page_bit, set_page-Marked}

-- The pages that the boot loader's count of KiB makes, in 32 bits.
abbrev pub total_pages : ℕ → ℕ
total_pages phys_mem_upper = phys_mem_upper * 1024 % 2 ^ 32 / 4096

-- The allocator after its first call: of the pages that its bitmap of `total / 8` bytes has a bit
-- for, the kernel's 2048 pages are taken and the others are free.
pub record Initialised (s : PageFrame) (phys_mem_upper : ℕ) (t : PageFrame) : Type 0 where
  pub ready : IsReady t
  pub total : t.pages_total_phys ≡ total_pages phys_mem_upper
  pub aligned : t.pageframe_bitmap % 4096 ≡ 0
  pub reserved :
      (j : ℕ)
      → j < total_pages phys_mem_upper / 8 * 8
      → page_bit t j ≡ (if ltb j 2048 then 1 else 0)
  -- the bits of the last pages lie behind the bitmap and are what the memory held
  pub behind :
      (j : ℕ)
      → total_pages phys_mem_upper / 8 * 8 ≤ j
      → page_bit t j ≡ bit_at (mem_of s (t.pageframe_bitmap + j / 8)) (j % 8)
  pub below : (a : ℕ) → a < s.heap.heap_cur → mem_of t a ≡ mem_of s a

zero_bits : (r : ℕ) → bit_at 0 r ≡ 0
zero_bits r = ground arith

module _ (s : PageFrame) (phys_mem_upper : ℕ) (hm : IsBytes (mem_of s)) (used : 0 < s.heap.heap_cur)
    (large : 2048 ≤ total_pages phys_mem_upper)
    (room : s.heap.heap_cur + 4096 + total_pages phys_mem_upper / 8 < 2 ^ 32) where
  cleared_byte :
      (p : ℕ) (h : KHeap)
      → Allocated s.heap (total_pages phys_mem_upper / 8) p h
      → (b : ℕ) → h.mem b < 256
  cleared_byte p h a b = elim (Bool-cases (leb p b && ltb b (p + total_pages phys_mem_upper / 8))) [
    | inl e ↦ ground (arith, a.cleared b)
    | inr e ↦ rw (a.kept b (ground arith)) (hm b)
  ]

  -- The loop that reserves the kernel's pages, on the cleared bitmap.
  reserve-Initialised :
      (p : ℕ) (h : KHeap)
      → p % 4096 ≡ 0
      → Allocated s.heap (total_pages phys_mem_upper / 8) p h
      → Initialised s phys_mem_upper (
          for_range
            (1024 * 2)
            0
            (λ i t. pageframe_alloc_set_page t i)
            (record {
              heap = h;
              is_initialized = true;
              pageframe_bitmap = p;
              pages_total_phys = total_pages phys_mem_upper;
            }))
  reserve-Initialised p h aligned a =
      let start : PageFrame = record {
        heap = h;
        is_initialized = true;
        pageframe_bitmap = p;
        pages_total_phys = total_pages phys_mem_upper;
      } in
      let fresh = a.fresh in
      let bytes : IsBytes (mem_of start) = λ b. cleared_byte p h a b in
      let ready : IsReady start = record {
        started = refl;
        has_bitmap = omega arith;
        bytes = bytes;
        few = omega arith;
      } in
      let m =
        for_range_inv (λ i t. Marked start 0 i 1 t) (λ i t. pageframe_alloc_set_page t i) (1024 * 2)
          (λ i t lt m.
            let e : 0 + i ≡ i = omega arith in
            rw e at (set_page-Marked start 0 i (omega arith) t m))
          (1024 * 2) 0 start refl (Marked-none start 0 1 ready) in
      record {
        ready = m.ready;
        total = m.same_total;
        aligned = rw (m.same_bitmap) aligned;
        reserved = λ j lt. ground (arith, m.pages j, a.cleared (p + j / 8), zero_bits (j % 8));
        behind = λ j le. rw m.same_bitmap (ground (arith, m.pages j, a.kept (p + j / 8)));
        below = λ b lt. m.outside b (omega arith) ∙ a.kept b (omega arith);
      }

  -- The first call of `pageframe_alloc_init` stops and leaves an allocator that is ready, if the
  -- heap has room for the bitmap and the machine has at least 2048 pages. Of the pages that the
  -- bitmap of `total / 8` bytes has a bit for, exactly those below 2048 are reserved; the bits of
  -- the up to seven pages behind lie outside the bitmap and are what memory held.
  pub pageframe_alloc_init-Initialised :
      (t : PageFrame) × (pageframe_alloc_init phys_mem_upper s ≡ some t)
      × Initialised s phys_mem_upper t
  unfolding pageframe_alloc_init
  pageframe_alloc_init-Initialised =
      let (h, e, aligned, near, a) =
        kmalloc_align-Allocated s.heap (total_pages phys_mem_upper / 8) 4096 (omega arith)
          (omega arith) in
      (_, rw (e, pageframe_alloc_init), reserve-Initialised _ h aligned a)
