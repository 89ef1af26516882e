-- ===== src/PageFrame/FirstFit.antt =====
-- `pageframe_alloc_firstfit`: the first long enough run of free pages, across bytes.
use catch_os.Base.{ℕ, zero, suc, ◌+◌, ◌-◌, ◌*◌, ◌/◌, ◌%◌, ◌≤◌, ◌<◌, ◌≡◌, ◌≢◌, arith}
use catch_os.Base.{ltb, ◌==◌}
use catch_os.Base.{Option, none, some, inl, inr, Bool-cases}
use catch_os.Bitmap.Laws.{bit, IsBytes, get_bit-bit}
use catch_os.PageFrame.{PageFrame, mem_of, skip_full, firstfit_page}
use catch_os.PageFrame.Runs.{AllFree}
use catch_os.PageFrame.BestFit.{full_byte_bits}

module _ (s : PageFrame) (k : ℕ) (hp : s.pageframe_bitmap ≢ 0) (hm : IsBytes (mem_of s)) where
  -- No run of `k` free pages starts below page `e`.
  abbrev pub NoneBelow : ℕ → Type 0
  NoneBelow e = (q : ℕ) → q < e → ¬ AllFree (mem_of s) s.pageframe_bitmap q k

  -- What the search of the pages below `e` returns: the first run of `k` free pages, if any.
  abbrev pub First : ℕ → Option ℕ → Type 0
  First e none = (q : ℕ) → q + k ≤ e → ¬ AllFree (mem_of s) s.pageframe_bitmap q k
  First e (some page) =
      (page + k ≤ e) × AllFree (mem_of s) s.pageframe_bitmap page k × NoneBelow page

  -- The loop holds `cur_len` free pages from `page_no` on when it looks at page `i`.
  record Scanning (i page_no cur_len : ℕ) : Type 0 where
    here : page_no + cur_len ≡ i
    short : cur_len < k
    free : AllFree (mem_of s) s.pageframe_bitmap page_no cur_len
    below : NoneBelow page_no

  Scanning-free :
      (i page_no cur_len : ℕ)
      → bit (mem_of s) s.pageframe_bitmap i ≡ 0
      → Scanning i page_no cur_len
      → AllFree (mem_of s) s.pageframe_bitmap page_no (cur_len + 1)
  Scanning-free i page_no cur_len e t j le lt = elim (Bool-cases (j == i)) [
    | inl f ↦ let g : j ≡ i = ground arith in rw g e
    | inr f ↦ t.free j le (ground (arith, t.here))
  ]

  Scanning-taken :
      (i page_no cur_len : ℕ)
      → bit (mem_of s) s.pageframe_bitmap i ≢ 0
      → Scanning i page_no cur_len
      → NoneBelow (i + 1)
  Scanning-taken i page_no cur_len ne t q lt free = elim (Bool-cases (ltb q page_no)) [
    | inl f ↦ t.below q (ground arith) free
    | inr f ↦ ne (free i (omega arith) (ground (arith, t.here, t.short)))
  ]

  firstfit_page-First :
      (n i page_no cur_len : ℕ)
      → Scanning i page_no cur_len
      → First (i + n) (firstfit_page s k n i page_no cur_len)
  unfolding firstfit_page
  firstfit_page-First zero i page_no cur_len t =
      λ q le free. t.below q (omega (arith, t.here, t.short)) free
  firstfit_page-First (suc n) i page_no cur_len t =
      let e : i + suc n ≡ i + 1 + n = omega arith in
      rw (e, get_bit-bit (mem_of s) s.pageframe_bitmap i hp hm)
        (elim (Bool-cases (bit (mem_of s) s.pageframe_bitmap i == 0)) [
          | inl f ↦ rw f (elim (Bool-cases (cur_len + 1 == k)) [
            | inl g ↦ rw g (
              ground (arith, t.here),
              λ j le lt. Scanning-free i page_no cur_len (ground arith) t j le (ground arith),
              t.below,
            )
            | inr g ↦ rw g (
                firstfit_page-First n (i + 1) page_no (cur_len + 1) (record {
                  here = ground (arith, t.here);
                  short = ground (arith, t.short);
                  free = Scanning-free i page_no cur_len (ground arith) t;
                  below = t.below;
                }))
          ])
          | inr f ↦ rw f (
              firstfit_page-First n (i + 1) (page_no + cur_len + 1) 0 (record {
                here = ground (arith, t.here);
                short = ground (arith, t.short);
                free = λ j le lt. absurd (omega arith);
                below =
                    let p : page_no + cur_len + 1 ≡ i + 1 = ground (arith, t.here) in
                    rw p (Scanning-taken i page_no cur_len (ground arith) t);
              }))
        ])

  -- The pages below the first byte that is not full.
  record Skipped (n i page_no : ℕ) : Type 0 where
    byte : page_no % 8 ≡ 0
    inside : page_no ≤ (i + n) * 8
    taken : (b : ℕ) → b < page_no / 8 → mem_of s (s.pageframe_bitmap + b) ≡ 0xff

  skip_full-Skipped :
      (n i : ℕ)
      → ((b : ℕ) → b < i → mem_of s (s.pageframe_bitmap + b) ≡ 0xff)
      → Skipped n i (skip_full s n i (i * 8))
  unfolding skip_full
  skip_full-Skipped zero i h = record {
    byte = omega arith;
    inside = omega arith;
    taken = λ b lt. h b (omega arith);
  }
  skip_full-Skipped (suc n) i h = elim (Bool-cases (mem_of s (s.pageframe_bitmap + i) == 0xff)) [
    | inl e ↦ rw e (
        let all = λ (b : ℕ) (lt : b < i + 1).
          elim (Bool-cases (b == i)) as (λ _. mem_of s (s.pageframe_bitmap + b) ≡ 0xff) [
            | inl f ↦ ground arith
            | inr f ↦ h b (ground arith)
          ] in
        let t = skip_full-Skipped n (i + 1) all in
        let p : i * 8 + 8 ≡ (i + 1) * 8 = omega arith in
        rw p (record { byte = t.byte; inside = omega (arith, t.inside); taken = t.taken }))
    | inr e ↦
        rw e
          (record { byte = omega arith; inside = omega arith; taken = λ b lt. h b (omega arith) })
  ]

  Skipped-NoneBelow : (n i page_no : ℕ) → 0 < k → Skipped n i page_no → NoneBelow page_no
  Skipped-NoneBelow n i page_no lo t q lt free =
      full_byte_bits (q % 8) (omega arith)
        (rw (← t.taken (q / 8) (omega (arith, t.byte))) (free q (omega arith) (omega arith)))

  -- On an initialised allocator and for at least one page, the search of
  -- `pageframe_alloc_firstfit`, which skips the full bytes first, finds the first run of that many
  -- free pages below `pages_total_phys`, and nothing only where there is no such run.
  pub firstfit-First :
      0 < k
      → let page_no = skip_full s (s.pages_total_phys / 8) 0 0 in
        First s.pages_total_phys
          (firstfit_page s k (s.pages_total_phys - page_no) page_no page_no 0)
  firstfit-First lo =
      let page_no = skip_full s (s.pages_total_phys / 8) 0 0 in
      let t = skip_full-Skipped (s.pages_total_phys / 8) 0 (λ b lt. absurd (omega arith)) in
      let e : page_no + (s.pages_total_phys - page_no) ≡ s.pages_total_phys =
        omega (arith, t.inside) in
      rw e at (
        firstfit_page-First (s.pages_total_phys - page_no) page_no page_no 0 (record {
          here = omega arith;
          short = lo;
          free = λ j le lt. absurd (omega arith);
          below = Skipped-NoneBelow (s.pages_total_phys / 8) 0 page_no lo t;
        }))
