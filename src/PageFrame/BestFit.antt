-- ===== src/PageFrame/BestFit.antt =====
-- `pageframe_alloc_bestfit`: up to eight pages, from one byte of the bitmap.
use catch_os.Base.{ℕ, zero, suc, ◌+◌, ◌-◌, ◌*◌, ◌/◌, ◌%◌, ◌≤◌, ◌<◌, ◌≡◌, ◌≢◌, refl, sym, arith, ◌∙◌}
use catch_os.Base.{true, ◌==◌, Mem, ℤ, pos, negsuc}
use catch_os.Base.{Option, none, some, inl, inr, ◌⊎◌, Bool-cases}
use catch_os.Base.Bits.{bit_at, every_below, every_below-at}
use catch_os.Bitmap.Laws.{bit, IsBytes}
use catch_os.PageFrame.{PageFrame, mem_of, best_fit_pos_in, bestfit_page}
use catch_os.PageFrame.Runs.{AllFree, run_len-ge, found-fits, found-free, missed-short}

-- Bit `i * 8 + r` of the bitmap is bit `r` of its byte `i`.
pub bit_in_byte : (m : Mem) (p i r j : ℕ) → r < 8 → j ≡ i * 8 + r → bit m p j ≡ bit_at (m (p + i)) r
bit_in_byte m p i r j h e =
    let q : j / 8 ≡ i = omega arith in let t : j % 8 ≡ r = omega arith in rw (q, t) refl

full_table : every_below 8 (λ r. bit_at 255 r == 1) ≡ true
unfolding every_below
full_table = refl

pub full_byte_bits : (r : ℕ) → r < 8 → bit_at 255 r ≢ 0
full_byte_bits r h = ground (arith, every_below-at 8 (λ r. bit_at 255 r == 1) r full_table h)

ℤ-cases : (a : ℤ) → ((j : ℕ) × (a ≡ pos j)) ⊎ ((m : ℕ) × (a ≡ negsuc m))
ℤ-cases (pos j) = inl (j, refl)
ℤ-cases (negsuc m) = inr (m, refl)

module _ (s : PageFrame) (k : ℕ) (lo : 0 < k) (hi : k ≤ 8) (hm : IsBytes (mem_of s)) where
  -- No window of `k` free pages within byte `i`.
  abbrev pub NoRun : ℕ → Type 0
  NoRun i = (q : ℕ) → i * 8 ≤ q → q + k ≤ i * 8 + 8 → ¬ AllFree (mem_of s) s.pageframe_bitmap q k

  -- A window that the byte's scan settles on is a window of free pages.
  found-AllFree :
      (i j : ℕ)
      → best_fit_pos_in (mem_of s (s.pageframe_bitmap + i)) k ≡ pos j
      → AllFree (mem_of s) s.pageframe_bitmap (i * 8 + j) k
  found-AllFree i j e q le lt =
      let byte = mem_of s (s.pageframe_bitmap + i) in
      let hb = hm (s.pageframe_bitmap + i) in
      let fits = found-fits byte k hb lo hi j e in
      bit_in_byte (mem_of s) s.pageframe_bitmap i (q - i * 8) q (omega arith) (omega arith)
      ∙ found-free byte k hb lo hi j (q - i * 8) e (omega arith) (omega arith)

  missed-NoRun :
      (i m : ℕ) → best_fit_pos_in (mem_of s (s.pageframe_bitmap + i)) k ≡ negsuc m → NoRun i
  missed-NoRun i m e q le fits free =
      let byte = mem_of s (s.pageframe_bitmap + i) in
      let short =
        missed-short byte k (hm (s.pageframe_bitmap + i)) lo hi m (q - i * 8) e (omega arith) in
      let long = run_len-ge byte (8 - (q - i * 8)) (q - i * 8) k (omega arith) (λ r rlo rhi.
        sym (bit_in_byte (mem_of s) s.pageframe_bitmap i r (i * 8 + r) (omega arith) refl)
        ∙ free (i * 8 + r) (omega arith) (omega arith)) in
      omega arith

  full-NoRun : (i : ℕ) → mem_of s (s.pageframe_bitmap + i) ≡ 0xff → NoRun i
  full-NoRun i e q le fits free = full_byte_bits (q - i * 8) (omega arith) (
      rw (← e) (
        sym (bit_in_byte (mem_of s) s.pageframe_bitmap i (q - i * 8) q (omega arith) (omega arith))
        ∙ free q (omega arith) (omega arith)))

  -- What the search over the bytes from `i` up to `i + n` returns.
  abbrev pub Searched : ℕ → ℕ → Option ℕ → Type 0
  Searched i n none = (b : ℕ) → i ≤ b → b < i + n → NoRun b
  Searched i n (some page) =
      (i * 8 ≤ page)
      × (page + k ≤ (i + n) * 8)
      × (page % 8 + k ≤ 8)
      × AllFree (mem_of s) s.pageframe_bitmap page k

  Searched-later : (i n : ℕ) (o : Option ℕ) → NoRun i → Searched (i + 1) n o → Searched i (suc n) o
  Searched-later i n none here h = λ b le lt. elim (Bool-cases (b == i)) [
    | inl e ↦ let e' : b ≡ i = ground arith in rw e' here
    | inr e ↦ h b (ground arith) (omega arith)
  ]
  Searched-later i n (some page) here h = (omega arith, omega arith, h.2, h.3)

  -- The search over the bytes finds a window of free pages in one of them, if there is one.
  pub bestfit_page-Searched : (n i : ℕ) → Searched i n (bestfit_page s k n i)
  unfolding bestfit_page
  bestfit_page-Searched zero i = λ b le lt. absurd (omega arith)
  bestfit_page-Searched (suc n) i =
      let later = bestfit_page-Searched n (i + 1) in
      elim (Bool-cases (mem_of s (s.pageframe_bitmap + i) == 0xff)) [
        | inl e ↦ rw e (Searched-later i n _ (full-NoRun i (ground arith)) later)
        | inr e ↦ rw e (elim (ℤ-cases (best_fit_pos_in (mem_of s (s.pageframe_bitmap + i)) k)) [
          | inl (j, f) ↦ rw f (
            omega arith,
            let fits = found-fits _ k (hm (s.pageframe_bitmap + i)) lo hi j f in omega arith,
            let fits = found-fits _ k (hm (s.pageframe_bitmap + i)) lo hi j f in omega arith,
            found-AllFree i j f,
          )
          | inr (m, f) ↦ rw f (Searched-later i n _ (missed-NoRun i m f) later)
        ])
      ]
