-- ===== src/Bmp/Pixels.antt =====
-- `libbmp_get_all_pixels` against `libbmp_get_pixel`.
use catch_os.Base.{
  ℕ, ◌+◌, ◌*◌, ◌%◌, ◌^◌, ◌≤◌, ◌<◌, ◌≡◌, refl, sym, ◌∙◌, arith, inl, inr, some, Mem, update,
  update_ne, for_range, for_range_inv, mul_le_right, Bool-cases, ◌==◌, false, ltb,
}
use catch_os.Base.Words.{load32}
use catch_os.Bmp.{
  Bmp, BmpPixel, Output, row_size, pixel_address, channel, put_pixel, libbmp_get_pixel,
  libbmp_get_all_pixels,
}
use catch_os.Bmp.Rows.{row_size_exists}

abbrev pub colours : BmpPixel → ℕ × ℕ × ℕ
colours p = (p.r, p.g, p.b)

module _ (mem : Mem) (bmp : Bmp) (row_sz : ℕ) (out : ℕ → BmpPixel) (deep : bmp.bpp ≡ 24)
    (small : bmp.h * bmp.w < 2 ^ 32) where
  abbrev colours_at : ℕ → ℕ → ℕ × ℕ × ℕ
  colours_at x y =
      let word = load32 mem (pixel_address bmp row_sz x y) in
      (channel word 2, channel word 1, channel word 0)

  -- In row `y` before column `x`.
  abbrev IsFilled : ℕ → ℕ → Output → Type 0
  IsFilled y x s =
      (s.index ≡ y * bmp.w + x)
      × ((i j : ℕ)
          → i < bmp.w
          → j * bmp.w + i < y * bmp.w + x
          → colours (s.array_out (j * bmp.w + i)) ≡ colours_at i j)
      × ((k : ℕ) → y * bmp.w + x ≤ k → s.array_out k ≡ out k)

  pixel_of : ℕ → ℕ → Output → BmpPixel
  pixel_of x y s =
      let (r, g, b) = colours_at x y in record { r = r; g = g; b = b; a = (s.array_out s.index).a }

  put_pixel-update :
      (y x : ℕ) (s : Output)
      → put_pixel mem bmp row_sz y x s ≡ record {
        index = (s.index + 1) % 2 ^ 32;
        array_out = update s.array_out s.index (pixel_of x y s);
      }
  unfolding put_pixel pixel_of
  put_pixel-update y x s = rw deep refl

  colours-pixel_of : (x y : ℕ) (s : Output) → colours (pixel_of x y s) ≡ colours_at x y
  unfolding pixel_of
  colours-pixel_of x y s = refl

  -- The numbers of two pixels are the same only for the same pixel.
  same_place :
      (i j x y : ℕ) → i < bmp.w → x < bmp.w → j * bmp.w + i ≡ y * bmp.w + x → (i ≡ x) × (j ≡ y)
  same_place i j x y hi hx e = elim (Bool-cases (ltb j y)) [
    | inl lt ↦ (let m = mul_le_right bmp.w (j + 1) y (ground arith) in absurd (ground arith))
    | inr le ↦ elim (Bool-cases (ltb y j)) [
      | inl lt ↦ (let m = mul_le_right bmp.w (y + 1) j (ground arith) in absurd (ground arith))
      | inr ge ↦ (let same : j ≡ y = ground arith in (ground (arith, same), same))
    ]
  ]

  put_pixel-IsFilled :
      (y x : ℕ) (s : Output)
      → y < bmp.h
      → x < bmp.w
      → IsFilled y x s
      → IsFilled y (x + 1) (put_pixel mem bmp row_sz y x s)
  put_pixel-IsFilled y x s hy hx (e, before, behind) =
      let room = mul_le_right bmp.w (y + 1) bmp.h (omega arith) in
      let lt : y * bmp.w + x < 2 ^ 32 = ground arith in
      rw (put_pixel-update y x s) (
        ground arith,
        λ i j hi lt. elim (Bool-cases (j * bmp.w + i == s.index)) [
          | inl same ↦
              (let (ex, ey) = same_place i j x y hi hx (ground arith) in
                rw same (colours-pixel_of x y s ∙ rw (ex, ey) refl))
          | inr other ↦ rw other (before i j hi (ground arith))
        ],
        λ k le.
            rw (update_ne s.array_out s.index (pixel_of x y s) k (ground arith))
              (behind k (omega arith)),
      )

  row-IsFilled :
      (y : ℕ) (s : Output)
      → y < bmp.h
      → IsFilled y 0 s
      → IsFilled (y + 1) 0 (for_range bmp.w 0 (λ x t. put_pixel mem bmp row_sz y x t) s)
  row-IsFilled y s hy f =
      let (e, before, behind) =
        for_range_inv (λ x t. IsFilled y x t) (λ x t. put_pixel mem bmp row_sz y x t) bmp.w
          (λ x t lt ft. put_pixel-IsFilled y x t hy lt ft) bmp.w 0 s (omega arith) f in
      let next : (y + 1) * bmp.w + 0 ≡ y * bmp.w + bmp.w = ground arith in
      (e ∙ sym next, λ i j hi lt. before i j hi (ground arith), λ k le. behind k (ground arith))

  rows-IsFilled : IsFilled bmp.h 0 (
      for_range bmp.h 0
        (λ y s. for_range bmp.w 0 (λ x t. put_pixel mem bmp row_sz y x t) s)
        (record { index = 0; array_out = out }))
  rows-IsFilled =
      for_range_inv (λ y s. IsFilled y 0 s)
        (λ y s. for_range bmp.w 0 (λ x t. put_pixel mem bmp row_sz y x t) s) bmp.h
        (λ y s lt f. row-IsFilled y s lt f) bmp.h 0 (record { index = 0; array_out = out })
        (omega arith) (ground arith, λ i j hi lt. absurd (ground arith), λ k le. refl)

  get_pixel-colours :
      (x y : ℕ) (p : BmpPixel)
      → row_size bmp ≡ some row_sz
      → x < bmp.w
      → y < bmp.h
      → (q : BmpPixel) × (libbmp_get_pixel mem bmp x y p ≡ some q) × (colours q ≡ colours_at x y)
  unfolding libbmp_get_pixel
  get_pixel-colours x y p e hx hy =
      let ox : ltb bmp.w x ≡ false = ground arith in
      let oy : ltb bmp.h y ≡ false = ground arith in
      (
        record { r = (colours_at x y).0; g = (colours_at x y).1; b = (colours_at x y).2; a = 0 },
        rw (ox, oy, e, deep) refl,
        refl,
      )

-- For a picture of 24 bits for a pixel and fewer than 2 ^ 32 pixels, `libbmp_get_all_pixels`
-- returns; at `y * w + x` of its array stand the red, green and blue that `libbmp_get_pixel`
-- returns for the pixel `x`, `y`, and the array is unchanged from the place `h * w` on.
pub get_all_pixels-get_pixel :
    (mem : Mem) (bmp : Bmp) (out : ℕ → BmpPixel) (old : BmpPixel)
    → bmp.bpp ≡ 24
    → bmp.h * bmp.w < 2 ^ 32
    → (pixels : ℕ → BmpPixel) × (libbmp_get_all_pixels mem bmp out ≡ some pixels)
      × ((x y : ℕ)
          → x < bmp.w
          → y < bmp.h
          → (p : BmpPixel) × (libbmp_get_pixel mem bmp x y old ≡ some p)
            × (colours (pixels (y * bmp.w + x)) ≡ colours p))
      × ((k : ℕ) → bmp.h * bmp.w ≤ k → pixels k ≡ out k)
unfolding libbmp_get_all_pixels
get_all_pixels-get_pixel mem bmp out old deep small =
    let (row_sz, er) = row_size_exists bmp in
    let (e, before, behind) = rows-IsFilled mem bmp row_sz out deep small in
    (
      _,
      rw (libbmp_get_all_pixels, er) refl,
      λ x y hx hy.
          (let room = mul_le_right bmp.w (y + 1) bmp.h (omega arith) in
            let (p, ep, ec) = get_pixel-colours mem bmp row_sz out deep small x y old er hx hy in
            (p, ep, before x y hx (ground arith) ∙ sym ec)),
      λ k le. behind k (omega arith),
    )
