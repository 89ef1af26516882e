-- ===== src/Bmp.antt =====
-- kernel/shell/bmp.c: decoding a bitmap picture in memory. The loop of `round_up` runs on fuel.
pub mod Rows
pub mod Pixels
use catch_os.Base.{
  ℕ, zero, suc, ◌+◌, ◌*◌, ◌/◌, ◌%◌, ◌^◌, Option, none, some, Mem, update, for_range, ◌==◌, ltb,
  ◌||◌, Bool, true, false, if◌then◌else◌, ℤ, pos, negsuc,
}
use catch_os.Base.Words.{load32}

pub record Bmp : Type 0 where
  pub filesize : ℕ
  pub w : ℕ
  pub h : ℕ
  pub bpp : ℕ
  pub pixelarray_offset : ℕ
  pub pixelarray : ℕ

pub record BmpPixel : Type 0 where
  pub r : ℕ
  pub g : ℕ
  pub b : ℕ
  pub a : ℕ

abbrev load16 : Mem → ℕ → ℕ
load16 mem p = mem p + 2 ^ 8 * mem (p + 1)

abbrev pub get_bmp_dimensions_core : Mem → ℕ → Bmp → ℤ × Bmp
get_bmp_dimensions_core mem dib out = (
  pos 0,
  record out { w = load16 mem (dib + 4); h = load16 mem (dib + 6); bpp = load16 mem (dib + 10) },
)

-- A compressed picture is an error.
abbrev pub get_bmp_dimensions_info : Mem → ℕ → Bmp → ℤ × Bmp
get_bmp_dimensions_info mem dib out = (
  if load32 mem (dib + 16) == 0 then pos 0 else negsuc 0,
  record out { w = load32 mem (dib + 4); h = load32 mem (dib + 8); bpp = load16 mem (dib + 14) },
)

-- What the two functions return is not looked at.
unfoldable pub libbmp_decode_bmp : Mem → ℕ → Bmp → ℤ × Bmp
libbmp_decode_bmp mem bmp out =
    if (if mem bmp == b'B' then mem (bmp + 1) == b'M' else false)
    then (let offset = load32 mem (bmp + 10) in
        let found = record out {
          filesize = load32 mem (bmp + 2);
          pixelarray_offset = offset;
          pixelarray = (bmp + offset) % 2 ^ 32;
        } in
        let size = load32 mem (bmp + 14) in
        if size == 12 || size == 16 || size == 64
        then (pos 0, (get_bmp_dimensions_core mem (bmp + 14) found).1)
        else (pos 0, (get_bmp_dimensions_info mem (bmp + 14) found).1))
    else (negsuc 0, out)

unfoldable pub round_up : ℕ → ℕ → ℕ → Option ℕ
round_up zero ret alignment = none
round_up (suc f) ret alignment =
    let rest = round_up f ((ret + 1) % 2 ^ 32) alignment in
    if ret % alignment == 0 then some ret else rest

-- `row_sz` of the two functions below.
unfoldable pub row_size : Bmp → Option ℕ
row_size bmp = round_up 4 ((bmp.bpp * bmp.w + 31) % 2 ^ 32 / 8) 4

abbrev pub pixel_address : Bmp → ℕ → ℕ → ℕ → ℕ
pixel_address bmp row_sz x y = (bmp.pixelarray + (row_sz * y + x * (bmp.bpp / 8)) % 2 ^ 32) % 2 ^ 32

-- `(word >> 8 * i) & 0xff`
abbrev pub channel : ℕ → ℕ → ℕ
channel word i = word / 2 ^ (8 * i) % 2 ^ 8

unfoldable pub libbmp_get_pixel : Mem → Bmp → ℕ → ℕ → BmpPixel → Option BmpPixel
libbmp_get_pixel mem bmp x y out =
    if ltb bmp.w x || ltb bmp.h y then some out else elim (row_size bmp) [
      | none ↦ none
      | some row_sz ↦
          (let word = load32 mem (pixel_address bmp row_sz x y) in
            if bmp.bpp == 24
            then some (record { r = channel word 2; g = channel word 1; b = channel word 0; a = 0 })
            else some out)
    ]

-- `index` and `array_out`.
pub record Output : Type 0 where
  pub index : ℕ
  pub array_out : ℕ → BmpPixel

unfoldable pub put_pixel : Mem → Bmp → ℕ → ℕ → ℕ → Output → Output
put_pixel mem bmp row_sz y x s =
    let word = load32 mem (pixel_address bmp row_sz x y) in
    let old = s.array_out s.index in
    if bmp.bpp == 32 || bmp.bpp == 24
    then record {
      index = (s.index + 1) % 2 ^ 32;
      array_out =
          update s.array_out s.index
            (record { r = channel word 2; g = channel word 1; b = channel word 0; a = old.a });
    }
    else s

unfoldable pub libbmp_get_all_pixels : Mem → Bmp → (ℕ → BmpPixel) → Option (ℕ → BmpPixel)
libbmp_get_all_pixels mem bmp out = elim (row_size bmp) [
  | none ↦ none
  | some row_sz ↦
      some
        (for_range bmp.h 0 (λ y s. for_range bmp.w 0 (λ x t. put_pixel mem bmp row_sz y x t) s)
          (record { index = 0; array_out = out })).array_out
]
