-- ===== src/Tests/Pictures.antt =====
-- A bitmap of three by two pixels, a palette of two colours, and the end of the power.
use catch_os.Base.{
  ℕ, zero, suc, ◌+◌, ◌*◌, ◌%◌, ◌≤◌, ◌<◌, ◌≡◌, refl, arith, some, array, [], ◌∷◌, if◌then◌else◌,
  ◌==◌,
}
use catch_os.Bmp.{Bmp, BmpPixel, row_size, libbmp_get_all_pixels, libbmp_get_pixel}
use catch_os.Bmp.Rows.{padded, row_size-padded}
use catch_os.Bmp.Pixels.{colours, get_all_pixels-get_pixel}
use catch_os.Console.Colour.{
  RgbColor, Format, IsColor, squared_distance, svga_translate_rgb, translate_rgb-nearest,
}

abbrev pub small : Bmp
small = record { filesize = 78; w = 3; h = 2; bpp = 24; pixelarray_offset = 54; pixelarray = 54 }

abbrev pub blank : BmpPixel
blank = record { r = 0; g = 0; b = 0; a = 0 }

-- Rows of 9 bytes are kept in 12.
row_size-padded_example : row_size small ≡ some (padded 9 + (if 9 % 4 == 1 then 0 else 4))
row_size-padded_example = row_size-padded small 9 refl (omega arith)

get_all_pixels-get_pixel_example :
    (pixels : ℕ → BmpPixel) × (libbmp_get_all_pixels (λ a. a % 256) small (λ k. blank)
      ≡ some pixels)
    × ((x y : ℕ)
        → x < 3
        → y < 2
        → (p : BmpPixel) × (libbmp_get_pixel (λ a. a % 256) small x y blank ≡ some p)
          × (colours (pixels (y * 3 + x)) ≡ colours p))
    × ((k : ℕ) → 2 * 3 ≤ k → pixels k ≡ blank)
get_all_pixels-get_pixel_example =
    get_all_pixels-get_pixel (λ a. a % 256) small (λ k. blank) blank refl (omega arith)

abbrev pub grey : RgbColor
grey = record { r = 90; g = 90; b = 90 }

abbrev two_colors : ℕ → RgbColor
two_colors = array (record { r = 0; g = 0; b = 0 }) (record { r = 255; g = 255; b = 255 } ∷ [])

abbrev pub indexed : Format
indexed = record {
  framebuffer_type = 0;
  palette_num_colors = 2;
  palette = two_colors;
  red_field_position = 0;
  red_mask_size = 0;
  green_field_position = 0;
  green_mask_size = 0;
  blue_field_position = 0;
  blue_mask_size = 0;
}

two_colors-IsColor : (i : ℕ) → i < 2 → IsColor (two_colors i)
two_colors-IsColor zero lt = (omega arith, omega arith, omega arith)
two_colors-IsColor (suc i) lt = (omega arith, omega arith, omega arith)

-- Grey is nearer to black, the second entry.
translate_rgb-nearest_example :
    let found = svga_translate_rgb (λ c m. 0) indexed grey in
    (found < 2)
    × ((i : ℕ)
        → i < 2
        → squared_distance grey (two_colors found) ≤ squared_distance grey (two_colors i))
    × ((i : ℕ)
        → i < found
        → squared_distance grey (two_colors found) < squared_distance grey (two_colors i))
translate_rgb-nearest_example =
    translate_rgb-nearest (λ c m. 0) indexed grey refl (omega arith)
      (omega arith, omega arith, omega arith) two_colors-IsColor
