-- ===== src/Console/Colour.antt =====
-- `svga_translate_rgb` of kernel/drivers/svga.c: the colour of a pixel for each kind of frame
-- buffer, and the glyphs of kernel/shell/font.c by their addresses.
use catch_os.Base.{
  ℕ, ◌+◌, ◌-◌, ◌*◌, ◌/◌, ◌%◌, ◌^◌, ◌≤◌, ◌<◌, ◌≡◌, refl, arith, ◌==◌, leb, ltb, if◌then◌else◌,
  bit_and, bit_or, for_range, for_range_inv, ◌⊎◌, sym, ◌∙◌, inl, inr, Bool-cases, mul_le_right,
}
use catch_os.Console.{font_w, font_h}

-- `struct rgb_color`, and an entry of a palette.
pub record RgbColor : Type 0 where
  pub r : ℕ
  pub g : ℕ
  pub b : ℕ

-- What the tag of the frame buffer says of colours; the palette and the masks share their place.
pub record Format : Type 0 where
  pub framebuffer_type : ℕ
  pub palette_num_colors : ℕ
  pub palette : ℕ → RgbColor
  pub red_field_position : ℕ
  pub red_mask_size : ℕ
  pub green_field_position : ℕ
  pub green_mask_size : ℕ
  pub blue_field_position : ℕ
  pub blue_mask_size : ℕ

-- The square of a difference, in `int`.
abbrev square_diff : ℕ → ℕ → ℕ
square_diff x y = let d = if leb x y then y - x else x - y in d * d

unfoldable pub color_distance : RgbColor → RgbColor → ℕ
color_distance c p = square_diff c.b p.b + square_diff c.r p.r + square_diff c.g p.g

-- One entry of the palette, against `color` and `best_distance`.
abbrev try_entry : Format → RgbColor → ℕ → ℕ × ℕ → ℕ × ℕ
try_entry f c i (color, best) =
    let distance = color_distance c (f.palette i) in
    if ltb distance best then (i, distance) else (color, best)

unfoldable pub nearest_color : Format → RgbColor → ℕ
nearest_color f c = (for_range f.palette_num_colors 0 (try_entry f c) (0, 4 * 256 * 256)).0

-- `scaled` stands for the product of floating-point numbers, a channel by the share of its mask.
abbrev masked : (ℕ → ℕ → ℕ) → ℕ → ℕ → ℕ
masked scaled channel size = bit_and (2 ^ size - 1) (scaled channel (2 ^ size - 1)) % 2 ^ 8

unfoldable pub svga_translate_rgb : (ℕ → ℕ → ℕ) → Format → RgbColor → ℕ
svga_translate_rgb scaled f c =
    if f.framebuffer_type == 0
    then nearest_color f c
    else if f.framebuffer_type == 1
    then (let red = masked scaled c.r f.red_mask_size * 2 ^ f.red_field_position in
        let green = masked scaled c.g f.green_mask_size * 2 ^ f.green_field_position in
        let blue = masked scaled c.b f.blue_mask_size * 2 ^ f.blue_field_position in
        bit_or (bit_or red green) blue % 2 ^ 32)
    else if f.framebuffer_type == 2
    then bit_or 92 0x0100
    else 0xffffffff

-- `table` is the address of `console_font_7x9`.
unfoldable pub font_get_char : ℕ → ℕ → ℕ
font_get_char table c = table + c * (font_w * font_h / 8)

-- Three bytes.
abbrev pub IsColor : RgbColor → Type 0
IsColor c = (c.r < 2 ^ 8) × (c.g < 2 ^ 8) × (c.b < 2 ^ 8)

square_diff_bound : (x y : ℕ) → x < 2 ^ 8 → y < 2 ^ 8 → square_diff x y ≤ 65025
square_diff_bound x y hx hy =
    let d = if leb x y then y - x else x - y in
    let le : d ≤ 255 = ground arith in let m = mul_le_right d d 255 le in omega arith

-- The square of the distance of two values, x² + y² - 2xy.
abbrev square_gap : ℕ → ℕ → ℕ
square_gap x y = x * x + y * y - 2 * x * y

-- The square of the distance of two colours in the space of red, green and blue.
abbrev pub squared_distance : RgbColor → RgbColor → ℕ
squared_distance c p = square_gap c.r p.r + square_gap c.g p.g + square_gap c.b p.b

gap_up : (x d : ℕ) → square_gap x (x + d) ≡ d * d
gap_up x d = omega arith

gap_down : (y d : ℕ) → square_gap (y + d) y ≡ d * d
gap_down y d = omega arith

square_diff-square_gap : (x y : ℕ) → square_diff x y ≡ square_gap x y
square_diff-square_gap x y = elim (Bool-cases (leb x y)) [
  | inl e ↦ let at : x + (y - x) ≡ y = ground arith in rw e (sym (rw at at (gap_up x (y - x))))
  | inr e ↦ let at : y + (x - y) ≡ x = ground arith in rw e (sym (rw at at (gap_down y (x - y))))
]

color_distance-squared_distance : (c p : RgbColor) → color_distance c p ≡ squared_distance c p
unfolding color_distance
color_distance-squared_distance c p =
    let r = square_diff-square_gap c.r p.r in
    let g = square_diff-square_gap c.g p.g in
    let b = square_diff-square_gap c.b p.b in rw (r, g, b) (omega arith)

-- The state of the search behind the first `k` entries.
abbrev IsNearest : Format → RgbColor → ℕ → ℕ × ℕ → Type 0
IsNearest f c k (color, best) =
    ((i : ℕ) → i < k → best ≤ color_distance c (f.palette i))
    × (((k ≡ 0) × (best ≡ 4 * 256 * 256))
        ⊎ ((color < k)
            × (best ≡ color_distance c (f.palette color))
            × ((i : ℕ) → i < color → best < color_distance c (f.palette i))))

distance_bound : (c p : RgbColor) → IsColor c → IsColor p → color_distance c p < 4 * 256 * 256
unfolding color_distance
distance_bound c p hc hp =
    let r = square_diff_bound c.r p.r hc.0 hp.0 in
    let g = square_diff_bound c.g p.g hc.1 hp.1 in
    let b = square_diff_bound c.b p.b hc.2 hp.2 in omega arith

try_entry-IsNearest :
    (f : Format) (c : RgbColor) (k : ℕ) (st : ℕ × ℕ)
    → color_distance c (f.palette k) < 4 * 256 * 256
    → IsNearest f c k st
    → IsNearest f c (k + 1) (try_entry f c k st)
try_entry-IsNearest f c k (color, best) small (least, found) =
    elim (Bool-cases (ltb (color_distance c (f.palette k)) best)) [
      | inl e ↦ rw e (
        λ i lt. ground (arith, least i),
        inr (ground arith, refl, λ i lt. ground (arith, least i)),
      )
      | inr e ↦ rw e (
        λ i lt. ground (arith, least i),
        elim found [
          | inl none_yet ↦ absurd (ground arith)
          | inr (lt, at, first) ↦ inr (omega arith, at, first)
        ],
      )
    ]

-- For a palette that is not empty, with channels of a byte in it and in the colour: the index that
-- `svga_translate_rgb` gives on an indexed frame buffer is that of an entry; no entry has a
-- smaller squared distance to the colour in red, green and blue, and every entry before it has a
-- larger one.
pub translate_rgb-nearest :
    (scaled : ℕ → ℕ → ℕ) (f : Format) (c : RgbColor)
    → f.framebuffer_type ≡ 0
    → 0 < f.palette_num_colors
    → IsColor c
    → ((i : ℕ) → i < f.palette_num_colors → IsColor (f.palette i))
    → let found = svga_translate_rgb scaled f c in
      (found < f.palette_num_colors)
      × ((i : ℕ)
          → i < f.palette_num_colors
          → squared_distance c (f.palette found) ≤ squared_distance c (f.palette i))
      × ((i : ℕ)
          → i < found
          → squared_distance c (f.palette found) < squared_distance c (f.palette i))
unfolding svga_translate_rgb nearest_color
translate_rgb-nearest scaled f c indexed some_color hc hp =
    let n = f.palette_num_colors in
    let (least, found) =
      for_range_inv (IsNearest f c) (try_entry f c) n
        (λ k st lt inv.
          try_entry-IsNearest f c k st (distance_bound c (f.palette k) hc (hp k lt)) inv)
        n 0 (0, 4 * 256 * 256) (omega arith) (λ i lt. absurd (omega arith), inl (refl, refl)) in
    elim found [
      | inl (empty, e) ↦ absurd (omega arith)
      | inr (lt, at, first) ↦
          let same = λ (i : ℕ). color_distance-squared_distance c (f.palette i) in
          let at' = at ∙ same _ in
          rw indexed
            (lt, λ i h. rw (← at', ← same i) (least i h), λ i h. rw (← at', ← same i) (first i h))
    ]
