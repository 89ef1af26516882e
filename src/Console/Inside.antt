-- ===== src/Console/Inside.antt =====
-- Drawing stays inside the two buffers of the screen, and the cursor inside the screen.
use catch_os.Base.{
  mul_le_right, ℕ, zero, suc, ◌+◌, ◌-◌, ◌*◌, ◌/◌, ◌%◌, ◌^◌, ◌≤◌, ◌<◌, ◌≡◌, refl, ◌∙◌, arith, ◌⊎◌,
  inl, inr, Bool, Bool-cases, true, false, ltb, leb, if◌then◌else◌, Mem, update, for_range,
  for_range_inv,
}
use catch_os.Base.Words.{store32, store32-other}
use catch_os.Str.{memcpy, memset}
use catch_os.Str.Blocks.{memset_lem}
use catch_os.Console.{
  Svga, with_mem, pixel_at, svga_draw_pixel, svga_draw_rect, svga_draw_char, svga_scroll_down,
  svga_draw_char_cell,
}

-- The geometry that `svga_init` computes, at 32 bits for a pixel, with room for one cell at least.
pub record IsScreen (s : Svga) : Type 0 where
  pub columns : s.scr_columns ≡ s.scr_w / 8
  pub rows : s.scr_rows ≡ s.scr_h / 11
  pub some_column : 0 < s.scr_columns
  pub some_row : 0 < s.scr_rows
  pub deep : s.framebuffer_bpp ≡ 32
  pub wide : 4 * s.scr_w ≤ s.framebuffer_pitch
  pub front_fits : s.svga_lfb + s.framebuffer_pitch * s.scr_h ≤ 2 ^ 32
  pub back_fits : s.backbuffer + s.framebuffer_pitch * s.scr_h ≤ 2 ^ 32

-- `a` lies in neither of the two buffers.
abbrev pub IsOutside : Svga → ℕ → Type 0
IsOutside s a =
    ((a < s.svga_lfb) ⊎ (s.svga_lfb + s.framebuffer_pitch * s.scr_h ≤ a))
    × ((a < s.backbuffer) ⊎ (s.backbuffer + s.framebuffer_pitch * s.scr_h ≤ a))

-- `t` differs from `s` in bytes of the two buffers only.
abbrev pub Drawn : Svga → Svga → Type 0
Drawn s t = (m : Mem) × (t ≡ with_mem s m) × ((a : ℕ) → IsOutside s a → m a ≡ s.mem a)

memcpy-other :
    (m : Mem) (dst src len a : ℕ) → (a < dst) ⊎ (dst + len ≤ a) → memcpy m dst src len a ≡ m a
unfolding memcpy
memcpy-other m dst src zero a h = refl
memcpy-other m dst src (suc len) a h =
    ground (arith, memcpy-other (update m dst (m src)) (dst + 1) (src + 1) len a)

memset-other :
    (m : Mem) (dst c len a : ℕ) → (a < dst) ⊎ (dst + len ≤ a) → memset m dst c len a ≡ m a
memset-other m dst c len a h = memset_lem m dst c len a ∙ ground arith

quotient_below : (q c r : ℕ) → q * c < r * c → q < r
quotient_below q c r h = elim (Bool-cases (leb r q)) [
  | inl e ↦ (let m = mul_le_right c r q (ground arith) in absurd (omega arith))
  | inr e ↦ ground arith
]

Drawn-self : (s : Svga) → Drawn s s
unfolding with_mem
Drawn-self s = (s.mem, refl, λ a o. refl)

if_Drawn : (s : Svga) (b : Bool) (t u : Svga) → Drawn s t → Drawn s u → Drawn s (if b then t else u)
if_Drawn s true t u dt du = dt
if_Drawn s false t u dt du = du

module _ (s : Svga) (v : IsScreen s) where
  -- The last byte of a pixel lies in the buffer.
  pixel_end :
      (x y : ℕ)
      → x < s.scr_w
      → y < s.scr_h
      → s.framebuffer_pitch * y + 4 * x + 4 ≤ s.framebuffer_pitch * s.scr_h
  pixel_end x y hx hy =
      let row = mul_le_right s.framebuffer_pitch (y + 1) s.scr_h (omega arith) in
      let w = v.wide in
      let e : s.framebuffer_pitch * (y + 1) ≡ s.framebuffer_pitch * y + s.framebuffer_pitch =
        ground arith in
      omega arith

  draw_pixel-Drawn :
      (t : Svga) (x y color : ℕ)
      → Drawn s t
      → x < s.scr_w
      → y < s.scr_h
      → Drawn s (svga_draw_pixel t x y color)
  unfolding svga_draw_pixel with_mem
  draw_pixel-Drawn t x y color (m, e, same) hx hy =
      let end = pixel_end x y hx hy in
      let f = pixel_at s s.svga_lfb 4 x y in
      let b = pixel_at s s.backbuffer 4 x y in
      let front = v.front_fits in
      let back = v.back_fits in
      (
        store32 (store32 m f color) b color,
        rw (e, v.deep) refl,
        λ a o.
            (store32-other (store32 m f color) b color a (ground arith)
              ∙ store32-other m f color a (ground arith)
              ∙ same a o),
      )

  draw_rect_row :
      (x1 x2 y color : ℕ) (t : Svga)
      → Drawn s t
      → x1 ≤ x2
      → x2 ≤ s.scr_w
      → y < s.scr_h
      → Drawn s (for_range (x2 - x1) x1 (λ x u. svga_draw_pixel u x y color) t)
  draw_rect_row x1 x2 y color t d lo hi hy =
      for_range_inv (λ x u. Drawn s u) (λ x u. svga_draw_pixel u x y color) x2
        (λ x u lt du. draw_pixel-Drawn u x y color du (omega arith) hy) (x2 - x1) x1 t (omega arith)
        d

  -- On a screen of 32 bits for a pixel, `svga_draw_rect` of a rectangle inside the screen writes
  -- to no byte outside the two buffers.
  draw_rect-Drawn :
      (x1 y1 x2 y2 color : ℕ)
      → x1 ≤ x2
      → x2 ≤ s.scr_w
      → y1 ≤ y2
      → y2 ≤ s.scr_h
      → Drawn s (svga_draw_rect s x1 y1 x2 y2 color)
  unfolding svga_draw_rect
  draw_rect-Drawn x1 y1 x2 y2 color hx1 hx2 hy1 hy2 =
      for_range_inv (λ y t. Drawn s t)
        (λ y t. for_range (x2 - x1) x1 (λ x u. svga_draw_pixel u x y color) t) y2
        (λ y t lt d. draw_rect_row x1 x2 y color t d hx1 hx2 (omega arith)) (y2 - y1) y1 s
        (omega arith) (Drawn-self s)

  draw_char-Drawn :
      (t : Svga) (x y bitmap color : ℕ)
      → Drawn s t
      → x + 8 ≤ s.scr_w
      → y + 9 ≤ s.scr_h
      → Drawn s (svga_draw_char t x y bitmap color)
  unfolding svga_draw_char
  draw_char-Drawn t x y bitmap color d hx hy =
      for_range_inv (λ yy t. Drawn s t) _ 9
        (λ yy t lt d.
          for_range_inv (λ xx u. Drawn s u) _ 8
            (λ xx u lx du.
              if_Drawn s _ u _ du
                (draw_pixel-Drawn u (x + xx) (y + yy) color du (omega arith) (omega arith)))
            8 0 t refl d)
        9 0 t refl d

  pub scroll_down-Drawn : (lines : ℕ) → Drawn s (svga_scroll_down s lines)
  unfolding svga_scroll_down
  scroll_down-Drawn lines = (
    _,
    refl,
    λ a o.
        (let size = s.framebuffer_pitch * s.scr_h in
          let e : s.scr_h * s.framebuffer_pitch ≡ size = ground arith in
          let tall : 11 ≤ s.scr_h = omega (arith, v.rows, v.some_row) in
          let row = mul_le_right s.framebuffer_pitch 11 s.scr_h tall in
          memcpy-other _ s.svga_lfb _ _ a (ground arith)
          ∙ memset-other _ _ 0 _ a (ground arith)
          ∙ memcpy-other s.mem s.backbuffer _ _ a (ground arith)),
  )

  -- A position on the screen is the position of a whole cell.
  cell_fits :
      (at : ℕ)
      → at < s.scr_rows * s.scr_columns
      → (8 * (at % s.scr_columns) + 8 ≤ s.scr_w) × (11 * (at / s.scr_columns) + 9 ≤ s.scr_h)
  cell_fits at lt =
      let some = v.some_column in
      let below : at / s.scr_columns * s.scr_columns ≤ at = ground arith in
      let row : at / s.scr_columns < s.scr_rows =
        quotient_below (at / s.scr_columns) s.scr_columns s.scr_rows (ground arith) in
      let column : at % s.scr_columns < s.scr_columns = ground arith in
      (omega (arith, v.columns), omega (arith, v.rows))

  -- On a screen of 32 bits for a pixel and of fewer than 2 ^ 31 cells, with the cursor on the
  -- screen or just behind its last cell: after `svga_draw_char_cell`, scrolling included, the
  -- cursor is behind a cell of the screen, and no byte outside the two buffers has changed.
  pub draw_char_cell-Drawn :
      (scrpos bitmap color : ℕ)
      → scrpos ≤ s.scr_rows * s.scr_columns
      → s.scr_rows * s.scr_columns < 2 ^ 31
      → let (next, t) = svga_draw_char_cell s scrpos bitmap color in
        (0 < next) × (next ≤ s.scr_rows * s.scr_columns) × Drawn s t
  unfolding svga_draw_char_cell
  draw_char_cell-Drawn scrpos bitmap color on small =
      let cells = s.scr_rows * s.scr_columns in
      let full = ltb cells ((scrpos + 1) % 2 ^ 32) in
      let at : ℕ = if full then (scrpos + 2 ^ 32 - s.scr_columns) % 2 ^ 32 else scrpos in
      let room : s.scr_columns ≤ cells =
        (let m = mul_le_right s.scr_columns 1 s.scr_rows (omega (arith, v.some_row)) in
          omega arith) in
      let some = v.some_column in
      let lt : at < cells = ground arith in
      let fits = cell_fits at lt in
      (
        ground arith,
        ground arith,
        draw_char-Drawn _ _ _ bitmap color
            (if_Drawn s full _ s (scroll_down-Drawn 1) (Drawn-self s)) fits.0 fits.1,
      )
