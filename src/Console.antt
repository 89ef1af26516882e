-- ===== src/Console.antt =====
-- kernel/drivers/svga.c: the text console on a linear frame buffer, with a back buffer in memory.
-- Positions and colours wrap at 32 bits; the products of the screen's dimensions are taken to fit.
pub mod Colour
pub mod Cursor
pub mod Inside
use catch_os.Base.{
  ℕ, ◌+◌, ◌-◌, ◌*◌, ◌/◌, ◌%◌, ◌^◌, Bool, true, false, ◌==◌, ◌||◌, ltb, if◌then◌else◌, Mem, List, [],
  ◌∷◌, take, length, update, for_range, bit_and, bit_or, ℤ, pos, negsuc,
}
use catch_os.Base.Words.{store8, store16, store32, load32}
use catch_os.Bitmap.{bitmap_get_bit_reverse}
use catch_os.Str.{memcpy, memset}

-- FONT_W, FONT_H
abbrev pub font_w : ℕ
font_w = 8

abbrev pub font_h : ℕ
font_h = 9

-- The static variables of the file, the fields of `_tagfb` that drawing reads, and the memory.
pub record Svga : Type 0 where
  pub scr_w : ℕ
  pub scr_h : ℕ
  pub scr_columns : ℕ
  pub scr_rows : ℕ
  pub svga_lfb : ℕ
  pub backbuffer : ℕ
  pub framebuffer_pitch : ℕ
  pub framebuffer_bpp : ℕ
  pub mem : Mem

unfoldable pub with_mem : Svga → Mem → Svga
with_mem s mem = record s { mem = mem }

-- The address of a pixel of `size` bytes.
abbrev pub pixel_at : Svga → ℕ → ℕ → ℕ → ℕ → ℕ
pixel_at s buffer size x y = (buffer + s.framebuffer_pitch * y + size * x) % 2 ^ 32

unfoldable pub svga_draw_pixel : Svga → ℕ → ℕ → ℕ → Svga
svga_draw_pixel s x y color =
    let front = λ (size : ℕ). pixel_at s s.svga_lfb size x y in
    let back = λ (size : ℕ). pixel_at s s.backbuffer size x y in
    if s.framebuffer_bpp == 8
    then with_mem s (store8 (store8 s.mem (front 1) color) (back 1) color)
    else if s.framebuffer_bpp == 15 || s.framebuffer_bpp == 16
    then with_mem s (store16 (store16 s.mem (front 2) color) (back 2) color)
    else if s.framebuffer_bpp == 24
    then (let kept = bit_and (load32 s.mem (front 3)) 0xff000000 in
        with_mem s
          (store32 (store32 s.mem (front 3) (bit_or (bit_and color 0xffffff) kept)) (back 3) color))
    else if s.framebuffer_bpp == 32
    then with_mem s (store32 (store32 s.mem (front 4) color) (back 4) color)
    else s

unfoldable pub svga_draw_rect : Svga → ℕ → ℕ → ℕ → ℕ → ℕ → Svga
svga_draw_rect s x1 y1 x2 y2 color =
    for_range (y2 - y1) y1 (λ y t. for_range (x2 - x1) x1 (λ x u. svga_draw_pixel u x y color) t) s

-- `bitmap` is what `font_get_char` gives for the character.
abbrev is_zero : ℤ → Bool
is_zero (pos n) = n == 0
is_zero (negsuc n) = false

unfoldable pub svga_draw_char : Svga → ℕ → ℕ → ℕ → ℕ → Svga
svga_draw_char s x y bitmap color =
    for_range font_h 0
      (λ yy t.
        for_range font_w 0
          (λ xx u.
            if is_zero (bitmap_get_bit_reverse u.mem bitmap (yy * font_w + xx))
            then u
            else svga_draw_pixel u (x + xx) (y + yy) color)
          t)
      s

unfoldable pub svga_flush_lfb : Svga → Svga
svga_flush_lfb s = with_mem s (memcpy s.mem s.svga_lfb s.backbuffer (s.scr_h * s.framebuffer_pitch))

unfoldable pub svga_scroll_down : Svga → ℕ → Svga
svga_scroll_down s lines =
    let lines = if ltb s.scr_rows lines then s.scr_rows else lines in
    let line_size = s.framebuffer_pitch in
    let fb_size = s.scr_h * line_size in
    let row_size = line_size * (font_h + 2) in
    let m1 = memcpy s.mem s.backbuffer (s.backbuffer + lines * row_size) (fb_size - line_size) in
    let m2 = memset m1 (s.backbuffer + fb_size - row_size) 0 row_size in
    with_mem s (memcpy m2 s.svga_lfb s.backbuffer fb_size)

-- The position behind the character, and the screen.
unfoldable pub svga_draw_char_cell : Svga → ℕ → ℕ → ℕ → ℕ × Svga
svga_draw_char_cell s scrpos bitmap color =
    let full = ltb (s.scr_rows * s.scr_columns) ((scrpos + 1) % 2 ^ 32) in
    let t = if full then svga_scroll_down s 1 else s in
    let at = if full then (scrpos + 2 ^ 32 - s.scr_columns) % 2 ^ 32 else scrpos in
    let y = at / s.scr_columns in
    let x = at % s.scr_columns in
    ((at + 1) % 2 ^ 32, svga_draw_char t (font_w * x) ((font_h + 2) * y) bitmap color)

unfoldable pub svga_clr_cell : Svga → ℕ → ℕ → ℕ → ℕ × Svga
svga_clr_cell s scrpos bitmap255 black = svga_draw_char_cell s scrpos bitmap255 black

unfoldable pub svga_clr_scr : Svga → ℕ → Svga
svga_clr_scr s black = svga_draw_rect s 0 0 s.scr_w s.scr_h black

-- kernel/utils/maths.c: it rounds to the nearest.
abbrev pub ceiling : ℕ → ℕ → ℕ
ceiling dividend divisor = (dividend + divisor / 2) / divisor

-- The characters of a string one by one, by their glyphs.
unfoldable pub draw_cells : Svga → ℕ → List ℕ → ℕ → ℕ × Svga
draw_cells s scrpos [] color = (scrpos, s)
draw_cells s scrpos (bitmap ∷ bitmaps) color =
    let (at, t) = svga_draw_char_cell s scrpos bitmap color in draw_cells t at bitmaps color

-- `glyphs` stands for the `len` characters, `mark` for the glyph of `x`.
unfoldable pub svga_write_str : Svga → List ℕ → ℕ → ℕ → ℕ → ℕ × Svga
svga_write_str s glyphs scrpos mark color =
    let cells = s.scr_rows * s.scr_columns in
    if ltb cells (scrpos + length glyphs)
    then (let shown = take cells glyphs in
        let lines = ceiling (scrpos + length shown - cells) s.scr_columns in
        let back = (scrpos + 2 ^ 32 - lines * s.scr_columns) % 2 ^ 32 in
        let (at, t) = svga_draw_char_cell (svga_scroll_down s lines) back mark color in
        draw_cells t at shown color)
    else draw_cells s scrpos glyphs color
