-- ===== src/Syscall.antt =====
-- kernel/sys/syscall.c: what user programs ask of the kernel, the screen most of all, and the
-- handler of the interrupt of system calls.
use catch_os.Base.{ℕ, ◌==◌, if◌then◌else◌, List, map}
use catch_os.Console.{
  Svga, svga_draw_char_cell, svga_clr_cell, svga_clr_scr, svga_scroll_down, svga_draw_rect,
  svga_write_str,
}
use catch_os.Console.Colour.{RgbColor, Format, svga_translate_rgb, font_get_char}

-- The screen with its colours, the font's address, and `brush`; `scaled` is the product of
-- floating-point numbers in `svga_translate_rgb`.
pub record Display : Type 0 where
  pub screen : Svga
  pub format : Format
  pub font : ℕ
  pub scaled : ℕ → ℕ → ℕ
  pub brush : RgbColor

abbrev pub with_screen : Display → Svga → Display
with_screen d s = record d { screen = s }

-- The static `black` of svga.c.
abbrev pub black : RgbColor
black = record { r = 0; g = 0; b = 0 }

abbrev pub brush_color : Display → ℕ
brush_color d = svga_translate_rgb d.scaled d.format d.brush

abbrev pub black_color : Display → ℕ
black_color d = svga_translate_rgb d.scaled d.format black

abbrev pub syscall_fb_get_scr_cols : Display → ℕ
syscall_fb_get_scr_cols d = d.screen.scr_columns

abbrev pub syscall_fb_get_scr_rows : Display → ℕ
syscall_fb_get_scr_rows d = d.screen.scr_rows

abbrev pub syscall_fb_scroll_down : ℕ → Display → Display
syscall_fb_scroll_down lines d = with_screen d (svga_scroll_down d.screen lines)

abbrev pub syscall_fb_write_chr : ℕ → ℕ → Display → ℕ × Display
syscall_fb_write_chr c scrpos d =
    let (next, s) = svga_draw_char_cell d.screen scrpos (font_get_char d.font c) (brush_color d) in
    (next, with_screen d s)

-- The characters of the string are a list; `x` marks the scrolled line.
abbrev pub syscall_fb_write_str : List ℕ → ℕ → Display → ℕ × Display
syscall_fb_write_str str scrpos d =
    let glyphs = map (font_get_char d.font) str in
    let (next, s) =
      svga_write_str d.screen glyphs scrpos (font_get_char d.font b'x') (brush_color d) in
    (next, with_screen d s)

abbrev pub syscall_fb_brush_set_color : ℕ → ℕ → ℕ → Display → Display
syscall_fb_brush_set_color r g b d = record d { brush = record { r = r; g = g; b = b } }

abbrev pub syscall_fb_draw_rect : ℕ → ℕ → ℕ → ℕ → Display → Display
syscall_fb_draw_rect x1 y1 x2 y2 d =
    with_screen d (svga_draw_rect d.screen x1 y1 x2 y2 (brush_color d))

abbrev pub syscall_fb_clr_cell : ℕ → Display → ℕ × Display
syscall_fb_clr_cell scrpos d =
    let (next, s) = svga_clr_cell d.screen scrpos (font_get_char d.font 255) (black_color d) in
    (next, with_screen d s)

abbrev pub syscall_fb_clr_scr : Display → Display
syscall_fb_clr_scr d = with_screen d (svga_clr_scr d.screen (black_color d))

-- The number in `eax` and the argument in `ecx`.
pub record CpuState : Type 0 where
  pub eax : ℕ
  pub ecx : ℕ

-- The return register, with the state `A` of the allocator, of which `mmap` and `munmap` are the
-- operations.
unfoldable pub syscall_handler {ℓ} :
    {A : Type ℓ} → (ℕ → A → ℕ × A) → (ℕ → A → A) → CpuState → ℕ × A → ℕ × A
syscall_handler mmap munmap cpu (return_reg, a) =
    if cpu.eax == 2
    then mmap cpu.ecx a
    else if cpu.eax == 3
    then (return_reg, munmap cpu.ecx a)
    else (return_reg, a)
