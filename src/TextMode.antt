-- ===== src/TextMode.antt =====
-- kernel/drivers/vga_legacy_textmode.c: the text screen of 80 by 24 cells at 0xB8000.
pub mod Cells
use catch_os.Base.{
  ℕ, ◌+◌, ◌-◌, ◌*◌, ◌/◌, ◌%◌, ◌^◌, ltb, if◌then◌else◌, Mem, List, [], ◌∷◌, length, update,
  for_range, bit_and, bit_or,
}
use catch_os.Str.{memcpy, memset}
use catch_os.Drivers.{Writes, outb}

abbrev pub fb_black : ℕ
fb_black = 0x0

abbrev pub fb_white : ℕ
fb_white = 0xf

abbrev pub scr_w : ℕ
scr_w = 80

abbrev pub scr_h : ℕ
scr_h = 24

abbrev pub scr_size : ℕ
scr_size = scr_w * scr_h

abbrev pub fb : ℕ
fb = 0xB8000

unfoldable pub write_cell : Mem → ℕ → ℕ → ℕ → ℕ → Mem
write_cell mem scrpos c fg bg =
    update (update mem (fb + scrpos) (c % 256)) (fb + scrpos + 1)
      (bit_or (bit_and fg 0xf * 2 ^ 4) (bit_and bg 0xf))

abbrev pub move_cursor : ℕ → Writes → Writes
move_cursor scrpos out =
    let out = outb 0x3d4 14 out in
    let out = outb 0x3d5 (bit_and (scrpos / 2 ^ 8) 0x00ff) out in
    let out = outb 0x3d4 15 out in outb 0x3d5 (bit_and scrpos 0x00ff) out

-- `buf` is the address of the static buffer.
unfoldable pub scroll_down : ℕ → Mem → ℕ → Mem
scroll_down buf mem line_count =
    let line_count = if ltb scr_h line_count then scr_h else line_count in
    let m1 = memset mem buf 0 (scr_size * 2) in
    let m2 = memcpy m1 buf (fb + line_count * scr_w * 2) (scr_size * 2) in
    memcpy m2 fb buf (scr_size * 2)

-- The position behind the character, and the memory.
unfoldable pub write_chr : ℕ → Mem → ℕ → ℕ → ℕ × Mem
write_chr buf mem c scrpos =
    let full = ltb scr_size ((scrpos + 1) % 2 ^ 32) in
    let m = if full then scroll_down buf mem 1 else mem in
    let at = if full then (scrpos + 2 ^ 32 - scr_w) % 2 ^ 32 else scrpos in
    ((at + 1) % 2 ^ 32, write_cell m (at * 2 % 2 ^ 32) c fb_black fb_white)

-- The loop of `write_str` and `write_cstr` over their characters.
abbrev pub write_cells : Mem → List ℕ → ℕ → Mem
write_cells mem [] cur_pos = mem
write_cells mem (c ∷ cs) cur_pos =
    write_cells (write_cell mem cur_pos c fb_black fb_white) cs (cur_pos + 2)

unfoldable pub write_str : ℕ → Mem → List ℕ → ℕ → ℕ × Mem
write_str buf mem str scrpos =
    let over = ltb scr_size (scrpos + length str) in
    let lines_to_scroll = (scrpos + length str - scr_size) / scr_w + 1 in
    let at = if over then (scrpos + 2 ^ 32 - lines_to_scroll * scr_w) % 2 ^ 32 else scrpos in
    let m =
      if over
      then write_cell (scroll_down buf mem lines_to_scroll) (at * 2 % 2 ^ 32) 120 fb_black fb_white
      else mem in
    ((at + length str) % 2 ^ 32, write_cells m str (at * 2 % 2 ^ 32))

abbrev pub write_cstr : Mem → List ℕ → ℕ → Mem
write_cstr mem str scrpos = write_cells mem str (scrpos * 2)

-- `i` goes up by two.
unfoldable pub clr_screen : Mem → ℕ → Mem
clr_screen mem bg = for_range (scr_w * scr_h / 2) 0 (λ k m. write_cell m (2 * k) 0 bg bg) mem
