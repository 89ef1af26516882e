-- ===== src/Console/Cursor.antt =====
-- Where `svga_draw_char_cell` leaves the cursor, and that drawing keeps the geometry.
use catch_os.Base.{
  ℕ, ◌+◌, ◌-◌, ◌*◌, ◌^◌, ◌≤◌, ◌<◌, ◌≡◌, arith, Mem, ltb, if◌then◌else◌, mul_le_right,
}
use catch_os.Console.{Svga, with_mem, svga_draw_char_cell}
use catch_os.Console.Inside.{IsScreen, IsOutside, draw_char_cell-Drawn}

pub IsScreen-with_mem : (s : Svga) (m : Mem) → IsScreen s → IsScreen (with_mem s m)
unfolding with_mem
IsScreen-with_mem s m v = record {
  columns = v.columns;
  rows = v.rows;
  some_column = v.some_column;
  some_row = v.some_row;
  deep = v.deep;
  wide = v.wide;
  front_fits = v.front_fits;
  back_fits = v.back_fits;
}

-- The cells of the screen.
abbrev pub cells : Svga → ℕ
cells s = s.scr_rows * s.scr_columns

-- The line that scrolling takes off is no longer than the screen.
pub columns_fit : (s : Svga) → IsScreen s → s.scr_columns ≤ cells s
columns_fit s v =
    let m = mul_le_right s.scr_columns 1 s.scr_rows (omega (arith, v.some_row)) in omega arith

-- Behind the cell, one further, or at the start of the last line.
abbrev pub next_cell : Svga → ℕ → ℕ
next_cell s at = if ltb at (cells s) then at + 1 else cells s - s.scr_columns + 1

next_cell_lem :
    (s : Svga) (m : Mem) (at bitmap color : ℕ)
    → IsScreen s
    → at ≤ cells s
    → cells s < 2 ^ 31
    → (svga_draw_char_cell (with_mem s m) at bitmap color).0 ≡ next_cell s at
unfolding with_mem svga_draw_char_cell
next_cell_lem s m at bitmap color v on small =
    let room = columns_fit s v in let some = v.some_column in ground arith

-- On a screen with any memory in place of its own, `svga_draw_char_cell` leaves the cursor at
-- `next_cell`, and the memory outside the two buffers as it was.
pub char_cell-next :
    (s : Svga) (m : Mem) (at bitmap color : ℕ)
    → IsScreen s
    → at ≤ cells s
    → cells s < 2 ^ 31
    → (m' : Mem) × (svga_draw_char_cell (with_mem s m) at bitmap color
        ≡ (next_cell s at, with_mem s m'))
      × ((a : ℕ) → IsOutside s a → m' a ≡ m a)
unfolding with_mem
char_cell-next s m at bitmap color v on small =
    let (some_next, le, (m', e, same)) =
      draw_char_cell-Drawn (with_mem s m) (IsScreen-with_mem s m v) at bitmap color on small in
    let first = next_cell_lem s m at bitmap color v on small in (m', λ i. (first i, e i), same)
