-- ===== src/TextMode/Cells.antt =====
-- The cell that a character gets, and the cursor.
use catch_os.Base.{ℕ, ◌+◌, ◌-◌, ◌*◌, ◌%◌, ◌≤◌, ◌<◌, ◌≡◌, arith, Mem}
use catch_os.TextMode.{write_chr, write_cell, scr_size, fb}

-- With the cursor on the text screen or just behind its last cell, `write_chr` leaves the cursor
-- behind a cell of the screen, and that cell has the character and the attribute byte 0x0f.
write_chr-cell :
    (buf : ℕ) (mem : Mem) (c scrpos : ℕ)
    → scrpos ≤ scr_size
    → let (next, m) = write_chr buf mem c scrpos in
      (0 < next)
      × (next ≤ scr_size)
      × (m (fb + 2 * (next - 1)) ≡ c % 256)
      × (m (fb + 2 * (next - 1) + 1) ≡ 0x0f)
unfolding write_chr write_cell
write_chr-cell buf mem c scrpos on = (ground arith, ground arith, ground arith, ground arith)
