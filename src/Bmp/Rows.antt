-- ===== src/Bmp/Rows.antt =====
-- The size of a row in memory: it always exists, and it is compared with the format's.
use catch_os.Base.{ℕ, ◌+◌, ◌*◌, ◌/◌, ◌%◌, ◌^◌, ◌<◌, ◌≡◌, arith, some, ◌==◌, if◌then◌else◌}
use catch_os.Bmp.{Bmp, round_up, row_size}

-- Four rounds are enough.
round_up_lem : (n : ℕ) → n < 2 ^ 32 → round_up 4 n 4 ≡ some ((n + 3) / 4 * 4 % 2 ^ 32)
unfolding round_up
round_up_lem n lt = ground arith

pub row_size_exists : (bmp : Bmp) → (n : ℕ) × (row_size bmp ≡ some n)
unfolding row_size
row_size_exists bmp =
    let n = (bmp.bpp * bmp.w + 31) % 2 ^ 32 / 8 in (_, round_up_lem n (omega arith))

-- The bytes of a row of `bytes` bytes of pixels in the format: a multiple of four.
abbrev pub padded : ℕ → ℕ
padded bytes = (bytes + 3) / 4 * 4

-- For a picture of whole bytes for a pixel, with rows of fewer than 2 ^ 28 bytes: the computed
-- size of a row is the padded size of the format when the bytes of a row leave a remainder of 1 by
-- 4, and otherwise 4 bytes more.
pub row_size-padded :
    (bmp : Bmp) (bytes : ℕ)
    → bmp.bpp * bmp.w ≡ 8 * bytes
    → bytes < 2 ^ 28
    → row_size bmp ≡ some (padded bytes + (if bytes % 4 == 1 then 0 else 4))
unfolding row_size
row_size-padded bmp bytes e lt =
    rw (e, round_up_lem ((8 * bytes + 31) % 2 ^ 32 / 8) (omega arith)) (ground arith)
