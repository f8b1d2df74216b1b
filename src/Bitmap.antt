-- ===== src/Bitmap.antt =====
-- Lab5/bitmap.c: the pixels of a bitmap file. A file is its bytes, and `fseek` leaves those from the
-- position on. An `int` has 32 bits
-- and a sign, its lowest byte first; malloc does not fail.
pub mod Files
mod Tests
use csc.Common.{
  ℕ, zero, suc, ◌+◌, ◌-◌, ◌*◌, ◌>>=◌, Option, none, some, List, [], ◌∷◌, ltb, if◌then◌else◌, drop,
  Bytes,
}
use csc.Int.{ℤ, pos, negsuc}

pub record Pixel : Type 0 where
  pub blue : ℕ
  pub green : ℕ
  pub red : ℕ

-- The number that 32 bits stand for in an `int`.
unfoldable pub signed : ℕ → ℤ
signed n = if ltb n 2147483648 then pos n else negsuc (4294967295 - n)

-- fread(&n, sizeof(int), 1, image); `none` where the file ends first, when `n` is not set.
unfoldable pub read_int : Bytes → Option ℤ
read_int (a ∷ b ∷ c ∷ d ∷ image) = some (signed (a + 256 * b + 65536 * c + 16777216 * d))
read_int image = none

-- The offset of the pixel array, the width and the height.
unfoldable pub read_bitmap_metadata : Bytes → Option (ℤ × ℤ × ℤ)
read_bitmap_metadata image = read_int (drop 10 image) >>= λ offset.
    read_int (drop 18 image) >>= λ width.
    read_int (drop 22 image) >>= λ height. some (offset, width, height)

-- fread of one byte, which leaves the variable as it is at the end of the file
unfoldable pub read_byte : ℕ → Bytes → ℕ × Bytes
read_byte held [] = (held, [])
read_byte held (x ∷ image) = (x, image)

unfoldable pub read_pixel : Pixel → Bytes → Pixel × Bytes
read_pixel current image =
    let b = read_byte current.blue image in
    let g = read_byte current.green b.1 in
    let r = read_byte current.red g.1 in (record { blue = b.0; green = g.0; red = r.0 }, r.1)

-- The columns that are left of a row: its pixels, the last one read, and what is left of the file.
unfoldable pub read_row : ℕ → Pixel → Bytes → List Pixel × Pixel × Bytes
read_row zero current image = ([], current, image)
read_row (suc n) current image =
    let p = read_pixel current image in
    let rest = read_row n p.0 p.1 in (p.0 ∷ rest.0, rest.1, rest.2)

unfoldable pub read_rows : ℕ → ℕ → Pixel → Bytes → List (List Pixel)
read_rows zero width current image = []
read_rows (suc n) width current image =
    let row = read_row width current image in row.0 ∷ read_rows n width row.1 row.2

-- The rounds of `for (int i = 0; i < n; i++)`.
abbrev pub rounds : ℤ → ℕ
rounds (pos n) = n
rounds (negsuc n) = 0

-- fseek(image, offset, SEEK_SET) from a position: a negative offset fails and leaves the position.
unfoldable pub seek : ℕ → ℤ → ℕ
seek position (pos n) = n
seek position (negsuc n) = position

-- `unset` is what the variables hold before the first pixel, `position` where the file stands.
unfoldable pub read_pixel_array : Pixel → Bytes → ℕ → ℤ → ℤ → ℤ → List (List Pixel)
read_pixel_array unset image position pixel_array_offset width height =
    read_rows (rounds height) (rounds width) unset (drop (seek position pixel_array_offset) image)
