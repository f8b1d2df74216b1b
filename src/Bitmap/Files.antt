-- ===== src/Bitmap/Files.antt =====
-- Lab5/bitmap.c: what is read from a file in the format of bitmaps.
use csc.Common.{ℕ, ◌/◌, ◌%◌, ◌≡◌, List, [], ◌∷◌, ◌++◌, length, Bytes}
use csc.Bitmap.{Pixel}

-- The bytes of the pixels, row by row, and of an `int`.
abbrev pub row_bytes : List Pixel → Bytes
row_bytes [] = []
row_bytes (p ∷ row) = p.blue ∷ p.green ∷ p.red ∷ row_bytes row

abbrev pub array_bytes : List (List Pixel) → Bytes
array_bytes [] = []
array_bytes (row ∷ rows) = row_bytes row ++ array_bytes rows

abbrev pub int_bytes : ℕ → Bytes
int_bytes n = n % 256 ∷ n / 256 % 256 ∷ n / 65536 % 256 ∷ n / 16777216 % 256 ∷ []

abbrev pub AllWide : ℕ → List (List Pixel) → Type 0
AllWide width [] = Unit {0}
AllWide width (row ∷ rows) = (length row ≡ width) × AllWide width rows

row_end : (row : List Pixel) (current : Pixel) → Pixel
row_end [] current = current
row_end (p ∷ row) current = row_end row p

-- What stands in front of the gap before the pixels: ten bytes, the offset, four bytes, the width and
-- the height.
abbrev pub head_bytes : Bytes → Bytes → ℕ → ℕ → ℕ → Bytes
head_bytes start middle offset width height =
    start ++ (int_bytes offset ++ (middle ++ (int_bytes width ++ int_bytes height)))
