-- ===== src/Bitmap/Tests.antt =====
-- Lab5/bitmap.c on a file with two rows of one pixel.
use csc.Common.{ℕ, ◌≡◌, refl, some, List, [], ◌∷◌, ◌++◌, replicate, Bytes}
use csc.Int.{negsuc}
use csc.Bitmap.{Pixel, signed, read_int}
use csc.Bitmap.Files.{head_bytes, array_bytes}

abbrev pixel : ℕ → ℕ → ℕ → Pixel
pixel b g r = record { blue = b; green = g; red = r }

abbrev two_rows : List (List Pixel)
two_rows = (pixel 1 2 3 ∷ []) ∷ (pixel 255 0 9 ∷ []) ∷ []

abbrev ten_bytes : Bytes
ten_bytes = 66 ∷ 77 ∷ replicate 8 0

abbrev small_file : Bytes
small_file =
    head_bytes ten_bytes (replicate 4 40) 28 1 2 ++ (7 ∷ 7 ∷ [] ++ (array_bytes two_rows ++ 5 ∷ []))

minus_two : read_int (254 ∷ 255 ∷ 255 ∷ 255 ∷ []) ≡ some (negsuc 1)
unfolding read_int signed
minus_two = refl
