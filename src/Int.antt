-- ===== src/Int.antt =====
-- The signed numbers of the C `int`, for A1/sudoku.c and Lab5/bitmap.c.
use csc.Common.{ℕ}

-- A C `int`.
pub data ℤ : Type 0 where
  pos : ℕ → ℤ
  negsuc : ℕ → ℤ
