-- ===== src/Sudoku/Tests.antt =====
-- A1/sudoku_helpers.c: runs on concrete groups and puzzles, and instances of the theorems.
use csc.Common.{suc, ◌+◌, ◌*◌, ◌/◌, ◌%◌, ◌≡◌, refl, none, some, List, [], ◌∷◌, arith}
use csc.Int.{ℤ, pos}
use csc.Sudoku.{
  mark, mark_array, mark_arrays, verdict, check_group, Puzzle, rows, build_columns, build_boxes,
  build_2d_array, check_groups, check_regular_sudoku,
}
use csc.Sudoku.Groups.{Group}
use csc.Sudoku.Faults.{no_rows, more_rows, check_group-Group}
use csc.Sudoku.Valid.{Digits, Decides, check_regular_sudoku-Decides}

abbrev small : List (List ℤ)
small = (pos 1 ∷ pos 2 ∷ []) ∷ (pos 4 ∷ pos 3 ∷ []) ∷ []

abbrev twice : List (List ℤ)
twice = (pos 1 ∷ pos 2 ∷ []) ∷ (pos 4 ∷ pos 2 ∷ []) ∷ []

abbrev blank : List (List ℤ)
blank = (pos 1 ∷ pos 2 ∷ []) ∷ (pos 4 ∷ pos 0 ∷ []) ∷ []

small_is_complete : check_group small 2 ≡ some 0
unfolding check_group mark mark_array mark_arrays verdict
small_is_complete = refl

twice_is_not : check_group twice 2 ≡ some 1
unfolding check_group mark mark_array mark_arrays verdict
twice_is_not = refl

blank_faults : check_group blank 2 ≡ none
unfolding check_group mark mark_array mark_arrays verdict
blank_faults = refl

-- Each row is the one above it, turned by three; each band is turned by one more.
abbrev turned : Puzzle
turned r c = pos (suc ((3 * (r % 3) + r / 3 + c) % 9))

abbrev all_ones : Puzzle
all_ones r c = pos 1

turned_is_valid : check_regular_sudoku turned ≡ some 0
unfolding check_regular_sudoku check_groups build_2d_array rows build_columns build_boxes
    check_group mark mark_array mark_arrays verdict
turned_is_valid = refl

all_ones_is_not : check_regular_sudoku all_ones ≡ some 1
unfolding check_regular_sudoku check_groups build_2d_array rows build_columns build_boxes
    check_group mark mark_array mark_arrays verdict
all_ones_is_not = refl

check_group-Group_example : Group 4 2 small
check_group-Group_example =
    check_group-Group 2 small 0 refl (more_rows refl (more_rows refl no_rows)) small_is_complete

turned-Digits : Digits turned
turned-Digits r c p p' = ((3 * (r % 3) + r / 3 + c) % 9, omega arith, refl)

check_regular_sudoku-Decides_example : Decides turned (check_regular_sudoku turned)
check_regular_sudoku-Decides_example = check_regular_sudoku-Decides turned turned-Digits
