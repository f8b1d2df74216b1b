-- ===== src/Sudoku.antt =====
-- A1/sudoku_helpers.c: the check of a 9x9 sudoku. A puzzle is a function of row and column, read at
-- 0 to 8 only; the arrays that are filled in order are lists. `none` is an access outside an array.
pub mod Groups
pub mod Faults
pub mod Valid
mod Tests
use csc.Common.{
  ℕ, zero, suc, ◌+◌, ◌*◌, ◌>>=◌, Option, none, some, List, [], ◌∷◌, ◌++◌, map, ltb, ◌==◌,
  if◌then◌else◌, length, get_or, set, take, drop, replicate,
}
use csc.Int.{ℤ, pos, negsuc}

-- `current_number - 1` as an index
abbrev pub digit_index : ℤ → Option ℕ
digit_index (pos zero) = none
digit_index (pos (suc k)) = some k
digit_index (negsuc k) = none

abbrev pub mark_at : List ℕ → Option ℕ → Option (List ℕ)
mark_at is_all_unique none = none
mark_at is_all_unique (some k) =
    if ltb k (length is_all_unique)
    then some (if get_or is_all_unique k 0 == 0 then set is_all_unique k 1 else is_all_unique)
    else none

-- One round of the inner loop of `check_group`.
unfoldable pub mark : List ℕ → ℤ → Option (List ℕ)
mark is_all_unique current_number = mark_at is_all_unique (digit_index current_number)

-- The inner loop: rounds left, and the rest of the array.
unfoldable pub mark_array : ℕ → List ℤ → List ℕ → Option (List ℕ)
mark_array zero xs is_all_unique = some is_all_unique
mark_array (suc n) [] is_all_unique = none
mark_array (suc n) (x ∷ xs) is_all_unique = mark is_all_unique x >>= mark_array n xs

-- The outer loop: rounds left, and the rest of the arrays.
unfoldable pub mark_arrays : ℕ → ℕ → List (List ℤ) → List ℕ → Option (List ℕ)
mark_arrays n zero xss is_all_unique = some is_all_unique
mark_arrays n (suc m) [] is_all_unique = none
mark_arrays n (suc m) (xs ∷ xss) is_all_unique =
    mark_array n xs is_all_unique >>= mark_arrays n m xss

-- The loop that looks for a value not seen.
unfoldable pub verdict : List ℕ → ℕ
verdict [] = 0
verdict (x ∷ xs) = let rest = verdict xs in if x == 0 then 1 else rest

unfoldable pub check_group : List (List ℤ) → ℕ → Option ℕ
check_group elements n =
    mark_arrays n n elements (replicate (n * n) 0) >>= λ is_all_unique. some (verdict is_all_unique)

abbrev pub Puzzle : Type 0
Puzzle = ℕ → ℕ → ℤ

-- for (i = start; i < start + n; i++)
abbrev pub range : ℕ → ℕ → List ℕ
range start zero = []
range start (suc n) = start ∷ range (start + 1) n

abbrev pub nine : List ℕ
nine = range 0 9

-- `puzzle[row]`, for each row
unfoldable pub rows : Puzzle → List (List ℤ)
rows puzzle = map (λ row. map (λ col. puzzle row col) nine) nine

unfoldable pub build_columns : Puzzle → List (List ℤ)
build_columns puzzle = map (λ row. map (λ col. puzzle col row) nine) nine

abbrev pub concat_map {ℓ ℓ'} : {A : Type ℓ} {B : Type ℓ'} → (A → List B) → List A → List B
concat_map f [] = []
concat_map f (x ∷ xs) = f x ++ concat_map f xs

-- Each box is written at the next index, its cells at the next `z`.
unfoldable pub build_boxes : Puzzle → List (List ℤ)
build_boxes puzzle =
    concat_map
      (λ starting_row.
        map
          (λ starting_col.
            concat_map (λ r. map (λ c. puzzle r c) (range starting_col 3)) (range starting_row 3))
          (0 ∷ 3 ∷ 6 ∷ []))
      (0 ∷ 3 ∷ 6 ∷ [])

unfoldable pub build_2d_array : List ℤ → List (List ℤ)
build_2d_array group = take 3 group ∷ take 3 (drop 3 group) ∷ take 3 (drop 6 group) ∷ []

-- `if (error_flag == 1) return 1`, and on
abbrev pub and_then : Option ℕ → Option ℕ → Option ℕ
and_then none next = none
and_then (some error_flag) next = if error_flag == 1 then some 1 else next

-- One of the three loops: 1 at the first group that is not complete.
unfoldable pub check_groups : List (List ℤ) → Option ℕ
check_groups [] = some 0
check_groups (g ∷ gs) =
    let rest = check_groups gs in and_then (check_group (build_2d_array g) 3) rest

unfoldable pub check_regular_sudoku : Puzzle → Option ℕ
check_regular_sudoku puzzle =
    and_then (check_groups (rows puzzle))
      (and_then (check_groups (build_columns puzzle)) (check_groups (build_boxes puzzle)))
