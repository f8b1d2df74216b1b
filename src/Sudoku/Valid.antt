-- ===== src/Sudoku/Valid.antt =====
-- A1/sudoku_helpers.c: `check_regular_sudoku` decides whether a puzzle of digits is solved.
use csc.Common.{
  ℕ, zero, suc, ◌+◌, ◌*◌, ◌/◌, ◌%◌, ◌≤◌, ◌<◌, ◌≡◌, refl, sym, ap, subst, ◌∙◌, ◌≢◌, ◌⊎◌, inl, inr,
  true, false, Option, some, map, arith, ◌==◌, ==_iff, Bool-cases,
}
use csc.Int.{ℤ, pos}
use csc.Sudoku.{
  check_group, Puzzle, range, nine, rows, build_columns, build_boxes, build_2d_array, check_groups,
  check_regular_sudoku, and_then,
}
use csc.Sudoku.Groups.{
  is_value, occurs, InRange, nobody, and_also, no_arrays, more_arrays, Verdict, complete,
  incomplete, check_group-Verdict,
}

-- Every row of the grid holds every digit; `d` stands for the digit `d + 1`.
abbrev pub Solved : Puzzle → Type 0
Solved q = (r d : ℕ) → r < 9 → d < 9 → (c : ℕ) × (c < 9) × (q r c ≡ pos (suc d))

-- Some row of the grid lacks some digit.
abbrev pub Unsolved : Puzzle → Type 0
Unsolved q = (r : ℕ) × (d : ℕ) × (r < 9) × (d < 9) × ((c : ℕ) → c < 9 → q r c ≢ pos (suc d))

abbrev pub Digits : Puzzle → Type 0
Digits q = (r c : ℕ) → r < 9 → c < 9 → InRange 9 (q r c)

is_value-eq : (k : ℕ) (x : ℤ) → is_value k x ≡ true → x ≡ pos (suc k)
is_value-eq k (pos v) h = ap pos ((==_iff v (suc k)).0 h)
is_value-eq k (ℤ.negsuc v) h = ground arith

eq-is_value : (k : ℕ) (x : ℤ) → x ≡ pos (suc k) → is_value k x ≡ true
eq-is_value k x h = rw h ((==_iff (suc k) (suc k)).1 refl)

occurs-range :
    (k : ℕ) (f : ℕ → ℤ) (s n : ℕ)
    → occurs k (map f (range s n)) ≡ true
    → (c : ℕ) × (c < s + n) × (f c ≡ pos (suc k))
occurs-range k f s zero h = ground arith
occurs-range k f s (suc n) h = elim (Bool-cases (is_value k (f s))) [
  | inl e ↦ (s, omega arith, is_value-eq k (f s) e)
  | inr e ↦
      let (c, p, q) = occurs-range k f (s + 1) n (ground (arith, h, e)) in (c, omega (arith, p), q)
]

lacks-range :
    (k : ℕ) (f : ℕ → ℤ) (s n c : ℕ)
    → occurs k (map f (range s n)) ≡ false
    → s ≤ c
    → c < s + n
    → f c ≢ pos (suc k)
lacks-range k f s zero c h p q e = ground (arith, p, q)
lacks-range k f s (suc n) c h p q e = elim (Bool-cases (s == c)) [
  | inl i ↦
      let same : f s ≡ pos (suc k) = ap f ((==_iff s c).0 i) ∙ e in
      ground (arith, h, eq-is_value k (f s) same)
  | inr i ↦
      lacks-range k f (s + 1) n c (ground (arith, h)) (ground (arith, i, p)) (omega (arith, q)) e
]

-- One line of nine digits, as `check_group` sees it.
line-Verdict :
    (f : ℕ → ℤ)
    → ((c : ℕ) → c < 9 → InRange 9 (f c))
    → Verdict 9 (map f nine) (check_group (build_2d_array (map f nine)) 3)
unfolding build_2d_array
line-Verdict f h = check_group-Verdict 3 (build_2d_array (map f nine)) refl (
    more_arrays refl
      (and_also (h 0 (omega arith))
        (and_also (h 1 (omega arith)) (and_also (h 2 (omega arith)) nobody)))
      (more_arrays refl
        (and_also (h 3 (omega arith))
          (and_also (h 4 (omega arith)) (and_also (h 5 (omega arith)) nobody)))
        (more_arrays refl
          (and_also (h 6 (omega arith))
            (and_also (h 7 (omega arith)) (and_also (h 8 (omega arith)) nobody)))
          no_arrays)))

-- 0 and every row solved, or 1 and some row not.
pub data Checked (q : Puzzle) : Option ℕ → Type 0 where
  solved : Solved q → Checked q (some 0)
  unsolved : Unsolved q → Checked q (some 1)

-- The same for the lines from `s` on.
data CheckedFrom (q : Puzzle) (s n : ℕ) : Option ℕ → Type 0 where
  all_lines :
      ((r k : ℕ) → s ≤ r → r < s + n → k < 9 → occurs k (map (q r) nine) ≡ true)
      → CheckedFrom q s n (some 0)
  a_line :
      (r k : ℕ) → r < s + n → k < 9 → occurs k (map (q r) nine) ≡ false → CheckedFrom q s n (some 1)

and_then-CheckedFrom :
    (q : Puzzle) (s n : ℕ) {o o' : Option ℕ}
    → Verdict 9 (map (q s) nine) o
    → CheckedFrom q (s + 1) n o'
    → CheckedFrom q s (suc n) (and_then o o')
and_then-CheckedFrom q s n (incomplete k p e) rest = a_line s k (omega arith) p e
and_then-CheckedFrom q s n (complete f) (a_line r k p p' e) = a_line r k (omega (arith, p)) p' e
and_then-CheckedFrom q s n (complete f) (all_lines g) = all_lines (λ r k p p' p''.
    elim (Bool-cases (s == r)) [
      | inl e ↦ subst (λ i. occurs k (map (q i) nine) ≡ true) ((==_iff s r).0 e) (f k p'')
      | inr e ↦ g r k (ground (arith, p, e)) (omega (arith, p')) p''
    ])

check_groups-CheckedFrom :
    (q : Puzzle) (s n : ℕ)
    → ((r c : ℕ) → r < s + n → c < 9 → InRange 9 (q r c))
    → CheckedFrom q s n (check_groups (map (λ r. map (q r) nine) (range s n)))
unfolding check_groups
check_groups-CheckedFrom q s zero h = all_lines (λ r k p p' p''. ground (arith, p, p'))
check_groups-CheckedFrom q s (suc n) h =
    and_then-CheckedFrom q s n (line-Verdict (q s) (λ c p. h s c (omega arith) p))
      (check_groups-CheckedFrom q (s + 1) n (λ r c p p'. h r c (omega (arith, p)) p'))

rows-Checked : (q : Puzzle) → Digits q → Checked q (check_groups (rows q))
unfolding rows
rows-Checked q h = go (check_groups-CheckedFrom q 0 9 h)
  where
    go : {o : Option ℕ} → CheckedFrom q 0 9 o → Checked q o
    go (all_lines f) = solved (λ r k p p'. occurs-range k (q r) 0 9 (f r k (omega arith) p p'))
    go (a_line r k p p' e) =
        unsolved (r, k, p, p', λ c i. lacks-range k (q r) 0 9 c e (omega arith) i)

abbrev pub transposed : Puzzle → Puzzle
transposed q = λ col row. q row col

-- The box `b`, counted by rows of boxes, and its cell `z`, counted by rows of cells.
abbrev pub boxed : Puzzle → Puzzle
boxed q = λ b z. q (3 * (b / 3) + z / 3) (3 * (b % 3) + z % 3)

build_columns_lem : (q : Puzzle) → build_columns q ≡ rows (transposed q)
unfolding rows build_columns
build_columns_lem q = refl

build_boxes_lem : (q : Puzzle) → build_boxes q ≡ rows (boxed q)
unfolding rows build_boxes
build_boxes_lem q = refl

-- Every row, column and box holds every digit.
abbrev pub IsSolution : Puzzle → Type 0
IsSolution q = Solved q × Solved (transposed q) × Solved (boxed q)

pub data Decides (q : Puzzle) : Option ℕ → Type 0 where
  valid : IsSolution q → Decides q (some 0)
  invalid : (Unsolved q ⊎ Unsolved (transposed q) ⊎ Unsolved (boxed q)) → Decides q (some 1)

and_then-Decides :
    {q : Puzzle} {r c b : Option ℕ}
    → Checked q r
    → Checked (transposed q) c
    → Checked (boxed q) b
    → Decides q (and_then r (and_then c b))
and_then-Decides (unsolved u) c b = invalid (inl u)
and_then-Decides (solved v) (unsolved u) b = invalid (inr (inl u))
and_then-Decides (solved v) (solved v') (unsolved u) = invalid (inr (inr u))
and_then-Decides (solved v) (solved v') (solved v'') = valid (v, v', v'')

-- On a puzzle of digits from 1 to 9 `check_regular_sudoku` returns 0 if every row, every column and
-- every box holds every digit, and 1 if some row, column or box lacks one.
pub check_regular_sudoku-Decides : (q : Puzzle) → Digits q → Decides q (check_regular_sudoku q)
unfolding check_regular_sudoku
check_regular_sudoku-Decides q h =
    and_then-Decides (rows-Checked q h)
      (subst (λ gs. Checked (transposed q) (check_groups gs)) (sym (build_columns_lem q))
        (rows-Checked (transposed q) (λ r c p p'. h c r p' p)))
      (subst (λ gs. Checked (boxed q) (check_groups gs)) (sym (build_boxes_lem q))
        (rows-Checked (boxed q) (λ b z p p'. h _ _ (omega (arith, p, p')) (omega (arith, p, p')))))
