-- ===== src/Sudoku/Faults.antt =====
-- A1/sudoku_helpers.c: `check_group` on a value that is no digit.
use csc.Common.{
  ℕ, zero, suc, ◌*◌, ◌≡◌, refl, subst, ◌∙◌, >>=-eq-some, inl, inr, some, List, [], ◌∷◌, arith, ltb,
  ltb→lt, Bool-cases, length, replicate, length-set, length-replicate,
}
use csc.Int.{ℤ, pos, negsuc}
use csc.Sudoku.{mark, mark_array, mark_arrays, verdict, check_group}
use csc.Sudoku.Groups.{InRange, AllIn, nobody, and_also, Group, no_arrays, more_arrays}

mark-InRange :
    (seen : List ℕ) (x : ℤ) {out : List ℕ}
    → mark seen x ≡ some out
    → InRange (length seen) x × (length out ≡ length seen)
unfolding mark
mark-InRange seen (pos zero) e = cc
mark-InRange seen (negsuc k) e = cc
mark-InRange seen (pos (suc k)) e = elim (Bool-cases (ltb k (length seen))) [
  | inl p ↦ ((k, ltb→lt k (length seen) p, refl), ground (arith, e, p, length-set seen k 1))
  | inr p ↦ ground (arith, e, p)
]

mark_array-AllIn :
    (n : ℕ) (xs : List ℤ) (seen : List ℕ) {out : List ℕ}
    → length xs ≡ n
    → mark_array n xs seen ≡ some out
    → AllIn (length seen) xs × (length out ≡ length seen)
unfolding mark_array
mark_array-AllIn zero [] seen l e = (nobody, ground (arith, e))
mark_array-AllIn zero (x ∷ xs) seen l e = ground (arith, l)
mark_array-AllIn (suc n) [] seen l e = ground (arith, l)
mark_array-AllIn (suc n) (x ∷ xs) seen l e =
    let (mid, e1, e2) = >>=-eq-some (mark seen x) (mark_array n xs) e in
    let (inside, same) = mark-InRange seen x e1 in
    let (rest, same') = mark_array-AllIn n xs mid (omega (arith, l)) e2 in
    (and_also inside (subst (λ k. AllIn k xs) same rest), same' ∙ same)

-- `n` values in each array
pub data Width (n : ℕ) : List (List ℤ) → Type 0 where
  no_rows : Width n []
  more_rows : {xs : List ℤ} {xss : List (List ℤ)} → length xs ≡ n → Width n xss → Width n (xs ∷ xss)

mark_arrays-Group :
    (n m : ℕ) (xss : List (List ℤ)) (seen : List ℕ) {out : List ℕ}
    → length xss ≡ m
    → Width n xss
    → mark_arrays n m xss seen ≡ some out
    → Group (length seen) n xss
unfolding mark_arrays
mark_arrays-Group n m [] seen l w e = no_arrays
mark_arrays-Group n zero (xs ∷ xss) seen l w e = ground (arith, l)
mark_arrays-Group n (suc m) (xs ∷ xss) seen l (more_rows w ws) e =
    let (mid, e1, e2) = >>=-eq-some (mark_array n xs seen) (mark_arrays n m xss) e in
    let (inside, same) = mark_array-AllIn n xs seen w e1 in
    more_arrays w inside
      (subst (λ k. Group k n xss) same (mark_arrays-Group n m xss mid (omega (arith, l)) ws e2))

-- `check_group` on an n x n group returns only if every value is between 1 and n^2; any other value
-- is used as an index outside `is_all_unique`.
pub check_group-Group :
    (n : ℕ) (xss : List (List ℤ)) (r : ℕ)
    → length xss ≡ n
    → Width n xss
    → check_group xss n ≡ some r
    → Group (n * n) n xss
unfolding check_group
check_group-Group n xss r l w e =
    let (out, e1, e2) =
      >>=-eq-some (mark_arrays n n xss (replicate (n * n) 0)) (λ s. some (verdict s)) e in
    subst (λ k. Group k n xss) (length-replicate (n * n) 0)
      (mark_arrays-Group n n xss (replicate (n * n) 0) l w e1)
