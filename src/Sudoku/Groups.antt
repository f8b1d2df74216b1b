-- ===== src/Sudoku/Groups.antt =====
-- A1/sudoku_helpers.c: what `check_group` decides.
use csc.Common.{
  ℕ, zero, suc, ◌*◌, ◌<◌, ◌≡◌, refl, sym, ap, subst, ◌∙◌, >>=-some, ◌⊎◌, inl, inr, Bool, true,
  false, not, ◌&&◌, ◌||◌, Option, some, List, [], ◌∷◌, ◌++◌, arith, ◌==◌, ==_iff, Bool-cases,
  length, get_or, set, replicate, length-set, length-replicate, get_or-set_same, get_or-set_other,
}
use csc.Int.{ℤ, pos, negsuc}
use csc.Sudoku.{mark, mark_array, mark_arrays, verdict, check_group}

-- `k + 1` is the value.
abbrev pub is_value : ℕ → ℤ → Bool
is_value k (pos v) = v == suc k
is_value k (negsuc v) = false

abbrev pub occurs : ℕ → List ℤ → Bool
occurs k [] = false
occurs k (x ∷ xs) = is_value k x || occurs k xs

-- The values are between 1 and `m`.
abbrev pub InRange : ℕ → ℤ → Type 0
InRange m x = (k : ℕ) × (k < m) × (x ≡ pos (suc k))

pub data AllIn (m : ℕ) : List ℤ → Type 0 where
  nobody : AllIn m []
  and_also : {x : ℤ} {xs : List ℤ} → InRange m x → AllIn m xs → AllIn m (x ∷ xs)

abbrev pub unseen : List ℕ → ℕ → Bool
unseen seen k = get_or seen k 0 == 0

-- What the loops make of the marks, for the values `xs`.
pub record Marked (seen out : List ℕ) (xs : List ℤ) : Type 0 where
  pub same_length : length out ≡ length seen
  pub marks : (k : ℕ) → k < length seen → unseen out k ≡ (unseen seen k && not (occurs k xs))

-- A value in range is marked, and nothing else is.
mark-once :
    (seen : List ℕ) (k : ℕ)
    → k < length seen
    → (out : List ℕ) × (mark seen (pos (suc k)) ≡ some out) × Marked seen out (pos (suc k) ∷ [])
unfolding mark
mark-once seen k h = elim (Bool-cases (unseen seen k)) [
  | inl fresh ↦ (
    set seen k 1,
    ground (arith, h, fresh),
    record {
      same_length = length-set seen k 1;
      marks = λ j p. elim (Bool-cases (j == k)) [
        | inl e ↦ ground (
          arith,
          get_or-set_same seen k 1 0 h,
          ap (λ i. get_or (set seen k 1) i 0) ((==_iff j k).0 e),
          (==_iff j k).0 e,
        )
        | inr e ↦ ground (arith, get_or-set_other seen k j 1 0 (λ q. ground (arith, e, q)), e)
      ];
    },
  )
  | inr old ↦ (
    seen,
    ground (arith, h, old),
    record {
      same_length = refl;
      marks = λ j p. elim (Bool-cases (j == k)) [
        | inl e ↦
            ground (arith, ap (λ i. get_or seen i 0) ((==_iff j k).0 e), (==_iff j k).0 e, old)
        | inr e ↦ ground (arith, e)
      ];
    },
  )
]

occurs-append : (k : ℕ) (xs ys : List ℤ) → occurs k (xs ++ ys) ≡ occurs k xs || occurs k ys
occurs-append k [] ys = refl
occurs-append k (x ∷ xs) ys = ground (arith, occurs-append k xs ys)

Marked-trans :
    {a b c : List ℕ} {xs ys : List ℤ} → Marked a b xs → Marked b c ys → Marked a c (xs ++ ys)
Marked-trans {xs = xs} {ys = ys} p q = record {
  same_length = q.same_length ∙ p.same_length;
  marks = λ k h.
      ground
        (arith, occurs-append k xs ys, p.marks k h, q.marks k (omega (arith, h, p.same_length)));
}

Marked-refl : (seen : List ℕ) → Marked seen seen []
Marked-refl seen = record { same_length = refl; marks = λ k h. ground arith }

-- The marks of an array, and of all arrays, of values in range.
mark_array-Marked :
    (xs : List ℤ) (seen : List ℕ)
    → AllIn (length seen) xs
    → (out : List ℕ) × (mark_array (length xs) xs seen ≡ some out) × Marked seen out xs
unfolding mark_array
mark_array-Marked [] seen h = (seen, refl, Marked-refl seen)
mark_array-Marked (x ∷ xs) seen (and_also (k, below, e) h) =
    let (mid, e1, m1) = mark-once seen k below in
    let (out, e2, m2) = mark_array-Marked xs mid (subst (λ n. AllIn n xs) (sym m1.same_length) h) in
    (out, rw e (>>=-some (mark_array (length xs) xs) e1 e2), rw e (Marked-trans m1 m2))

abbrev pub flatten {ℓ} : {A : Type ℓ} → List (List A) → List A
flatten [] = []
flatten (xs ∷ xss) = xs ++ flatten xss

-- Every array has `n` values, all in range.
pub data Group (m n : ℕ) : List (List ℤ) → Type 0 where
  no_arrays : Group m n []
  more_arrays :
      {xs : List ℤ} {xss : List (List ℤ)}
      → length xs ≡ n
      → AllIn m xs
      → Group m n xss
      → Group m n (xs ∷ xss)

mark_arrays-Marked :
    (n : ℕ) (xss : List (List ℤ)) (seen : List ℕ)
    → Group (length seen) n xss
    → (out : List ℕ) × (mark_arrays n (length xss) xss seen ≡ some out)
      × Marked seen out (flatten xss)
unfolding mark_arrays
mark_arrays-Marked n [] seen h = (seen, refl, Marked-refl seen)
mark_arrays-Marked n (xs ∷ xss) seen (more_arrays e a h) =
    let (mid, e1, m1) = mark_array-Marked xs seen a in
    let (out, e2, m2) =
      mark_arrays-Marked n xss mid (subst (λ k. Group k n xss) (sym m1.same_length) h) in
    (
      out,
      >>=-some (mark_arrays n (length xss) xss) (subst (λ k. mark_array k xs seen ≡ some mid) e e1)
          e2,
      Marked-trans m1 m2,
    )

-- 0 if every value from 1 to `m` occurs, 1 if one of them is missing.
pub data Verdict (m : ℕ) (xs : List ℤ) : Option ℕ → Type 0 where
  complete : ((k : ℕ) → k < m → occurs k xs ≡ true) → Verdict m xs (some 0)
  incomplete : (k : ℕ) → k < m → occurs k xs ≡ false → Verdict m xs (some 1)

verdict-cases :
    (l : List ℕ)
    → ((verdict l ≡ 0) × ((k : ℕ) → k < length l → unseen l k ≡ false))
      ⊎ ((verdict l ≡ 1) × (k : ℕ) × (k < length l) × (unseen l k ≡ true))
unfolding verdict
verdict-cases [] = inl (refl, λ k h. ground arith)
verdict-cases (zero ∷ l) = inr (refl, 0, omega arith, refl)
verdict-cases (suc x ∷ l) = elim (verdict-cases l) [
  | inl (e, f) ↦ inl (ground (arith, e), go f)
  | inr (e, k, h, u) ↦ inr (ground (arith, e), suc k, omega (arith, h), u)
]
  where
    go :
        ((k : ℕ) → k < length l → unseen l k ≡ false)
        → (k : ℕ) → k < length (suc x ∷ l)
        → unseen (suc x ∷ l) k ≡ false
    go f zero h = ground arith
    go f (suc k) h = f k (omega (arith, h))

unseen_zeros : (m k : ℕ) → unseen (replicate m 0) k ≡ true
unseen_zeros zero k = refl
unseen_zeros (suc m) zero = refl
unseen_zeros (suc m) (suc k) = unseen_zeros m k

-- `check_group`, for an n x n group of values between 1 and n^2, returns 0 if every one of those
-- values occurs, and 1 if one of them does not.
pub check_group-Verdict :
    (n : ℕ) (xss : List (List ℤ))
    → length xss ≡ n
    → Group (n * n) n xss
    → Verdict (n * n) (flatten xss) (check_group xss n)
unfolding check_group
check_group-Verdict n xss e g =
    let zeros : List ℕ = replicate (n * n) 0 in
    let size : length zeros ≡ n * n = length-replicate (n * n) 0 in
    let (out, e1, m) = mark_arrays-Marked n xss zeros (subst (λ k. Group k n xss) (sym size) g) in
    let r : check_group xss n ≡ some (verdict out) =
      >>=-some (λ l. some (verdict l)) (subst (λ k. mark_arrays n k xss zeros ≡ some out) e e1)
        refl in
    elim (verdict-cases out) [
      | inl (v, f) ↦ subst (Verdict (n * n) (flatten xss)) (sym (r ∙ ap some v)) (
          complete (λ k h. ground (
            arith,
            f k (omega (arith, h, m.same_length, size)),
            m.marks k (omega (arith, h, size)),
            unseen_zeros (n * n) k,
          )))
      | inr (v, k, h, u) ↦ subst (Verdict (n * n) (flatten xss)) (sym (r ∙ ap some v)) (
          incomplete k (omega (arith, h, m.same_length, size)) (
            ground (arith, u, m.marks k (omega (arith, h, m.same_length)), unseen_zeros (n * n) k)))
    ]
