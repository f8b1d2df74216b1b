-- ===== src/Index/Files.antt =====
-- A3/freq_list.c: the numbers of the files.
use csc.Common.{
  ℕ, zero, suc, ◌≤◌, ◌<◌, ◌≡◌, refl, ap, ◌⊎◌, inl, inr, false, Option, none, some, List, [], ◌∷◌,
  arith, if◌then◌else◌, Bool-cases, length, Bytes, str_eq, str_eq_iff, str_eq_refl,
}
use csc.Index.{one_further, get_filenum}

-- The place of a name before the first NULL.
abbrev pub index_of : Bytes → List (Option Bytes) → Option ℕ
index_of f [] = none
index_of f (none ∷ r) = none
index_of f (some g ∷ r) =
    let further = index_of f r in
    if str_eq f g then some 0 else elim further [ none ↦ none | some i ↦ some (suc i) ]

-- How many names stand before the first NULL.
abbrev pub used : List (Option Bytes) → ℕ
used [] = 0
used (none ∷ r) = 0
used (some g ∷ r) = suc (used r)

abbrev pub AllNull : List (Option Bytes) → Type 0
AllNull [] = Unit {0}
AllNull (none ∷ r) = AllNull r
AllNull (some g ∷ r) = ⊥

-- Nothing stands behind the first NULL.
abbrev pub Packed : List (Option Bytes) → Type 0
Packed [] = Unit {0}
Packed (none ∷ r) = AllNull r
Packed (some g ∷ r) = Packed r

index_of-AllNull : (f : Bytes) (r : List (Option Bytes)) → AllNull r → index_of f r ≡ none
index_of-AllNull f [] h = refl
index_of-AllNull f (none ∷ r) h = refl
index_of-AllNull f (some g ∷ r) h = absurd h

AllNull-Packed : (r : List (Option Bytes)) → AllNull r → Packed r
AllNull-Packed [] h = tt
AllNull-Packed (none ∷ r) h = h
AllNull-Packed (some g ∷ r) h = absurd h

-- What `get_filenum` makes of the array: the name has the number `i`, all others keep theirs, and a
-- name that was not there has the first number that was free.
pub record Numbered (names : List (Option Bytes)) (fname : Bytes) (i : ℕ)
    (after : List (Option Bytes)) : Type 0 where
  pub numbered : index_of fname after ≡ some i
  pub others : (f : Bytes) → str_eq f fname ≡ false → index_of f after ≡ index_of f names
  pub before : (index_of fname names ≡ some i) ⊎ ((index_of fname names ≡ none) × (i ≡ used names))
  pub inside : i < length names
  pub same_length : length after ≡ length names
  pub in_use : i < used after
  pub grows : used names ≤ used after
  pub still_packed : Packed after

-- `exit(1)`, with every place taken, or a number.
pub data Outcome (names : List (Option Bytes)) (fname : Bytes)
    : Option (ℕ × List (Option Bytes)) → Type 0 where
  too_many : used names ≡ length names → index_of fname names ≡ none → Outcome names fname none
  given :
      {i : ℕ} {after : List (Option Bytes)}
      → Numbered names fname i after
      → Outcome names fname (some (i, after))

Outcome-further :
    (fname g : Bytes) (r : List (Option Bytes)) {o : Option (ℕ × List (Option Bytes))}
    → str_eq fname g ≡ false
    → Outcome r fname o
    → Outcome (some g ∷ r) fname (one_further (some g) o)
Outcome-further fname g r q (too_many u e) = too_many (ap suc u) (rw (q, e) refl)
Outcome-further fname g r q (given n) = given (record {
  numbered = rw (q, n.numbered) refl;
  others = λ f d. rw (n.others f d) refl;
  before = elim n.before [
    | inl e ↦ inl (rw (q, e) refl)
    | inr (e, u) ↦ inr (rw (q, e) refl, ap suc u)
  ];
  inside = omega (arith, n.inside);
  same_length = ap suc n.same_length;
  in_use = omega (arith, n.in_use);
  grows = omega (arith, n.grows);
  still_packed = n.still_packed;
})

-- `get_filenum` gives the name its number, or ends the program.
pub get_filenum-Outcome :
    (fname : Bytes) (names : List (Option Bytes))
    → Packed names
    → Outcome names fname (get_filenum fname names)
unfolding get_filenum
get_filenum-Outcome fname [] p = too_many refl refl
get_filenum-Outcome fname (none ∷ r) p = given (record {
  numbered = rw (str_eq_refl fname) refl;
  others = λ f d. rw (d, index_of-AllNull f r p) refl;
  before = inr (refl, refl);
  inside = omega arith;
  same_length = refl;
  in_use = omega arith;
  grows = omega arith;
  still_packed = AllNull-Packed r p;
})
get_filenum-Outcome fname (some g ∷ r) p = elim (Bool-cases (str_eq fname g)) [
  | inl q ↦ rw q (
      given (record {
        numbered = rw q refl;
        others = λ f d. refl;
        before = inl (rw q refl);
        inside = omega arith;
        same_length = refl;
        in_use = omega arith;
        grows = omega arith;
        still_packed = p;
      }))
  | inr q ↦ rw q (Outcome-further fname g r q (get_filenum-Outcome fname r p))
]

-- Two names have different numbers.
pub index_of-eq :
    (f g : Bytes) (names : List (Option Bytes)) (i : ℕ)
    → index_of f names ≡ some i
    → index_of g names ≡ some i
    → f ≡ g
index_of-eq f g [] i p q = ground arith
index_of-eq f g (none ∷ r) i p q = ground arith
index_of-eq f g (some h ∷ r) zero p q = ground (arith, p, q, str_eq_iff f h, str_eq_iff g h)
index_of-eq f g (some h ∷ r) (suc i) p q =
    ground (arith, p, q, str_eq_iff f h, str_eq_iff g h, index_of-eq f g r i)
