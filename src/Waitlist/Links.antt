-- ===== src/Waitlist/Links.antt =====
-- Chains of pointers, seen through the function that gives the next pointer of an address.
use csc.Common.{
  ℕ, ◌≡◌, refl, ap, ◌∙◌, inl, inr, Bool, true, false, ◌||◌, Option, none, some, List, [], ◌∷◌, ◌++◌,
  arith, ◌==◌, ==_iff, Bool-cases,
}

abbrev pub first : List ℕ → Option ℕ
first [] = none
first (a ∷ l) = some a

abbrev pub last_of : ℕ → List ℕ → ℕ
last_of a [] = a
last_of a (b ∷ l) = last_of b l

abbrev pub last : List ℕ → Option ℕ
last [] = none
last (a ∷ l) = some (last_of a l)

abbrev pub has : ℕ → List ℕ → Bool
has x [] = false
has x (a ∷ l) = (x == a) || has x l

abbrev pub Distinct : List ℕ → Type 0
Distinct [] = Unit {0}
Distinct (a ∷ l) = (has a l ≡ false) × Distinct l

-- From each address of the list the pointer leads to the next one, and from the last to NULL.
abbrev pub Linked : (ℕ → Option (Option ℕ)) → List ℕ → Type 0
Linked nx [] = Unit {0}
Linked nx (a ∷ l) = (nx a ≡ some (first l)) × Linked nx l

pub has-append : (x : ℕ) (l k : List ℕ) → has x (l ++ k) ≡ (has x l || has x k)
has-append x [] k = refl
has-append x (a ∷ l) k = ground (arith, has-append x l k)

pub has-last_of : (a : ℕ) (l : List ℕ) → has (last_of a l) (a ∷ l) ≡ true
has-last_of a [] = ground arith
has-last_of a (b ∷ l) = ground (arith, has-last_of b l)

pub has-apart : (l : List ℕ) (a b : ℕ) → has a l ≡ false → has b l ≡ true → (a == b) ≡ false
has-apart l a b h k = elim (Bool-cases (a == b)) [
  | inl e ↦ ground (arith, h, k, ap (λ c. has c l) ((==_iff a b).0 e))
  | inr e ↦ e
]

pub Linked-same :
    (nx ny : ℕ → Option (Option ℕ)) (l : List ℕ)
    → Linked nx l
    → ((a : ℕ) → has a l ≡ true → ny a ≡ nx a)
    → Linked ny l
Linked-same nx ny [] h same = tt
Linked-same nx ny (a ∷ l) (e, h) same =
    (same a (ground arith) ∙ e, Linked-same nx ny l h (λ b q. same b (ground (arith, q))))

-- A chain grows at its end: only the pointer of the last changes.
pub Linked-snoc :
    (nx ny : ℕ → Option (Option ℕ)) (a : ℕ) (l : List ℕ) (x : ℕ)
    → Distinct (a ∷ l)
    → Linked nx (a ∷ l)
    → ny x ≡ some none
    → ny (last_of a l) ≡ some (some x)
    → ((b : ℕ) → has b (a ∷ l) ≡ true → (b == last_of a l) ≡ false → ny b ≡ nx b)
    → Linked ny (a ∷ l ++ x ∷ [])
Linked-snoc nx ny a [] x d h new end same = (end, (new, tt))
Linked-snoc nx ny a (b ∷ l) x (d, ds) (e, h) new end same = (
  same a (ground arith) (has-apart (b ∷ l) a (last_of b l) d (has-last_of b l)) ∙ e,
  Linked-snoc nx ny b l x ds h new end (λ c q. same c (ground (arith, q))),
)

-- One address leaves a chain: only the pointer of the one before it changes.
pub Linked-remove :
    (nx ny : ℕ → Option (Option ℕ)) (a : ℕ) (l : List ℕ) (x : ℕ) (k : List ℕ)
    → Distinct (a ∷ l ++ x ∷ k)
    → Linked nx (a ∷ l ++ x ∷ k)
    → ny (last_of a l) ≡ some (first k)
    → ((b : ℕ) → (b == last_of a l) ≡ false → ny b ≡ nx b)
    → Linked ny (a ∷ l ++ k)
Linked-remove nx ny a [] x k (d, (d', ds)) (e, (e', h)) end same =
    (end, Linked-same nx ny k h (λ b q. same b (ground (arith, has-apart k a b, d, q))))
Linked-remove nx ny a (b ∷ l) x k (d, ds) (e, h) end same = (
  same a (
        has-apart (b ∷ l ++ x ∷ k) a (last_of b l) d
          (ground (arith, has-append (last_of b l) (b ∷ l) (x ∷ k), has-last_of b l)))
      ∙ e,
  Linked-remove nx ny b l x k ds h end same,
)

pub Linked-at :
    (nx : ℕ → Option (Option ℕ)) (l : List ℕ) (x : ℕ) (k : List ℕ)
    → Linked nx (l ++ x ∷ k)
    → nx x ≡ some (first k)
Linked-at nx [] x k (e, h) = e
Linked-at nx (a ∷ l) x k (e, h) = Linked-at nx l x k h
