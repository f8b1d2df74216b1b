-- ===== src/HelpCentre/Tas/Serving.antt =====
-- Which student a TA has after `next_overall`, and who is gone after `remove_ta`.
use csc.Common.{
  ℕ, ◌≡◌, refl, ap, ◌∙◌, ◌≢◌, ◌⊎◌, inl, inr, false, Option, none, some, List, [], ◌∷◌, ◌++◌, arith,
  Bool-cases, length, Bytes, str_eq, str_eq_iff, ne_of_str_eq,
}
use csc.HelpCentre.Students.{Student, route_around_overall}
use csc.HelpCentre.Tas.{Ta, find_ta, remove_ta, give_student, take_student, head_of, next_overall}

abbrev pub NoTa : Bytes → List Ta → Type 0
NoTa n [] = Unit {0}
NoTa n (t ∷ rest) = (t.name ≢ n) × NoTa n rest

-- The newest TA of that name, with those before and behind.
pub record Works (n : Bytes) (l : List Ta) : Type 0 where
  pub before : List Ta
  pub ta : Ta
  pub behind : List Ta
  pub split : l ≡ before ++ ta ∷ behind
  pub first : NoTa n before
  pub named : ta.name ≡ n

Works-later : (n : Bytes) (t : Ta) (l : List Ta) → t.name ≢ n → Works n l → Works n (t ∷ l)
Works-later n t l ne w = record {
  before = t ∷ w.before;
  ta = w.ta;
  behind = w.behind;
  split = ap (λ k. t ∷ k) w.split;
  first = (ne, w.first);
  named = w.named;
}

Works-here : (n : Bytes) (t : Ta) (l : List Ta) → t.name ≡ n → Works n (t ∷ l)
Works-here n t l e = record { before = []; ta = t; behind = l; split = refl; first = tt; named = e }

pub find_ta-cases :
    (l : List Ta) (n : Bytes)
    → (NoTa n l × (find_ta l n ≡ none)) ⊎ ((w : Works n l) × (find_ta l n ≡ some (length w.before)))
unfolding find_ta Works-later Works-here
find_ta-cases [] n = inl (tt, refl)
find_ta-cases (t ∷ rest) n = elim (Bool-cases (str_eq t.name n)) [
  | inl same ↦ inr (Works-here n t rest ((str_eq_iff t.name n).0 same), rw same)
  | inr other ↦ elim (find_ta-cases rest n) [
    | inl (a, e) ↦ inl ((ne_of_str_eq t.name n other, a), rw (other, e))
    | inr (w, e) ↦ inr (Works-later n t rest (ne_of_str_eq t.name n other) w, rw (other, e))
  ]
]

give-append :
    (a : List Ta) (t : Ta) (b : List Ta) (s : Option Student)
    → give_student (a ++ t ∷ b) (length a) s ≡ a ++ record t { current_student = s } ∷ b
give-append [] t b s = refl
give-append (x ∷ a) t b s = ap (λ l. x ∷ l) (give-append a t b s)

abbrev pub tail : List Student → List Student
tail [] = []
tail (s ∷ rest) = rest

abbrev pub first_of : List Student → Option Student
first_of [] = none
first_of (s ∷ rest) = some s

-- What `next_overall` may do.
pub data Serves (n : Bytes) (tas : List Ta) (q : List Student)
    : Option (ℕ × List Ta × List Student) → Type 0 where
  no_ta : NoTa n tas → Serves n tas q (some (1, tas, q))
  served :
      (w : Works n tas)
      → Serves n tas q
          (some (0, w.before ++ record w.ta { current_student = first_of q } ∷ w.behind, tail q))

take_student-first :
    (tas : List Ta) (k : ℕ) (q : List Student)
    → take_student tas k q (head_of q) ≡ some (give_student tas k (first_of q), tail q)
unfolding take_student route_around_overall
take_student-first tas k [] = refl
take_student-first tas k (s ∷ rest) = refl

-- `next_overall` answers 1 and changes nothing if no TA has that name; else 0, and exactly the first
-- TA of that name lets go of the student in hand and has the one who waited longest, or none if
-- nobody waits; that student leaves the queue and the others keep their order.
pub next_overall-Serves :
    (n : Bytes) (tas : List Ta) (q : List Student) → Serves n tas q (next_overall n tas q)
unfolding next_overall
next_overall-Serves n tas q = elim (find_ta-cases tas n) [
  | inl (a, e) ↦ rw (e, next_overall) (no_ta a)
  | inr (w, e) ↦
      rw (e, next_overall)
        (rw (take_student-first tas (length w.before) q) (
          rw
            (ap (λ t. give_student t (length w.before) (first_of q)) w.split
              ∙ give-append w.before w.ta w.behind (first_of q))
            (served w)))
]

-- What `remove_ta` may do.
pub data Departs (n : Bytes) (tas : List Ta) : ℕ × List Ta → Type 0 where
  unknown : NoTa n tas → Departs n tas (1, tas)
  departed : (w : Works n tas) → Departs n tas (0, w.before ++ w.behind)

Departs-later :
    (n : Bytes) (t : Ta) (l : List Ta) {r : ℕ × List Ta}
    → t.name ≢ n
    → Departs n l r
    → Departs n (t ∷ l) (r.0, t ∷ r.1)
unfolding Works-later
Departs-later n t l ne (unknown a) = unknown (ne, a)
Departs-later n t l ne (departed w) = departed (Works-later n t l ne w)

-- `remove_ta` answers 1 and changes nothing if no TA has that name; else 0, with exactly the newest
-- TA of that name gone, together with the student in hand.
pub remove_ta-Departs : (n : Bytes) (tas : List Ta) → Departs n tas (remove_ta tas n)
unfolding remove_ta Works-here
remove_ta-Departs n [] = unknown tt
remove_ta-Departs n (t ∷ rest) = elim (Bool-cases (str_eq t.name n)) [
  | inl same ↦ rw same (departed (Works-here n t rest ((str_eq_iff t.name n).0 same)))
  | inr other ↦
      rw other (Departs-later n t rest (ne_of_str_eq t.name n other) (remove_ta-Departs n rest))
]

find_ta-append :
    (n : Bytes) (a : List Ta) (t : Ta) (b : List Ta)
    → NoTa n a
    → t.name ≡ n
    → find_ta (a ++ t ∷ b) n ≡ some (length a)
unfolding find_ta
find_ta-append n [] t b p e = rw ((str_eq_iff t.name n).1 e)
find_ta-append n (x ∷ a) t b (ne, p) e =
    let other : str_eq x.name n ≡ false = ground (arith, str_eq_iff x.name n, ne) in
    rw (other, find_ta-append n a t b p e)

-- The same where the TA is known to be on the list.
pub next_overall-Works :
    (n : Bytes) (tas : List Ta) (q : List Student) (w : Works n tas)
    → next_overall n tas q
      ≡ some (0, w.before ++ record w.ta { current_student = first_of q } ∷ w.behind, tail q)
unfolding next_overall
next_overall-Works n tas q w =
    let at : find_ta tas n ≡ some (length w.before) =
      ap (λ l. find_ta l n) w.split ∙ find_ta-append n w.before w.ta w.behind w.first w.named in
    rw (at, next_overall)
      (rw (take_student-first tas (length w.before) q) (
        rw (
          ap (λ t. give_student t (length w.before) (first_of q)) w.split
          ∙ give-append w.before w.ta w.behind (first_of q))))
