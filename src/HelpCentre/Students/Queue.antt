-- ===== src/HelpCentre/Students/Queue.antt =====
-- The queue as a sequence: who joins goes to the end, who leaves goes from where he stood, and names
-- stay distinct.
use csc.Common.{
  ℕ, suc, ◌≡◌, refl, sym, ap, ◌∙◌, ◌≢◌, ◌⊎◌, inl, inr, Option, none, some, List, [], ◌∷◌, ◌++◌,
  arith, Bool-cases, length, Bytes, str_eq, str_eq_iff, ne_of_str_eq,
}
use csc.HelpCentre.Students.{
  Student, find_student, find_course, link_last, add_student, route_around_overall, give_up_waiting,
}

-- Nobody of that name waits.
abbrev pub Absent : Bytes → List Student → Type 0
Absent n [] = Unit {0}
Absent n (s ∷ rest) = (s.name ≢ n) × Absent n rest

abbrev pub Distinct : List Student → Type 0
Distinct [] = Unit {0}
Distinct (s ∷ rest) = Absent s.name rest × Distinct rest

-- The first student of that name, with those before and behind.
pub record Stands (n : Bytes) (l : List Student) : Type 0 where
  pub before : List Student
  pub student : Student
  pub behind : List Student
  pub split : l ≡ before ++ student ∷ behind
  pub first : Absent n before
  pub named : student.name ≡ n

Stands-later :
    (n : Bytes) (s : Student) (l : List Student) → s.name ≢ n → Stands n l → Stands n (s ∷ l)
Stands-later n s l ne w = record {
  before = s ∷ w.before;
  student = w.student;
  behind = w.behind;
  split = ap (λ t. s ∷ t) w.split;
  first = (ne, w.first);
  named = w.named;
}

pub find_student-cases :
    (l : List Student) (n : Bytes)
    → (Absent n l × (find_student l n ≡ none))
      ⊎ ((w : Stands n l) × (find_student l n ≡ some (length w.before)))
unfolding find_student Stands-later
find_student-cases [] n = inl (tt, refl)
find_student-cases (s ∷ rest) n = elim (Bool-cases (str_eq s.name n)) [
  | inl same ↦ inr (
    record {
      before = [];
      student = s;
      behind = rest;
      split = refl;
      first = tt;
      named = (str_eq_iff s.name n).0 same;
    },
    rw same,
  )
  | inr other ↦ elim (find_student-cases rest n) [
    | inl (a, e) ↦ inl ((ne_of_str_eq s.name n other, a), rw (other, e))
    | inr (w, e) ↦ inr (Stands-later n s rest (ne_of_str_eq s.name n other) w, rw (other, e))
  ]
]

pub link_last-append : (l : List Student) (s : Student) → link_last l s ≡ l ++ s ∷ []
unfolding link_last
link_last-append [] s = refl
link_last-append (x ∷ l) s = ap (λ t. x ∷ t) (link_last-append l s)

pub route_around-append :
    (a : List Student) (s : Student) (b : List Student)
    → route_around_overall (a ++ s ∷ b) (length a) ≡ some (a ++ b)
unfolding route_around_overall
route_around-append [] s b = refl
route_around-append (x ∷ a) s b = rw (route_around-append a s b)

Absent-append : (n : Bytes) (a b : List Student) → Absent n a → Absent n b → Absent n (a ++ b)
Absent-append n [] b p q = q
Absent-append n (x ∷ a) b (h, p) q = (h, Absent-append n a b p q)

Absent-without :
    (n : Bytes) (a : List Student) (s : Student) (b : List Student)
    → Absent n (a ++ s ∷ b)
    → Absent n (a ++ b)
Absent-without n [] s b (h, p) = p
Absent-without n (x ∷ a) s b (h, p) = (h, Absent-without n a s b p)

Distinct-link :
    (l : List Student) (s : Student) → Absent s.name l → Distinct l → Distinct (l ++ s ∷ [])
Distinct-link [] s h d = (tt, tt)
Distinct-link (x ∷ l) s (ne, h) (a, d) =
    (Absent-append x.name l (s ∷ []) a (λ e. ne (sym e), tt), Distinct-link l s h d)

pub Distinct-without :
    (a : List Student) (s : Student) (b : List Student) → Distinct (a ++ s ∷ b) → Distinct (a ++ b)
Distinct-without [] s b (h, d) = d
Distinct-without (x ∷ a) s b (h, d) = (Absent-without x.name a s b h, Distinct-without a s b d)

pub Absent-behind :
    (a : List Student) (s : Student) (b : List Student) → Distinct (a ++ s ∷ b) → Absent s.name b
Absent-behind [] s b (h, d) = h
Absent-behind (x ∷ a) s b (h, d) = Absent-behind a s b d

-- A course code of the array, at its first position.
pub data HasCourse (code : Bytes) : List Bytes → ℕ → Type 0 where
  here : {c : Bytes} {rest : List Bytes} → c ≡ code → HasCourse code (c ∷ rest) 0
  later :
      {c : Bytes} {rest : List Bytes} {k : ℕ}
      → c ≢ code
      → HasCourse code rest k
      → HasCourse code (c ∷ rest) (suc k)

abbrev pub NoCourse : Bytes → List Bytes → Type 0
NoCourse code [] = Unit {0}
NoCourse code (c ∷ rest) = (c ≢ code) × NoCourse code rest

find_course-cases :
    (courses : List Bytes) (code : Bytes)
    → (NoCourse code courses × (find_course courses code ≡ none))
      ⊎ ((k : ℕ) × HasCourse code courses k × (find_course courses code ≡ some k))
unfolding find_course
find_course-cases [] code = inl (tt, refl)
find_course-cases (c ∷ rest) code = elim (Bool-cases (str_eq c code)) [
  | inl same ↦ inr (0, here ((str_eq_iff c code).0 same), rw same)
  | inr other ↦ elim (find_course-cases rest code) [
    | inl (a, e) ↦ inl ((ne_of_str_eq c code other, a), rw (other, e))
    | inr (k, h, e) ↦ inr (suc k, later (ne_of_str_eq c code other) h, rw (other, e))
  ]
]

-- What `add_student` may do to a queue.
pub data Joins (l : List Student) (n code : Bytes) (courses : List Bytes)
    : ℕ → List Student → Type 0 where
  waits_already : Stands n l → Joins l n code courses 1 l
  unknown_course : Absent n l → NoCourse code courses → Joins l n code courses 2 l
  joined :
      {l' : List Student} (k : ℕ)
      → Absent n l
      → HasCourse code courses k
      → l' ≡ l ++ record { name = n; course = k } ∷ []
      → Joins l n code courses 0 l'

-- `add_student` answers 1 and changes nothing for a name that waits already; else 2 and changes
-- nothing for a code that is not in the course array; else 0, with the student put at the end of
-- the queue under the first course of that code.
pub add_student-Joins :
    (l : List Student) (n code : Bytes) (courses : List Bytes)
    → Joins l n code courses (add_student l n code courses).0 (add_student l n code courses).1
unfolding add_student
add_student-Joins l n code courses = elim (find_student-cases l n) [
  | inr (w, e) ↦ rw (e, add_student) (waits_already w)
  | inl (a, e) ↦ elim (find_course-cases courses code) [
    | inl (b, f) ↦ rw (e, add_student) (rw (f, add_student) (unknown_course a b))
    | inr (k, h, f) ↦
        rw (e, add_student) (rw (f, add_student) (joined k a h (link_last-append l _)))
  ]
]

pub add_student-Distinct :
    (l : List Student) (n code : Bytes) (courses : List Bytes)
    → Distinct l
    → Distinct (add_student l n code courses).1
unfolding add_student
add_student-Distinct l n code courses d = go (add_student-Joins l n code courses)
  where
    go : {c : ℕ} {l' : List Student} → Joins l n code courses c l' → Distinct l'
    go (waits_already w) = d
    go (unknown_course a b) = d
    go (joined k a h e) = rw e (Distinct-link l _ a d)

-- What `give_up_waiting` may do to a queue.
pub data Leaves (l : List Student) (n : Bytes) : Option (ℕ × List Student) → Type 0 where
  not_here : Absent n l → Leaves l n (some (1, l))
  left : (w : Stands n l) → Leaves l n (some (0, w.before ++ w.behind))

-- `give_up_waiting` never walks through NULL: it answers 1 and changes nothing if nobody of that
-- name waits, and else 0, with exactly the first student of that name gone and the order kept.
pub give_up_waiting-Leaves : (l : List Student) (n : Bytes) → Leaves l n (give_up_waiting l n)
unfolding give_up_waiting
give_up_waiting-Leaves l n = elim (find_student-cases l n) [
  | inl (a, e) ↦ rw (e, give_up_waiting) (not_here a)
  | inr (w, e) ↦
      rw (e, give_up_waiting)
        (rw
          (ap (λ t. route_around_overall t (length w.before)) w.split
            ∙ route_around-append w.before w.student w.behind)
          (left w))
]

-- In a queue of distinct names nobody of that name waits any more after `give_up_waiting`.
pub give_up_waiting-Absent :
    (l : List Student) (n : Bytes) (code : ℕ) (l' : List Student)
    → Distinct l
    → give_up_waiting l n ≡ some (code, l')
    → Absent n l' × Distinct l'
give_up_waiting-Absent l n code l' d e = go (give_up_waiting-Leaves l n) e
  where
    go :
        {r : Option (ℕ × List Student)}
        → Leaves l n r
        → r ≡ some (code, l')
        → Absent n l' × Distinct l'
    go (not_here a) p = ground (arith, a, d, p)
    go (left w) p =
        let q : w.before ++ w.behind ≡ l' = ground (arith, p) in
        let d' : Distinct (w.before ++ w.student ∷ w.behind) = rw w.split at d in
        rw (← q) (
          Absent-append n w.before w.behind w.first
              (rw w.named at (Absent-behind w.before w.student w.behind d')),
          Distinct-without w.before w.student w.behind d',
        )
