-- ===== src/Waitlist/Courses.antt =====
-- A2/hcq.c: the lists of the courses, when the queue changes.
use csc.Common.{
  ℕ, zero, suc, ◌+◌, ◌≤◌, ◌<◌, ◌≡◌, refl, ap, ◌>>=◌, inl, inr, false, Option, none, some, List, [],
  ◌∷◌, arith, ◌==◌, if◌then◌else◌, Bool-cases, Option-cases, length, get_elem?, set, Bytes, str_eq,
}
use csc.Waitlist.{find_course}
use csc.Waitlist.View.{Entry, Stats, of, course_of, courses_of}
use mathlib.Core.Option

-- The course of that code.
abbrev pub find_stats : List Stats → Bytes → Option ℕ
find_stats [] code = none
find_stats (c ∷ cs) code =
    let rest = find_stats cs code in if str_eq c.code code then some 0 else Option.map suc rest

pub find_course-courses_of :
    (i : ℕ) (cs : List Stats) (q : List Entry) (code : Bytes)
    → find_course (courses_of i cs q) code ≡ find_stats cs code
unfolding find_course
find_course-courses_of i [] q code = refl
find_course-courses_of i (c ∷ cs) q code = rw (find_course-courses_of (suc i) cs q code) refl

pub find_stats-get :
    (cs : List Stats) (code : Bytes) (k : ℕ) → find_stats cs code ≡ some k → k < length cs
find_stats-get [] code k e = ground (arith, e)
find_stats-get (c ∷ cs) code k e = elim (Bool-cases (str_eq c.code code)) [
  | inl p ↦ ground (arith, p, e)
  | inr p ↦ elim (Option-cases (find_stats cs code)) [
    | inl n ↦ ground (arith, p, e, n)
    | inr (j, f) ↦ let lt = find_stats-get cs code j f in ground (arith, p, e, f, lt)
  ]
]

pub get_elem?-lt :
    {A : Type 0} (l : List A) (k : ℕ) → k < length l → (a : A) × (get_elem? l k ≡ some a)
get_elem?-lt [] k lt = absurd (omega (arith, lt))
get_elem?-lt (a ∷ l) zero lt = (a, refl)
get_elem?-lt (a ∷ l) (suc k) lt = get_elem?-lt l k (omega (arith, lt))

pub get_elem?-courses_of :
    (i : ℕ) (cs : List Stats) (q : List Entry) (k j : ℕ) (c : Stats)
    → get_elem? cs k ≡ some c
    → j ≡ k + i
    → get_elem? (courses_of i cs q) k ≡ some (course_of c (of j q))
get_elem?-courses_of i [] q k j c e p = ground (arith, e)
get_elem?-courses_of i (d ∷ cs) q zero j c e p =
    let start : j ≡ i = omega (arith, p) in
    rw start (ap (λ o. o >>= λ x. some (course_of x (of i q))) e)
get_elem?-courses_of i (d ∷ cs) q (suc k) j c e p =
    get_elem?-courses_of (suc i) cs q k j c e (omega (arith, p))

pub courses_of-same :
    (i : ℕ) (cs : List Stats) (q r : List Entry)
    → ((j : ℕ) → i ≤ j → of j r ≡ of j q)
    → courses_of i cs q ≡ courses_of i cs r
courses_of-same i [] q r same = refl
courses_of-same i (c ∷ cs) q r same =
    rw (same i (omega arith), courses_of-same (suc i) cs q r (λ j le. same j (omega (arith, le))))
      refl

-- One course changes, in its statistics and its list.
pub courses_of-set :
    (i : ℕ) (cs : List Stats) (q r : List Entry) (k j : ℕ) (d : Stats)
    → j ≡ k + i
    → ((m : ℕ) → (m == j) ≡ false → of m r ≡ of m q)
    → set (courses_of i cs q) k (course_of d (of j r)) ≡ courses_of i (set cs k d) r
courses_of-set i [] q r k j d p same = refl
courses_of-set i (c ∷ cs) q r zero j d p same =
    let start : j ≡ i = omega (arith, p) in
    rw (start, courses_of-same (suc i) cs q r (λ m le. same m (ground (arith, p, le)))) refl
courses_of-set i (c ∷ cs) q r (suc k) j d p same =
    rw (same i (ground (arith, p)), courses_of-set (suc i) cs q r k j d (omega (arith, p)) same)
      refl

pub set-get_elem? :
    {A : Type 0} (l : List A) (k : ℕ) (a : A) → get_elem? l k ≡ some a → set l k a ≡ l
set-get_elem? [] k a e = refl
set-get_elem? (b ∷ l) zero a e = let same : b ≡ a = ground (arith, e) in rw same refl
set-get_elem? (b ∷ l) (suc k) a e = ap (λ m. b ∷ m) (set-get_elem? l k a e)
