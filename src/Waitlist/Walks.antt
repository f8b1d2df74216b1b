-- ===== src/Waitlist/Walks.antt =====
-- A2/hcq.c: the loops along the links find what they look for, and end.
use csc.Common.{
  ℕ, zero, suc, ◌<◌, ◌≡◌, refl, ap, >>=-eq-some, >>=-some, inl, inr, true, false, Option, none,
  some, List, [], ◌∷◌, ◌++◌, arith, ◌==◌, if◌then◌else◌, ==_iff, Bool-cases, length, Bytes, str_eq,
}
use csc.Waitlist.{Student, Store, find_student}
use csc.Waitlist.Operations.{find_tail, walk_overall, walk_course, find_previous}
use csc.Waitlist.Links.{first, last_of, has, Distinct, Linked, has-append, has-apart}
use csc.Waitlist.View.{addr_of, Entry, addrs, overall, by_course, Infos}
use csc.Waitlist.Writes.{info-Stored, overall-next}

-- The first student of that name.
abbrev pub find_entry : Bytes → List Entry → Option Entry
find_entry name [] = none
find_entry name (e ∷ q) =
    let rest = find_entry name q in if str_eq e.name name then some e else rest

pub find_student-find_entry :
    (k : ℕ) (h : Store) (q : List Entry) (name : Bytes)
    → length q < k
    → Linked (overall h) (addrs q)
    → Infos h q
    → find_student k h (first (addrs q)) name ≡ some (addr_of (find_entry name q))
unfolding find_student
find_student-find_entry zero h q name l c i = absurd (omega (arith, l))
find_student-find_entry (suc k) h [] name l c i = refl
find_student-find_entry (suc k) h (e ∷ q) name l (c, cs) (i, is) =
    let s = info-Stored h e i in
    let same : s.student.next_overall ≡ first (addrs q) =
      overall-next h e.addr s.student (first (addrs q)) s.here c in
    let rest = find_student-find_entry k h q name (omega (arith, l)) cs is in
    >>=-some _ s.here (elim (Bool-cases (str_eq e.name name)) [
      | inl p ↦ rw (s.name, p) refl
      | inr p ↦ rw (s.name, p, same) rest
    ])

-- A pointer of the chain is read.
pub linked-load :
    (h : Store) (a : ℕ) (v : Option ℕ)
    → overall h a ≡ some v
    → (n : Student) × (h a ≡ some n) × (n.next_overall ≡ v)
linked-load h a v e =
    let (n, here, same) = >>=-eq-some (h a) (λ k. some k.next_overall) e in
    (n, here, ground (arith, same))

pub linked-load_course :
    (h : Store) (a : ℕ) (v : Option ℕ)
    → by_course h a ≡ some v
    → (n : Student) × (h a ≡ some n) × (n.next_course ≡ v)
linked-load_course h a v e =
    let (n, here, same) = >>=-eq-some (h a) (λ k. some k.next_course) e in
    (n, here, ground (arith, same))

pub find_tail-last_of :
    (k : ℕ) (h : Store) (a : ℕ) (l : List ℕ)
    → length l < k
    → Linked (overall h) (a ∷ l)
    → find_tail k h a ≡ some (last_of a l)
unfolding find_tail
find_tail-last_of zero h a l s c = absurd (omega (arith, s))
find_tail-last_of (suc k) h a [] s (c, cs) =
    let (n, here, same) = linked-load h a none c in >>=-some _ here (rw same refl)
find_tail-last_of (suc k) h a (b ∷ l) s (c, cs) =
    let (n, here, same) = linked-load h a (some b) c in
    >>=-some _ here (rw same (find_tail-last_of k h b l (omega (arith, s)) cs))

pub walk_overall-found :
    (k : ℕ) (h : Store) (l : List ℕ) (x : ℕ)
    → length l < k
    → Linked (overall h) l
    → has x l ≡ true
    → walk_overall k h (first l) x ≡ some (some x)
unfolding walk_overall
walk_overall-found zero h l x s c m = absurd (omega (arith, s))
walk_overall-found (suc k) h [] x s c m = ground (arith, m)
walk_overall-found (suc k) h (a ∷ l) x s (c, cs) m = elim (Bool-cases (a == x)) [
  | inl e ↦ rw (e, walk_overall) (ap (λ b. some (some b)) ((==_iff a x).0 e))
  | inr e ↦
      let (n, here, same) = linked-load h a (first l) c in
      rw (e, walk_overall)
        (>>=-some _ here
          (rw same (walk_overall-found k h l x (omega (arith, s)) cs (ground (arith, m, e)))))
]

pub walk_course-found :
    (k : ℕ) (h : Store) (l : List ℕ) (x : ℕ)
    → length l < k
    → Linked (by_course h) l
    → has x l ≡ true
    → walk_course k h (first l) x ≡ some (some x)
unfolding walk_course
walk_course-found zero h l x s c m = absurd (omega (arith, s))
walk_course-found (suc k) h [] x s c m = ground (arith, m)
walk_course-found (suc k) h (a ∷ l) x s (c, cs) m = elim (Bool-cases (a == x)) [
  | inl e ↦ rw (e, walk_course) (ap (λ b. some (some b)) ((==_iff a x).0 e))
  | inr e ↦
      let (n, here, same) = linked-load_course h a (first l) c in
      rw (e, walk_course)
        (>>=-some _ here
          (rw same (walk_course-found k h l x (omega (arith, s)) cs (ground (arith, m, e)))))
]

pub find_previous-last_of :
    (k : ℕ) (h : Store) (a : ℕ) (l : List ℕ) (x : ℕ) (m : List ℕ)
    → length l < k
    → Linked (overall h) (a ∷ l ++ x ∷ m)
    → Distinct (a ∷ l ++ x ∷ m)
    → find_previous k h (some a) x ≡ some (last_of a l)
unfolding find_previous
find_previous-last_of zero h a l x m s c d = absurd (omega (arith, s))
find_previous-last_of (suc k) h a [] x m s (c, cs) d =
    let (n, here, same) = linked-load h a (some x) c in
    let hit : (x == x) ≡ true = (==_iff x x).1 refl in >>=-some _ here (rw (same, hit) refl)
find_previous-last_of (suc k) h a (b ∷ l) x m s (c, cs) (d, ds) =
    let (n, here, same) = linked-load h a (some b) c in
    let there : has x (l ++ x ∷ m) ≡ true =
      ground (arith, has-append x l (x ∷ m), (==_iff x x).1 refl) in
    let miss : (b == x) ≡ false = has-apart (l ++ x ∷ m) b x ds.0 there in
    >>=-some _ here (rw (same, miss) (find_previous-last_of k h b l x m (omega (arith, s)) cs ds))
