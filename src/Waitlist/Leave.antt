-- ===== src/Waitlist/Leave.antt =====
-- A2/hcq.c, lines 270 to 275 and 303 to 318: a student leaves the list of its course, of which it is
-- the first, and the overall queue.
use csc.Common.{
  ℕ, ◌<◌, ◌≡◌, refl, ap, ◌∙◌, >>=-eq-some, >>=-some, true, false, some, List, [], ◌∷◌, ◌++◌, arith,
  ◌==◌, ==_iff, length,
}
use csc.Waitlist.{State, Store, Student, rounds}
use csc.Waitlist.Operations.{next_of_course, leave_overall, find_previous}
use csc.Waitlist.View.{Entry, Stats, addrs, overall, by_course, info, course_of}
use csc.Waitlist.Links.{
  first, last_of, has, has-append, has-last_of, has-apart, Distinct, Linked, Linked-remove,
}
use csc.Waitlist.Writes.{set_next_overall-Relinked}
use csc.Waitlist.Walks.{find_previous-last_of, linked-load_course}
use csc.Waitlist.Good.{==_comm}

pub next_of_course_lem :
    (h : Store) (c : Stats) (e : Entry) (r : List Entry)
    → by_course h e.addr ≡ some (first (addrs r))
    → Distinct (addrs (e ∷ r))
    → next_of_course h (course_of c (e ∷ r)) ≡ some (course_of c r)
unfolding next_of_course
next_of_course_lem h c e [] next d =
    let self : (e.addr == e.addr) ≡ true = (==_iff e.addr e.addr).1 refl in
    rw (self, next_of_course) refl
next_of_course_lem h c e (x ∷ r) next (d, ds) =
    let (n, here, same) = linked-load_course h e.addr (some x.addr) next in
    let differ : (e.addr == last_of x.addr (addrs r)) ≡ false =
      has-apart (addrs (x ∷ r)) e.addr (last_of x.addr (addrs r)) d
        (has-last_of x.addr (addrs r)) in
    rw (differ, next_of_course) (>>=-some _ here (rw same refl))

-- What is known once `p` has left the overall queue, in which `rest` is left.
pub record Left (s : State) (p : ℕ) (n : Student) (rest : List ℕ) (h : Store) : Type 0 where
  pub runs : leave_overall s p n ≡ some (h, first rest)
  pub along : Linked (overall h) rest
  pub courses : (a : ℕ) → by_course h a ≡ by_course s.store a
  pub infos : (a : ℕ) → info h a ≡ info s.store a

linked-prefix :
    (h : Store) (a : ℕ) (l m : List ℕ)
    → Linked (overall h) (a ∷ l ++ m)
    → (n : Student) × (h (last_of a l) ≡ some n)
linked-prefix h a [] m (c, cs) =
    let (n, here, same) = >>=-eq-some (h a) (λ k. some k.next_overall) c in (n, here)
linked-prefix h a (b ∷ l) m (c, cs) = linked-prefix h b l m cs

pub leave_overall-Left :
    (s : State) (before : List ℕ) (p : ℕ) (after : List ℕ) (n : Student)
    → s.stu_list ≡ first (before ++ p ∷ after)
    → Linked (overall s.store) (before ++ p ∷ after)
    → Distinct (before ++ p ∷ after)
    → length before < rounds s
    → n.next_overall ≡ first after
    → (h : Store) × Left s p n (before ++ after) h
unfolding leave_overall
leave_overall-Left s [] p after n front (c, cs) d short next =
    let self : (p == p) ≡ true = (==_iff p p).1 refl in
    (
      s.store,
      record {
        runs = rw (front, self, leave_overall) (ap (λ q. some (s.store, q)) next);
        along = cs;
        courses = λ a. refl;
        infos = λ a. refl;
      },
    )
leave_overall-Left s (b ∷ l) p after n front along d short next =
    let there : has p (l ++ p ∷ after) ≡ true =
      ground (arith, has-append p l (p ∷ after), (==_iff p p).1 refl) in
    let differ : (p == b) ≡ false = ==_comm p b ∙ has-apart (l ++ p ∷ after) b p d.0 there in
    let (m, here) = linked-prefix s.store b l (p ∷ after) along in
    let (h, runs, r) = set_next_overall-Relinked s.store (last_of b l) (first after) m here in
    (
      h,
      record {
        runs =
            rw (front, differ, leave_overall)
              (>>=-some _
                (ap (λ q. find_previous (rounds s) s.store q p) front
                  ∙ find_previous-last_of (rounds s) s.store b l p after (omega (arith, short))
                      along d)
                (rw next (>>=-some _ runs (rw front refl))));
        along =
            Linked-remove (overall s.store) (overall h) b l p after d along r.changed
              (λ a i. r.others a i);
        courses = r.courses;
        infos = r.infos;
      },
    )
