-- ===== src/Waitlist/GiveUp.antt =====
-- A2/hcq.c: `give_up_waiting` counts the student as gone, and leaves both lists as they were.
use csc.Common.{
  ℕ, ◌≤◌, ◌≡◌, refl, sym, ap, subst, ◌∙◌, ◌>>=◌, >>=-eq-some, >>=-some, inl, inr, true, some, List,
  [], ◌∷◌, ◌++◌, arith, ◌==◌, ==_iff, Bool-cases, Option-cases, length, set, Bytes, str_eq,
}
use csc.Waitlist.{State, Store, Student, rounds, difftime}
use csc.Waitlist.Operations.{give_up_waiting, give_up_found, unlink, walk_overall}
use csc.Waitlist.View.{
  addr_of, Entry, View, Shows, Facts, Good, addrs, of, served, overall, by_course, info, course_of,
}
use csc.Waitlist.Links.{has}
use csc.Waitlist.Writes.{info-Stored, set_next_overall-Relinked, set_next_course-Recoursed}
use csc.Waitlist.Walks.{find_entry, walk_overall-found, walk_course-found}
use csc.Waitlist.Good.{Good-take}
use csc.Waitlist.Courses.{get_elem?-lt}
use csc.Waitlist.ByCourse.{of-append}
use csc.Waitlist.Keeps.{Shows-observe, Shows-count}
use csc.Waitlist.Lookups.{find_student-Shows, get_elem?-Shows}
use csc.Waitlist.Snoc.{length-addrs}
use csc.Waitlist.Spec.{given_up, change, one_bailed, waited_more, Yields}
use mathlib.Core.List.{append_assoc}

-- The three things that are read of a store are as they were.
pub record Alike (h h' : Store) : Type 0 where
  pub along : (a : ℕ) → overall h' a ≡ overall h a
  pub courses : (a : ℕ) → by_course h' a ≡ by_course h a
  pub infos : (a : ℕ) → info h' a ≡ info h a

-- Both walks have come to the student itself, so its links are written to themselves.
unlink-Alike :
    (h : Store) (p : ℕ) (n : Student)
    → h p ≡ some n
    → (h' : Store) × (unlink h n (some p) (some p) ≡ some h') × Alike h h'
unfolding unlink
unlink-Alike h p n here =
    let (h1, runs1, r1) = set_next_overall-Relinked h p n.next_overall n here in
    let known : info h1 p ≡ some (n.name, n.arrival_time, n.course) =
      r1.infos p ∙ ap (λ o. o >>= λ m. some (m.name, m.arrival_time, m.course)) here in
    let (m, here1, same) =
      >>=-eq-some (h1 p) (λ k. some (k.name, k.arrival_time, k.course)) known in
    let (h2, runs2, r2) = set_next_course-Recoursed h1 p n.next_course m here1 in
    let self : (p == p) ≡ true = (==_iff p p).1 refl in
    let keeps_overall : (a : ℕ) → overall h1 a ≡ overall h a = λ a. elim (Bool-cases (a == p)) [
      | inl e ↦
          subst (λ b. overall h1 b ≡ overall h b) (sym ((==_iff a p).0 e))
            (r1.changed ∙ sym (ap (λ o. o >>= λ k. some k.next_overall) here))
      | inr e ↦ r1.others a e
    ] in
    let keeps_course : (a : ℕ) → by_course h2 a ≡ by_course h a = λ a. elim (Bool-cases (a == p)) [
      | inl e ↦
          subst (λ b. by_course h2 b ≡ by_course h b) (sym ((==_iff a p).0 e))
            (r2.changed ∙ sym (ap (λ o. o >>= λ k. some k.next_course) here))
      | inr e ↦ r2.others a e ∙ r1.courses a
    ] in
    (
      h2,
      rw (self, unlink) (>>=-some _ runs1 runs2),
      record {
        along = λ a. r2.along a ∙ keeps_overall a;
        courses = keeps_course;
        infos = λ a. r2.infos a ∙ r1.infos a;
      },
    )

pub find_entry-split :
    (name : Bytes) (q : List Entry) (e : Entry)
    → find_entry name q ≡ some e
    → (before after : List Entry) × (q ≡ before ++ e ∷ after)
find_entry-split name [] e f = ground (arith, f)
find_entry-split name (x ∷ q) e f = elim (Bool-cases (str_eq x.name name)) [
  | inl p ↦ let same : x ≡ e = ground (arith, p, f) in ([], q, ap (λ y. y ∷ q) same)
  | inr p ↦
      let (before, after, split) = find_entry-split name q e (ground (arith, p, f)) in
      (x ∷ before, after, ap (λ l. x ∷ l) split)
]

has-split : (q : List Entry) (e : Entry) (r : List Entry) → has e.addr (addrs (q ++ e ∷ r)) ≡ true
has-split [] e r = rw ((==_iff e.addr e.addr).1 refl) refl
has-split (x ∷ q) e r = ground (arith, has-split q e r)

pub has-split_of :
    (q : List Entry) (e : Entry) (r : List Entry)
    → has e.addr (addrs (of e.course (q ++ e ∷ r))) ≡ true
has-split_of q e r =
    let mine : (e.course == e.course) ≡ true = (==_iff e.course e.course).1 refl in
    rw (of-append e.course q (e ∷ r), mine) (has-split (of e.course q) e (of e.course r))

pub Shows-Facts :
    (s : State) (v : View) (before : List Entry) (e : Entry) (after : List Entry)
    → Shows s v
    → v.queue ≡ before ++ e ∷ after
    → Facts s.store s.next (length v.stats) e (before ++ (after ++ served v.tas))
      × Good s.store s.next (length v.stats) (before ++ (after ++ served v.tas))
Shows-Facts s v before e after w split =
    Good-take s.store s.next (length v.stats) before e (after ++ served v.tas) (
      subst (Good s.store s.next (length v.stats))
        (ap (λ q. q ++ served v.tas) split ∙ append_assoc before (e ∷ after) (served v.tas)) w.good)

pub length-of : (k : ℕ) (q : List Entry) → length (of k q) ≤ length q
length-of k [] = omega arith
length-of k (e ∷ q) = elim (Bool-cases (e.course == k)) [
  | inl p ↦ rw p (omega (arith, length-of k q))
  | inr p ↦ rw p (omega (arith, length-of k q))
]

give_up_found-Shows :
    (s : State) (v : View) (before : List Entry) (e : Entry) (after : List Entry) (now : ℕ)
    → Shows s v
    → v.queue ≡ before ++ e ∷ after
    → Yields (give_up_found s e.addr now) (
      0,
      record v {
        stats = change v.stats e.course (λ c. one_bailed (waited_more (difftime now e.arrival) c));
      },
    )
unfolding give_up_found
give_up_found-Shows s v before e after now w split =
    let ((i, apart, lt, known), good) = Shows-Facts s v before e after w split in
    let x = info-Stored s.store e i in
    let n = x.student in
    let (c, there) = get_elem?-lt v.stats e.course known in
    let l = of e.course v.queue in
    let (h, runs, same) = unlink-Alike s.store e.addr n x.here in
    let u : State = record s { store = h } in
    let waits : has e.addr (addrs v.queue) ≡ true =
      subst (λ q. has e.addr (addrs q) ≡ true) (sym split) (has-split before e after) in
    let waits' : has e.addr (addrs l) ≡ true =
      subst (λ q. has e.addr (addrs (of e.course q)) ≡ true) (sym split)
        (has-split_of before e after) in
    let d = one_bailed (waited_more (difftime now e.arrival) c) in
    let observed : Shows u v =
      Shows-observe s v h s.next v.next w (omega arith) w.fresh (λ a q. same.along a)
        (λ a q. same.courses a) (λ a q. same.infos a) in
    (
      record u { courses = set s.courses e.course (course_of d l) },
      >>=-some _ x.here (
          rw (x.course, x.arrival)
            (>>=-some _ (get_elem?-Shows s v e.course c w there) (
              >>=-some _
                (ap (λ p. walk_overall (rounds s) s.store p e.addr) w.front
                  ∙ walk_overall-found (rounds s) s.store (addrs v.queue) e.addr
                      (omega (arith, w.short, length-addrs v.queue)) w.along waits)
                (>>=-some _
                  (walk_course-found (rounds s) s.store (addrs l) e.addr
                    (omega (arith, w.short, length-addrs l, length-of e.course v.queue))
                    (w.within e.course) waits')
                  (>>=-some _ runs refl))))),
      rw (there, change) (Shows-count u v e.course d observed),
    )

-- In a state that shows a view, giving up returns and does to the view what is specified: 1 and no
-- change for a name that does not wait, else 0, and the statistics count the student, who still waits.
pub give_up_waiting-Yields :
    (s : State) (v : View) (name : Bytes) (now : ℕ)
    → Shows s v
    → Yields (give_up_waiting s name now) (given_up v name now)
unfolding give_up_waiting
give_up_waiting-Yields s v name now w = elim (Option-cases (find_entry name v.queue)) [
  | inl f ↦
      rw (f, given_up)
        (s, >>=-some _ (find_student-Shows s v name w ∙ ap (λ o. some (addr_of o)) f) refl, w)
  | inr (e, f) ↦
      let (before, after, split) = find_entry-split name v.queue e f in
      let (u, runs, shows) = give_up_found-Shows s v before e after now w split in
      rw (f, given_up)
        (u, >>=-some _ (find_student-Shows s v name w ∙ ap (λ o. some (addr_of o)) f) runs, shows)
]
