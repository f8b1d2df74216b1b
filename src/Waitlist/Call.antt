-- ===== src/Waitlist/Call.antt =====
-- A2/hcq.c: what a state shows once a TA has called a student out of the queue.
use csc.Common.{
  ℕ, suc, ◌+◌, ◌<◌, ◌≡◌, refl, sym, ap, subst, ◌∙◌, ◌>>=◌, inl, inr, true, false, none, some, List,
  [], ◌∷◌, ◌++◌, arith, ◌==◌, ==_iff, Bool-cases, length, get_elem?, set, length-append, length-set,
}
use csc.Waitlist.{State, Store, Student, write, difftime}
use csc.Waitlist.Operations.{give}
use csc.Waitlist.View.{
  Entry, Stats, View, Shows, Facts, Good, addrs, of, served, overall, by_course, info, course_of,
  courses_of,
}
use csc.Waitlist.Links.{first, has-apart, Linked, Linked-same}
use csc.Waitlist.Spec.{called, hand, in_hand, change, waited_more}
use csc.Waitlist.Writes.{write-other, write_self, write-same}
use csc.Waitlist.Good.{Good-put, Good-change, ==_comm}
use csc.Waitlist.Courses.{courses_of-set}
use csc.Waitlist.ByCourse.{of-append, of-other}
use csc.Waitlist.GiveUp.{Shows-Facts}
use csc.Waitlist.Hands.{map-hand, hand-same, served-hand}
use mathlib.Core.List.{append_assoc}

-- The TA is free, and the student is the first of the course in the queue.
pub record Ready (s : State) (v : View) (i : ℕ) (before : List Entry) (e : Entry)
    (after : List Entry) : Type 0 where
  pub shows : Shows s v
  pub split : v.queue ≡ before ++ e ∷ after
  pub foremost : of e.course before ≡ []
  pub place : i < length v.tas
  pub free : in_hand v.tas i ≡ none

-- The links are such that the student is out of the overall queue.
pub record Unlinked (s : State) (h : Store) (rest : List Entry) : Type 0 where
  pub along : Linked (overall h) (addrs rest)
  pub courses : (a : ℕ) → by_course h a ≡ by_course s.store a
  pub infos : (a : ℕ) → info h a ≡ info s.store a

pub of-mine :
    (q : List Entry) (e : Entry) (r : List Entry)
    → of e.course q ≡ []
    → of e.course (q ++ e ∷ r) ≡ e ∷ of e.course r
of-mine q e r f =
    let mine : (e.course == e.course) ≡ true = (==_iff e.course e.course).1 refl in
    rw (of-append e.course q (e ∷ r), f, mine) refl

pub Ready-of :
    (s : State) (v : View) (i : ℕ) (before : List Entry) (e : Entry) (after : List Entry)
    → Ready s v i before e after
    → of e.course v.queue ≡ e ∷ of e.course after
Ready-of s v i before e after r = ap (of e.course) r.split ∙ of-mine before e after r.foremost

of-rest :
    (q : List Entry) (e : Entry) (r : List Entry)
    → of e.course q ≡ []
    → of e.course (q ++ r) ≡ of e.course r
of-rest q e r f = rw (of-append e.course q r, f) refl

call-within :
    (s : State) (v : View) (i : ℕ) (before : List Entry) (e : Entry) (after : List Entry)
    (h : Store)
    → Ready s v i before e after
    → ((a : ℕ) → by_course h a ≡ by_course s.store a)
    → (k : ℕ) → Linked (by_course h) (addrs (of k (before ++ after)))
call-within s v i before e after h r same k =
    Linked-same (by_course s.store) (by_course h) (addrs (of k (before ++ after)))
      (elim (Bool-cases (k == e.course)) [
        | inl p ↦
            let old : Linked (by_course s.store) (addrs (e ∷ of e.course after)) =
              subst (λ l. Linked (by_course s.store) (addrs l)) (Ready-of s v i before e after r)
                (r.shows.within e.course) in
            subst (λ m. Linked (by_course s.store) (addrs (of m (before ++ after))))
              (sym ((==_iff k e.course).0 p)) (rw (of-rest before e after r.foremost) old.1)
        | inr p ↦
            subst (λ l. Linked (by_course s.store) (addrs l))
              (ap (of k) r.split ∙ of-other k before e after p) (r.shows.within k)
      ])
      (λ a q. same a)

-- The student moves from the queue to the TA's hand.
call-Good :
    (s : State) (v : View) (i : ℕ) (before : List Entry) (e : Entry) (after : List Entry)
    (h : Store) (now : ℕ)
    → Ready s v i before e after
    → info h e.addr ≡ some (e.name, now, e.course)
    → ((a : ℕ) → (a == e.addr) ≡ false → info h a ≡ info s.store a)
    → Good h s.next
        (length v.stats)
        ((before ++ after) ++ served (hand v.tas i (some (record e { arrival = now }))))
call-Good s v i before e after h now r here others =
    let (front, back, free, busy) = served-hand v.tas i r.place in
    let e' : Entry = record e { arrival = now } in
    let start = before ++ after ++ front in
    let idle : served v.tas ≡ front ++ back =
      ap served (sym (hand-same v.tas i) ∙ ap (hand v.tas i) r.free) ∙ free in
    let same : before ++ (after ++ served v.tas) ≡ (before ++ after ++ front) ++ back =
      sym (append_assoc before after (served v.tas))
      ∙ ap (λ l. (before ++ after) ++ l) idle
      ∙ sym (append_assoc (before ++ after) front back) in
    let ((i', apart, lt, known), good) =
      subst
        (λ l. Facts s.store s.next (length v.stats) e l × Good s.store s.next (length v.stats) l)
        same (Shows-Facts s v before e after r.shows r.split) in
    rw (busy e', sym (append_assoc (before ++ after) front (e' ∷ back)))
      (Good-put h s.next (length v.stats) (before ++ after ++ front) e' back
        (here, apart, lt, known)
        (Good-change s.store h s.next s.next (length v.stats) ((before ++ after ++ front) ++ back)
          good (omega arith)
          (λ a q. others a (
            ==_comm a e.addr
            ∙ has-apart (addrs ((before ++ after ++ front) ++ back)) e.addr a apart q))))

call-courses :
    (s : State) (v : View) (i : ℕ) (before : List Entry) (e : Entry) (after : List Entry)
    (d : Stats)
    → Ready s v i before e after
    → set s.courses e.course (course_of d (of e.course after))
      ≡ courses_of 0 (set v.stats e.course d) (before ++ after)
call-courses s v i before e after d r =
    rw (r.shows.courses, sym (of-rest before e after r.foremost))
      (courses_of-set 0 v.stats v.queue (before ++ after) e.course e.course d (omega arith)
        (λ m n. sym (ap (of m) r.split ∙ of-other m before e after n)))

length-split :
    (s : State) (v : View) (i : ℕ) (before : List Entry) (e : Entry) (after : List Entry)
    → Ready s v i before e after
    → length (before ++ after) < s.next
length-split s v i before e after r =
    let all : length v.queue ≡ length before + suc (length after) =
      ap length r.split ∙ length-append before (e ∷ after) in
    omega (arith, all, length-append before after, r.shows.short)

-- The state after the call, from the one in which the links are set.
abbrev pub after_call :
    State → Store → ℕ → Entry → Student → Stats → List Entry → List Entry → ℕ → State
after_call s h i e m d rest line now = record s {
  store = write h e.addr (some (record m { arrival_time = now }));
  courses = set s.courses e.course (course_of d line);
  stu_list = first (addrs rest);
  ta_list = give s.ta_list i (some e.addr);
}

stored-fields :
    (h : Store) (e : Entry) (m : Student)
    → h e.addr ≡ some m
    → info h e.addr ≡ some (e.name, e.arrival, e.course)
    → (m.name ≡ e.name) × (m.course ≡ e.course)
stored-fields h e m here known =
    let same : some (m.name, m.arrival_time, m.course) ≡ some (e.name, e.arrival, e.course) =
      sym (ap (λ o. o >>= λ k. some (k.name, k.arrival_time, k.course)) here) ∙ known in
    (ground (arith, same), ground (arith, same))

pub called-Shows :
    (s : State) (v : View) (i : ℕ) (before : List Entry) (e : Entry) (after : List Entry)
    (h : Store) (m : Student) (c : Stats) (now : ℕ)
    → Ready s v i before e after
    → Unlinked s h (before ++ after)
    → h e.addr ≡ some m
    → get_elem? v.stats e.course ≡ some c
    → Shows
        (after_call s h i e m
          (waited_more (difftime now e.arrival) c)
          (before ++ after)
          (of e.course after)
          now)
        (called v i e (before ++ after) now)
called-Shows s v i before e after h m c now r out here there =
    let d = waited_more (difftime now e.arrival) c in
    let m' : Student = record m { arrival_time = now } in
    let ((i', apart, lt, known), good) = Shows-Facts s v before e after r.shows r.split in
    let (name, course) = stored-fields h e m here (out.infos e.addr ∙ i') in
    rw (there, change)
      (record {
        courses = call-courses s v i before e after d r;
        tas =
            ap (λ l. give l i (some e.addr)) r.shows.tas
            ∙ sym (map-hand v.tas i (some (record e { arrival = now })));
        front = refl;
        along =
            Linked-same (overall h) (overall (write h e.addr (some m'))) (addrs (before ++ after))
              out.along (λ a q. write-same (λ k. k.next_overall) h e.addr m m' a here refl);
        within = λ k.
            Linked-same (by_course h) (by_course (write h e.addr (some m')))
              (addrs (of k (before ++ after))) (call-within s v i before e after h r out.courses k)
              (λ a q. write-same (λ k. k.next_course) h e.addr m m' a here refl);
        good = rw (length-set v.stats e.course d) (
            call-Good s v i before e after (write h e.addr (some m')) now r
              (write_self (λ k. (k.name, k.arrival_time, k.course)) h e.addr m'
                ∙ rw (name, course) refl)
              (λ a q.
                write-other (λ k. (k.name, k.arrival_time, k.course)) h e.addr (some m') a q
                ∙ out.infos a));
        short = omega (arith, length-split s v i before e after r);
        fresh = r.shows.fresh;
      })
