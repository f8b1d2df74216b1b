-- ===== src/Waitlist/Snoc.antt =====
-- A2/hcq.c: one more student at the end of the queue.
use csc.Common.{
  ℕ, suc, ◌<◌, ◌≡◌, refl, sym, ap, subst, ◌∙◌, inl, inr, true, false, none, some, List, [], ◌∷◌,
  ◌++◌, arith, ◌==◌, ==_iff, Bool-cases, length, get_elem?, set, length-append,
}
use csc.Waitlist.{State, Store}
use csc.Waitlist.Operations.{link_overall, link_course}
use csc.Waitlist.View.{
  Entry, View, Stats, Shows, Facts, Good, addrs, of, live, served, overall, by_course, info,
  course_of, courses_of,
}
use csc.Waitlist.Links.{first, last, has, Linked, Linked-same}
use csc.Waitlist.Good.{Good-change, Good-put, Good-Distinct, addrs-append}
use csc.Waitlist.Courses.{get_elem?-lt, courses_of-set, set-get_elem?}
use csc.Waitlist.ByCourse.{of-append, of-other, has-of_absent, of-Distinct, of-apart}
use csc.Waitlist.Join.{link_overall-Joined, link_course-Enrolled}
use csc.Waitlist.Keeps.{has-live}
use mathlib.Core.List.{append-nil, append_assoc}
use csc.Waitlist.Lookups.{get_elem?-Shows}

abbrev pub snoc : View → Entry → View
snoc v e = record v { queue = v.queue ++ e ∷ [] }

addrs-snoc : (q : List Entry) (e : Entry) → addrs (q ++ e ∷ []) ≡ addrs q ++ e.addr ∷ []
addrs-snoc q e = addrs-append q (e ∷ [])

addrs-of_snoc :
    (q : List Entry) (e : Entry)
    → addrs (of e.course (q ++ e ∷ [])) ≡ addrs (of e.course q) ++ e.addr ∷ []
addrs-of_snoc q e =
    let mine : (e.course == e.course) ≡ true = (==_iff e.course e.course).1 refl in
    ap addrs (of-append e.course q (e ∷ [])) ∙ rw mine (addrs-snoc (of e.course q) e)

of-snoc :
    (k : ℕ) (q : List Entry) (e : Entry) → (k == e.course) ≡ false → of k (q ++ e ∷ []) ≡ of k q
of-snoc k q e d = of-other k q e [] d ∙ ap (of k) (append-nil q)

-- The list of each course, once both kinds of links lead to the new student.
snoc-within :
    (t : State) (v : View) (e : Entry) (h h' : Store)
    → Shows t v
    → ((a : ℕ) → by_course h a ≡ by_course t.store a)
    → Linked (by_course h') (addrs (of e.course v.queue) ++ e.addr ∷ [])
    → ((a : ℕ) → has a (addrs (of e.course v.queue)) ≡ false → by_course h' a ≡ by_course h a)
    → (k : ℕ) → Linked (by_course h') (addrs (of k (v.queue ++ e ∷ [])))
snoc-within t v e h h' w same within others k = elim (Bool-cases (k == e.course)) [
  | inl p ↦
      subst (Linked (by_course h'))
        (sym (
          ap (λ m. addrs (of m (v.queue ++ e ∷ []))) ((==_iff k e.course).0 p)
          ∙ addrs-of_snoc v.queue e))
        within
  | inr p ↦
      let d = Good-Distinct t.store t.next (length v.stats) v.queue (served v.tas) w.good in
      rw (of-snoc k v.queue e p) (
        Linked-same (by_course t.store) (by_course h') (addrs (of k v.queue)) (w.within k)
          (λ a q. others a (of-apart k e.course a v.queue d p q) ∙ same a))
]

-- The new student is among those the view names, each known as before.
snoc-Good :
    (t : State) (v : View) (e : Entry) (h : Store)
    → Good t.store t.next (length v.stats) (live v)
    → Facts t.store t.next (length v.stats) e (live v)
    → ((a : ℕ) → info h a ≡ info t.store a)
    → Good h t.next (length v.stats) (live (snoc v e))
snoc-Good t v e h g (i, apart, lt, known) same = rw (append_assoc v.queue (e ∷ []) (served v.tas)) (
    Good-put h t.next (length v.stats) v.queue e (served v.tas) (same e.addr ∙ i, apart, lt, known)
      (Good-change t.store h t.next t.next (length v.stats) (live v) g (omega arith)
        (λ a q. same a)))

pub length-addrs : (q : List Entry) → length (addrs q) ≡ length q
length-addrs [] = refl
length-addrs (e ∷ q) = ap suc (length-addrs q)

snoc-courses :
    (t : State) (v : View) (e : Entry) (c : Stats)
    → Shows t v
    → get_elem? v.stats e.course ≡ some c
    → set t.courses e.course (record (course_of c (of e.course v.queue)) {
      head = first (addrs (of e.course v.queue) ++ e.addr ∷ []);
      tail = last (addrs (of e.course v.queue) ++ e.addr ∷ []);
    })
      ≡ courses_of 0 v.stats (v.queue ++ e ∷ [])
snoc-courses t v e c w there =
    rw (w.courses, sym (addrs-of_snoc v.queue e))
      (courses_of-set 0 v.stats v.queue (v.queue ++ e ∷ []) e.course e.course c (omega arith)
          (λ m n. of-snoc m v.queue e n)
        ∙ ap (λ cs. courses_of 0 cs (v.queue ++ e ∷ [])) (set-get_elem? v.stats e.course c there))

-- Once the student is made, the writes to both lists put it at their ends.
pub joined-Shows :
    (t : State) (v : View) (e : Entry)
    → Shows t v
    → Facts t.store t.next (length v.stats) e (live v)
    → overall t.store e.addr ≡ some none
    → by_course t.store e.addr ≡ some none
    → length v.queue < t.next
    → (t' u : State) × (link_overall t e.addr ≡ some t')
      × (link_course t' e.course e.addr ≡ some u)
      × Shows u (snoc v e)
joined-Shows t v e w (i, apart, lt, known) new new' short =
    let out : has e.addr (addrs v.queue) ≡ false = ground (arith, has-live v e.addr, apart) in
    let d = Good-Distinct t.store t.next (length v.stats) v.queue (served v.tas) w.good in
    let same_length = length-addrs v.queue in
    let (h, j) =
      link_overall-Joined t (addrs v.queue) e.addr w.front w.along d
        (omega (arith, short, same_length)) new out in
    let t' : State = record t { store = h; stu_list = first (addrs v.queue ++ e.addr ∷ []) } in
    let (c, there) = get_elem?-lt v.stats e.course known in
    let l = of e.course v.queue in
    let (h', n) =
      link_course-Enrolled t' e.course (course_of c l) (addrs l) e.addr
        (get_elem?-Shows t v e.course c w there) refl refl
        (Linked-same (by_course t.store) (by_course h) (addrs l) (w.within e.course)
          (λ a q. j.courses a))
        (of-Distinct e.course v.queue d) (j.courses e.addr ∙ new')
        (has-of_absent e.course e.addr v.queue out) in
    (
      t',
      record t' {
        store = h';
        courses = set t.courses e.course (record (course_of c l) {
          head = first (addrs l ++ e.addr ∷ []);
          tail = last (addrs l ++ e.addr ∷ []);
        });
      },
      j.runs,
      n.runs,
      record {
        courses = snoc-courses t v e c w there;
        tas = w.tas;
        front = ap first (sym (addrs-snoc v.queue e));
        along = rw (addrs-snoc v.queue e) (
            Linked-same (overall h) (overall h') (addrs v.queue ++ e.addr ∷ []) j.along
              (λ a q. n.along a));
        within = snoc-within t v e h h' w j.courses n.within n.others;
        good = snoc-Good t v e h' w.good (i, apart, lt, known) (λ a. n.infos a ∙ j.infos a);
        short = omega (arith, length-append v.queue (e ∷ []), short);
        fresh = w.fresh;
      },
    )
