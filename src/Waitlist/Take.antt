-- ===== src/Waitlist/Take.antt =====
-- A2/hcq.c: `take_next_overall` and `take_next_course` do what the view says.
use csc.Common.{
  ℕ, ◌<◌, ◌≡◌, refl, sym, ap, subst, ◌∙◌, >>=-some, ◌⊎◌, inl, inr, none, some, List, [], ◌∷◌, ◌++◌,
  map, arith, Option-cases, length, get_elem?, length-append,
}
use csc.Waitlist.{State, Course, difftime}
use csc.Waitlist.Operations.{take_first, take_of_course, next_of_course, leave_overall, give}
use csc.Waitlist.View.{
  Entry, Stats, View, Shows, addrs, of, served, overall, by_course, course_of, ta_of,
}
use csc.Waitlist.Links.{Linked-at, first, Linked, Distinct}
use csc.Waitlist.Spec.{called, hand, in_hand, call_first, waited_more, Yields}
use csc.Waitlist.Writes.{info-Stored, overall-next}
use csc.Waitlist.Good.{Good-Distinct, addrs-append}
use csc.Waitlist.Courses.{get_elem?-lt}
use csc.Waitlist.ByCourse.{of-Distinct}
use csc.Waitlist.GiveUp.{Shows-Facts}
use csc.Waitlist.Lookups.{get_elem?-Shows}
use csc.Waitlist.Snoc.{length-addrs}
use csc.Waitlist.Hands.{map-hand, hand-same, give-give}
use csc.Waitlist.Leave.{next_of_course_lem, leave_overall-Left}
use csc.Waitlist.Call.{Ready, Unlinked, Ready-of, called-Shows, after_call}

-- The list of the student's course loses its first.
course-next_of :
    (s : State) (v : View) (i : ℕ) (before : List Entry) (e : Entry) (after : List Entry)
    (c : Stats)
    → Ready s v i before e after
    → next_of_course s.store (course_of c (of e.course v.queue))
      ≡ some (course_of c (of e.course after))
course-next_of s v i before e after c r =
    let line = Ready-of s v i before e after r in
    let w = r.shows in
    let all : Linked (by_course s.store) (addrs (e ∷ of e.course after)) =
      subst (λ l. Linked (by_course s.store) (addrs l)) line (w.within e.course) in
    let d : Distinct (addrs (e ∷ of e.course after)) =
      subst (λ l. Distinct (addrs l)) line
        (of-Distinct e.course v.queue
          (Good-Distinct s.store s.next (length v.stats) v.queue (served v.tas) w.good)) in
    ap (λ l. next_of_course s.store (course_of c l)) line
    ∙ next_of_course_lem s.store c e (of e.course after) all.0 d

pub queue-cases : (q : List Entry) → (q ≡ []) ⊎ ((e : Entry) × (r : List Entry) × (q ≡ e ∷ r))
queue-cases [] = inl refl
queue-cases (e ∷ r) = inr (e, r, refl)

pub free-same :
    (s : State) (v : View) (i : ℕ)
    → Shows s v
    → in_hand v.tas i ≡ none
    → give s.ta_list i none ≡ s.ta_list
free-same s v i w free =
    ap (λ l. give l i none) w.tas
    ∙ sym (map-hand v.tas i none)
    ∙ ap (map ta_of) (ap (hand v.tas i) (sym free) ∙ hand-same v.tas i)
    ∙ sym w.tas

pub take_first-Shows :
    (s : State) (v : View) (i now : ℕ)
    → Shows s v
    → i < length v.tas
    → in_hand v.tas i ≡ none
    → Yields (take_first s i now) (0, call_first v i now)
unfolding take_first
take_first-Shows s v i now w lt free = elim (queue-cases v.queue) [
  | inl n ↦
      rw (n, call_first)
        (
          s,
          rw (w.front ∙ ap (λ q. first (addrs q)) n, take_first)
              (ap (λ l. some (0, record s { ta_list = l })) (free-same s v i w free)
                ∙ ap (λ q. some (0, record s { stu_list = q }))
                    (w.front ∙ ap (λ q. first (addrs q)) n)),
          w,
        )
  | inr (e, after, split) ↦
      let r : Ready s v i [] e after = record {
        shows = w;
        split = split;
        foremost = refl;
        place = lt;
        free = free;
      } in
      let ((known, apart, below, there), good) = Shows-Facts s v [] e after w split in
      let x = info-Stored s.store e known in
      let (c, at) = get_elem?-lt v.stats e.course there in
      let line : Linked (overall s.store) (addrs (e ∷ after)) =
        subst (λ q. Linked (overall s.store) (addrs q)) split w.along in
      let out : Unlinked s s.store after = record {
        along = line.1;
        courses = λ a. refl;
        infos = λ a. refl;
      } in
      let next = overall-next s.store e.addr x.student (first (addrs after)) x.here line.0 in
      rw (split, call_first)
        (
          after_call s s.store i e x.student (waited_more (difftime now e.arrival) c) after
              (of e.course after) now,
          rw (w.front ∙ ap (λ q. first (addrs q)) split, take_first)
              (>>=-some _ x.here (
                rw (x.course, x.arrival)
                  (>>=-some _ (get_elem?-Shows s v e.course c w at) (
                    >>=-some _
                      (course-next_of s v i [] e after (waited_more (difftime now e.arrival) c) r)
                      (rw next refl))))),
          called-Shows s v i [] e after s.store x.student c now r out x.here at,
        )
]

-- The pointer that was left to the freed student is overwritten.
pub take_first-cleared :
    (s : State) (i now : ℕ)
    → take_first (record s { ta_list = give s.ta_list i none }) i now ≡ take_first s i now
unfolding take_first
take_first-cleared s i now = elim (Option-cases s.stu_list) [
  | inl n ↦ rw (n, take_first, give-give s.ta_list i none none) refl
  | inr (p, n) ↦ rw (n, take_first, give-give s.ta_list i none (some p)) refl
]

pub take_of_course-cleared :
    (s : State) (i k p : ℕ) (c : Course) (now : ℕ)
    → take_of_course (record s { ta_list = give s.ta_list i none }) i k p c now
      ≡ take_of_course s i k p c now
unfolding take_of_course leave_overall
take_of_course-cleared s i k p c now = rw (take_of_course, give-give s.ta_list i none (some p)) refl

pub take_of_course-Shows :
    (s : State) (v : View) (i : ℕ) (before : List Entry) (e : Entry) (after : List Entry)
    (c : Stats) (now : ℕ)
    → Ready s v i before e after
    → get_elem? v.stats e.course ≡ some c
    → Yields
        (take_of_course s i e.course e.addr (course_of c (of e.course v.queue)) now)
        (0, called v i e (before ++ after) now)
unfolding take_of_course
take_of_course-Shows s v i before e after c now r at =
    let w = r.shows in
    let ((known, apart, below, there), good) = Shows-Facts s v before e after w r.split in
    let x = info-Stored s.store e known in
    let order : addrs v.queue ≡ addrs before ++ e.addr ∷ addrs after =
      ap addrs r.split ∙ addrs-append before (e ∷ after) in
    let along : Linked (overall s.store) (addrs before ++ e.addr ∷ addrs after) =
      subst (Linked (overall s.store)) order w.along in
    let d : Distinct (addrs before ++ e.addr ∷ addrs after) =
      subst Distinct order
        (Good-Distinct s.store s.next (length v.stats) v.queue (served v.tas) w.good) in
    let (h, left) =
      leave_overall-Left s (addrs before) e.addr (addrs after) x.student (w.front ∙ ap first order)
        along d
        (omega (
          arith,
          ap length r.split ∙ length-append before (e ∷ after),
          w.short,
          length-addrs before,
        ))
        (overall-next s.store e.addr x.student (first (addrs after)) x.here
          (Linked-at (overall s.store) (addrs before) e.addr (addrs after) along)) in
    let out : Unlinked s h (before ++ after) = record {
      along = rw (addrs-append before after) left.along;
      courses = left.courses;
      infos = left.infos;
    } in
    let y = info-Stored h e (left.infos e.addr ∙ known) in
    (
      after_call s h i e y.student (waited_more (difftime now e.arrival) c) (before ++ after)
          (of e.course after) now,
      (>>=-some _ x.here (
          >>=-some _ (course-next_of s v i before e after c r) (
            >>=-some _ left.runs
              (>>=-some _ y.here (rw (y.arrival, addrs-append before after) refl))))),
      called-Shows s v i before e after h y.student c now r out y.here at,
    )
