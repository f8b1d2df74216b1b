-- ===== src/Waitlist/NextCourse.antt =====
-- A2/hcq.c: `take_next_course`, refined.
use csc.Common.{
  ℕ, ◌<◌, ◌≡◌, refl, sym, ap, subst, ◌∙◌, >>=-some, inl, inr, none, some, List, [], Option-cases,
  length, get_elem?, Bytes,
}
use csc.Waitlist.{State, Ta, find_course}
use csc.Waitlist.Operations.{take_of_course, take_next_course, give}
use csc.Waitlist.View.{Entry, Stats, View, Shows, addrs, of, course_of}
use csc.Waitlist.Links.{first}
use csc.Waitlist.Spec.{
  called, finished, in_hand, find_view, call_for, next_course, take_out, Yields,
}
use csc.Waitlist.Courses.{get_elem?-lt, find_stats, find_stats-get}
use csc.Waitlist.Lookups.{get_elem?-Shows, find_course-Shows}
use csc.Waitlist.Call.{Ready, of-mine}
use csc.Waitlist.Take.{take_of_course-Shows, take_of_course-cleared, free-same}
use csc.Waitlist.TakeOut.{take_out-split, take_out-none}
use csc.Waitlist.Next.{
  find_ta-Shows, finished-free, finished-length, finished-queue, finished-find, Released,
  release-Released,
}

-- A TA that asks for a course for which nobody waits has no student in hand.
abbrev pub Answered : View → Bytes → Bytes → Type 0
Answered v ta_name code =
    (i k : ℕ)
    → find_view v.tas ta_name ≡ some i
    → find_stats v.stats code ≡ some k
    → of k v.queue ≡ []
    → in_hand v.tas i ≡ none

-- The course is there, and the state is the one in which the TA's pointer is cleared.
pub found_course :
    (s : State) (v : View) (i now : ℕ) (t : Ta) (u : State) (code : Bytes)
    → Released s v i now t u
    → find_course u.courses code ≡ find_stats v.stats code
found_course s v i now t u code r =
    find_course-Shows (record u { ta_list = give u.ta_list i none }) (finished v i now) code r.shows
    ∙ finished-find v i now code

call_for-Shows :
    (u : State) (v : View) (i k now : ℕ) (c : Stats) (e : Entry) (rest : List Entry)
    → Shows u v
    → i < length v.tas
    → in_hand v.tas i ≡ none
    → get_elem? v.stats k ≡ some c
    → take_out k v.queue ≡ some (e, rest)
    → Yields
        (take_of_course u i k e.addr (course_of c (of k v.queue)) now)
        (0, called v i e rest now)
call_for-Shows u v i k now c e rest w lt free at t =
    let (before, after, split, over, over', course) = take_out-split k v.queue e rest t in
    let r : Ready u v i before e after = record {
      shows = w;
      split = split;
      foremost = ap (λ j. of j before) course ∙ over';
      place = lt;
      free = free;
    } in
    rw (over, sym course)
      (take_of_course-Shows u v i before e after c now r (ap (get_elem? v.stats) course ∙ at))

of-take_out :
    (k : ℕ) (q : List Entry) (e : Entry) (rest : List Entry)
    → take_out k q ≡ some (e, rest)
    → first (addrs (of k q)) ≡ some e.addr
of-take_out k q e rest t =
    let (before, after, split, over, none_of, course) = take_out-split k q e rest t in
    subst (λ j. first (addrs (of j q)) ≡ some e.addr) course
      (ap (λ l. first (addrs (of e.course l))) split
        ∙ ap (λ l. first (addrs l))
            (of-mine before e after (ap (λ j. of j before) course ∙ none_of)))

-- The TA and the course are known.
next_course-known :
    (s : State) (v : View) (ta_name code : Bytes) (i k now : ℕ)
    → Shows s v
    → Answered v ta_name code
    → find_view v.tas ta_name ≡ some i
    → find_stats v.stats code ≡ some k
    → Yields (take_next_course s ta_name code now) (0, call_for (finished v i now) i k now)
unfolding take_next_course
next_course-known s v ta_name code i k now w answered f g =
    let (t, u, r) = release-Released s v ta_name i now w f in
    let u' : State = record u { ta_list = give u.ta_list i none } in
    let done = finished v i now in
    let known = find_stats-get done.stats code k (finished-find v i now code ∙ g) in
    let (c, at) = get_elem?-lt done.stats k known in
    let there : get_elem? u.courses k ≡ some (course_of c (of k done.queue)) =
      get_elem?-Shows u' done k c r.shows at in
    let starts : (o : ℕ × State)
        → elim (course_of c (of k done.queue)).head [
          | none ↦ some (0, u)
          | some p ↦ take_of_course u i k p (course_of c (of k done.queue)) now
        ]
          ≡ some o
        → take_next_course s ta_name code now ≡ some o =
      λ o runs.
        rw (find_ta-Shows s v ta_name w ∙ f, take_next_course)
          (>>=-some _ r.found (
            >>=-some _ r.runs
              (rw (found_course s v i now t u code r ∙ g) (>>=-some _ there runs)))) in
    elim (Option-cases (take_out k done.queue)) [
      | inl n ↦
          let nobody = take_out-none k done.queue n in
          let idle = answered i k f g (ap (of k) (sym (finished-queue v i now)) ∙ nobody) in
          rw (n, call_for)
            (
              u,
              starts (0, u) (rw nobody refl),
              subst (λ l. Shows (record u { ta_list = l }) done)
                  (ap (λ l. give l i none) r.kept ∙ free-same s v i w idle ∙ sym r.kept) r.shows,
            )
      | inr ((e, rest), n) ↦
          let (x, runs, shows) =
            call_for-Shows u' done i k now c e rest r.shows
              (subst (λ m. i < m) (sym (finished-length v i now)) r.place) (finished-free v i now)
              at n in
          rw (n, call_for)
            (
              x,
              starts (0, x)
                  (rw (of-take_out k done.queue e rest n) (
                    sym (take_of_course-cleared u i k e.addr (course_of c (of k done.queue)) now)
                    ∙ runs)),
              shows,
            )
    ]

-- In a state that shows a view, where the TA has no student in hand if nobody waits for the course,
-- `take_next_course` returns and does to the view what is specified: 1 and no change for an unknown
-- TA, 2 for an unknown course, else 0; the student in hand is done with, and the first who waits for
-- the course, if any, is called.
pub take_next_course-Yields :
    (s : State) (v : View) (ta_name code : Bytes) (now : ℕ)
    → Shows s v
    → Answered v ta_name code
    → Yields (take_next_course s ta_name code now) (next_course v ta_name code now)
unfolding take_next_course
take_next_course-Yields s v ta_name code now w answered =
    elim (Option-cases (find_view v.tas ta_name)) [
      | inl n ↦
          rw (n, next_course) (s, rw (find_ta-Shows s v ta_name w ∙ n, take_next_course) refl, w)
      | inr (i, f) ↦ elim (Option-cases (find_stats v.stats code)) [
        | inl n ↦
            let (t, u, r) = release-Released s v ta_name i now w f in
            rw (f, next_course)
              (rw (n, next_course)
                (
                  record u { ta_list = give u.ta_list i none },
                  rw (find_ta-Shows s v ta_name w ∙ f, take_next_course)
                      (>>=-some _ r.found
                        (>>=-some _ r.runs (rw (found_course s v i now t u code r ∙ n) refl))),
                  r.shows,
                ))
        | inr (k, g) ↦
            rw (f, next_course)
              (rw (g, next_course) (next_course-known s v ta_name code i k now w answered f g))
      ]
    ]
