-- ===== src/Waitlist/Dangling.antt =====
-- A2/hcq.c, lines 298 to 300: where nobody waits for the course, the TA is left with the address of
-- the student that was freed.
use csc.Common.{ℕ, ◌≡◌, refl, ap, ◌∙◌, >>=-some, >>=-none, none, some, [], get_elem?, Bytes}
use csc.Waitlist.{State, Ta, find_ta}
use csc.Waitlist.Operations.{
  take_next_overall, take_next_course, release_current_student, give, remove_ta,
}
use csc.Waitlist.View.{Entry, View, Shows, addr_of, of, course_of}
use csc.Waitlist.Spec.{finished, in_hand, find_view}
use csc.Waitlist.Courses.{get_elem?-lt, find_stats, find_stats-get}
use csc.Waitlist.Lookups.{get_elem?-Shows}
use csc.Waitlist.Hands.{without_ta-find_ta}
use csc.Waitlist.NextCourse.{found_course}
use csc.Waitlist.Next.{find_ta-Shows, finished-queue, finished-find, release-Released}

-- The next call for that TA faults, whichever it is.
abbrev pub Stuck : State → Bytes → Type 0
Stuck u ta_name =
    ((now : ℕ) → take_next_overall u ta_name now ≡ none)
    × ((code : Bytes) (now : ℕ) → take_next_course u ta_name code now ≡ none)
    × ((now : ℕ) → remove_ta u ta_name now ≡ none)

freed-Stuck :
    (u : State) (ta_name : Bytes) (i : ℕ) (t : Ta) (p : ℕ)
    → find_ta u.ta_list ta_name ≡ some i
    → get_elem? u.ta_list i ≡ some t
    → t.current_student ≡ some p
    → u.store p ≡ none
    → Stuck u ta_name
unfolding take_next_overall take_next_course remove_ta release_current_student
freed-Stuck u ta_name i t p f at held gone =
    let faults : (now : ℕ) → release_current_student u t.current_student now ≡ none =
      λ now. rw (held, release_current_student) (>>=-none _ gone) in
    (
      λ now. rw (f, take_next_overall) (>>=-some _ at (>>=-none _ (faults now))),
      λ code now. rw (f, take_next_course) (>>=-some _ at (>>=-none _ (faults now))),
      λ now.
          rw (without_ta-find_ta u.ta_list ta_name i t f at, remove_ta) (>>=-none _ (faults now)),
    )

-- In a state that shows a view, where a TA has a student in hand and asks for a course of the list for
-- which nobody waits, `take_next_course` returns 0 and leaves the TA with the freed student: the next
-- call of either kind for this TA, and its removal, go through a freed pointer.
pub take_next_course-Stuck :
    (s : State) (v : View) (ta_name code : Bytes) (now i k : ℕ) (e : Entry)
    → Shows s v
    → find_view v.tas ta_name ≡ some i
    → in_hand v.tas i ≡ some e
    → find_stats v.stats code ≡ some k
    → of k v.queue ≡ []
    → (u : State) × (take_next_course s ta_name code now ≡ some (0, u)) × Stuck u ta_name
unfolding take_next_course
take_next_course-Stuck s v ta_name code now i k e w f held g nobody =
    let (t, u, r) = release-Released s v ta_name i now w f in
    let u' : State = record u { ta_list = give u.ta_list i none } in
    let done = finished v i now in
    let known = find_stats-get done.stats code k (finished-find v i now code ∙ g) in
    let (c, at) = get_elem?-lt done.stats k known in
    let there : get_elem? u.courses k ≡ some (course_of c (of k done.queue)) =
      get_elem?-Shows u' done k c r.shows at in
    let empty : of k done.queue ≡ [] = ap (of k) (finished-queue v i now) ∙ nobody in
    (
      u,
      rw (find_ta-Shows s v ta_name w ∙ f, take_next_course)
          (>>=-some _ r.found (
            >>=-some _ r.runs
              (rw (found_course s v i now t u code r ∙ g) (>>=-some _ there (rw empty refl))))),
      freed-Stuck u ta_name i t e.addr
          (ap (λ l. find_ta l ta_name) r.kept ∙ find_ta-Shows s v ta_name w ∙ f)
          (ap (λ l. get_elem? l i) r.kept ∙ r.found) (r.held ∙ ap addr_of held) (r.gone e held),
    )
