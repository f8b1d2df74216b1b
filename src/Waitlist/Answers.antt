-- ===== src/Waitlist/Answers.antt =====
-- A2/helpcentre.c: what each command does to a view, and that the code does it.
use csc.Common.{
  ℕ, ◌≡◌, refl, sym, subst, ◌∙◌, ◌>>=◌, >>=-some, inl, inr, Bool, true, false, ◌&&◌, Option, none,
  some, List, [], ◌∷◌, map, arith, if◌then◌else◌, Bool-cases, Option-cases, get_elem?, Bytes,
}
use csc.Waitlist.{State}
use csc.Waitlist.Operations.{add_ta}
use csc.Waitlist.Reports.{Output, stats_by_course}
use csc.Waitlist.View.{Stats, View, Shows, of}
use csc.Waitlist.Spec.{
  added, given_up, find_view, in_hand, next_overall, next_course, removed, Yields,
}
use csc.Waitlist.Courses.{find_stats, find_stats-get, get_elem?-lt}
use csc.Waitlist.Add.{add_student-Yields}
use csc.Waitlist.GiveUp.{give_up_waiting-Yields}
use csc.Waitlist.Next.{take_next_overall-Yields, add_ta-Shows}
use csc.Waitlist.NextCourse.{Answered, take_next_course-Yields}
use csc.Waitlist.Remove.{remove_ta-Yields}
use csc.Waitlist.Printed.{all_queues, print_all_queues-all_queues}
use csc.Waitlist.Statistics.{
  course_stats, stats_by_course_lem, serving_report, print_currently_serving-serving_report,
}
use csc.Waitlist.FullQueue.{queue_report, print_full_queue-queue_report}
use csc.Waitlist.Commands.{
  Command, add_errors, give_up_errors, ta_errors, next_errors, syntax_error, Outcome, execute,
}

-- Whether a TA who has a student in hand asks for a course for which nobody waits.
abbrev pub hand_full : View → ℕ → Bool
hand_full v i = elim (in_hand v.tas i) [ none ↦ false | some e ↦ true ]

abbrev pub nobody_for : View → ℕ → Bool
nobody_for v k = elim (of k v.queue) [ [] ↦ true | e ∷ l ↦ false ]

abbrev pub unanswered : View → Bytes → Bytes → Bool
unanswered v ta_name code = elim (find_view v.tas ta_name) [
  | none ↦ false
  | some i ↦ elim (find_stats v.stats code) [
    | none ↦ false
    | some k ↦ hand_full v i && nobody_for v k
  ]
]

-- Whether to quit, the view and what is printed.
abbrev pub Answer : Type 0
Answer = Bool × View × List Output

abbrev says : (ℕ → List Output) → ℕ × View → Option Answer
says errors r = some (false, r.1, errors r.0)

-- What a command does to a view. `none`: statistics of a course that is not there, or a TA as in
-- `unanswered`.
abbrev pub perform : Command → View → ℕ → Option Answer
perform Command.no_words v now = some (false, v, [])
perform Command.quit v now = some (true, v, [])
perform Command.show_help v now = some (false, v, Output.help ∷ [])
perform Command.sleep v now = some (false, v, [])
perform (Command.add a b) v now = says add_errors (added v a b now)
perform Command.full_queue v now = some (false, v, queue_report v.stats v.queue)
perform Command.currently_serving v now = some (false, v, serving_report v.stats v.tas)
perform Command.all_queues v now = some (false, v, all_queues 0 v.stats v.queue)
perform (Command.stats_of a) v now = find_stats v.stats a >>= λ k.
    get_elem? v.stats k >>= λ c. some (false, v, course_stats v k c ∷ [])
perform (Command.give_up a) v now = says give_up_errors (given_up v a now)
perform (Command.new_ta a) v now =
    some (false, record v { tas = record { name = a; student = none } ∷ v.tas }, [])
perform (Command.without a) v now = says ta_errors (removed v a now)
perform (Command.next a) v now = says ta_errors (next_overall v a now)
perform (Command.next_in a b) v now =
    if unanswered v a b then none else says next_errors (next_course v a b now)
perform Command.incorrect v now = some (false, v, syntax_error)

abbrev pub new_stats : Bytes × Bytes → Stats
new_stats c = record {
  code = c.0;
  description = c.1;
  helped = 0;
  bailed = 0;
  wait_time = 0;
  help_time = 0;
}

abbrev pub opening : List (Bytes × Bytes) → View
opening config = record { queue = []; tas = []; stats = map new_stats config; next = 0 }

-- The command returns what the answer says, in a state that shows its view.
abbrev pub Answers : Outcome → Answer → Type 0
Answers m r = (u : State) × (m ≡ some (r.0, u, r.2)) × Shows u r.1

done-Answers :
    (m : Option (ℕ × State)) (r : ℕ × View) (errors : ℕ → List Output)
    → Yields m r
    → Answers (m >>= λ (x : ℕ × State). some (false, x.1, errors x.0)) (false, r.1, errors r.0)
done-Answers m r errors (u, runs, shows) = (u, >>=-some _ runs refl, shows)

pub Answered-of : (v : View) (a b : Bytes) → unanswered v a b ≡ false → Answered v a b
Answered-of v a b h i k f g nobody = elim (Option-cases (in_hand v.tas i)) [
  | inl n ↦ n
  | inr (e, n) ↦
      let both : (hand_full v i && nobody_for v k) ≡ false = rw (f, g, unanswered) at h in
      let busy : hand_full v i ≡ true = rw (n, hand_full) refl in
      let empty : nobody_for v k ≡ true = rw (nobody, nobody_for) refl in
      absurd (ground (arith, both, busy, empty))
]

-- An answer that is there is the one given.
pub answer_of : {o : Outcome} {m r : Answer} → some m ≡ some r → Answers o m → Answers o r
answer_of {o} {m} {r} e a =
    subst (λ (x : Option Answer). elim x [ none ↦ Unit {0} | some y ↦ Answers o y ]) e a

none-some : {r : Answer} → ◌≡◌ {A = Option Answer} none (some r) → ⊥
none-some {r} e = ground (arith, e)

stats-Answers :
    (s : State) (v : View) (a : Bytes) (now : ℕ) (r : Answer)
    → Shows s v
    → perform (Command.stats_of a) v now ≡ some r
    → Answers (execute (Command.stats_of a) s now) r
unfolding execute
stats-Answers s v a now r w e = elim (Option-cases (find_stats v.stats a)) [
  | inl n ↦ absurd (none-some (rw (n, perform) at e))
  | inr (k, f) ↦
      let (c, at) = get_elem?-lt v.stats k (find_stats-get v.stats a k f) in
      let there : perform (Command.stats_of a) v now ≡ some (false, v, course_stats v k c ∷ []) =
        rw (f, at, perform) refl in
      let prints : stats_by_course s a ≡ some (0, course_stats v k c ∷ []) =
        stats_by_course_lem s v a w ∙ rw (f, at) refl in
      answer_of (sym there ∙ e) (s, >>=-some _ prints refl, w)
]

-- In a state that shows a view, a command to which the view has an answer returns that answer: the same
-- output, the same decision to quit, and a state that shows the view of the answer.
pub execute-Answers :
    (c : Command) (s : State) (v : View) (now : ℕ) (r : Answer)
    → Shows s v
    → perform c v now ≡ some r
    → Answers (execute c s now) r
unfolding execute
execute-Answers Command.no_words s v now r w e = answer_of e (s, refl, w)
execute-Answers Command.quit s v now r w e = answer_of e (s, refl, w)
execute-Answers Command.show_help s v now r w e = answer_of e (s, refl, w)
execute-Answers Command.sleep s v now r w e = answer_of e (s, refl, w)
execute-Answers (Command.add a b) s v now r w e =
    answer_of e (done-Answers _ (added v a b now) add_errors (add_student-Yields s v a b now w))
execute-Answers Command.full_queue s v now r w e =
    answer_of e (s, >>=-some _ (print_full_queue-queue_report s v w) refl, w)
execute-Answers Command.currently_serving s v now r w e =
    answer_of e (s, >>=-some _ (print_currently_serving-serving_report s v w) refl, w)
execute-Answers Command.all_queues s v now r w e =
    answer_of e (s, >>=-some _ (print_all_queues-all_queues s v w) refl, w)
execute-Answers (Command.stats_of a) s v now r w e = stats-Answers s v a now r w e
execute-Answers (Command.give_up a) s v now r w e =
    answer_of e
      (done-Answers _ (given_up v a now) give_up_errors (give_up_waiting-Yields s v a now w))
execute-Answers (Command.new_ta a) s v now r w e =
    answer_of e (add_ta s a, refl, add_ta-Shows s v a w)
execute-Answers (Command.without a) s v now r w e =
    answer_of e (done-Answers _ (removed v a now) ta_errors (remove_ta-Yields s v a now w))
execute-Answers (Command.next a) s v now r w e =
    answer_of e
      (done-Answers _ (next_overall v a now) ta_errors (take_next_overall-Yields s v a now w))
execute-Answers (Command.next_in a b) s v now r w e = elim (Bool-cases (unanswered v a b)) [
  | inl p ↦ absurd (none-some (rw p at e))
  | inr p ↦ answer_of (rw p at e) (
      done-Answers _ (next_course v a b now) next_errors
        (take_next_course-Yields s v a b now w (Answered-of v a b p)))
]
execute-Answers Command.incorrect s v now r w e = answer_of e (s, refl, w)
