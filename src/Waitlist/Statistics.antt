-- ===== src/Waitlist/Statistics.antt =====
-- A2/hcq.c, lines 355 to 433: the TAs, the full queue and the statistics of a course, as printed.
use csc.Common.{
  ℕ, suc, ◌+◌, ◌≡◌, refl, ap, ◌∙◌, ◌>>=◌, >>=-some, >>=-none, inl, inr, none, some, List, [], ◌∷◌,
  ◌++◌, map, arith, ◌==◌, Bool-cases, Option-cases, length, get_elem?, Bytes,
}
use csc.Waitlist.{Store, State, rounds}
use csc.Waitlist.Reports.{
  Output, print_tas, print_currently_serving, print_ta_list, count_helped, stats_by_course,
}
use csc.Waitlist.View.{Entry, TaView, Stats, View, Shows, Good, addrs, of, served, ta_of}
use csc.Waitlist.Writes.{info-Stored}
use csc.Waitlist.Courses.{get_elem?-lt, find_stats, find_stats-get}
use csc.Waitlist.Lookups.{get_elem?-Shows, find_course-Shows}
use csc.Waitlist.Snoc.{length-addrs}
use csc.Waitlist.GiveUp.{length-of}
use csc.Waitlist.Printed.{count_waiting-length}

-- The facts about those in hand, from those about all.
Good-served : (h : Store) (n c : ℕ) (q r : List Entry) → Good h n c (q ++ r) → Good h n c r
Good-served h n c [] r g = g
Good-served h n c (e ∷ q) r (f, g) = Good-served h n c q r g

hand-Good :
    (h : Store) (n c : ℕ) (t : TaView) (l : List TaView) (e : Entry)
    → t.student ≡ some e
    → Good h n c (served (t ∷ l))
    → Good h n c (e ∷ served l)
hand-Good h n c t l e f g = rw f at g

count_helped-length :
    (h : Store) (n c k : ℕ) (l : List TaView) (m : ℕ)
    → Good h n c (served l)
    → count_helped h k (map ta_of l) m ≡ some (m + length (of k (served l)))
unfolding count_helped
count_helped-length h n c k [] m g = ap some (omega arith)
count_helped-length h n c k (t ∷ l) m g = elim (Option-cases t.student) [
  | inl f ↦ rw (f, count_helped) (count_helped-length h n c k l m (rw f at g))
  | inr (e, f) ↦
      let ((i, apart, below, known), gs) = hand-Good h n c t l e f g in
      let s = info-Stored h e i in
      rw (f, count_helped)
        (>>=-some _ s.here (
          rw s.course (elim (Bool-cases (e.course == k)) [
            | inl p ↦
                let total : m + 1 + length (of k (served l)) ≡ m + suc (length (of k (served l))) =
                  omega arith in
                rw p (count_helped-length h n c k l (m + 1) gs ∙ ap some total)
            | inr p ↦ rw p (count_helped-length h n c k l m gs)
          ])))
]

-- What `stats_by_course` prints of the course at the position `k`.
abbrev pub course_stats : View → ℕ → Stats → Output
course_stats v k c =
    Output.stats c.code c.description (length (of k v.queue)) (length (of k (served v.tas)))
      c.helped c.bailed c.wait_time c.help_time

-- In a state that shows a view, `stats_by_course` for a course of the list prints how many wait for it,
-- how many are being helped, and what is counted; for any other course it steps through NULL.
pub stats_by_course_lem :
    (s : State) (v : View) (code : Bytes)
    → Shows s v
    → stats_by_course s code ≡ (
        find_stats v.stats code >>= λ k.
        get_elem? v.stats k >>= λ c. some (0, course_stats v k c ∷ []))
unfolding stats_by_course
stats_by_course_lem s v code w = elim (Option-cases (find_stats v.stats code)) [
  | inl n ↦ rw n (>>=-none _ (find_course-Shows s v code w ∙ n))
  | inr (k, f) ↦
      let (c, at) = get_elem?-lt v.stats k (find_stats-get v.stats code k f) in
      let same = length-addrs (of k v.queue) in
      let short = length-of k v.queue in
      let waiting : 0 + length (addrs (of k v.queue)) ≡ length (of k v.queue) =
        omega (arith, same) in
      let helping : 0 + length (of k (served v.tas)) ≡ length (of k (served v.tas)) = omega arith in
      rw f (
        rw at (
          >>=-some _ (find_course-Shows s v code w ∙ f) (
            >>=-some _ (get_elem?-Shows s v k c w at) (
              >>=-some _
                (count_waiting-length (rounds s) s.store (addrs (of k v.queue)) 0
                  (omega (arith, w.short, short, same)) (w.within k))
                (>>=-some _
                  (ap (λ l. count_helped s.store k l 0) w.tas
                    ∙ count_helped-length s.store s.next (length v.stats) k v.tas 0
                        (Good-served s.store s.next (length v.stats) v.queue (served v.tas) w.good))
                  (rw (waiting, helping) refl))))))
]

abbrev pub code_of : List Stats → ℕ → Bytes
code_of cs k = elim (get_elem? cs k) [ none ↦ [] | some c ↦ c.code ]

-- One line for each TA, with the student in hand and the code of its course.
abbrev pub serving_lines : List Stats → List TaView → List Output
serving_lines cs [] = []
serving_lines cs (t ∷ l) = elim t.student [
  | none ↦ Output.has_no_student t.name ∷ serving_lines cs l
  | some e ↦ Output.serving t.name e.name (code_of cs e.course) ∷ serving_lines cs l
]

print_tas-serving_lines :
    (s : State) (v : View) (l : List TaView)
    → Shows s v
    → Good s.store s.next (length v.stats) (served l)
    → print_tas s (map ta_of l) ≡ some (serving_lines v.stats l)
unfolding print_tas
print_tas-serving_lines s v [] w g = refl
print_tas-serving_lines s v (t ∷ l) w g = elim (Option-cases t.student) [
  | inl f ↦ rw (f, print_tas) (>>=-some _ (print_tas-serving_lines s v l w (rw f at g)) refl)
  | inr (e, f) ↦
      let ((i, apart, below, known), gs) = hand-Good s.store s.next (length v.stats) t l e f g in
      let x = info-Stored s.store e i in
      let (c, at) = get_elem?-lt v.stats e.course known in
      rw (f, print_tas)
        (>>=-some _ x.here (
          rw (x.course, x.name)
            (>>=-some _ (get_elem?-Shows s v e.course c w at)
              (>>=-some _ (print_tas-serving_lines s v l w gs) (rw (at, code_of) refl)))))
]

abbrev pub serving_report : List Stats → List TaView → List Output
serving_report cs [] = Output.no_tas ∷ []
serving_report cs (t ∷ l) = serving_lines cs (t ∷ l)

print_ta_list-serving_report :
    (s : State) (v : View) (l : List TaView)
    → Shows s v
    → Good s.store s.next (length v.stats) (served l)
    → print_ta_list s (map ta_of l) ≡ some (serving_report v.stats l)
unfolding print_ta_list
print_ta_list-serving_report s v [] w g = refl
print_ta_list-serving_report s v (t ∷ l) w g = print_tas-serving_lines s v (t ∷ l) w g

-- In a state that shows a view, `print_currently_serving` prints one line for each TA, with the student
-- in hand, if any, and the code of its course; without a TA it says so.
pub print_currently_serving-serving_report :
    (s : State) (v : View)
    → Shows s v
    → print_currently_serving s ≡ some (serving_report v.stats v.tas)
unfolding print_currently_serving
print_currently_serving-serving_report s v w =
    ap (print_ta_list s) w.tas
    ∙ print_ta_list-serving_report s v v.tas w
        (Good-served s.store s.next (length v.stats) v.queue (served v.tas) w.good)
