-- ===== src/Waitlist/FullQueue.antt =====
-- A2/hcq.c, lines 375 to 395: the full queue, as printed.
use csc.Common.{
  ℕ, zero, suc, ◌<◌, ◌≡◌, refl, ap, ◌∙◌, >>=-some, inl, inr, true, Option, none, some, List, [],
  ◌∷◌, ◌++◌, arith, ◌==◌, ==_iff, Bool-cases, length, Bytes,
}
use csc.Waitlist.{Store, State, rounds}
use csc.Waitlist.Reports.{Output, print_students, print_full_queue, next_name}
use csc.Waitlist.View.{Entry, Stats, View, Shows, Good, addrs, of, served, overall, by_course}
use csc.Waitlist.Links.{first, Linked}
use csc.Waitlist.Writes.{info-Stored, course-next, overall-next}
use csc.Waitlist.Courses.{get_elem?-lt}
use csc.Waitlist.Lookups.{get_elem?-Shows}
use csc.Waitlist.Statistics.{code_of}

abbrev pub front_name : List Entry → Option Bytes
front_name [] = none
front_name (e ∷ q) = some e.name

-- Each student with the code of the course and the time of arrival, then, but for the last, the names
-- of the next of all and of the next of the same course.
abbrev pub queue_report : List Stats → List Entry → List Output
queue_report cs [] = []
queue_report cs (e ∷ []) = Output.queued e.name (code_of cs e.course) e.arrival ∷ []
queue_report cs (e ∷ d ∷ q) =
    let later = queue_report cs (d ∷ q) in
    Output.queued e.name (code_of cs e.course) e.arrival
    ∷ Output.followed_by d.name (front_name (of e.course (d ∷ q)))
    ∷ later

within-rest :
    (h : Store) (e : Entry) (q : List Entry)
    → ((k : ℕ) → Linked (by_course h) (addrs (of k (e ∷ q))))
    → (k : ℕ) → Linked (by_course h) (addrs (of k q))
within-rest h e q w k = elim (Bool-cases (e.course == k)) [
  | inl p ↦ let all : Linked (by_course h) (addrs (of k (e ∷ q))) = w k in (rw p at all).1
  | inr p ↦ let all : Linked (by_course h) (addrs (of k (e ∷ q))) = w k in rw p at all
]

within-next :
    (h : Store) (e : Entry) (q : List Entry)
    → ((k : ℕ) → Linked (by_course h) (addrs (of k (e ∷ q))))
    → by_course h e.addr ≡ some (first (addrs (of e.course q)))
within-next h e q w =
    let mine : (e.course == e.course) ≡ true = (==_iff e.course e.course).1 refl in
    let all : Linked (by_course h) (addrs (of e.course (e ∷ q))) = w e.course in (rw mine at all).0

-- The name of the first of a list of students that the store holds.
next_name-front_name :
    (h : Store) (n c : ℕ) (k : ℕ) (q r : List Entry)
    → Good h n c (q ++ r)
    → next_name h (first (addrs (of k q))) ≡ some (front_name (of k q))
next_name-front_name h n c k [] r g = refl
next_name-front_name h n c k (e ∷ q) r ((i, apart, below, known), g) =
    elim (Bool-cases (e.course == k)) [
      | inl p ↦
          let x = info-Stored h e i in
          rw (p, next_name) (>>=-some _ x.here (ap (λ b. some (some b)) x.name))
      | inr p ↦ rw p (next_name-front_name h n c k q r g)
    ]

print_students-queue_report :
    (k : ℕ) (s : State) (v : View) (q r : List Entry)
    → length q < k
    → Shows s v
    → Linked (overall s.store) (addrs q)
    → ((j : ℕ) → Linked (by_course s.store) (addrs (of j q)))
    → Good s.store s.next (length v.stats) (q ++ r)
    → print_students k s (first (addrs q)) ≡ some (queue_report v.stats q)
unfolding print_students
print_students-queue_report zero s v q r l w c d g = absurd (omega (arith, l))
print_students-queue_report (suc k) s v [] r l w c d g = refl
print_students-queue_report (suc k) s v (e ∷ []) r l w (c, cs) d ((i, apart, below, known), g) =
    let x = info-Stored s.store e i in
    let (f, at) = get_elem?-lt v.stats e.course known in
    let next = overall-next s.store e.addr x.student none x.here c in
    >>=-some _ x.here (
      rw x.course (
        >>=-some _ (get_elem?-Shows s v e.course f w at)
          (rw (next, x.name, x.arrival) (rw (at, code_of) refl))))
print_students-queue_report (suc k) s v (e ∷ b ∷ q) r l w (c, cs) d ((i, apart, below, known), g) =
    let x = info-Stored s.store e i in
    let y = info-Stored s.store b g.0.0 in
    let (f, at) = get_elem?-lt v.stats e.course known in
    let next = overall-next s.store e.addr x.student (some b.addr) x.here c in
    let next' =
      course-next s.store e.addr x.student (first (addrs (of e.course (b ∷ q)))) x.here
        (within-next s.store e (b ∷ q) d) in
    let rest =
      print_students-queue_report k s v (b ∷ q) r (omega (arith, l)) w cs
        (within-rest s.store e (b ∷ q) d) g in
    let named = next_name-front_name s.store s.next (length v.stats) e.course (b ∷ q) r g in
    >>=-some _ x.here (
      rw x.course (
        >>=-some _ (get_elem?-Shows s v e.course f w at) (
          rw next (
            >>=-some _ y.here (
              >>=-some _ (ap (next_name s.store) next' ∙ named)
                (>>=-some _ rest (rw (x.name, x.arrival, y.name) (rw (at, code_of) refl))))))))

-- In a state that shows a view, `print_full_queue` prints the students in the order of the queue, each
-- with its course and its time of arrival, and after each but the last who is next, overall and in the
-- course.
pub print_full_queue-queue_report :
    (s : State) (v : View) → Shows s v → print_full_queue s ≡ some (queue_report v.stats v.queue)
unfolding print_full_queue
print_full_queue-queue_report s v w =
    ap (print_students (rounds s) s) w.front
    ∙ print_students-queue_report (rounds s) s v v.queue (served v.tas) (omega (arith, w.short)) w
        w.along w.within w.good
