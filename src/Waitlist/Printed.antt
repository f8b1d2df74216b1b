-- ===== src/Waitlist/Printed.antt =====
-- A2/hcq.c, lines 333 to 433: what is printed says what the view holds.
use csc.Common.{
  ℕ, zero, suc, ◌+◌, ◌<◌, ◌≡◌, refl, ap, ◌∙◌, >>=-some, inl, inr, some, List, [], ◌∷◌, ◌++◌, arith,
  ◌==◌, Bool-cases, length,
}
use csc.Waitlist.{Store, State, rounds}
use csc.Waitlist.Reports.{Output, count_waiting, print_names, print_queues, print_all_queues}
use csc.Waitlist.View.{Entry, Stats, View, Shows, Infos, addrs, of, served, by_course, courses_of}
use csc.Waitlist.Links.{first, Linked}
use csc.Waitlist.Writes.{info-Stored, course-next}
use csc.Waitlist.Good.{Good-Infos}
use csc.Waitlist.Snoc.{length-addrs}
use csc.Waitlist.GiveUp.{length-of}
use csc.Waitlist.Walks.{linked-load_course}

pub count_waiting-length :
    (k : ℕ) (h : Store) (q : List ℕ) (n : ℕ)
    → length q < k
    → Linked (by_course h) q
    → count_waiting k h (first q) n ≡ some (n + length q)
unfolding count_waiting
count_waiting-length zero h q n l c = absurd (omega (arith, l))
count_waiting-length (suc k) h [] n l c = ap some (omega arith)
count_waiting-length (suc k) h (a ∷ q) n l (c, cs) =
    let (m, here, same) = linked-load_course h a (first q) c in
    let total : n + 1 + length q ≡ n + length (a ∷ q) = omega arith in
    >>=-some _ here
      (rw same (count_waiting-length k h q (n + 1) (omega (arith, l)) cs ∙ ap some total))

abbrev pub name_lines : List Entry → List Output
name_lines [] = []
name_lines (e ∷ q) = Output.waits e.name ∷ name_lines q

pub print_names-name_lines :
    (k : ℕ) (h : Store) (q : List Entry)
    → length q < k
    → Linked (by_course h) (addrs q)
    → Infos h q
    → print_names k h (first (addrs q)) ≡ some (name_lines q)
unfolding print_names
print_names-name_lines zero h q l c i = absurd (omega (arith, l))
print_names-name_lines (suc k) h [] l c i = refl
print_names-name_lines (suc k) h (e ∷ q) l (c, cs) (i, is) =
    let s = info-Stored h e i in
    let same = course-next h e.addr s.student (first (addrs q)) s.here c in
    >>=-some _ s.here (
      >>=-some _
        (ap (λ p. print_names k h p) same ∙ print_names-name_lines k h q (omega (arith, l)) cs is)
        (rw s.name refl))

-- Each course with the number of those who wait for it, and their names in order.
abbrev pub all_queues : ℕ → List Stats → List Entry → List Output
all_queues k [] q = []
all_queues k (c ∷ cs) q =
    Output.in_queue c.code (length (of k q)) ∷ name_lines (of k q) ++ all_queues (suc k) cs q

Infos-of : (h : Store) (k : ℕ) (q : List Entry) → Infos h q → Infos h (of k q)
Infos-of h k [] i = tt
Infos-of h k (e ∷ q) (i, is) = elim (Bool-cases (e.course == k)) [
  | inl p ↦ rw p (i, Infos-of h k q is)
  | inr p ↦ rw p (Infos-of h k q is)
]

print_queues-all_queues :
    (n : ℕ) (h : Store) (k : ℕ) (cs : List Stats) (q : List Entry)
    → length q < n
    → ((j : ℕ) → Linked (by_course h) (addrs (of j q)))
    → Infos h q
    → print_queues n h (courses_of k cs q) ≡ some (all_queues k cs q)
unfolding print_queues
print_queues-all_queues n h k [] q l c i = refl
print_queues-all_queues n h k (d ∷ cs) q l c i =
    let short = length-of k q in
    let same = length-addrs (of k q) in
    let all : 0 + length (addrs (of k q)) ≡ length (of k q) = omega (arith, same) in
    >>=-some _ (count_waiting-length n h (addrs (of k q)) 0 (omega (arith, l, short, same)) (c k)) (
      >>=-some _
        (print_names-name_lines n h (of k q) (omega (arith, l, short)) (c k) (Infos-of h k q i))
        (>>=-some _ (print_queues-all_queues n h (suc k) cs q l c i) (rw all refl)))

-- In a state that shows a view, `print_all_queues` prints each course with the number of those who wait
-- for it, and their names in the order of the queue.
pub print_all_queues-all_queues :
    (s : State) (v : View) → Shows s v → print_all_queues s ≡ some (all_queues 0 v.stats v.queue)
unfolding print_all_queues
print_all_queues-all_queues s v w =
    ap (print_queues (rounds s) s.store) w.courses
    ∙ print_queues-all_queues (rounds s) s.store 0 v.stats v.queue (omega (arith, w.short)) w.within
        (Good-Infos s.store s.next (length v.stats) v.queue (served v.tas) w.good)
