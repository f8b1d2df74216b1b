-- ===== src/Waitlist/Add.antt =====
-- A2/hcq.c: `add_student` does what the view says.
use csc.Common.{
  ℕ, suc, ◌≡◌, refl, ap, subst, ◌∙◌, >>=-some, inl, inr, true, false, none, some, arith, ◌==◌,
  Option-cases, length, Bytes,
}
use csc.Waitlist.{State, Student, find_course, new_student, write}
use csc.Waitlist.Operations.{add_student}
use csc.Waitlist.View.{addr_of, View, Shows, addrs, live}
use csc.Waitlist.Links.{has, has-apart}
use csc.Waitlist.Writes.{write-other, write_self}
use csc.Waitlist.Walks.{find_entry}
use csc.Waitlist.Good.{Good-new, ==_comm}
use csc.Waitlist.Courses.{find_stats, find_stats-get}
use csc.Waitlist.Keeps.{Shows-observe}
use csc.Waitlist.Spec.{added, newcomer, Yields}
use csc.Waitlist.Lookups.{find_course-Shows, find_student-Shows}
use csc.Waitlist.Snoc.{snoc, joined-Shows}

-- The student that is made is of no view yet.
made-Shows :
    (s : State) (v : View) (n : Student)
    → Shows s v
    → Shows
        (record s { store = write s.store s.next (some n); next = suc s.next })
        (record v { next = suc v.next })
made-Shows s v n w =
    let new = Good-new s.store s.next (length v.stats) (live v) w.good in
    let old : (a : ℕ) → has a (addrs (live v)) ≡ true → (a == s.next) ≡ false =
      λ a q. ==_comm a s.next ∙ has-apart (addrs (live v)) s.next a new q in
    Shows-observe s v (write s.store s.next (some n)) (suc s.next) (suc v.next) w (omega arith)
      (ap suc w.fresh)
      (λ a q. write-other (λ k. k.next_overall) s.store s.next (some n) a (old a q))
      (λ a q. write-other (λ k. k.next_course) s.store s.next (some n) a (old a q))
      (λ a q.
        write-other (λ k. (k.name, k.arrival_time, k.course)) s.store s.next (some n) a (old a q))

-- One more address is given out.
abbrev spent : View → View
spent v = record v { next = suc v.next }

-- The course is there: a name that waits already is refused, another one is added.
add_known :
    (s : State) (v : View) (name code : Bytes) (now k : ℕ)
    → Shows s v
    → find_stats v.stats code ≡ some k
    → Yields (add_student s name code now) (elim (find_entry name v.queue) [
      | none ↦ (0, snoc (spent v) (newcomer v.next name now k))
      | some e ↦ (1, spent v)
    ])
unfolding add_student
add_known s v name code now k w e =
    let n = new_student name now k in
    let made : State = record s { store = write s.store s.next (some n); next = suc s.next } in
    let wm : Shows made (spent v) = made-Shows s v n w in
    let there : find_course s.courses code ≡ some k = find_course-Shows s v code w ∙ e in
    elim (Option-cases (find_entry name v.queue)) [
      | inl f ↦
          let (t, u, runs, runs', shows) =
            joined-Shows made (spent v) (newcomer s.next name now k) wm
              (
                write_self (λ m. (m.name, m.arrival_time, m.course)) s.store s.next n,
                Good-new s.store s.next (length v.stats) (live v) w.good,
                omega arith,
                find_stats-get v.stats code k e,
              )
              (write_self (λ m. m.next_overall) s.store s.next n)
              (write_self (λ m. m.next_course) s.store s.next n) (omega (arith, w.short)) in
          rw f (
            u,
            rw (there, add_student)
                (>>=-some _
                  (find_student-Shows made (spent v) name wm ∙ ap (λ o. some (addr_of o)) f)
                  (>>=-some _ runs (>>=-some _ runs' refl))),
            subst (λ p. Shows u (snoc (spent v) (newcomer p name now k))) w.fresh shows,
          )
      | inr (old, f) ↦ rw f (
        made,
        rw (there, add_student)
            (>>=-some _ (find_student-Shows made (spent v) name wm ∙ ap (λ o. some (addr_of o)) f)
              refl),
        wm,
      )
    ]

-- In a state that shows a view, adding a student returns and does to the view what is specified: 2 and
-- no change for an unknown course, 1 and no change but a spent address for a name that waits, else 0,
-- and the student is the last of the queue.
pub add_student-Yields :
    (s : State) (v : View) (name code : Bytes) (now : ℕ)
    → Shows s v
    → Yields (add_student s name code now) (added v name code now)
unfolding add_student
add_student-Yields s v name code now w = elim (Option-cases (find_stats v.stats code)) [
  | inl n ↦ rw (n, added) (s, rw (find_course-Shows s v code w, n, add_student) refl, w)
  | inr (k, e) ↦ rw (e, added) (add_known s v name code now k w e)
]
