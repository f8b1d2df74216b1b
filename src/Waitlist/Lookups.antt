-- ===== src/Waitlist/Lookups.antt =====
-- A2/hcq.c: what the state holds, found through the view.
use csc.Common.{ℕ, ◌≡◌, ap, ◌∙◌, some, arith, length, get_elem?, Bytes}
use csc.Waitlist.{State, find_student, find_course, rounds}
use csc.Waitlist.View.{addr_of, View, Stats, Shows, of, served, course_of}
use csc.Waitlist.Walks.{find_entry, find_student-find_entry}
use csc.Waitlist.Good.{Good-Infos}
use csc.Waitlist.Courses.{find_stats, find_course-courses_of, get_elem?-courses_of}

pub find_course-Shows :
    (s : State) (v : View) (code : Bytes)
    → Shows s v
    → find_course s.courses code ≡ find_stats v.stats code
find_course-Shows s v code w =
    ap (λ l. find_course l code) w.courses ∙ find_course-courses_of 0 v.stats v.queue code

pub find_student-Shows :
    (s : State) (v : View) (name : Bytes)
    → Shows s v
    → find_student (rounds s) s.store s.stu_list name ≡ some (addr_of (find_entry name v.queue))
find_student-Shows s v name w =
    ap (λ p. find_student (rounds s) s.store p name) w.front
    ∙ find_student-find_entry (rounds s) s.store v.queue name (omega (arith, w.short)) w.along
        (Good-Infos s.store s.next (length v.stats) v.queue (served v.tas) w.good)

pub get_elem?-Shows :
    (s : State) (v : View) (k : ℕ) (c : Stats)
    → Shows s v
    → get_elem? v.stats k ≡ some c
    → get_elem? s.courses k ≡ some (course_of c (of k v.queue))
get_elem?-Shows s v k c w e =
    ap (λ l. get_elem? l k) w.courses ∙ get_elem?-courses_of 0 v.stats v.queue k k c e (omega arith)
