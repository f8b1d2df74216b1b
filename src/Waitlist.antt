-- ===== src/Waitlist.antt =====
-- A2/hcq.h and A2/hcq.c: the first version of the queue, in which each student stands in two linked
-- lists. A `Student *` is an address of the store, NULL is `none`; a `Course *` is a position in the
-- array of courses, a `Ta *` one in the list of TAs. A result `none` is a fault: a step through NULL or
-- through a student that was freed. Addresses are not given out twice, so that every use of a freed
-- student shows. `now` is what `time` returns; the clock does not go back.
pub mod Operations
pub mod Links
pub mod View
pub mod Writes
pub mod Walks
pub mod Good
pub mod Courses
pub mod ByCourse
pub mod Join
pub mod Spec
pub mod Keeps
pub mod Lookups
pub mod Snoc
pub mod Add
pub mod GiveUp
pub mod Hands
pub mod Release
pub mod Leave
pub mod Call
pub mod Take
pub mod TakeOut
pub mod Next
pub mod NextCourse
pub mod Remove
pub mod Dangling
pub mod Reports
pub mod Printed
pub mod Statistics
pub mod FullQueue
pub mod Commands
pub mod Config
pub mod Answers
pub mod Requests
pub mod Dispatch
pub mod Runs
mod Tests
use csc.Common.{
  ℕ, zero, suc, ◌+◌, ◌-◌, ◌>>=◌, Bool, true, false, Option, none, some, List, [], ◌∷◌, map, ◌==◌,
  if◌then◌else◌, Bytes, str_eq,
}
use mathlib.Core.Option

pub record Student : Type 0 where
  pub name : Bytes
  pub arrival_time : ℕ
  pub course : ℕ
  pub next_overall : Option ℕ
  pub next_course : Option ℕ

pub record Ta : Type 0 where
  pub name : Bytes
  pub current_student : Option ℕ

pub record Course : Type 0 where
  pub code : Bytes
  pub description : Bytes
  pub head : Option ℕ
  pub tail : Option ℕ
  pub helped : ℕ
  pub bailed : ℕ
  pub wait_time : ℕ
  pub help_time : ℕ

abbrev pub Store : Type 0
Store = ℕ → Option Student

-- The variables of `main`, the store, and the first address that was never given out.
pub record State : Type 0 where
  pub store : Store
  pub next : ℕ
  pub courses : List Course
  pub stu_list : Option ℕ
  pub ta_list : List Ta

-- `*p`
abbrev pub load : Store → Option ℕ → Option Student
load h none = none
load h (some p) = h p

abbrev pub write : Store → ℕ → Option Student → Store
write h p n a = if a == p then n else h a

-- `p->next_overall = q` and `p->next_course = q`
unfoldable pub set_next_overall : Store → Option ℕ → Option ℕ → Option Store
set_next_overall h none q = none
set_next_overall h (some p) q = h p >>= λ n. some (write h p (some (record n { next_overall = q })))

unfoldable pub set_next_course : Store → Option ℕ → Option ℕ → Option Store
set_next_course h none q = none
set_next_course h (some p) q = h p >>= λ n. some (write h p (some (record n { next_course = q })))

-- p == q
abbrev pub ptr_eq : Option ℕ → Option ℕ → Bool
ptr_eq none none = true
ptr_eq none (some q) = false
ptr_eq (some p) none = false
ptr_eq (some p) (some q) = p == q

-- The loops along the links run on fuel. There are no more waiting students than addresses given out.
abbrev pub rounds : State → ℕ
rounds s = suc s.next

unfoldable pub find_student : ℕ → Store → Option ℕ → Bytes → Option (Option ℕ)
find_student zero h current_student student_name = none
find_student (suc k) h none student_name = some none
find_student (suc k) h (some p) student_name = h p >>= λ n. elim (str_eq n.name student_name) [
  | true ↦ some (some p)
  | false ↦ find_student k h n.next_overall student_name
]

unfoldable pub find_ta : List Ta → Bytes → Option ℕ
find_ta [] ta_name = none
find_ta (t ∷ rest) ta_name =
    if str_eq t.name ta_name then some 0 else Option.map suc (find_ta rest ta_name)

unfoldable pub find_course : List Course → Bytes → Option ℕ
find_course [] course_code = none
find_course (c ∷ rest) course_code =
    if str_eq c.code course_code then some 0 else Option.map suc (find_course rest course_code)

abbrev pub new_student : Bytes → ℕ → ℕ → Student
new_student name now course = record {
  name = name;
  arrival_time = now;
  course = course;
  next_overall = none;
  next_course = none;
}

unfoldable pub new_course : Bytes → Bytes → Course
new_course course_code course_desc = record {
  code = course_code;
  description = course_desc;
  head = none;
  tail = none;
  helped = 0;
  bailed = 0;
  wait_time = 0;
  help_time = 0;
}

-- The statistics: a student has waited, has given up, has been helped.
abbrev pub waited : ℕ → Course → Course
waited t c = record c { wait_time = c.wait_time + t }

abbrev pub gave_up : Course → Course
gave_up c = record c { bailed = c.bailed + 1 }

abbrev pub helped_for : ℕ → Course → Course
helped_for t c = record c { help_time = c.help_time + t; helped = c.helped + 1 }

-- difftime(later, earlier)
abbrev pub difftime : ℕ → ℕ → ℕ
difftime later earlier = later - earlier
