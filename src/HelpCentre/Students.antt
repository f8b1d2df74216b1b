-- ===== src/HelpCentre/Students.antt =====
-- A4/hcq.c: the waiting students. `Student *` is a position in the list, oldest first; `Course *` is
-- a position in the course array, which is held as its codes. What `strcmp` and `malloc` do is the C
-- library's; `none` is a fault, a step through NULL.
pub mod Queue
use csc.Common.{ℕ, zero, suc, Option, none, some, List, [], ◌∷◌, map, if◌then◌else◌, Bytes, str_eq}
use mathlib.Core.Option

pub record Student : Type 0 where
  pub name : Bytes
  pub course : ℕ

unfoldable pub find_student : List Student → Bytes → Option ℕ
find_student [] student_name = none
find_student (s ∷ rest) student_name =
    if str_eq s.name student_name then some 0 else Option.map suc (find_student rest student_name)

unfoldable pub find_course : List Bytes → Bytes → Option ℕ
find_course [] course_code = none
find_course (c ∷ rest) course_code =
    if str_eq c course_code then some 0 else Option.map suc (find_course rest course_code)

-- The walk to the last student, and the link to the new one.
unfoldable pub link_last : List Student → Student → List Student
link_last [] new_student = new_student ∷ []
link_last (s ∷ rest) new_student = s ∷ link_last rest new_student

-- The result code and the list: 1 for a name that waits already, 2 for an unknown course.
unfoldable pub add_student : List Student → Bytes → Bytes → List Bytes → ℕ × List Student
add_student stu_list student_name course_code courses = elim (find_student stu_list student_name) [
  | some old_student ↦ (1, stu_list)
  | none ↦ elim (find_course courses course_code) [
    | none ↦ (2, stu_list)
    | some course ↦ (0, link_last stu_list (record { name = student_name; course = course }))
  ]
]

-- Takes the student at a position out; past the end the walk goes through NULL.
unfoldable pub route_around_overall : List Student → ℕ → Option (List Student)
route_around_overall [] thisstudent = none
route_around_overall (s ∷ rest) zero = some rest
route_around_overall (s ∷ rest) (suc k) = Option.map (λ l. s ∷ l) (route_around_overall rest k)

unfoldable pub give_up_waiting : List Student → Bytes → Option (ℕ × List Student)
give_up_waiting stu_list student_name = elim (find_student stu_list student_name) [
  | none ↦ some (1, stu_list)
  | some this_student ↦ Option.map (λ l. (0, l)) (route_around_overall stu_list this_student)
]
