-- ===== src/HelpCentre/Tas.antt =====
-- A4/hcq.c: the TAs, newest first. `Ta *` is a position in the list; the student whom a TA serves is
-- out of the queue and belongs to the TA.
pub mod Serving
use csc.Common.{
  ℕ, zero, suc, Option, none, some, List, [], ◌∷◌, map, if◌then◌else◌, get_elem?, Bytes, str_eq,
}
use mathlib.Core.Option
use csc.HelpCentre.Students.{Student, route_around_overall}

pub record Ta : Type 0 where
  pub name : Bytes
  pub current_student : Option Student

unfoldable pub find_ta : List Ta → Bytes → Option ℕ
find_ta [] ta_name = none
find_ta (t ∷ rest) ta_name =
    if str_eq t.name ta_name then some 0 else Option.map suc (find_ta rest ta_name)

unfoldable pub add_ta : List Ta → Bytes → List Ta
add_ta ta_list ta_name = record { name = ta_name; current_student = none } ∷ ta_list

-- `take_student(ta, NULL, NULL)` frees the student of a TA who leaves; then the TA is freed.
unfoldable pub remove_ta : List Ta → Bytes → ℕ × List Ta
remove_ta [] ta_name = (1, [])
remove_ta (t ∷ rest) ta_name =
    let (code, l) = remove_ta rest ta_name in
    if str_eq t.name ta_name then (0, rest) else (code, t ∷ l)

-- The student at a position of the queue, as `Student *to_serve`; NULL is `none`.
abbrev pub student_at : List Student → Option ℕ → Option Student
student_at stu_list none = none
student_at stu_list (some k) = get_elem? stu_list k

abbrev give_student : List Ta → ℕ → Option Student → List Ta
give_student [] k s = []
give_student (t ∷ rest) zero s = record t { current_student = s } ∷ rest
give_student (t ∷ rest) (suc k) s = t ∷ give_student rest k s

-- The TA at position `ta` is done with the student in hand, and has the next one, if any.
unfoldable pub take_student :
    List Ta → ℕ → List Student → Option ℕ → Option (List Ta × List Student)
take_student ta_list ta stu_list none = some (give_student ta_list ta none, stu_list)
take_student ta_list ta stu_list (some to_serve) =
    Option.map (λ l. (give_student ta_list ta (get_elem? stu_list to_serve), l))
      (route_around_overall stu_list to_serve)

abbrev pub head_of : List Student → Option ℕ
head_of [] = none
head_of (s ∷ rest) = some 0

unfoldable pub next_overall : Bytes → List Ta → List Student → Option (ℕ × List Ta × List Student)
next_overall ta_name ta_list stu_list = elim (find_ta ta_list ta_name) [
  | none ↦ some (1, ta_list, stu_list)
  | some ta ↦
      Option.map (λ (r : List Ta × List Student). (0, r.0, r.1))
        (take_student ta_list ta stu_list (head_of stu_list))
]
