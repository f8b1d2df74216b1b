-- ===== src/HelpCentre/Tests.antt =====
-- Runs of the queue's operations, and the theorems at concrete queues.
use csc.Common.{◌+◌, ◌≤◌, ◌≡◌, refl, ◌↔◌, none, some, List, [], ◌∷◌, Bytes, codes, str_eq}
use csc.HelpCentre.Students.{
  Student, find_student, find_course, link_last, add_student, route_around_overall, give_up_waiting,
}
use csc.HelpCentre.Students.Queue.{Joins, Leaves, add_student-Joins, give_up_waiting-Leaves}
use csc.HelpCentre.Tas.{Ta, find_ta, add_ta, take_student, next_overall}
use csc.HelpCentre.Tas.Serving.{Serves, next_overall-Serves}
use csc.Newline.{cstr}
use csc.HelpCentre.Reports.{print_currently_serving, print_full_queue}
use csc.HelpCentre.Reports.Buffers.{
  needed, serving_text, queue_text, currently_serving_overflows, full_queue_fits,
}
use csc.HelpCentre.Commands.Printing.{run_line-prints}
use csc.HelpCentre.Commands.{Centre, run, run_line, process_args, strtok_all, collect_args}

abbrev courses : List Bytes
courses = codes "CSC108" ∷ codes "CSC148" ∷ codes "CSC209" ∷ []

abbrev amy : Student
amy = record { name = codes "amy"; course = 0 }

abbrev bob : Student
bob = record { name = codes "bob"; course = 2 }

abbrev eve : Ta
eve = record { name = codes "eve"; current_student = none }

abbrev opened : Centre
opened = record { stu_list = []; ta_list = [] }

abbrev script : List Bytes
script =
    codes "add_student amy CSC108"
    ∷ codes "add_student bob CSC209"
    ∷ codes "add_student bob CSC108"
    ∷ codes "add_ta eve"
    ∷ codes "next eve"
    ∷ codes "a b c d"
    ∷ []

script_runs :
    run [] courses script opened
    ≡ some (
      record { stu_list = bob ∷ []; ta_list = record eve { current_student = some amy } ∷ [] },
      codes "This student is already in the queue." ∷ codes "Too many arguments." ∷ [],
    )
unfolding run run_line cstr process_args strtok_all collect_args add_student find_student
    find_course str_eq link_last add_ta next_overall find_ta take_student route_around_overall
script_runs = refl

add_student-Joins_example :
    Joins (amy ∷ []) (codes "bob") (codes "CSC209") courses 0 (amy ∷ bob ∷ [])
unfolding add_student find_student find_course link_last str_eq
add_student-Joins_example = add_student-Joins (amy ∷ []) (codes "bob") (codes "CSC209") courses

give_up_waiting-Leaves_example : Leaves (amy ∷ bob ∷ []) (codes "amy") (some (0, bob ∷ []))
unfolding give_up_waiting find_student route_around_overall str_eq
give_up_waiting-Leaves_example = give_up_waiting-Leaves (amy ∷ bob ∷ []) (codes "amy")

next_overall-Serves_example :
    Serves
      (codes "eve")
      (eve ∷ [])
      (amy ∷ bob ∷ [])
      (next_overall (codes "eve") (eve ∷ []) (amy ∷ bob ∷ []))
next_overall-Serves_example = next_overall-Serves (codes "eve") (eve ∷ []) (amy ∷ bob ∷ [])

currently_serving_overflows_example :
    ((print_currently_serving [] (eve ∷ [])).text ≡ serving_text (eve ∷ []))
    × (needed (print_currently_serving [] (eve ∷ []))
        ≡ (print_currently_serving [] (eve ∷ [])).allocated + 1 + 0)
currently_serving_overflows_example = currently_serving_overflows [] (eve ∷ [])

full_queue_fits_example :
    ((print_full_queue (7 ∷ []) courses (amy ∷ [])).text ≡ 7 ∷ queue_text courses (amy ∷ []))
    × ((needed (print_full_queue (7 ∷ []) courses (amy ∷ []))
          ≤ (print_full_queue (7 ∷ []) courses (amy ∷ [])).allocated)
        ↔ (1 ≤ 1))
full_queue_fits_example = full_queue_fits (7 ∷ []) courses (amy ∷ [])

run_line-prints_example :
    (run_line (7 ∷ []) courses (codes "print_currently_serving\n") opened ≡ none)
    × (run_line (7 ∷ []) courses (codes "print_full_queue\n") opened ≡ some (opened, []))
run_line-prints_example = run_line-prints (7 ∷ []) courses opened
