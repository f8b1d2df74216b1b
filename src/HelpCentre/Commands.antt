-- ===== src/HelpCentre/Commands.antt =====
-- A4/helpcentre.c: the commands that the program reads, one to a line. What `fgets` delivers is an
-- argument. The texts of the two print commands are built and dropped: what they leave is a fault where a text
-- does not fit its block, of which `held` is what a fresh one holds up to its first NUL.
pub mod Words
pub mod Printing
use csc.Common.{
  ℕ, suc, ◌+◌, Bool, ◌||◌, Option, none, some, List, [], ◌∷◌, ◌++◌, map, leb, ◌==◌, if◌then◌else◌,
  length, Bytes, codes, str_eq,
}
use mathlib.Core.Option
use csc.HelpCentre.Students.{Student, add_student, give_up_waiting}
use csc.HelpCentre.Reports.{Report, print_full_queue, print_currently_serving}
use csc.Newline.{cstr}
use csc.HelpCentre.Tas.{Ta, add_ta, remove_ta, next_overall}

-- The two global lists.
pub record Centre : Type 0 where
  pub stu_list : List Student
  pub ta_list : List Ta

-- The state after a command and what `error` has printed; `none` is a fault.
abbrev pub Outcome : Type 0
Outcome = Option (Centre × List Bytes)

-- INPUT_ARG_MAX_NUM
abbrev pub max_args : ℕ
max_args = 3

-- DELIM
abbrev pub is_delim : ℕ → Bool
is_delim c = c == b' ' || c == 10

abbrev pub emit : Bytes → List Bytes → List Bytes
emit [] l = l
emit (x ∷ xs) l = (x ∷ xs) ∷ l

-- The tokens that the calls of `strtok` return, with the bytes of the current one.
unfoldable pub strtok_all : Bytes → Bytes → List Bytes
strtok_all cur [] = emit cur []
strtok_all cur (c ∷ rest) =
    let after : List Bytes = strtok_all [] rest in
    let within : List Bytes = strtok_all (cur ++ c ∷ []) rest in
    if is_delim c then emit cur after else within

-- The loop that fills `cmd_argv`; `none` is "Too many arguments."
unfoldable pub collect_args : ℕ → List Bytes → Option (List Bytes)
collect_args cmd_argc [] = some []
collect_args cmd_argc (t ∷ ts) =
    let rest : Option (List Bytes) = Option.map (λ l. t ∷ l) (collect_args (suc cmd_argc) ts) in
    if leb max_args cmd_argc then none else rest

abbrev said : Centre → List Bytes → Outcome
said c errors = some (c, errors)

abbrev incorrect : Centre → Outcome
incorrect c = said c (codes "Incorrect syntax." ∷ [])

abbrev after_add : Centre → ℕ × List Student → Outcome
after_add c (result, l) =
    said (record c { stu_list = l })
      (if result == 1
        then codes "This student is already in the queue." ∷ []
        else if result == 2
        then codes "Invalid Course -- student not added." ∷ []
        else [])

abbrev after_give_up : Centre → Option (ℕ × List Student) → Outcome
after_give_up c none = none
after_give_up c (some (result, l)) =
    said (record c { stu_list = l })
      (if result == 1
        then codes "There was no student by that name waiting in the queue." ∷ []
        else [])

abbrev after_remove : Centre → ℕ × List Ta → Outcome
after_remove c (result, l) =
    said (record c { ta_list = l }) (if result == 1 then codes "Invalid TA name." ∷ [] else [])

abbrev after_next : Option (ℕ × List Ta × List Student) → Outcome
after_next none = none
after_next (some (result, t, l)) =
    said (record { stu_list = l; ta_list = t })
      (if result == 1 then codes "Invalid TA name." ∷ [] else [])

abbrev after_report : Centre → Report → Outcome
after_report c r = if leb (length r.text + 1) r.allocated then said c [] else none

unfoldable pub process_args : Bytes → List Bytes → List Bytes → Centre → Outcome
process_args held courses [] c = said c []
process_args held courses (cmd ∷ []) c =
    if str_eq cmd (codes "print_full_queue")
    then after_report c (print_full_queue held courses c.stu_list)
    else if str_eq cmd (codes "print_currently_serving")
    then after_report c (print_currently_serving held c.ta_list)
    else incorrect c
process_args held courses (cmd ∷ a ∷ []) c =
    if str_eq cmd (codes "give_up")
    then after_give_up c (give_up_waiting c.stu_list a)
    else if str_eq cmd (codes "add_ta")
    then said (record c { ta_list = add_ta c.ta_list a }) []
    else if str_eq cmd (codes "remove_ta")
    then after_remove c (remove_ta c.ta_list a)
    else if str_eq cmd (codes "next")
    then after_next (next_overall a c.ta_list c.stu_list)
    else incorrect c
process_args held courses (cmd ∷ a ∷ b ∷ []) c =
    if str_eq cmd (codes "add_student")
    then after_add c (add_student c.stu_list a b courses)
    else incorrect c
process_args held courses (cmd ∷ a ∷ b ∷ more) c = incorrect c

-- One round of the loop of `main`.
unfoldable pub run_line : Bytes → List Bytes → Bytes → Centre → Outcome
run_line held courses input c = elim (collect_args 0 (strtok_all [] (cstr input))) [
  | none ↦ said c (codes "Too many arguments." ∷ [])
  | some cmd_argv ↦ process_args held courses cmd_argv c
]

abbrev then_line : Outcome → (Centre → Outcome) → Outcome
then_line none k = none
then_line (some (c, errors)) k =
    Option.map (λ (r : Centre × List Bytes). (r.0, errors ++ r.1)) (k c)

-- All lines of the input.
unfoldable pub run : Bytes → List Bytes → List Bytes → Centre → Outcome
run held courses [] c = said c []
run held courses (input ∷ inputs) c =
    then_line (run_line held courses input c) (λ d. run held courses inputs d)
