-- ===== src/Waitlist/Commands.antt =====
-- A2/helpcentre.c, lines 43 to 169: the commands and the loop over the lines. `strtok` and the loop that
-- fills `cmd_argv` are those of A4. What `fgets` delivers is an argument, with the time of the command;
-- the echo of a line and the prompt are left out.
use csc.Common.{
  ℕ, ◌>>=◌, Bool, true, false, Option, none, some, List, [], ◌∷◌, ◌++◌, map, ◌==◌, if◌then◌else◌,
  Bytes, codes, str_eq,
}
use Prim.Native.String.{String}
use csc.Newline.{cstr}
use csc.HelpCentre.Commands.{strtok_all, collect_args}
use csc.Waitlist.{State, new_course}
use csc.Waitlist.Operations.{
  add_student, give_up_waiting, add_ta, remove_ta, take_next_overall, take_next_course,
}
use csc.Waitlist.Reports.{
  Output, print_all_queues, print_currently_serving, print_full_queue, stats_by_course,
}

-- What the words of a line ask for.
pub data Command : Type 0 where
  no_words : Command
  quit : Command
  show_help : Command
  sleep : Command
  add : Bytes → Bytes → Command
  full_queue : Command
  currently_serving : Command
  all_queues : Command
  stats_of : Bytes → Command
  give_up : Bytes → Command
  new_ta : Bytes → Command
  without : Bytes → Command
  next : Bytes → Command
  next_in : Bytes → Bytes → Command
  incorrect : Command

abbrev alone : Bytes → Command
alone cmd =
    if str_eq cmd (codes "quit")
    then Command.quit
    else if str_eq cmd (codes "help")
    then Command.show_help
    else if str_eq cmd (codes "sleep")
    then Command.sleep
    else if str_eq cmd (codes "print_full_queue")
    then Command.full_queue
    else if str_eq cmd (codes "print_currently_serving")
    then Command.currently_serving
    else if str_eq cmd (codes "print_all_queues")
    then Command.all_queues
    else Command.incorrect

abbrev with_one : Bytes → Bytes → Command
with_one cmd a =
    if str_eq cmd (codes "stats_by_course")
    then Command.stats_of a
    else if str_eq cmd (codes "give_up")
    then Command.give_up a
    else if str_eq cmd (codes "add_ta")
    then Command.new_ta a
    else if str_eq cmd (codes "remove_ta")
    then Command.without a
    else if str_eq cmd (codes "next")
    then Command.next a
    else Command.incorrect

abbrev with_two : Bytes → Bytes → Bytes → Command
with_two cmd a b =
    if str_eq cmd (codes "add_student")
    then Command.add a b
    else if str_eq cmd (codes "next")
    then Command.next_in a b
    else Command.incorrect

unfoldable pub command : List Bytes → Command
command [] = Command.no_words
command (cmd ∷ []) = alone cmd
command (cmd ∷ a ∷ []) = with_one cmd a
command (cmd ∷ a ∷ b ∷ []) = with_two cmd a b
command (cmd ∷ a ∷ b ∷ c ∷ more) = Command.incorrect

abbrev error : String → List Output
error msg = Output.error (codes msg) ∷ []

-- What is printed for the number that the operation returned.
abbrev pub add_errors : ℕ → List Output
add_errors result =
    if result == 1
    then error "This student is already in the queue."
    else if result == 2
    then error "Invalid Course -- student not added."
    else []

abbrev pub give_up_errors : ℕ → List Output
give_up_errors result =
    if result == 1 then error "There was no student by that name waiting in the queue." else []

abbrev pub ta_errors : ℕ → List Output
ta_errors result = if result == 1 then error "Invalid TA name." else []

abbrev pub next_errors : ℕ → List Output
next_errors result =
    if result == 1
    then error "Invalid TA name."
    else if result == 2
    then error "Invalid course code."
    else []

abbrev pub stats_errors : ℕ → List Output
stats_errors result = if result == 1 then error "Invalid course code." else []

abbrev pub syntax_error : List Output
syntax_error = error "Incorrect syntax."

abbrev pub too_many : List Output
too_many = error "Too many arguments."

-- Whether to quit, the state and what is printed; `none` is a fault.
abbrev pub Outcome : Type 0
Outcome = Option (Bool × State × List Output)

abbrev printed : State → Option (List Output) → Outcome
printed s m = m >>= λ l. some (false, s, l)

abbrev done : (ℕ → List Output) → Option (ℕ × State) → Outcome
done errors m = m >>= λ (r : ℕ × State). some (false, r.1, errors r.0)

unfoldable pub execute : Command → State → ℕ → Outcome
execute Command.no_words s now = some (false, s, [])
execute Command.quit s now = some (true, s, [])
execute Command.show_help s now = some (false, s, Output.help ∷ [])
execute Command.sleep s now = some (false, s, [])
execute (Command.add a b) s now = done add_errors (add_student s a b now)
execute Command.full_queue s now = printed s (print_full_queue s)
execute Command.currently_serving s now = printed s (print_currently_serving s)
execute Command.all_queues s now = printed s (print_all_queues s)
execute (Command.stats_of a) s now =
    stats_by_course s a >>= λ (r : ℕ × List Output). some (false, s, r.1 ++ stats_errors r.0)
execute (Command.give_up a) s now = done give_up_errors (give_up_waiting s a now)
execute (Command.new_ta a) s now = some (false, add_ta s a, [])
execute (Command.without a) s now = done ta_errors (remove_ta s a now)
execute (Command.next a) s now = done ta_errors (take_next_overall s a now)
execute (Command.next_in a b) s now = done next_errors (take_next_course s a b now)
execute Command.incorrect s now = some (false, s, syntax_error)

unfoldable pub process_args : List Bytes → State → ℕ → Outcome
process_args cmd_argv s now = execute (command cmd_argv) s now

-- One round of the loop of `main`.
unfoldable pub run_line : Bytes → State → ℕ → Outcome
run_line input s now = elim (collect_args 0 (strtok_all [] (cstr input))) [
  | none ↦ some (false, s, too_many)
  | some cmd_argv ↦ process_args cmd_argv s now
]

-- The lines, each with the time at which it is read; the loop ends with them or with `quit`.
unfoldable pub run : List (Bytes × ℕ) → State → Option (State × List Output)
run [] s = some (s, [])
run ((input, now) ∷ lines) s = run_line input s now >>= λ (r : Bool × State × List Output).
    elim r.0 [
      | true ↦ some (r.1, r.2)
      | false ↦ run lines r.1 >>= λ (z : State × List Output). some (z.0, r.2 ++ z.1)
    ]

-- The state before the first line, for the courses of the file: the code and the description of each.
abbrev pub start : List (Bytes × Bytes) → State
start config = record {
  store = λ p. none;
  next = 0;
  courses = map (λ (c : Bytes × Bytes). new_course c.0 c.1) config;
  stu_list = none;
  ta_list = [];
}
