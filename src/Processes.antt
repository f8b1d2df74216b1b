-- ===== src/Processes.antt =====
-- A1/most_processes.c: the user with the most processes. The input is the list of what `sscanf` finds
-- on each line: the user and the parent's number. `current_uid` is compared before it is written, so
-- what it holds at first is a parameter. A user name fits its array (at most 30 bytes).
pub mod Runs
mod Tests
use csc.Common.{
  ℕ, ◌+◌, true, false, Option, none, some, List, [], ◌∷◌, map, ltb, ◌==◌, if◌then◌else◌, Bytes,
  str_eq,
}

pub record Tally : Type 0 where
  pub greatest_pid_num : ℕ
  pub greatest_uid : Bytes
  pub current_pid_num : ℕ
  pub current_uid : Bytes

-- "NO UID" in read_lines and "PPID NOT FOUND" in read_lines_ppid, given as `nobody`
abbrev pub started : Bytes → Bytes → Tally
started nobody uninitialised = record {
  greatest_pid_num = 1;
  greatest_uid = nobody;
  current_pid_num = 1;
  current_uid = uninitialised;
}

abbrev pub grown : Tally → Tally
grown t = record t { current_pid_num = t.current_pid_num + 1 }

-- One line of `read_lines`.
unfoldable pub count_line : Tally → Bytes → Tally
count_line t line_uid = elim (str_eq line_uid t.current_uid) [
  | true ↦ elim (ltb t.greatest_pid_num (t.current_pid_num + 1)) [
    | true ↦ record t {
      greatest_pid_num = t.current_pid_num + 1;
      greatest_uid = t.current_uid;
      current_pid_num = t.current_pid_num + 1;
    }
    | false ↦ grown t
  ]
  | false ↦ record t { current_pid_num = 1; current_uid = line_uid }
]

unfoldable pub read_lines : Tally → List Bytes → Tally
read_lines t [] = t
read_lines t (uid ∷ rest) = read_lines (count_line t uid) rest

-- One line of `read_lines_ppid`, which counts only if its parent is the given one.
unfoldable pub count_line_ppid : ℕ → Tally → Bytes × ℕ → Tally
count_line_ppid user_ppid t (line_uid, line_ppid) = elim (line_ppid == user_ppid) [
  | true ↦ elim (str_eq line_uid t.current_uid) [
    | true ↦ elim (ltb t.greatest_pid_num (t.current_pid_num + 1)) [
      | true ↦ record t {
        greatest_pid_num = t.current_pid_num + 1;
        greatest_uid = t.current_uid;
        current_pid_num = t.current_pid_num + 1;
      }
      | false ↦ grown t
    ]
    | false ↦ record t { current_pid_num = 1; current_uid = line_uid }
  ]
  | false ↦ t
]

unfoldable pub read_lines_ppid : ℕ → Tally → List (Bytes × ℕ) → Tally
read_lines_ppid user_ppid t [] = t
read_lines_ppid user_ppid t (line ∷ rest) =
    read_lines_ppid user_ppid (count_line_ppid user_ppid t line) rest

-- What is printed, unless the greatest is still `nobody`.
unfoldable pub report : Bytes → Tally → Option (Bytes × ℕ)
report nobody t =
    if str_eq t.greatest_uid nobody then none else some (t.greatest_uid, t.greatest_pid_num)

-- `main`: USAGE for more than one argument, else what the run over the input prints.
pub data Printed : Type 0 where
  usage : Printed
  result : Option (Bytes × ℕ) → Printed

unfoldable pub main : Bytes → Bytes → Bytes → List ℕ → List (Bytes × ℕ) → Printed
main no_uid not_found uninitialised [] input =
    result (
      report no_uid
        (read_lines (started no_uid uninitialised) (map (λ (l : Bytes × ℕ). l.0) input)))
main no_uid not_found uninitialised (ppid ∷ []) input =
    result (report not_found (read_lines_ppid ppid (started not_found uninitialised) input))
main no_uid not_found uninitialised (p ∷ q ∷ r) input = usage
