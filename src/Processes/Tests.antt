-- ===== src/Processes/Tests.antt =====
-- A1/most_processes.c: runs on small inputs, and instances of the theorems.
use csc.Common.{ℕ, ◌≡◌, refl, false, none, some, List, [], ◌∷◌, Bytes, codes, str_eq}
use csc.Processes.{
  started, count_line, count_line_ppid, read_lines, read_lines_ppid, report, main, result, usage,
}
use csc.Processes.Runs.{onto, Result, read_lines-Result, of_parent, read_lines_ppid_lem}

abbrev no_uid : Bytes
no_uid = codes "NO UID"

abbrev some_lines : List (Bytes × ℕ)
some_lines =
    (codes "ann", 1)
    ∷ (codes "bob", 1)
    ∷ (codes "bob", 7)
    ∷ (codes "bob", 1)
    ∷ (codes "ann", 1)
    ∷ []

bob_has_three :
    main no_uid (codes "PPID NOT FOUND") [] [] some_lines ≡ result (some (codes "bob", 3))
unfolding main report read_lines count_line str_eq
bob_has_three = refl

bob_has_two :
    main no_uid (codes "PPID NOT FOUND") [] (1 ∷ []) some_lines ≡ result (some (codes "bob", 2))
unfolding main report read_lines_ppid count_line_ppid str_eq
bob_has_two = refl

one_each_prints_nothing : main no_uid (codes "PPID NOT FOUND") [] (7 ∷ []) some_lines ≡ result none
unfolding main report read_lines_ppid count_line_ppid str_eq
one_each_prints_nothing = refl

two_arguments : main no_uid (codes "PPID NOT FOUND") [] (7 ∷ 8 ∷ []) some_lines ≡ usage
unfolding main
two_arguments = refl

abbrev users : List Bytes
users = codes "bob" ∷ codes "bob" ∷ codes "ann" ∷ []

ann_is_new : str_eq (codes "ann") [] ≡ false
unfolding str_eq
ann_is_new = refl

read_lines-Result_example :
    Result no_uid
      (onto (codes "ann" ∷ users) [])
      (read_lines (started no_uid []) (codes "ann" ∷ users))
read_lines-Result_example = read_lines-Result no_uid [] (codes "ann") users ann_is_new

read_lines_ppid_lem_example :
    read_lines_ppid 1 (started no_uid []) some_lines
    ≡ read_lines (started no_uid []) (of_parent 1 some_lines)
read_lines_ppid_lem_example = read_lines_ppid_lem 1 (started no_uid []) some_lines
