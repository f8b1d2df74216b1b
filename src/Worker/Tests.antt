-- ===== src/Worker/Tests.antt =====
-- A3/worker.c and A3/query.c: runs on small inputs, and instances of the theorems.
use csc.Common.{
  ℕ, zero, suc, ◌≤◌, ◌<◌, ◌≡◌, refl, inl, inr, Bool, true, false, Option, none, some, List, [], ◌∷◌,
  map, arith, ◌==◌, length, replicate, Bytes, codes, strcmp, str_eq, str_eq_refl,
}
use csc.Index.{Node}
use csc.Worker.{
  FreqRecord, get_empty_freqrecord, freq_at, first_below, determine_insert_pos, shift_up, insert,
  get_word, is_sent, reply, take_reply, take_replies, swap_last, query, print_freq_records,
}
use csc.Worker.Table.{Ranked}
use csc.Worker.Insertion.{Inserted, insert-Inserted}
use csc.Worker.Queries.{Descending, query-Descending}
use csc.Worker.Records.{get_word-overruns}
use csc.Worker.Totals.{count_all, query-returns}
use csc.Worker.Pipes.{Descriptors, all_pipes, child_closes, parent_closes, end_of_words}
use csc.Worker.Pipes.Ends.{At}
use csc.Worker.Pipes.Loops.{closes-At}
use csc.Worker.Subdirectories.{Search, is_skipped, child_path, find_subdirectories}
use csc.Worker.Subdirectories.Paths.{
  Plain, subdirectories, result, find_subdirectories_lem, child_path-cut,
}

abbrev rec : ℕ → FreqRecord
rec n = record { freq = n; filename = 46 ∷ 47 ∷ n ∷ [] }

abbrev two_children : List (List FreqRecord)
two_children =
    (rec 3 ∷ rec 5 ∷ get_empty_freqrecord ∷ []) ∷ (rec 9 ∷ rec 4 ∷ get_empty_freqrecord ∷ []) ∷ []

abbrev table_of : Option (List FreqRecord × ℕ) → List FreqRecord × ℕ
table_of none = ([], 0)
table_of (some t) = t

abbrev answer : List FreqRecord × ℕ
answer = table_of (query 0 two_children)

two_children_run : query 0 two_children ≡ some (answer.0, answer.1)
unfolding query take_replies take_reply insert determine_insert_pos first_below shift_up swap_last
two_children_run = refl

-- The record of 4 is not above the last, and is dropped.
two_children_print : print_freq_records answer.0 ≡ some (rec 9 ∷ rec 5 ∷ rec 3 ∷ [])
unfolding print_freq_records query take_replies take_reply insert determine_insert_pos first_below
    shift_up swap_last
two_children_print = refl

query-Descending_example : Descending answer.0 answer.1
query-Descending_example = query-Descending 0 two_children answer.0 answer.1 two_children_run

-- The last two ascend.
abbrev three_and_five : List FreqRecord
three_and_five = rec 3 ∷ rec 5 ∷ replicate 98 get_empty_freqrecord

three_and_five-Ranked : Ranked (freq_at three_and_five) 2
three_and_five-Ranked = record {
  descends = λ i j h k. ground (arith, h, k);
  last_two = ascend;
  above = λ i m e h. ground (arith, e, h);
}
  where
    ascend : (m : ℕ) → 2 ≡ suc (suc m) → freq_at three_and_five m < freq_at three_and_five (suc m)
    ascend zero e = omega arith
    ascend (suc m) e = ground (arith, e)

insert-Inserted_example : Inserted 0 three_and_five (rec 7) 2 (insert 0 three_and_five (rec 7) 2)
insert-Inserted_example =
    insert-Inserted 0 three_and_five (rec 7) 2 refl (omega arith) three_and_five-Ranked

abbrev node : Bytes → List ℕ → Node
node w f = record { word = w; freq = f }

abbrev one_node : List Node
one_node = node (codes "ant") (1 ∷ 2 ∷ []) ∷ node (codes "cow") (3 ∷ 0 ∷ []) ∷ []

abbrev two_files : List Bytes
two_files = codes "./a" ∷ codes "./b" ∷ [] ∷ []

abbrev cow_records : List FreqRecord
cow_records =
    record { freq = 3; filename = codes "./a" } ∷ record { freq = 0; filename = codes "./b" } ∷ []

cow_is_sent_once :
    reply cow_records ≡ record { freq = 3; filename = codes "./a" } ∷ get_empty_freqrecord ∷ []
unfolding reply is_sent
cow_is_sent_once = refl

ant_is_not : str_eq (codes "ant") (codes "cow") ≡ false
unfolding str_eq strcmp
ant_is_not = refl

get_word-overruns_example :
    get_word (codes "cow") one_node two_files ≡ some (2, cow_records, some 2)
get_word-overruns_example =
    get_word-overruns (codes "cow") (node (codes "ant") (1 ∷ 2 ∷ []) ∷ []) []
      (node (codes "cow") (3 ∷ 0 ∷ [])) (codes "./a" ∷ codes "./b" ∷ []) [] (ant_is_not, tt)
      (str_eq_refl (codes "cow")) tt
      (λ e. ground (arith, e), omega arith, (λ e. ground (arith, e), omega arith, tt)) (omega arith)

query-returns_example :
    (a : List FreqRecord) × (n : ℕ) × (query 7 (map reply (cow_records ∷ cow_records ∷ []))
      ≡ some (a, n))
    × (n ≤ count_all (cow_records ∷ cow_records ∷ []))
unfolding is_sent
query-returns_example = query-returns 7 (cow_records ∷ cow_records ∷ []) (omega arith)

closes-At_example :
    ((i : ℕ)
      → (e : Descriptors) × (child_closes 3 0 i (all_pipes 3) ≡ some e)
        × ((m : ℕ) → m < 3 → At e m (m == i) false false (m == i)))
    × ((p q : Descriptors) × (parent_closes 3 0 (all_pipes 3) ≡ some p)
        × ((m : ℕ) → m < 3 → At p m false true true false)
        × (end_of_words 3 0 p ≡ some q)
        × ((m : ℕ) → m < 3 → At q m false false true false))
closes-At_example = closes-At 3

abbrev all_directories : Bytes → Option Bool
all_directories p = some true

abbrev few_entries : List Bytes
few_entries = codes "." ∷ codes ".." ∷ codes "big" ∷ codes "small" ∷ []

few-Plain : Plain (codes "data") all_directories few_entries
unfolding is_skipped str_eq
few-Plain =
    (inl refl, (inl refl, (inr (omega arith, (true, refl)), (inr (omega arith, (true, refl)), tt))))

find_subdirectories_lem_example :
    find_subdirectories (codes "data") all_directories few_entries
    ≡ elim (subdirectories (codes "data") all_directories few_entries) [
      | [] ↦ Search.exits
      | p ∷ l ↦ result (p ∷ l)
    ]
find_subdirectories_lem_example =
    find_subdirectories_lem (codes "data") all_directories few_entries few-Plain

child_path-cut_example :
    (p : Bytes) × (child_path (replicate 100 97) ≡ some p) × (length p ≡ 28) × (length p < 102)
child_path-cut_example = child_path-cut (replicate 100 97) (omega arith) (omega arith)
