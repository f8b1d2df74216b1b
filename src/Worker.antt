-- ===== src/Worker.antt =====
-- A3/worker.c and A3/query.c: the records of a word, and the table of the query. The table is its
-- whole array. `none` is an access outside an array.
pub mod Table
pub mod Moves
pub mod Insertion
pub mod Queries
pub mod Totals
pub mod Pipes
pub mod Subdirectories
pub mod Records
mod Tests
use csc.Common.{
  ℕ, zero, suc, ◌+◌, ◌-◌, ◌>>=◌, Bool, true, false, ◌&&◌, Option, none, some, List, [], ◌∷◌, ltb,
  leb, ◌==◌, if◌then◌else◌, length, get_or, set, take, replicate, Bytes, str_eq,
}
use csc.Index.{Node}

-- MAXRECORDS
abbrev pub maxrecords : ℕ
maxrecords = 100

-- PATHLENGTH
abbrev pub pathlength : ℕ
pathlength = 128

pub record FreqRecord : Type 0 where
  pub freq : ℕ
  pub filename : Bytes

abbrev pub get_empty_freqrecord : FreqRecord
get_empty_freqrecord = record { freq = 0; filename = [] }

abbrev pub freq_at : List FreqRecord → ℕ → ℕ
freq_at array i = (get_or array i get_empty_freqrecord).freq

-- for (i = 0; i < array_size - 1; i++): rounds left, and `i`
unfoldable pub first_below : ℕ → ℕ → List FreqRecord → ℕ → Option ℕ
first_below zero i array freq = none
first_below (suc n) i array freq =
    let further = first_below n (i + 1) array freq in
    if leb (freq_at array i) freq then some i else further

-- `array[array_size - 1].freq`; for an empty table that reads in front of the array, and what stands
-- there is a parameter.
abbrev pub last_freq : ℕ → List FreqRecord → ℕ → ℕ
last_freq in_front array zero = in_front
last_freq in_front array (suc n) = freq_at array n

-- The position, or `none` for -1.
unfoldable pub determine_insert_pos : ℕ → List FreqRecord → FreqRecord → ℕ → Option ℕ
determine_insert_pos in_front array child array_size =
    if ltb array_size maxrecords && ltb (last_freq in_front array array_size) child.freq
    then elim (first_below (array_size - 1) 0 array child.freq) [
      | none ↦ some array_size
      | some i ↦ some i
    ]
    else none

-- for (i = pos + rounds - 1; i >= pos; i--) array[i+1] = array[i];
unfoldable pub shift_up : ℕ → ℕ → List FreqRecord → Option (List FreqRecord)
shift_up zero pos array = some array
shift_up (suc k) pos array =
    if ltb (suc (pos + k)) (length array)
    then shift_up k pos (set array (suc (pos + k)) (get_or array (pos + k) get_empty_freqrecord))
    else none

-- The array and the number of elements.
unfoldable pub insert : ℕ → List FreqRecord → FreqRecord → ℕ → Option (List FreqRecord × ℕ)
insert in_front array child num_elements =
    elim (determine_insert_pos in_front array child num_elements) [
      | none ↦ some (array, num_elements)
      | some insert_pos ↦ shift_up (suc num_elements - insert_pos) insert_pos array >>= λ shifted.
          some (set shifted insert_pos child, suc num_elements)
    ]

-- The number of names before the empty one.
unfoldable pub count_names : List Bytes → ℕ
count_names [] = 0
count_names ([] ∷ rest) = 0
count_names ((c ∷ name) ∷ rest) = suc (count_names rest)

-- One record for each file, from the counter and the name of the same index.
unfoldable pub records_of : ℕ → List ℕ → List Bytes → Option (List FreqRecord)
records_of zero freq file_names = some []
records_of (suc n) [] file_names = none
records_of (suc n) (k ∷ freq) [] = none
records_of (suc n) (k ∷ freq) (name ∷ file_names) = records_of n freq file_names >>= λ rest.
    some (record { freq = k; filename = take pathlength name } ∷ rest)

-- The walk of the list: what is written to `frequencies` from its start on, each node with the word
-- starting over at the first record, and `num_found`.
unfoldable pub find_records :
    Bytes → ℕ → List Node → List Bytes → List FreqRecord × ℕ → Option (List FreqRecord × ℕ)
find_records word n [] file_names found = some found
find_records word n (cur ∷ rest) file_names (written, num_found) =
    if str_eq cur.word word
    then (records_of n cur.freq file_names >>= λ l.
        find_records word n rest file_names (l, num_found + n))
    else find_records word n rest file_names (written, num_found)

-- How many records are allocated, what is written there from the start on, and where the sentinel
-- goes. An empty list gets none.
unfoldable pub get_word : Bytes → List Node → List Bytes → Option (ℕ × List FreqRecord × Option ℕ)
get_word word [] file_names = some (count_names file_names, [], none)
get_word word (cur ∷ rest) file_names =
    find_records word (count_names file_names) (cur ∷ rest) file_names ([], 0)
    >>= λ (r : List FreqRecord × ℕ). some (count_names file_names, r.0, some r.1)

-- The records that are sent for a word: those with a count, under a path that starts with "./".
unfoldable pub is_sent : FreqRecord → Bool
is_sent r = ltb 0 r.freq && (get_or r.filename 0 0 == 46 && get_or r.filename 1 0 == 47)

unfoldable pub reply : List FreqRecord → List FreqRecord
reply [] = get_empty_freqrecord ∷ []
reply (r ∷ frequencies) = let rest = reply frequencies in if is_sent r then r ∷ rest else rest

-- do { Read; if (freq > 0) insert } while (freq > 0), over what a child writes; `none`, too, if it
-- stops before an empty record.
unfoldable pub take_reply : ℕ → List FreqRecord → ℕ → List FreqRecord → Option (List FreqRecord × ℕ)
take_reply in_front master count [] = none
take_reply in_front master count (r ∷ rest) = elim (ltb 0 r.freq) [
  | false ↦ some (master, count)
  | true ↦ insert in_front master r count >>= λ (m : List FreqRecord × ℕ).
      take_reply in_front m.0 m.1 rest
]

-- All children, in order.
unfoldable pub take_replies :
    ℕ → List FreqRecord → ℕ → List (List FreqRecord) → Option (List FreqRecord × ℕ)
take_replies in_front master count [] = some (master, count)
take_replies in_front master count (c ∷ children) =
    take_reply in_front master count c >>= λ (m : List FreqRecord × ℕ).
    take_replies in_front m.0 m.1 children

-- if (count >= 2), the last two change places.
unfoldable pub swap_last : List FreqRecord → ℕ → List FreqRecord
swap_last master zero = master
swap_last master (suc zero) = master
swap_last master (suc (suc n)) =
    let temp = get_or master (suc n) get_empty_freqrecord in
    set (set master (suc n) (get_or master n get_empty_freqrecord)) n temp

-- One query: the table that is printed, and how many records are in it.
unfoldable pub query : ℕ → List (List FreqRecord) → Option (List FreqRecord × ℕ)
query in_front children =
    take_replies in_front (replicate maxrecords get_empty_freqrecord) 0 children
    >>= λ (m : List FreqRecord × ℕ). some (swap_last m.0 m.1, m.1)

-- while (strlen(frp[i].filename) > 0): the records that are printed
unfoldable pub print_freq_records : List FreqRecord → Option (List FreqRecord)
print_freq_records [] = none
print_freq_records (r ∷ frp) = elim r.filename [
  | [] ↦ some []
  | c ∷ name ↦ print_freq_records frp >>= λ l. some (r ∷ l)
]
