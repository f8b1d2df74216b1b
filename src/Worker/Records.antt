-- ===== src/Worker/Records.antt =====
-- A3/worker.c: the records of a word that is in the index.
use csc.Common.{
  ℕ, suc, ◌+◌, ◌≤◌, ◌≡◌, refl, sym, ap, ◌∙◌, >>=-some, ◌≢◌, true, false, some, List, [], ◌∷◌, ◌++◌,
  arith, length, Bytes, str_eq, take-all,
}
use mathlib.Core.List.{append-nil}
use csc.Index.{Node}
use csc.Worker.{FreqRecord, pathlength, count_names, records_of, find_records, get_word}

-- The word stands in no node.
abbrev pub Absent : Bytes → List Node → Type 0
Absent word [] = Unit {0}
Absent word (n ∷ l) = (str_eq n.word word ≡ false) × Absent word l

find_records-Absent :
    (word : Bytes) (n : ℕ) (l rest : List Node) (names : List Bytes) (found : List FreqRecord × ℕ)
    → Absent word l
    → find_records word n (l ++ rest) names found ≡ find_records word n rest names found
unfolding find_records
find_records-Absent word n [] rest names found h = refl
find_records-Absent word n (m ∷ l) rest names (w, k) (e, h) =
    rw (e, find_records) (find_records-Absent word n l rest names (w, k) h)

find_records-one :
    (word : Bytes) (n : ℕ) (before after : List Node) (x : Node) (names : List Bytes)
    (l : List FreqRecord)
    → Absent word before
    → str_eq x.word word ≡ true
    → Absent word after
    → records_of n x.freq names ≡ some l
    → find_records word n (before ++ x ∷ after) names ([], 0) ≡ some (l, n)
unfolding find_records
find_records-one word n before after x names l h e h' r =
    find_records-Absent word n before (x ∷ after) names ([], 0) h
    ∙ rw (e, find_records)
        (>>=-some _ r (
          ap (λ k. find_records word n k names (l, 0 + n)) (sym (append-nil after))
          ∙ find_records-Absent word n after [] names (l, 0 + n) h'
          ∙ ap (λ k. some (l, k)) (omega arith)))

-- Names of files that fit in a record, none of them empty.
abbrev pub AllNamed : List Bytes → Type 0
AllNamed [] = Unit {0}
AllNamed (f ∷ named) = (f ≢ []) × (length f ≤ pathlength) × AllNamed named

-- A record for each name, with the counter of the same index.
abbrev pub paired : List ℕ → List Bytes → List FreqRecord
paired [] named = []
paired (k ∷ freq) [] = []
paired (k ∷ freq) (f ∷ named) = record { freq = k; filename = f } ∷ paired freq named

count_names-AllNamed :
    (named rest : List Bytes) → AllNamed named → count_names (named ++ [] ∷ rest) ≡ length named
unfolding count_names
count_names-AllNamed [] rest h = refl
count_names-AllNamed ([] ∷ named) rest (n, l, h) = absurd (n refl)
count_names-AllNamed ((c ∷ f) ∷ named) rest (n, l, h) = ap suc (count_names-AllNamed named rest h)

records_of-paired :
    (freq : List ℕ) (named rest : List Bytes)
    → AllNamed named
    → length named ≤ length freq
    → records_of (length named) freq (named ++ rest) ≡ some (paired freq named)
unfolding records_of
records_of-paired [] [] rest h l = refl
records_of-paired (k ∷ freq) [] rest h l = refl
records_of-paired [] (f ∷ named) rest h l = ground (arith, l)
records_of-paired (k ∷ freq) (f ∷ named) rest (n, w, h) l =
    >>=-some _ (records_of-paired freq named rest h (omega (arith, l))) (
      ap (λ g. some (record { freq = k; filename = g } ∷ paired freq named))
        (take-all pathlength f w))

get_word-node :
    (word : Bytes) (before after : List Node) (x : Node) (names : List Bytes) (n : ℕ)
    (l : List FreqRecord)
    → Absent word before
    → str_eq x.word word ≡ true
    → Absent word after
    → count_names names ≡ n
    → records_of n x.freq names ≡ some l
    → get_word word (before ++ x ∷ after) names ≡ some (n, l, some n)
unfolding get_word
get_word-node word [] after x names n l h e h' c r =
    rw c (>>=-some _ (find_records-one word n [] after x names l h e h' r) refl)
get_word-node word (m ∷ before) after x names n l h e h' c r =
    rw c (>>=-some _ (find_records-one word n (m ∷ before) after x names l h e h' r) refl)

-- For a word that stands in exactly one node, which has a counter for each file, and for files with
-- names of 1 to 128 bytes that an empty name ends: `get_word` allocates a record for each file, fills it
-- with the counter and the name of that file, and puts the sentinel behind the last, outside what it
-- allocated.
pub get_word-overruns :
    (word : Bytes) (before after : List Node) (x : Node) (named rest : List Bytes)
    → Absent word before
    → str_eq x.word word ≡ true
    → Absent word after
    → AllNamed named
    → length named ≤ length x.freq
    → get_word word (before ++ x ∷ after) (named ++ [] ∷ rest)
      ≡ some (length named, paired x.freq named, some (length named))
get_word-overruns word before after x named rest h e h' a l =
    get_word-node word before after x (named ++ [] ∷ rest) (length named) (paired x.freq named) h e
      h' (count_names-AllNamed named rest a) (records_of-paired x.freq named ([] ∷ rest) a l)
