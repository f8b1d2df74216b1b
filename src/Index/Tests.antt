-- ===== src/Index/Tests.antt =====
-- A3/freq_list.c and A3/indexer.c: runs on small inputs, and instances of the theorems.
use csc.Common.{
  ℕ, zero, suc, ◌+◌, ◌≡◌, refl, Bool, ◌&&◌, ◌||◌, Option, none, some, List, [], ◌∷◌, ◌++◌, arith,
  leb, ◌==◌, if◌then◌else◌, replicate, Bytes, codes, strcmp, str_eq,
}
use csc.Index.Spelling.{Piece, word, noise}
use csc.Index.Documents.{Document, text_of}
use csc.Index.{
  create_node, walk, add_at, add_word, Index, init_filenames, get_filenum, write_list, read_list,
}
use csc.Index.Files.{Outcome, get_filenum-Outcome}
use csc.Index.Indexing.{
  IsIndex, add_words, Short, frequency, occurrences, add_words-frequency, no_index,
  no_index-IsIndex,
}
use csc.Index.Storage.{NoBreak, Plain, array_of, read_list-write_list, read_list-too_many}
use csc.Index.Words.{
  skip_punct, trim_back, remove_punc, keep_token, tokens, index_tokens, index_line, index_lines,
  index_file,
}
use csc.Index.Indexer.{words_within}
use csc.Newline.{cstr}
use csc.Index.{chop, fgets_upto}

abbrev from_some : Option Index → Index
from_some none = no_index
from_some (some s) = s

abbrev three_words : List (Bytes × Bytes)
three_words = (codes "cow", codes "a") ∷ (codes "ant", codes "b") ∷ (codes "cow", codes "a") ∷ []

abbrev indexed : Index
indexed = from_some (add_words no_index three_words)

three_words_run : add_words no_index three_words ≡ some indexed
unfolding add_word get_filenum add_at walk create_node init_filenames str_eq strcmp
three_words_run = refl

cow_twice : frequency indexed (codes "cow") (codes "a") ≡ 2
unfolding frequency add_word get_filenum add_at walk create_node init_filenames str_eq strcmp
cow_twice = refl

add_words-frequency_example :
    IsIndex indexed
    × ((w f : Bytes) → frequency indexed w f ≡ frequency no_index w f + occurrences w f three_words)
add_words-frequency_example =
    add_words-frequency three_words no_index indexed (omega arith, (omega arith, (omega arith, tt)))
      no_index-IsIndex three_words_run

get_filenum-Outcome_example :
    Outcome
      (some (codes "a") ∷ none ∷ none ∷ [])
      (codes "b")
      (get_filenum (codes "b") (some (codes "a") ∷ none ∷ none ∷ []))
get_filenum-Outcome_example =
    get_filenum-Outcome (codes "b") (some (codes "a") ∷ none ∷ none ∷ []) tt

abbrev two_names : List Bytes
two_names = codes "x" ∷ codes "yz" ∷ []

two_names-Plain : Plain two_names
two_names-Plain = (one_letter, omega arith, (two_letters, omega arith, tt))
  where
    one_letter : NoBreak (codes "x")
    one_letter = (λ e. ground (arith, e), λ e. ground (arith, e), tt)

    two_letters : NoBreak (codes "yz")
    two_letters = (
      λ e. ground (arith, e),
      λ e. ground (arith, e),
      (λ e. ground (arith, e), λ e. ground (arith, e), tt),
    )

read_list-write_list_example :
    (let (listfile, namefile) = write_list indexed.head (array_of two_names 48) in
      read_list listfile namefile init_filenames)
    ≡ some (indexed.head, array_of two_names 48)
read_list-write_list_example =
    read_list-write_list indexed.head two_names two_names-Plain (omega arith)

abbrev fifty_names : List Bytes
fifty_names = replicate 50 (codes "x")

many-Plain : (n : ℕ) → Plain (replicate n (codes "x"))
many-Plain zero = tt
many-Plain (suc n) =
    ((λ e. ground (arith, e), λ e. ground (arith, e), tt), omega arith, many-Plain n)

read_list-too_many_example :
    (let (listfile, namefile) = write_list indexed.head (array_of fifty_names 0) in
      read_list listfile namefile init_filenames)
    ≡ none
read_list-too_many_example = read_list-too_many indexed.head fifty_names (many-Plain 50) refl

abbrev full_stop : ℕ → Bool
full_stop c = c == 46

abbrev blank : ℕ → Bool
blank c = c == 32 || c == 10

abbrev digit : ℕ → Bool
digit c = leb 48 c && leb c 57

abbrev lower : ℕ → ℕ
lower c = if leb 65 c && leb c 90 then c + 32 else c

abbrev small_file : Bytes
small_file = codes "Horse ox horse. " ++ 10 ∷ []

abbrev from_file : Index
from_file = from_some (index_file full_stop blank digit lower no_index (codes "f") small_file)

small_file_run :
    index_file full_stop blank digit lower no_index (codes "f") small_file ≡ some from_file
unfolding index_file index_lines index_line index_tokens tokens keep_token remove_punc trim_back
    skip_punct chop fgets_upto cstr add_word get_filenum add_at walk create_node init_filenames
    str_eq strcmp
small_file_run = refl

horse_twice : frequency from_file (codes "horse") (codes "f") ≡ 2
unfolding frequency index_file index_lines index_line index_tokens tokens keep_token remove_punc
    trim_back skip_punct chop fgets_upto cstr add_word get_filenum add_at walk create_node
    init_filenames str_eq strcmp
horse_twice = refl

small_file-Short : Short (words_within full_stop blank digit lower 17 (codes "f") small_file)
unfolding tokens keep_token remove_punc trim_back skip_punct chop fgets_upto cstr
small_file-Short = (omega arith, (omega arith, tt))

abbrev one_file : Bytes → Option Bytes
one_file path = some small_file

abbrev entries : List Bytes
entries = codes "." ∷ codes "f" ∷ []

-- The small file, by its words.
abbrev horses : List Piece
horses =
    word [] (codes "Hors") 101 []
    ∷ word [] (codes "o") 120 []
    ∷ word [] (codes "hors") 101 (46 ∷ [])
    ∷ noise []
    ∷ []

abbrev document : Document
document = record { path = codes "d/f"; lines = horses ∷ [] }

document_text : text_of document.lines ≡ small_file
document_text = refl
