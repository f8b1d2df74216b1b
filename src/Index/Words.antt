-- ===== src/Index/Words.antt =====
-- A3/punc.c and A3/indexer.c: the words of a line. The classes of <ctype.h> are parameters.
use csc.Common.{
  ℕ, zero, suc, ◌-◌, ◌>>=◌, Bool, true, false, ◌||◌, Option, none, some, List, [], ◌∷◌, ◌++◌, map,
  leb, ◌==◌, if◌then◌else◌, length, Bytes,
}
use mathlib.Core.List.{reverse}
use csc.Newline.{cstr}
use csc.Index.{Index, add_word, fgets_upto, chop, maxline}

-- while ((token = strsep(&marker, " \t")) != NULL), over the bytes of the current token and the rest
unfoldable pub tokens : Bytes → Bytes → List Bytes
tokens token [] = token ∷ []
tokens token (c ∷ marker) = elim (c == 32 || c == 9) [
  | true ↦ token ∷ tokens [] marker
  | false ↦ tokens (token ++ c ∷ []) marker
]

module _ (ispunct isspace isdigit : ℕ → Bool) (tolower : ℕ → ℕ) where
  -- while (i < len && ispunct(word[i])) i++;
  unfoldable pub skip_punct : Bytes → Bytes
  skip_punct [] = []
  skip_punct (c ∷ word) = if ispunct c then skip_punct word else c ∷ word

  -- From the end on, while the last byte is punctuation or white space; the bytes in reverse order.
  unfoldable pub trim_back : Bytes → Bytes
  trim_back [] = []
  trim_back (c ∷ back) = if ispunct c || isspace c then trim_back back else c ∷ back

  unfoldable pub remove_punc : Bytes → Bytes
  remove_punc word = reverse (trim_back (reverse (map tolower (skip_punct word))))

  -- The word that is counted for a token, if any.
  unfoldable pub keep_token : Bytes → Option Bytes
  keep_token [] = none
  keep_token (c ∷ token) = elim (remove_punc (c ∷ token)) [
    | [] ↦ none
    | d ∷ word ↦ if leb (length (d ∷ word)) 3 || isdigit d then none else some (d ∷ word)
  ]

  unfoldable pub index_tokens : Index → Bytes → List Bytes → Option Index
  index_tokens s fname [] = some s
  index_tokens s fname (t ∷ ts) = elim (keep_token t) [
    | none ↦ index_tokens s fname ts
    | some word ↦ add_word s word fname >>= λ u. index_tokens u fname ts
  ]

  -- One line: its last byte is cut off; an empty line is skipped.
  unfoldable pub index_line : Index → Bytes → Bytes → Option Index
  index_line s fname line = elim (chop (cstr line)) [
    | none ↦ some s
    | some [] ↦ some s
    | some (c ∷ text) ↦ index_tokens s fname (tokens [] (c ∷ text))
  ]

  -- The loop of `fgets`. Each round takes a byte at least, so that the length of the file is enough
  -- fuel.
  unfoldable pub index_lines : ℕ → Index → Bytes → Bytes → Option Index
  index_lines fuel s fname [] = some s
  index_lines zero s fname (c ∷ file) = none
  index_lines (suc fuel) s fname (c ∷ file) =
      index_line s fname (fgets_upto (maxline - 1) (c ∷ file)).0 >>= λ t.
      index_lines fuel t fname (fgets_upto (maxline - 1) (c ∷ file)).1

  unfoldable pub index_file : Index → Bytes → Bytes → Option Index
  index_file s fname file = index_lines (length file) s fname file
