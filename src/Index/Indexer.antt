-- ===== src/Index/Indexer.antt =====
-- A3/indexer.c: `index_file` counts the words of a file.
use csc.Common.{
  ℕ, zero, suc, ◌+◌, ◌-◌, ◌≤◌, ◌≡◌, refl, sym, ◌∙◌, ◌>>=◌, >>=-congr, >>=_assoc, inl, inr, Bool,
  Option, none, some, List, [], ◌∷◌, ◌++◌, arith, ◌==◌, Bool-cases, Option-cases, length, Bytes,
}
use csc.Newline.{cstr, lf}
use csc.Index.{Index, add_word, fgets_upto, chop, maxline}
use csc.Index.Words.{keep_token, tokens, index_tokens, index_line, index_lines, index_file}
use csc.Index.Indexing.{add_words, IsIndex, Short, frequency, occurrences, add_words-frequency}

rest-length : (n : ℕ) (file : Bytes) → length (fgets_upto n file).1 ≤ length file
unfolding fgets_upto
rest-length zero file = omega arith
rest-length (suc n) [] = omega arith
rest-length (suc n) (c ∷ file) = elim (Bool-cases (c == lf)) [
  | inl e ↦ rw e (omega arith)
  | inr e ↦ rw e (omega (arith, rest-length n file))
]

-- A read takes a byte at least.
fgets_upto-length :
    (n c : ℕ) (file : Bytes) → length (fgets_upto (suc n) (c ∷ file)).1 ≤ length file
unfolding fgets_upto
fgets_upto-length n c file = elim (Bool-cases (c == lf)) [
  | inl e ↦ rw e (omega arith)
  | inr e ↦ rw e (rest-length n file)
]

pub add_words-append :
    (s : Index) (xs ys : List (Bytes × Bytes))
    → add_words s (xs ++ ys) ≡ (add_words s xs >>= λ t. add_words t ys)
add_words-append s [] ys = refl
add_words-append s ((w, f) ∷ xs) ys =
    >>=-congr (add_word s w f) (λ t. add_words-append t xs ys)
    ∙ sym (>>=_assoc (add_word s w f) (λ t. add_words t xs) (λ t. add_words t ys))

module _ (ispunct isspace isdigit : ℕ → Bool) (tolower : ℕ → ℕ) where
  -- The words of a list of tokens, of a line and of a file, each with the name of the file.
  abbrev pub kept : Bytes → List Bytes → List (Bytes × Bytes)
  kept fname [] = []
  kept fname (t ∷ ts) = elim (keep_token ispunct isspace isdigit tolower t) [
    | none ↦ kept fname ts
    | some word ↦ (word, fname) ∷ kept fname ts
  ]

  abbrev pub line_words : Bytes → Bytes → List (Bytes × Bytes)
  line_words fname line = elim (chop (cstr line)) [
    | none ↦ []
    | some text ↦ kept fname (tokens [] text)
  ]

  index_tokens-kept :
      (s : Index) (fname : Bytes) (ts : List Bytes)
      → index_tokens ispunct isspace isdigit tolower s fname ts ≡ add_words s (kept fname ts)
  unfolding index_tokens
  index_tokens-kept s fname [] = refl
  index_tokens-kept s fname (t ∷ ts) =
      elim (Option-cases (keep_token ispunct isspace isdigit tolower t)) [
        | inl e ↦ rw (e, index_tokens, kept) (index_tokens-kept s fname ts)
        | inr (word, e) ↦
            rw (e, index_tokens, kept)
              (>>=-congr (add_word s word fname) (λ u. index_tokens-kept u fname ts))
      ]

  index_line-words :
      (s : Index) (fname line : Bytes)
      → index_line ispunct isspace isdigit tolower s fname line
        ≡ add_words s (line_words fname line)
  unfolding index_line tokens keep_token
  index_line-words s fname line = go (chop (cstr line))
    where
      go :
          (o : Option Bytes)
          → elim o [
            | none ↦ some s
            | some [] ↦ some s
            | some (c ∷ text) ↦
                index_tokens ispunct isspace isdigit tolower s fname (tokens [] (c ∷ text))
          ]
            ≡ add_words s (elim o [ none ↦ [] | some text ↦ kept fname (tokens [] text) ])
      go none = refl
      go (some []) = refl
      go (some (c ∷ text)) = index_tokens-kept s fname (tokens [] (c ∷ text))

  -- The words of a file, in order; a line is what one `fgets` reads.
  abbrev pub words_within : ℕ → Bytes → Bytes → List (Bytes × Bytes)
  words_within fuel fname [] = []
  words_within zero fname (c ∷ file) = []
  words_within (suc fuel) fname (c ∷ file) =
      line_words fname (fgets_upto (maxline - 1) (c ∷ file)).0
      ++ words_within fuel fname (fgets_upto (maxline - 1) (c ∷ file)).1

  pub index_lines-words :
      (fuel : ℕ) (s : Index) (fname file : Bytes)
      → length file ≤ fuel
      → index_lines ispunct isspace isdigit tolower fuel s fname file
        ≡ add_words s (words_within fuel fname file)
  unfolding index_lines
  index_lines-words fuel s fname [] h = refl
  index_lines-words zero s fname (c ∷ file) h = ground (arith, h)
  index_lines-words (suc fuel) s fname (c ∷ file) h =
      rw (index_line-words s fname (fgets_upto (maxline - 1) (c ∷ file)).0) (
        >>=-congr (add_words s (line_words fname (fgets_upto (maxline - 1) (c ∷ file)).0)) (λ t.
          index_lines-words fuel t fname (fgets_upto (maxline - 1) (c ∷ file)).1
            (omega (arith, h, fgets_upto-length 1022 c file)))
        ∙ sym (
            add_words-append s (line_words fname (fgets_upto (maxline - 1) (c ∷ file)).0)
              (words_within fuel fname (fgets_upto (maxline - 1) (c ∷ file)).1)))

  -- `index_file`, on a file whose words have at most 31 bytes, ends the program at a 51st file, or
  -- counts for each word and file exactly its occurrences in the file on top of what was counted.
  pub index_file-frequency :
      (s : Index) (fname file : Bytes) (t : Index)
      → Short (words_within (length file) fname file)
      → IsIndex s
      → index_file ispunct isspace isdigit tolower s fname file ≡ some t
      → IsIndex t
        × ((w f : Bytes)
            → frequency t w f
              ≡ frequency s w f + occurrences w f (words_within (length file) fname file))
  unfolding index_file
  index_file-frequency s fname file t h ok e =
      add_words-frequency (words_within (length file) fname file) s t h ok
        (sym (index_lines-words (length file) s fname file (omega arith)) ∙ e)
