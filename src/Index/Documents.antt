-- ===== src/Index/Documents.antt =====
-- A3/indexer.c: the whole program returns, and counts the words of documents that are described by
-- their words.
use csc.Common.{
  ℕ, zero, suc, ◌-◌, ◌≤◌, ◌<◌, ◌≡◌, refl, ap, ◌∙◌, inl, inr, Bool, true, none, some, List, [], ◌∷◌,
  ◌++◌, map, arith, Option-cases, length, Bytes,
}
use csc.Newline.{lf, cstr}
use csc.Index.{maxline, chop}
use csc.Index.Storage.{NoBreak, fgets_upto-line, length-line, cstr-line, chop-line}
use csc.Index.Words.{keep_token, tokens}
use csc.Index.Spelling.{
  all, is_inner, Piece, piece_text, line_text, AllPieces, counted_word, keep_token-piece,
  tokens-line_text,
}
use csc.Index.Indexer.{kept, line_words, words_within}

-- A document: its path, and its lines, each of which ends with '\n'.
pub record Document : Type 0 where
  pub path : Bytes
  pub lines : List (List Piece)

abbrev pub text_of : List (List Piece) → Bytes
text_of [] = []
text_of (l ∷ lines) = line_text l ++ lf ∷ text_of lines

inner-NoBreak : (l : Bytes) → all is_inner l ≡ true → NoBreak l
inner-NoBreak [] e = tt
inner-NoBreak (c ∷ l) e =
    (ground (arith, e), ground (arith, e), inner-NoBreak l (ground (arith, e)))

NoBreak-append : (a b : Bytes) → NoBreak a → NoBreak b → NoBreak (a ++ b)
NoBreak-append [] b h k = k
NoBreak-append (c ∷ a) b (m, n, h) k = (m, n, NoBreak-append a b h k)

module _ (ispunct isspace isdigit : ℕ → Bool) (tolower : ℕ → ℕ) where
  -- A line has at most 1022 bytes.
  abbrev pub AllLines : List (List Piece) → Type 0
  AllLines [] = Unit {0}
  AllLines (l ∷ lines) =
      AllPieces ispunct isspace isdigit tolower l
      × (length (line_text l) < maxline - 1)
      × AllLines lines

  -- The words that count, in order, with the path.
  abbrev pub words_of_line : Bytes → List Piece → List (Bytes × Bytes)
  words_of_line path [] = []
  words_of_line path (p ∷ ps) = elim (counted_word ispunct isspace isdigit tolower p) [
    | none ↦ words_of_line path ps
    | some w ↦ (w, path) ∷ words_of_line path ps
  ]

  abbrev pub words_of_lines : Bytes → List (List Piece) → List (Bytes × Bytes)
  words_of_lines path [] = []
  words_of_lines path (l ∷ lines) = words_of_line path l ++ words_of_lines path lines

  abbrev pub words_of_all : List Document → List (Bytes × Bytes)
  words_of_all [] = []
  words_of_all (d ∷ docs) = words_of_lines d.path d.lines ++ words_of_all docs

  kept-pieces :
      (path : Bytes) (ps : List Piece)
      → AllPieces ispunct isspace isdigit tolower ps
      → kept ispunct isspace isdigit tolower path (map piece_text ps) ≡ words_of_line path ps
  kept-pieces path [] h = refl
  kept-pieces path (p ∷ ps) (h, e, t) =
      rw (keep_token-piece ispunct isspace isdigit tolower p h, kept)
        (elim (Option-cases (counted_word ispunct isspace isdigit tolower p)) [
          | inl n ↦ rw (n, words_of_line) (kept-pieces path ps t)
          | inr (w, n) ↦ rw (n, words_of_line) (ap (λ l. (w, path) ∷ l) (kept-pieces path ps t))
        ])

  line_text-NoBreak :
      (ps : List Piece) → AllPieces ispunct isspace isdigit tolower ps → NoBreak (line_text ps)
  line_text-NoBreak [] h = tt
  line_text-NoBreak (p ∷ []) (h, e, t) = inner-NoBreak (piece_text p) e
  line_text-NoBreak (p ∷ q ∷ ps) (h, e, t) =
      NoBreak-append (piece_text p) (32 ∷ line_text (q ∷ ps)) (inner-NoBreak (piece_text p) e)
        ((λ x. ground (arith, x)), (λ x. ground (arith, x)), line_text-NoBreak (q ∷ ps) t)

  empty_line : (path : Bytes) → kept ispunct isspace isdigit tolower path (tokens [] []) ≡ []
  unfolding tokens keep_token
  empty_line path = refl

  tokens-words :
      (path : Bytes) (ps : List Piece)
      → AllPieces ispunct isspace isdigit tolower ps
      → kept ispunct isspace isdigit tolower path (tokens [] (line_text ps)) ≡ words_of_line path ps
  tokens-words path [] h = empty_line path
  tokens-words path (p ∷ ps) h =
      ap (kept ispunct isspace isdigit tolower path)
        (tokens-line_text ispunct isspace isdigit tolower p ps h)
      ∙ kept-pieces path (p ∷ ps) h

  line_words-line :
      (path : Bytes) (ps : List Piece)
      → AllPieces ispunct isspace isdigit tolower ps
      → line_words ispunct isspace isdigit tolower path (line_text ps ++ lf ∷ [])
        ≡ words_of_line path ps
  line_words-line path ps h =
      let cut : chop (cstr (line_text ps ++ lf ∷ [])) ≡ some (line_text ps) =
        ap chop (cstr-line (line_text ps) (line_text-NoBreak ps h)) ∙ chop-line (line_text ps) in
      rw (cut, line_words) (tokens-words path ps h)

  words_within-line :
      (fuel : ℕ) (path l file : Bytes)
      → NoBreak l
      → length l < maxline - 1
      → words_within ispunct isspace isdigit tolower (suc fuel) path (l ++ lf ∷ file)
        ≡ line_words ispunct isspace isdigit tolower path (l ++ lf ∷ [])
          ++ words_within ispunct isspace isdigit tolower fuel path file
  words_within-line fuel path [] file b w = rw (fgets_upto-line (maxline - 1) [] file b w) refl
  words_within-line fuel path (c ∷ l) file b w =
      rw (fgets_upto-line (maxline - 1) (c ∷ l) file b w) refl

  words_within-end :
      (fuel : ℕ) (path : Bytes) → words_within ispunct isspace isdigit tolower fuel path [] ≡ []
  words_within-end zero path = refl
  words_within-end (suc fuel) path = refl

  -- What the program reads in a text are its words.
  pub words_within-text_of :
      (fuel : ℕ) (path : Bytes) (lines : List (List Piece))
      → AllLines lines
      → length (text_of lines) ≤ fuel
      → words_within ispunct isspace isdigit tolower fuel path (text_of lines)
        ≡ words_of_lines path lines
  words_within-text_of fuel path [] h l = words_within-end fuel path
  words_within-text_of zero path (ps ∷ lines) h l =
      absurd (omega (arith, l, length-line (line_text ps) (text_of lines)))
  words_within-text_of (suc fuel) path (ps ∷ lines) (h, w, t) l =
      words_within-line fuel path (line_text ps) (text_of lines) (line_text-NoBreak ps h) w
      ∙ ap (λ k. k ++ words_within ispunct isspace isdigit tolower fuel path (text_of lines))
          (line_words-line path ps h)
      ∙ ap (λ k. words_of_line path ps ++ k)
          (words_within-text_of fuel path lines t
            (omega (arith, l, length-line (line_text ps) (text_of lines))))
