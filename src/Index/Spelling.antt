-- ===== src/Index/Spelling.antt =====
-- A3/punc.c and A3/indexer.c: what the code reads as words, in a text that is described by its words.
use csc.Common.{
  ℕ, ◌≡◌, refl, sym, ap, ◌∙◌, Bool, true, false, not, ◌&&◌, ◌||◌, Option, none, some, List, [], ◌∷◌,
  ◌++◌, map, arith, ltb, leb, ◌==◌, if◌then◌else◌, length, Bytes,
}
use mathlib.Core.List.{
  append_assoc, append-nil, reverse, reverse-append, reverse-cons, reverse-reverse,
}
use csc.Index.Words.{tokens, skip_punct, trim_back, remove_punc, keep_token}

abbrev pub all : (ℕ → Bool) → Bytes → Bool
all p [] = true
all p (c ∷ l) = p c && all p l

-- A byte that neither ends a word nor a line nor a string.
abbrev pub is_inner : ℕ → Bool
is_inner c = not (c == 0) && (not (c == 10) && (not (c == 32) && not (c == 9)))

-- What stands between two blanks: a word, with its last byte apart, between what is to be taken off it;
-- or something that is no word.
pub data Piece : Type 0 where
  word : (in_front body : Bytes) (last : ℕ) (behind : Bytes) → Piece
  noise : Bytes → Piece

abbrev pub piece_text : Piece → Bytes
piece_text (word in_front body last behind) = in_front ++ ((body ++ last ∷ []) ++ behind)
piece_text (noise p) = p

-- The pieces of a line with a space between them.
abbrev pub line_text : List Piece → Bytes
line_text [] = []
line_text (p ∷ []) = piece_text p
line_text (p ∷ q ∷ ps) = piece_text p ++ 32 ∷ line_text (q ∷ ps)

tokens-piece :
    (token p rest : Bytes)
    → all is_inner p ≡ true
    → tokens token (p ++ 32 ∷ rest) ≡ (token ++ p) ∷ tokens [] rest
unfolding tokens
tokens-piece token [] rest e = ap (λ t. t ∷ tokens [] rest) (sym (append-nil token))
tokens-piece token (c ∷ p) rest e =
    let other : (c == 32 || c == 9) ≡ false = ground (arith, e) in
    rw (other, tokens)
      (tokens-piece (token ++ c ∷ []) p rest (ground (arith, e))
        ∙ ap (λ t. t ∷ tokens [] rest) (append_assoc token (c ∷ []) p))

tokens-last : (token p : Bytes) → all is_inner p ≡ true → tokens token p ≡ (token ++ p) ∷ []
unfolding tokens
tokens-last token [] e = ap (λ t. t ∷ []) (sym (append-nil token))
tokens-last token (c ∷ p) e =
    let other : (c == 32 || c == 9) ≡ false = ground (arith, e) in
    rw (other, tokens)
      (tokens-last (token ++ c ∷ []) p (ground (arith, e))
        ∙ ap (λ t. t ∷ []) (append_assoc token (c ∷ []) p))

module _ (ispunct isspace isdigit : ℕ → Bool) (tolower : ℕ → ℕ) where
  -- What is taken off the end of a word.
  abbrev pub is_tail : ℕ → Bool
  is_tail c = ispunct (tolower c) || isspace (tolower c)

  abbrev pub head_is_punct : Bytes → ℕ → Bool
  head_is_punct [] last = ispunct last
  head_is_punct (c ∷ body) last = ispunct c

  -- Punctuation in front; a word that does not start with it; a last byte that stays; behind it what
  -- is taken off. What is no word is punctuation.
  abbrev pub IsPiece : Piece → Type 0
  IsPiece (word in_front body last behind) =
      (all ispunct in_front ≡ true)
      × (head_is_punct body last ≡ false)
      × (is_tail last ≡ false)
      × (all is_tail behind ≡ true)
  IsPiece (noise p) = all ispunct p ≡ true

  abbrev pub AllPieces : List Piece → Type 0
  AllPieces [] = Unit {0}
  AllPieces (p ∷ ps) = IsPiece p × (all is_inner (piece_text p) ≡ true) × AllPieces ps

  abbrev pub starts_with_digit : Bytes → Bool
  starts_with_digit [] = false
  starts_with_digit (c ∷ w) = isdigit c

  -- A word counts in lower case, if it has more than three letters and does not start with a digit.
  abbrev pub counted : Bytes → Option Bytes
  counted w = if ltb 3 (length w) && not (starts_with_digit w) then some w else none

  abbrev pub counted_word : Piece → Option Bytes
  counted_word (word in_front body last behind) = counted (map tolower (body ++ last ∷ []))
  counted_word (noise p) = none

  skip_punct-front :
      (p w : Bytes) (c : ℕ)
      → all ispunct p ≡ true
      → ispunct c ≡ false
      → skip_punct ispunct isspace isdigit tolower (p ++ c ∷ w) ≡ c ∷ w
  unfolding skip_punct
  skip_punct-front [] w c e f = rw f refl
  skip_punct-front (d ∷ p) w c e f = ground (arith, e, skip_punct-front p w c (ground (arith, e)) f)

  skip_punct-noise :
      (p : Bytes) → all ispunct p ≡ true → skip_punct ispunct isspace isdigit tolower p ≡ []
  unfolding skip_punct
  skip_punct-noise [] e = refl
  skip_punct-noise (d ∷ p) e = ground (arith, e, skip_punct-noise p (ground (arith, e)))

  map-append : (a b : Bytes) → map tolower (a ++ b) ≡ map tolower a ++ map tolower b
  map-append [] b = refl
  map-append (c ∷ a) b = ap (λ l. tolower c ∷ l) (map-append a b)

  trim_back-behind :
      (b r : Bytes)
      → all is_tail b ≡ true
      → trim_back ispunct isspace isdigit tolower (reverse (map tolower b) ++ r)
        ≡ trim_back ispunct isspace isdigit tolower r
  unfolding trim_back
  trim_back-behind [] r e = refl
  trim_back-behind (c ∷ b) r e =
      let tail : is_tail c ≡ true = ground (arith, e) in
      ap (λ l. trim_back ispunct isspace isdigit tolower (l ++ r))
        (reverse-cons (tolower c) (map tolower b))
      ∙ ap (trim_back ispunct isspace isdigit tolower)
          (append_assoc (reverse (map tolower b)) (tolower c ∷ []) r)
      ∙ trim_back-behind b (tolower c ∷ r) (ground (arith, e))
      ∙ rw tail refl

  skip_punct-word :
      (p body : Bytes) (last : ℕ) (b : Bytes)
      → all ispunct p ≡ true
      → head_is_punct body last ≡ false
      → skip_punct ispunct isspace isdigit tolower (p ++ ((body ++ last ∷ []) ++ b))
        ≡ (body ++ last ∷ []) ++ b
  skip_punct-word p [] last b e f = skip_punct-front p b last e f
  skip_punct-word p (c ∷ body) last b e f = skip_punct-front p ((body ++ last ∷ []) ++ b) c e f

  trim_back-word :
      (body : Bytes) (last : ℕ)
      → is_tail last ≡ false
      → trim_back ispunct isspace isdigit tolower (reverse (map tolower (body ++ last ∷ [])))
        ≡ reverse (map tolower (body ++ last ∷ []))
  unfolding trim_back
  trim_back-word body last e =
      let ends : reverse (map tolower (body ++ last ∷ []))
          ≡ tolower last ∷ reverse (map tolower body) =
        ap reverse (map-append body (last ∷ []))
        ∙ reverse-append (map tolower body) (tolower last ∷ []) in
      rw ends (rw e refl)

  remove_punc-word :
      (p body : Bytes) (last : ℕ) (b : Bytes)
      → IsPiece (word p body last b)
      → remove_punc ispunct isspace isdigit tolower (piece_text (word p body last b))
        ≡ map tolower (body ++ last ∷ [])
  unfolding remove_punc
  remove_punc-word p body last b (e, f, g, h) =
      let w = map tolower (body ++ last ∷ []) in
      ap (λ l. reverse (trim_back ispunct isspace isdigit tolower (reverse (map tolower l))))
        (skip_punct-word p body last b e f)
      ∙ ap (λ l. reverse (trim_back ispunct isspace isdigit tolower (reverse l)))
          (map-append (body ++ last ∷ []) b)
      ∙ ap (λ l. reverse (trim_back ispunct isspace isdigit tolower l))
          (reverse-append w (map tolower b))
      ∙ ap reverse (trim_back-behind b (reverse w) h ∙ trim_back-word body last g)
      ∙ reverse-reverse w

  keep_token-remove_punc :
      (x : Bytes)
      → keep_token ispunct isspace isdigit tolower x
        ≡ counted (remove_punc ispunct isspace isdigit tolower x)
  unfolding keep_token remove_punc skip_punct trim_back
  keep_token-remove_punc [] = refl
  keep_token-remove_punc (c ∷ x) = judge (remove_punc ispunct isspace isdigit tolower (c ∷ x))
    where
      judge :
          (r : Bytes)
          → elim r [
            | [] ↦ none
            | d ∷ w ↦ if leb (length (d ∷ w)) 3 || isdigit d then none else some (d ∷ w)
          ]
            ≡ counted r
      judge [] = refl
      judge (d ∷ w) = ground arith

  -- What is counted for a piece of a line.
  pub keep_token-piece :
      (p : Piece)
      → IsPiece p
      → keep_token ispunct isspace isdigit tolower (piece_text p) ≡ counted_word p
  unfolding remove_punc trim_back
  keep_token-piece (word p body last b) h =
      keep_token-remove_punc (piece_text (word p body last b))
      ∙ ap counted (remove_punc-word p body last b h)
  keep_token-piece (noise p) e =
      keep_token-remove_punc p
      ∙ ap
          (λ l.
            counted (reverse (trim_back ispunct isspace isdigit tolower (reverse (map tolower l)))))
          (skip_punct-noise p e)

  -- The tokens of a line are its pieces.
  pub tokens-line_text :
      (p : Piece) (ps : List Piece)
      → AllPieces (p ∷ ps)
      → tokens [] (line_text (p ∷ ps)) ≡ map piece_text (p ∷ ps)
  tokens-line_text p [] (h, e, t) = tokens-last [] (piece_text p) e
  tokens-line_text p (q ∷ ps) (h, e, t) =
      tokens-piece [] (piece_text p) (line_text (q ∷ ps)) e
      ∙ ap (λ l. piece_text p ∷ l) (tokens-line_text q ps t)
