-- ===== src/HelpCentre/Commands/Words.antt =====
-- The words of a line: A4/helpcentre.c and A2/helpcentre.c read them with `strtok`.
use csc.Common.{
  ℕ, zero, suc, ◌≤◌, ◌<◌, ◌≡◌, refl, sym, ap, ◌∙◌, ◌≢◌, Bool, true, false, not, ◌&&◌, none, some,
  List, [], ◌∷◌, ◌++◌, arith, ◌==◌, length, Bytes,
}
use mathlib.Core.List.{append_assoc, append-nil}
use csc.Newline.{cstr}
use csc.HelpCentre.Commands.{is_delim, emit, strtok_all, collect_args}

-- A word has no NUL, no space and no '\n'.
abbrev pub Plain : Bytes → Type 0
Plain [] = Unit {0}
Plain (c ∷ w) = (c ≢ 0) × (c ≢ 32) × (c ≢ 10) × Plain w

abbrev pub AllWords : List Bytes → Type 0
AllWords [] = Unit {0}
AllWords (w ∷ ws) = (w ≢ []) × Plain w × AllWords ws

-- The same, as a test.
abbrev pub is_plain : Bytes → Bool
is_plain [] = true
is_plain (c ∷ w) = not (c == 0) && (not (c == 32) && (not (c == 10) && is_plain w))

abbrev pub are_words : List Bytes → Bool
are_words [] = true
are_words ([] ∷ ws) = false
are_words ((c ∷ w) ∷ ws) = is_plain (c ∷ w) && are_words ws

is_plain-Plain : (w : Bytes) → is_plain w ≡ true → Plain w
is_plain-Plain [] e = tt
is_plain-Plain (c ∷ w) e =
    (ground (arith, e), ground (arith, e), ground (arith, e), is_plain-Plain w (ground (arith, e)))

pub are_words-AllWords : (ws : List Bytes) → are_words ws ≡ true → AllWords ws
are_words-AllWords [] e = tt
are_words-AllWords ([] ∷ ws) e = ground (arith, e)
are_words-AllWords ((c ∷ w) ∷ ws) e =
    let (p, q) = and_both (is_plain (c ∷ w)) (are_words ws) e in
    (λ z. ground (arith, z), is_plain-Plain (c ∷ w) p, are_words-AllWords ws q)
  where
    and_both : (a b : Bool) → (a && b) ≡ true → (a ≡ true) × (b ≡ true)
    and_both true b e = (refl, e)
    and_both false b e = ground (arith, e)

-- A line: the words with a space between them, and '\n' at the end.
abbrev pub line_of : List Bytes → Bytes
line_of [] = 10 ∷ []
line_of (w ∷ []) = w ++ 10 ∷ []
line_of (w ∷ v ∷ ws) = w ++ 32 ∷ line_of (v ∷ ws)

strtok_all-word :
    (cur w rest : Bytes) (d : ℕ)
    → Plain w
    → is_delim d ≡ true
    → strtok_all cur (w ++ d ∷ rest) ≡ emit (cur ++ w) (strtok_all [] rest)
unfolding strtok_all
strtok_all-word cur [] rest d p e =
    rw e (ap (λ c. emit c (strtok_all [] rest)) (sym (append-nil cur)))
strtok_all-word cur (c ∷ w) rest d (z, s, n, p) e =
    let other : is_delim c ≡ false = ground (arith, s, n) in
    rw other (
      strtok_all-word (cur ++ c ∷ []) w rest d p e
      ∙ ap (λ b. emit b (strtok_all [] rest)) (append_assoc cur (c ∷ []) w))

emit-word : (w : Bytes) (l : List Bytes) → w ≢ [] → emit w l ≡ w ∷ l
emit-word [] l h = absurd (h refl)
emit-word (c ∷ w) l h = refl

strtok_all-nothing : strtok_all [] [] ≡ []
unfolding strtok_all
strtok_all-nothing = refl

strtok_all-newline : strtok_all [] (10 ∷ []) ≡ []
unfolding strtok_all
strtok_all-newline = refl

-- `strtok` gives back the words of a line.
pub strtok_all-line_of : (ws : List Bytes) → AllWords ws → strtok_all [] (line_of ws) ≡ ws
strtok_all-line_of [] h = strtok_all-newline
strtok_all-line_of (w ∷ []) (n, p, h) =
    strtok_all-word [] w [] 10 p refl
    ∙ emit-word w (strtok_all [] []) n
    ∙ ap (λ l. w ∷ l) strtok_all-nothing
strtok_all-line_of (w ∷ v ∷ ws) (n, p, h) =
    strtok_all-word [] w (line_of (v ∷ ws)) 32 p refl
    ∙ emit-word w (strtok_all [] (line_of (v ∷ ws))) n
    ∙ ap (λ l. w ∷ l) (strtok_all-line_of (v ∷ ws) h)

cstr-word : (w rest : Bytes) → Plain w → cstr (w ++ rest) ≡ w ++ cstr rest
unfolding cstr
cstr-word [] rest p = refl
cstr-word (zero ∷ w) rest (z, s, n, p) = absurd (z refl)
cstr-word (suc c ∷ w) rest (z, s, n, p) = ap (λ l. suc c ∷ l) (cstr-word w rest p)

-- A line has no NUL.
pub cstr-line_of : (ws : List Bytes) → AllWords ws → cstr (line_of ws) ≡ line_of ws
unfolding cstr
cstr-line_of [] h = refl
cstr-line_of (w ∷ []) (n, p, h) = cstr-word w (10 ∷ []) p
cstr-line_of (w ∷ v ∷ ws) (n, p, h) =
    cstr-word w (32 ∷ line_of (v ∷ ws)) p ∙ ap (λ l. w ++ 32 ∷ l) (cstr-line_of (v ∷ ws) h)

-- Three words are taken, a fourth is too many.
pub collect_args-few : (ws : List Bytes) → length ws ≤ 3 → collect_args 0 ws ≡ some ws
unfolding collect_args
collect_args-few [] h = refl
collect_args-few (a ∷ []) h = refl
collect_args-few (a ∷ b ∷ []) h = refl
collect_args-few (a ∷ b ∷ c ∷ []) h = refl
collect_args-few (a ∷ b ∷ c ∷ d ∷ ws) h = ground (arith, h)

pub collect_args-many : (ws : List Bytes) → 3 < length ws → collect_args 0 ws ≡ none
unfolding collect_args
collect_args-many [] h = ground (arith, h)
collect_args-many (a ∷ []) h = ground (arith, h)
collect_args-many (a ∷ b ∷ []) h = ground (arith, h)
collect_args-many (a ∷ b ∷ c ∷ []) h = ground (arith, h)
collect_args-many (a ∷ b ∷ c ∷ d ∷ ws) h = refl
