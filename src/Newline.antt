-- ===== src/Newline.antt =====
-- The search for a network newline that Lab10/bufserver.c and A4/hcq_server.c share, and what a
-- line of a byte stream is.
use csc.Common.{
  ℕ, zero, suc, ◌+◌, ◌≡◌, refl, ap, ◌≢◌, ◌&&◌, Option, none, some, List, [], ◌∷◌, ◌++◌, arith, ◌==◌,
  if◌then◌else◌, length, take, drop, replicate, Bytes,
}

abbrev pub cr : ℕ
cr = 13

abbrev pub lf : ℕ
lf = 10

-- What the loop over the buffer comes to: one plus the index of the '\n', -1, or a read outside the
-- array.
pub data Search : Type 0 where
  found : ℕ → Search
  absent : Search
  overrun : Search

-- The loop of `find_network_newline`: rounds left, `i`, and the array from `buf + i` on. `buf[i + 1]`
-- is read only if `buf[i]` is '\r'.
unfoldable pub scan : ℕ → ℕ → Bytes → Search
scan zero i xs = absent
scan (suc n) i [] = overrun
scan (suc n) i (c ∷ []) = let rest = scan n (i + 1) [] in if c == cr then overrun else rest
scan (suc n) i (c ∷ d ∷ r) =
    let rest = scan n (i + 1) (d ∷ r) in if c == cr && d == lf then found (i + 2) else rest

-- The first line of a stream, without its "\r\n", and what follows it.
unfoldable pub first_line : Bytes → Option (Bytes × Bytes)
first_line [] = none
first_line (c ∷ []) = none
first_line (c ∷ d ∷ r) =
    if c == cr && d == lf
    then some ([], r)
    else elim (first_line (d ∷ r)) [ none ↦ none | some (l, e) ↦ some (c ∷ l, e) ]

abbrev pub as_search : ℕ → Option (Bytes × Bytes) → Search
as_search i none = absent
as_search i (some (l, e)) = found (i + length l + 2)

-- The stream does not stop between a '\r' and what follows it.
abbrev pub EndsClean : Bytes → Type 0
EndsClean [] = Unit {0}
EndsClean (c ∷ []) = c ≢ cr
EndsClean (c ∷ d ∷ r) = EndsClean (d ∷ r)

-- The search over the bytes received finds the first line of the stream, whatever stands behind
-- them in the array.
pub scan-first_line :
    (xs js : Bytes) (i : ℕ)
    → EndsClean xs
    → scan (length xs) i (xs ++ js) ≡ as_search i (first_line xs)
unfolding scan first_line
scan-first_line [] js i h = refl
scan-first_line (c ∷ []) [] i h = ground arith
scan-first_line (c ∷ []) (j ∷ js) i h = ground arith
scan-first_line (c ∷ d ∷ r) js i h = ground (arith, scan-first_line (d ∷ r) js (i + 1) h)

pub first_line-append : (xs l e : Bytes) → first_line xs ≡ some (l, e) → xs ≡ l ++ cr ∷ lf ∷ e
unfolding first_line
first_line-append [] l e h = ground arith
first_line-append (c ∷ []) l e h = ground arith
first_line-append (c ∷ d ∷ r) [] e h = ground arith
first_line-append (c ∷ d ∷ r) (a ∷ l) e h = ground (arith, first_line-append (d ∷ r) l e)

-- More bytes behind a complete line change only the rest.
pub first_line-more :
    (xs ys l e : Bytes) → first_line xs ≡ some (l, e) → first_line (xs ++ ys) ≡ some (l, e ++ ys)
unfolding first_line
first_line-more [] ys l e h = ground arith
first_line-more (c ∷ []) ys l e h = ground arith
first_line-more (c ∷ d ∷ r) ys [] e h = ground arith
first_line-more (c ∷ d ∷ r) ys (a ∷ l) e h = ground (arith, first_line-more (d ∷ r) ys l e)

pub EndsClean-rest : (l e : Bytes) → EndsClean (l ++ cr ∷ lf ∷ e) → EndsClean e
EndsClean-rest [] [] h = tt
EndsClean-rest [] (x ∷ e) h = h
EndsClean-rest (a ∷ []) e h = EndsClean-rest [] e h
EndsClean-rest (a ∷ b ∷ l) e h = EndsClean-rest (b ∷ l) e h

pub EndsClean-append : (xs ys : Bytes) → EndsClean ys → ys ≢ [] → EndsClean (xs ++ ys)
EndsClean-append [] ys h n = h
EndsClean-append (x ∷ []) [] h n = absurd (n refl)
EndsClean-append (x ∷ []) (y ∷ ys) h n = h
EndsClean-append (x ∷ x' ∷ xs) ys h n = EndsClean-append (x' ∷ xs) ys h n

-- The complete lines of a stream, each as "%s" prints it, and the bytes after the last.
unfoldable pub cstr : Bytes → Bytes
cstr [] = []
cstr (zero ∷ xs) = []
cstr (suc c ∷ xs) = suc c ∷ cstr xs

-- A string that holds no NUL is printed whole.
abbrev pub NoNul : Bytes → Type 0
NoNul [] = Unit {0}
NoNul (c ∷ m) = (c ≢ 0) × NoNul m

pub cstr-NoNul : (m : Bytes) → NoNul m → cstr m ≡ m
unfolding cstr
cstr-NoNul [] h = refl
cstr-NoNul (zero ∷ m) (n, h) = absurd (n refl)
cstr-NoNul (suc c ∷ m) (n, h) = ap (λ l. suc c ∷ l) (cstr-NoNul m h)

pub data Lines : Bytes → List Bytes → Bytes → Type 0 where
  end : {s : Bytes} → first_line s ≡ none → Lines s [] s
  more :
      {s l r e : Bytes} {ls : List Bytes}
      → first_line s ≡ some (l, r)
      → Lines r ls e
      → Lines s (cstr l ∷ ls) e

-- Lines that are split off before and after more bytes arrive are those of the whole stream.
pub Lines-append :
    {s e : Bytes} {ls : List Bytes} (ys : Bytes) {e' : Bytes} {ls' : List Bytes}
    → Lines s ls e
    → Lines (e ++ ys) ls' e'
    → Lines (s ++ ys) (ls ++ ls') e'
Lines-append ys (end h) k = k
Lines-append ys (more {s = s} {l = l} {r = r} h t) k =
    more (first_line-more s ys l r h) (Lines-append ys t k)

-- What is left holds no complete line.
pub Lines-left : {s e : Bytes} {ls : List Bytes} → Lines s ls e → first_line e ≡ none
Lines-left (end h) = h
Lines-left (more h t) = Lines-left t

-- memset(buf, '\0', k)
unfoldable pub memset0 : ℕ → Bytes → Bytes
memset0 k b = replicate k 0 ++ drop k b

-- memmove(buf, buf + from, n)
unfoldable pub memmove_down : ℕ → ℕ → Bytes → Bytes
memmove_down from n b = take n (drop from b) ++ drop n b
