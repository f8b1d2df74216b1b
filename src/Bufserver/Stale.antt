-- ===== src/Bufserver/Stale.antt =====
-- The '\n' that `memset` leaves behind: a read that stops behind a '\r' can be taken for a whole line.
use csc.Common.{
  ℕ, zero, suc, ◌+◌, ◌≤◌, ◌<◌, ◌≡◌, refl, ap, ◌∙◌, ◌≢◌, inl, inr, [], ◌∷◌, ◌++◌, arith, ltb, ltb→lt,
  Bool-cases, length, set, drop, replicate, length-append, set-append, Bytes,
}
use mathlib.Core.List.{append_assoc}
use native.Mathlib.Numerals.{add-one}
use csc.Newline.{memset0, scan, cr, lf, cstr, found}
use csc.Bufserver.{LineBuf, bufsize, find_network_newline, take_line, faulted, drain, print_first}
use csc.Bufserver.Lines.{holding, wiped, take_line_lem, length-line}

-- No '\r' among the bytes.
abbrev pub Plain : Bytes → Type 0
Plain [] = Unit {0}
Plain (c ∷ xs) = (c ≢ cr) × Plain xs

-- The search meets the newline behind plain bytes even where the last byte it may look at is the
-- '\r'.
pub scan-Plain :
    (l r : Bytes) (n i : ℕ)
    → Plain l
    → length l < n
    → scan n i (l ++ cr ∷ lf ∷ r) ≡ found (i + length l + 2)
unfolding scan
scan-Plain l r zero i p h = elim h [ ]
scan-Plain [] r (suc n) i p h = ground arith
scan-Plain (a ∷ []) r (suc n) i p h = ground (arith, scan-Plain [] r n (i + 1))
scan-Plain (a ∷ b ∷ l) r (suc n) i p h = ground (arith, scan-Plain (b ∷ l) r n (i + 1))

drop-at-lf : (l : Bytes) (a b : ℕ) (r : Bytes) → drop (suc (length l)) (l ++ a ∷ b ∷ r) ≡ b ∷ r
drop-at-lf [] a b r = refl
drop-at-lf (x ∷ l) a b r = drop-at-lf l a b r

drop-memset0_same : (k : ℕ) (b : Bytes) → drop k (memset0 k b) ≡ drop k b
unfolding memset0
drop-memset0_same zero b = refl
drop-memset0_same (suc k) [] = go (suc k)
  where
    go : (n : ℕ) → drop n (replicate n (let z : ℕ = 0 in z) ++ []) ≡ []
    go zero = refl
    go (suc n) = go n
drop-memset0_same (suc k) (x ∷ b) = drop-memset0_same k b

find-Plain :
    (l r : Bytes) (n : ℕ)
    → Plain l
    → length l < n
    → n ≤ bufsize
    → find_network_newline (l ++ cr ∷ lf ∷ r) n ≡ found (length l + 2)
unfolding find_network_newline
find-Plain l r n p h fits = elim (Bool-cases (ltb bufsize n)) [
  | inl big ↦ absurd (omega (arith, ltb→lt bufsize n big))
  | inr small ↦ rw small (scan-Plain l r n 0 p h ∙ ap found (omega arith))
]

drain-found :
    (fuel : ℕ) (s : LineBuf) (at : ℕ)
    → find_network_newline s.buf s.inbuf ≡ found at
    → at ≤ s.inbuf
    → drain (suc fuel) s ≡ print_first (take_line s at).0 (drain fuel (take_line s at).1)
unfolding drain
drain-found fuel s at f h = rw (f, drain) (ground arith)

drain-underflow :
    (fuel : ℕ) (s : LineBuf) (at : ℕ)
    → find_network_newline s.buf s.inbuf ≡ found at
    → s.inbuf < at
    → drain (suc fuel) s ≡ faulted
unfolding drain
drain-underflow fuel s at f h = rw (f, drain) (ground arith)

-- If what was received behind a line is one byte shorter than the line with its newline, and stops
-- behind a '\r', the server takes the stale '\n' for its end: `inbuf` goes below 0 and the next
-- `memmove` has a huge size.
pub drain_stale :
    (l e stale : Bytes) (fuel : ℕ)
    → Plain l
    → Plain e
    → length e ≡ length l
    → length (holding l (e ++ cr ∷ []) stale).buf ≡ bufsize
    → drain (suc (suc fuel)) (holding l (e ++ cr ∷ []) stale) ≡ faulted
drain_stale l e stale fuel p q same h =
    let e' : Bytes = e ++ cr ∷ [] in
    let le' : length e' ≡ length e + 1 = omega (arith, length-append e (cr ∷ [])) in
    let fits : length l + 2 + length e' ≤ bufsize =
      omega (arith, h, length-line l cr lf (e' ++ stale), length-append e' stale) in
    let first : find_network_newline (holding l e' stale).buf (holding l e' stale).inbuf
        ≡ found (length l + 2) =
      find-Plain l (e' ++ stale) _ p (omega arith) fits in
    let tail : drop (length e') (wiped l e' stale) ≡ lf ∷ (e' ++ stale) =
      rw (le', same, add-one)
        (drop-memset0_same (suc (length l)) (set (holding l e' stale).buf (length l) 0)
          ∙ ap (drop (suc (length l))) (set-append l cr 0 (lf ∷ (e' ++ stale)))
          ∙ drop-at-lf l 0 lf (e' ++ stale)) in
    let again : find_network_newline (e' ++ drop (length e') (wiped l e' stale)) (length e')
        ≡ found (length e + 2) =
      rw (tail, append_assoc e (cr ∷ []) (lf ∷ (e' ++ stale)))
        (find-Plain e (e' ++ stale) _ q (omega arith) (omega arith)) in
    rw
      (
        drain-found (suc fuel) (holding l e' stale) (length l + 2) first (omega arith),
        take_line_lem l e' stale,
      )
      (ap (print_first (cstr l)) (
        drain-underflow fuel
          (record { buf = e' ++ drop (length e') (wiped l e' stale); inbuf = length e' })
          (length e + 2) again (omega arith)))
