-- ===== src/Bufserver/Serve.antt =====
-- Over any reads that do not stop behind a '\r', the server prints the lines of the whole stream.
use csc.Common.{
  ℕ, zero, suc, ◌+◌, ◌≤◌, ◌<◌, ◌≡◌, refl, sym, ap, ◌∙◌, ◌≢◌, inl, inr, false, none, some, List, [],
  ◌∷◌, ◌++◌, arith, ltb, ltb→lt, Bool-cases, Option-cases, length, take, drop, replicate,
  length-append, length-drop, take-append, Bytes,
}
use mathlib.Core.List.{append_assoc, append-nil, flatten}
use csc.Newline.{
  EndsClean, EndsClean-rest, EndsClean-append, first_line, scan-first_line, first_line-append,
  as_search, cr, lf, cstr, Lines, end, more, Lines-append, Lines-left, found,
}
use csc.Bufserver.{
  LineBuf, bufsize, room, find_network_newline, accepted, receive, take_line, Drained, drained,
  faulted, exhausted, drain, drain_all, print_first, then_reads, serve,
}
use csc.Bufserver.Lines.{Holds, holding, take_line-Holds, length-line}

module _ {s : LineBuf} {xs : Bytes} (h : Holds s xs) where
  pub inbuf-le : s.inbuf ≤ bufsize
  inbuf-le = omega (arith, h.counted, h.whole, ap length h.contents, length-append xs h.stale)

  pub find-as_search :
      EndsClean xs → find_network_newline s.buf s.inbuf ≡ as_search 0 (first_line xs)
  unfolding find_network_newline
  find-as_search c = elim (Bool-cases (ltb bufsize s.inbuf)) [
    | inl big ↦ absurd (omega (arith, inbuf-le, ltb→lt bufsize s.inbuf big))
    | inr small ↦ rw small (rw (h.contents, h.counted) (scan-first_line xs h.stale 0 c))
  ]

  eq-holding : (l e : Bytes) → first_line xs ≡ some (l, e) → s ≡ holding l e h.stale
  eq-holding l e f = λ i. record { buf = bufs i; inbuf = counts i }
    where
      split : xs ≡ l ++ cr ∷ lf ∷ e
      split = first_line-append xs l e f

      bufs : s.buf ≡ l ++ cr ∷ lf ∷ (e ++ h.stale)
      bufs = h.contents ∙ ap (λ t. t ++ h.stale) split ∙ append_assoc l (cr ∷ lf ∷ e) h.stale

      counts : s.inbuf ≡ length l + 2 + length e
      counts = h.counted ∙ ap length split ∙ length-line l cr lf e

  pub take_first :
      (l e : Bytes)
      → first_line xs ≡ some (l, e)
      → ((take_line s (length l + 2)).0 ≡ cstr l) × Holds (take_line s (length l + 2)).1 e
  take_first l e f =
      let p : s ≡ holding l e h.stale = eq-holding l e f in
      rw p (take_line-Holds l e h.stale (ap (λ (t : LineBuf). length t.buf) (sym p) ∙ h.whole))

-- What a drained buffer has printed and kept, for the bytes that it held.
abbrev pub Prints : Bytes → Drained → Type 0
Prints xs (drained ls s) = (e : Bytes) × Lines xs ls e × Holds s e × EndsClean e
Prints xs faulted = ⊥
Prints xs exhausted = ⊥

Prints-first :
    (xs l e : Bytes) (r : Drained)
    → first_line xs ≡ some (l, e)
    → Prints e r
    → Prints xs (print_first (cstr l) r)
Prints-first xs l e (drained ls s) f (e', t, h, c) = (e', more f t, h, c)
Prints-first xs l e faulted f p = p
Prints-first xs l e exhausted f p = p

pub drain-Prints :
    (fuel : ℕ) (s : LineBuf) (xs : Bytes)
    → Holds s xs
    → EndsClean xs
    → length xs < fuel
    → Prints xs (drain fuel s)
unfolding drain
drain-Prints zero s xs h c lt = elim lt [ ]
drain-Prints (suc fuel) s xs h c lt = elim (Option-cases (first_line xs)) [
  | inl f ↦ rw (find-as_search h c, f, drain) (xs, end f, h, c)
  | inr ((l, e), f) ↦
      let split : xs ≡ l ++ cr ∷ lf ∷ e = first_line-append xs l e f in
      let size : length xs ≡ length l + 2 + length e = ap length split ∙ length-line l cr lf e in
      let ih : Prints e (drain fuel (take_line s (length l + 2)).1) =
        drain-Prints fuel (take_line s (length l + 2)).1 e (take_first h l e f).1
          (EndsClean-rest l e (rw split at c)) (omega arith) in
      let fits : ltb s.inbuf (length l + 2) ≡ false = ground (arith, h.counted, size) in
      let at : find_network_newline s.buf s.inbuf ≡ found (length l + 2) =
        find-as_search h c ∙ ap (as_search 0) f ∙ ap found (omega arith) in
      rw (at, drain)
        (rw (fits, (take_first h l e f).0)
          (Prints-first xs l e (drain fuel (take_line s (length l + 2)).1) f ih))
]

abbrev Continues : Drained → (LineBuf → Type 0) → Type 0
Continues (drained ls s) P = P s
Continues faulted P = Unit {0}
Continues exhausted P = Unit {0}

-- The reads of one client: each delivers something, at most `room` bytes, and no read stops behind
-- a '\r'.
abbrev pub Delivers : LineBuf → List Bytes → Type 0
Delivers s [] = Unit {0}
Delivers s (d ∷ ds) =
    (d ≢ [])
    × EndsClean d
    × (length d ≤ room s)
    × Continues (drain_all (receive s d)) (λ t. Delivers t ds)

drop-plus : (a b : ℕ) (xs ys : Bytes) → length xs ≡ a → drop (a + b) (xs ++ ys) ≡ drop b ys
drop-plus a b [] ys h = rw (← h) (ap (λ n. drop n ys) (omega arith))
drop-plus a b (x ∷ xs) ys h = rw (← h) (
    let e : suc (length xs) + b ≡ suc (length xs + b) = omega arith in
    rw e (drop-plus (length xs) b xs ys refl))

-- A read that fits puts its bytes behind those that are held.
receive-Holds :
    (s : LineBuf) (xs d : Bytes) → Holds s xs → length d ≤ room s → Holds (receive s d) (xs ++ d)
unfolding receive
receive-Holds s xs d h fits = record {
  stale = drop (length d) h.stale;
  contents = whole ∙ sym (append_assoc xs d (drop (length d) h.stale));
  counted = omega (arith, h.counted, length-append xs d);
  whole =
      ap length whole
      ∙ omega (
        arith,
        h.whole,
        h.counted,
        ap length h.contents,
        length-append xs h.stale,
        length-append xs (d ++ drop (length d) h.stale),
        length-append d (drop (length d) h.stale),
        length-drop (length d) h.stale,
      );
}
  where
    kept : take s.inbuf s.buf ≡ xs
    kept = rw (h.contents, h.counted) (take-append xs h.stale)

    rest : drop (s.inbuf + length d) s.buf ≡ drop (length d) h.stale
    rest = rw h.contents (drop-plus s.inbuf (length d) xs h.stale (sym h.counted))

    whole :
        take s.inbuf s.buf ++ (d ++ drop (s.inbuf + length d) s.buf)
        ≡ xs ++ (d ++ drop (length d) h.stale)
    whole = rw (kept, rest)

accepted-Holds : Holds accepted []
unfolding accepted
accepted-Holds = record {
  stale = replicate bufsize 0;
  contents = refl;
  counted = refl;
  whole = refl;
}

Prints-then :
    (xs ys : Bytes) (r : Drained) (k : LineBuf → Drained) (P : LineBuf → Type 0)
    → Prints xs r
    → Continues r P
    → ((t : LineBuf) (e : Bytes)
        → Holds t e
        → EndsClean e
        → first_line e ≡ none
        → P t
        → Prints (e ++ ys) (k t))
    → Prints (xs ++ ys) (then_reads r k)
Prints-then xs ys (drained ls t) k P (e, l, h, c) p next = go (k t) (next t e h c (Lines-left l) p)
  where
    go :
        (r : Drained)
        → Prints (e ++ ys) r
        → Prints (xs ++ ys) (elim r [
          | drained ls' s' ↦ drained (ls ++ ls') s'
          | faulted ↦ faulted
          | exhausted ↦ exhausted
        ])
    go (drained ls' s') (e', l', h', c') = (e', Lines-append ys l l', h', c')
    go faulted q = q
    go exhausted q = q
Prints-then xs ys faulted k P q p next = absurd q
Prints-then xs ys exhausted k P q p next = absurd q

serve-Prints :
    (s : LineBuf) (xs : Bytes) (ds : List Bytes)
    → Holds s xs
    → EndsClean xs
    → first_line xs ≡ none
    → Delivers s ds
    → Prints (xs ++ flatten ds) (serve s ds)
unfolding serve flatten
serve-Prints s xs [] h c f v = rw (append-nil xs) (xs, end f, h, c)
serve-Prints s xs (d ∷ ds) h c f (n, cd, fits, next) =
    let h' : Holds (receive s d) (xs ++ d) = receive-Holds s xs d h fits in
    rw (← append_assoc xs d (flatten ds)) (
      Prints-then (xs ++ d) (flatten ds) (drain_all (receive s d)) (λ t. serve t ds)
        (λ t. Delivers t ds)
        (drain-Prints (suc (receive s d).inbuf) (receive s d) (xs ++ d) h'
          (EndsClean-append xs d cd n) (omega (arith, h'.counted)))
        next (λ t e. serve-Prints t e ds))

-- A client whose reads fit and do not stop behind a '\r' has exactly the lines of its whole stream
-- printed, in order and each cut at its first NUL, however the stream was cut into reads; the loop
-- ends, no access leaves the array, and the buffer keeps the unfinished rest.
pub serve-Prints_stream :
    (ds : List Bytes) → Delivers accepted ds → Prints (flatten ds) (serve accepted ds)
unfolding first_line
serve-Prints_stream ds v = serve-Prints accepted [] ds accepted-Holds tt refl v
