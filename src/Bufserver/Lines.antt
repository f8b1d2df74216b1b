-- ===== src/Bufserver/Lines.antt =====
-- What the server prints against the lines of the byte stream.
use csc.Common.{
  ℕ, zero, suc, ◌+◌, ◌-◌, ◌≤◌, ◌≡◌, refl, ap, ◌∙◌, [], ◌∷◌, ◌++◌, arith, length, set, take, drop,
  replicate, length-append, length-set, length-drop, length-replicate, take-append, set-append,
  Bytes,
}
use csc.Newline.{memset0, memmove_down, cr, lf, cstr}
use csc.Bufserver.{LineBuf, bufsize, take_line}

-- The array holds the bytes `xs` that are not consumed, then stale bytes.
pub record Holds (s : LineBuf) (xs : Bytes) : Type 0 where
  pub stale : Bytes
  pub contents : s.buf ≡ xs ++ stale
  pub counted : s.inbuf ≡ length xs
  pub whole : length s.buf ≡ bufsize

take_line-printed :
    (l e stale : Bytes) → cstr (set (l ++ cr ∷ lf ∷ (e ++ stale)) (length l) 0) ≡ cstr l
unfolding cstr
take_line-printed [] e stale = refl
take_line-printed (zero ∷ l) e stale = refl
take_line-printed (suc c ∷ l) e stale = ap (λ t. suc c ∷ t) (take_line-printed l e stale)

-- memset stops one byte short of what is moved down.
pub drop-memset0 : (k : ℕ) (b : Bytes) → drop (suc k) (memset0 k b) ≡ drop (suc k) b
unfolding memset0
drop-memset0 zero b = refl
drop-memset0 (suc k) [] = go k
  where
    go : (n : ℕ) → drop (suc n) (replicate n (let z : ℕ = 0 in z) ++ []) ≡ []
    go zero = refl
    go (suc n) = go n
drop-memset0 (suc k) (x ∷ b) = drop-memset0 k b

pub length-memset0 : (k : ℕ) (b : Bytes) → k ≤ length b → length (memset0 k b) ≡ length b
unfolding memset0
length-memset0 k b h = omega (
  arith,
  length-append (replicate k (let z : ℕ = 0 in z)) (drop k b),
  length-replicate k (let z : ℕ = 0 in z),
  length-drop k b,
)

drop-line : (l : Bytes) (a b : ℕ) (r : Bytes) → drop (suc (suc (length l))) (l ++ a ∷ b ∷ r) ≡ r
drop-line [] a b r = refl
drop-line (x ∷ l) a b r = drop-line l a b r

pub length-line :
    (l : Bytes) (a b : ℕ) (r : Bytes) → length (l ++ a ∷ b ∷ r) ≡ length l + 2 + length r
length-line [] a b r = omega arith
length-line (x ∷ l) a b r = omega (arith, length-line l a b r)

abbrev pub holding : Bytes → Bytes → Bytes → LineBuf
holding l e stale = record { buf = l ++ cr ∷ lf ∷ (e ++ stale); inbuf = length l + 2 + length e }

-- The array of `holding` once the line is terminated and wiped, all but its '\n'.
abbrev pub wiped : Bytes → Bytes → Bytes → Bytes
wiped l e stale = memset0 (suc (length l)) (set (l ++ cr ∷ lf ∷ (e ++ stale)) (length l) 0)

-- One round at a complete line prints it and moves the rest down.
pub take_line_lem :
    (l e stale : Bytes)
    → take_line (holding l e stale) (length l + 2)
      ≡ (cstr l, record { buf = e ++ drop (length e) (wiped l e stale); inbuf = length e })
unfolding take_line memmove_down
take_line_lem l e stale =
    let b : Bytes = set (l ++ cr ∷ lf ∷ (e ++ stale)) (length l) 0 in
    let b' : b ≡ l ++ 0 ∷ lf ∷ (e ++ stale) = set-append l cr 0 (lf ∷ (e ++ stale)) in
    let m : Bytes = wiped l e stale in
    let two : length l + 2 - 2 ≡ length l = omega arith in
    let one : length l + 2 - 1 ≡ suc (length l) = omega arith in
    let at : length l + 2 ≡ suc (suc (length l)) = omega arith in
    let left : length l + 2 + length e - (length l + 2) ≡ length e = omega arith in
    let rest : drop (suc (suc (length l))) m ≡ e ++ stale =
      drop-memset0 (suc (length l)) b
      ∙ ap (drop (suc (suc (length l)))) b'
      ∙ drop-line l 0 lf (e ++ stale) in
    let moved : take (length e) (drop (suc (suc (length l))) m) ≡ e =
      ap (take (length e)) rest ∙ take-append e stale in
    rw (two, one, left, at)
      (λ i. (
        take_line-printed l e stale i,
        record { buf = moved i ++ drop (length e) m; inbuf = length e },
      ))

length-wiped :
    (l e stale : Bytes)
    → length (holding l e stale).buf ≡ bufsize
    → length (wiped l e stale) ≡ bufsize
length-wiped l e stale h =
    length-memset0 (suc (length l)) (set (l ++ cr ∷ lf ∷ (e ++ stale)) (length l) 0) (
      omega (
        arith,
        h,
        length-line l cr lf (e ++ stale),
        length-set (holding l e stale).buf (length l) 0,
      ))
    ∙ length-set (holding l e stale).buf (length l) 0
    ∙ h

pub take_line-Holds :
    (l e stale : Bytes)
    → length (holding l e stale).buf ≡ bufsize
    → ((take_line (holding l e stale) (length l + 2)).0 ≡ cstr l)
      × Holds (take_line (holding l e stale) (length l + 2)).1 e
take_line-Holds l e stale h = rw take_line_lem (
  refl,
  record {
    stale = drop (length e) (wiped l e stale);
    contents = refl;
    counted = refl;
    whole = omega (
      arith,
      h,
      length-wiped l e stale h,
      length-line l cr lf (e ++ stale),
      length-append e stale,
      length-append e (drop (length e) (wiped l e stale)),
      length-drop (length e) (wiped l e stale),
    );
  },
)
