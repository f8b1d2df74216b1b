-- ===== src/Worker/Insertion.antt =====
-- A3/worker.c: `insert` keeps the order of the table, in which the last two records ascend.
use csc.Common.{
  ℕ, zero, suc, ◌-◌, ◌≤◌, ◌<◌, ◌≡◌, refl, sym, ap, subst, ◌∙◌, inl, inr, true, false, ◌&&◌, Option,
  none, some, List, arith, ltb, ◌==◌, if◌then◌else◌, ltb→lt, ==_iff, Bool-cases, length,
}
use csc.Worker.{
  FreqRecord, maxrecords, freq_at, first_below, last_freq, determine_insert_pos, insert,
}
use csc.Worker.Table.{Ranked, Moved, Ranked-Moved, Place, behind_all, before_one, first_below-Place}
use csc.Worker.Moves.{Stored, put_at, put_at-Stored, put_at-outside}

-- What `insert` does: a record that is not above the last is dropped; with 99 records in the table
-- any other is written past the array; else it is put in its place.
pub data Inserted (in_front : ℕ) (a : List FreqRecord) (c : FreqRecord) (n : ℕ)
    : Option (List FreqRecord × ℕ) → Type 0 where
  dropped : c.freq ≤ last_freq in_front a n → Inserted in_front a c n (some (a, n))
  outside : last_freq in_front a n < c.freq → n ≡ 99 → Inserted in_front a c n none
  stored :
      {b : List FreqRecord} {p : ℕ}
      → last_freq in_front a n < c.freq
      → n < 99
      → p ≤ n
      → Stored a b n p c
      → Ranked (freq_at b) (suc n)
      → Inserted in_front a c n (some (b, suc n))

Stored-Moved :
    (a b : List FreqRecord) (c : FreqRecord) (n p : ℕ)
    → Stored a b n p c
    → Moved (freq_at a) (freq_at b) n p c.freq
Stored-Moved a b c n p s = record {
  low = λ j h. ap (λ (r : FreqRecord). r.freq) (s.low j h);
  here = ap (λ (r : FreqRecord). r.freq) s.here;
  high = λ j h k. ap (λ (r : FreqRecord). r.freq) (s.high j h k);
}

Ranked-one : (f : ℕ → ℕ) → Ranked f 1
Ranked-one f = record {
  descends = λ i j h k. ground (arith, h, k);
  last_two = λ m e. ground (arith, e);
  above = λ i m e h. ground (arith, e);
}

Ranked-two : (f : ℕ → ℕ) → f 0 < f 1 → Ranked f 2
Ranked-two f l = record {
  descends = λ i j h k. ground (arith, h, k);
  last_two = λ m e. elim-two m e;
  above = λ i m e h. ground (arith, e, h);
}
  where
    elim-two : (m : ℕ) → 2 ≡ suc (suc m) → f m < f (suc m)
    elim-two zero e = l
    elim-two (suc m) e = ground (arith, e)

-- A place for the record that keeps the order.
record Fits (a : List FreqRecord) (c : FreqRecord) (n p : ℕ) : Type 0 where
  inside : p ≤ n
  keeps : (b : List FreqRecord) → Stored a b n p c → Ranked (freq_at b) (suc n)

put_at-Inserted :
    (in_front : ℕ) (a : List FreqRecord) (c : FreqRecord) (n p : ℕ)
    → length a ≡ maxrecords
    → n ≤ 99
    → last_freq in_front a n < c.freq
    → Fits a c n p
    → Inserted in_front a c n (put_at a c n p)
put_at-Inserted in_front a c n p size small l f = elim (Bool-cases (n == 99)) [
  | inl e ↦
      let full : n ≡ 99 = (==_iff n 99).0 e in
      rw (put_at-outside a c n p f.inside (omega (arith, size, full))) (outside l full)
  | inr e ↦
      let less : n < 99 = ground (arith, e, small) in
      let (b, q, s) = put_at-Stored a c n p f.inside (omega (arith, less, size)) in
      subst (Inserted in_front a c n) (sym q) (stored l less f.inside s (f.keeps b s))
]

Fits-zero : (a : List FreqRecord) (c : FreqRecord) → Fits a c 0 0
Fits-zero a c = record { inside = omega arith; keeps = λ b s. Ranked-one (freq_at b) }

Fits-one : (a : List FreqRecord) (c : FreqRecord) → freq_at a 0 < c.freq → Fits a c 1 1
Fits-one a c l = record {
  inside = omega arith;
  keeps = λ b s.
      let v = Stored-Moved a b c 1 1 s in
      Ranked-two (freq_at b) (omega (arith, l, v.low 0 (omega arith), v.here));
}

Fits-before :
    (a : List FreqRecord) (c : FreqRecord) (m p : ℕ)
    → Ranked (freq_at a) (suc (suc m))
    → p < suc m
    → freq_at a p ≤ c.freq
    → ((i : ℕ) → i < p → c.freq < freq_at a i)
    → freq_at a (suc m) < c.freq
    → Fits a c (suc (suc m)) p
Fits-before a c m p r inside at_least less more = record {
  inside = omega (arith, inside);
  keeps = λ b s.
      Ranked-Moved (freq_at a) (freq_at b) m p c.freq (Stored-Moved a b c (suc (suc m)) p s) r
        inside at_least less more;
}

-- The place that the search gives.
search-Fits :
    (in_front : ℕ) (a : List FreqRecord) (c : FreqRecord) (n : ℕ) {o : Option ℕ}
    → Ranked (freq_at a) n
    → last_freq in_front a n < c.freq
    → Place c.freq a 0 (n - 1) o
    → (p : ℕ) × (elim o [ none ↦ some n | some i ↦ some i ] ≡ some p) × Fits a c n p
search-Fits in_front a c zero r l (behind_all f) = (0, refl, Fits-zero a c)
search-Fits in_front a c zero r l (before_one p h k q f) = ground (arith, k)
search-Fits in_front a c (suc zero) r l (behind_all f) = (1, refl, Fits-one a c l)
search-Fits in_front a c (suc zero) r l (before_one p h k q f) = ground (arith, k)
search-Fits in_front a c (suc (suc m)) r l (behind_all f) =
    absurd (omega (arith, l, f m (omega arith) (omega arith), r.last_two m refl))
search-Fits in_front a c (suc (suc m)) r l (before_one p h k q f) =
    (p, refl, Fits-before a c m p r (omega (arith, k)) q (λ i x. f i (omega arith) x) l)

determine_insert_pos-none :
    (in_front : ℕ) (a : List FreqRecord) (c : FreqRecord) (n : ℕ)
    → ltb (last_freq in_front a n) c.freq ≡ false
    → determine_insert_pos in_front a c n ≡ none
unfolding determine_insert_pos
determine_insert_pos-none in_front a c n e =
    let test : (ltb n maxrecords && ltb (last_freq in_front a n) c.freq) ≡ false =
      ground (arith, e) in
    ap
      (λ b.
        if b
        then elim (first_below (n - 1) 0 a c.freq) [ none ↦ some n | some i ↦ some i ]
        else none)
      test

determine_insert_pos-some :
    (in_front : ℕ) (a : List FreqRecord) (c : FreqRecord) (n : ℕ)
    → n ≤ 99
    → ltb (last_freq in_front a n) c.freq ≡ true
    → determine_insert_pos in_front a c n
      ≡ elim (first_below (n - 1) 0 a c.freq) [ none ↦ some n | some i ↦ some i ]
unfolding determine_insert_pos
determine_insert_pos-some in_front a c n h e =
    let test : (ltb n maxrecords && ltb (last_freq in_front a n) c.freq) ≡ true =
      ground (arith, h, e) in
    ap
      (λ b.
        if b
        then elim (first_below (n - 1) 0 a c.freq) [ none ↦ some n | some i ↦ some i ]
        else none)
      test

-- `insert`, on a table of at most 99 records whose counts descend but for the last two, which ascend:
-- a record that is not above the last is dropped, with 99 records any other is written past the array,
-- and else the record is put in a place that keeps this order, the others as they were. With no records
-- the last is what stands in front of the array, any number.
pub insert-Inserted :
    (in_front : ℕ) (a : List FreqRecord) (c : FreqRecord) (n : ℕ)
    → length a ≡ maxrecords
    → n ≤ 99
    → Ranked (freq_at a) n
    → Inserted in_front a c n (insert in_front a c n)
unfolding insert determine_insert_pos
insert-Inserted in_front a c n size small r =
    elim (Bool-cases (ltb (last_freq in_front a n) c.freq)) [
      | inr e ↦
          rw (determine_insert_pos-none in_front a c n e, insert) (dropped (ground (arith, e)))
      | inl e ↦
          let above : last_freq in_front a n < c.freq = ltb→lt _ _ e in
          let (p, q, f) =
            search-Fits in_front a c n r above (first_below-Place (n - 1) 0 a c.freq) in
          rw (determine_insert_pos-some in_front a c n small e ∙ q, insert)
            (put_at-Inserted in_front a c n p size small above f)
    ]
