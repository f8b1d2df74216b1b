-- ===== src/Worker/Queries.antt =====
-- A3/query.c: a query prints its table descending.
use csc.Common.{
  ℕ, zero, suc, ◌≤◌, ◌<◌, ◌≡◌, refl, ap, subst, ◌∙◌, ◌>>=◌, >>=-eq-some, inl, inr, Option, none,
  some, List, [], ◌∷◌, arith, ltb, Bool-cases, length, set, replicate, length-set, get_or-set_same,
  get_or-set_other,
}
use csc.Worker.{
  FreqRecord, get_empty_freqrecord, maxrecords, freq_at, insert, take_reply, take_replies,
  swap_last, query,
}
use csc.Worker.Table.{order, Ranked}
use csc.Worker.Moves.{at}
use csc.Worker.Insertion.{Inserted, dropped, outside, stored, insert-Inserted}

-- A table in order, of at most 99 records.
pub record IsTable (a : List FreqRecord) (n : ℕ) : Type 0 where
  pub size : length a ≡ maxrecords
  pub small : n ≤ 99
  pub ranked : Ranked (freq_at a) n

pub data Table : Option (List FreqRecord × ℕ) → Type 0 where
  stopped : Table none
  table : {a : List FreqRecord} {n : ℕ} → IsTable a n → Table (some (a, n))

insert-Table :
    (in_front : ℕ) (a : List FreqRecord) (c : FreqRecord) (n : ℕ)
    → IsTable a n
    → Table (insert in_front a c n)
insert-Table in_front a c n t = go (insert-Inserted in_front a c n t.size t.small t.ranked)
  where
    go : {o : Option (List FreqRecord × ℕ)} → Inserted in_front a c n o → Table o
    go (dropped l) = table t
    go (outside l e) = stopped
    go (stored l k i s r) =
        table (record { size = s.same_length ∙ t.size; small = omega (arith, k); ranked = r })

>>=-Table :
    {o : Option (List FreqRecord × ℕ)} (f : List FreqRecord × ℕ → Option (List FreqRecord × ℕ))
    → Table o
    → ((a : List FreqRecord) (n : ℕ) → IsTable a n → Table (f (a, n)))
    → Table (o >>= f)
>>=-Table f stopped h = stopped
>>=-Table f (table {a = a} {n = n} t) h = h a n t

take_reply-Table :
    (in_front : ℕ) (a : List FreqRecord) (n : ℕ) (l : List FreqRecord)
    → IsTable a n
    → Table (take_reply in_front a n l)
unfolding take_reply
take_reply-Table in_front a n [] t = stopped
take_reply-Table in_front a n (r ∷ l) t = elim (Bool-cases (ltb 0 r.freq)) [
  | inl e ↦
      rw (e, take_reply)
        (>>=-Table (λ (m : List FreqRecord × ℕ). take_reply in_front m.0 m.1 l)
          (insert-Table in_front a r n t) (λ b k u. take_reply-Table in_front b k l u))
  | inr e ↦ rw (e, take_reply) (table t)
]

take_replies-Table :
    (in_front : ℕ) (a : List FreqRecord) (n : ℕ) (children : List (List FreqRecord))
    → IsTable a n
    → Table (take_replies in_front a n children)
unfolding take_replies
take_replies-Table in_front a n [] t = table t
take_replies-Table in_front a n (c ∷ children) t =
    >>=-Table (λ (m : List FreqRecord × ℕ). take_replies in_front m.0 m.1 children)
      (take_reply-Table in_front a n c t) (λ b k u. take_replies-Table in_front b k children u)

pub Descending : List FreqRecord → ℕ → Type 0
Descending a n = (i j : ℕ) → i < j → j < n → freq_at a j ≤ freq_at a i

swap_last-Descending : (a : List FreqRecord) (n : ℕ) → IsTable a n → Descending (swap_last a n) n
unfolding swap_last Descending
swap_last-Descending a zero t i j h k = ground (arith, k)
swap_last-Descending a (suc zero) t i j h k = ground (arith, h, k)
swap_last-Descending a (suc (suc m)) t i j h k =
    let b : List FreqRecord = set a (suc m) (at a m) in
    let v : FreqRecord = at a (suc m) in
    let size : length b ≡ maxrecords = length-set a (suc m) (at a m) ∙ t.size in
    let last : freq_at (set b m v) (suc m) ≡ freq_at a m =
      ap (λ (r : FreqRecord). r.freq)
        (get_or-set_other b m (suc m) v get_empty_freqrecord (λ d. ground (arith, d))
          ∙ get_or-set_same a (suc m) (at a m) get_empty_freqrecord
              (omega (arith, t.size, t.small))) in
    let before : freq_at (set b m v) m ≡ freq_at a (suc m) =
      ap (λ (r : FreqRecord). r.freq)
        (get_or-set_same b m v get_empty_freqrecord (omega (arith, size, t.small))) in
    let other : (l : ℕ) → l < m → freq_at (set b m v) l ≡ freq_at a l = λ l p.
      ap (λ (r : FreqRecord). r.freq)
        (get_or-set_other b m l v get_empty_freqrecord (λ d. ground (arith, d, p))
          ∙ get_or-set_other a (suc m) l (at a m) get_empty_freqrecord
              (λ d. ground (arith, d, p))) in
    elim (order j m) [
      | inl p ↦ omega (
        arith,
        other j p,
        other i (omega (arith, p, h)),
        t.ranked.descends i j h (omega (arith, p)),
      )
      | inr (inl p) ↦ omega (
        arith,
        ap (freq_at (set b m v)) p,
        before,
        other i (omega (arith, p, h)),
        t.ranked.above i m refl (omega (arith, p, h)),
      )
      | inr (inr p) ↦
          let end : j ≡ suc m = omega (arith, p, k) in
          elim (order i m) [
            | inl q ↦ omega (
              arith,
              ap (freq_at (set b m v)) end,
              last,
              other i q,
              t.ranked.descends i m q (omega arith),
            )
            | inr (inl q) ↦ omega (
              arith,
              ap (freq_at (set b m v)) end,
              last,
              ap (freq_at (set b m v)) q,
              before,
              t.ranked.last_two m refl,
            )
            | inr (inr q) ↦ absurd (omega (arith, q, h, end))
          ]
    ]

-- The table before the first reply.
pub empty-IsTable : IsTable (replicate maxrecords get_empty_freqrecord) 0
empty-IsTable = record {
  size = refl;
  small = omega arith;
  ranked = record {
    descends = λ i j h k. ground (arith, k);
    last_two = λ m e. ground (arith, e);
    above = λ i m e h. ground (arith, e);
  };
}

-- Whatever the children write, and whatever stands in front of the array, the table that a query
-- prints descends by count.
pub query-Descending :
    (in_front : ℕ) (children : List (List FreqRecord)) (a : List FreqRecord) (n : ℕ)
    → query in_front children ≡ some (a, n)
    → Descending a n
unfolding query
query-Descending in_front children a n e =
    let (m, e1, e2) =
      >>=-eq-some (take_replies in_front (replicate maxrecords get_empty_freqrecord) 0 children) _
        e in
    go m (subst Table e1 (take_replies-Table in_front _ 0 children empty-IsTable)) e2
  where
    go :
        (m : List FreqRecord × ℕ)
        → Table (some m)
        → ◌≡◌ {A = Option (List FreqRecord × ℕ)} (some (swap_last m.0 m.1, m.1)) (some (a, n))
        → Descending a n
    go (b, k) (table t) e =
        subst (λ (o : List FreqRecord × ℕ). Descending o.0 o.1) (ground (arith, e))
          (swap_last-Descending b k t)
