-- ===== src/Worker/Totals.antt =====
-- A3/worker.c and A3/query.c: a query ends with a table, as long as the workers do not send too much.
use csc.Common.{
  ℕ, suc, ◌+◌, ◌≤◌, ◌<◌, ◌≡◌, refl, ◌∙◌, >>=-some, inl, inr, true, Option, some, List, [], ◌∷◌, map,
  arith, ltb, if◌then◌else◌, Bool-cases, replicate,
}
use csc.Worker.{
  FreqRecord, get_empty_freqrecord, maxrecords, insert, is_sent, reply, take_reply, take_replies,
  swap_last, query,
}
use csc.Worker.Insertion.{Inserted, dropped, outside, stored, insert-Inserted}
use csc.Worker.Queries.{IsTable, empty-IsTable}

-- How many records a worker sends, and all of them.
abbrev pub count_sent : List FreqRecord → ℕ
count_sent [] = 0
count_sent (r ∷ l) = let rest = count_sent l in if is_sent r then suc rest else rest

abbrev pub count_all : List (List FreqRecord) → ℕ
count_all [] = 0
count_all (l ∷ rest) = count_sent l + count_all rest

-- A table with at most `most` records.
abbrev Grown : Option (List FreqRecord × ℕ) → ℕ → Type 0
Grown o most = (a : List FreqRecord) × (n : ℕ) × (o ≡ some (a, n)) × IsTable a n × (n ≤ most)

insert-Grown :
    (in_front : ℕ) (a : List FreqRecord) (r : FreqRecord) (n : ℕ)
    → IsTable a n
    → n < 99
    → Grown (insert in_front a r n) (suc n)
insert-Grown in_front a r n t less =
    go refl (insert-Inserted in_front a r n t.size t.small t.ranked)
  where
    go :
        {o : Option (List FreqRecord × ℕ)}
        → insert in_front a r n ≡ o
        → Inserted in_front a r n o
        → Grown (insert in_front a r n) (suc n)
    go e (dropped l) = (a, n, e, t, omega arith)
    go e (outside l k) = absurd (omega (arith, less, k))
    go e (stored {b = b} l k i s ranked) = (
      b,
      suc n,
      e,
      record { size = s.same_length ∙ t.size; small = omega (arith, k); ranked = ranked },
      omega arith,
    )

is_sent-positive : (r : FreqRecord) → is_sent r ≡ true → ltb 0 r.freq ≡ true
unfolding is_sent
is_sent-positive r e = ground (arith, e)

take_reply-Grown :
    (in_front : ℕ) (a : List FreqRecord) (n : ℕ) (l : List FreqRecord)
    → IsTable a n
    → n + count_sent l ≤ 99
    → Grown (take_reply in_front a n (reply l)) (n + count_sent l)
unfolding take_reply reply
take_reply-Grown in_front a n [] t small = (a, n, refl, t, omega arith)
take_reply-Grown in_front a n (r ∷ l) t small = elim (Bool-cases (is_sent r)) [
  | inl p ↦
      let fits : n + suc (count_sent l) ≤ 99 = ground (arith, small, p) in
      let (b, k, e, u, more) = insert-Grown in_front a r n t (omega (arith, fits)) in
      let (c, m, f, v, most) = take_reply-Grown in_front b k l u (omega (arith, fits, more)) in
      rw (p, reply)
        (c, m, rw (is_sent-positive r p, take_reply) (>>=-some _ e f), v, omega (arith, most, more))
  | inr p ↦ rw (p, reply) (take_reply-Grown in_front a n l t (ground (arith, small, p)))
]

take_replies-Grown :
    (in_front : ℕ) (a : List FreqRecord) (n : ℕ) (all : List (List FreqRecord))
    → IsTable a n
    → n + count_all all ≤ 99
    → Grown (take_replies in_front a n (map reply all)) (n + count_all all)
unfolding take_replies
take_replies-Grown in_front a n [] t small = (a, n, refl, t, omega arith)
take_replies-Grown in_front a n (l ∷ all) t small =
    let (b, k, e, u, more) = take_reply-Grown in_front a n l t (omega (arith, small)) in
    let (c, m, f, v, most) = take_replies-Grown in_front b k all u (omega (arith, small, more)) in
    (c, m, >>=-some _ e f, v, omega (arith, most, more))

-- Whatever records the workers find for a word, if at most 99 of them are sent the query returns: it
-- reads every reply to its end, writes nothing outside its table, and keeps at most as many records. The
-- first record is compared with what stands in front of the empty table, which is any number here.
pub query-returns :
    (in_front : ℕ) (found : List (List FreqRecord))
    → count_all found ≤ 99
    → (a : List FreqRecord) × (n : ℕ) × (query in_front (map reply found) ≡ some (a, n))
      × (n ≤ count_all found)
unfolding query
query-returns in_front found small =
    let (a, n, e, t, most) =
      take_replies-Grown in_front (replicate maxrecords get_empty_freqrecord) 0 found empty-IsTable
        (omega (arith, small)) in
    (swap_last a n, n, >>=-some _ e refl, omega (arith, most))
