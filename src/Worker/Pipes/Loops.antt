-- ===== src/Worker/Pipes/Loops.antt =====
-- A3/query.c: the loops of `Close`, of a child and of the parent.
use csc.Common.{
  ℕ, zero, suc, ◌+◌, ◌*◌, ◌≤◌, ◌<◌, ◌≡◌, refl, sym, subst, ◌∙◌, >>=-some, inl, inr, true, false,
  some, arith, ◌==◌, ==_iff, Bool-cases,
}
use csc.Worker.Pipes.{Descriptors, all_pipes, shut, child_closes, parent_closes, end_of_words}
use csc.Worker.Pipes.Ends.{
  At, Same, shut-other, shut_self, close_word-open, child-Round, Same-refl, At-Same, Same-trans,
  parent_round,
}

-- The loop of a child, from the pipe `j` on, all of whose ends are open.
child_closes-At :
    (n j i : ℕ) (d : Descriptors)
    → ((m : ℕ) → j ≤ m → m < j + n → At d m true true true true)
    → (e : Descriptors) × (child_closes n j i d ≡ some e)
      × ((m : ℕ) → j ≤ m → m < j + n → At e m (m == i) false false (m == i))
      × ((m : ℕ) → m < j → Same d e m)
unfolding child_closes
child_closes-At zero j i d opened =
    (d, refl, λ m l k. absurd (omega (arith, l, k)), λ m l. Same-refl d m)
child_closes-At (suc n) j i d opened =
    let (e, f, g, c1, c2, c3, r) = child-Round i j d (opened j (omega arith) (omega arith)) in
    let (h, runs, done, kept) = child_closes-At n (suc j) i g (λ m l k.
      At-Same d g m (r.others m (ground (arith, l)))
        (opened m (omega (arith, l)) (omega (arith, k)))) in
    (
      h,
      >>=-some _ c1 (>>=-some _ c2 (>>=-some _ c3 runs)),
      λ m l k. elim (Bool-cases (m == j)) [
        | inl p ↦
            subst (λ x. At h x (x == i) false false (x == i)) (sym ((==_iff m j).0 p))
              (At-Same g h j (kept j (omega arith)) r.here)
        | inr p ↦ done m (ground (arith, l, p)) (omega (arith, k))
      ],
      λ m l. Same-trans d g h m (r.others m (ground (arith, l))) (kept m (omega (arith, l))),
    )

parent_closes-At :
    (n j : ℕ) (d : Descriptors)
    → ((m : ℕ) → j ≤ m → m < j + n → At d m true true true true)
    → (e : Descriptors) × (parent_closes n j d ≡ some e)
      × ((m : ℕ) → j ≤ m → m < j + n → At e m false true true false)
      × ((m : ℕ) → m < j → Same d e m)
unfolding parent_closes
parent_closes-At zero j d opened =
    (d, refl, λ m l k. absurd (omega (arith, l, k)), λ m l. Same-refl d m)
parent_closes-At (suc n) j d opened =
    let (e, f, c1, c2, here, others) = parent_round j d (opened j (omega arith) (omega arith)) in
    let (h, runs, done, kept) = parent_closes-At n (suc j) f (λ m l k.
      At-Same d f m (others m (ground (arith, l)))
        (opened m (omega (arith, l)) (omega (arith, k)))) in
    (
      h,
      >>=-some _ c1 (>>=-some _ c2 runs),
      λ m l k. elim (Bool-cases (m == j)) [
        | inl p ↦
            subst (λ x. At h x false true true false) (sym ((==_iff m j).0 p))
              (At-Same f h j (kept j (omega arith)) here)
        | inr p ↦ done m (ground (arith, l, p)) (omega (arith, k))
      ],
      λ m l. Same-trans d f h m (others m (ground (arith, l))) (kept m (omega (arith, l))),
    )

end_of_words-At :
    (n j : ℕ) (d : Descriptors)
    → ((m : ℕ) → j ≤ m → m < j + n → At d m false true true false)
    → (e : Descriptors) × (end_of_words n j d ≡ some e)
      × ((m : ℕ) → j ≤ m → m < j + n → At e m false false true false)
      × ((m : ℕ) → m < j → Same d e m)
unfolding end_of_words
end_of_words-At zero j d opened =
    (d, refl, λ m l k. absurd (omega (arith, l, k)), λ m l. Same-refl d m)
end_of_words-At (suc n) j d opened =
    let a = opened j (omega arith) (omega arith) in
    let f : Descriptors = record d { words_fd = shut d.words_fd (2 * j + 1) } in
    let others : (m : ℕ) → (m == j) ≡ false → Same d f m = λ m n. record {
      words_read = shut-other d.words_fd (2 * j + 1) (2 * m) (ground arith);
      words_written = shut-other d.words_fd (2 * j + 1) (2 * m + 1) (ground (arith, n));
      freqs_read = refl;
      freqs_written = refl;
    } in
    let here : At f j false false true false = record {
      words_read = shut-other d.words_fd (2 * j + 1) (2 * j) (ground arith) ∙ a.words_read;
      words_written = shut_self d.words_fd (2 * j + 1);
      freqs_read = a.freqs_read;
      freqs_written = a.freqs_written;
    } in
    let (h, runs, done, kept) = end_of_words-At n (suc j) f (λ m l k.
      At-Same d f m (others m (ground (arith, l)))
        (opened m (omega (arith, l)) (omega (arith, k)))) in
    (
      h,
      >>=-some _ (close_word-open d (2 * j + 1) a.words_written) runs,
      λ m l k. elim (Bool-cases (m == j)) [
        | inl p ↦
            subst (λ x. At h x false false true false) (sym ((==_iff m j).0 p))
              (At-Same f h j (kept j (omega arith)) here)
        | inr p ↦ done m (ground (arith, l, p)) (omega (arith, k))
      ],
      λ m l. Same-trans d f h m (others m (ground (arith, l))) (kept m (omega (arith, l))),
    )

all_open : (n m : ℕ) → m < n → At (all_pipes n) m true true true true
all_open n m k = record {
  words_read = ground (arith, k);
  words_written = ground (arith, k);
  freqs_read = ground (arith, k);
  freqs_written = ground (arith, k);
}

-- With the pipes of all children open, no loop closes a descriptor twice. A child is left with the two
-- ends of its own pipes, the one it reads words from and the one it writes to; the parent with the
-- others; and after its last loop nobody has an end open that words are written to, so that every
-- child's `Read` comes to the end.
pub closes-At :
    (n : ℕ)
    → ((i : ℕ)
        → (e : Descriptors) × (child_closes n 0 i (all_pipes n) ≡ some e)
          × ((m : ℕ) → m < n → At e m (m == i) false false (m == i)))
      × ((p q : Descriptors) × (parent_closes n 0 (all_pipes n) ≡ some p)
          × ((m : ℕ) → m < n → At p m false true true false)
          × (end_of_words n 0 p ≡ some q)
          × ((m : ℕ) → m < n → At q m false false true false))
closes-At n =
    let (p, runs, done, kept) =
      parent_closes-At n 0 (all_pipes n) (λ m l k. all_open n m (omega (arith, k))) in
    let (q, runs', done', kept') = end_of_words-At n 0 p (λ m l k. done m l k) in
    (
      λ i.
          let (e, run, own, other) =
            child_closes-At n 0 i (all_pipes n) (λ m l k. all_open n m (omega (arith, k))) in
          (e, run, λ m l. own m (omega arith) (omega (arith, l))),
      (
        p,
        q,
        runs,
        λ m l. done m (omega arith) (omega (arith, l)),
        runs',
        λ m l. done' m (omega arith) (omega (arith, l)),
      ),
    )
