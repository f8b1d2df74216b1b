-- ===== src/Index/Totals.antt =====
-- A3/freq_list.c and A3/indexer.c: `add_word` returns as long as there is room for the names.
use csc.Common.{
  ℕ, suc, ◌+◌, ◌≤◌, ◌≡◌, refl, sym, ap, subst, ◌∙◌, >>=-some, inl, inr, Option, none, some, List,
  [], ◌∷◌, ◌++◌, arith, Bool-cases, Option-cases, length, Bytes, str_eq,
}
use csc.Index.{Index, get_filenum, one_further, maxfiles, add_word, add_at}
use csc.Index.Files.{AllNull, index_of, used, Packed, too_many, given, Outcome, get_filenum-Outcome}
use csc.Index.Indexing.{IsIndex, Added, added, add_word-Added, add_words, Short}

-- One where the name is new.
abbrev pub fresh : Bytes → List (Option Bytes) → ℕ
fresh f names = elim (index_of f names) [ none ↦ 1 | some i ↦ 0 ]

used-AllNull : (r : List (Option Bytes)) → AllNull r → used r ≡ 0
used-AllNull [] h = refl
used-AllNull (none ∷ r) h = refl
used-AllNull (some g ∷ r) h = absurd h

used_after : Option (ℕ × List (Option Bytes)) → ℕ
used_after none = 0
used_after (some (i, l)) = used l

used_after-one_further :
    (g : Bytes) (o : Option (ℕ × List (Option Bytes))) (i : ℕ) (after : List (Option Bytes))
    → one_further (some g) o ≡ some (i, after)
    → (j : ℕ) × (l : List (Option Bytes)) × (o ≡ some (j, l)) × (used after ≡ suc (used l))
unfolding used_after
used_after-one_further g none i after e = ground (arith, e)
used_after-one_further g (some (j, l)) i after e = (j, l, refl, sym (ap used_after e))

get_filenum-used :
    (fname : Bytes) (names : List (Option Bytes)) (i : ℕ) (after : List (Option Bytes))
    → Packed names
    → get_filenum fname names ≡ some (i, after)
    → used after ≡ used names + fresh fname names
unfolding get_filenum used_after
get_filenum-used fname [] i after p e = ground (arith, e)
get_filenum-used fname (none ∷ r) i after p e =
    let same : suc (used r) ≡ used after = ap used_after e in omega (arith, same, used-AllNull r p)
get_filenum-used fname (some g ∷ r) i after p e = elim (Bool-cases (str_eq fname g)) [
  | inl q ↦
      let same : suc (used r) ≡ used after = ap used_after (rw q at e) in
      rw (q, fresh) (omega (arith, same))
  | inr q ↦
      let (j, l, e', one) = used_after-one_further g (get_filenum fname r) i after (rw q at e) in
      let before = get_filenum-used fname r j l p e' in
      elim (Option-cases (index_of fname r)) [
        | inl n ↦
            let new : fresh fname r ≡ 1 = rw (n, fresh) refl in
            rw (q, n, fresh) (omega (arith, one, before, new))
        | inr (k, n) ↦
            let new : fresh fname r ≡ 0 = rw (n, fresh) refl in
            rw (q, n, fresh) (omega (arith, one, before, new))
      ]
]

Added-IsIndex : (s t : Index) (word fname : Bytes) → Added s word fname (some t) → IsIndex t
Added-IsIndex s t word fname (added ok f) = ok

-- The word is counted, the name has a number, and a new name has taken one place.
pub record Counted (s : Index) (word fname : Bytes) (t : Index) : Type 0 where
  pub runs : add_word s word fname ≡ some t
  pub keeps : IsIndex t
  pub known : fresh fname t.filenames ≡ 0
  pub taken : used t.filenames ≡ used s.filenames + fresh fname s.filenames

add_word-Counted :
    (s : Index) (word fname : Bytes)
    → length word ≤ 31
    → IsIndex s
    → used s.filenames + fresh fname s.filenames ≤ maxfiles
    → (t : Index) × Counted s word fname t
unfolding add_word
add_word-Counted s word fname short ok room =
    go refl (get_filenum-Outcome fname s.filenames ok.packed)
  where
    go :
        {o : Option (ℕ × List (Option Bytes))}
        → get_filenum fname s.filenames ≡ o
        → Outcome s.filenames fname o
        → (t : Index) × Counted s word fname t
    go e (too_many u n) =
        let new : fresh fname s.filenames ≡ 1 = rw (n, fresh) refl in
        absurd (omega (arith, room, new, u, ok.size))
    go e (given {i = i} {after = after} n) =
        let t : Index = record {
          head = (add_at s.head word i).0;
          filenames = after;
          num_words = s.num_words + (add_at s.head word i).1;
        } in
        let runs : add_word s word fname ≡ some t = >>=-some _ e refl in
        (
          t,
          record {
            runs = runs;
            keeps =
                Added-IsIndex s t word fname
                  (subst (Added s word fname) runs (add_word-Added s word fname short ok));
            known = rw (n.numbered, fresh) refl;
            taken = get_filenum-used fname s.filenames i after ok.packed e;
          },
        )

pub fresh-most : (f : Bytes) (names : List (Option Bytes)) → fresh f names ≤ 1
fresh-most f names = elim (Option-cases (index_of f names)) [
  | inl n ↦ rw (n, fresh) (omega arith)
  | inr (k, n) ↦ rw (n, fresh) (omega arith)
]

-- All words of one file.
abbrev pub From : Bytes → List (Bytes × Bytes) → Type 0
From fname [] = Unit {0}
From fname ((word, f) ∷ rest) = (f ≡ fname) × From fname rest

pub From-append :
    (fname : Bytes) (xs ys : List (Bytes × Bytes))
    → From fname xs
    → From fname ys
    → From fname (xs ++ ys)
From-append fname [] ys h k = k
From-append fname ((word, f) ∷ xs) ys (e, h) k = (e, From-append fname xs ys h k)

-- The words of one file are counted if there is room for its name, which takes one place at most.
pub add_words-From :
    (fname : Bytes) (ws : List (Bytes × Bytes)) (s : Index)
    → From fname ws
    → Short ws
    → IsIndex s
    → used s.filenames + fresh fname s.filenames ≤ maxfiles
    → (t : Index) × (add_words s ws ≡ some t)
      × IsIndex t
      × (used t.filenames ≤ used s.filenames + fresh fname s.filenames)
add_words-From fname [] s from short ok room = (s, refl, ok, omega arith)
add_words-From fname ((word, f) ∷ ws) s (e, from) (less, short) ok room =
    let (t, c) = add_word-Counted s word fname less ok room in
    let (u, runs, ok', most) =
      add_words-From fname ws t from short c.keeps (omega (arith, room, c.known, c.taken)) in
    (
      u,
      >>=-some _ (ap (λ g. add_word s word g) e ∙ c.runs) runs,
      ok',
      omega (arith, most, c.known, c.taken),
    )
