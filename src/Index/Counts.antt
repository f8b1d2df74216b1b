-- ===== src/Index/Counts.antt =====
-- A3/freq_list.c: the counters. `count` is what the index says of a word and a file number.
use csc.Common.{
  ℕ, ◌+◌, ◌≤◌, ◌<◌, ◌≡◌, refl, ap, subst, ◌∙◌, inl, inr, false, ◌&&◌, List, [], ◌∷◌, arith, ◌==◌,
  if◌then◌else◌, ==_iff, Bool-cases, length, get_or, set, replicate, Bytes, strcmp, str_eq,
  strcmp-eq, str_eq_iff, strcmp-gt, str_eq-after, get_or-set_same, get_or-set_other,
  get_or-replicate,
}
use Prim.Native.Nat.{Ordering}
use csc.Index.{Node, create_node, walk, maxfiles}
use csc.Index.Order.{
  Before, Before-trans, Sorted, same, behind, ahead, turn, walk-same, walk-behind, walk-ahead,
  create_node-word,
}

abbrev pub count : List Node → Bytes → ℕ → ℕ
count [] w f = 0
count (n ∷ l) w f = let rest = count l w f in if str_eq n.word w then get_or n.freq f 0 else rest

-- Whether the word and the file number are those that were added.
abbrev pub hit : Bytes → ℕ → Bytes → ℕ → ℕ
hit w i w' f = if str_eq w w' && i == f then 1 else 0

-- Every node has all its counters.
abbrev pub Full : List Node → Type 0
Full [] = Unit {0}
Full (n ∷ l) = (length n.freq ≡ maxfiles) × Full l

get_or-set :
    (l : List ℕ) (i f v : ℕ)
    → i < length l
    → get_or (set l i v) f 0 ≡ (if i == f then v else get_or l f 0)
get_or-set l i f v h = elim (Bool-cases (i == f)) [
  | inl e ↦
      rw e (subst (λ k. get_or (set l i v) k 0 ≡ v) ((==_iff i f).0 e) (get_or-set_same l i v 0 h))
  | inr e ↦ rw e (get_or-set_other l i f v 0 (λ q. ground (arith, q, e)))
]

create_node-freq :
    (w : Bytes) (i f : ℕ)
    → i < maxfiles
    → get_or (create_node w 1 i).freq f 0 ≡ (if i == f then 1 else 0)
unfolding create_node
create_node-freq w i f h =
    get_or-set (replicate maxfiles 0) i f 1 h
    ∙ ap (λ z. if i == f then 1 else z) (get_or-replicate maxfiles f 0)

count-absent : (l : List Node) (w : Bytes) (f : ℕ) → Before w l → count l w f ≡ 0
count-absent [] w f b = refl
count-absent (n ∷ l) w f (p, b) = rw (str_eq-after w n.word p) (count-absent l w f b)

-- Adding a word to a list in order counts it once, for its file, and changes no other counter.
pub walk-count :
    (l : List Node) (w : Bytes) (i : ℕ) (w' : Bytes) (f : ℕ)
    → length w ≤ 31
    → i < maxfiles
    → Sorted l
    → Full l
    → count (walk l w i).0 w' f ≡ count l w' f + hit w i w' f
unfolding walk
walk-count [] w i w' f s h o u =
    rw (create_node-word w 1 i s, create_node-freq w i f h) (ground arith)
walk-count (n ∷ l) w i w' f s h (b, o) (u, us) = elim (turn n w) [
  | same e ↦
      let at_once : n.word ≡ w = strcmp-eq n.word w e in
      rw
        (
          walk-same n l w i e,
          get_or-set n.freq i f (get_or n.freq i 0 + 1) (omega (arith, h, u)),
          at_once,
        )
        (elim (Bool-cases (i == f)) [
          | inl q ↦ ground (arith, q, ap (λ k. get_or n.freq k 0) ((==_iff i f).0 q))
          | inr q ↦ ground (arith, q)
        ])
  | behind e ↦
      rw (walk-behind n l w i e, create_node-word w 1 i s, create_node-freq w i f h)
        (elim (Bool-cases (str_eq w w')) [
          | inl q ↦
              let first : strcmp w n.word ≡ Ordering.lt = strcmp-gt n.word w e in
              let none_yet : count (n ∷ l) w f ≡ 0 =
                count-absent (n ∷ l) w f (first, Before-trans w n.word l first b) in
              ground (arith, q, none_yet, ap (λ v. count (n ∷ l) v f) ((str_eq_iff w w').0 q))
          | inr q ↦ ground (arith, q)
        ])
  | ahead e ↦ rw (walk-ahead n l w i e) (elim (Bool-cases (str_eq n.word w')) [
    | inl q ↦
        let other : str_eq w w' ≡ false =
          subst (λ v. str_eq w v ≡ false) ((str_eq_iff n.word w').0 q) (str_eq-after n.word w e) in
        ground (arith, q, other)
    | inr q ↦ ground (arith, q, walk-count l w i w' f s h o us)
  ])
]
