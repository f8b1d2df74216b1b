-- ===== src/Index/Order.antt =====
-- A3/freq_list.c: `add_word` keeps the list in alphabetical order and counts its words.
use csc.Common.{
  ℕ, ◌+◌, ◌≤◌, ◌≡◌, refl, sym, subst, List, [], ◌∷◌, arith, length, Bytes, strcmp, strcmp-gt,
  strcmp-lt_trans, take-all,
}
use Prim.Native.Nat.{Ordering}
use csc.Index.{Node, create_node, bump, walk, add_at}

-- Every word of the list comes behind `w`.
abbrev pub Before : Bytes → List Node → Type 0
Before w [] = Unit {0}
Before w (n ∷ l) = (strcmp w n.word ≡ Ordering.lt) × Before w l

abbrev pub Sorted : List Node → Type 0
Sorted [] = Unit {0}
Sorted (n ∷ l) = Before n.word l × Sorted l

-- How `walk` goes on at a node.
pub data Turn (n : Node) (w : Bytes) : Type 0 where
  same : strcmp n.word w ≡ Ordering.eq → Turn n w
  behind : strcmp n.word w ≡ Ordering.gt → Turn n w
  ahead : strcmp n.word w ≡ Ordering.lt → Turn n w

pub turn : (n : Node) (w : Bytes) → Turn n w
turn n w = go (strcmp n.word w) refl
  where
    go : (o : Ordering) → strcmp n.word w ≡ o → Turn n w
    go Ordering.eq e = same e
    go Ordering.gt e = behind e
    go Ordering.lt e = ahead e

pub walk-same :
    (n : Node) (l : List Node) (w : Bytes) (i : ℕ)
    → strcmp n.word w ≡ Ordering.eq
    → walk (n ∷ l) w i ≡ (bump n i ∷ l, 0)
unfolding walk
walk-same n l w i e = rw (e, walk) refl

pub walk-behind :
    (n : Node) (l : List Node) (w : Bytes) (i : ℕ)
    → strcmp n.word w ≡ Ordering.gt
    → walk (n ∷ l) w i ≡ (create_node w 1 i ∷ n ∷ l, 1)
unfolding walk
walk-behind n l w i e = rw (e, walk) refl

pub walk-ahead :
    (n : Node) (l : List Node) (w : Bytes) (i : ℕ)
    → strcmp n.word w ≡ Ordering.lt
    → walk (n ∷ l) w i ≡ (n ∷ (walk l w i).0, (walk l w i).1)
unfolding walk
walk-ahead n l w i e = rw (e, walk) refl

pub add_at-walk : (l : List Node) (w : Bytes) (i : ℕ) → add_at l w i ≡ walk l w i
unfolding add_at
add_at-walk [] w i = refl
add_at-walk (n ∷ l) w i = elim (turn n w) [
  | same e ↦ rw (e, add_at) refl
  | behind e ↦ rw (e, add_at) (sym (walk-behind n l w i e))
  | ahead e ↦ rw (e, add_at) refl
]

pub create_node-word : (w : Bytes) (c i : ℕ) → length w ≤ 31 → (create_node w c i).word ≡ w
unfolding create_node
create_node-word w c i h = take-all 31 w h

pub Before-trans :
    (v w : Bytes) (l : List Node) → strcmp v w ≡ Ordering.lt → Before w l → Before v l
Before-trans v w [] h b = tt
Before-trans v w (n ∷ l) h (p, b) = (strcmp-lt_trans v w n.word h p, Before-trans v w l h b)

walk-Before :
    (v : Bytes) (l : List Node) (w : Bytes) (i : ℕ)
    → length w ≤ 31
    → strcmp v w ≡ Ordering.lt
    → Before v l
    → Before v (walk l w i).0
unfolding walk
walk-Before v [] w i s h b = (rw (create_node-word w 1 i s) h, tt)
walk-Before v (n ∷ l) w i s h (p, b) = elim (turn n w) [
  | same e ↦ rw (walk-same n l w i e) (p, b)
  | behind e ↦ rw (walk-behind n l w i e) ((rw (create_node-word w 1 i s) h), (p, b))
  | ahead e ↦ rw (walk-ahead n l w i e) (p, walk-Before v l w i s h b)
]

pub walk-Sorted :
    (l : List Node) (w : Bytes) (i : ℕ) → length w ≤ 31 → Sorted l → Sorted (walk l w i).0
unfolding walk
walk-Sorted [] w i s h = (tt, tt)
walk-Sorted (n ∷ l) w i s (b, h) = elim (turn n w) [
  | same e ↦ rw (walk-same n l w i e) (b, h)
  | behind e ↦
      let first : strcmp w n.word ≡ Ordering.lt = strcmp-gt n.word w e in
      rw (walk-behind n l w i e) (
        subst (λ v. Before v (n ∷ l)) (sym (create_node-word w 1 i s))
            (first, Before-trans w n.word l first b),
        (b, h),
      )
  | ahead e ↦ rw (walk-ahead n l w i e) (walk-Before n.word l w i s e b, walk-Sorted l w i s h)
]

-- Adding a word of at most 31 bytes keeps the list in strictly ascending order.
pub add_at-Sorted :
    (l : List Node) (w : Bytes) (i : ℕ) → length w ≤ 31 → Sorted l → Sorted (add_at l w i).0
add_at-Sorted l w i s h = rw (add_at-walk l w i) (walk-Sorted l w i s h)

-- `num_words` grows by what the list grows by.
pub walk-length :
    (l : List Node) (w : Bytes) (i : ℕ) → length (walk l w i).0 ≡ length l + (walk l w i).1
unfolding walk
walk-length [] w i = refl
walk-length (n ∷ l) w i = elim (turn n w) [
  | same e ↦ rw (walk-same n l w i e) (omega arith)
  | behind e ↦ rw (walk-behind n l w i e) (omega arith)
  | ahead e ↦ rw (walk-ahead n l w i e) (omega (arith, walk-length l w i))
]
