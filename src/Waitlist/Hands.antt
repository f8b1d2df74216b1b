-- ===== src/Waitlist/Hands.antt =====
-- A2/hcq.c: the list of TAs, and the students in their hands.
use csc.Common.{
  ℕ, zero, suc, ◌<◌, ◌≡◌, refl, ap, subst, inl, inr, Option, none, some, List, [], ◌∷◌, ◌++◌, map,
  arith, Bool-cases, Option-cases, length, get_elem?, Bytes, str_eq,
}
use csc.Waitlist.{Ta, find_ta}
use csc.Waitlist.Operations.{give, without_ta}
use csc.Waitlist.View.{Entry, TaView, served, ta_of, addr_of}
use csc.Waitlist.Spec.{drop_ta, find_view, hand, in_hand}

pub find_ta-find_view :
    (l : List TaView) (name : Bytes) → find_ta (map ta_of l) name ≡ find_view l name
unfolding find_ta
find_ta-find_view [] name = refl
find_ta-find_view (t ∷ l) name = rw (find_ta-find_view l name) refl

pub map-hand :
    (l : List TaView) (i : ℕ) (e : Option Entry)
    → map ta_of (hand l i e) ≡ give (map ta_of l) i (addr_of e)
map-hand [] i e = refl
map-hand (t ∷ l) zero e = refl
map-hand (t ∷ l) (suc i) e = ap (λ m. ta_of t ∷ m) (map-hand l i e)

pub hand-same : (l : List TaView) (i : ℕ) → hand l i (in_hand l i) ≡ l
hand-same [] i = refl
hand-same (t ∷ l) zero = refl
hand-same (t ∷ l) (suc i) = ap (λ m. t ∷ m) (hand-same l i)

pub give-give : (l : List Ta) (i : ℕ) (p q : Option ℕ) → give (give l i p) i q ≡ give l i q
give-give [] i p q = refl
give-give (t ∷ l) zero p q = refl
give-give (t ∷ l) (suc i) p q = ap (λ m. t ∷ m) (give-give l i p q)

pub in_hand-hand : (l : List TaView) (i : ℕ) → in_hand (hand l i none) i ≡ none
in_hand-hand [] i = refl
in_hand-hand (t ∷ l) zero = refl
in_hand-hand (t ∷ l) (suc i) = in_hand-hand l i

pub length-hand : (l : List TaView) (i : ℕ) (e : Option Entry) → length (hand l i e) ≡ length l
length-hand [] i e = refl
length-hand (t ∷ l) zero e = refl
length-hand (t ∷ l) (suc i) e = ap suc (length-hand l i e)

-- The TA of that name has a place in the list.
pub find_view-lt :
    (l : List TaView) (name : Bytes) (i : ℕ) → find_view l name ≡ some i → i < length l
find_view-lt [] name i e = ground (arith, e)
find_view-lt (t ∷ l) name i e = elim (Bool-cases (str_eq t.name name)) [
  | inl p ↦ ground (arith, p, e)
  | inr p ↦ elim (Option-cases (find_view l name)) [
    | inl n ↦ ground (arith, p, e, n)
    | inr (j, f) ↦ let lt = find_view-lt l name j f in ground (arith, p, e, f, lt)
  ]
]

pub get_elem?-map_ta :
    (l : List TaView) (i : ℕ)
    → i < length l
    → (t : Ta) × (get_elem? (map ta_of l) i ≡ some t) × (t.current_student ≡ addr_of (in_hand l i))
get_elem?-map_ta [] i lt = absurd (omega (arith, lt))
get_elem?-map_ta (t ∷ l) zero lt = (ta_of t, refl, refl)
get_elem?-map_ta (t ∷ l) (suc i) lt = get_elem?-map_ta l i (omega (arith, lt))

-- The student of one TA stands between those of the others.
pub served-hand :
    (l : List TaView) (i : ℕ)
    → i < length l
    → (before after : List Entry) × (served (hand l i none) ≡ before ++ after)
      × ((e : Entry) → served (hand l i (some e)) ≡ before ++ e ∷ after)
served-hand [] i lt = absurd (omega (arith, lt))
served-hand (t ∷ l) zero lt = ([], served l, refl, λ e. refl)
served-hand (t ∷ l) (suc i) lt =
    let (before, after, free, busy) = served-hand l i (omega (arith, lt)) in
    elim (Option-cases t.student) [
      | inl n ↦ (before, after, rw n free, λ e. rw n (busy e))
      | inr (x, n) ↦
          (x ∷ before, after, rw n (ap (λ m. x ∷ m) free), λ e. rw n (ap (λ m. x ∷ m) (busy e)))
    ]

abbrev pub drop_at : List Ta → ℕ → List Ta
drop_at [] i = []
drop_at (t ∷ l) zero = l
drop_at (t ∷ l) (suc i) = t ∷ drop_at l i

pub map-drop_ta : (l : List TaView) (i : ℕ) → map ta_of (drop_ta l i) ≡ drop_at (map ta_of l) i
map-drop_ta [] i = refl
map-drop_ta (t ∷ l) zero = refl
map-drop_ta (t ∷ l) (suc i) = ap (λ m. ta_of t ∷ m) (map-drop_ta l i)

pub served-drop_ta : (l : List TaView) (i : ℕ) → served (drop_ta l i) ≡ served (hand l i none)
served-drop_ta [] i = refl
served-drop_ta (t ∷ l) zero = refl
served-drop_ta (t ∷ l) (suc i) = elim (Option-cases t.student) [
  | inl n ↦ rw n (served-drop_ta l i)
  | inr (x, n) ↦ rw n (ap (λ m. x ∷ m) (served-drop_ta l i))
]

some_same : (t u : Ta) → some t ≡ some u → t ≡ u
some_same t u h = ground (arith, h)

-- The TA that is taken out of the list is the one that `find_ta` finds.
pub without_ta-find_ta :
    (l : List Ta) (name : Bytes) (i : ℕ) (t : Ta)
    → find_ta l name ≡ some i
    → get_elem? l i ≡ some t
    → without_ta l name ≡ some (t, drop_at l i)
unfolding find_ta without_ta
without_ta-find_ta [] name i t f g = ground (arith, f)
without_ta-find_ta (u ∷ l) name i t f g = elim (Bool-cases (str_eq u.name name)) [
  | inl p ↦
      let first : some 0 ≡ some i = rw p at f in
      let zero_th : i ≡ 0 = ground (arith, first) in
      let same : u ≡ t = some_same u t (subst (λ j. get_elem? (u ∷ l) j ≡ some t) zero_th g) in
      rw (p, without_ta, zero_th) (ap (λ x. some (x, l)) same)
  | inr p ↦ elim (Option-cases (find_ta l name)) [
    | inl n ↦ ground (arith, rw (p, n) at f)
    | inr (j, n) ↦
        let next : some (suc j) ≡ some i = rw (p, n) at f in
        let after : i ≡ suc j = ground (arith, next) in
        let there : get_elem? l j ≡ some t = subst (λ k. get_elem? (u ∷ l) k ≡ some t) after g in
        rw (p, without_ta, after, without_ta-find_ta l name j t n there) refl
  ]
]
