-- ===== src/Waitlist/TakeOut.antt =====
-- A2/hcq.c: the first who waits for a course, in the queue.
use csc.Common.{
  ℕ, ◌≡◌, refl, sym, ap, ◌∙◌, inl, inr, Option, none, some, List, [], ◌∷◌, ◌++◌, arith, ◌==◌,
  ==_iff, Bool-cases, Option-cases,
}
use csc.Waitlist.View.{Entry, of}
use csc.Waitlist.Spec.{take_out}

-- The first of the course, those before and those after.
pub take_out-split :
    (k : ℕ) (q : List Entry) (e : Entry) (rest : List Entry)
    → take_out k q ≡ some (e, rest)
    → (before after : List Entry) × (q ≡ before ++ e ∷ after)
      × (rest ≡ before ++ after)
      × (of k before ≡ [])
      × (e.course ≡ k)
take_out-split k [] e rest t = ground (arith, t)
take_out-split k (x ∷ q) e rest t = elim (Bool-cases (x.course == k)) [
  | inl p ↦
      let same : ◌≡◌ {A = Option (Entry × List Entry)} (some (x, q)) (some (e, rest)) =
        ground (arith, p, t) in
      let here : x ≡ e = ground (arith, same) in
      let left : q ≡ rest = ground (arith, same) in
      (
        [],
        q,
        ap (λ y. y ∷ q) here,
        sym left,
        refl,
        ap (λ y. y.course) (sym here) ∙ (==_iff x.course k).0 p,
      )
  | inr p ↦ elim (Option-cases (take_out k q)) [
    | inl n ↦ ground (arith, p, n, t)
    | inr ((y, r), f) ↦
        let same : ◌≡◌ {A = Option (Entry × List Entry)} (some (y, x ∷ r)) (some (e, rest)) =
          ground (arith, p, f, t) in
        let here : y ≡ e = ground (arith, same) in
        let left : x ∷ r ≡ rest = ground (arith, same) in
        let (before, after, split, over, none_of, course) = take_out-split k q y r f in
        (
          x ∷ before,
          after,
          ap (λ l. x ∷ l) split ∙ ap (λ z. x ∷ before ++ z ∷ after) here,
          sym left ∙ ap (λ l. x ∷ l) over,
          rw p none_of,
          ap (λ z. z.course) (sym here) ∙ course,
        )
  ]
]

pub take_out-none : (k : ℕ) (q : List Entry) → take_out k q ≡ none → of k q ≡ []
take_out-none k [] t = refl
take_out-none k (x ∷ q) t = elim (Bool-cases (x.course == k)) [
  | inl p ↦ ground (arith, p, t)
  | inr p ↦ elim (Option-cases (take_out k q)) [
    | inl n ↦ rw p (take_out-none k q n)
    | inr ((y, r), f) ↦ ground (arith, p, f, t)
  ]
]
