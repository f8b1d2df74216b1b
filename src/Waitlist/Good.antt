-- ===== src/Waitlist/Good.antt =====
-- A2/hcq.c: the students that a view names, when one of them moves or is added.
use csc.Common.{
  ℕ, ◌≤◌, ◌≡◌, refl, sym, ap, ◌∙◌, inl, inr, true, false, ◌||◌, List, [], ◌∷◌, ◌++◌, arith, ◌==◌,
  ==_iff, Bool-cases,
}
use csc.Waitlist.{Store}
use csc.Waitlist.View.{Entry, Facts, Good, Infos, addrs, info}
use csc.Waitlist.Links.{has, has-append, Distinct}

pub addrs-append : (q r : List Entry) → addrs (q ++ r) ≡ addrs q ++ addrs r
addrs-append [] r = refl
addrs-append (e ∷ q) r = ap (λ l. e.addr ∷ l) (addrs-append q r)

pub ==_comm : (a b : ℕ) → (a == b) ≡ (b == a)
==_comm a b = elim (Bool-cases (a == b)) [
  | inl e ↦ e ∙ sym ((==_iff b a).1 (sym ((==_iff a b).0 e)))
  | inr e ↦ elim (Bool-cases (b == a)) [
    | inl f ↦ (==_iff a b).1 (sym ((==_iff b a).0 f)) ∙ sym f
    | inr f ↦ e ∙ sym f
  ]
]

-- Where a student stands in the list does not matter to whether it is there.
pub has-middle :
    (a : ℕ) (q : List Entry) (e : Entry) (r : List Entry)
    → has a (addrs (q ++ e ∷ r)) ≡ ((a == e.addr) || has a (addrs (q ++ r)))
has-middle a [] e r = refl
has-middle a (x ∷ q) e r = ground (arith, has-middle a q e r)

pub Good-take :
    (h : Store) (n c : ℕ) (q : List Entry) (e : Entry) (r : List Entry)
    → Good h n c (q ++ e ∷ r)
    → Facts h n c e (q ++ r) × Good h n c (q ++ r)
Good-take h n c [] e r g = g
Good-take h n c (x ∷ q) e r ((i, apart, lt, cl), g) =
    let ((j, free, lt', cl'), rest) = Good-take h n c q e r g in
    let both = sym (has-middle x.addr q e r) ∙ apart in
    let differ : (e.addr == x.addr) ≡ false = ==_comm e.addr x.addr ∙ ground (arith, both) in
    ((j, ground (arith, differ, free), lt', cl'), ((i, ground (arith, both), lt, cl), rest))

pub Good-put :
    (h : Store) (n c : ℕ) (q : List Entry) (e : Entry) (r : List Entry)
    → Facts h n c e (q ++ r)
    → Good h n c (q ++ r)
    → Good h n c (q ++ e ∷ r)
Good-put h n c [] e r f g = (f, g)
Good-put h n c (x ∷ q) e r (j, free, lt', cl') ((i, apart, lt, cl), g) =
    let differ : (x.addr == e.addr) ≡ false = ==_comm x.addr e.addr ∙ ground (arith, free) in
    (
      (i, has-middle x.addr q e r ∙ ground (arith, differ, apart), lt, cl),
      Good-put h n c q e r (j, ground (arith, free), lt', cl') g,
    )

pub Good-change :
    (h h' : Store) (n n' c : ℕ) (l : List Entry)
    → Good h n c l
    → n ≤ n'
    → ((a : ℕ) → has a (addrs l) ≡ true → info h' a ≡ info h a)
    → Good h' n' c l
Good-change h h' n n' c [] g le same = tt
Good-change h h' n n' c (e ∷ l) ((i, apart, lt, cl), g) le same = (
  (same e.addr (ground arith) ∙ i, apart, omega (arith, lt, le), cl),
  Good-change h h' n n' c l g le (λ a q. same a (ground (arith, q))),
)

pub Good-Infos : (h : Store) (n c : ℕ) (q r : List Entry) → Good h n c (q ++ r) → Infos h q
Good-Infos h n c [] r g = tt
Good-Infos h n c (e ∷ q) r ((i, apart, lt, cl), g) = (i, Good-Infos h n c q r g)

pub Good-Distinct :
    (h : Store) (n c : ℕ) (q r : List Entry) → Good h n c (q ++ r) → Distinct (addrs q)
Good-Distinct h n c [] r g = tt
Good-Distinct h n c (e ∷ q) r ((i, apart, lt, cl), g) =
    let split : has e.addr (addrs (q ++ r)) ≡ (has e.addr (addrs q) || has e.addr (addrs r)) =
      rw (addrs-append q r) (has-append e.addr (addrs q) (addrs r)) in
    (ground (arith, split, apart), Good-Distinct h n c q r g)

-- An address that was not given out belongs to no student.
pub Good-new : (h : Store) (n c : ℕ) (l : List Entry) → Good h n c l → has n (addrs l) ≡ false
Good-new h n c [] g = refl
Good-new h n c (e ∷ l) ((i, apart, lt, cl), g) = ground (arith, Good-new h n c l g, lt)
