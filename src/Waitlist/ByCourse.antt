-- ===== src/Waitlist/ByCourse.antt =====
-- A2/hcq.c: those who wait for one course, among all who wait.
use csc.Common.{
  ℕ, ◌≡◌, refl, inl, inr, true, false, List, [], ◌∷◌, ◌++◌, arith, ◌==◌, ==_iff, Bool-cases,
}
use csc.Waitlist.View.{Entry, addrs, of}
use csc.Waitlist.Links.{has, has-apart, Distinct}
use csc.Waitlist.Good.{==_comm}

pub of-append : (k : ℕ) (q r : List Entry) → of k (q ++ r) ≡ of k q ++ of k r
of-append k [] r = refl
of-append k (e ∷ q) r = elim (Bool-cases (e.course == k)) [
  | inl p ↦ rw (p, of-append k q r) refl
  | inr p ↦ rw (p, of-append k q r) refl
]

pub of-other :
    (k : ℕ) (q : List Entry) (e : Entry) (r : List Entry)
    → (k == e.course) ≡ false
    → of k (q ++ e ∷ r) ≡ of k (q ++ r)
of-other k q e r d =
    let miss : (e.course == k) ≡ false = ground (arith, d) in
    rw (of-append k q (e ∷ r), of-append k q r, miss) refl

-- Who waits for the course waits.
pub has-of : (k a : ℕ) (q : List Entry) → has a (addrs (of k q)) ≡ true → has a (addrs q) ≡ true
has-of k a [] h = h
has-of k a (e ∷ q) h = elim (Bool-cases (e.course == k)) [
  | inl p ↦ let rest = has-of k a q in ground (arith, h, p, rest)
  | inr p ↦ let rest = has-of k a q in ground (arith, h, p, rest)
]

pub has-of_absent :
    (k a : ℕ) (q : List Entry) → has a (addrs q) ≡ false → has a (addrs (of k q)) ≡ false
has-of_absent k a q h = let there = has-of k a q in ground (arith, there, h)

pub of-Distinct : (k : ℕ) (q : List Entry) → Distinct (addrs q) → Distinct (addrs (of k q))
of-Distinct k [] d = tt
of-Distinct k (e ∷ q) (d, ds) = elim (Bool-cases (e.course == k)) [
  | inl p ↦ rw p (has-of_absent k e.addr q d, of-Distinct k q ds)
  | inr p ↦ rw p (of-Distinct k q ds)
]

-- No student waits for two courses.
pub of-apart :
    (k j a : ℕ) (q : List Entry)
    → Distinct (addrs q)
    → (k == j) ≡ false
    → has a (addrs (of k q)) ≡ true
    → has a (addrs (of j q)) ≡ false
of-apart k j a [] d n h = refl
of-apart k j a (e ∷ q) (d, ds) n h = elim (Bool-cases (e.course == k)) [
  | inl p ↦
      let miss : (e.course == j) ≡ false = ground (arith, p, n) in
      elim (Bool-cases (a == e.addr)) [
        | inl s ↦
            let here : a ≡ e.addr = (==_iff a e.addr).0 s in
            rw (miss, here) (has-of_absent j e.addr q d)
        | inr s ↦ rw miss (of-apart k j a q ds n (ground (arith, h, p, s)))
      ]
  | inr p ↦
      let later : has a (addrs (of k q)) ≡ true = ground (arith, h, p) in
      let rest = of-apart k j a q ds n later in
      elim (Bool-cases (e.course == j)) [
        | inl c ↦
            let there = has-of k a q later in
            rw c (ground (arith, rest, has-apart (addrs q) e.addr a d there, ==_comm a e.addr))
        | inr c ↦ rw c rest
      ]
]
