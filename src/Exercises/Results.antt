-- ===== src/Exercises/Results.antt =====
-- Lab3/fibonacci.c, Lab3/split_array.c, Lab4/strip.c and Lab4/truncate.c: what the functions compute.
use csc.Common.{
  ℕ, zero, suc, ◌+◌, ◌/◌, ◌%◌, ◌≤◌, ◌<◌, ◌≡◌, refl, sym, ap, ◌∙◌, ◌>>=◌, ◌≢◌, inl, inr, true, false,
  Option, none, some, List, [], ◌∷◌, ◌++◌, arith, ltb, leb, ◌==◌, leb→le, ==_iff, Bool-cases,
  length, get_or, set, take, replicate, length-set, length-take, length-replicate, Bytes, take-all,
}
use csc.Exercises.{fib, fib_from, strip_back, truncate, split_from, split_array}

abbrev pub fibonacci : ℕ → ℕ
fibonacci zero = 0
fibonacci (suc zero) = 1
fibonacci (suc (suc n)) = fibonacci n + fibonacci (suc n)

fib_from-fibonacci :
    (n i j : ℕ)
    → i < n
    → get_or (fib_from n (fibonacci j) (fibonacci (suc j))) i 0 ≡ fibonacci (i + j)
unfolding fib_from
fib_from-fibonacci zero i j h = ground (arith, h)
fib_from-fibonacci (suc n) zero j h = ap fibonacci (omega arith)
fib_from-fibonacci (suc n) (suc i) j h =
    fib_from-fibonacci n i (suc j) (omega (arith, h)) ∙ ap fibonacci (omega arith)

-- `fib` fills each place of its array with the Fibonacci number of that index.
pub fib-fibonacci : (n i : ℕ) → i < n → get_or (fib n) i 0 ≡ fibonacci i
unfolding fib
fib-fibonacci n i h = fib_from-fibonacci n i 0 h ∙ ap fibonacci (omega arith)

length-fib_from : (n a b : ℕ) → length (fib_from n a b) ≡ n
unfolding fib_from
length-fib_from zero a b = refl
length-fib_from (suc n) a b = ap suc (length-fib_from n b (a + b))

-- `truncate` takes off what it says, and leaves at most `n` bytes, which start the string.
pub truncate_lem :
    (s : Bytes) (n : ℕ)
    → (length (truncate s n).1 + (truncate s n).0 ≡ length s)
      × (length (truncate s n).1 ≤ n)
      × ((truncate s n).1 ≡ take n s)
unfolding truncate
truncate_lem s n = elim (Bool-cases (leb (length s) n)) [
  | inl e ↦ rw e (omega arith, leb→le _ _ e, sym (take-all n s (leb→le _ _ e)))
  | inr e ↦
      let more : n < length s = ground (arith, e) in
      rw e (omega (arith, more, length-take n s), omega (arith, more, length-take n s), refl)
]

-- `k` times '?'
abbrev pub marks : ℕ → List ℕ
marks k = replicate k 63

pub data Stripped (s : Bytes) : Option (ℕ × Bytes) → Type 0 where
  only_marks : (k : ℕ) → s ≡ marks k → Stripped s none
  stripped :
      (k c : ℕ) (back : Bytes) → c ≢ 63 → s ≡ marks k ++ c ∷ back → Stripped s (some (k, c ∷ back))

-- From the end on, `strip_q_marks` counts and removes exactly the '?' before the first other byte; a
-- string of '?' only makes it read in front of the array.
pub strip_back-Stripped : (back : Bytes) → Stripped back (strip_back back)
unfolding strip_back
strip_back-Stripped [] = only_marks 0 refl
strip_back-Stripped (c ∷ back) = elim (Bool-cases (c == 63)) [
  | inl e ↦ rw (e, strip_back) (go ((==_iff c 63).0 e) (strip_back-Stripped back))
  | inr e ↦ rw (e, strip_back) (stripped 0 c back (λ q. ground (arith, e, q)) refl)
]
  where
    go :
        {o : Option (ℕ × Bytes)}
        → c ≡ 63
        → Stripped back o
        → Stripped (c ∷ back) (o >>= λ (r : ℕ × Bytes). some (suc r.0, r.1))
    go e (only_marks k q) = only_marks (suc k) (ground (arith, e, q))
    go e (stripped k d rest n q) = stripped (suc k) d rest n (ground (arith, e, q))

split_from-odd :
    (x : ℕ) (s : List ℕ) (i : ℕ) (even odd : List ℕ)
    → (i + length (x ∷ s)) % 2 ≡ 1
    → length even ≡ (i + length (x ∷ s)) / 2
    → split_from (x ∷ s) i even odd ≡ none
unfolding split_from
split_from-odd x [] i even odd h k =
    let at_even : (i % 2 == 0) ≡ true = ground (arith, h) in
    let full : ltb (i / 2) (length even) ≡ false = ground (arith, h, k) in
    rw (at_even, full, split_from) refl
split_from-odd x (y ∷ s) i even odd h k = elim (Bool-cases (i % 2 == 0)) [
  | inl e ↦ elim (Bool-cases (ltb (i / 2) (length even))) [
    | inr q ↦ rw (e, q, split_from) refl
    | inl q ↦
        rw (e, q, split_from)
          (split_from-odd y s (i + 1) (set even (i / 2) x) odd (omega (arith, h))
            (omega (arith, k, length-set even (i / 2) x)))
  ]
  | inr e ↦ elim (Bool-cases (ltb (i / 2) (length odd))) [
    | inr q ↦ rw (e, q, split_from) refl
    | inl q ↦
        rw (e, q, split_from)
          (split_from-odd y s (i + 1) even (set odd (i / 2) x) (omega (arith, h))
            (omega (arith, k)))
  ]
]

-- On an array of odd length `split_array` writes outside one of its two arrays.
pub split_array-odd :
    (uninitialised : ℕ) (s : List ℕ) → length s % 2 ≡ 1 → split_array uninitialised s ≡ none
unfolding split_array
split_array-odd uninitialised [] h = ground (arith, h)
split_array-odd uninitialised (x ∷ s) h =
    split_from-odd x s 0 _ _ (omega (arith, h))
      (omega (arith, length-replicate (length (x ∷ s) / 2) uninitialised))
