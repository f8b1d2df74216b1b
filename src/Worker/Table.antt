-- ===== src/Worker/Table.antt =====
-- A3/worker.c and A3/query.c: the order of the table.
use csc.Common.{
  ℕ, zero, suc, ◌+◌, ◌≤◌, ◌<◌, ◌≡◌, refl, ap, ◌⊎◌, inl, inr, false, Option, none, some, List, arith,
  ltb, leb, ◌==◌, ltb→lt, leb→le, ==_iff, Bool-cases,
}
use csc.Worker.{FreqRecord, freq_at, first_below}

pub order : (a b : ℕ) → (a < b) ⊎ (a ≡ b) ⊎ (b < a)
order a b = elim (Bool-cases (ltb a b)) [
  | inl e ↦ inl (ltb→lt a b e)
  | inr e ↦ elim (Bool-cases (a == b)) [
    | inl q ↦ inr (inl ((==_iff a b).0 q))
    | inr q ↦ inr (inr (ground (arith, e, q)))
  ]
]

-- The `n` counts descend, but for the last two, which ascend.
pub record Ranked (f : ℕ → ℕ) (n : ℕ) : Type 0 where
  pub descends : (i j : ℕ) → i < j → suc j < n → f j ≤ f i
  pub last_two : (m : ℕ) → n ≡ suc (suc m) → f m < f (suc m)
  pub above : (i m : ℕ) → n ≡ suc (suc m) → i < m → f (suc m) ≤ f i

-- `c` stands at `p`, what was there and behind is one further.
pub record Moved (f g : ℕ → ℕ) (n p c : ℕ) : Type 0 where
  pub low : (j : ℕ) → j < p → g j ≡ f j
  pub here : g p ≡ c
  pub high : (j : ℕ) → p ≤ j → j < n → g (suc j) ≡ f j

module _ (f g : ℕ → ℕ) (m p c : ℕ) (v : Moved f g (suc (suc m)) p c) (r : Ranked f (suc (suc m)))
    (inside : p < suc m) (at_least : f p ≤ c) (less : (i : ℕ) → i < p → c < f i)
    (more : f (suc m) < c) where
  behind-Moved : (i j : ℕ) → p < i → i < suc j → j < suc m → g (suc j) ≤ g i
  behind-Moved zero j b h k = ground (arith, b)
  behind-Moved (suc i) j b h k = omega (
    arith,
    v.high i (omega (arith, b)) (omega (arith, h, k)),
    v.high j (omega (arith, b, h)) (omega (arith, k)),
    r.descends i j (omega (arith, h)) (omega (arith, k)),
  )

  at_place-Moved : (j : ℕ) → p ≤ j → j < suc m → f j ≤ c
  at_place-Moved j h k = elim (order p j) [
    | inl a ↦ omega (arith, at_least, r.descends p j a (omega (arith, k)))
    | inr (inl a) ↦ omega (arith, at_least, ap f a)
    | inr (inr a) ↦ ground (arith, h, a)
  ]

  descends-Moved : (i j : ℕ) → i < j → suc j < suc (suc (suc m)) → g j ≤ g i
  descends-Moved i zero h k = ground (arith, h)
  descends-Moved i (suc j) h k = elim (order (suc j) p) [
    | inl a ↦ omega (
      arith,
      v.low (suc j) a,
      v.low i (omega (arith, a, h)),
      r.descends i (suc j) h (omega (arith, a, inside)),
    )
    | inr (inl a) ↦
        omega (arith, ap g a, v.here, v.low i (omega (arith, a, h)), less i (omega (arith, a, h)))
    | inr (inr a) ↦
        let moved : g (suc j) ≡ f j = v.high j (omega (arith, a)) (omega (arith, k)) in
        elim (order i p) [
          | inl b ↦
              omega
                (arith, moved, v.low i b, r.descends i j (omega (arith, a, b)) (omega (arith, k)))
          | inr (inl b) ↦
              omega (
                arith,
                moved,
                ap g b,
                v.here,
                at_place-Moved j (omega (arith, a)) (omega (arith, k)),
              )
          | inr (inr b) ↦ behind-Moved i j b h (omega (arith, k))
        ]
  ]

  above-Moved : (i : ℕ) → i < suc m → f (suc m) ≤ g i
  above-Moved zero h = elim (order 0 p) [
    | inl b ↦ omega (arith, v.low 0 b, less 0 b, more)
    | inr (inl b) ↦ omega (arith, ap g b, v.here, more)
    | inr (inr b) ↦ ground (arith, b)
  ]
  above-Moved (suc i) h = elim (order (suc i) p) [
    | inl b ↦ omega (arith, v.low (suc i) b, less (suc i) b, more)
    | inr (inl b) ↦ omega (arith, ap g b, v.here, more)
    | inr (inr b) ↦
        omega (
          arith,
          v.high i (omega (arith, b)) (omega (arith, h)),
          r.above i m refl (omega (arith, h)),
        )
  ]

  -- A record that goes in before the last keeps the order.
  pub Ranked-Moved : Ranked g (suc (suc (suc m)))
  Ranked-Moved =
      let last : g (suc (suc m)) ≡ f (suc m) =
        v.high (suc m) (omega (arith, inside)) (omega arith) in
      let before : g (suc m) ≡ f m = v.high m (omega (arith, inside)) (omega arith) in
      record {
        descends = descends-Moved;
        last_two = λ k e.
            let same : k ≡ suc m = omega (arith, e) in
            omega (arith, last, before, r.last_two m refl, ap g same, ap (λ x. g (suc x)) same);
        above = λ i k e h.
            let same : k ≡ suc m = omega (arith, e) in
            omega (arith, last, ap (λ x. g (suc x)) same, above-Moved i (omega (arith, h, same)));
      }

-- The search for the place.
pub data Place (freq : ℕ) (array : List FreqRecord) (s n : ℕ) : Option ℕ → Type 0 where
  behind_all : ((i : ℕ) → s ≤ i → i < s + n → freq < freq_at array i) → Place freq array s n none
  before_one :
      (p : ℕ)
      → s ≤ p
      → p < s + n
      → freq_at array p ≤ freq
      → ((i : ℕ) → s ≤ i → i < p → freq < freq_at array i)
      → Place freq array s n (some p)

pub first_below-Place :
    (n s : ℕ) (array : List FreqRecord) (freq : ℕ)
    → Place freq array s n (first_below n s array freq)
unfolding first_below
first_below-Place zero s array freq = behind_all (λ i h k. ground (arith, h, k))
first_below-Place (suc n) s array freq = elim (Bool-cases (leb (freq_at array s) freq)) [
  | inl e ↦
      rw e (before_one s (omega arith) (omega arith) (leb→le _ _ e) (λ i h k. ground (arith, h, k)))
  | inr e ↦ rw e (later e (first_below-Place n (s + 1) array freq))
]
  where
    later :
        {o : Option ℕ}
        → leb (freq_at array s) freq ≡ false
        → Place freq array (s + 1) n o
        → Place freq array s (suc n) o
    later e (behind_all f) = behind_all (λ i h k. elim (order s i) [
      | inl a ↦ f i (omega (arith, a)) (omega (arith, k))
      | inr (inl a) ↦ ground (arith, e, ap (freq_at array) a)
      | inr (inr a) ↦ ground (arith, a, h)
    ])
    later e (before_one p h k l f) = before_one p (omega (arith, h)) (omega (arith, k)) l (λ i q q'.
        elim (order s i) [
          | inl a ↦ f i (omega (arith, a)) q'
          | inr (inl a) ↦ ground (arith, e, ap (freq_at array) a)
          | inr (inr a) ↦ ground (arith, a, q)
        ])
