-- ===== src/Worker/Moves.antt =====
-- A3/worker.c: how `insert` moves the records behind the place of the new one.
use csc.Common.{
  ℕ, zero, suc, ◌+◌, ◌-◌, ◌≤◌, ◌<◌, ◌≡◌, refl, sym, ap, ◌∙◌, ◌>>=◌, >>=-some, >>=-none, inl, inr,
  true, false, Option, none, some, List, arith, ltb, ◌==◌, ==_iff, Bool-cases, length, get_or, set,
  length-set, get_or-set_same, get_or-set_other,
}
use csc.Worker.{FreqRecord, get_empty_freqrecord, shift_up}

abbrev pub at : List FreqRecord → ℕ → FreqRecord
at array i = get_or array i get_empty_freqrecord

-- `k` records from `pos` on have moved one further.
record Shifted (a b : List FreqRecord) (k pos : ℕ) : Type 0 where
  same_length : length b ≡ length a
  low : (j : ℕ) → j ≤ pos → at b j ≡ at a j
  high : (j : ℕ) → pos ≤ j → j < pos + k → at b (suc j) ≡ at a j
  beyond : (j : ℕ) → pos + k < j → at b j ≡ at a j

shift_up-Shifted :
    (k pos : ℕ) (a : List FreqRecord)
    → pos + k < length a
    → (b : List FreqRecord) × (shift_up k pos a ≡ some b) × Shifted a b k pos
unfolding shift_up
shift_up-Shifted zero pos a h = (
  a,
  refl,
  record {
    same_length = refl;
    low = λ j p. refl;
    high = λ j p q. ground (arith, p, q);
    beyond = λ j p. refl;
  },
)
shift_up-Shifted (suc k) pos a h =
    let v : FreqRecord = at a (pos + k) in
    let a' : List FreqRecord = set a (suc (pos + k)) v in
    let size : length a' ≡ length a = length-set a (suc (pos + k)) v in
    let (b, e, s) = shift_up-Shifted k pos a' (omega (arith, h, size)) in
    let test : ltb (suc (pos + k)) (length a) ≡ true = ground (arith, h) in
    (
      b,
      rw test e,
      record {
        same_length = s.same_length ∙ size;
        low = λ j p.
            s.low j p
            ∙ get_or-set_other a (suc (pos + k)) j v get_empty_freqrecord
                (λ d. ground (arith, d, p));
        high = λ j p q. elim (Bool-cases (j == pos + k)) [
          | inl e' ↦
              let same : j ≡ pos + k = (==_iff j (pos + k)).0 e' in
              ap (λ x. at b (suc x)) same
              ∙ s.beyond (suc (pos + k)) (omega arith)
              ∙ get_or-set_same a (suc (pos + k)) v get_empty_freqrecord (omega (arith, h))
              ∙ sym (ap (at a) same)
          | inr e' ↦
              s.high j p (ground (arith, q, e'))
              ∙ get_or-set_other a (suc (pos + k)) j v get_empty_freqrecord
                  (λ d. ground (arith, d, q))
        ];
        beyond = λ j p.
            s.beyond j (omega (arith, p))
            ∙ get_or-set_other a (suc (pos + k)) j v get_empty_freqrecord
                (λ d. ground (arith, d, p));
      },
    )

-- A record has gone in at `p`, before the `n` - `p` records behind it.
pub record Stored (a b : List FreqRecord) (n p : ℕ) (c : FreqRecord) : Type 0 where
  pub same_length : length b ≡ length a
  pub low : (j : ℕ) → j < p → at b j ≡ at a j
  pub here : at b p ≡ c
  pub high : (j : ℕ) → p ≤ j → j < n → at b (suc j) ≡ at a j

abbrev pub put_at : List FreqRecord → FreqRecord → ℕ → ℕ → Option (List FreqRecord × ℕ)
put_at a c n p = shift_up (suc n - p) p a >>= λ b. some (set b p c, suc n)

pub put_at-Stored :
    (a : List FreqRecord) (c : FreqRecord) (n p : ℕ)
    → p ≤ n
    → suc n < length a
    → (b : List FreqRecord) × (put_at a c n p ≡ some (b, suc n)) × Stored a b n p c
put_at-Stored a c n p h k =
    let (b, e, s) = shift_up-Shifted (suc n - p) p a (omega (arith, h, k)) in
    (
      set b p c,
      >>=-some (λ b. some (set b p c, suc n)) e refl,
      record {
        same_length = length-set b p c ∙ s.same_length;
        low = λ j q.
            get_or-set_other b p j c get_empty_freqrecord (λ d. ground (arith, d, q))
            ∙ s.low j (omega (arith, q));
        here = get_or-set_same b p c get_empty_freqrecord (omega (arith, s.same_length, h, k));
        high = λ j q q'.
            get_or-set_other b p (suc j) c get_empty_freqrecord (λ d. ground (arith, d, q))
            ∙ s.high j q (omega (arith, q', h));
      },
    )

shift_up-outside :
    (r k pos : ℕ) (a : List FreqRecord)
    → r ≡ suc k
    → suc (pos + k) ≡ length a
    → shift_up r pos a ≡ none
unfolding shift_up
shift_up-outside zero k pos a e h = ground (arith, e)
shift_up-outside (suc r) k pos a e h =
    let test : ltb (suc (pos + r)) (length a) ≡ false = ground (arith, e, h) in rw test refl

pub put_at-outside :
    (a : List FreqRecord) (c : FreqRecord) (n p : ℕ)
    → p ≤ n
    → suc n ≡ length a
    → put_at a c n p ≡ none
put_at-outside a c n p h k =
    >>=-none (λ b. some (set b p c, suc n))
      (shift_up-outside (suc n - p) (n - p) p a (omega (arith, h)) (omega (arith, h, k)))
