-- ===== src/Exercises.antt =====
-- Lab3/fibonacci.c, Lab3/split_array.c, Lab4/strip.c, Lab4/truncate.c, Lab4/compare.c and Lab2/phone.c: single functions.
-- Strings are the bytes before their terminator; `none` is an access outside an array. Fibonacci
-- numbers are unbounded: an `int` holds those below 2^31.
pub mod Results
pub mod Greeting
mod Tests
use csc.Common.{
  ℕ, zero, suc, ◌+◌, ◌-◌, ◌/◌, ◌%◌, ◌>>=◌, true, false, Option, none, some, List, [], ◌∷◌, ltb, leb,
  ◌==◌, if◌then◌else◌, length, get_or, set, take, replicate, Bytes, str_eq,
}
use mathlib.Core.List.{reverse}

-- The loop of `fib`: rounds left, `t1` and `t2`; the rest of the array.
unfoldable pub fib_from : ℕ → ℕ → ℕ → List ℕ
fib_from zero t1 t2 = []
fib_from (suc n) t1 t2 = t1 ∷ fib_from n t2 (t1 + t2)

unfoldable pub fib : ℕ → List ℕ
fib n = fib_from n 0 1

-- while (s[end_mark] == '?'), from the end on: the counter and what is left, the last byte first.
unfoldable pub strip_back : Bytes → Option (ℕ × Bytes)
strip_back [] = none
strip_back (c ∷ back) = elim (c == 63) [
  | true ↦ strip_back back >>= λ (r : ℕ × Bytes). some (suc r.0, r.1)
  | false ↦ some (0, c ∷ back)
]

unfoldable pub strip_q_marks : Bytes → Option (ℕ × Bytes)
strip_q_marks s = strip_back (reverse s) >>= λ (r : ℕ × Bytes). some (r.0, reverse r.1)

unfoldable pub truncate : Bytes → ℕ → ℕ × Bytes
truncate s n = if leb (length s) n then (0, s) else (length s - n, take n s)

pub data Comparison : Type 0 where
  same : Comparison
  different : Comparison
  invalid : Comparison

-- `main` of Lab4/compare.c, on its arguments.
unfoldable pub compare_arguments : List Bytes → Comparison
compare_arguments [] = invalid
compare_arguments (a ∷ []) = invalid
compare_arguments (a ∷ b ∷ []) = if str_eq a b then same else different
compare_arguments (a ∷ b ∷ c ∷ l) = invalid

-- What Lab2/phone.c prints for an integer, which is -1 or not negative; `none` is ERROR.
unfoldable pub phone : Bytes → Option ℕ → Option Bytes
phone digits none = some digits
phone digits (some flag) = if leb flag 9 then some (get_or digits flag 0 ∷ []) else none

-- The loop of `split_array`, from the index `i` on, over the two arrays.
unfoldable pub split_from : List ℕ → ℕ → List ℕ → List ℕ → Option (List ℕ × List ℕ)
split_from [] i even odd = some (even, odd)
split_from (x ∷ s) i even odd = elim (i % 2 == 0) [
  | true ↦ elim (ltb (i / 2) (length even)) [
    | true ↦ split_from s (i + 1) (set even (i / 2) x) odd
    | false ↦ none
  ]
  | false ↦ elim (ltb (i / 2) (length odd)) [
    | true ↦ split_from s (i + 1) even (set odd (i / 2) x)
    | false ↦ none
  ]
]

-- What the arrays hold at first is `uninitialised`.
unfoldable pub split_array : ℕ → List ℕ → Option (List ℕ × List ℕ)
split_array uninitialised s =
    split_from s 0 (replicate (length s / 2) uninitialised)
      (replicate (length s / 2 + length s % 2) uninitialised)
