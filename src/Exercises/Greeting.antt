-- ===== src/Exercises/Greeting.antt =====
-- Lab4/greeting.c: the greeting, in an array of 20 bytes.
use csc.Common.{
  ℕ, zero, suc, ◌-◌, ◌≤◌, ◌≡◌, refl, sym, ap, ◌∙◌, ◌>>=◌, inl, inr, Option, none, some, [], ◌∷◌,
  ◌++◌, arith, ltb, if◌then◌else◌, Bool-cases, length, take, length-take, Bytes, codes,
}

-- strncpy(greeting, message, 20), which ends the string only where there is room; `none` is a string
-- that does not end in the array, of which the next `strlen` reads what follows.
unfoldable pub copy_message : Bytes → Option Bytes
copy_message message = if ltb (length message) 20 then some message else none

-- strncat(greeting, text, 19-strlen(greeting))
unfoldable pub append_text : Bytes → Bytes → Bytes
append_text greeting text = greeting ++ take (19 - length greeting) text

unfoldable pub greeting : Bytes → Bytes → Option Bytes
greeting message name =
    copy_message message >>= λ g. some (append_text (append_text g (codes " ")) name)

take-append_more :
    (n : ℕ) (l r : Bytes) → length l ≤ n → take n (l ++ r) ≡ l ++ take (n - length l) r
take-append_more n [] r h = let same : n - 0 ≡ n = omega arith in rw same refl
take-append_more zero (x ∷ l) r h = ground (arith, h)
take-append_more (suc n) (x ∷ l) r h =
    let less : suc n - suc (length l) ≡ n - length l = omega arith in
    rw less (ap (λ k. x ∷ k) (take-append_more n l r (omega (arith, h))))

append_text-take : (g text : Bytes) → length g ≤ 19 → append_text g text ≡ take 19 (g ++ text)
unfolding append_text
append_text-take g text h = sym (take-append_more 19 g text h)

take-take_append : (n : ℕ) (l r : Bytes) → take n (take n l ++ r) ≡ take n (l ++ r)
take-take_append zero l r = refl
take-take_append (suc n) [] r = refl
take-take_append (suc n) (x ∷ l) r = ap (λ k. x ∷ k) (take-take_append n l r)

-- The greeting is the message, a space and the name, as much as fits in 19 bytes; a message of 20
-- bytes or more is read past the array, the example "Top of the morning to you" among them.
pub greeting_lem :
    (message name : Bytes)
    → greeting message name
      ≡ (if ltb (length message) 20 then some (take 19 ((message ++ codes " ") ++ name)) else none)
unfolding greeting copy_message
greeting_lem message name = elim (Bool-cases (ltb (length message) 20)) [
  | inr p ↦ rw p refl
  | inl p ↦
      let short : length message ≤ 19 = ground (arith, p) in
      let one = append_text-take message (codes " ") short in
      let fits : length (take 19 (message ++ codes " ")) ≤ 19 =
        omega (arith, length-take 19 (message ++ codes " ")) in
      rw p (
        ap some (
          ap (λ g. append_text g name) one
          ∙ append_text-take (take 19 (message ++ codes " ")) name fits
          ∙ take-take_append 19 (message ++ codes " ") name))
]
