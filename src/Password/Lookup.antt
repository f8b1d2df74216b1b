-- ===== src/Password/Lookup.antt =====
-- Lab8/validate.c: what the loop over the file finds.
use csc.Common.{
  ℕ, zero, suc, ◌-◌, ◌≤◌, ◌<◌, ◌≡◌, refl, ◌∙◌, ◌≢◌, inl, inr, ◌&&◌, some, List, [], ◌∷◌, ◌++◌,
  arith, if◌then◌else◌, Bool-cases, length, Bytes, strcmp, str_eq,
}
use csc.Newline.{lf}
use csc.Index.Storage.{NoBreak, fgets_upto-line, length-line, cstr-line, chop-line}
use csc.Password.{maxline, strn_eq, find_line}

abbrev pub NoColon : Bytes → Type 0
NoColon [] = Unit {0}
NoColon (c ∷ u) = (c ≢ 58) × NoColon u

str_eq-pair :
    (u v p q : Bytes)
    → NoColon u
    → NoColon v
    → str_eq (u ++ 58 ∷ p) (v ++ 58 ∷ q) ≡ (str_eq u v && str_eq p q)
unfolding str_eq strcmp
str_eq-pair [] [] p q h k = refl
str_eq-pair [] (d ∷ v) p q h (n, k) = ground (arith, n)
str_eq-pair (c ∷ u) [] p q (n, h) k = ground (arith, n)
str_eq-pair (c ∷ u) (d ∷ v) p q (n, h) (m, k) = ground (arith, str_eq-pair u v p q h k)

strn_eq-user :
    (u v p q : Bytes)
    → NoColon u
    → NoColon v
    → strn_eq (u ++ 58 ∷ p) (v ++ 58 ∷ q) (suc (length u)) ≡ str_eq u v
unfolding str_eq strcmp
strn_eq-user [] [] p q h k = refl
strn_eq-user [] (d ∷ v) p q h (n, k) = ground (arith, n)
strn_eq-user (c ∷ u) [] p q (n, h) k = ground (arith, n)
strn_eq-user (c ∷ u) (d ∷ v) p q (n, h) (m, k) = ground (arith, strn_eq-user u v p q h k)

-- Entries of a password file, and the file that holds them, each on a line.
pub record Entry : Type 0 where
  pub user : Bytes
  pub password : Bytes

abbrev pub line_of : Entry → Bytes
line_of e = e.user ++ 58 ∷ e.password

abbrev pub file_of : List Entry → Bytes
file_of [] = []
file_of (e ∷ es) = line_of e ++ lf ∷ file_of es

-- A line has at most 30 bytes, its '\n' included.
abbrev pub Plain : List Entry → Type 0
Plain [] = Unit {0}
Plain (e ∷ es) =
    NoColon e.user × NoBreak (line_of e) × (length (line_of e) < maxline - 2) × Plain es

-- 0 or 2 by the first entry of the user, 3 if there is none.
abbrev pub code_of : Bytes → Bytes → List Entry → ℕ
code_of u p [] = 3
code_of u p (e ∷ es) =
    let rest = code_of u p es in
    if str_eq u e.user then (if str_eq p e.password then 0 else 2) else rest

-- One round, on a line that is read whole.
find_line-line :
    (userid : Bytes) (user_length fuel : ℕ) (l file : Bytes)
    → NoBreak l
    → length l < maxline - 2
    → find_line userid user_length (suc fuel) (l ++ lf ∷ file) ≡ (
        if str_eq userid l
        then some 0
        else if strn_eq userid l user_length
        then some 2
        else find_line userid user_length fuel file)
unfolding find_line
find_line-line userid user_length fuel [] file b w =
    rw (fgets_upto-line (maxline - 2) [] file b w, cstr-line [] b, chop-line []) refl
find_line-line userid user_length fuel (c ∷ l) file b w =
    rw (fgets_upto-line (maxline - 2) (c ∷ l) file b w, cstr-line (c ∷ l) b, chop-line (c ∷ l)) refl

find_line-end :
    (userid : Bytes) (user_length fuel : ℕ) → find_line userid user_length fuel [] ≡ some 3
unfolding find_line
find_line-end userid user_length zero = refl
find_line-end userid user_length (suc fuel) = refl

find_line-entries :
    (u p : Bytes) (es : List Entry) (fuel : ℕ)
    → NoColon u
    → Plain es
    → length (file_of es) ≤ fuel
    → find_line (u ++ 58 ∷ p) (suc (length u)) fuel (file_of es) ≡ some (code_of u p es)
find_line-entries u p [] fuel h k l = find_line-end (u ++ 58 ∷ p) (suc (length u)) fuel
find_line-entries u p (e ∷ es) zero h k l =
    absurd (omega (arith, l, length-line (line_of e) (file_of es)))
find_line-entries u p (e ∷ es) (suc fuel) h (c, b, w, k) l =
    let further =
      find_line-entries u p es fuel h k (omega (arith, l, length-line (line_of e) (file_of es))) in
    find_line-line (u ++ 58 ∷ p) (suc (length u)) fuel (line_of e) (file_of es) b w
    ∙ rw (str_eq-pair u e.user p e.password h c, strn_eq-user u e.user p e.password h c)
        (elim (Bool-cases (str_eq u e.user)) [
          | inr q ↦ rw q further
          | inl q ↦ elim (Bool-cases (str_eq p e.password)) [
            | inl r ↦ rw (q, r) refl
            | inr r ↦ rw (q, r) refl
          ]
        ])

-- The loop over the file, for a user without ':' and a file of lines of at most 30 bytes, their '\n'
-- included, each an entry without NUL or '\n' and with no ':' in its user: the exit code is that of the
-- first entry of the user. The length of the file is enough fuel.
pub find_line-code_of :
    (u p : Bytes) (es : List Entry)
    → NoColon u
    → Plain es
    → find_line (u ++ 58 ∷ p) (suc (length u)) (length (file_of es)) (file_of es)
      ≡ some (code_of u p es)
find_line-code_of u p es h k = find_line-entries u p es (length (file_of es)) h k (omega arith)
