-- ===== src/Password/Tests.antt =====
-- Lab8/validate.c: runs on a small file, and an instance of the theorem.
use csc.Common.{
  ◌≡◌, refl, some, List, [], ◌∷◌, ◌++◌, arith, replicate, Bytes, codes, strcmp, str_eq,
}
use csc.Newline.{lf, cstr}
use csc.Index.{fgets_upto, chop}
use csc.Index.Storage.{NoBreak}
use csc.Password.{without_newline, find_line, validate}
use csc.Password.Lookup.{NoColon, Entry, file_of, code_of, find_line-code_of}

abbrev entries : List Entry
entries =
    record { user = codes "al"; password = codes "x" }
    ∷ record { user = codes "al"; password = codes "y" }
    ∷ []

right_password : validate (codes "al" ++ lf ∷ []) (codes "x") (file_of entries) ≡ some 0
unfolding validate fgets_upto find_line without_newline chop cstr str_eq strcmp
right_password = refl

wrong_password : validate (codes "al") (codes "y") (file_of entries) ≡ some 2
unfolding validate fgets_upto find_line without_newline chop cstr str_eq strcmp
wrong_password = refl

no_such_user : validate (codes "a") (codes "x") (file_of entries) ≡ some 3
unfolding validate fgets_upto find_line without_newline chop cstr str_eq strcmp
no_such_user = refl

-- A line of 31 bytes is split, and what is left of it passes for an entry of "al".
abbrev long_line : Bytes
long_line = replicate 30 97 ++ codes "al:x" ++ lf ∷ []

split_line : validate (codes "al") (codes "x") long_line ≡ some 0
unfolding validate fgets_upto find_line without_newline chop cstr str_eq strcmp
split_line = refl

al-NoColon : NoColon (codes "al")
al-NoColon = (λ e. ground (arith, e), (λ e. ground (arith, e), tt))

line-NoBreak : NoBreak (codes "al:x")
line-NoBreak = (
  λ e. ground (arith, e),
  λ e. ground (arith, e),
  (
    λ e. ground (arith, e),
    λ e. ground (arith, e),
    (
      λ e. ground (arith, e),
      λ e. ground (arith, e),
      (λ e. ground (arith, e), λ e. ground (arith, e), tt),
    ),
  ),
)

find_line-code_of_example :
    find_line (codes "al:x") 3 5 (file_of (record { user = codes "al"; password = codes "x" } ∷ []))
    ≡ some
        (code_of (codes "al") (codes "x") (record { user = codes "al"; password = codes "x" } ∷ []))
find_line-code_of_example =
    find_line-code_of (codes "al") (codes "x")
      (record { user = codes "al"; password = codes "x" } ∷ []) al-NoColon
      (al-NoColon, line-NoBreak, omega arith, tt)
