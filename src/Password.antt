-- ===== src/Password.antt =====
-- Lab8/validate.c: the check of a user and a password against a file. What the two reads deliver (at
-- most 10 bytes each) and the bytes of the password file are arguments.
pub mod Lookup
mod Tests
use csc.Common.{
  ℕ, zero, suc, ◌-◌, ◌>>=◌, Bool, Option, none, some, [], ◌∷◌, ◌++◌, ◌==◌, if◌then◌else◌, length,
  take, Bytes, str_eq,
}
use csc.Newline.{lf, cstr}
use csc.Index.{fgets_upto, chop}

-- MAXLINE
abbrev pub maxline : ℕ
maxline = 32

-- The string up to its first '\n'.
unfoldable pub without_newline : Bytes → Bytes
without_newline [] = []
without_newline (c ∷ s) = let rest = without_newline s in if c == lf then [] else c ∷ rest

-- strncat(s, t, n)
abbrev pub strncat : Bytes → Bytes → ℕ → Bytes
strncat s t n = s ++ take n t

-- strncmp(s, t, n) == 0
abbrev pub strn_eq : Bytes → Bytes → ℕ → Bool
strn_eq s t n = str_eq (take n s) (take n t)

-- The loop over the file, by `fgets(line, sizeof(line) - 1, fp)`, which reads at most 30 bytes: the exit
-- code; `none` is an access outside `line`. Each round takes a byte at least, so that the length of the
-- file is enough fuel.
unfoldable pub find_line : Bytes → ℕ → ℕ → Bytes → Option ℕ
find_line userid user_length fuel [] = some 3
find_line userid user_length zero (c ∷ file) = none
find_line userid user_length (suc fuel) (c ∷ file) =
    let read = fgets_upto (maxline - 2) (c ∷ file) in
    let further = find_line userid user_length fuel read.1 in
    chop (cstr read.0) >>= λ line.
    if str_eq userid line
    then some 0
    else if strn_eq userid line user_length
    then some 2
    else further

-- The exit code: 1 if a read delivers nothing.
unfoldable pub validate : Bytes → Bytes → Bytes → Option ℕ
validate [] password file = some 1
validate (c ∷ user) [] file = some 1
validate (c ∷ user) (d ∷ password) file =
    let userid = without_newline (cstr (c ∷ user)) in
    let with_colon = strncat userid (58 ∷ []) (maxline - length userid - 1) in
    let both =
      strncat with_colon (without_newline (cstr (d ∷ password)))
        (maxline - length with_colon - 1) in
    find_line both (length with_colon) (length file) file
