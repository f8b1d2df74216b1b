-- ===== src/Index/Storage.antt =====
-- A3/freq_list.c: what `write_list` stores, `read_list` reads back.
use csc.Common.{
  ℕ, zero, suc, ◌+◌, ◌-◌, ◌≤◌, ◌<◌, ◌≡◌, refl, sym, ap, subst, ◌∙◌, ◌>>=◌, >>=-some, >>=-none, ◌≢◌,
  inl, inr, false, Option, none, some, List, [], ◌∷◌, ◌++◌, arith, ◌==◌, if◌then◌else◌, Bool-cases,
  length, replicate, length-append, Bytes,
}
use mathlib.Core.List.{append_assoc, append-nil}
use csc.Newline.{lf, cstr}
use csc.Index.{
  Node, maxfiles, maxline, init_filenames, print_names, write_list, fgets_upto, chop, put,
  read_names, read_nodes, read_list,
}

-- A name that one `fgets` reads whole: no '\n', no NUL, at most 1022 bytes.
abbrev pub NoBreak : Bytes → Type 0
NoBreak [] = Unit {0}
NoBreak (c ∷ f) = (c ≢ lf) × (c ≢ 0) × NoBreak f

abbrev pub Plain : List Bytes → Type 0
Plain [] = Unit {0}
Plain (f ∷ fs) = NoBreak f × (length f < maxline - 1) × Plain fs

-- An array with the names `fs` and then `k` times NULL.
abbrev pub array_of : List Bytes → ℕ → List (Option Bytes)
array_of [] k = replicate k none
array_of (f ∷ fs) k = some f ∷ array_of fs k

abbrev text : List Bytes → Bytes
text [] = []
text (f ∷ fs) = f ++ lf ∷ text fs

print_names-array_of : (fs : List Bytes) (k : ℕ) → print_names (array_of fs k) ≡ text fs
unfolding print_names
print_names-array_of [] zero = refl
print_names-array_of [] (suc k) = refl
print_names-array_of (f ∷ fs) k = ap (λ t. f ++ lf ∷ t) (print_names-array_of fs k)

read_nodes_lem : (linked file : List Node) → read_nodes linked file ≡ linked ++ file
unfolding read_nodes
read_nodes_lem linked [] = sym (append-nil linked)
read_nodes_lem linked (n ∷ file) =
    read_nodes_lem (linked ++ n ∷ []) file ∙ append_assoc linked (n ∷ []) file

pub fgets_upto-line :
    (n : ℕ) (f rest : Bytes)
    → NoBreak f
    → length f < n
    → fgets_upto n (f ++ lf ∷ rest) ≡ (f ++ lf ∷ [], rest)
unfolding fgets_upto
fgets_upto-line zero f rest h l = ground (arith, l)
fgets_upto-line (suc n) [] rest h l = refl
fgets_upto-line (suc n) (c ∷ f) rest (p, q, h) l =
    ground (arith, p, fgets_upto-line n f rest h (omega (arith, l)))

pub cstr-line : (f : Bytes) → NoBreak f → cstr (f ++ lf ∷ []) ≡ f ++ lf ∷ []
unfolding cstr
cstr-line [] h = refl
cstr-line (zero ∷ f) (p, q, h) = absurd (q refl)
cstr-line (suc c ∷ f) (p, q, h) = ap (λ l. suc c ∷ l) (cstr-line f h)

pub chop-line : (f : Bytes) → chop (f ++ lf ∷ []) ≡ some f
unfolding chop
chop-line [] = refl
chop-line (c ∷ []) = refl
chop-line (c ∷ d ∷ f) = rw (chop-line (d ∷ f)) refl

put-next :
    (done : List Bytes) (f : Bytes) (k : ℕ)
    → put (array_of done (suc k)) (length done) f ≡ some (array_of (done ++ f ∷ []) k)
put-next [] f k = ground arith
put-next (g ∷ done) f k = ground (arith, put-next done f k)

read_names-done :
    (fuel : ℕ) (i : ℕ) (names : List (Option Bytes)) → read_names fuel [] i names ≡ some names
unfolding read_names
read_names-done zero i names = refl
read_names-done (suc fuel) i names = refl

-- One round: a name and its '\n'.
read_names-line :
    (fuel : ℕ) (f rest : Bytes) (i : ℕ) (names : List (Option Bytes))
    → NoBreak f
    → length f < maxline - 1
    → read_names (suc fuel) (f ++ lf ∷ rest) i names ≡ (
        put names i f >>= λ named.
        if i + 1 == maxfiles then none else read_names fuel rest (i + 1) named)
unfolding read_names
read_names-line fuel [] rest i names h l =
    rw (fgets_upto-line (maxline - 1) [] rest h l, cstr-line [] h, chop-line []) refl
read_names-line fuel (c ∷ f) rest i names h l =
    rw (fgets_upto-line (maxline - 1) (c ∷ f) rest h l, cstr-line (c ∷ f) h, chop-line (c ∷ f)) refl

pub length-line : (f rest : Bytes) → length (f ++ lf ∷ rest) ≡ suc (length f + length rest)
length-line f rest = omega (arith, length-append f (lf ∷ rest))

read_names-lines :
    (fuel : ℕ) (fs done : List Bytes) (k : ℕ)
    → length (text fs) ≤ fuel
    → Plain fs
    → length done + length fs < maxfiles
    → length fs ≤ k
    → read_names fuel (text fs) (length done) (array_of done k)
      ≡ some (array_of (done ++ fs) (k - length fs))
read_names-lines fuel [] done k h p m l =
    read_names-done fuel (length done) (array_of done k)
    ∙ ap (λ d. some (array_of d k)) (sym (append-nil done))
    ∙ ap (λ j. some (array_of (done ++ []) j)) (omega arith)
read_names-lines fuel (f ∷ fs) done zero h p m l = ground (arith, l)
read_names-lines zero (f ∷ fs) done (suc k) h p m l = ground (arith, h, length-line f (text fs))
read_names-lines (suc fuel) (f ∷ fs) done (suc k) h (n, w, p) m l =
    let next : length (done ++ f ∷ []) ≡ length done + 1 = length-append done (f ∷ []) in
    let rest : read_names fuel (text fs) (length done + 1) (array_of (done ++ f ∷ []) k)
        ≡ some (array_of (done ++ f ∷ fs) (k - length fs)) =
      subst
        (λ i.
          read_names fuel (text fs) i (array_of (done ++ f ∷ []) k)
          ≡ some (array_of (done ++ f ∷ fs) (k - length fs)))
        next
        (read_names-lines fuel fs (done ++ f ∷ []) k (omega (arith, h, length-line f (text fs))) p
            (omega (arith, m, next)) (omega (arith, l))
          ∙ ap (λ d. some (array_of d (k - length fs))) (append_assoc done (f ∷ []) fs)) in
    let small : (length done + 1 == maxfiles) ≡ false = ground (arith, m) in
    read_names-line fuel f (text fs) (length done) (array_of done (suc k)) n w
    ∙ >>=-some _ (put-next done f k)
        (rw small (rest ∙ ap (λ j. some (array_of (done ++ f ∷ fs) j)) (omega arith)))

read_names-too_many :
    (fuel : ℕ) (fs done : List Bytes) (k : ℕ)
    → length (text fs) ≤ fuel
    → Plain fs
    → length done < maxfiles
    → maxfiles ≤ length done + length fs
    → length fs ≤ k
    → read_names fuel (text fs) (length done) (array_of done k) ≡ none
read_names-too_many fuel [] done k h p m m' l = ground (arith, m, m')
read_names-too_many fuel (f ∷ fs) done zero h p m m' l = ground (arith, l)
read_names-too_many zero (f ∷ fs) done (suc k) h p m m' l =
    ground (arith, h, length-line f (text fs))
read_names-too_many (suc fuel) (f ∷ fs) done (suc k) h (n, w, p) m m' l =
    let next : length (done ++ f ∷ []) ≡ length done + 1 = length-append done (f ∷ []) in
    read_names-line fuel f (text fs) (length done) (array_of done (suc k)) n w
    ∙ >>=-some _ (put-next done f k) (elim (Bool-cases (length done + 1 == maxfiles)) [
      | inl e ↦ rw e refl
      | inr e ↦ rw e (
          subst (λ i. read_names fuel (text fs) i (array_of (done ++ f ∷ []) k) ≡ none) next
            (read_names-too_many fuel fs (done ++ f ∷ []) k
              (omega (arith, h, length-line f (text fs))) p (ground (arith, m, next, e))
              (omega (arith, m', next)) (omega (arith, l))))
    ])

-- What `write_list` stores, with fewer than 50 files of printable names, `read_list` reads back.
pub read_list-write_list :
    (head : List Node) (fs : List Bytes)
    → Plain fs
    → length fs < maxfiles
    → (let (listfile, namefile) = write_list head (array_of fs (maxfiles - length fs)) in
        read_list listfile namefile init_filenames)
      ≡ some (head, array_of fs (maxfiles - length fs))
unfolding write_list read_list init_filenames
read_list-write_list head fs p m = rw (print_names-array_of fs (maxfiles - length fs)) (
    >>=-some _
      (read_names-lines (length (text fs)) fs [] maxfiles (omega arith) p (omega (arith, m))
        (omega (arith, m)))
      (ap (λ l. some (l, array_of fs (maxfiles - length fs))) (read_nodes_lem [] head)))

-- An index over 50 files is stored, and cannot be read back: `read_list` ends the program.
pub read_list-too_many :
    (head : List Node) (fs : List Bytes)
    → Plain fs
    → length fs ≡ maxfiles
    → (let (listfile, namefile) = write_list head (array_of fs 0) in
        read_list listfile namefile init_filenames)
      ≡ none
unfolding write_list read_list init_filenames
read_list-too_many head fs p m = rw (print_names-array_of fs 0) (
    >>=-none _ (
      read_names-too_many (length (text fs)) fs [] maxfiles (omega arith) p (omega arith)
        (omega (arith, m)) (omega (arith, m))))
