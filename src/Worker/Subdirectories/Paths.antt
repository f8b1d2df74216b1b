-- ===== src/Worker/Subdirectories/Paths.antt =====
-- A3/query.c: which subdirectories are searched.
use csc.Common.{
  ◌+◌, ◌-◌, ◌≤◌, ◌<◌, ◌≡◌, refl, sym, ap, subst, ◌∙◌, >>=-some, ◌⊎◌, inl, inr, Bool, true, false,
  not, ◌&&◌, Option, none, some, List, [], ◌∷◌, ◌++◌, arith, ltb, leb, if◌then◌else◌, leb→le,
  Bool-cases, length, take, length-append, length-take, Bytes, codes, take-all,
}
use csc.Worker.{pathlength}
use csc.Worker.Subdirectories.{
  Search, maxworkers, is_skipped, append_to_path, entry_path, child_path, add_child, look_at,
  read_entries, find_subdirectories,
}
use mathlib.Core.List.{append_assoc, append-nil}

abbrev pub full_path : Bytes → Bytes → Bytes
full_path startdir d_name = startdir ++ codes "/" ++ d_name

-- An entry is passed over, or has a short path of which `stat` says what it is.
abbrev pub Plain : Bytes → (Bytes → Option Bool) → List Bytes → Type 0
Plain startdir stat [] = Unit {0}
Plain startdir stat (d_name ∷ entries) =
    ((is_skipped d_name ≡ true)
      ⊎ ((length startdir + 1 + length d_name ≤ 63)
          × ((b : Bool) × (stat (full_path startdir d_name) ≡ some b))))
    × Plain startdir stat entries

abbrev pub is_subdirectory : Option Bool → Bool
is_subdirectory none = false
is_subdirectory (some b) = b

-- The paths of the directories among the entries, as the workers get them.
abbrev pub subdirectories : Bytes → (Bytes → Option Bool) → List Bytes → List Bytes
subdirectories startdir stat [] = []
subdirectories startdir stat (d_name ∷ entries) =
    let rest = subdirectories startdir stat entries in
    if not (is_skipped d_name) && is_subdirectory (stat (full_path startdir d_name))
    then (codes "./" ++ full_path startdir d_name) ∷ rest
    else rest

append_to_path-fits :
    (path src : Bytes)
    → length path + length src < pathlength
    → append_to_path path src ≡ some (path ++ src)
unfolding append_to_path
append_to_path-fits path src l =
    let all : take (pathlength - length path) src ≡ src =
      take-all (pathlength - length path) src (omega (arith, l)) in
    let short : ltb (length (path ++ src)) pathlength ≡ true =
      ground (arith, length-append path src, l) in
    rw (all, short) refl

entry_path-full_path :
    (startdir d_name : Bytes)
    → length startdir + 1 + length d_name < pathlength
    → entry_path startdir d_name ≡ some (full_path startdir d_name)
unfolding entry_path
entry_path-full_path startdir d_name l =
    let short : ltb (length startdir) pathlength ≡ true = ground (arith, l) in
    let one = length-append startdir (codes "/") in
    rw (short, entry_path)
      (>>=-some _ (append_to_path-fits startdir (codes "/") (omega (arith, l)))
        (append_to_path-fits (startdir ++ codes "/") d_name (omega (arith, l, one))))

child_path-short : (path : Bytes) → length path ≤ 63 → child_path path ≡ some (codes "./" ++ path)
unfolding child_path
child_path-short path l =
    let fits : leb (length path + 2) pathlength ≡ true = ground (arith, l) in
    let all : take (pathlength - length path - 2) path ≡ path =
      take-all (pathlength - length path - 2) path (omega (arith, l)) in
    rw (fits, all) refl

-- Of a path of 64 to 126 bytes the worker gets 128 bytes less those of the path, "./" included: some
-- of the path is cut off.
pub child_path-cut :
    (path : Bytes)
    → 63 < length path
    → length path ≤ 126
    → (p : Bytes) × (child_path path ≡ some p)
      × (length p ≡ 128 - length path)
      × (length p < 2 + length path)
unfolding child_path
child_path-cut path more less =
    let fits : leb (length path + 2) pathlength ≡ true = ground (arith, less) in
    let kept = length-take (pathlength - length path - 2) path in
    (
      codes "./" ++ take (pathlength - length path - 2) path,
      rw fits refl,
      omega (arith, kept, more, less),
      omega (arith, kept, more, less),
    )

-- What is found, given the paths of the subdirectories.
abbrev pub result : List Bytes → Search
result l = if leb (length l) maxworkers then Search.found l else Search.outside

add_child-result :
    (paths : List Bytes) (path : Bytes)
    → length path ≤ 63
    → length paths ≤ maxworkers
    → add_child paths path ≡ result (paths ++ (codes "./" ++ path) ∷ [])
unfolding add_child
add_child-result paths path l small =
    let more = length-append paths ((codes "./" ++ path) ∷ []) in
    rw (child_path-short path l, add_child)
      (elim (Bool-cases (ltb (length paths) maxworkers)) [
        | inl p ↦
            let q : leb (length (paths ++ (codes "./" ++ path) ∷ [])) maxworkers ≡ true =
              ground (arith, p, more) in
            rw (p, q) refl
        | inr p ↦
            let q : leb (length (paths ++ (codes "./" ++ path) ∷ [])) maxworkers ≡ false =
              ground (arith, p, more) in
            rw (p, q) refl
      ])

-- A list that is too long stays so.
result-outside :
    (paths rest : List Bytes)
    → leb (length paths) maxworkers ≡ false
    → result (paths ++ rest) ≡ Search.outside
result-outside paths rest p =
    let q : leb (length (paths ++ rest)) maxworkers ≡ false =
      ground (arith, p, length-append paths rest) in
    rw q refl

look_at-directory :
    (startdir : Bytes) (stat : Bytes → Option Bool) (d : Bytes) (paths : List Bytes)
    → is_skipped d ≡ false
    → length startdir + 1 + length d ≤ 63
    → stat (full_path startdir d) ≡ some true
    → length paths ≤ maxworkers
    → look_at startdir stat d paths ≡ result (paths ++ (codes "./" ++ full_path startdir d) ∷ [])
unfolding look_at
look_at-directory startdir stat d paths p short said small =
    let one = length-append startdir (codes "/") in
    let two = length-append (startdir ++ codes "/") d in
    rw (p, entry_path-full_path startdir d (omega (arith, short)), said, look_at)
      (add_child-result paths (full_path startdir d) (omega (arith, short, one, two)) small)

look_at-other :
    (startdir : Bytes) (stat : Bytes → Option Bool) (d : Bytes) (paths : List Bytes)
    → is_skipped d ≡ false
    → length startdir + 1 + length d ≤ 63
    → stat (full_path startdir d) ≡ some false
    → look_at startdir stat d paths ≡ Search.found paths
unfolding look_at
look_at-other startdir stat d paths p short said =
    rw (p, entry_path-full_path startdir d (omega (arith, short)), said, look_at) refl

read_entries-result :
    (startdir : Bytes) (stat : Bytes → Option Bool) (entries paths : List Bytes)
    → Plain startdir stat entries
    → length paths ≤ maxworkers
    → read_entries startdir stat entries paths
      ≡ result (paths ++ subdirectories startdir stat entries)
unfolding read_entries look_at
read_entries-result startdir stat [] paths plain small =
    let q : leb (length paths) maxworkers ≡ true = ground (arith, small) in
    rw (append-nil paths, q) refl
read_entries-result startdir stat (d ∷ entries) paths (inl skipped, plain) small =
    rw (skipped, read_entries) (read_entries-result startdir stat entries paths plain small)
read_entries-result startdir stat (d ∷ entries) paths (inr (short, (b, said)), plain) small =
    elim (Bool-cases (is_skipped d)) [
      | inl p ↦ rw (p, read_entries) (read_entries-result startdir stat entries paths plain small)
      | inr p ↦ elim (Bool-cases b) [
        | inl t ↦
            let more = paths ++ (codes "./" ++ full_path startdir d) ∷ [] in
            let look = look_at-directory startdir stat d paths p short (said ∙ ap some t) small in
            let order : more ++ subdirectories startdir stat entries
                ≡ paths ++ subdirectories startdir stat (d ∷ entries) =
              append_assoc paths ((codes "./" ++ full_path startdir d) ∷ [])
                (subdirectories startdir stat entries)
              ∙ rw (p, said, t) refl in
            subst (λ l. read_entries startdir stat (d ∷ entries) paths ≡ result l) order
              (elim (Bool-cases (leb (length more) maxworkers)) [
                | inl q ↦
                    rw (look, q, read_entries)
                      (read_entries-result startdir stat entries more plain (leb→le _ _ q))
                | inr q ↦
                    rw (look, q, read_entries)
                      (sym (result-outside more (subdirectories startdir stat entries) q))
              ])
        | inr t ↦
            let look = look_at-other startdir stat d paths p short (said ∙ ap some t) in
            rw (look, p, said, t, read_entries)
              (read_entries-result startdir stat entries paths plain small)
      ]
    ]

-- The start directory and the entries being short, with at most ten subdirectories among the entries
-- their paths are found, in order; with none the program exits; with more it writes outside `paths`.
pub find_subdirectories_lem :
    (startdir : Bytes) (stat : Bytes → Option Bool) (entries : List Bytes)
    → Plain startdir stat entries
    → find_subdirectories startdir stat entries
      ≡ (elim (subdirectories startdir stat entries) [ [] ↦ Search.exits | p ∷ l ↦ result (p ∷ l) ])
unfolding find_subdirectories
find_subdirectories_lem startdir stat entries plain =
    last (subdirectories startdir stat entries)
      (read_entries-result startdir stat entries [] plain (omega arith))
  where
    last :
        (l : List Bytes)
        → read_entries startdir stat entries [] ≡ result l
        → find_subdirectories startdir stat entries
          ≡ (elim l [ [] ↦ Search.exits | p ∷ m ↦ result (p ∷ m) ])
    last [] e = rw (e, find_subdirectories) refl
    last (p ∷ m) e = elim (Bool-cases (leb (length (p ∷ m)) maxworkers)) [
      | inl q ↦ rw (e, q, find_subdirectories) refl
      | inr q ↦ rw (e, q, find_subdirectories) refl
    ]
