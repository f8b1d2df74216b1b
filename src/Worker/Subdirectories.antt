-- ===== src/Worker/Subdirectories.antt =====
-- A3/query.c, lines 51 to 91: the subdirectories to search. What `readdir` delivers is an argument; so is
-- what `stat` says of a path: `none` where it fails, else whether it is a directory.
pub mod Paths
use csc.Common.{
  ℕ, ◌+◌, ◌-◌, ◌/◌, ◌>>=◌, Bool, true, false, ◌||◌, Option, none, some, List, [], ◌∷◌, ◌++◌, ltb,
  leb, if◌then◌else◌, length, take, Bytes, codes, str_eq,
}
use csc.Worker.{pathlength}

-- MAXWORKERS
abbrev pub maxworkers : ℕ
maxworkers = 10

-- The paths, an exit with a message, or a write outside an array.
pub data Search : Type 0 where
  found : List Bytes → Search
  exits : Search
  outside : Search

unfoldable pub is_skipped : Bytes → Bool
is_skipped d_name =
    str_eq d_name (codes ".")
    || (str_eq d_name (codes "..")
        || (str_eq d_name (codes ".svn") || str_eq d_name (codes ".git")))

-- strncat(path, src, PATHLENGTH - strlen(path)) with the NUL that it adds; `none` is outside `path`.
unfoldable pub append_to_path : Bytes → Bytes → Option Bytes
append_to_path path src =
    let all = path ++ take (pathlength - length path) src in
    if ltb (length all) pathlength then some all else none

-- `strncpy` leaves no NUL where the start directory fills the array.
unfoldable pub entry_path : Bytes → Bytes → Option Bytes
entry_path startdir d_name =
    let joined = append_to_path startdir (codes "/") >>= λ p. append_to_path p d_name in
    if ltb (length startdir) pathlength then joined else none

-- strcpy(paths[num_children], "./") and strncat of at most PATHLENGTH - strlen(path) - 2 bytes. That
-- number wraps around where the path has 127 bytes, and all of it is written.
unfoldable pub child_path : Bytes → Option Bytes
child_path path =
    if leb (length path + 2) pathlength
    then some (codes "./" ++ take (pathlength - length path - 2) path)
    else none

-- The path is stored before the number of children is compared with MAXWORKERS.
unfoldable pub add_child : List Bytes → Bytes → Search
add_child paths path = elim (child_path path) [
  | none ↦ Search.outside
  | some p ↦
      if ltb (length paths) maxworkers then Search.found (paths ++ p ∷ []) else Search.outside
]

unfoldable pub look_at : Bytes → (Bytes → Option Bool) → Bytes → List Bytes → Search
look_at startdir stat d_name paths = elim (is_skipped d_name) [
  | true ↦ Search.found paths
  | false ↦ elim (entry_path startdir d_name) [
    | none ↦ Search.outside
    | some path ↦ elim (stat path) [
      | none ↦ Search.exits
      | some is_dir ↦ if is_dir then add_child paths path else Search.found paths
    ]
  ]
]

unfoldable pub read_entries : Bytes → (Bytes → Option Bool) → List Bytes → List Bytes → Search
read_entries startdir stat [] paths = Search.found paths
read_entries startdir stat (d_name ∷ entries) paths = elim (look_at startdir stat d_name paths) [
  | found l ↦ read_entries startdir stat entries l
  | exits ↦ Search.exits
  | outside ↦ Search.outside
]

-- if (num_children == 0)
unfoldable pub find_subdirectories : Bytes → (Bytes → Option Bool) → List Bytes → Search
find_subdirectories startdir stat entries = elim (read_entries startdir stat entries []) [
  | found [] ↦ Search.exits
  | found (p ∷ l) ↦ Search.found (p ∷ l)
  | exits ↦ Search.exits
  | outside ↦ Search.outside
]
