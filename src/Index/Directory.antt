-- ===== src/Index/Directory.antt =====
-- A3/indexer.c, lines 101 to 121: every entry of the directory is indexed. What `readdir` delivers is an
-- argument, and so is what the files hold: `contents path` is `none` where `fopen` fails. A path that
-- does not fit into its array is a fault, as is `exit`: both are `none`.
use csc.Common.{
  ℕ, ◌>>=◌, Bool, true, false, ◌||◌, Option, none, some, List, [], ◌∷◌, ◌++◌, ltb, if◌then◌else◌,
  length, Bytes, codes, str_eq,
}
use csc.Index.{Index, init_filenames, write_list, Node}
use csc.Index.Words.{index_file}

-- PATHLENGTH
abbrev pub pathlength : ℕ
pathlength = 128

unfoldable pub is_skipped : Bytes → Bool
is_skipped d_name =
    str_eq d_name (codes ".")
    || (str_eq d_name (codes "..")
        || (str_eq d_name (codes ".svn") || str_eq d_name (codes ".git")))

-- strncpy of the directory, and two times strncat with the NUL that it adds
unfoldable pub entry_path : Bytes → Bytes → Option Bytes
entry_path dirname d_name =
    let path = dirname ++ (codes "/" ++ d_name) in
    if ltb (length path) pathlength then some path else none

module _ (ispunct isspace isdigit : ℕ → Bool) (tolower : ℕ → ℕ)
    (contents : Bytes → Option Bytes) where
  unfoldable pub index_entry : Index → Bytes → Bytes → Option Index
  index_entry s dirname d_name = elim (is_skipped d_name) [
    | true ↦ some s
    | false ↦ entry_path dirname d_name >>= λ path.
        contents path >>= λ file. index_file ispunct isspace isdigit tolower s path file
  ]

  unfoldable pub index_entries : Index → Bytes → List Bytes → Option Index
  index_entries s dirname [] = some s
  index_entries s dirname (d_name ∷ entries) =
      index_entry s dirname d_name >>= λ t. index_entries t dirname entries

  -- From the empty list to the two files that are written.
  unfoldable pub index_directory : Bytes → List Bytes → Option (List Node × Bytes)
  index_directory dirname entries =
      index_entries (record { head = []; filenames = init_filenames; num_words = 0 }) dirname
        entries
      >>= λ s. some (write_list s.head s.filenames)
