-- ===== src/Index.antt =====
-- A3/freq_list.c: the index of words. The linked list of nodes is a list; an array of file names is
-- a list whose `none` is NULL. `none` as a result is `exit(1)` or an access outside an array.
-- Counters are unbounded: an `int` holds them below 2^31. malloc does not fail.
pub mod Order
pub mod Counts
pub mod Files
pub mod Indexing
pub mod Storage
pub mod Words
pub mod Indexer
pub mod Directory
pub mod Totals
pub mod Spelling
pub mod Programs
pub mod Documents
pub mod Collection
mod Tests
use csc.Common.{
  ℕ, zero, suc, ◌+◌, ◌-◌, ◌>>=◌, Option, none, some, List, [], ◌∷◌, ◌++◌, ltb, ◌==◌, if◌then◌else◌,
  length, get_or, set, take, replicate, Bytes, strcmp, str_eq,
}
use Prim.Native.Nat.{Ordering}
use csc.Newline.{lf, cstr}

-- MAXFILES
abbrev pub maxfiles : ℕ
maxfiles = 50

-- MAXWORD
abbrev pub maxword : ℕ
maxword = 32

-- MAXLINE
abbrev pub maxline : ℕ
maxline = 1024

-- `word` up to its terminator, and `freq`
pub record Node : Type 0 where
  pub word : Bytes
  pub freq : List ℕ

-- The array is filled with 0, then one counter is set; outside the array that is a fault of the
-- caller, which passes an index of `filenames`.
unfoldable pub create_node : Bytes → ℕ → ℕ → Node
create_node word count filenum = record {
  word = take (maxword - 1) word;
  freq = set (replicate maxfiles 0) filenum count;
}

unfoldable pub init_filenames : List (Option Bytes)
init_filenames = replicate maxfiles none

abbrev pub one_further :
    Option Bytes → Option (ℕ × List (Option Bytes)) → Option (ℕ × List (Option Bytes))
one_further f none = none
one_further f (some (i, l)) = some (suc i, f ∷ l)

-- The index of a name, and the array, in which a new name takes the first free place.
unfoldable pub get_filenum : Bytes → List (Option Bytes) → Option (ℕ × List (Option Bytes))
get_filenum fname [] = none
get_filenum fname (none ∷ rest) = some (0, some fname ∷ rest)
get_filenum fname (some f ∷ rest) =
    let further = one_further (some f) (get_filenum fname rest) in
    if str_eq fname f then some (0, some f ∷ rest) else further

abbrev pub bump : Node → ℕ → Node
bump n filenum = record n { freq = set n.freq filenum (get_or n.freq filenum 0 + 1) }

-- The walk of `add_word`, from `cur` on: the list from there, and what is added to `num_words`.
unfoldable pub walk : List Node → Bytes → ℕ → List Node × ℕ
walk [] word filenum = (create_node word 1 filenum ∷ [], 1)
walk (cur ∷ rest) word filenum =
    let (further, added) = walk rest word filenum in
    elim (strcmp cur.word word) [
      | Ordering.eq ↦ (bump cur filenum ∷ rest, 0)
      | Ordering.gt ↦ (create_node word 1 filenum ∷ cur ∷ rest, 1)
      | Ordering.lt ↦ (cur ∷ further, added)
    ]

-- `head`, `filenames` and `num_words`
pub record Index : Type 0 where
  pub head : List Node
  pub filenames : List (Option Bytes)
  pub num_words : ℕ

-- A word that comes before the head is put there at once; else the list is walked.
unfoldable pub add_at : List Node → Bytes → ℕ → List Node × ℕ
add_at [] word filenum = walk [] word filenum
add_at (cur ∷ rest) word filenum = elim (strcmp cur.word word) [
  | Ordering.gt ↦ (create_node word 1 filenum ∷ cur ∷ rest, 1)
  | _ ↦ walk (cur ∷ rest) word filenum
]

unfoldable pub add_word : Index → Bytes → Bytes → Option Index
add_word s word fname = get_filenum fname s.filenames >>= λ (r : ℕ × List (Option Bytes)).
    some (record {
      head = (add_at s.head word r.0).0;
      filenames = r.1;
      num_words = s.num_words + (add_at s.head word r.0).1;
    })

-- The text of the file of names: each name on a line, up to the first NULL.
unfoldable pub print_names : List (Option Bytes) → Bytes
print_names [] = []
print_names (none ∷ rest) = []
print_names (some f ∷ rest) = f ++ lf ∷ print_names rest

-- The list file, a record for each node, and the file of names.
unfoldable pub write_list : List Node → List (Option Bytes) → List Node × Bytes
write_list head filenames = (head, print_names filenames)

-- fgets(line, n + 1, fp): the line, and the rest of the file
unfoldable pub fgets_upto : ℕ → Bytes → Bytes × Bytes
fgets_upto zero xs = ([], xs)
fgets_upto (suc n) [] = ([], [])
fgets_upto (suc n) (c ∷ xs) =
    let (line, rest) = fgets_upto n xs in if c == lf then (lf ∷ [], xs) else (c ∷ line, rest)

-- `line[strlen(line) - 1] = '\0'`; on an empty line that is an access outside `line`.
unfoldable pub chop : Bytes → Option Bytes
chop [] = none
chop (c ∷ []) = some []
chop (c ∷ d ∷ r) = chop (d ∷ r) >>= λ l. some (c ∷ l)

abbrev pub put : List (Option Bytes) → ℕ → Bytes → Option (List (Option Bytes))
put filenames i name = if ltb i (length filenames) then some (set filenames i (some name)) else none

-- The loop over the lines of the file of names. Each round takes a byte at least, so that the length
-- of the file is enough fuel.
unfoldable pub read_names : ℕ → Bytes → ℕ → List (Option Bytes) → Option (List (Option Bytes))
read_names fuel [] i filenames = some filenames
read_names zero (c ∷ xs) i filenames = none
read_names (suc fuel) (c ∷ xs) i filenames =
    chop (cstr (fgets_upto (maxline - 1) (c ∷ xs)).0) >>= λ name. put filenames i name >>= λ named.
    if i + 1 == maxfiles
    then none
    else read_names fuel (fgets_upto (maxline - 1) (c ∷ xs)).1 (i + 1) named

-- The loop that links each record read behind the last.
unfoldable pub read_nodes : List Node → List Node → List Node
read_nodes linked [] = linked
read_nodes linked (n ∷ file) = read_nodes (linked ++ n ∷ []) file

unfoldable pub read_list :
    List Node → Bytes → List (Option Bytes) → Option (List Node × List (Option Bytes))
read_list listfile namefile filenames =
    read_names (length namefile) namefile 0 filenames >>= λ names.
    some (read_nodes [] listfile, names)
