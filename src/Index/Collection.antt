-- ===== src/Index/Collection.antt =====
-- A3/indexer.c: the whole program on a directory of documents.
use csc.Common.{ℕ, ◌≡◌, ◌⊎◌, Bool, true, false, Option, some, List, [], ◌∷◌, Bytes}
use csc.Index.{Index}
use csc.Index.Directory.{is_skipped, entry_path}
use csc.Index.Documents.{Document, text_of, AllLines}

module _ (ispunct isspace isdigit : ℕ → Bool) (tolower : ℕ → ℕ)
    (contents : Bytes → Option Bytes) where
  -- The entries of a directory are, in order, those that are passed over and the documents, each with a
  -- path that fits and with its lines as the contents of the file.
  abbrev pub Holds : Bytes → List Bytes → List Document → Type 0
  Holds dirname [] [] = Unit {0}
  Holds dirname [] (d ∷ docs) = ⊥
  Holds dirname (e ∷ entries) [] = (is_skipped e ≡ true) × Holds dirname entries []
  Holds dirname (e ∷ entries) (d ∷ docs) =
      ((is_skipped e ≡ true) × Holds dirname entries (d ∷ docs))
      ⊎ ((is_skipped e ≡ false)
          × (entry_path dirname e ≡ some d.path)
          × (contents d.path ≡ some (text_of d.lines))
          × AllLines ispunct isspace isdigit tolower d.lines
          × Holds dirname entries docs)
