-- ===== src/Index/Programs.antt =====
-- A3/indexer.c: the whole program returns, and counts every word that it reads in a file.
use csc.Common.{
  ℕ, zero, suc, ◌+◌, ◌-◌, ◌≤◌, ◌≡◌, refl, sym, ap, subst, ◌∙◌, ◌>>=◌, >>=-eq-some, >>=-some, ◌⊎◌,
  inl, inr, Bool, true, false, Option, none, some, List, [], ◌∷◌, ◌++◌, arith, if◌then◌else◌,
  Bool-cases, Option-cases, length, Bytes,
}
use csc.Newline.{cstr}
use csc.Index.{init_filenames, Index, maxfiles, maxline, print_names, write_list, fgets_upto, chop}
use csc.Index.Files.{used}
use csc.Index.Words.{keep_token, tokens, index_file}
use csc.Index.Indexing.{
  IsIndex, add_words, Short, frequency, occurrences, add_words-frequency, no_index,
  no_index-IsIndex, frequency-none,
}
use csc.Index.Indexer.{kept, line_words, words_within, index_lines-words}
use csc.Index.Directory.{is_skipped, entry_path, index_entry, index_entries, index_directory}
use csc.Index.Totals.{fresh-most, From, From-append, add_words-From}

Short-append : (xs ys : List (Bytes × Bytes)) → Short (xs ++ ys) → Short xs × Short ys
Short-append [] ys h = (tt, h)
Short-append ((w, f) ∷ xs) ys (e, h) = let (a, b) = Short-append xs ys h in ((e, a), b)

occurrences-append :
    (w f : Bytes) (xs ys : List (Bytes × Bytes))
    → occurrences w f (xs ++ ys) ≡ occurrences w f xs + occurrences w f ys
occurrences-append w f [] ys = omega arith
occurrences-append w f ((x, g) ∷ xs) ys = omega (arith, occurrences-append w f xs ys)

used-no_index : used no_index.filenames ≡ 0
unfolding init_filenames
used-no_index = refl

module _ (ispunct isspace isdigit : ℕ → Bool) (tolower : ℕ → ℕ)
    (contents : Bytes → Option Bytes) where
  kept-From :
      (fname : Bytes) (ts : List Bytes) → From fname (kept ispunct isspace isdigit tolower fname ts)
  kept-From fname [] = tt
  kept-From fname (t ∷ ts) = elim (Option-cases (keep_token ispunct isspace isdigit tolower t)) [
    | inl e ↦ rw (e, kept) (kept-From fname ts)
    | inr (word, e) ↦ rw (e, kept) (refl, kept-From fname ts)
  ]

  line_words-From :
      (fname line : Bytes) → From fname (line_words ispunct isspace isdigit tolower fname line)
  line_words-From fname line = elim (Option-cases (chop (cstr line))) [
    | inl e ↦ rw (e, line_words) tt
    | inr (text, e) ↦ rw (e, line_words) (kept-From fname (tokens [] text))
  ]

  words_within-From :
      (fuel : ℕ) (fname file : Bytes)
      → From fname (words_within ispunct isspace isdigit tolower fuel fname file)
  words_within-From fuel fname [] = tt
  words_within-From zero fname (c ∷ file) = tt
  words_within-From (suc fuel) fname (c ∷ file) =
      From-append fname _ _ (line_words-From fname (fgets_upto (maxline - 1) (c ∷ file)).0)
        (words_within-From fuel fname (fgets_upto (maxline - 1) (c ∷ file)).1)

  -- What an entry of the directory is: passed over, or the path and the bytes of a file. The others end
  -- the program.
  abbrev pub entry_file : Bytes → Bytes → Option (Bytes × Bytes)
  entry_file dirname d_name =
      entry_path dirname d_name >>= λ path. contents path >>= λ file. some (path, file)

  abbrev pub Readable : Bytes → List Bytes → Type 0
  Readable dirname [] = Unit {0}
  Readable dirname (d_name ∷ entries) =
      ((is_skipped d_name ≡ true) ⊎ ((r : Bytes × Bytes) × (entry_file dirname d_name ≡ some r)))
      × Readable dirname entries

  abbrev pub file_words : Option (Bytes × Bytes) → List (Bytes × Bytes)
  file_words none = []
  file_words (some (path, file)) =
      words_within ispunct isspace isdigit tolower (length file) path file

  -- The words of all files, in order, each with the path of its file; and the number of files.
  abbrev pub directory_words : Bytes → List Bytes → List (Bytes × Bytes)
  directory_words dirname [] = []
  directory_words dirname (d_name ∷ entries) =
      let rest = directory_words dirname entries in
      if is_skipped d_name then rest else file_words (entry_file dirname d_name) ++ rest

  abbrev pub count_files : List Bytes → ℕ
  count_files [] = 0
  count_files (d_name ∷ entries) =
      let rest = count_files entries in if is_skipped d_name then rest else suc rest

  index_entry-file :
      (s : Index) (dirname d_name path file : Bytes)
      → is_skipped d_name ≡ false
      → entry_file dirname d_name ≡ some (path, file)
      → index_entry ispunct isspace isdigit tolower contents s dirname d_name
        ≡ add_words s (words_within ispunct isspace isdigit tolower (length file) path file)
  unfolding index_entry index_file
  index_entry-file s dirname d_name path file p e =
      let (path', e1, more) = >>=-eq-some (entry_path dirname d_name) _ e in
      let (file', e2, same) = >>=-eq-some (contents path') _ more in
      let one : path' ≡ path = ground (arith, same) in
      let two : file' ≡ file = ground (arith, same) in
      rw (p, index_entry)
        (>>=-some _ (e1 ∙ ap some one) (
          >>=-some _ (ap contents (sym one) ∙ e2 ∙ ap some two) (
            index_lines-words ispunct isspace isdigit tolower (length file) s path file
              (omega arith))))

  entry_of :
      (dirname d_name : Bytes)
      → (is_skipped d_name ≡ true) ⊎ ((r : Bytes × Bytes) × (entry_file dirname d_name ≡ some r))
      → is_skipped d_name ≡ false
      → (r : Bytes × Bytes) × (entry_file dirname d_name ≡ some r)
  entry_of dirname d_name (inl e) p = ground (arith, e, p)
  entry_of dirname d_name (inr r) p = r

  index_entries-Counts :
      (dirname : Bytes) (entries : List Bytes) (s : Index)
      → Readable dirname entries
      → Short (directory_words dirname entries)
      → IsIndex s
      → used s.filenames + count_files entries ≤ maxfiles
      → (t : Index) × (index_entries ispunct isspace isdigit tolower contents s dirname entries
          ≡ some t)
        × IsIndex t
        × ((w f : Bytes)
            → frequency t w f ≡ frequency s w f + occurrences w f (directory_words dirname entries))
  unfolding index_entries index_entry
  index_entries-Counts dirname [] s read short ok room = (s, refl, ok, λ w f. omega arith)
  index_entries-Counts dirname (d ∷ entries) s (r, read) short ok room =
      elim (Bool-cases (is_skipped d)) [
        | inl p ↦
            let skip : index_entry ispunct isspace isdigit tolower contents s dirname d ≡ some s =
              rw (p, index_entry) refl in
            let (t, runs, ok', counts) =
              index_entries-Counts dirname entries s read (rw p at short) ok
                (ground (arith, room, p)) in
            (t, (>>=-some _ skip runs), ok', λ w f. rw p (counts w f))
        | inr p ↦
            let ((path, file), e) = entry_of dirname d r p in
            let ws = words_within ispunct isspace isdigit tolower (length file) path file in
            let split : directory_words dirname (d ∷ entries)
                ≡ ws ++ directory_words dirname entries =
              rw (p, e) refl in
            let (now, later) =
              Short-append ws (directory_words dirname entries) (subst Short split short) in
            let more : used s.filenames + suc (count_files entries) ≤ maxfiles =
              ground (arith, room, p) in
            let (t, runs, ok', most) =
              add_words-From path ws s (words_within-From (length file) path file) now ok
                (omega (arith, more, fresh-most path s.filenames)) in
            let (u, runs', ok'', counts') =
              index_entries-Counts dirname entries t read later ok'
                (omega (arith, more, most, fresh-most path s.filenames)) in
            let counts = (add_words-frequency ws s t now ok runs).1 in
            (
              u,
              >>=-some _ (index_entry-file s dirname d path file p e ∙ runs) runs',
              ok'',
              λ w f.
                  subst (λ l. frequency u w f ≡ frequency s w f + occurrences w f l) (sym split)
                    (omega (
                      arith,
                      counts w f,
                      counts' w f,
                      occurrences-append w f ws (directory_words dirname entries),
                    )),
            )
      ]

  -- On a directory of at most 50 files that can all be read, under paths that fit, with words of at most
  -- 31 bytes, the program returns, and the index it writes is in order and counts for every word and file
  -- how often the program reads the word in the file (`words_within`).
  pub index_directory-Counts :
      (dirname : Bytes) (entries : List Bytes)
      → Readable dirname entries
      → Short (directory_words dirname entries)
      → count_files entries ≤ maxfiles
      → (t : Index) × (index_directory ispunct isspace isdigit tolower contents dirname entries
          ≡ some (t.head, print_names t.filenames))
        × IsIndex t
        × ((w f : Bytes) → frequency t w f ≡ occurrences w f (directory_words dirname entries))
  unfolding index_directory write_list
  index_directory-Counts dirname entries read short few =
      let (t, runs, ok, counts) =
        index_entries-Counts dirname entries no_index read short no_index-IsIndex
          (omega (arith, few, used-no_index)) in
      (t, >>=-some _ runs refl, ok, λ w f. omega (arith, counts w f, frequency-none w f))
