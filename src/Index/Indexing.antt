-- ===== src/Index/Indexing.antt =====
-- A3/freq_list.c: the index that a run of `add_word` builds counts every word in every file.
use csc.Common.{
  ℕ, ◌+◌, ◌≤◌, ◌<◌, ◌≡◌, refl, ap, subst, ◌∙◌, ◌>>=◌, >>=-eq-some, inl, inr, Bool, true, false,
  ◌&&◌, Option, none, some, List, [], ◌∷◌, arith, ◌==◌, ==_iff, Bool-cases, Option-cases, length,
  get_or, replicate, length-set, Bytes, str_eq, str_eq_iff,
}
use csc.Index.{Node, create_node, walk, add_at, add_word, maxfiles, Index, init_filenames}
use csc.Index.Order.{
  Sorted, same, behind, ahead, turn, walk-same, walk-behind, walk-ahead, add_at-walk, walk-Sorted,
  walk-length,
}
use csc.Index.Counts.{count, hit, Full, walk-count}
use csc.Index.Files.{
  index_of, used, Packed, Numbered, too_many, given, Outcome, get_filenum-Outcome, index_of-eq,
}

walk-Full : (l : List Node) (w : Bytes) (i : ℕ) → Full l → Full (walk l w i).0
unfolding walk create_node
walk-Full [] w i h = (length-set (replicate maxfiles 0) i 1, tt)
walk-Full (n ∷ l) w i (e, h) = elim (turn n w) [
  | same q ↦ rw (walk-same n l w i q) (length-set n.freq i (get_or n.freq i 0 + 1) ∙ e, h)
  | behind q ↦ rw (walk-behind n l w i q) (length-set (replicate maxfiles 0) i 1, (e, h))
  | ahead q ↦ rw (walk-ahead n l w i q) (e, walk-Full l w i h)
]

-- How often the index says that a word stands in a file.
unfoldable pub frequency : Index → Bytes → Bytes → ℕ
frequency s w f = elim (index_of f s.filenames) [ none ↦ 0 | some i ↦ count s.head w i ]

pub record IsIndex (s : Index) : Type 0 where
  pub sorted : Sorted s.head
  pub full : Full s.head
  pub size : length s.filenames ≡ maxfiles
  pub packed : Packed s.filenames
  pub clear : (w : Bytes) (i : ℕ) → used s.filenames ≤ i → count s.head w i ≡ 0
  pub counted : s.num_words ≡ length s.head

abbrev pub one_if : Bool → ℕ
one_if true = 1
one_if false = 0

-- The program ends at a name beyond 50 others, or the index is still in order and one counter has grown by 1.
pub data Added (s : Index) (word fname : Bytes) : Option Index → Type 0 where
  no_room :
      used s.filenames ≡ maxfiles → index_of fname s.filenames ≡ none → Added s word fname none
  added :
      {t : Index}
      → IsIndex t
      → ((w f : Bytes)
          → frequency t w f ≡ frequency s w f + one_if (str_eq word w && str_eq f fname))
      → Added s word fname (some t)

module _ (s : Index) (word fname : Bytes) (short : length word ≤ 31) (ok : IsIndex s) where
  abbrev after : ℕ → List (Option Bytes) → Index
  after i names = record {
    head = (add_at s.head word i).0;
    filenames = names;
    num_words = s.num_words + (add_at s.head word i).1;
  }

  head-count :
      (i : ℕ)
      → i < maxfiles
      → (w : Bytes) (j : ℕ) → count (add_at s.head word i).0 w j ≡ count s.head w j + hit word i w j
  head-count i h w j =
      rw (add_at-walk s.head word i) (walk-count s.head word i w j short h ok.sorted ok.full)

  after-IsIndex :
      (i : ℕ) (names : List (Option Bytes))
      → Numbered s.filenames fname i names
      → IsIndex (after i names)
  after-IsIndex i names n = record {
    sorted = rw (add_at-walk s.head word i) (walk-Sorted s.head word i short ok.sorted);
    full = rw (add_at-walk s.head word i) (walk-Full s.head word i ok.full);
    size = n.same_length ∙ ok.size;
    packed = n.still_packed;
    clear = λ w j h. ground (
      arith,
      h,
      head-count i (omega (arith, n.inside, ok.size)) w j,
      n.in_use,
      n.grows,
      ok.clear w j (omega (arith, h, n.grows)),
    );
    counted = rw (add_at-walk s.head word i) (omega (arith, walk-length s.head word i, ok.counted));
  }

  after-frequency :
      (i : ℕ) (names : List (Option Bytes))
      → Numbered s.filenames fname i names
      → (w f : Bytes)
      → frequency (after i names) w f ≡ frequency s w f + one_if (str_eq word w && str_eq f fname)
  unfolding frequency
  after-frequency i names n w f = elim (Bool-cases (str_eq f fname)) [
    | inl q ↦
        let same_name : f ≡ fname = (str_eq_iff f fname).0 q in
        let now : index_of f names ≡ some i = rw same_name n.numbered in
        let counts : count (add_at s.head word i).0 w i ≡ count s.head w i + hit word i w i =
          head-count i (omega (arith, n.inside, ok.size)) w i in
        elim n.before [
          | inl e ↦
              let then_ : index_of f s.filenames ≡ some i = rw same_name e in
              rw (now, then_, q, frequency) (ground (arith, counts))
          | inr (e, u) ↦
              let then_ : index_of f s.filenames ≡ none = rw same_name e in
              rw (now, then_, q, frequency)
                (ground (arith, counts, ok.clear w i (omega (arith, u))))
        ]
    | inr q ↦ elim (Option-cases (index_of f s.filenames)) [
      | inl e ↦ rw (n.others f q, e, q, frequency) (ground arith)
      | inr (j, e) ↦
          let counts : count (add_at s.head word i).0 w j ≡ count s.head w j + hit word i w j =
            head-count i (omega (arith, n.inside, ok.size)) w j in
          let apart : (i == j) ≡ false = elim (Bool-cases (i == j)) [
            | inl p ↦ ground (
              arith,
              q,
              str_eq_iff f fname,
              index_of-eq f fname names j (n.others f q ∙ e)
                  (n.numbered ∙ ap some ((==_iff i j).0 p)),
            )
            | inr p ↦ p
          ] in
          rw (n.others f q, e, q, frequency) (ground (arith, counts, apart))
    ]
  ]

-- `add_word`, on a word of at most 31 bytes.
pub add_word-Added :
    (s : Index) (word fname : Bytes)
    → length word ≤ 31
    → IsIndex s
    → Added s word fname (add_word s word fname)
unfolding add_word
add_word-Added s word fname short ok = go (get_filenum-Outcome fname s.filenames ok.packed)
  where
    go :
        {o : Option (ℕ × List (Option Bytes))}
        → Outcome s.filenames fname o
        → Added s word fname
            (o >>= λ (r : ℕ × List (Option Bytes)). some (after s word fname short ok r.0 r.1))
    go (too_many u e) = no_room (u ∙ ok.size) e
    go (given {i = i} {after = names} n) =
        added (after-IsIndex s word fname short ok i names n)
          (after-frequency s word fname short ok i names n)

-- A run over the words of files, in order.
abbrev pub add_words : Index → List (Bytes × Bytes) → Option Index
add_words s [] = some s
add_words s ((word, fname) ∷ rest) = add_word s word fname >>= λ t. add_words t rest

abbrev pub occurrences : Bytes → Bytes → List (Bytes × Bytes) → ℕ
occurrences w f [] = 0
occurrences w f ((word, fname) ∷ rest) =
    one_if (str_eq word w && str_eq f fname) + occurrences w f rest

abbrev pub Short : List (Bytes × Bytes) → Type 0
Short [] = Unit {0}
Short ((word, fname) ∷ rest) = (length word ≤ 31) × Short rest

-- A run over words of at most 31 bytes that does not meet a 51st file leaves the list in strictly
-- ascending order with `num_words` its length, and counts for every word and file exactly their
-- occurrences on top of what was counted before.
pub add_words-frequency :
    (ws : List (Bytes × Bytes)) (s t : Index)
    → Short ws
    → IsIndex s
    → add_words s ws ≡ some t
    → IsIndex t × ((w f : Bytes) → frequency t w f ≡ frequency s w f + occurrences w f ws)
add_words-frequency [] s t h ok e =
    subst (λ u. IsIndex u × ((w f : Bytes) → frequency u w f ≡ frequency s w f + 0))
      (ground (arith, e)) (ok, λ w f. omega arith)
add_words-frequency ((word, fname) ∷ ws) s t (short, h) ok e =
    let (u, e1, e2) = >>=-eq-some (add_word s word fname) (λ v. add_words v ws) e in
    go u (λ ok'. add_words-frequency ws u t h ok' e2)
      (subst (Added s word fname) e1 (add_word-Added s word fname short ok))
  where
    go :
        (u : Index)
        → (IsIndex u
            → IsIndex t × ((w f : Bytes) → frequency t w f ≡ frequency u w f + occurrences w f ws))
        → Added s word fname (some u)
        → IsIndex t
          × ((w f : Bytes)
              → frequency t w f ≡ frequency s w f + occurrences w f ((word, fname) ∷ ws))
    go u later (added ok' f) =
        let (ok'', g) = later ok' in (ok'', λ w x. omega (arith, f w x, g w x))

abbrev pub no_index : Index
no_index = record { head = []; filenames = init_filenames; num_words = 0 }

pub no_index-IsIndex : IsIndex no_index
unfolding init_filenames
no_index-IsIndex = record {
  sorted = tt;
  full = tt;
  size = refl;
  packed = tt;
  clear = λ w i h. refl;
  counted = refl;
}

pub frequency-none : (w f : Bytes) → frequency no_index w f ≡ 0
unfolding frequency init_filenames
frequency-none w f = refl
