-- ===== src/Worker/Pipes/Ends.antt =====
-- A3/query.c: after the loops of `Close`, each process has exactly its own ends of the pipes.
use csc.Common.{
  ℕ, ◌+◌, ◌*◌, ◌≡◌, refl, ap, ◌∙◌, >>=-some, inl, inr, Bool, true, false, none, some, arith, ◌==◌,
  if◌then◌else◌, ==_iff, Bool-cases,
}
use csc.Worker.Pipes.{Descriptors, shut, close_word, close_freq, close_others}

-- The four ends of the pipes `j`: words read and written, frequencies read and written.
pub record At (d : Descriptors) (j : ℕ) (wr ww fr fw : Bool) : Type 0 where
  pub words_read : d.words_fd (2 * j) ≡ wr
  pub words_written : d.words_fd (2 * j + 1) ≡ ww
  pub freqs_read : d.freqs_fd (2 * j) ≡ fr
  pub freqs_written : d.freqs_fd (2 * j + 1) ≡ fw

abbrev pub Same : Descriptors → Descriptors → ℕ → Type 0
Same d e j =
    At e j (d.words_fd (2 * j)) (d.words_fd (2 * j + 1)) (d.freqs_fd (2 * j))
      (d.freqs_fd (2 * j + 1))

pub shut-other : (fds : ℕ → Bool) (k m : ℕ) → (m == k) ≡ false → shut fds k m ≡ fds m
shut-other fds k m e = rw e refl

pub shut_self : (fds : ℕ → Bool) (k : ℕ) → shut fds k k ≡ false
shut_self fds k = rw ((==_iff k k).1 refl) refl

pub close_word-open :
    (d : Descriptors) (k : ℕ)
    → d.words_fd k ≡ true
    → close_word d k ≡ some (record d { words_fd = shut d.words_fd k })
unfolding close_word
close_word-open d k e =
    ap (λ b. if b then some (record d { words_fd = shut d.words_fd k }) else none) e

close_freq-open :
    (d : Descriptors) (k : ℕ)
    → d.freqs_fd k ≡ true
    → close_freq d k ≡ some (record d { freqs_fd = shut d.freqs_fd k })
unfolding close_freq
close_freq-open d k e =
    ap (λ b. if b then some (record d { freqs_fd = shut d.freqs_fd k }) else none) e

-- One round of the child: its own pipe keeps two ends, another one none, and no other pipe changes.
pub record Round (i j : ℕ) (d e : Descriptors) : Type 0 where
  pub here : At e j (j == i) false false (j == i)
  pub others : (m : ℕ) → (m == j) ≡ false → Same d e m

pub child-Round :
    (i j : ℕ) (d : Descriptors)
    → At d j true true true true
    → (e f g : Descriptors) × (close_word d (2 * j + 1) ≡ some e)
      × (close_freq e (2 * j) ≡ some f)
      × (close_others i j f ≡ some g)
      × Round i j d g
unfolding close_others
child-Round i j d a =
    let e : Descriptors = record d { words_fd = shut d.words_fd (2 * j + 1) } in
    let f : Descriptors = record e { freqs_fd = shut d.freqs_fd (2 * j) } in
    let c1 = close_word-open d (2 * j + 1) a.words_written in
    let c2 = close_freq-open e (2 * j) a.freqs_read in
    let w : shut d.words_fd (2 * j + 1) (2 * j) ≡ true =
      shut-other d.words_fd (2 * j + 1) (2 * j) (ground arith) ∙ a.words_read in
    let q : shut d.freqs_fd (2 * j) (2 * j + 1) ≡ true =
      shut-other d.freqs_fd (2 * j) (2 * j + 1) (ground arith) ∙ a.freqs_written in
    elim (Bool-cases (j == i)) [
      | inl p ↦ (
        e,
        f,
        f,
        c1,
        c2,
        rw (p, close_others) refl,
        record {
          here = rw p (record {
            words_read = w;
            words_written = shut_self d.words_fd (2 * j + 1);
            freqs_read = shut_self d.freqs_fd (2 * j);
            freqs_written = q;
          });
          others = λ m n. record {
            words_read = shut-other d.words_fd (2 * j + 1) (2 * m) (ground arith);
            words_written = shut-other d.words_fd (2 * j + 1) (2 * m + 1) (ground (arith, n));
            freqs_read = shut-other d.freqs_fd (2 * j) (2 * m) (ground (arith, n));
            freqs_written = shut-other d.freqs_fd (2 * j) (2 * m + 1) (ground arith);
          };
        },
      )
      | inr p ↦
          let k : Descriptors = record f { words_fd = shut f.words_fd (2 * j) } in
          let g : Descriptors = record k { freqs_fd = shut k.freqs_fd (2 * j + 1) } in
          (
            e,
            f,
            g,
            c1,
            c2,
            rw (p, close_others)
                (>>=-some _ (close_word-open f (2 * j) w) (close_freq-open k (2 * j + 1) q)),
            record {
              here = rw p (record {
                words_read = shut_self f.words_fd (2 * j);
                words_written =
                    shut-other f.words_fd (2 * j) (2 * j + 1) (ground arith)
                    ∙ shut_self d.words_fd (2 * j + 1);
                freqs_read =
                    shut-other k.freqs_fd (2 * j + 1) (2 * j) (ground arith)
                    ∙ shut_self d.freqs_fd (2 * j);
                freqs_written = shut_self k.freqs_fd (2 * j + 1);
              });
              others = λ m n. record {
                words_read =
                    shut-other f.words_fd (2 * j) (2 * m) (ground (arith, n))
                    ∙ shut-other d.words_fd (2 * j + 1) (2 * m) (ground arith);
                words_written =
                    shut-other f.words_fd (2 * j) (2 * m + 1) (ground arith)
                    ∙ shut-other d.words_fd (2 * j + 1) (2 * m + 1) (ground (arith, n));
                freqs_read =
                    shut-other k.freqs_fd (2 * j + 1) (2 * m) (ground arith)
                    ∙ shut-other d.freqs_fd (2 * j) (2 * m) (ground (arith, n));
                freqs_written =
                    shut-other k.freqs_fd (2 * j + 1) (2 * m + 1) (ground (arith, n))
                    ∙ shut-other d.freqs_fd (2 * j) (2 * m + 1) (ground arith);
              };
            },
          )
    ]

pub Same-refl : (d : Descriptors) (m : ℕ) → Same d d m
Same-refl d m = record {
  words_read = refl;
  words_written = refl;
  freqs_read = refl;
  freqs_written = refl;
}

pub At-Same :
    (d e : Descriptors) (m : ℕ) {wr ww fr fw : Bool}
    → Same d e m
    → At d m wr ww fr fw
    → At e m wr ww fr fw
At-Same d e m s a = record {
  words_read = s.words_read ∙ a.words_read;
  words_written = s.words_written ∙ a.words_written;
  freqs_read = s.freqs_read ∙ a.freqs_read;
  freqs_written = s.freqs_written ∙ a.freqs_written;
}

pub Same-trans : (d e f : Descriptors) (m : ℕ) → Same d e m → Same e f m → Same d f m
Same-trans d e f m s t = At-Same e f m t s

-- One round of the parent.
pub parent_round :
    (j : ℕ) (d : Descriptors)
    → At d j true true true true
    → (e f : Descriptors) × (close_word d (2 * j) ≡ some e)
      × (close_freq e (2 * j + 1) ≡ some f)
      × At f j false true true false
      × ((m : ℕ) → (m == j) ≡ false → Same d f m)
parent_round j d a =
    let e : Descriptors = record d { words_fd = shut d.words_fd (2 * j) } in
    (
      e,
      record e { freqs_fd = shut d.freqs_fd (2 * j + 1) },
      close_word-open d (2 * j) a.words_read,
      close_freq-open e (2 * j + 1) a.freqs_written,
      record {
        words_read = shut_self d.words_fd (2 * j);
        words_written = shut-other d.words_fd (2 * j) (2 * j + 1) (ground arith) ∙ a.words_written;
        freqs_read = shut-other d.freqs_fd (2 * j + 1) (2 * j) (ground arith) ∙ a.freqs_read;
        freqs_written = shut_self d.freqs_fd (2 * j + 1);
      },
      λ m n. record {
        words_read = shut-other d.words_fd (2 * j) (2 * m) (ground (arith, n));
        words_written = shut-other d.words_fd (2 * j) (2 * m + 1) (ground arith);
        freqs_read = shut-other d.freqs_fd (2 * j + 1) (2 * m) (ground arith);
        freqs_written = shut-other d.freqs_fd (2 * j + 1) (2 * m + 1) (ground (arith, n));
      },
    )
