-- ===== src/Worker/Pipes.antt =====
-- A3/query.c, lines 93 to 118 and 157 to 159: the ends of the pipes that the parent and each child have
-- open. `words_fd[2*j]` is the end of the pipe `j` that is read, `words_fd[2*j+1]` the one that is
-- written. `none` is the exit of `Close`, when a descriptor is closed already.
pub mod Ends
pub mod Loops
use csc.Common.{
  ℕ, zero, suc, ◌+◌, ◌*◌, ◌>>=◌, Bool, true, false, Option, none, some, ltb, ◌==◌, if◌then◌else◌,
}

-- Which entries of the two arrays are open descriptors.
pub record Descriptors : Type 0 where
  pub words_fd : ℕ → Bool
  pub freqs_fd : ℕ → Bool

-- for each child: pipe, pipe
abbrev pub all_pipes : ℕ → Descriptors
all_pipes num_children = record {
  words_fd = λ k. ltb k (2 * num_children);
  freqs_fd = λ k. ltb k (2 * num_children);
}

abbrev pub shut : (ℕ → Bool) → ℕ → ℕ → Bool
shut fds k m = if m == k then false else fds m

unfoldable pub close_word : Descriptors → ℕ → Option Descriptors
close_word d k = if d.words_fd k then some (record d { words_fd = shut d.words_fd k }) else none

unfoldable pub close_freq : Descriptors → ℕ → Option Descriptors
close_freq d k = if d.freqs_fd k then some (record d { freqs_fd = shut d.freqs_fd k }) else none

-- if (j != i)
unfoldable pub close_others : ℕ → ℕ → Descriptors → Option Descriptors
close_others i j d = elim (j == i) [
  | true ↦ some d
  | false ↦ close_word d (2 * j) >>= λ e. close_freq e (2 * j + 1)
]

-- The loop of the child `i`: rounds left, and `j`.
unfoldable pub child_closes : ℕ → ℕ → ℕ → Descriptors → Option Descriptors
child_closes zero j i d = some d
child_closes (suc n) j i d = close_word d (2 * j + 1) >>= λ e.
    close_freq e (2 * j) >>= λ f. close_others i j f >>= λ g. child_closes n (suc j) i g

-- The loop of the parent.
unfoldable pub parent_closes : ℕ → ℕ → Descriptors → Option Descriptors
parent_closes zero i d = some d
parent_closes (suc n) i d =
    close_word d (2 * i) >>= λ e. close_freq e (2 * i + 1) >>= λ f. parent_closes n (suc i) f

-- The last loop: the ends that the words are written to.
unfoldable pub end_of_words : ℕ → ℕ → Descriptors → Option Descriptors
end_of_words zero i d = some d
end_of_words (suc n) i d = close_word d (2 * i + 1) >>= λ e. end_of_words n (suc i) e
