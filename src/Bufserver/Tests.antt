-- ===== src/Bufserver/Tests.antt =====
-- Runs of the server, and the theorems at concrete reads.
use csc.Common.{◌≡◌, refl, List, [], ◌∷◌, ◌++◌, arith, replicate, Bytes, codes}
use csc.Bufserver.{
  accepted, serve, drain, receive, take_line, find_network_newline, drained, faulted,
}
use csc.Newline.{memset0, memmove_down, cstr, cr}
use csc.Bufserver.Lines.{holding}
use csc.Bufserver.Stale.{drain_stale}
use mathlib.Core.List.{flatten}
use csc.Bufserver.Serve.{Prints, serve-Prints_stream}

abbrev two_reads : List Bytes
two_reads = (codes "ab" ++ 13 ∷ 10 ∷ codes "c") ∷ (codes "d" ++ 13 ∷ 10 ∷ []) ∷ []

-- what a run has printed
abbrev printed : Bytes → List Bytes
printed x = elim (serve accepted (x ∷ [])) [ drained ls s ↦ ls | _ ↦ [] ]

prints_two :
    printed (codes "ab" ++ 13 ∷ 10 ∷ codes "c" ++ 13 ∷ 10 ∷ []) ≡ codes "ab" ∷ codes "c" ∷ []
unfolding serve accepted drain receive take_line memset0 memmove_down find_network_newline cstr
prints_two = refl

serve-Prints_stream_example : Prints (flatten two_reads) (serve accepted two_reads)
unfolding serve accepted drain receive take_line memset0 memmove_down find_network_newline cstr
serve-Prints_stream_example = serve-Prints_stream two_reads (
  λ e. cc,
  λ e. absurd (omega arith),
  omega arith,
  (λ e. cc, λ e. absurd (omega arith), omega arith, tt),
)

-- "a\r\nb\r" in one read.
drain_stale_example :
    drain 2 (holding (codes "a") (codes "b" ++ cr ∷ []) (replicate 25 0)) ≡ faulted
drain_stale_example =
    drain_stale (codes "a") (codes "b") (replicate 25 0) 0 (omega arith) (omega arith) refl refl
