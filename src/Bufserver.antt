-- ===== src/Bufserver.antt =====
-- Lab10/bufserver.c: a line server with a fixed buffer. The buffer is the whole array, stale bytes
-- included; what a `read` delivers is an argument, and a run is the list of the reads of one client.
-- Sockets are outside the model.
pub mod Lines
pub mod Serve
pub mod Stale
mod Tests
use csc.Common.{
  ℕ, zero, suc, ◌+◌, ◌-◌, List, [], ◌∷◌, ◌++◌, ltb, if◌then◌else◌, length, set, take, drop,
  replicate, Bytes,
}
use csc.Newline.{memset0, memmove_down, Search, found, absent, overrun, scan, cstr}

-- BUFSIZE
abbrev pub bufsize : ℕ
bufsize = 30

pub record LineBuf : Type 0 where
  pub buf : Bytes
  pub inbuf : ℕ

unfoldable pub find_network_newline : Bytes → ℕ → Search
unfolding scan
find_network_newline buf n = if ltb bufsize n then absent else scan n 0 buf

-- A newly accepted client: `char buf[BUFSIZE] = {'\0'}`.
unfoldable pub accepted : LineBuf
accepted = record { buf = replicate bufsize 0; inbuf = 0 }

-- `room`, as the loop keeps it for the next read
abbrev pub room : LineBuf → ℕ
room s = bufsize - s.inbuf

-- `read(fd, after, room)` delivers the bytes `d`; then `inbuf += nbytes`.
unfoldable pub receive : LineBuf → Bytes → LineBuf
receive s d = record {
  buf = take s.inbuf s.buf ++ (d ++ drop (s.inbuf + length d) s.buf);
  inbuf = s.inbuf + length d;
}

-- The body of the inner loop at a newline that ends at `at`: the line printed, and the buffer.
unfoldable pub take_line : LineBuf → ℕ → Bytes × LineBuf
take_line s at =
    let b : Bytes = set s.buf (at - 2) 0 in
    let left : ℕ = s.inbuf - at in
    (cstr b, record { buf = memmove_down at left (memset0 (at - 1) b); inbuf = left })

-- `faulted`: a read outside the array, or `inbuf` below 0 and so a `memmove` of a huge size.
-- `exhausted`: the fuel ran out.
pub data Drained : Type 0 where
  drained : List Bytes → LineBuf → Drained
  faulted : Drained
  exhausted : Drained

abbrev pub print_first : Bytes → Drained → Drained
print_first l (drained ls s) = drained (l ∷ ls) s
print_first l faulted = faulted
print_first l exhausted = exhausted

-- while ((where = find_network_newline(buf, inbuf)) > 0)
unfoldable pub drain : ℕ → LineBuf → Drained
drain zero s = exhausted
drain (suc fuel) s = elim (find_network_newline s.buf s.inbuf) [
  | absent ↦ drained [] s
  | overrun ↦ faulted
  | found at ↦
      (if ltb s.inbuf at
        then faulted
        else print_first (take_line s at).0 (drain fuel (take_line s at).1))
]

-- Each line takes at least two bytes off, so this fuel is enough.
abbrev pub drain_all : LineBuf → Drained
drain_all s = drain (suc s.inbuf) s

abbrev pub then_reads : Drained → (LineBuf → Drained) → Drained
then_reads (drained ls s) k = elim (k s) [
  | drained ls' s' ↦ drained (ls ++ ls') s'
  | faulted ↦ faulted
  | exhausted ↦ exhausted
]
then_reads faulted k = faulted
then_reads exhausted k = exhausted

-- while ((nbytes = read(fd, after, room)) > 0), over what the reads deliver
unfoldable pub serve : LineBuf → List Bytes → Drained
serve s [] = drained [] s
serve s (d ∷ ds) = then_reads (drain_all (receive s d)) (λ t. serve t ds)
