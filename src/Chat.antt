-- ===== src/Chat.antt =====
-- Lab11/chat_server.c: an echo server with 12 places. A place is `none` if its descriptor is -1; what
-- `accept`, `read` and `write` give is an argument. A fault is a result of its own; the copy of a name
-- to a block that is one byte short is taken to succeed.
pub mod Places
mod Tests
use csc.Common.{
  ℕ, ◌-◌, ◌>>=◌, Bool, Option, none, some, List, [], ◌∷◌, ◌++◌, ltb, if◌then◌else◌, length, take,
  replicate, Bytes,
}
use csc.Newline.{cstr}

-- MAX_CONNECTIONS
abbrev pub max_connections : ℕ
max_connections = 12

-- BUF_SIZE
abbrev pub buf_size : ℕ
buf_size = 128

-- struct sockname, for a place in use
pub record Sockname : Type 0 where
  pub sock_fd : ℕ
  pub username : Option Bytes

abbrev pub no_users : List (Option Sockname)
no_users = replicate max_connections none

-- The first free place takes the new client; `none` for -1.
unfoldable pub accept_connection : List (Option Sockname) → ℕ → Option (List (Option Sockname))
accept_connection [] client_fd = none
accept_connection (none ∷ rest) client_fd =
    some (some (record { sock_fd = client_fd; username = none }) ∷ rest)
accept_connection (some u ∷ rest) client_fd =
    accept_connection rest client_fd >>= λ l. some (some u ∷ l)

-- What `read_from` does: 0, the descriptor of a client that is gone, or a write outside an array or
-- through NULL.
pub data Answer : Type 0 where
  served : Bytes → Sockname → Answer
  closed : ℕ → Answer
  faulted : Answer

-- `buf[num_read - 1] = '\0'`, and `buf` as a string
unfoldable pub message : Bytes → Bytes
message d = cstr (take (length d - 1) d)

-- The text of a message of a user who has a name.
unfoldable pub said : Bytes → Bytes → Bytes
said username buf = username ++ (58 ∷ 32 ∷ buf)

-- `d` is what the read delivers, `sent` whether the write sends all. The first message is the name. The
-- text goes to an array of BUF_SIZE + 1 bytes, its terminator included.
unfoldable pub read_from : Sockname → Bytes → Bool → Answer
read_from u [] sent = faulted
read_from u (c ∷ d) sent = elim u.username [
  | none ↦
      (if sent
        then served (message (c ∷ d)) (record u { username = some (message (c ∷ d)) })
        else closed u.sock_fd)
  | some username ↦
      (if ltb buf_size (length (said username (message (c ∷ d))))
        then faulted
        else if sent
        then served (said username (message (c ∷ d))) u
        else closed u.sock_fd)
]

-- A place is given up when its client is gone. What is written, to which descriptor.
abbrev pub keep : Answer → Option (Option Sockname × List (ℕ × Bytes))
keep (served sent u) = some (some u, (u.sock_fd, sent) ∷ [])
keep (closed fd) = some (none, [])
keep faulted = none

abbrev pub unserved :
    Option Sockname
    → List (Option Sockname) × List (ℕ × Bytes)
    → Option (List (Option Sockname) × List (ℕ × Bytes))
unserved u (l, written) = some (u ∷ l, written)

-- One round of the loop over the places: for each, what its read delivers, if it is ready, and whether
-- the write sends all. The places after it, and what is written whole; `none` is a fault.
unfoldable pub serve_places :
    List (Option Sockname)
    → List (Option (Bytes × Bool))
    → Option (List (Option Sockname) × List (ℕ × Bytes))
serve_places [] ready = some ([], [])
serve_places (u ∷ rest) [] = some (u ∷ rest, [])
serve_places (none ∷ rest) (r ∷ ready) = serve_places rest ready >>= unserved none
serve_places (some u ∷ rest) (none ∷ ready) = serve_places rest ready >>= unserved (some u)
serve_places (some u ∷ rest) (some (d, sent) ∷ ready) =
    keep (read_from u d sent) >>= λ (k : Option Sockname × List (ℕ × Bytes)).
    serve_places rest ready >>= λ (after : List (Option Sockname) × List (ℕ × Bytes)).
    some (k.0 ∷ after.0, k.1 ++ after.1)
