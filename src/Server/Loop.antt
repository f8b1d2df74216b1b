-- ===== src/Server/Loop.antt =====
-- A4/hcq_server.c: the loop of `main`, one ready descriptor at a time. `connects fd` is a readable
-- listening socket whose `accept` gives `fd`; `ready fd d` is a readable client, whose `read`, if it
-- is made, gives `d`.
use csc.Common.{
  ℕ, ◌>>=◌, Bool, false, ◌||◌, Option, some, List, [], ◌∷◌, ◌==◌, if◌then◌else◌, get_elem?, Bytes,
}
use csc.Server.{disconnect, Client, Server, add_client, find_client, remove_client}
use csc.Server.Handle.{handle_client}

pub data Event : Type 0 where
  connects : ℕ → Event
  ready : ℕ → Bytes → Event

abbrev pub started : Server
started = record { client_list = []; stu_list = []; ta_list = []; active_fd_set = []; sent = [] }

unfoldable pub serve_client : Server → ℕ → ℕ → Client → Bytes → Option Server
serve_client s fd k c d = elim c.state [
  | disconnect ↦ remove_client s fd
  | _ ↦ handle_client s k c d
]

unfoldable pub client_event : Server → ℕ → Bytes → Option Server
client_event s fd d = do
  found ← find_client s.client_list fd
  k ← found
  c ← get_elem? s.client_list k
  serve_client s fd k c d

-- FD_ISSET
unfoldable pub fd_isset : ℕ → List ℕ → Bool
fd_isset fd [] = false
fd_isset fd (x ∷ xs) = x == fd || fd_isset fd xs

-- A descriptor that is not in the set is never ready, and nothing is done for it.
unfoldable pub step : Server → Event → Option Server
step s (connects fd) = do
  t ← add_client s fd
  some (record t { active_fd_set = fd ∷ t.active_fd_set })
step s (ready fd d) = if fd_isset fd s.active_fd_set then client_event s fd d else some s

unfoldable pub run : Server → List Event → Option Server
run s [] = some s
run s (e ∷ es) = do t ← step s e; run t es
