-- ===== src/Server.antt =====
-- A4/hcq_server.c and A4/hcq_server.h: the server's state, and the list of clients. A `Client *` is a
-- position in the list, newest client last. A client that was freed and is still linked stays in the
-- list as `freed`: a walk that meets it is a fault, `none`. A name that no assignment has reached is
-- `none`, and a read of it is a fault. Writes to a socket are recorded in the order they are made; a
-- write that fails ends the program, which is outside the model.
pub mod Handle
pub mod Loop
pub mod Dangling
pub mod Bounds
pub mod Serving
mod Tests
use csc.Common.{
  ℕ, zero, suc, ◌+◌, ◌>>=◌, Bool, true, false, Option, none, some, List, [], ◌∷◌, ◌++◌, map, ◌==◌,
  if◌then◌else◌, get_elem?, replicate, Bytes, codes, str_eq,
}
use mathlib.Core.Option
use csc.HelpCentre.Students.{Student, give_up_waiting}
use csc.HelpCentre.Tas.{Ta, remove_ta}
use csc.HelpCentre.Reports.{crlf}

pub data ClientState : Type 0 where
  waiting_name waiting_type waiting_s_course waiting_s_command waiting_t_command disconnect :
      ClientState

pub data ClientType : Type 0 where
  type_not_set student ta : ClientType

-- INPUT_BUFFER_SIZE, and the two bytes more that `buf` has.
abbrev pub input_buffer_size : ℕ
input_buffer_size = 30

abbrev pub buf_size : ℕ
buf_size = input_buffer_size + 2

-- `after` is always `buf + inbuf` and is left out.
pub record Client : Type 0 where
  pub socket : ℕ
  pub state : ClientState
  pub type : ClientType
  pub name : Option Bytes
  pub buf : Bytes
  pub inbuf : ℕ
  pub room : ℕ
  pub freed : Bool

pub record Server : Type 0 where
  pub client_list : List Client
  pub stu_list : List Student
  pub ta_list : List Ta
  pub active_fd_set : List ℕ
  pub sent : List (ℕ × Bytes)

unfoldable pub write : Server → ℕ → Bytes → Server
write s fd msg = record s { sent = s.sent ++ (fd, msg) ∷ [] }

unfoldable pub welcome_msg : Bytes
welcome_msg = codes "Welcome to the Help Centre, what is your name?" ++ crlf

unfoldable pub new_client : ℕ → Client
new_client fd = record {
  socket = fd;
  state = waiting_name;
  type = type_not_set;
  name = none;
  buf = replicate buf_size 0;
  inbuf = 0;
  room = buf_size;
  freed = false;
}

-- The walk to the last client, and the link to the new one.
unfoldable pub link_client : List Client → Client → Option (List Client)
link_client [] new = some (new ∷ [])
link_client (c ∷ rest) new =
    let linked = Option.map (λ l. c ∷ l) (link_client rest new) in if c.freed then none else linked

unfoldable pub add_client : Server → ℕ → Option Server
unfolding new_client link_client write
add_client s fd = do
  clients ← link_client s.client_list (new_client fd)
  some (write (record s { client_list = clients }) fd welcome_msg)

-- The position of the first client on a socket, `some none` for NULL.
unfoldable pub find_client : List Client → ℕ → Option (Option ℕ)
find_client [] fd = some none
find_client (c ∷ rest) fd =
    let later = Option.map (Option.map suc) (find_client rest fd) in
    if c.freed then none else if c.socket == fd then some (some 0) else later

unfoldable pub find_client_student : List Client → Student → Option (Option ℕ)
find_client_student [] s = some none
find_client_student (c ∷ rest) s =
    let later = Option.map (Option.map suc) (find_client_student rest s) in
    if c.freed
    then none
    else elim c.name [ none ↦ none | some n ↦ if str_eq n s.name then some (some 0) else later ]

abbrev pub modify : List Client → ℕ → (Client → Client) → List Client
modify [] k f = []
modify (c ∷ rest) zero f = f c ∷ rest
modify (c ∷ rest) (suc k) f = c ∷ modify rest k f

abbrev pub clear_fd : ℕ → List ℕ → List ℕ
clear_fd fd [] = []
clear_fd fd (x ∷ xs) = let rest = clear_fd fd xs in if x == fd then rest else x ∷ rest

-- Takes the client's student or TA out of its list.
unfoldable pub clean_up : Server → Client → Option Server
clean_up s c = elim c.type [
  | type_not_set ↦ some s
  | student ↦ (do n ← c.name; r ← give_up_waiting s.stu_list n; some (record s { stu_list = r.1 }))
  | ta ↦ (do n ← c.name; some (record s { ta_list = (remove_ta s.ta_list n).1 }))
]

-- At the head the list moves on. Elsewhere the loop ends with `last = client->next`, which changes
-- only the local variable: the client stays linked and is freed.
unfoldable pub unlink : List Client → ℕ → ℕ → List Client
unlink [] k fd = []
unlink (h ∷ rest) k fd =
    if h.socket == fd then rest else modify (h ∷ rest) k (λ c. record c { freed = true })

-- `free(client->name)` reads the name also of a client that has given none.
unfoldable pub remove_found : Server → ℕ → ℕ → Client → Option Server
remove_found s k fd c = do
  cleaned ← clean_up s c
  name ← c.name
  some (record cleaned {
    client_list = unlink cleaned.client_list k fd;
    active_fd_set = clear_fd fd cleaned.active_fd_set;
  })

unfoldable pub remove_client : Server → ℕ → Option Server
unfolding remove_found
remove_client s fd = find_client s.client_list fd >>= λ found. elim found [
  | none ↦ some s
  | some k ↦ (do c ← get_elem? s.client_list k; remove_found s k fd c)
]
