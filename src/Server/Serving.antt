-- ===== src/Server/Serving.antt =====
-- "next" from a TA, and the end of a client's stream.
use csc.Common.{
  ℕ, ◌+◌, ◌-◌, ◌<◌, ◌≡◌, refl, ap, ◌∙◌, ◌≢◌, true, false, some, List, [], ◌∷◌, ◌++◌, arith, ltb,
  length, get_elem?, take, drop, take-append-drop, Bytes, codes, str_eq, str_eq_refl,
}
use csc.Newline.{absent}
use csc.HelpCentre.Students.{Student}
use csc.HelpCentre.Tas.{next_overall}
use csc.HelpCentre.Tas.Serving.{Works, next_overall-Works}
use csc.Server.{
  disconnect, input_buffer_size, Client, Server, write, find_client, find_client_student, modify,
}
use csc.Server.Handle.{
  stu_accept_msg, accept_first, ta_command, find_network_newline, fill, keep_room, handle_client,
}
use csc.Server.Loop.{ready, serve_client, client_event, fd_isset, step}
use csc.Server.Dangling.{Linked, find_client-Linked, get-append, modify-append}

-- A walk for the name `n` passes these clients, each of whom has given a name.
abbrev pub Unnamed : Bytes → List Client → Type 0
Unnamed n [] = Unit {0}
Unnamed n (c ∷ rest) =
    (c.freed ≡ false) × ((m : Bytes) × (c.name ≡ some m) × (str_eq m n ≡ false)) × Unnamed n rest

-- The first client of the name `n`, with those before and behind it in the list.
pub record Named (n : Bytes) (l : List Client) : Type 0 where
  pub before : List Client
  pub client : Client
  pub behind : List Client
  pub split : l ≡ before ++ client ∷ behind
  pub passed : Unnamed n before
  pub on_name : client.name ≡ some n
  pub alive : client.freed ≡ false

find_client_student-append :
    (x : Student) (a : List Client) (c : Client) (b : List Client)
    → Unnamed x.name a
    → c.name ≡ some x.name
    → c.freed ≡ false
    → find_client_student (a ++ c ∷ b) x ≡ some (some (length a))
unfolding find_client_student
find_client_student-append x [] c b u e f = rw (f, e) (rw (str_eq_refl x.name) refl)
find_client_student-append x (y ∷ a) c b (g, (m, k, ne), u) e f =
    rw (g, k) (rw ne (rw (find_client_student-append x a c b u e f) refl))

next_serves_at :
    (s : Server) (c told : Client) (n : Bytes) (x : Student) (rest : List Student) (j : ℕ)
    (w : Works n s.ta_list)
    → c.name ≡ some n
    → s.stu_list ≡ x ∷ rest
    → find_client_student s.client_list x ≡ some (some j)
    → get_elem? s.client_list j ≡ some told
    → ta_command s c (codes "next")
      ≡ some (record s {
        client_list = modify s.client_list j (λ d. record d { state = disconnect });
        stu_list = rest;
        ta_list = w.before ++ record w.ta { current_student = some x } ∷ w.behind;
        sent = s.sent ++ (told.socket, stu_accept_msg) ∷ [];
      })
unfolding ta_command accept_first write str_eq
next_serves_at s c told n x rest j w named waits found at =
    let next : next_overall n s.ta_list s.stu_list
        ≡ some (0, w.before ++ record w.ta { current_student = some x } ∷ w.behind, rest) =
      ap (next_overall n s.ta_list) waits ∙ next_overall-Works n s.ta_list (x ∷ rest) w in
    rw (waits, accept_first) (rw found (rw at (rw named (rw next refl))))

-- "next" of a TA who is on the list, while somebody waits who has a client: the first in the queue
-- leaves it and is the student of the newest TA of that name, the first client of his name alone is
-- told and is to be disconnected, and nothing else changes. Every client in front of that one has
-- given a name.
pub next_serves_first :
    (s : Server) (c : Client) (n : Bytes) (x : Student) (rest : List Student)
    (w : Works n s.ta_list) (v : Named x.name s.client_list)
    → c.name ≡ some n
    → s.stu_list ≡ x ∷ rest
    → ta_command s c (codes "next")
      ≡ some (record s {
        client_list = v.before ++ record v.client { state = disconnect } ∷ v.behind;
        stu_list = rest;
        ta_list = w.before ++ record w.ta { current_student = some x } ∷ w.behind;
        sent = s.sent ++ (v.client.socket, stu_accept_msg) ∷ [];
      })
next_serves_first s c n x rest w v named waits =
    let found : find_client_student s.client_list x ≡ some (some (length v.before)) =
      ap (λ l. find_client_student l x) v.split
      ∙ find_client_student-append x v.before v.client v.behind v.passed v.on_name v.alive in
    let at : get_elem? s.client_list (length v.before) ≡ some v.client =
      ap (λ l. get_elem? l (length v.before)) v.split ∙ get-append v.before v.client v.behind in
    let told : modify s.client_list (length v.before) (λ d. record d { state = disconnect })
        ≡ v.before ++ record v.client { state = disconnect } ∷ v.behind =
      ap (λ l. modify l (length v.before) (λ d. record d { state = disconnect })) v.split
      ∙ modify-append v.before v.client v.behind (λ d. record d { state = disconnect }) in
    next_serves_at s c v.client n x rest (length v.before) w named waits found at
    ∙ ap
        (λ l. some (record s {
          client_list = l;
          stu_list = rest;
          ta_list = w.before ++ record w.ta { current_student = some x } ∷ w.behind;
          sent = s.sent ++ (v.client.socket, stu_accept_msg) ∷ [];
        }))
        told

fill_none : (c : Client) → fill c [] ≡ c
unfolding fill
fill_none c =
    let n : c.inbuf + 0 ≡ c.inbuf = omega arith in
    let b : take c.inbuf c.buf ++ drop (c.inbuf + 0) c.buf ≡ c.buf =
      rw n (take-append-drop c.inbuf c.buf) in
    λ i. record c { buf = b i; inbuf = n i }

serve-handle :
    (s : Server) (fd k : ℕ) (c : Client) (d : Bytes)
    → c.state ≢ disconnect
    → serve_client s fd k c d ≡ handle_client s k c d
unfolding serve_client
serve-handle s fd k c d ne = ground (arith, ne)

read_nothing :
    (s : Server) (fd k : ℕ) (c : Client)
    → fd_isset fd s.active_fd_set ≡ true
    → find_client s.client_list fd ≡ some (some k)
    → get_elem? s.client_list k ≡ some c
    → c.state ≢ disconnect
    → c.inbuf < input_buffer_size
    → find_network_newline c.buf c.inbuf ≡ absent
    → step s (ready fd [])
      ≡ some (record s { client_list = modify s.client_list k (λ _. keep_room c) })
unfolding step client_event handle_client
read_nothing s fd k c active found at st below none_yet =
    let lt : ltb c.inbuf input_buffer_size ≡ true = ground arith in
    let kept : modify s.client_list k (λ _. keep_room (fill c []))
        ≡ modify s.client_list k (λ _. keep_room c) =
      ap (λ x. modify s.client_list k (λ _. keep_room x)) (fill_none c) in
    rw active (
      rw found (
        rw at (
          rw (serve-handle s fd k c [] st) (
            rw (lt, fill_none c)
              (rw (none_yet, handle_client) (λ i. some (record s { client_list = kept i })))))))

-- The end of a client's stream is not noticed: a read of no bytes from an active client that is not to
-- be disconnected, has room and holds no complete line changes nothing in the server but the recorded
-- room of that client, which becomes what its 30 bytes have left.
pub end_of_stream :
    (s : Server) (fd : ℕ) (w : Linked fd s.client_list)
    → fd_isset fd s.active_fd_set ≡ true
    → w.client.state ≢ disconnect
    → w.client.inbuf < input_buffer_size
    → find_network_newline w.client.buf w.client.inbuf ≡ absent
    → step s (ready fd [])
      ≡ some (record s {
        client_list = w.before ++ record w.client { room = 30 - w.client.inbuf } ∷ w.behind;
      })
unfolding keep_room
end_of_stream s fd w active st below none_yet =
    let at : get_elem? s.client_list (length w.before) ≡ some w.client =
      ap (λ l. get_elem? l (length w.before)) w.split ∙ get-append w.before w.client w.behind in
    let kept : modify s.client_list (length w.before) (λ _. keep_room w.client)
        ≡ w.before ++ keep_room w.client ∷ w.behind =
      ap (λ l. modify l (length w.before) (λ _. keep_room w.client)) w.split
      ∙ modify-append w.before w.client w.behind (λ _. keep_room w.client) in
    read_nothing s fd (length w.before) w.client active (find_client-Linked w) at st below none_yet
    ∙ ap (λ l. some (record s { client_list = l })) kept
