-- ===== src/Server/Tests.antt =====
-- A short session, and the theorems at its states.
use csc.Common.{
  ℕ, ◌≡◌, refl, true, false, Option, none, some, List, [], ◌∷◌, ◌++◌, map, arith, replicate, Bytes,
  codes, str_eq,
}
use csc.Newline.{cstr, memset0, memmove_down}
use csc.HelpCentre.Students.{
  Student, add_student, find_student, find_course, link_last, give_up_waiting, route_around_overall,
}
use csc.HelpCentre.Tas.{Ta, add_ta, find_ta, take_student, next_overall, remove_ta}
use csc.HelpCentre.Tas.Serving.{Works}
use csc.Server.{
  ClientState, type_not_set, waiting_s_command, waiting_t_command, disconnect, Client, Server,
  write, new_client, add_client, find_client, find_client_student, clean_up, unlink, remove_client,
}
use csc.Server.Handle.{
  stu_accept_msg, accept_first, ta_command, find_network_newline, choose_type, choose_course,
  run_command, fill, keep_room, shift, take_command, handle_client,
}
use csc.Server.Loop.{
  Event, connects, ready, started, serve_client, client_event, fd_isset, step, run,
}
use csc.Server.Dangling.{Linked, Passed, after_leave}
use csc.Server.Bounds.{AllFit}
use csc.Server.Bounds.Reads.{step-AllFit}
use csc.Server.Serving.{Named, next_serves_first, end_of_stream}

abbrev line : Bytes → Bytes
line b = b ++ 13 ∷ 10 ∷ []

-- A student on descriptor 4 and a TA on descriptor 5.
abbrev session : List Event
session =
    connects 4
    ∷ connects 5
    ∷ ready 4 (line (codes "amy"))
    ∷ ready 4 (line (codes "S"))
    ∷ ready 4 (line (codes "CSC148"))
    ∷ ready 5 (line (codes "eve"))
    ∷ ready 5 (line (codes "T"))
    ∷ ready 5 (line (codes "next"))
    ∷ ready 4 []
    ∷ []

-- who is served, who waits, who is connected at the end
abbrev summary : Option Server → Option (List (Option Student) × List Student × List ℕ)
summary none = none
summary (some s) = some (
  map (λ (t : Ta). t.current_student) s.ta_list,
  s.stu_list,
  map (λ (c : Client). c.socket) s.client_list,
)

abbrev amy : Student
amy = record { name = codes "amy"; course = 1 }

session_runs : summary (run started session) ≡ some (some amy ∷ [], [], 5 ∷ [])
unfolding run step serve_client client_event fd_isset add_client find_client handle_client
    find_network_newline fill keep_room shift take_command run_command choose_type choose_course
    ta_command accept_first find_client_student remove_client clean_up unlink cstr memset0
    memmove_down add_student find_student find_course link_last add_ta find_ta take_student
    next_overall give_up_waiting route_around_overall remove_ta str_eq
session_runs = refl

abbrev client_at : ℕ → ClientState → Bytes → Client
client_at fd st n = record {
  socket = fd;
  state = st;
  type = type_not_set;
  name = some n;
  buf = replicate 32 0;
  inbuf = 0;
  room = 30;
  freed = false;
}

abbrev eve : Ta
eve = record { name = codes "eve"; current_student = none }

abbrev c4 : Client
c4 = client_at 4 waiting_s_command (codes "amy")

abbrev c5 : Client
c5 = client_at 5 waiting_t_command (codes "eve")

abbrev two_clients : Server
two_clients = record {
  client_list = c4 ∷ c5 ∷ [];
  stu_list = amy ∷ [];
  ta_list = eve ∷ [];
  active_fd_set = 5 ∷ 4 ∷ [];
  sent = [];
}

-- A client without a name behind the two, and the TA that leaves.
abbrev three_clients : Server
three_clients = record two_clients {
  client_list = c4 ∷ c5 ∷ new_client 6 ∷ [];
  active_fd_set = 6 ∷ 5 ∷ 4 ∷ [];
}

abbrev fifth : Linked 5 three_clients.client_list
fifth = record {
  before = c4 ∷ [];
  client = c5;
  behind = new_client 6 ∷ [];
  split = refl;
  passed = (refl, omega arith, tt);
  on_socket = refl;
  alive = refl;
}

abbrev without_fifth : Server
without_fifth = record three_clients {
  client_list = c4 ∷ record c5 { freed = true } ∷ new_client 6 ∷ [];
  active_fd_set = 6 ∷ 4 ∷ [];
}

sixth_is_lost : fd_isset 6 without_fifth.active_fd_set ≡ true
unfolding fd_isset
sixth_is_lost = refl

after_leave_example :
    ((new : ℕ) → step without_fifth (connects new) ≡ none)
    × ((other : ℕ) (d : Bytes)
        → fd_isset other without_fifth.active_fd_set ≡ true
        → Passed other (c4 ∷ [])
        → step without_fifth (ready other d) ≡ none)
unfolding remove_client find_client clean_up unlink
after_leave_example = after_leave three_clients without_fifth 5 fifth (λ e. ground (arith, e)) refl

step-AllFit_example : AllFit (record started { client_list = new_client 4 ∷ [] }).client_list
unfolding step add_client write
step-AllFit_example = step-AllFit started _ (connects 4) tt tt refl

abbrev eve_works : Works (codes "eve") two_clients.ta_list
eve_works = record { before = []; ta = eve; behind = []; split = refl; first = tt; named = refl }

abbrev amys_client : Named (codes "amy") two_clients.client_list
amys_client = record {
  before = [];
  client = c4;
  behind = c5 ∷ [];
  split = refl;
  passed = tt;
  on_name = refl;
  alive = refl;
}

next_serves_first_example :
    ta_command two_clients c5 (codes "next")
    ≡ some (record two_clients {
      client_list = record c4 { state = disconnect } ∷ c5 ∷ [];
      stu_list = [];
      ta_list = record eve { current_student = some amy } ∷ [];
      sent = (4, stu_accept_msg) ∷ [];
    })
next_serves_first_example =
    next_serves_first two_clients c5 (codes "eve") amy [] eve_works amys_client refl refl

abbrev fourth : Linked 4 two_clients.client_list
fourth = record {
  before = [];
  client = c4;
  behind = c5 ∷ [];
  split = refl;
  passed = tt;
  on_socket = refl;
  alive = refl;
}

end_of_stream_example :
    step two_clients (ready 4 [])
    ≡ some (record two_clients { client_list = record c4 { room = 30 } ∷ c5 ∷ [] })
unfolding fd_isset find_network_newline
end_of_stream_example = end_of_stream two_clients 4 fourth refl (λ e. cc) (omega arith) refl
