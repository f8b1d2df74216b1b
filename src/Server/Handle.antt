-- ===== src/Server/Handle.antt =====
-- A4/hcq_server.c: `handle_client`. The bytes that `Read` delivers are an argument.
use csc.Common.{
  ℕ, ◌+◌, ◌-◌, ◌>>=◌, Bool, false, ◌||◌, Option, none, some, List, [], ◌∷◌, ◌++◌, ltb,
  if◌then◌else◌, length, get_elem?, set, take, drop, Bytes, codes, str_eq,
}
use csc.Newline.{Search, found, absent, overrun, scan, cstr, memset0, memmove_down}
use csc.HelpCentre.Students.{add_student}
use csc.HelpCentre.Tas.{add_ta, next_overall}
use csc.HelpCentre.Reports.{crlf, print_currently_serving, print_full_queue}
use csc.Server.{
  ClientState, waiting_name, waiting_type, waiting_s_course, waiting_s_command, waiting_t_command,
  disconnect, student, ta, input_buffer_size, Client, Server, write, find_client_student, modify,
  remove_client,
}

unfoldable pub find_network_newline : Bytes → ℕ → Search
unfolding scan
find_network_newline buf n = if ltb (input_buffer_size - 2) n then absent else scan n 0 buf

-- The course array of `main`.
abbrev pub courses : List Bytes
courses = codes "CSC108" ∷ codes "CSC148" ∷ codes "CSC209" ∷ []

unfoldable pub type_msg : Bytes
type_msg = codes "Are you a TA or a Student (enter T or S)?" ++ crlf

unfoldable pub valid_courses_msg : Bytes
valid_courses_msg =
    codes "Valid courses: CSC108, CSC148, CSC209"
    ++ (crlf ++ (codes "Which course are you asking about?" ++ crlf))

unfoldable pub ta_commands_msg : Bytes
ta_commands_msg =
    codes "Valid commands for TA:"
    ++ (crlf
        ++ (9 ∷ codes "stats"
            ++ (crlf
                ++ (9 ∷ codes "next" ++ (crlf ++ (9 ∷ codes "(or use Ctrl-C to leave)" ++ crlf))))))

unfoldable pub ta_invalid_role_msg : Bytes
ta_invalid_role_msg = codes "Invalid role (enter T or S)" ++ crlf

unfoldable pub stu_queue_msg : Bytes
stu_queue_msg =
    codes "You have been entered into the queue. While you wait, you can use the command stats to "
    ++ (codes "see which TAs are currently serving students." ++ crlf)

unfoldable pub stu_invalid_course_msg : Bytes
stu_invalid_course_msg = codes "This is not a valid course. Good-bye." ++ crlf

unfoldable pub stu_accept_msg : Bytes
stu_accept_msg =
    codes "Your turn to see the TA."
    ++ (crlf
        ++ (codes "We are disconnecting you from the server now. Press Ctrl-C to close nc" ++ crlf))

unfoldable pub syntax_err_msg : Bytes
syntax_err_msg = codes "Incorrect syntax" ++ crlf

abbrev set_state : ClientState → Client → Client
set_state st c = record c { state = st }

-- `case WAITING_TYPE_STATE`
unfoldable pub choose_type : Server → ℕ → Client → Bytes → Option Server
choose_type s k c command =
    if str_eq command (codes "S")
    then some (
        write
          (record s {
            client_list =
                modify s.client_list k (λ d. record d { type = student; state = waiting_s_course });
          })
          c.socket valid_courses_msg)
    else if str_eq command (codes "T")
    then (do
      n ← c.name
      some (
          write
            (record s {
              client_list =
                  modify s.client_list k (λ d. record d { type = ta; state = waiting_t_command });
              ta_list = add_ta s.ta_list n;
            })
            c.socket ta_commands_msg))
    else some (write s c.socket ta_invalid_role_msg)

abbrev is_course : Bytes → List Bytes → Bool
is_course command [] = false
is_course command (x ∷ xs) = str_eq command x || is_course command xs

-- `case WAITING_S_COURSE_STATE`; the answer of `add_student` is not looked at.
unfoldable pub choose_course : Server → ℕ → Client → Bytes → Option Server
choose_course s k c command =
    if is_course command courses
    then (do
      n ← c.name
      some (
          write
            (record s {
              client_list = modify s.client_list k (set_state waiting_s_command);
              stu_list = (add_student s.stu_list n command courses).1;
            })
            c.socket stu_queue_msg))
    else some (
        write (record s { client_list = modify s.client_list k (set_state disconnect) }) c.socket
          stu_invalid_course_msg)

-- The first half of "next": the head of the queue is told and is to be disconnected. NULL for
-- `to_serve` is a fault.
unfoldable pub accept_first : Server → Option Server
accept_first s = elim s.stu_list [
  | [] ↦ some s
  | first ∷ rest ↦ find_client_student s.client_list first >>= λ to_serve. (do
    j ← to_serve
    c ← get_elem? s.client_list j
    some (record (write s c.socket stu_accept_msg) {
      client_list = modify s.client_list j (set_state disconnect);
    }))
]

-- `case WAITING_T_COMMAND_STATE`. The fresh block of a report is taken to begin with a NUL, here and in
-- `run_command`, and the byte written behind it to change nothing else.
unfoldable pub ta_command : Server → Client → Bytes → Option Server
ta_command s c command =
    if str_eq command (codes "stats")
    then some (write s c.socket (print_full_queue [] courses s.stu_list).text)
    else if str_eq command (codes "next")
    then (do
      told ← accept_first s
      n ← c.name
      r ← next_overall n told.ta_list told.stu_list
      some (record told { ta_list = r.1; stu_list = r.2 }))
    else some (write s c.socket syntax_err_msg)

-- The `switch` over the client's state.
unfoldable pub run_command : Server → ℕ → Client → Bytes → Option Server
run_command s k c command = elim c.state [
  | waiting_name ↦ some (
      write
        (record s {
          client_list =
              modify s.client_list k (λ d. record d { name = some command; state = waiting_type });
        })
        c.socket type_msg)
  | waiting_type ↦ choose_type s k c command
  | waiting_s_course ↦ choose_course s k c command
  | waiting_s_command ↦ some (
      write s c.socket (
        if str_eq command (codes "stats")
        then (print_currently_serving [] s.ta_list).text
        else syntax_err_msg))
  | waiting_t_command ↦ ta_command s c command
  | disconnect ↦ some s
]

-- `client->inbuf += nbytes` after `Read(client->socket, client->after, client->room)`
unfoldable pub fill : Client → Bytes → Client
fill c d = record c {
  buf = take c.inbuf c.buf ++ (d ++ drop (c.inbuf + length d) c.buf);
  inbuf = c.inbuf + length d;
}

-- The line is wiped and the rest moved down; `after` and `room` follow. Below 0 `room` is not used
-- again, so the truncated difference serves.
unfoldable pub shift : ℕ → Client → Client
shift at c =
    let left : ℕ = c.inbuf - at in
    record c {
      buf = memmove_down at left (memset0 (at - 1) c.buf);
      inbuf = left;
      room = input_buffer_size - left;
    }

unfoldable pub keep_room : Client → Client
keep_room c = record c { room = input_buffer_size - c.inbuf }

-- The body of `if (where != -1)`. Where `inbuf` would go below 0, the `memmove` is of a huge size.
unfoldable pub take_command : Server → ℕ → Client → ℕ → Option Server
take_command s k c at = if ltb c.inbuf at then none else (do
  let ended = record c { buf = set c.buf (at - 2) 0 }
  done ←
      run_command (record s { client_list = modify s.client_list k (λ _. ended) }) k ended
        (cstr ended.buf)
  some (record done { client_list = modify done.client_list k (shift at) }))

unfoldable pub handle_client : Server → ℕ → Client → Bytes → Option Server
handle_client s k c d =
    if ltb c.inbuf input_buffer_size
    then elim (find_network_newline (fill c d).buf (fill c d).inbuf) [
      | absent ↦
          some (record s { client_list = modify s.client_list k (λ _. keep_room (fill c d)) })
      | overrun ↦ none
      | found at ↦ take_command s k (fill c d) at
    ]
    else remove_client s c.socket
