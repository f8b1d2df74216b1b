-- ===== src/Server/Bounds/Reads.antt =====
-- Whatever commands clients send, every read stays inside its buffer.
use csc.Common.{
  ℕ, ◌+◌, ◌-◌, ◌≤◌, ◌<◌, ◌≡◌, refl, ap, ◌∙◌, >>=-eq-some, ◌≢◌, inl, inr, none, some, List, [], ◌∷◌,
  ◌++◌, arith, ltb, ltb→lt, Bool-cases, Option-cases, length, get_elem?, set, take, drop, replicate,
  length-append, length-set, length-take, length-drop, length-replicate, Bytes,
}
use csc.Newline.{Search, found, absent, overrun, cstr, memset0, memmove_down}
use csc.HelpCentre.Students.{Student}
use csc.Server.{
  ClientState, waiting_type, waiting_s_course, waiting_s_command, waiting_t_command, disconnect,
  student, ta, input_buffer_size, buf_size, Client, Server, write, new_client, link_client,
  add_client, find_client, find_client_student, modify, remove_client,
}
use csc.Server.Handle.{
  find_network_newline, choose_type, choose_course, accept_first, ta_command, run_command, fill,
  shift, keep_room, take_command, handle_client,
}
use csc.Server.Loop.{Event, connects, ready, serve_client, client_event, fd_isset, step}
use csc.Server.Bounds.{
  Fits, AllAt, AllFit, modify-AllAt, get-Fits, new_client-Fits, link_client-eq, AllFit-append,
  remove_client-AllFit, fill-whole, fill-Fits,
}

-- A client whose state, type or name changed.
record SameBuffer (c d : Client) : Type 0 where
  buf : d.buf ≡ c.buf
  inbuf : d.inbuf ≡ c.inbuf
  room : d.room ≡ c.room

-- A command changes states, types and names, so it keeps what is known of the buffers.
module _ (P : ℕ → Client → Type 0)
    (keep : (i : ℕ) (c d : Client) → SameBuffer c d → P i c → P i d) where
  changed :
      (l : List Client) (k : ℕ) (f : Client → Client)
      → ((c : Client) → SameBuffer c (f c))
      → AllAt P l
      → AllAt P (modify l k f)
  changed l k f same h = modify-AllAt P P l k f (λ c p. keep k c (f c) (same c) p) (λ i c ne p. p) h

  choose_type-AllAt :
      (s t : Server) (k : ℕ) (c : Client) (command : Bytes)
      → AllAt P s.client_list
      → choose_type s k c command ≡ some t
      → AllAt P t.client_list
  unfolding choose_type write
  choose_type-AllAt s t k c command h e =
      let asked : AllAt P
          (modify s.client_list k (λ d. record d { type = student; state = waiting_s_course })) =
        changed s.client_list k _ (λ d. record { buf = refl; inbuf = refl; room = refl }) h in
      let works : AllAt P
          (modify s.client_list k (λ d. record d { type = ta; state = waiting_t_command })) =
        changed s.client_list k _ (λ d. record { buf = refl; inbuf = refl; room = refl }) h in
      ground (arith, asked, works, h)

  choose_course-AllAt :
      (s t : Server) (k : ℕ) (c : Client) (command : Bytes)
      → AllAt P s.client_list
      → choose_course s k c command ≡ some t
      → AllAt P t.client_list
  unfolding choose_course write
  choose_course-AllAt s t k c command h e =
      let entered : AllAt P (modify s.client_list k (λ d. record d { state = waiting_s_command })) =
        changed s.client_list k _ (λ d. record { buf = refl; inbuf = refl; room = refl }) h in
      let refused : AllAt P (modify s.client_list k (λ d. record d { state = disconnect })) =
        changed s.client_list k _ (λ d. record { buf = refl; inbuf = refl; room = refl }) h in
      ground (arith, entered, refused, h)

  accept_first-AllAt :
      (s t : Server) → AllAt P s.client_list → accept_first s ≡ some t → AllAt P t.client_list
  unfolding accept_first write
  accept_first-AllAt s t h e = go s.stu_list refl
    where
      told : (j : ℕ) → AllAt P (modify s.client_list j (λ d. record d { state = disconnect }))
      told j = changed s.client_list j _ (λ d. record { buf = refl; inbuf = refl; room = refl }) h

      go : (q : List Student) → s.stu_list ≡ q → AllAt P t.client_list
      go [] p = ground (arith, h, p)
      go (x ∷ q) p =
          let (o, e1, e2) =
            >>=-eq-some (find_client_student s.client_list x) _ (rw (p, accept_first) at e) in
          let (j, e3, e4) = >>=-eq-some o _ e2 in
          let (c, e5, e6) = >>=-eq-some (get_elem? s.client_list j) _ e4 in
          ground (arith, told j, e6)

  ta_command-AllAt :
      (s t : Server) (c : Client) (command : Bytes)
      → AllAt P s.client_list
      → ta_command s c command ≡ some t
      → AllAt P t.client_list
  unfolding ta_command write
  ta_command-AllAt s t c command h e = elim (Option-cases (accept_first s)) [
    | inl p ↦ ground (arith, h, p)
    | inr (u, p) ↦ ground (arith, h, p, accept_first-AllAt s u h p)
  ]

  run_command-AllAt :
      (s t : Server) (k : ℕ) (c : Client) (command : Bytes)
      → AllAt P s.client_list
      → run_command s k c command ≡ some t
      → AllAt P t.client_list
  unfolding run_command write
  run_command-AllAt s t k c command h e =
      let named : AllAt P
          (modify s.client_list k (λ d. record d { name = some command; state = waiting_type })) =
        changed s.client_list k _ (λ d. record { buf = refl; inbuf = refl; room = refl }) h in
      ground (
        arith,
        h,
        named,
        choose_type-AllAt s t k c command h,
        choose_course-AllAt s t k c command h,
        ta_command-AllAt s t c command h,
      )

shift-Fits :
    (at : ℕ) (c : Client)
    → at ≤ buf_size
    → length c.buf ≡ buf_size
    → c.inbuf ≤ buf_size
    → Fits (shift at c)
unfolding shift memmove_down memset0
shift-Fits at c small whole within =
    let m : Bytes = memset0 (at - 1) c.buf in
    record {
      whole = omega (
        arith,
        length-append (take (c.inbuf - at) (drop at m)) (drop (c.inbuf - at) m),
        length-take (c.inbuf - at) (drop at m),
        length-drop at m,
        length-drop (c.inbuf - at) m,
        length-append (replicate (at - 1) (let z : ℕ = 0 in z)) (drop (at - 1) c.buf),
        length-replicate (at - 1) (let z : ℕ = 0 in z),
        length-drop (at - 1) c.buf,
      );
      within = omega arith;
      next_read = λ h. omega arith;
    }

-- While the client at `k` is served its `room` is out of date.
record Midway (k i : ℕ) (c : Client) : Type 0 where
  whole : length c.buf ≡ buf_size
  within : c.inbuf ≤ buf_size
  elsewhere : i ≢ k → Fits c

Fits-same : (c d : Client) → SameBuffer c d → Fits c → Fits d
Fits-same c d e f = record {
  whole = ap length e.buf ∙ f.whole;
  within = omega (arith, e.inbuf, f.within);
  next_read = λ h. omega (arith, e.inbuf, e.room, f.next_read (omega (arith, e.inbuf)));
}

Midway-same : (k i : ℕ) (c d : Client) → SameBuffer c d → Midway k i c → Midway k i d
Midway-same k i c d e m = record {
  whole = ap length e.buf ∙ m.whole;
  within = omega (arith, e.inbuf, m.within);
  elsewhere = λ ne. Fits-same c d e (m.elsewhere ne);
}

take_command-AllFit :
    (s t : Server) (k : ℕ) (c : Client) (at : ℕ)
    → AllFit s.client_list
    → length c.buf ≡ buf_size
    → c.inbuf ≤ buf_size
    → take_command s k c at ≡ some t
    → AllFit t.client_list
unfolding take_command
take_command-AllFit s t k c at h whole within e = elim (Bool-cases (ltb c.inbuf at)) [
  | inl over ↦ ground (arith, over)
  | inr inside ↦
      let ended : Client = record c { buf = set c.buf (at - 2) 0 } in
      let s' : Server = record s { client_list = modify s.client_list k (λ _. ended) } in
      let (done, e1, e2) =
        >>=-eq-some (run_command s' k ended (cstr ended.buf)) _ (rw (inside, take_command) at e) in
      let before : AllAt (Midway k) s'.client_list =
        modify-AllAt (λ _. Fits) (Midway k) s.client_list k (λ _. ended)
          (λ _ _. record {
            whole = length-set c.buf (at - 2) 0 ∙ whole;
            within = within;
            elsewhere = λ ne. absurd (ne refl);
          })
          (λ i d ne f. record { whole = f.whole; within = f.within; elsewhere = λ _. f }) h in
      let after : AllAt (Midway k) done.client_list =
        run_command-AllAt (Midway k) (Midway-same k) s' done k ended (cstr ended.buf) before e1 in
      let small : at ≤ buf_size = ground (arith, inside) in
      ground (
        arith,
        e2,
        modify-AllAt (Midway k) (λ _. Fits) done.client_list k (shift at)
            (λ d m. shift-Fits at d small m.whole m.within) (λ i d ne m. m.elsewhere ne) after,
      )
]

handle_client-AllFit :
    (s t : Server) (k : ℕ) (c : Client) (d : Bytes)
    → AllFit s.client_list
    → Fits c
    → (c.inbuf < input_buffer_size → length d ≤ c.room)
    → handle_client s k c d ≡ some t
    → AllFit t.client_list
unfolding handle_client
handle_client-AllFit s t k c d h f r e = elim (Bool-cases (ltb c.inbuf input_buffer_size)) [
  | inr full ↦ remove_client-AllFit s t c.socket h (rw (full, handle_client) at e)
  | inl below ↦
      let lt : c.inbuf < input_buffer_size = ltb→lt c.inbuf input_buffer_size below in
      let fits : c.inbuf + length d ≤ buf_size = omega (arith, r lt, f.next_read lt) in
      go (find_network_newline (fill c d).buf (fill c d).inbuf) fits
        (rw (below, handle_client) at e)
]
  where
    go :
        (r : Search)
        → c.inbuf + length d ≤ buf_size
        → (elim r [
          | absent ↦
              some (record s { client_list = modify s.client_list k (λ _. keep_room (fill c d)) })
          | overrun ↦ none
          | found at ↦ take_command s k (fill c d) at
        ])
          ≡ some t
        → AllFit t.client_list
    go absent fits p = ground (
      arith,
      p,
      modify-AllAt (λ _. Fits) (λ _. Fits) s.client_list k (λ _. keep_room (fill c d))
          (λ _ _. fill-Fits c d f fits) (λ i c ne g. g) h,
    )
    go overrun fits p = cc
    go (found at) fits p =
        take_command-AllFit s t k (fill c d) at h (fill-whole c d f fits) (unfold fill in fits) p

-- `read` delivers at most the bytes it was asked for.
abbrev pub Honest : Server → Event → Type 0
Honest s (connects fd) = Unit {0}
Honest s (ready fd d) =
    (k : ℕ) (c : Client)
    → find_client s.client_list fd ≡ some (some k)
    → get_elem? s.client_list k ≡ some c
    → c.inbuf < input_buffer_size
    → length d ≤ c.room

add_client-AllFit :
    (s t : Server) (fd : ℕ) → AllFit s.client_list → add_client s fd ≡ some t → AllFit t.client_list
unfolding add_client write
add_client-AllFit s t fd h e =
    let (l, e1, e2) = >>=-eq-some (link_client s.client_list (new_client fd)) _ e in
    let l' : l ≡ s.client_list ++ new_client fd ∷ [] =
      link_client-eq s.client_list (new_client fd) l e1 in
    ground
      (arith, e2, l', AllFit-append s.client_list (new_client fd ∷ []) h (new_client-Fits fd, tt))

serve_client-AllFit :
    (s t : Server) (fd k : ℕ) (c : Client) (d : Bytes)
    → AllFit s.client_list
    → Fits c
    → (c.inbuf < input_buffer_size → length d ≤ c.room)
    → serve_client s fd k c d ≡ some t
    → AllFit t.client_list
unfolding serve_client
serve_client-AllFit s t fd k c d h f r e =
    let gone : remove_client s fd ≡ some t → AllFit t.client_list = remove_client-AllFit s t fd h in
    let handled : handle_client s k c d ≡ some t → AllFit t.client_list =
      handle_client-AllFit s t k c d h f r in
    go c.state gone handled e
  where
    go :
        (st : ClientState)
        → (remove_client s fd ≡ some t → AllFit t.client_list)
        → (handle_client s k c d ≡ some t → AllFit t.client_list)
        → (elim st [ disconnect ↦ remove_client s fd | _ ↦ handle_client s k c d ]) ≡ some t
        → AllFit t.client_list
    go disconnect g h p = g p
    go _ g h p = h p

client_event-AllFit :
    (s t : Server) (fd : ℕ) (d : Bytes)
    → AllFit s.client_list
    → Honest s (ready fd d)
    → client_event s fd d ≡ some t
    → AllFit t.client_list
unfolding client_event
client_event-AllFit s t fd d h r e =
    let (o, e1, e2) = >>=-eq-some (find_client s.client_list fd) _ e in
    let (k, e3, e4) = >>=-eq-some o _ e2 in
    let (c, e5, e6) = >>=-eq-some (get_elem? s.client_list k) _ e4 in
    serve_client-AllFit s t fd k c d h (get-Fits s.client_list k c h e5)
      (r k c (e1 ∙ ap some e3) e5) e6

-- Every event that returns, a new connection, a command, a kick or a disconnect, keeps each client's
-- buffer at its size, the bytes counted in it within it, and the room for the next read, where one
-- will be made, inside it.
pub step-AllFit :
    (s t : Server) (e : Event)
    → AllFit s.client_list
    → Honest s e
    → step s e ≡ some t
    → AllFit t.client_list
unfolding step
step-AllFit s t (connects fd) h r e =
    let (u, e1, e2) = >>=-eq-some (add_client s fd) _ e in
    ground (arith, e2, add_client-AllFit s u fd h e1)
step-AllFit s t (ready fd d) h r e = elim (Bool-cases (fd_isset fd s.active_fd_set)) [
  | inl p ↦ client_event-AllFit s t fd d h r (rw p at e)
  | inr p ↦ ground (arith, h, p, e)
]
