-- ===== src/Server/Dangling.antt =====
-- What becomes of a client that leaves: `remove_client` unlinks only the head of the list.
use csc.Common.{
  ℕ, ◌≡◌, refl, ap, ◌∙◌, >>=-eq-some, ◌≢◌, true, false, none, some, List, [], ◌∷◌, ◌++◌, arith,
  ◌==◌, length, get_elem?, Bytes,
}
use csc.Server.{
  Client, Server, new_client, link_client, add_client, find_client, modify, clean_up, unlink,
  remove_found, remove_client,
}
use csc.Server.Loop.{connects, ready, client_event, fd_isset, step}

-- A walk for `fd` passes these clients.
abbrev pub Passed : ℕ → List Client → Type 0
Passed fd [] = Unit {0}
Passed fd (c ∷ rest) = (c.freed ≡ false) × (c.socket ≢ fd) × Passed fd rest

-- The client on `fd`, with those before and behind it in the list.
pub record Linked (fd : ℕ) (l : List Client) : Type 0 where
  pub before : List Client
  pub client : Client
  pub behind : List Client
  pub split : l ≡ before ++ client ∷ behind
  pub passed : Passed fd before
  pub on_socket : client.socket ≡ fd
  pub alive : client.freed ≡ false

find_client-append :
    (fd : ℕ) (a : List Client) (c : Client) (b : List Client)
    → Passed fd a
    → c.socket ≡ fd
    → c.freed ≡ false
    → find_client (a ++ c ∷ b) fd ≡ some (some (length a))
unfolding find_client
find_client-append fd [] c b p e f = ground arith
find_client-append fd (x ∷ a) c b (f, ne, p) e g =
    rw (find_client-append fd a c b p e g) (ground arith)

pub find_client-Linked :
    {fd : ℕ} {l : List Client} (w : Linked fd l) → find_client l fd ≡ some (some (length w.before))
find_client-Linked {fd} w =
    rw w.split (find_client-append fd w.before w.client w.behind w.passed w.on_socket w.alive)

pub get-append {ℓ} :
    {A : Type ℓ} (a : List A) (c : A) (b : List A) → get_elem? (a ++ c ∷ b) (length a) ≡ some c
get-append [] c b = refl
get-append (x ∷ a) c b = get-append a c b

pub modify-append :
    (a : List Client) (c : Client) (b : List Client) (f : Client → Client)
    → modify (a ++ c ∷ b) (length a) f ≡ a ++ f c ∷ b
modify-append [] c b f = refl
modify-append (x ∷ a) c b f = ap (λ l. x ∷ l) (modify-append a c b f)

-- A freed client in the list stops every walk to its end.
link_client-freed :
    (a : List Client) (c : Client) (b : List Client) (new : Client)
    → c.freed ≡ true
    → link_client (a ++ c ∷ b) new ≡ none
unfolding link_client
link_client-freed [] c b new f = ground arith
link_client-freed (x ∷ a) c b new f = rw (link_client-freed a c b new f) (ground arith)

find_client-freed :
    (fd : ℕ) (a : List Client) (c : Client) (b : List Client)
    → Passed fd a
    → c.freed ≡ true
    → find_client (a ++ c ∷ b) fd ≡ none
unfolding find_client
find_client-freed fd [] c b p f = ground arith
find_client-freed fd (x ∷ a) c b (g, ne, p) f = rw (find_client-freed fd a c b p f) (ground arith)

pub clean_up-clients :
    (s t : Server) (c : Client) → clean_up s c ≡ some t → t.client_list ≡ s.client_list
unfolding clean_up
clean_up-clients s t c e = ground arith

pub remove_found-clients :
    (s t : Server) (k fd : ℕ) (c : Client)
    → remove_found s k fd c ≡ some t
    → t.client_list ≡ unlink s.client_list k fd
unfolding remove_found
remove_found-clients s t k fd c e =
    let (cleaned, e1, e2) = >>=-eq-some (clean_up s c) _ e in
    let (name, e3, e4) = >>=-eq-some c.name _ e2 in
    ground (arith, clean_up-clients s cleaned c e1, e4)

unlink-append :
    (fd : ℕ) (a : List Client) (c : Client) (b : List Client)
    → a ≢ []
    → Passed fd a
    → unlink (a ++ c ∷ b) (length a) fd ≡ a ++ record c { freed = true } ∷ b
unfolding unlink
unlink-append fd [] c b ne p = absurd (ne refl)
unlink-append fd (h ∷ a) c b ne (f, n, p) =
    let other : (h.socket == fd) ≡ false = ground arith in
    rw other (modify-append (h ∷ a) c b (λ d. record d { freed = true }))

-- A client that leaves is looked for from the head; one that is not the head is freed in place.
remove_client-clients :
    (s t : Server) (fd : ℕ) (w : Linked fd s.client_list)
    → w.before ≢ []
    → remove_client s fd ≡ some t
    → t.client_list ≡ w.before ++ record w.client { freed = true } ∷ w.behind
unfolding remove_client
remove_client-clients s t fd w ne e =
    let at : get_elem? s.client_list (length w.before) ≡ some w.client =
      ap (λ l. get_elem? l (length w.before)) w.split ∙ get-append w.before w.client w.behind in
    let gone : remove_found s (length w.before) fd w.client ≡ some t =
      rw at at (rw (find_client-Linked w) at e) in
    remove_found-clients s t (length w.before) fd w.client gone
    ∙ ap (λ l. unlink l (length w.before) fd) w.split
    ∙ unlink-append fd w.before w.client w.behind ne w.passed

-- When a client other than the head of the list has left, the next connection is a fault: the walk to
-- the end of the list goes through the freed client. So is the next event of every client behind it:
-- of every active descriptor that is on no client in front of it.
pub after_leave :
    (s t : Server) (fd : ℕ) (w : Linked fd s.client_list)
    → w.before ≢ []
    → remove_client s fd ≡ some t
    → ((new : ℕ) → step t (connects new) ≡ none)
      × ((other : ℕ) (d : Bytes)
          → fd_isset other t.active_fd_set ≡ true
          → Passed other w.before
          → step t (ready other d) ≡ none)
unfolding step add_client client_event
after_leave s t fd w ne e =
    let l : t.client_list ≡ w.before ++ record w.client { freed = true } ∷ w.behind =
      remove_client-clients s t fd w ne e in
    let dead : Client = record w.client { freed = true } in
    (
      λ new.
          let unlinked : link_client t.client_list (new_client new) ≡ none =
            rw l (link_client-freed w.before dead w.behind (new_client new) refl) in
          rw unlinked refl,
      λ other d active passed.
          let lost : find_client t.client_list other ≡ none =
            rw l (find_client-freed other w.before dead w.behind passed refl) in
          rw active (rw lost refl),
    )
