-- ===== src/Chat/Tests.antt =====
-- Lab11/chat_server.c: runs on small inputs, and instances of the theorems.
use csc.Common.{
  ℕ, ◌≡◌, refl, true, false, Option, none, some, List, [], ◌∷◌, ◌++◌, replicate, Bytes, codes,
}
use csc.Newline.{cstr}
use csc.Chat.{
  Sockname, no_users, accept_connection, faulted, message, said, read_from, serve_places,
}
use csc.Chat.Places.{Accepted, accept_connection-Accepted, Typed}

abbrev user : ℕ → Bytes → Sockname
user fd name = record { sock_fd = fd; username = some name }

first_place :
    accept_connection no_users 4
    ≡ some (some (record { sock_fd = 4; username = none }) ∷ replicate 11 none)
unfolding accept_connection
first_place = refl

abbrev hello : Bytes
hello = codes "hello" ++ 10 ∷ []

named_then_lost :
    serve_places
      (some (record { sock_fd = 4; username = none }) ∷ some (user 5 (codes "ann")) ∷ [])
      (some (hello, true) ∷ some (hello, false) ∷ [])
    ≡ some (some (user 4 (codes "hello")) ∷ none ∷ [], (4, codes "hello") ∷ [])
unfolding serve_places read_from message said cstr
named_then_lost = refl

too_long : read_from (user 5 (replicate 122 97)) hello true ≡ faulted
unfolding read_from message said cstr
too_long = refl

accept_connection-Accepted_example : Accepted no_users 4 (accept_connection no_users 4)
accept_connection-Accepted_example = accept_connection-Accepted no_users 4

abbrev clients : List (Option Sockname)
clients = some (user 5 (codes "ann")) ∷ none ∷ some (record { sock_fd = 7; username = none }) ∷ []

abbrev typed : List Typed
typed = some (65 ∷ [], true) ∷ none ∷ some (66 ∷ [], true) ∷ []
