-- ===== src/Chat/Places.antt =====
-- Lab11/chat_server.c: the places, and what one round over them does.
use csc.Common.{
  ℕ, ◌+◌, ◌≤◌, ◌≡◌, refl, ap, ◌>>=◌, Bool, true, false, Option, none, some, List, [], ◌∷◌, ◌++◌,
  map, length, Bytes,
}
use csc.Newline.{lf, NoNul}
use csc.Chat.{Sockname, accept_connection, buf_size}

-- The new client has the first free place and no name, and every other place is as before; or no place
-- is free, and the answer is -1.
pub data Accepted (l : List (Option Sockname)) (fd : ℕ)
    : Option (List (Option Sockname)) → Type 0 where
  no_place : (taken : List Sockname) → l ≡ map some taken → Accepted l fd none
  placed :
      (taken : List Sockname) (rest : List (Option Sockname))
      → l ≡ map some taken ++ none ∷ rest
      → Accepted l fd
          (some (map some taken ++ some (record { sock_fd = fd; username = none }) ∷ rest))

Accepted-further :
    (u : Sockname) (l : List (Option Sockname)) (fd : ℕ) {o : Option (List (Option Sockname))}
    → Accepted l fd o
    → Accepted (some u ∷ l) fd (o >>= λ k. some (some u ∷ k))
Accepted-further u l fd (no_place taken e) = no_place (u ∷ taken) (ap (λ k. some u ∷ k) e)
Accepted-further u l fd (placed taken rest e) = placed (u ∷ taken) rest (ap (λ k. some u ∷ k) e)

-- `accept_connection` refuses exactly when all places are taken; else the first free place takes the
-- new client, who has no name, and every other place is as before.
pub accept_connection-Accepted :
    (l : List (Option Sockname)) (fd : ℕ) → Accepted l fd (accept_connection l fd)
unfolding accept_connection
accept_connection-Accepted [] fd = no_place [] refl
accept_connection-Accepted (none ∷ rest) fd = placed [] rest refl
accept_connection-Accepted (some u ∷ rest) fd =
    Accepted-further u rest fd (accept_connection-Accepted rest fd)

-- What a place's client types in this round, if anything, and whether the answer is sent; the read
-- delivers it with a '\n'.
abbrev pub Typed : Type 0
Typed = Option (Bytes × Bool)

abbrev pub delivered : Typed → Option (Bytes × Bool)
delivered none = none
delivered (some (m, sent)) = some (m ++ lf ∷ [], sent)

-- The first message of a client is the name, and is sent back; each later one is sent back behind the
-- name and ": ". A client to whom the answer cannot be sent loses the place.
abbrev pub place_after : Sockname → Typed → Option Sockname
place_after u none = some u
place_after u (some (m, false)) = none
place_after u (some (m, true)) = elim u.username [
  | none ↦ some (record { sock_fd = u.sock_fd; username = some m })
  | some name ↦ some u
]

abbrev pub answer_to : Sockname → Typed → List (ℕ × Bytes)
answer_to u none = []
answer_to u (some (m, false)) = []
answer_to u (some (m, true)) = elim u.username [
  | none ↦ (u.sock_fd, m) ∷ []
  | some name ↦ (u.sock_fd, name ++ (58 ∷ 32 ∷ m)) ∷ []
]

abbrev pub places_after : List (Option Sockname) → List Typed → List (Option Sockname)
places_after [] ready = []
places_after (u ∷ rest) [] = u ∷ rest
places_after (none ∷ rest) (r ∷ ready) = none ∷ places_after rest ready
places_after (some u ∷ rest) (r ∷ ready) = place_after u r ∷ places_after rest ready

abbrev pub answers : List (Option Sockname) → List Typed → List (ℕ × Bytes)
answers [] ready = []
answers (u ∷ rest) [] = []
answers (none ∷ rest) (r ∷ ready) = answers rest ready
answers (some u ∷ rest) (r ∷ ready) = answer_to u r ++ answers rest ready

-- What is typed holds no NUL, and fits in 128 bytes with the name and ": ".
abbrev pub Fits : Sockname → Typed → Type 0
Fits u none = Unit {0}
Fits u (some (m, sent)) =
    NoNul m
    × elim u.username [ none ↦ Unit {0} | some name ↦ length name + length m + 2 ≤ buf_size ]

abbrev pub AllFit : List (Option Sockname) → List Typed → Type 0
AllFit [] ready = Unit {0}
AllFit (u ∷ rest) [] = Unit {0}
AllFit (none ∷ rest) (r ∷ ready) = AllFit rest ready
AllFit (some u ∷ rest) (r ∷ ready) = Fits u r × AllFit rest ready
