-- ===== src/Server/Bounds.antt =====
-- No read overruns a client's buffer.
pub mod Reads
use csc.Common.{
  ℕ, zero, suc, ◌+◌, ◌≤◌, ◌<◌, ◌≡◌, refl, ◌>>=◌, >>=-eq-some, ◌≢◌, inl, inr, true, Option, none,
  some, List, [], ◌∷◌, ◌++◌, arith, ◌==◌, Bool-cases, Option-cases, length, get_elem?, take, drop,
  length-append, length-take, length-drop, Bytes,
}
use mathlib.Core.Option
use csc.Server.{
  input_buffer_size, buf_size, Client, Server, new_client, link_client, find_client, modify, unlink,
  remove_found, remove_client,
}
use csc.Server.Handle.{fill, keep_room}
use csc.Server.Dangling.{remove_found-clients}

-- The array keeps its size, and the next read, which is made only below the limit, ends inside it.
pub record Fits (c : Client) : Type 0 where
  pub whole : length c.buf ≡ buf_size
  pub within : c.inbuf ≤ buf_size
  pub next_read : c.inbuf < input_buffer_size → c.inbuf + c.room ≤ buf_size

-- A predicate of every client, which may look at its position.
abbrev pub AllAt : (ℕ → Client → Type 0) → List Client → Type 0
AllAt P [] = Unit {0}
AllAt P (c ∷ rest) = P 0 c × AllAt (λ i. P (suc i)) rest

abbrev pub AllFit : List Client → Type 0
AllFit = AllAt (λ _. Fits)

map-AllAt :
    (P Q : ℕ → Client → Type 0) (l : List Client)
    → ((i : ℕ) (c : Client) → P i c → Q i c)
    → AllAt P l
    → AllAt Q l
map-AllAt P Q [] f h = tt
map-AllAt P Q (c ∷ l) f h =
    (f 0 c h.0, map-AllAt (λ i. P (suc i)) (λ i. Q (suc i)) l (λ i. f (suc i)) h.1)

-- What one client becomes, and what is known of the others.
pub modify-AllAt :
    (P Q : ℕ → Client → Type 0) (l : List Client) (k : ℕ) (f : Client → Client)
    → ((c : Client) → P k c → Q k (f c))
    → ((i : ℕ) (c : Client) → i ≢ k → P i c → Q i c)
    → AllAt P l
    → AllAt Q (modify l k f)
modify-AllAt P Q [] k f at other h = tt
modify-AllAt P Q (c ∷ l) zero f at other h = (
  at c h.0,
  map-AllAt (λ i. P (suc i)) (λ i. Q (suc i)) l (λ i d. other (suc i) d (omega arith)) h.1,
)
modify-AllAt P Q (c ∷ l) (suc k) f at other h = (
  other 0 c (omega arith) h.0,
  modify-AllAt (λ i. P (suc i)) (λ i. Q (suc i)) l k f at (λ i d ne. other (suc i) d (omega arith))
      h.1,
)

pub new_client-Fits : (fd : ℕ) → Fits (new_client fd)
unfolding new_client
new_client-Fits fd = record { whole = refl; within = omega arith; next_read = λ h. omega arith }

pub link_client-eq :
    (l : List Client) (c : Client) (l' : List Client) → link_client l c ≡ some l' → l' ≡ l ++ c ∷ []
unfolding link_client
link_client-eq [] c l' e = ground arith
link_client-eq (x ∷ l) c l' e = elim (Option-cases (link_client l c)) [
  | inl n ↦ ground (arith, n)
  | inr (m, q) ↦ ground (arith, q, link_client-eq l c m q)
]

pub AllFit-append : (a b : List Client) → AllFit a → AllFit b → AllFit (a ++ b)
AllFit-append [] b p q = q
AllFit-append (x ∷ a) b (f, p) q = (f, AllFit-append a b p q)

pub get-Fits : (l : List Client) (k : ℕ) (c : Client) → AllFit l → get_elem? l k ≡ some c → Fits c
get-Fits [] k c h e = cc
get-Fits (x ∷ l) zero c h e = ground (arith, h.0)
get-Fits (x ∷ l) (suc k) c h e = get-Fits l k c h.1 e

unlink-AllFit : (l : List Client) (k fd : ℕ) → AllFit l → AllFit (unlink l k fd)
unfolding unlink
unlink-AllFit [] k fd h = tt
unlink-AllFit (x ∷ l) k fd h = elim (Bool-cases (x.socket == fd)) [
  | inl e ↦ rw e h.1
  | inr e ↦ rw e (
      modify-AllAt (λ _. Fits) (λ _. Fits) (x ∷ l) k (λ c. record c { freed = true })
        (λ c f. record { whole = f.whole; within = f.within; next_read = f.next_read })
        (λ i c ne f. f) h)
]

pub remove_client-AllFit :
    (s t : Server) (fd : ℕ)
    → AllFit s.client_list
    → remove_client s fd ≡ some t
    → AllFit t.client_list
unfolding remove_client
remove_client-AllFit s t fd h e =
    let (o, e1, e2) = >>=-eq-some (find_client s.client_list fd) _ e in go o e2
  where
    go :
        (o : Option ℕ)
        → (elim o [
          | none ↦ some s
          | some k ↦ (get_elem? s.client_list k >>= λ c. remove_found s k fd c)
        ])
          ≡ some t
        → AllFit t.client_list
    go none p = ground (arith, h, p)
    go (some k) p =
        let (c, p1, p2) = >>=-eq-some (get_elem? s.client_list k) _ p in
        rw (remove_found-clients s t k fd c p2) (unlink-AllFit s.client_list k fd h)

pub fill-whole :
    (c : Client) (d : Bytes)
    → Fits c
    → c.inbuf + length d ≤ buf_size
    → length (fill c d).buf ≡ buf_size
unfolding fill
fill-whole c d f fits = omega (
  arith,
  f.whole,
  length-append (take c.inbuf c.buf) (d ++ drop (c.inbuf + length d) c.buf),
  length-append d (drop (c.inbuf + length d) c.buf),
  length-take c.inbuf c.buf,
  length-drop (c.inbuf + length d) c.buf,
)

pub fill-Fits :
    (c : Client) (d : Bytes) → Fits c → c.inbuf + length d ≤ buf_size → Fits (keep_room (fill c d))
unfolding keep_room fill
fill-Fits c d f fits = record {
  whole = unfold fill in fill-whole c d f fits;
  within = fits;
  next_read = λ h. omega arith;
}
