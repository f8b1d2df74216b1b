-- ===== src/Waitlist/Dispatch.antt =====
-- A2/helpcentre.c: the words of each request lead `process_args` to its command, and no others do.
use csc.Common.{
  ℕ, ◌≤◌, ◌≡◌, refl, sym, ap, ◌∙◌, ◌≢◌, inl, inr, false, List, [], ◌∷◌, arith, Bool-cases, length,
  Bytes, strcmp, str_eq, str_eq_iff,
}
use csc.Waitlist.View.{View}
use csc.Waitlist.Commands.{Command, command}
use csc.Waitlist.Answers.{perform}
use csc.Waitlist.Requests.{Request, spelled, fulfil}

abbrev pub as_command : Request → Command
as_command Request.nothing = Command.no_words
as_command Request.leave = Command.quit
as_command Request.ask_help = Command.show_help
as_command Request.pause = Command.sleep
as_command (Request.join name course) = Command.add name course
as_command Request.list_queue = Command.full_queue
as_command Request.list_serving = Command.currently_serving
as_command Request.list_queues = Command.all_queues
as_command (Request.statistics course) = Command.stats_of course
as_command (Request.withdraw name) = Command.give_up name
as_command (Request.arrive ta) = Command.new_ta ta
as_command (Request.depart ta) = Command.without ta
as_command (Request.call ta) = Command.next ta
as_command (Request.call_for ta course) = Command.next_in ta course

pub command-spelled : (r : Request) → command (spelled r) ≡ as_command r
unfolding command str_eq strcmp
command-spelled Request.nothing = refl
command-spelled Request.leave = refl
command-spelled Request.ask_help = refl
command-spelled Request.pause = refl
command-spelled (Request.join name course) = refl
command-spelled Request.list_queue = refl
command-spelled Request.list_serving = refl
command-spelled Request.list_queues = refl
command-spelled (Request.statistics course) = refl
command-spelled (Request.withdraw name) = refl
command-spelled (Request.arrive ta) = refl
command-spelled (Request.depart ta) = refl
command-spelled (Request.call ta) = refl
command-spelled (Request.call_for ta course) = refl

pub spelled-few : (r : Request) → length (spelled r) ≤ 3
spelled-few Request.nothing = omega arith
spelled-few Request.leave = omega arith
spelled-few Request.ask_help = omega arith
spelled-few Request.pause = omega arith
spelled-few (Request.join name course) = omega arith
spelled-few Request.list_queue = omega arith
spelled-few Request.list_serving = omega arith
spelled-few Request.list_queues = omega arith
spelled-few (Request.statistics course) = omega arith
spelled-few (Request.withdraw name) = omega arith
spelled-few (Request.arrive ta) = omega arith
spelled-few (Request.depart ta) = omega arith
spelled-few (Request.call ta) = omega arith
spelled-few (Request.call_for ta course) = omega arith

pub perform-fulfil :
    (r : Request) (v : View) (now : ℕ) → perform (as_command r) v now ≡ fulfil r v now
perform-fulfil Request.nothing v now = refl
perform-fulfil Request.leave v now = refl
perform-fulfil Request.ask_help v now = refl
perform-fulfil Request.pause v now = refl
perform-fulfil (Request.join name course) v now = refl
perform-fulfil Request.list_queue v now = refl
perform-fulfil Request.list_serving v now = refl
perform-fulfil Request.list_queues v now = refl
perform-fulfil (Request.statistics course) v now = refl
perform-fulfil (Request.withdraw name) v now = refl
perform-fulfil (Request.arrive ta) v now = refl
perform-fulfil (Request.depart ta) v now = refl
perform-fulfil (Request.call ta) v now = refl
perform-fulfil (Request.call_for ta course) v now = refl

other_word : (a b : Bytes) → a ≢ b → str_eq a b ≡ false
other_word a b h = elim (Bool-cases (str_eq a b)) [
  | inl e ↦ absurd (h ((str_eq_iff a b).0 e))
  | inr e ↦ e
]

-- Up to three words that spell no request.
pub command-other :
    (ws : List Bytes)
    → length ws ≤ 3
    → ((r : Request) → spelled r ≢ ws)
    → command ws ≡ Command.incorrect
unfolding command
command-other [] l h = absurd (h Request.nothing refl)
command-other (w ∷ []) l h =
    let is_not : (r : Request) (b : Bytes) → spelled r ≡ b ∷ [] → str_eq w b ≡ false =
      λ r b e. other_word w b (λ q. h r (e ∙ ap (λ c. c ∷ []) (sym q))) in
    rw
      (
        is_not Request.leave _ refl,
        is_not Request.ask_help _ refl,
        is_not Request.pause _ refl,
        is_not Request.list_queue _ refl,
        is_not Request.list_serving _ refl,
        is_not Request.list_queues _ refl,
      )
      refl
command-other (w ∷ a ∷ []) l h =
    let is_not : (r : Request) (b : Bytes) → spelled r ≡ b ∷ a ∷ [] → str_eq w b ≡ false =
      λ r b e. other_word w b (λ q. h r (e ∙ ap (λ c. c ∷ a ∷ []) (sym q))) in
    rw
      (
        is_not (Request.statistics a) _ refl,
        is_not (Request.withdraw a) _ refl,
        is_not (Request.arrive a) _ refl,
        is_not (Request.depart a) _ refl,
        is_not (Request.call a) _ refl,
      )
      refl
command-other (w ∷ a ∷ b ∷ []) l h =
    let is_not : (r : Request) (c : Bytes) → spelled r ≡ c ∷ a ∷ b ∷ [] → str_eq w c ≡ false =
      λ r c e. other_word w c (λ q. h r (e ∙ ap (λ d. d ∷ a ∷ b ∷ []) (sym q))) in
    rw (is_not (Request.join a b) _ refl, is_not (Request.call_for a b) _ refl) refl
command-other (w ∷ a ∷ b ∷ c ∷ ws) l h = refl
