-- ===== src/Waitlist/Requests.antt =====
-- A2/helpcentre.c: what can be asked for, how it is spelled, and what a view answers to it.
use csc.Common.{
  ℕ, ◌≤◌, ◌≡◌, ◌>>=◌, ◌≢◌, true, false, Option, none, some, List, [], ◌∷◌, ◌++◌, map, leb, ◌==◌,
  if◌then◌else◌, length, get_elem?, Bytes, codes,
}
use Prim.Native.String.{String}
use csc.HelpCentre.Commands.Words.{are_words, line_of}
use csc.Waitlist.Reports.{Output}
use csc.Waitlist.View.{View}
use csc.Waitlist.Spec.{added, given_up, next_overall, next_course, removed}
use csc.Waitlist.Courses.{find_stats}
use csc.Waitlist.Printed.{all_queues}
use csc.Waitlist.Statistics.{course_stats, serving_report}
use csc.Waitlist.FullQueue.{queue_report}
use csc.Waitlist.Answers.{Answer, unanswered}

pub data Request : Type 0 where
  nothing : Request
  leave : Request
  ask_help : Request
  pause : Request
  join : Bytes → Bytes → Request
  list_queue : Request
  list_serving : Request
  list_queues : Request
  statistics : Bytes → Request
  withdraw : Bytes → Request
  arrive : Bytes → Request
  depart : Bytes → Request
  call : Bytes → Request
  call_for : Bytes → Bytes → Request

-- The words of a request.
abbrev pub spelled : Request → List Bytes
spelled Request.nothing = []
spelled Request.leave = codes "quit" ∷ []
spelled Request.ask_help = codes "help" ∷ []
spelled Request.pause = codes "sleep" ∷ []
spelled (Request.join name course) = codes "add_student" ∷ name ∷ course ∷ []
spelled Request.list_queue = codes "print_full_queue" ∷ []
spelled Request.list_serving = codes "print_currently_serving" ∷ []
spelled Request.list_queues = codes "print_all_queues" ∷ []
spelled (Request.statistics course) = codes "stats_by_course" ∷ course ∷ []
spelled (Request.withdraw name) = codes "give_up" ∷ name ∷ []
spelled (Request.arrive ta) = codes "add_ta" ∷ ta ∷ []
spelled (Request.depart ta) = codes "remove_ta" ∷ ta ∷ []
spelled (Request.call ta) = codes "next" ∷ ta ∷ []
spelled (Request.call_for ta course) = codes "next" ∷ ta ∷ course ∷ []

abbrev told : String → List Output
told msg = Output.error (codes msg) ∷ []

-- What is told to a student who cannot join, to one who does not wait, and of a TA.
abbrev join_told : ℕ → List Output
join_told result =
    if result == 1
    then told "This student is already in the queue."
    else if result == 2
    then told "Invalid Course -- student not added."
    else []

abbrev withdraw_told : ℕ → List Output
withdraw_told result =
    if result == 1 then told "There was no student by that name waiting in the queue." else []

abbrev ta_told : ℕ → List Output
ta_told result = if result == 1 then told "Invalid TA name." else []

abbrev call_told : ℕ → List Output
call_told result =
    if result == 1
    then told "Invalid TA name."
    else if result == 2
    then told "Invalid course code."
    else []

-- The answer: whether the session is over, the view after it, and what is printed. There is none to
-- statistics of a course that is not there, and to a TA with a student in hand who calls for a course
-- for which nobody waits.
abbrev pub fulfil : Request → View → ℕ → Option Answer
fulfil Request.nothing v now = some (false, v, [])
fulfil Request.leave v now = some (true, v, [])
fulfil Request.ask_help v now = some (false, v, Output.help ∷ [])
fulfil Request.pause v now = some (false, v, [])
fulfil (Request.join name course) v now =
    some (false, (added v name course now).1, join_told (added v name course now).0)
fulfil Request.list_queue v now = some (false, v, queue_report v.stats v.queue)
fulfil Request.list_serving v now = some (false, v, serving_report v.stats v.tas)
fulfil Request.list_queues v now = some (false, v, all_queues 0 v.stats v.queue)
fulfil (Request.statistics course) v now = find_stats v.stats course >>= λ k.
    get_elem? v.stats k >>= λ c. some (false, v, course_stats v k c ∷ [])
fulfil (Request.withdraw name) v now =
    some (false, (given_up v name now).1, withdraw_told (given_up v name now).0)
fulfil (Request.arrive ta) v now =
    some (false, record v { tas = record { name = ta; student = none } ∷ v.tas }, [])
fulfil (Request.depart ta) v now = some (false, (removed v ta now).1, ta_told (removed v ta now).0)
fulfil (Request.call ta) v now =
    some (false, (next_overall v ta now).1, ta_told (next_overall v ta now).0)
fulfil (Request.call_for ta course) v now =
    if unanswered v ta course
    then none
    else some (false, (next_course v ta course now).1, call_told (next_course v ta course now).0)

-- A line asks for something, or its words spell no request.
pub data Line : Type 0 where
  asks : Request → Line
  other : List Bytes → Line

abbrev pub words_of : Line → List Bytes
words_of (asks r) = spelled r
words_of (other ws) = ws

abbrev pub text_of : Line → Bytes
text_of l = line_of (words_of l)

abbrev pub respond : Line → View → ℕ → Option Answer
respond (asks r) v now = fulfil r v now
respond (other ws) v now =
    if leb (length ws) 3
    then some (false, v, told "Incorrect syntax.")
    else some (false, v, told "Too many arguments.")

abbrev pub IsOther : Line → Type 0
IsOther (asks r) = Unit {0}
IsOther (other ws) = length ws ≤ 3 → (r : Request) → spelled r ≢ ws

-- Each line is made of words, and those that ask for nothing spell no request.
abbrev pub AllLines : List (Line × ℕ) → Type 0
AllLines [] = Unit {0}
AllLines ((l, now) ∷ session) = (are_words (words_of l) ≡ true) × IsOther l × AllLines session

abbrev pub texts_of : List (Line × ℕ) → List (Bytes × ℕ)
texts_of session = map (λ (l : Line × ℕ). (text_of l.0, l.1)) session

-- The view after the session, which ends with its lines or with `leave`, and all that is printed.
unfoldable pub respond_all : List (Line × ℕ) → View → Option (View × List Output)
respond_all [] v = some (v, [])
respond_all ((l, now) ∷ session) v = respond l v now >>= λ (r : Answer). elim r.0 [
  | true ↦ some (r.1, r.2)
  | false ↦ respond_all session r.1 >>= λ (z : View × List Output). some (z.0, r.2 ++ z.1)
]
