-- ===== src/Waitlist/Spec.antt =====
-- A2/hcq.c: what the operations do to the queue, the TAs and the statistics, without pointers. The
-- number is what the function returns.
use csc.Common.{
  ℕ, zero, suc, ◌+◌, ◌≡◌, Option, none, some, List, [], ◌∷◌, ◌++◌, ◌==◌, if◌then◌else◌, get_elem?,
  set, Bytes, str_eq,
}
use csc.Waitlist.{State, difftime}
use csc.Waitlist.View.{Entry, TaView, Stats, View}
use csc.Waitlist.View
use csc.Waitlist.Walks.{find_entry}
use csc.Waitlist.Courses.{find_stats}
use mathlib.Core.Option

abbrev pub change : List Stats → ℕ → (Stats → Stats) → List Stats
change l k f = elim (get_elem? l k) [ none ↦ l | some c ↦ set l k (f c) ]

abbrev pub waited_more : ℕ → Stats → Stats
waited_more t c = record c { wait_time = c.wait_time + t }

abbrev pub one_bailed : Stats → Stats
one_bailed c = record c { bailed = c.bailed + 1 }

abbrev pub one_helped : ℕ → Stats → Stats
one_helped t c = record c { help_time = c.help_time + t; helped = c.helped + 1 }

-- The new student is the last of the queue. An address is spent on a name that waits already, too.
abbrev pub newcomer : ℕ → Bytes → ℕ → ℕ → Entry
newcomer p name now k = record { addr = p; name = name; arrival = now; course = k }

abbrev pub added : View → Bytes → Bytes → ℕ → ℕ × View
added v name code now = elim (find_stats v.stats code) [
  | none ↦ (2, v)
  | some k ↦ elim (find_entry name v.queue) [
    | none ↦ (0, record v { queue = v.queue ++ newcomer v.next name now k ∷ []; next = suc v.next })
    | some e ↦ (1, record v { next = suc v.next })
  ]
]

-- The student is counted as gone, and still waits.
abbrev pub given_up : View → Bytes → ℕ → ℕ × View
given_up v name now = elim (find_entry name v.queue) [
  | none ↦ (1, v)
  | some e ↦ (
    0,
    record v {
      stats = change v.stats e.course (λ c. one_bailed (waited_more (difftime now e.arrival) c));
    },
  )
]

abbrev pub find_view : List TaView → Bytes → Option ℕ
find_view [] name = none
find_view (t ∷ l) name =
    let rest = find_view l name in if str_eq t.name name then some 0 else Option.map suc rest

abbrev pub hand : List TaView → ℕ → Option Entry → List TaView
hand [] i e = []
hand (t ∷ l) zero e = record t { student = e } ∷ l
hand (t ∷ l) (suc i) e = t ∷ hand l i e

abbrev pub in_hand : List TaView → ℕ → Option Entry
in_hand [] i = none
in_hand (t ∷ l) zero = t.student
in_hand (t ∷ l) (suc i) = in_hand l i

-- The TA at the position `i` is done with the student in hand, if any.
abbrev pub finished : View → ℕ → ℕ → View
finished v i now = elim (in_hand v.tas i) [
  | none ↦ v
  | some e ↦ record v {
    tas = hand v.tas i none;
    stats = change v.stats e.course (one_helped (difftime now e.arrival));
  }
]

-- The student `e` leaves the queue for that TA, `rest` is left.
abbrev pub called : View → ℕ → Entry → List Entry → ℕ → View
called v i e rest now = record v {
  queue = rest;
  tas = hand v.tas i (some (record e { arrival = now }));
  stats = change v.stats e.course (waited_more (difftime now e.arrival));
}

abbrev pub call_first : View → ℕ → ℕ → View
call_first v i now = elim v.queue [ [] ↦ v | e ∷ rest ↦ called v i e rest now ]

abbrev pub next_overall : View → Bytes → ℕ → ℕ × View
next_overall v ta_name now = elim (find_view v.tas ta_name) [
  | none ↦ (1, v)
  | some i ↦ (0, call_first (finished v i now) i now)
]

-- The first who waits for the course `k`, and the others.
abbrev pub take_out : ℕ → List Entry → Option (Entry × List Entry)
take_out k [] = none
take_out k (e ∷ q) =
    let later : Option (Entry × List Entry) = elim (take_out k q) [
      | none ↦ none
      | some (x, r) ↦ some (x, e ∷ r)
    ] in
    if e.course == k then some (e, q) else later

abbrev pub call_for : View → ℕ → ℕ → ℕ → View
call_for v i k now = elim (take_out k v.queue) [ none ↦ v | some (e, rest) ↦ called v i e rest now ]

abbrev pub next_course : View → Bytes → Bytes → ℕ → ℕ × View
next_course v ta_name code now = elim (find_view v.tas ta_name) [
  | none ↦ (1, v)
  | some i ↦ elim (find_stats v.stats code) [
    | none ↦ (2, finished v i now)
    | some k ↦ (0, call_for (finished v i now) i k now)
  ]
]

abbrev pub drop_ta : List TaView → ℕ → List TaView
drop_ta [] i = []
drop_ta (t ∷ l) zero = l
drop_ta (t ∷ l) (suc i) = t ∷ drop_ta l i

abbrev pub removed : View → Bytes → ℕ → ℕ × View
removed v ta_name now = elim (find_view v.tas ta_name) [
  | none ↦ (1, v)
  | some i ↦ (0, record (finished v i now) { tas = drop_ta v.tas i })
]

-- The call returns, with that number and a state that shows that view.
abbrev pub Yields : Option (ℕ × State) → ℕ × View → Type 0
Yields r (code, v) = (u : State) × (r ≡ some (code, u)) × View.Shows u v
