-- ===== src/Waitlist/View.antt =====
-- What a state of A2/hcq.c stands for: the waiting students in order, each TA with the student in
-- hand, and the statistics of each course.
use csc.Common.{
  ℕ, suc, ◌≤◌, ◌<◌, ◌≡◌, ◌>>=◌, false, Option, none, some, List, [], ◌∷◌, ◌++◌, map, ◌==◌,
  if◌then◌else◌, length, Bytes,
}
use csc.Waitlist.{Ta, Course, Store, State}
use csc.Waitlist.Links.{first, last, has, Linked}

-- A student, at an address.
pub record Entry : Type 0 where
  pub addr : ℕ
  pub name : Bytes
  pub arrival : ℕ
  pub course : ℕ

pub record TaView : Type 0 where
  pub name : Bytes
  pub student : Option Entry

pub record Stats : Type 0 where
  pub code : Bytes
  pub description : Bytes
  pub helped : ℕ
  pub bailed : ℕ
  pub wait_time : ℕ
  pub help_time : ℕ

-- `next` is the first address that was never given out.
pub record View : Type 0 where
  pub queue : List Entry
  pub tas : List TaView
  pub stats : List Stats
  pub next : ℕ

abbrev pub addrs : List Entry → List ℕ
addrs [] = []
addrs (e ∷ q) = e.addr ∷ addrs q

-- Those who wait for one course.
abbrev pub of : ℕ → List Entry → List Entry
of k [] = []
of k (e ∷ q) = let rest = of k q in if e.course == k then e ∷ rest else rest

-- Those whom the TAs help.
abbrev pub served : List TaView → List Entry
served [] = []
served (t ∷ l) = elim t.student [ none ↦ served l | some e ↦ e ∷ served l ]

abbrev pub live : View → List Entry
live v = v.queue ++ served v.tas

abbrev pub addr_of : Option Entry → Option ℕ
addr_of none = none
addr_of (some e) = some e.addr

abbrev pub ta_of : TaView → Ta
ta_of t = record { name = t.name; current_student = addr_of t.student }

abbrev pub course_of : Stats → List Entry → Course
course_of c l = record {
  code = c.code;
  description = c.description;
  head = first (addrs l);
  tail = last (addrs l);
  helped = c.helped;
  bailed = c.bailed;
  wait_time = c.wait_time;
  help_time = c.help_time;
}

-- The array of courses, from the position `k` on.
abbrev pub courses_of : ℕ → List Stats → List Entry → List Course
courses_of k [] q = []
courses_of k (c ∷ cs) q = course_of c (of k q) ∷ courses_of (suc k) cs q

abbrev pub overall : Store → ℕ → Option (Option ℕ)
overall h a = h a >>= λ n. some n.next_overall

abbrev pub by_course : Store → ℕ → Option (Option ℕ)
by_course h a = h a >>= λ n. some n.next_course

abbrev pub Info : Type 0
Info = Bytes × ℕ × ℕ

abbrev pub info : Store → ℕ → Option Info
info h a = h a >>= λ n. some (n.name, n.arrival_time, n.course)

abbrev pub Infos : Store → List Entry → Type 0
Infos h [] = Unit {0}
Infos h (e ∷ l) = (info h e.addr ≡ some (e.name, e.arrival, e.course)) × Infos h l

-- Each student is in the store as the view says, at an address that was given out and that no other
-- one has, and has a course of the list.
abbrev pub Facts : Store → ℕ → ℕ → Entry → List Entry → Type 0
Facts h next courses e l =
    (info h e.addr ≡ some (e.name, e.arrival, e.course))
    × (has e.addr (addrs l) ≡ false)
    × (e.addr < next)
    × (e.course < courses)

abbrev pub Good : Store → ℕ → ℕ → List Entry → Type 0
Good h next courses [] = Unit {0}
Good h next courses (e ∷ l) = Facts h next courses e l × Good h next courses l

-- The state stands for the view: both kinds of links hold what the order of the queue says, and no
-- student is reached in two ways.
pub record Shows (s : State) (v : View) : Type 0 where
  pub courses : s.courses ≡ courses_of 0 v.stats v.queue
  pub tas : s.ta_list ≡ map ta_of v.tas
  pub front : s.stu_list ≡ first (addrs v.queue)
  pub along : Linked (overall s.store) (addrs v.queue)
  pub within : (k : ℕ) → Linked (by_course s.store) (addrs (of k v.queue))
  pub good : Good s.store s.next (length v.stats) (live v)
  pub short : length v.queue ≤ s.next
  pub fresh : s.next ≡ v.next
