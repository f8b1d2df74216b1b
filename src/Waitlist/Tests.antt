-- ===== src/Waitlist/Tests.antt =====
-- A2/hcq.c and A2/helpcentre.c on a small help centre: two courses, one TA, two who wait and one who is
-- being helped.
use csc.Common.{
  ℕ, ◌≤◌, ◌≡◌, refl, inl, inr, Option, none, some, List, [], ◌∷◌, arith, ◌==◌, Bool-cases, Bytes,
  codes, str_eq,
}
use csc.Waitlist.{Student, Store, State, write}
use csc.Waitlist.Operations.{add_student, give_up_waiting, take_next_overall, take_next_course}
use csc.Waitlist.Reports.{Output, stats_by_course}
use csc.Waitlist.View.{Entry, Stats, View, Shows, by_course, addrs, of, course_of}
use csc.Waitlist.Links.{Linked}
use csc.Waitlist.Spec.{added, given_up, next_overall, next_course, Yields}
use csc.Waitlist.Add.{add_student-Yields}
use csc.Waitlist.GiveUp.{give_up_waiting-Yields}
use csc.Waitlist.Next.{take_next_overall-Yields}
use csc.Waitlist.NextCourse.{Answered, take_next_course-Yields}
use csc.Waitlist.Dangling.{Stuck, take_next_course-Stuck}
use csc.Waitlist.Statistics.{course_stats, stats_by_course_lem}
use csc.Waitlist.Commands.{run, start}
use csc.Waitlist.Requests.{Request, Line, asks, other, AllLines, texts_of, respond_all}
use csc.Waitlist.Runs.{Finishes, run-Finishes, start-Shows}
use csc.Waitlist.Answers.{opening, Answered-of}

abbrev systems_stats : Stats
systems_stats = record {
  code = codes "CSC209";
  description = codes "Systems";
  helped = 0;
  bailed = 0;
  wait_time = 0;
  help_time = 0;
}

abbrev kernels_stats : Stats
kernels_stats = record {
  code = codes "CSC369";
  description = codes "Kernels";
  helped = 0;
  bailed = 0;
  wait_time = 5;
  help_time = 0;
}

abbrev amy : Entry
amy = record { addr = 0; name = codes "Amy"; arrival = 10; course = 0 }

abbrev bob : Entry
bob = record { addr = 1; name = codes "Bob"; arrival = 20; course = 0 }

abbrev cat : Entry
cat = record { addr = 2; name = codes "Cat"; arrival = 30; course = 1 }

abbrev student : Entry → Option ℕ → Option ℕ → Student
student e p q = record {
  name = e.name;
  arrival_time = e.arrival;
  course = e.course;
  next_overall = p;
  next_course = q;
}

abbrev memory : Store
memory =
    write
      (write (write (λ p. none) 2 (some (student cat none none))) 1 (some (student bob none none)))
      0 (some (student amy (some 1) (some 1)))

abbrev busy_view : View
busy_view = record {
  queue = amy ∷ bob ∷ [];
  tas = record { name = codes "Kim"; student = some cat } ∷ [];
  stats = systems_stats ∷ kernels_stats ∷ [];
  next = 3;
}

abbrev busy : State
busy = record {
  store = memory;
  next = 3;
  courses = course_of systems_stats (amy ∷ bob ∷ []) ∷ course_of kernels_stats [] ∷ [];
  stu_list = some 0;
  ta_list = record { name = codes "Kim"; current_student = some 2 } ∷ [];
}

busy_within : (k : ℕ) → Linked (by_course memory) (addrs (of k (amy ∷ bob ∷ [])))
busy_within k = elim (Bool-cases (0 == k)) [ inl e ↦ rw e (refl, (refl, tt)) | inr e ↦ rw e tt ]

busy-Shows : Shows busy busy_view
busy-Shows = record {
  courses = refl;
  tas = refl;
  front = refl;
  along = (refl, (refl, tt));
  within = busy_within;
  good = (
    (refl, refl, omega arith, omega arith),
    ((refl, refl, omega arith, omega arith), ((refl, refl, omega arith, omega arith), tt)),
  );
  short = omega arith;
  fresh = refl;
}

add_student-Yields_example :
    Yields
      (add_student busy (codes "Dan") (codes "CSC369") 40)
      (added busy_view (codes "Dan") (codes "CSC369") 40)
add_student-Yields_example =
    add_student-Yields busy busy_view (codes "Dan") (codes "CSC369") 40 busy-Shows

give_up_waiting-Yields_example :
    Yields (give_up_waiting busy (codes "Bob") 40) (given_up busy_view (codes "Bob") 40)
give_up_waiting-Yields_example = give_up_waiting-Yields busy busy_view (codes "Bob") 40 busy-Shows

take_next_overall-Yields_example :
    Yields (take_next_overall busy (codes "Kim") 40) (next_overall busy_view (codes "Kim") 40)
take_next_overall-Yields_example =
    take_next_overall-Yields busy busy_view (codes "Kim") 40 busy-Shows

busy-Answered : Answered busy_view (codes "Kim") (codes "CSC209")
unfolding str_eq
busy-Answered = Answered-of busy_view (codes "Kim") (codes "CSC209") refl

take_next_course-Yields_example :
    Yields
      (take_next_course busy (codes "Kim") (codes "CSC209") 40)
      (next_course busy_view (codes "Kim") (codes "CSC209") 40)
take_next_course-Yields_example =
    take_next_course-Yields busy busy_view (codes "Kim") (codes "CSC209") 40 busy-Shows
      busy-Answered

take_next_course-Stuck_example :
    (u : State) × (take_next_course busy (codes "Kim") (codes "CSC369") 40 ≡ some (0, u))
    × Stuck u (codes "Kim")
unfolding str_eq
take_next_course-Stuck_example =
    take_next_course-Stuck busy busy_view (codes "Kim") (codes "CSC369") 40 0 1 cat busy-Shows refl
      refl refl refl

stats_by_course_lem_example :
    stats_by_course busy (codes "CSC209") ≡ some (0, course_stats busy_view 0 systems_stats ∷ [])
unfolding str_eq
stats_by_course_lem_example = stats_by_course_lem busy busy_view (codes "CSC209") busy-Shows

abbrev config : List (Bytes × Bytes)
config = (codes "CSC209", codes "Systems") ∷ (codes "CSC369", codes "Kernels") ∷ []

abbrev session : List (Line × ℕ)
session =
    (asks (Request.arrive (codes "Kim")), 1)
    ∷ (asks (Request.join (codes "Amy") (codes "CSC209")), 2)
    ∷ (asks (Request.join (codes "Bob") (codes "CSC369")), 3)
    ∷ (asks (Request.join (codes "Bob") (codes "CSC209")), 4)
    ∷ (asks (Request.call_for (codes "Kim") (codes "CSC369")), 5)
    ∷ (asks (Request.withdraw (codes "Amy")), 6)
    ∷ (other (codes "no" ∷ codes "such" ∷ codes "long" ∷ codes "line" ∷ []), 6)
    ∷ (asks Request.list_queues, 7)
    ∷ (asks Request.leave, 8)
    ∷ []

session_texts :
    texts_of session
    ≡ (codes "add_ta Kim\n", 1)
      ∷ (codes "add_student Amy CSC209\n", 2)
      ∷ (codes "add_student Bob CSC369\n", 3)
      ∷ (codes "add_student Bob CSC209\n", 4)
      ∷ (codes "next Kim CSC369\n", 5)
      ∷ (codes "give_up Amy\n", 6)
      ∷ (codes "no such long line\n", 6)
      ∷ (codes "print_all_queues\n", 7)
      ∷ (codes "quit\n", 8)
      ∷ []
session_texts = refl

session-AllLines : AllLines session
session-AllLines = (
  refl,
  tt,
  (
    refl,
    tt,
    (
      refl,
      tt,
      (
        refl,
        tt,
        (refl, tt, (refl, tt, (refl, (λ few. absurd (four few)), (refl, tt, (refl, tt, tt))))),
      ),
    ),
  ),
)
  where
    four : 4 ≤ 3 → ⊥
    four few = omega (arith, few)

abbrev closing : View × List Output
closing = (
  record {
    queue = record { addr = 0; name = codes "Amy"; arrival = 2; course = 0 } ∷ [];
    tas =
        record {
          name = codes "Kim";
          student = some (record { addr = 1; name = codes "Bob"; arrival = 5; course = 1 });
        }
        ∷ [];
    stats =
        record systems_stats { bailed = 1; wait_time = 4 }
        ∷ record kernels_stats { wait_time = 2 }
        ∷ [];
    next = 3;
  },
  Output.error (codes "This student is already in the queue.")
      ∷ Output.error (codes "Too many arguments.")
      ∷ Output.in_queue (codes "CSC209") 1
      ∷ Output.waits (codes "Amy")
      ∷ Output.in_queue (codes "CSC369") 0
      ∷ [],
)

run-Finishes_example : Finishes (run (texts_of session) (start config)) closing
unfolding str_eq respond_all
run-Finishes_example =
    run-Finishes session (start config) (opening config) closing session-AllLines
      (start-Shows config) refl
