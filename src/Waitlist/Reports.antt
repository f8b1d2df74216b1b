-- ===== src/Waitlist/Reports.antt =====
-- A2/hcq.c, lines 333 to 433: what the program prints, as values that hold what each `printf` is given.
-- The loops only read the store.
use csc.Common.{
  ℕ, zero, suc, ◌+◌, ◌>>=◌, true, false, Option, none, some, List, [], ◌∷◌, ◌++◌, ◌==◌, get_elem?,
  Bytes,
}
use csc.Waitlist.{Ta, Course, Store, State, rounds, find_course}

pub data Output : Type 0 where
  in_queue : Bytes → ℕ → Output
  waits : Bytes → Output
  no_tas : Output
  serving : Bytes → Bytes → Bytes → Output
  has_no_student : Bytes → Output
  queued : Bytes → Bytes → ℕ → Output
  followed_by : Bytes → Option Bytes → Output
  stats : Bytes → Bytes → ℕ → ℕ → ℕ → ℕ → ℕ → ℕ → Output
  help : Output
  error : Bytes → Output

-- while (head) along `next_course`: the count, and the names
unfoldable pub count_waiting : ℕ → Store → Option ℕ → ℕ → Option ℕ
count_waiting zero h head waiting_students = none
count_waiting (suc k) h none waiting_students = some waiting_students
count_waiting (suc k) h (some p) waiting_students =
    h p >>= λ n. count_waiting k h n.next_course (waiting_students + 1)

unfoldable pub print_names : ℕ → Store → Option ℕ → Option (List Output)
print_names zero h head = none
print_names (suc k) h none = some []
print_names (suc k) h (some p) =
    h p >>= λ n. print_names k h n.next_course >>= λ l. some (Output.waits n.name ∷ l)

unfoldable pub print_queues : ℕ → Store → List Course → Option (List Output)
print_queues k h [] = some []
print_queues k h (c ∷ rest) = count_waiting k h c.head 0 >>= λ n.
    print_names k h c.head >>= λ names.
    print_queues k h rest >>= λ l. some (Output.in_queue c.code n ∷ names ++ l)

unfoldable pub print_all_queues : State → Option (List Output)
print_all_queues s = print_queues (rounds s) s.store s.courses

unfoldable pub print_tas : State → List Ta → Option (List Output)
print_tas s [] = some []
print_tas s (t ∷ rest) = elim t.current_student [
  | none ↦ print_tas s rest >>= λ l. some (Output.has_no_student t.name ∷ l)
  | some p ↦ s.store p >>= λ n. get_elem? s.courses n.course >>= λ c.
      print_tas s rest >>= λ l. some (Output.serving t.name n.name c.code ∷ l)
]

unfoldable pub print_ta_list : State → List Ta → Option (List Output)
print_ta_list s [] = some (Output.no_tas ∷ [])
print_ta_list s (t ∷ rest) = print_tas s (t ∷ rest)

unfoldable pub print_currently_serving : State → Option (List Output)
print_currently_serving s = print_ta_list s s.ta_list

-- The name of the next student, NULL where there is none.
abbrev pub next_name : Store → Option ℕ → Option (Option Bytes)
next_name h none = some none
next_name h (some p) = h p >>= λ n. some (some n.name)

unfoldable pub print_students : ℕ → State → Option ℕ → Option (List Output)
print_students zero s current_student = none
print_students (suc k) s none = some []
print_students (suc k) s (some p) = s.store p >>= λ n. get_elem? s.courses n.course >>= λ c.
    elim n.next_overall [
      | none ↦ some (Output.queued n.name c.code n.arrival_time ∷ [])
      | some q ↦ s.store q >>= λ m. next_name s.store n.next_course >>= λ name.
          print_students k s (some q) >>= λ l.
          some (Output.queued n.name c.code n.arrival_time ∷ Output.followed_by m.name name ∷ l)
    ]

unfoldable pub print_full_queue : State → Option (List Output)
print_full_queue s = print_students (rounds s) s s.stu_list

unfoldable pub count_helped : Store → ℕ → List Ta → ℕ → Option ℕ
count_helped h found [] students_being_helped = some students_being_helped
count_helped h found (t ∷ rest) students_being_helped = elim t.current_student [
  | none ↦ count_helped h found rest students_being_helped
  | some p ↦ h p >>= λ n. elim (n.course == found) [
    | true ↦ count_helped h found rest (students_being_helped + 1)
    | false ↦ count_helped h found rest students_being_helped
  ]
]

-- There is no test for a course that is not found.
unfoldable pub stats_by_course : State → Bytes → Option (ℕ × List Output)
stats_by_course s course_code = find_course s.courses course_code >>= λ k.
    get_elem? s.courses k >>= λ found. count_waiting (rounds s) s.store found.head 0 >>= λ waiting.
    count_helped s.store k s.ta_list 0 >>= λ helped_now. some (
      0,
      Output.stats found.code found.description waiting helped_now found.helped found.bailed
            found.wait_time found.help_time
          ∷ [],
    )
