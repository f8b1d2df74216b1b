-- ===== src/Waitlist/Operations.antt =====
-- A2/hcq.c: the operations on the queue.
use csc.Common.{
  ℕ, zero, suc, ◌>>=◌, true, false, Option, none, some, List, [], ◌∷◌, ◌==◌, if◌then◌else◌,
  get_elem?, set, Bytes, str_eq,
}
use csc.Waitlist.{
  Student, Ta, Course, Store, State, load, write, set_next_overall, set_next_course, ptr_eq, rounds,
  find_student, find_ta, find_course, new_student, waited, gave_up, helped_for, difftime,
}

-- while (student_queue_tail->next_overall)
unfoldable pub find_tail : ℕ → Store → ℕ → Option ℕ
find_tail zero h p = none
find_tail (suc k) h p =
    h p >>= λ n. elim n.next_overall [ none ↦ some p | some q ↦ find_tail k h q ]

unfoldable pub link_overall : State → ℕ → Option State
link_overall s p = elim s.stu_list [
  | none ↦ some (record s { stu_list = some p })
  | some first ↦ find_tail (rounds s) s.store first >>= λ last.
      set_next_overall s.store (some last) (some p) >>= λ h. some (record s { store = h })
]

unfoldable pub link_course : State → ℕ → ℕ → Option State
link_course s k p = get_elem? s.courses k >>= λ c. elim c.head [
  | none ↦ some (record s { courses = set s.courses k (record c { head = some p; tail = some p }) })
  | some first ↦ set_next_course s.store c.tail (some p) >>= λ h.
      some (record s { store = h; courses = set s.courses k (record c { tail = some p }) })
]

-- The new student is made before the queue is searched, and is lost if the name waits already.
unfoldable pub add_student : State → Bytes → Bytes → ℕ → Option (ℕ × State)
add_student s student_name course_code now = elim (find_course s.courses course_code) [
  | none ↦ some (2, s)
  | some k ↦
      (let p = s.next in
        let made = record s {
          store = write s.store p (some (new_student student_name now k));
          next = suc p;
        } in
        find_student (rounds made) made.store made.stu_list student_name >>= λ found. elim found [
          | some old ↦ some (1, made)
          | none ↦ link_overall made p >>= λ t. link_course t k p >>= λ u. some (0, u)
        ])
]

-- while (queued && queued != found), along `next_overall` and along `next_course`
unfoldable pub walk_overall : ℕ → Store → Option ℕ → ℕ → Option (Option ℕ)
walk_overall zero h queued found = none
walk_overall (suc k) h none found = some none
walk_overall (suc k) h (some p) found = elim (p == found) [
  | true ↦ some (some p)
  | false ↦ h p >>= λ n. walk_overall k h n.next_overall found
]

unfoldable pub walk_course : ℕ → Store → Option ℕ → ℕ → Option (Option ℕ)
walk_course zero h queued found = none
walk_course (suc k) h none found = some none
walk_course (suc k) h (some p) found = elim (p == found) [
  | true ↦ some (some p)
  | false ↦ h p >>= λ n. walk_course k h n.next_course found
]

-- The writes of `give_up_waiting`, for the two students that the walks have come to.
unfoldable pub unlink : Store → Student → Option ℕ → Option ℕ → Option Store
unlink h found queued_overall queued_course = elim (ptr_eq queued_course queued_overall) [
  | true ↦ set_next_overall h queued_course found.next_overall >>= λ h'.
      set_next_course h' queued_course found.next_course
  | false ↦ set_next_overall h queued_overall found.next_overall >>= λ h'.
      set_next_course h' queued_course found.next_course
]

unfoldable pub give_up_found : State → ℕ → ℕ → Option (ℕ × State)
give_up_found s found now = s.store found >>= λ n. get_elem? s.courses n.course >>= λ c.
    walk_overall (rounds s) s.store s.stu_list found >>= λ queued_overall.
    walk_course (rounds s) s.store c.head found >>= λ queued_course.
    unlink s.store n queued_overall queued_course >>= λ h. some (
      0,
      record s {
        store = h;
        courses = set s.courses n.course (gave_up (waited (difftime now n.arrival_time) c));
      },
    )

unfoldable pub give_up_waiting : State → Bytes → ℕ → Option (ℕ × State)
give_up_waiting s student_name now =
    find_student (rounds s) s.store s.stu_list student_name >>= λ found_student.
    elim found_student [ none ↦ some (1, s) | some found ↦ give_up_found s found now ]

unfoldable pub add_ta : State → Bytes → State
add_ta s ta_name = record s {
  ta_list = record { name = ta_name; current_student = none } ∷ s.ta_list;
}

-- The student is freed; the pointer of the TA is left as it is.
unfoldable pub release_current_student : State → Option ℕ → ℕ → Option State
release_current_student s none now = some s
release_current_student s (some p) now = s.store p >>= λ n. get_elem? s.courses n.course >>= λ c.
    some (record s {
      store = write s.store p none;
      courses = set s.courses n.course (helped_for (difftime now n.arrival_time) c);
    })

-- The TA of that name, and the list without it.
unfoldable pub without_ta : List Ta → Bytes → Option (Ta × List Ta)
without_ta [] ta_name = none
without_ta (t ∷ rest) ta_name =
    let later : Option (Ta × List Ta) = elim (without_ta rest ta_name) [
      | none ↦ none
      | some (u, l) ↦ some (u, t ∷ l)
    ] in
    if str_eq t.name ta_name then some (t, rest) else later

unfoldable pub remove_ta : State → Bytes → ℕ → Option (ℕ × State)
remove_ta s ta_name now = elim (without_ta s.ta_list ta_name) [
  | none ↦ some (1, s)
  | some (t, rest) ↦
      release_current_student s t.current_student now >>= λ u. some (0, record u { ta_list = rest })
]

abbrev pub give : List Ta → ℕ → Option ℕ → List Ta
give [] i p = []
give (t ∷ rest) zero p = record t { current_student = p } ∷ rest
give (t ∷ rest) (suc i) p = t ∷ give rest i p

-- The first of a course leaves its list.
unfoldable pub next_of_course : Store → Course → Option Course
next_of_course h c = elim (ptr_eq c.head c.tail) [
  | true ↦ some (record c { head = none; tail = none })
  | false ↦ load h c.head >>= λ n. some (record c { head = n.next_course })
]

unfoldable pub take_first : State → ℕ → ℕ → Option (ℕ × State)
take_first s ta now = elim s.stu_list [
  | none ↦ some (0, record s { ta_list = give s.ta_list ta none })
  | some p ↦ s.store p >>= λ n. get_elem? s.courses n.course >>= λ c.
      next_of_course s.store (waited (difftime now n.arrival_time) c) >>= λ d. some (
        0,
        record s {
          store = write s.store p (some (record n { arrival_time = now }));
          courses = set s.courses n.course d;
          stu_list = n.next_overall;
          ta_list = give s.ta_list ta (some p);
        },
      )
]

unfoldable pub take_next_overall : State → Bytes → ℕ → Option (ℕ × State)
take_next_overall s ta_name now = elim (find_ta s.ta_list ta_name) [
  | none ↦ some (1, s)
  | some ta ↦ get_elem? s.ta_list ta >>= λ t.
      release_current_student s t.current_student now >>= λ u. take_first u ta now
]

-- while (previous_student->next_overall && previous_student->next_overall != current_student)
unfoldable pub find_previous : ℕ → Store → Option ℕ → ℕ → Option ℕ
find_previous zero h previous_student current_student = none
find_previous (suc k) h none current_student = none
find_previous (suc k) h (some p) current_student = h p >>= λ n. elim n.next_overall [
  | none ↦ some p
  | some q ↦ elim (q == current_student) [
    | true ↦ some p
    | false ↦ find_previous k h (some q) current_student
  ]
]

-- The student leaves the overall queue: the links and the head.
unfoldable pub leave_overall : State → ℕ → Student → Option (Store × Option ℕ)
leave_overall s p n = elim (ptr_eq (some p) s.stu_list) [
  | true ↦ some (s.store, n.next_overall)
  | false ↦ find_previous (rounds s) s.store s.stu_list p >>= λ previous_student.
      set_next_overall s.store (some previous_student) n.next_overall >>= λ h. some (h, s.stu_list)
]

-- `n` is the student read before the links are changed; its own links are not.
unfoldable pub take_of_course : State → ℕ → ℕ → ℕ → Course → ℕ → Option (ℕ × State)
take_of_course s ta k p c now = s.store p >>= λ n. next_of_course s.store c >>= λ d.
    leave_overall s p n >>= λ (r : Store × Option ℕ). r.0 p >>= λ m. some (
      0,
      record s {
        store = write r.0 p (some (record m { arrival_time = now }));
        courses = set s.courses k (waited (difftime now m.arrival_time) d);
        stu_list = r.1;
        ta_list = give s.ta_list ta (some p);
      },
    )

-- Where nobody waits for the course, the TA keeps the pointer to the student that was freed.
unfoldable pub take_next_course : State → Bytes → Bytes → ℕ → Option (ℕ × State)
take_next_course s ta_name course_code now = elim (find_ta s.ta_list ta_name) [
  | none ↦ some (1, s)
  | some ta ↦ get_elem? s.ta_list ta >>= λ t.
      release_current_student s t.current_student now >>= λ u.
      elim (find_course u.courses course_code) [
        | none ↦ some (2, record u { ta_list = give u.ta_list ta none })
        | some k ↦ get_elem? u.courses k >>= λ c. elim c.head [
          | none ↦ some (0, u)
          | some p ↦ take_of_course u ta k p c now
        ]
      ]
]
