-- ===== src/HelpCentre/Reports/Buffers.antt =====
-- A4/hcq.c: the two texts, and the room that they have.
use csc.Common.{
  ℕ, ◌+◌, ◌≤◌, ◌≡◌, refl, sym, ap, ◌∙◌, ◌↔◌, none, some, List, [], ◌∷◌, ◌++◌, arith, length, get_or,
  length-append, Bytes, codes,
}
use mathlib.Core.List.{append_assoc, append-nil}
use csc.HelpCentre.Students.{Student}
use csc.HelpCentre.Tas.{Ta}
use csc.HelpCentre.Reports.{
  Report, full_queue_length, measured_ta_string, ta_string, ta_sizes, ta_strings, no_ta_msg,
  print_currently_serving, measured_student_string, student_string, student_sizes, student_strings,
  print_full_queue,
}

-- The bytes of a text with its terminator.
abbrev pub needed : Report → ℕ
needed r = length r.text + 1

-- What a TA is doing, on a line.
abbrev pub ta_line : Ta → Bytes
ta_line t = elim t.current_student [
  | some s ↦ codes "TA: " ++ (t.name ++ (codes " is serving " ++ (s.name ++ codes ".\r\n")))
  | none ↦ codes "TA: " ++ (t.name ++ codes " has no student\r\n")
]

abbrev pub ta_lines : List Ta → Bytes
ta_lines [] = []
ta_lines (t ∷ rest) = ta_line t ++ ta_lines rest

abbrev pub serving_text : List Ta → Bytes
serving_text [] = codes "No TAs are currently working.\r\n"
serving_text (t ∷ rest) = ta_lines (t ∷ rest)

ta_string-ta_line : (t : Ta) → ta_string t ≡ ta_line t
unfolding ta_string
ta_string-ta_line t = refl

measured_ta_string-ta_line : (t : Ta) → measured_ta_string t ≡ ta_line t
unfolding measured_ta_string
measured_ta_string-ta_line t = refl

ta_sizes-ta_lines : (n : ℕ) (l : List Ta) → ta_sizes n l ≡ n + length (ta_lines l)
unfolding ta_sizes
ta_sizes-ta_lines n [] = omega arith
ta_sizes-ta_lines n (t ∷ rest) = omega (
  arith,
  ta_sizes-ta_lines (n + length (measured_ta_string t)) rest,
  ap (λ (b : Bytes). length b) (measured_ta_string-ta_line t),
  length-append (ta_line t) (ta_lines rest),
)

ta_strings-ta_lines : (b : Bytes) (l : List Ta) → ta_strings b l ≡ b ++ ta_lines l
unfolding ta_strings
ta_strings-ta_lines b [] = sym (append-nil b)
ta_strings-ta_lines b (t ∷ rest) =
    ap (λ s. ta_strings (b ++ s) rest) (ta_string-ta_line t)
    ∙ ta_strings-ta_lines (b ++ ta_line t) rest
    ∙ append_assoc b (ta_line t) (ta_lines rest)

serving-text :
    (held : Bytes) (l : List Ta)
    → ((print_currently_serving held l).text ≡ held ++ serving_text l)
      × ((print_currently_serving held l).allocated ≡ length (serving_text l))
unfolding print_currently_serving no_ta_msg
serving-text held [] = (refl, refl)
serving-text held (t ∷ rest) =
    (ta_strings-ta_lines held (t ∷ rest), omega (arith, ta_sizes-ta_lines 0 (t ∷ rest)))

-- `print_currently_serving` tells of every TA, with the student or that there is none, behind what its
-- fresh block holds up to the first NUL. The block has the size of that text without its terminator: it
-- is written past by one byte, and by as many more as it holds.
pub currently_serving_overflows :
    (held : Bytes) (l : List Ta)
    → ((print_currently_serving held l).text ≡ held ++ serving_text l)
      × (needed (print_currently_serving held l)
          ≡ (print_currently_serving held l).allocated + 1 + length held)
currently_serving_overflows held l =
    let (text, size) = serving-text held l in
    (
      text,
      omega (arith, size, ap (λ (b : Bytes). length b) text, length-append held (serving_text l)),
    )

-- The waiting students one by one, oldest first, each on a line with the course.
abbrev pub student_line : List Bytes → Student → Bytes
student_line c s =
    codes "Student " ++ (s.name ++ (codes ":" ++ (get_or c s.course [] ++ codes "\r\n")))

abbrev pub student_lines : List Bytes → List Student → Bytes
student_lines c [] = []
student_lines c (s ∷ rest) = student_line c s ++ student_lines c rest

abbrev pub queue_text : List Bytes → List Student → Bytes
queue_text c l = codes "Full Queue\r\n" ++ student_lines c l

student_string-student_line : (c : List Bytes) (s : Student) → student_string c s ≡ student_line c s
unfolding student_string
student_string-student_line c s = refl

measured_student_string-student_line :
    (c : List Bytes) (s : Student) → measured_student_string c s ≡ student_line c s
unfolding measured_student_string
measured_student_string-student_line c s = refl

student_sizes-student_lines :
    (c : List Bytes) (n : ℕ) (l : List Student)
    → student_sizes c n l ≡ n + length (student_lines c l)
unfolding student_sizes
student_sizes-student_lines c n [] = omega arith
student_sizes-student_lines c n (s ∷ rest) = omega (
  arith,
  student_sizes-student_lines c (n + length (measured_student_string c s)) rest,
  ap (λ (b : Bytes). length b) (measured_student_string-student_line c s),
  length-append (student_line c s) (student_lines c rest),
)

student_strings-student_lines :
    (c : List Bytes) (b : Bytes) (l : List Student) → student_strings c b l ≡ b ++ student_lines c l
unfolding student_strings
student_strings-student_lines c b [] = sym (append-nil b)
student_strings-student_lines c b (s ∷ rest) =
    ap (λ t. student_strings c (b ++ t) rest) (student_string-student_line c s)
    ∙ student_strings-student_lines c (b ++ student_line c s) rest
    ∙ append_assoc b (student_line c s) (student_lines c rest)

full_queue-text :
    (held : Bytes) (c : List Bytes) (l : List Student)
    → (print_full_queue held c l).text ≡ held ++ queue_text c l
unfolding print_full_queue
full_queue-text held c l =
    student_strings-student_lines c (held ++ codes "Full Queue\r\n") l
    ∙ append_assoc held (codes "Full Queue\r\n") (student_lines c l)

full_queue-allocated :
    (held : Bytes) (c : List Bytes) (l : List Student)
    → (print_full_queue held c l).allocated ≡ 14 + length (student_lines c l)
unfolding print_full_queue
full_queue-allocated held c l = student_sizes-student_lines c full_queue_length l

-- `print_full_queue` lists every waiting student once, in the order of arrival, under its title, behind
-- what its fresh block holds up to the first NUL; and the text with its terminator fits the block
-- exactly when the block holds at most one byte there.
pub full_queue_fits :
    (held : Bytes) (c : List Bytes) (l : List Student)
    → ((print_full_queue held c l).text ≡ held ++ queue_text c l)
      × ((needed (print_full_queue held c l) ≤ (print_full_queue held c l).allocated)
          ↔ (length held ≤ 1))
full_queue_fits held c l =
    let text = full_queue-text held c l in
    let size : needed (print_full_queue held c l) + 1
        ≡ (print_full_queue held c l).allocated + length held =
      omega (
        arith,
        full_queue-allocated held c l,
        ap (λ (b : Bytes). length b) text,
        length-append held (queue_text c l),
        length-append (codes "Full Queue\r\n") (student_lines c l),
      ) in
    (text, ((λ h. omega (arith, h, size)), (λ h. omega (arith, h, size))))
