-- ===== src/HelpCentre/Reports.antt =====
-- A4/hcq.c: the texts that `stats` sends, with the size of the buffer that each is built in. The code
-- uses `strcat` on a fresh block of memory: what stands there before the first NUL is a parameter, `held`.
pub mod Buffers
use csc.Common.{ℕ, ◌+◌, none, some, List, [], ◌∷◌, ◌++◌, length, get_or, Bytes, codes}
use csc.HelpCentre.Students.{Student}
use csc.HelpCentre.Tas.{Ta}

abbrev pub crlf : Bytes
crlf = 13 ∷ 10 ∷ []

-- FULL_QUEUE_LENGTH
abbrev pub full_queue_length : ℕ
full_queue_length = 14

-- A text and the size that its buffer was allocated with.
pub record Report : Type 0 where
  pub text : Bytes
  pub allocated : ℕ

-- `asprintf` of one TA's line in the first loop, which is measured and freed
unfoldable pub measured_ta_string : Ta → Bytes
measured_ta_string t = elim t.current_student [
  | some s ↦ codes "TA: " ++ (t.name ++ (codes " is serving " ++ (s.name ++ (codes "." ++ crlf))))
  | none ↦ codes "TA: " ++ (t.name ++ (codes " has no student" ++ crlf))
]

-- the same in the second loop, which is appended
unfoldable pub ta_string : Ta → Bytes
ta_string t = elim t.current_student [
  | some s ↦ codes "TA: " ++ (t.name ++ (codes " is serving " ++ (s.name ++ (codes "." ++ crlf))))
  | none ↦ codes "TA: " ++ (t.name ++ (codes " has no student" ++ crlf))
]

-- The first loop adds up the lengths, the second appends the lines.
unfoldable pub ta_sizes : ℕ → List Ta → ℕ
ta_sizes size_of_buffer [] = size_of_buffer
ta_sizes size_of_buffer (t ∷ rest) = ta_sizes (size_of_buffer + length (measured_ta_string t)) rest

unfoldable pub ta_strings : Bytes → List Ta → Bytes
ta_strings currently_serving [] = currently_serving
ta_strings currently_serving (t ∷ rest) = ta_strings (currently_serving ++ ta_string t) rest

unfoldable pub no_ta_msg : Bytes
no_ta_msg = codes "No TAs are currently working." ++ crlf

unfoldable pub print_currently_serving : Bytes → List Ta → Report
print_currently_serving held [] = record { text = held ++ no_ta_msg; allocated = length no_ta_msg }
print_currently_serving held (t ∷ rest) = record {
  text = ta_strings held (t ∷ rest);
  allocated = ta_sizes 0 (t ∷ rest);
}

-- `asprintf` of one student's line in the first loop
unfoldable pub measured_student_string : List Bytes → Student → Bytes
measured_student_string courses s =
    codes "Student " ++ (s.name ++ (codes ":" ++ (get_or courses s.course [] ++ crlf)))

-- the same in the second loop
unfoldable pub student_string : List Bytes → Student → Bytes
student_string courses s =
    codes "Student " ++ (s.name ++ (codes ":" ++ (get_or courses s.course [] ++ crlf)))

unfoldable pub student_sizes : List Bytes → ℕ → List Student → ℕ
student_sizes courses size_of_buffer [] = size_of_buffer
student_sizes courses size_of_buffer (s ∷ rest) =
    student_sizes courses (size_of_buffer + length (measured_student_string courses s)) rest

unfoldable pub student_strings : List Bytes → Bytes → List Student → Bytes
student_strings courses all_students [] = all_students
student_strings courses all_students (s ∷ rest) =
    student_strings courses (all_students ++ student_string courses s) rest

unfoldable pub print_full_queue : Bytes → List Bytes → List Student → Report
print_full_queue held courses stu_list = record {
  text = student_strings courses (held ++ (codes "Full Queue" ++ crlf)) stu_list;
  allocated = student_sizes courses full_queue_length stu_list;
}
