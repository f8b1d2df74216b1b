-- ===== src/Waitlist/Config.antt =====
-- A2/hcq.c, lines 451 to 480: the course file. Its lines, as `fgets` delivers them, are an argument;
-- `number` and `course` stand for the two calls of `sscanf`, the second of which gets the words that the
-- line before has left, and `unset` for what is found in a place of the array for which there is no line. `none` is a write outside `course_code` or `course_desc`.
use csc.Common.{
  ℕ, zero, suc, ◌<◌, ◌≡◌, refl, ◌>>=◌, >>=-some, true, ◌&&◌, Option, none, some, List, [], ◌∷◌,
  arith, ltb, if◌then◌else◌, length, Bytes,
}
use csc.Waitlist.{Course, new_course}
use csc.Waitlist.Commands.{start}

-- COURSE_CODE_SIZE, and the size of `course_desc`
abbrev pub course_code_size : ℕ
course_code_size = 7

abbrev pub course_desc_size : ℕ
course_desc_size = 249

-- Codes and descriptions that fit into the two arrays.
abbrev pub Fits : List (Bytes × Bytes) → Type 0
Fits [] = Unit {0}
Fits (c ∷ l) = (length c.0 < course_code_size) × (length c.1 < course_desc_size) × Fits l

module _ (number : Bytes → ℕ) (course : Bytes × Bytes → Bytes → Bytes × Bytes)
    (unset : Course) where
  -- The loop over the courses: how many are left, and what `course_code` and `course_desc` hold.
  unfoldable pub read_courses : ℕ → Bytes × Bytes → List Bytes → Option (List Course)
  read_courses zero held lines = some []
  read_courses (suc n) held [] = read_courses n held [] >>= λ l. some (unset ∷ l)
  read_courses (suc n) held (input_line ∷ lines) =
      let c = course held input_line in
      let rest = read_courses n c lines >>= λ l. some (new_course c.0 c.1 ∷ l) in
      if ltb (length c.0) course_code_size && ltb (length c.1) course_desc_size then rest else none

  -- The array of courses; an empty file gives none.
  unfoldable pub config_course_list : Bytes × Bytes → List Bytes → Option (List Course)
  config_course_list held [] = some []
  config_course_list held (input_line ∷ lines) = read_courses (number input_line) held lines

  -- What the lines give.
  abbrev pub descriptions : Bytes × Bytes → List Bytes → List (Bytes × Bytes)
  descriptions held [] = []
  descriptions held (input_line ∷ lines) =
      let rest = descriptions (course held input_line) lines in course held input_line ∷ rest

  read_courses-start :
      (n : ℕ) (held : Bytes × Bytes) (lines : List Bytes)
      → Fits (descriptions held lines)
      → n ≡ length lines
      → read_courses n held lines ≡ some (start (descriptions held lines)).courses
  unfolding read_courses
  read_courses-start zero held [] fits e = refl
  read_courses-start zero held (l ∷ lines) fits e = ground (arith, e)
  read_courses-start (suc n) held [] fits e = ground (arith, e)
  read_courses-start (suc n) held (l ∷ lines) (code, desc, fits) e =
      let c = course held l in
      let test : (ltb (length c.0) course_code_size && ltb (length c.1) course_desc_size) ≡ true =
        ground (arith, code, desc) in
      rw (test, read_courses)
        (>>=-some _ (read_courses-start n c lines fits (omega (arith, e))) refl)

  -- From a file whose first line gives the number of the others, each of which fits, the program starts
  -- with the courses of those lines.
  pub config_course_list-start :
      (held : Bytes × Bytes) (first : Bytes) (lines : List Bytes)
      → Fits (descriptions held lines)
      → number first ≡ length lines
      → config_course_list held (first ∷ lines) ≡ some (start (descriptions held lines)).courses
  unfolding config_course_list
  config_course_list-start held first lines fits e =
      read_courses-start (number first) held lines fits e
