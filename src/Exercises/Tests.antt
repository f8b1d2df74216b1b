-- ===== src/Exercises/Tests.antt =====
-- Lab2/phone.c, Lab3/fibonacci.c and Lab4: runs on small inputs, and instances of the theorems.
use csc.Common.{
  ◌≡◌, refl, none, some, [], ◌∷◌, ◌++◌, ltb, if◌then◌else◌, length, take, codes, strcmp, str_eq,
}
use csc.Exercises.Greeting.{copy_message, append_text, greeting, greeting_lem}
use csc.Exercises.{
  split_array, split_from, fib, fib_from, strip_back, strip_q_marks, truncate, compare_arguments,
  same, different, invalid, phone,
}

first_six : fib 6 ≡ 0 ∷ 1 ∷ 1 ∷ 2 ∷ 3 ∷ 5 ∷ []
unfolding fib fib_from
first_six = refl

hello_world : strip_q_marks (codes "Hello? World???") ≡ some (3, codes "Hello? World")
unfolding strip_q_marks strip_back
hello_world = refl

only_marks_fault : strip_q_marks (codes "??") ≡ none
unfolding strip_q_marks strip_back
only_marks_fault = refl

fun_of_function : truncate (codes "function") 3 ≡ (5, codes "fun")
unfolding truncate
fun_of_function = refl

compares :
    (compare_arguments (codes "a" ∷ codes "a" ∷ []) ≡ same)
    × (compare_arguments (codes "a" ∷ codes "b" ∷ []) ≡ different)
    × (compare_arguments (codes "a" ∷ []) ≡ invalid)
unfolding compare_arguments str_eq strcmp
compares = (refl, refl, refl)

phones :
    (phone (codes "0123456789") (some 4) ≡ some (codes "4"))
    × (phone (codes "0123456789") (some 10) ≡ none)
unfolding phone
phones = (refl, refl)

four_split : split_array 0 (1 ∷ 2 ∷ 3 ∷ 4 ∷ []) ≡ some (1 ∷ 3 ∷ [], 2 ∷ 4 ∷ [])
unfolding split_array split_from
four_split = refl

emmanuel : greeting (codes "Good morning") (codes "Emmanuel") ≡ some (codes "Good morning Emmanu")
unfolding greeting copy_message append_text
emmanuel = refl

greeting_lem_example : greeting (codes "Top of the morning to you") (codes "Patrick") ≡ (
    if ltb (length (codes "Top of the morning to you")) 20
    then some (take 19 ((codes "Top of the morning to you" ++ codes " ") ++ codes "Patrick"))
    else none)
greeting_lem_example = greeting_lem (codes "Top of the morning to you") (codes "Patrick")
