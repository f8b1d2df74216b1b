-- ===== src/Waitlist/Runs.antt =====
-- A2/helpcentre.c: the whole program on the lines of a session, against the views.
use csc.Common.{
  ℕ, suc, ◌≤◌, ◌<◌, ◌≡◌, refl, sym, ap, subst, ◌∙◌, >>=-eq-some, >>=-some, ◌≢◌, inl, inr, true,
  false, Option, none, some, List, [], ◌∷◌, map, arith, leb, leb→le, Bool-cases, length, Bytes,
  codes,
}
use csc.Newline.{cstr}
use csc.HelpCentre.Commands.{strtok_all, collect_args}
use csc.HelpCentre.Commands.Words.{
  are_words, are_words-AllWords, line_of, strtok_all-line_of, cstr-line_of, collect_args-few,
  collect_args-many,
}
use csc.Waitlist.{State, new_course}
use csc.Waitlist.Reports.{Output}
use csc.Waitlist.View.{View, Shows, courses_of}
use csc.Waitlist.Commands.{command, execute, process_args, run_line, run, start}
use csc.Waitlist.Answers.{Answer, Answers, answer_of, new_stats, opening, execute-Answers}
use csc.Waitlist.Requests.{
  Request, spelled, Line, asks, other, words_of, text_of, respond, IsOther, AllLines, texts_of,
  respond_all,
}
use csc.Waitlist.Dispatch.{as_command, command-spelled, spelled-few, perform-fulfil, command-other}

words-line_of : (ws : List Bytes) → are_words ws ≡ true → strtok_all [] (cstr (line_of ws)) ≡ ws
words-line_of ws e =
    let h = are_words-AllWords ws e in
    ap (strtok_all []) (cstr-line_of ws h) ∙ strtok_all-line_of ws h

run_line-few :
    (ws : List Bytes) (s : State) (now : ℕ)
    → are_words ws ≡ true
    → length ws ≤ 3
    → run_line (line_of ws) s now ≡ execute (command ws) s now
unfolding run_line process_args
run_line-few ws s now e l =
    rw (ap (collect_args 0) (words-line_of ws e) ∙ collect_args-few ws l, run_line) refl

run_line-many :
    (ws : List Bytes) (s : State) (now : ℕ)
    → are_words ws ≡ true
    → 3 < length ws
    → run_line (line_of ws) s now ≡ some (false, s, Output.error (codes "Too many arguments.") ∷ [])
unfolding run_line
run_line-many ws s now e l =
    rw (ap (collect_args 0) (words-line_of ws e) ∙ collect_args-many ws l, run_line) refl

execute-incorrect :
    (ws : List Bytes) (s : State) (now : ℕ)
    → length ws ≤ 3
    → ((r : Request) → spelled r ≢ ws)
    → execute (command ws) s now ≡ some (false, s, Output.error (codes "Incorrect syntax.") ∷ [])
unfolding execute
execute-incorrect ws s now l h = rw (command-other ws l h) refl

-- A line is answered as the view says.
run_line-Answers :
    (l : Line) (s : State) (v : View) (now : ℕ) (r : Answer)
    → are_words (words_of l) ≡ true
    → IsOther l
    → Shows s v
    → respond l v now ≡ some r
    → Answers (run_line (text_of l) s now) r
run_line-Answers (asks q) s v now r a o w e =
    subst (λ m. Answers m r)
      (sym (
        run_line-few (spelled q) s now a (spelled-few q)
        ∙ ap (λ c. execute c s now) (command-spelled q)))
      (execute-Answers (as_command q) s v now r w (perform-fulfil q v now ∙ e))
run_line-Answers (other ws) s v now r a o w e = elim (Bool-cases (leb (length ws) 3)) [
  | inl p ↦
      let few : length ws ≤ 3 = leb→le _ _ p in
      answer_of (rw p at e)
        (s, run_line-few ws s now a few ∙ execute-incorrect ws s now few (o few), w)
  | inr p ↦ answer_of (rw p at e) (s, run_line-many ws s now a (ground (arith, p)), w)
]

-- The program ends, with that output, in a state that shows that view.
abbrev pub Finishes : Option (State × List Output) → View × List Output → Type 0
Finishes m z = (u : State) × (m ≡ some (u, z.1)) × Shows u z.0

of-Finishes :
    {o : Option (State × List Output)} {m z : View × List Output}
    → some m ≡ some z
    → Finishes o m
    → Finishes o z
of-Finishes {o} {m} {z} e a =
    subst (λ (x : Option (View × List Output)). elim x [ none ↦ Unit {0} | some y ↦ Finishes o y ])
      e a

-- A session, of lines whose words are spelled as they are asked for, one to a line: in a state that
-- shows a view, the program ends, prints what the view answers to each line, and its last state shows
-- the last view, if there is an answer to each. The names are taken to be stored whole, though the block
-- of each is one byte short.
pub run-Finishes :
    (session : List (Line × ℕ)) (s : State) (v : View) (z : View × List Output)
    → AllLines session
    → Shows s v
    → respond_all session v ≡ some z
    → Finishes (run (texts_of session) s) z
unfolding run respond_all
run-Finishes [] s v z a w e = of-Finishes e (s, refl, w)
run-Finishes ((l, now) ∷ session) s v z (a, o, b) w e =
    let (r, f, rest) = >>=-eq-some (respond l v now) _ e in
    let (u, runs, shows) = run_line-Answers l s v now r a o w f in
    elim (Bool-cases r.0) [
      | inl p ↦ of-Finishes (rw p at rest) (u, >>=-some _ runs (rw p refl), shows)
      | inr p ↦
          let (y, g, last) = >>=-eq-some (respond_all session r.1) _ (rw p at rest) in
          let (t, runs', shows') = run-Finishes session u r.1 y b shows g in
          of-Finishes last (t, >>=-some _ runs (rw p (>>=-some _ runs' refl)), shows')
    ]

opening-courses :
    (k : ℕ) (config : List (Bytes × Bytes))
    → map (λ (c : Bytes × Bytes). new_course c.0 c.1) config
      ≡ courses_of k (map new_stats config) []
unfolding new_course
opening-courses k [] = refl
opening-courses k (c ∷ config) = ap (λ l. new_course c.0 c.1 ∷ l) (opening-courses (suc k) config)

-- Before the first line nobody waits, and there is no TA.
pub start-Shows : (config : List (Bytes × Bytes)) → Shows (start config) (opening config)
start-Shows config = record {
  courses = opening-courses 0 config;
  tas = refl;
  front = refl;
  along = tt;
  within = λ k. tt;
  good = tt;
  short = omega arith;
  fresh = refl;
}
