-- ===== src/Waitlist/Remove.antt =====
-- A2/hcq.c, lines 213 to 244: a TA leaves.
use csc.Common.{
  ℕ, ◌≡◌, refl, sym, ap, subst, ◌∙◌, >>=-some, inl, inr, none, List, [], ◌∷◌, ◌++◌, arith,
  Bool-cases, Option-cases, length, Bytes, str_eq,
}
use csc.Waitlist.{State, Ta, find_ta}
use csc.Waitlist.Operations.{remove_ta, without_ta}
use csc.Waitlist.View.{View, Shows, Good, served}
use csc.Waitlist.Spec.{finished, find_view, Yields, removed}
use csc.Waitlist.Hands.{drop_at, map-drop_ta, served-drop_ta, without_ta-find_ta}
use csc.Waitlist.Next.{find_ta-Shows, finished-tas, release-Released}

-- The TA is not in the list: nothing is taken out.
without_ta-none : (l : List Ta) (name : Bytes) → find_ta l name ≡ none → without_ta l name ≡ none
unfolding find_ta without_ta
without_ta-none [] name f = refl
without_ta-none (t ∷ l) name f = elim (Bool-cases (str_eq t.name name)) [
  | inl p ↦ ground (arith, rw p at f)
  | inr p ↦ elim (Option-cases (find_ta l name)) [
    | inl n ↦ rw (p, without_ta, without_ta-none l name n) refl
    | inr (j, n) ↦ ground (arith, rw (p, n) at f)
  ]
]

-- In a state that shows a view, `remove_ta` returns and does to the view what is specified: 1 and no
-- change for an unknown TA, else 0, the student in hand is done with, and the TA is gone.
pub remove_ta-Yields :
    (s : State) (v : View) (ta_name : Bytes) (now : ℕ)
    → Shows s v
    → Yields (remove_ta s ta_name now) (removed v ta_name now)
unfolding remove_ta
remove_ta-Yields s v ta_name now w = elim (Option-cases (find_view v.tas ta_name)) [
  | inl n ↦
      rw (n, removed)
        (
          s,
          rw (without_ta-none s.ta_list ta_name (find_ta-Shows s v ta_name w ∙ n), remove_ta) refl,
          w,
        )
  | inr (i, f) ↦
      let (t, u, r) = release-Released s v ta_name i now w f in
      let out =
        without_ta-find_ta s.ta_list ta_name i t (find_ta-Shows s v ta_name w ∙ f) r.found in
      rw (f, removed)
        (
          record u { ta_list = drop_at s.ta_list i },
          rw (out, remove_ta) (>>=-some _ r.runs refl),
          record {
            courses = r.shows.courses;
            tas = ap (λ l. drop_at l i) w.tas ∙ sym (map-drop_ta v.tas i);
            front = r.shows.front;
            along = r.shows.along;
            within = r.shows.within;
            good =
                subst
                  (λ l.
                    Good u.store u.next (length (finished v i now).stats)
                      ((finished v i now).queue ++ l))
                  (ap served (finished-tas v i now) ∙ sym (served-drop_ta v.tas i)) r.shows.good;
            short = r.shows.short;
            fresh = r.shows.fresh;
          },
        )
]
