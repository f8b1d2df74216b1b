-- ===== src/Waitlist/Next.antt =====
-- A2/hcq.c, lines 213 to 325: the operations of a TA, refined.
use csc.Common.{
  ℕ, zero, suc, ◌<◌, ◌≡◌, refl, sym, ap, subst, ◌∙◌, >>=-some, inl, inr, none, some, List, [], ◌∷◌,
  arith, Option-cases, length, get_elem?, set, Bytes,
}
use csc.Waitlist.{difftime, State, Ta, find_ta}
use csc.Waitlist.Operations.{take_next_overall, release_current_student, give, add_ta}
use csc.Waitlist.View.{Entry, Stats, View, Shows, addr_of}
use csc.Waitlist.Spec.{finished, hand, in_hand, find_view, next_overall, change, one_helped, Yields}
use csc.Waitlist.Courses.{find_stats}
use csc.Waitlist.Hands.{
  find_ta-find_view, hand-same, in_hand-hand, length-hand, find_view-lt, get_elem?-map_ta,
}
use csc.Waitlist.Release.{release_current_student-Shows}
use csc.Waitlist.Take.{take_first-Shows, take_first-cleared}

pub find_ta-Shows :
    (s : State) (v : View) (name : Bytes)
    → Shows s v
    → find_ta s.ta_list name ≡ find_view v.tas name
find_ta-Shows s v name w = ap (λ l. find_ta l name) w.tas ∙ find_ta-find_view v.tas name

-- Once the TA is done, the student in hand is gone and all else is as it was.
pub finished-free : (v : View) (i now : ℕ) → in_hand (finished v i now).tas i ≡ none
finished-free v i now = elim (Option-cases (in_hand v.tas i)) [
  | inl n ↦ rw (n, finished) n
  | inr (e, n) ↦ rw (n, finished) (in_hand-hand v.tas i)
]

pub finished-length : (v : View) (i now : ℕ) → length (finished v i now).tas ≡ length v.tas
finished-length v i now = elim (Option-cases (in_hand v.tas i)) [
  | inl n ↦ rw (n, finished) refl
  | inr (e, n) ↦ rw (n, finished) (length-hand v.tas i none)
]

pub finished-tas : (v : View) (i now : ℕ) → (finished v i now).tas ≡ hand v.tas i none
finished-tas v i now = elim (Option-cases (in_hand v.tas i)) [
  | inl n ↦ rw (n, finished) (sym (ap (hand v.tas i) (sym n) ∙ hand-same v.tas i))
  | inr (e, n) ↦ rw (n, finished) refl
]

pub finished-queue : (v : View) (i now : ℕ) → (finished v i now).queue ≡ v.queue
finished-queue v i now = elim (Option-cases (in_hand v.tas i)) [
  | inl n ↦ rw (n, finished) refl
  | inr (e, n) ↦ rw (n, finished) refl
]

pub find_stats-set :
    (cs : List Stats) (k : ℕ) (c d : Stats) (code : Bytes)
    → get_elem? cs k ≡ some c
    → d.code ≡ c.code
    → find_stats (set cs k d) code ≡ find_stats cs code
find_stats-set [] k c d code e p = refl
find_stats-set (x ∷ cs) zero c d code e p =
    let same : x.code ≡ c.code = ground (arith, e) in rw (p, same) refl
find_stats-set (x ∷ cs) (suc k) c d code e p = rw (find_stats-set cs k c d code e p) refl

pub finished-find :
    (v : View) (i now : ℕ) (code : Bytes)
    → find_stats (finished v i now).stats code ≡ find_stats v.stats code
finished-find v i now code = elim (Option-cases (in_hand v.tas i)) [
  | inl n ↦ rw (n, finished) refl
  | inr (e, n) ↦ elim (Option-cases (get_elem? v.stats e.course)) [
    | inl m ↦ rw (n, finished, m, change) refl
    | inr (c, m) ↦
        rw (n, finished, m, change)
          (find_stats-set v.stats e.course c (one_helped (difftime now e.arrival) c) code m refl)
  ]
]

-- A TA of the list, seen from both sides, and what releasing does.
pub record Released (s : State) (v : View) (i now : ℕ) (t : Ta) (u : State) : Type 0 where
  pub place : i < length v.tas
  pub found : get_elem? s.ta_list i ≡ some t
  pub runs : release_current_student s t.current_student now ≡ some u
  pub kept : u.ta_list ≡ s.ta_list
  pub gone : (e : Entry) → in_hand v.tas i ≡ some e → u.store e.addr ≡ none
  pub held : t.current_student ≡ addr_of (in_hand v.tas i)
  pub shows : Shows (record u { ta_list = give u.ta_list i none }) (finished v i now)

pub release-Released :
    (s : State) (v : View) (ta_name : Bytes) (i now : ℕ)
    → Shows s v
    → find_view v.tas ta_name ≡ some i
    → (t : Ta) × (u : State) × Released s v i now t u
release-Released s v ta_name i now w f =
    let lt = find_view-lt v.tas ta_name i f in
    let (t, at, cur) = get_elem?-map_ta v.tas i lt in
    let (u, runs, kept, gone, shows) = release_current_student-Shows s v i now w lt in
    (
      t,
      u,
      record {
        place = lt;
        found = ap (λ l. get_elem? l i) w.tas ∙ at;
        runs = ap (λ p. release_current_student s p now) cur ∙ runs;
        kept = kept;
        gone = gone;
        held = cur;
        shows =
            subst (λ l. Shows (record u { ta_list = give l i none }) (finished v i now)) (sym kept)
              shows;
      },
    )

-- In a state that shows a view, `take_next_overall` returns and does to the view what is specified: 1
-- and no change for an unknown TA, else 0, the student in hand is done with, and the first of the
-- queue, if any, is called.
pub take_next_overall-Yields :
    (s : State) (v : View) (ta_name : Bytes) (now : ℕ)
    → Shows s v
    → Yields (take_next_overall s ta_name now) (next_overall v ta_name now)
unfolding take_next_overall
take_next_overall-Yields s v ta_name now w = elim (Option-cases (find_view v.tas ta_name)) [
  | inl n ↦
      rw (n, next_overall) (s, rw (find_ta-Shows s v ta_name w ∙ n, take_next_overall) refl, w)
  | inr (i, f) ↦
      let (t, u, r) = release-Released s v ta_name i now w f in
      let u' : State = record u { ta_list = give u.ta_list i none } in
      let (x, runs, shows) =
        take_first-Shows u' (finished v i now) i now r.shows
          (subst (λ n. i < n) (sym (finished-length v i now)) r.place) (finished-free v i now) in
      rw (f, next_overall)
        (
          x,
          rw (find_ta-Shows s v ta_name w ∙ f, take_next_overall)
              (>>=-some _ r.found (>>=-some _ r.runs (sym (take_first-cleared u i now) ∙ runs))),
          shows,
        )
]

-- `add_ta` puts a free TA in front.
pub add_ta-Shows :
    (s : State) (v : View) (ta_name : Bytes)
    → Shows s v
    → Shows
        (add_ta s ta_name)
        (record v { tas = record { name = ta_name; student = none } ∷ v.tas })
unfolding add_ta
add_ta-Shows s v ta_name w = record {
  courses = w.courses;
  tas = ap (λ l. record { name = ta_name; current_student = none } ∷ l) w.tas;
  front = w.front;
  along = w.along;
  within = w.within;
  good = w.good;
  short = w.short;
  fresh = w.fresh;
}
