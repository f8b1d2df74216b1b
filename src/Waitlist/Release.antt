-- ===== src/Waitlist/Release.antt =====
-- A2/hcq.c, lines 198 to 207: the student in hand is counted as helped, and freed.
use csc.Common.{
  ℕ, ◌<◌, ◌≡◌, refl, sym, ap, subst, ◌∙◌, >>=-some, inl, inr, true, false, none, some, ◌∷◌, ◌++◌,
  arith, ◌==◌, ==_iff, Option-cases, length, set,
}
use csc.Waitlist.{State, write, difftime}
use csc.Waitlist.Operations.{release_current_student, give}
use csc.Waitlist.View.{Entry, View, Shows, Facts, Good, addrs, addr_of, of, live, served, course_of}
use csc.Waitlist.Links.{has, has-apart}
use csc.Waitlist.Spec.{finished, hand, in_hand, change, one_helped}
use csc.Waitlist.Writes.{info-Stored, write-other}
use csc.Waitlist.Good.{Good-take, ==_comm}
use csc.Waitlist.Courses.{get_elem?-lt}
use csc.Waitlist.Keeps.{Shows-observe, Shows-count}
use csc.Waitlist.Lookups.{get_elem?-Shows}
use csc.Waitlist.Hands.{map-hand, hand-same, served-hand}
use mathlib.Core.List.{append_assoc}

-- The student in hand is apart from all others that the view names.
in_hand-Facts :
    (s : State) (v : View) (i : ℕ) (e : Entry)
    → Shows s v
    → i < length v.tas
    → in_hand v.tas i ≡ some e
    → Facts s.store s.next (length v.stats) e (live (record v { tas = hand v.tas i none }))
      × Good s.store s.next (length v.stats) (live (record v { tas = hand v.tas i none }))
in_hand-Facts s v i e w lt held =
    let (before, after, free, busy) = served-hand v.tas i lt in
    let all : live v ≡ (v.queue ++ before) ++ e ∷ after =
      ap (λ l. v.queue ++ served l) (sym (hand-same v.tas i) ∙ ap (hand v.tas i) held)
      ∙ ap (λ l. v.queue ++ l) (busy e)
      ∙ sym (append_assoc v.queue before (e ∷ after)) in
    rw (free, sym (append_assoc v.queue before after))
      (Good-take s.store s.next (length v.stats) (v.queue ++ before) e after
        (subst (Good s.store s.next (length v.stats)) all w.good))

-- The TA's pointer, once it is cleared.
freed-Shows :
    (s : State) (v : View) (i : ℕ)
    → Shows s v
    → Good s.store s.next (length v.stats) (live (record v { tas = hand v.tas i none }))
    → Shows (record s { ta_list = give s.ta_list i none }) (record v { tas = hand v.tas i none })
freed-Shows s v i w good = record {
  courses = w.courses;
  tas = ap (λ l. give l i none) w.tas ∙ sym (map-hand v.tas i none);
  front = w.front;
  along = w.along;
  within = w.within;
  good = good;
  short = w.short;
  fresh = w.fresh;
}

release-held :
    (s : State) (v : View) (i now : ℕ) (e : Entry)
    → Shows s v
    → i < length v.tas
    → in_hand v.tas i ≡ some e
    → (u : State) × (release_current_student s (some e.addr) now ≡ some u)
      × (u.ta_list ≡ s.ta_list)
      × (u.store e.addr ≡ none)
      × Shows
          (record u { ta_list = give s.ta_list i none })
          (record v {
            tas = hand v.tas i none;
            stats = change v.stats e.course (one_helped (difftime now e.arrival));
          })
unfolding release_current_student
release-held s v i now e w lt held =
    let ((known, apart, below, there), good) = in_hand-Facts s v i e w lt held in
    let v' : View = record v { tas = hand v.tas i none } in
    let x = info-Stored s.store e known in
    let (c, at) = get_elem?-lt v.stats e.course there in
    let d = one_helped (difftime now e.arrival) c in
    let h = write s.store e.addr none in
    let other : (a : ℕ) → has a (addrs (live v')) ≡ true → (a == e.addr) ≡ false =
      λ a q. ==_comm a e.addr ∙ has-apart (addrs (live v')) e.addr a apart q in
    let gone =
      Shows-observe (record s { ta_list = give s.ta_list i none }) v' h s.next v.next
        (freed-Shows s v i w good) (omega arith) w.fresh
        (λ a q. write-other (λ k. k.next_overall) s.store e.addr none a (other a q))
        (λ a q. write-other (λ k. k.next_course) s.store e.addr none a (other a q))
        (λ a q.
          write-other (λ k. (k.name, k.arrival_time, k.course)) s.store e.addr none a
            (other a q)) in
    (
      record s { store = h; courses = set s.courses e.course (course_of d (of e.course v.queue)) },
      >>=-some _ x.here
          (rw (x.course, x.arrival) (>>=-some _ (get_elem?-Shows s v e.course c w at) refl)),
      refl,
      rw ((==_iff e.addr e.addr).1 refl) refl,
      rw (at, change)
          (Shows-count (record s { store = h; ta_list = give s.ta_list i none }) v' e.course d
            gone),
    )

entry_same : (e x : Entry) → some e ≡ some x → e ≡ x
entry_same e x h = ground (arith, h)

-- Releasing returns; the TA's pointer is left, and a state where it is cleared shows the view in
-- which the TA is done.
pub release_current_student-Shows :
    (s : State) (v : View) (i now : ℕ)
    → Shows s v
    → i < length v.tas
    → (u : State) × (release_current_student s (addr_of (in_hand v.tas i)) now ≡ some u)
      × (u.ta_list ≡ s.ta_list)
      × ((e : Entry) → in_hand v.tas i ≡ some e → u.store e.addr ≡ none)
      × Shows (record u { ta_list = give s.ta_list i none }) (finished v i now)
unfolding release_current_student
release_current_student-Shows s v i now w lt = elim (Option-cases (in_hand v.tas i)) [
  | inl n ↦
      let same : hand v.tas i none ≡ v.tas = ap (hand v.tas i) (sym n) ∙ hand-same v.tas i in
      rw (n, finished)
        (
          s,
          refl,
          refl,
          λ e held. ground (arith, held),
          subst (λ l. Shows (record s { ta_list = give s.ta_list i none }) (record v { tas = l }))
              same
              (freed-Shows s v i w (
                subst (λ l. Good s.store s.next (length v.stats) (v.queue ++ served l)) (sym same)
                  w.good)),
        )
  | inr (e, n) ↦
      let (u, runs, kept, gone, shows) = release-held s v i now e w lt n in
      rw (n, finished)
        (
          u,
          runs,
          kept,
          λ x held. subst (λ (y : Entry). u.store y.addr ≡ none) (entry_same e x held) gone,
          shows,
        )
]
