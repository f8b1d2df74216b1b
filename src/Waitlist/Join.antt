-- ===== src/Waitlist/Join.antt =====
-- A2/hcq.c, lines 105 to 121: the new student is put at the end of both lists.
use csc.Common.{
  ℕ, ◌<◌, ◌≡◌, refl, sym, ◌∙◌, >>=-some, false, none, some, List, [], ◌∷◌, ◌++◌, arith, ◌==◌,
  length, get_elem?, set,
}
use csc.Waitlist.{Student, Course, State, Store, rounds}
use csc.Waitlist.Operations.{link_overall, link_course}
use csc.Waitlist.View.{overall, by_course, info}
use csc.Waitlist.Links.{
  first, last_of, last, has, Distinct, Linked, Linked-snoc, has-last_of, has-apart,
}
use csc.Waitlist.Writes.{set_next_overall-Relinked, set_next_course-Recoursed}
use csc.Waitlist.Walks.{find_tail-last_of, linked-load, linked-load_course}

-- What is known once `p` is the last of the overall queue `l`.
pub record Joined (s : State) (l : List ℕ) (p : ℕ) (h : Store) : Type 0 where
  pub runs : link_overall s p ≡ some (record s { store = h; stu_list = first (l ++ p ∷ []) })
  pub along : Linked (overall h) (l ++ p ∷ [])
  pub courses : (a : ℕ) → by_course h a ≡ by_course s.store a
  pub infos : (a : ℕ) → info h a ≡ info s.store a

pub linked-last :
    (h : Store) (a : ℕ) (l : List ℕ)
    → Linked (overall h) (a ∷ l)
    → (n : Student) × (h (last_of a l) ≡ some n)
linked-last h a [] (c, cs) = let (n, here, same) = linked-load h a none c in (n, here)
linked-last h a (b ∷ l) (c, cs) = linked-last h b l cs

linked-last_course :
    (h : Store) (a : ℕ) (l : List ℕ)
    → Linked (by_course h) (a ∷ l)
    → (n : Student) × (h (last_of a l) ≡ some n)
linked-last_course h a [] (c, cs) = let (n, here, same) = linked-load_course h a none c in (n, here)
linked-last_course h a (b ∷ l) (c, cs) = linked-last_course h b l cs

pub link_overall-Joined :
    (s : State) (l : List ℕ) (p : ℕ)
    → s.stu_list ≡ first l
    → Linked (overall s.store) l
    → Distinct l
    → length l < rounds s
    → overall s.store p ≡ some none
    → has p l ≡ false
    → (h : Store) × Joined s l p h
unfolding link_overall
link_overall-Joined s [] p front along d short new apart = (
  s.store,
  record { runs = rw front refl; along = (new, tt); courses = λ a. refl; infos = λ a. refl },
)
link_overall-Joined s (b ∷ l) p front along d short new apart =
    let (n, here) = linked-last s.store b l along in
    let (h, runs, r) = set_next_overall-Relinked s.store (last_of b l) (some p) n here in
    let differ : (p == last_of b l) ≡ false =
      has-apart (b ∷ l) p (last_of b l) apart (has-last_of b l) in
    (
      h,
      record {
        runs = rw front (
            >>=-some _ (find_tail-last_of (rounds s) s.store b l (omega (arith, short)) along)
              (>>=-some _ runs (rw (sym front) refl)));
        along =
            Linked-snoc (overall s.store) (overall h) b l p d along (r.others p differ ∙ new)
              r.changed (λ c q i. r.others c i);
        courses = r.courses;
        infos = r.infos;
      },
    )

-- What is known once `p` is the last of the list `l` of the course `k`.
pub record Enrolled (s : State) (k : ℕ) (c : Course) (l : List ℕ) (p : ℕ) (h : Store) : Type 0 where
  pub runs :
      link_course s k p
      ≡ some (record s {
        store = h;
        courses =
            set s.courses k (record c { head = first (l ++ p ∷ []); tail = last (l ++ p ∷ []) });
      })
  pub within : Linked (by_course h) (l ++ p ∷ [])
  pub others : (a : ℕ) → has a l ≡ false → by_course h a ≡ by_course s.store a
  pub along : (a : ℕ) → overall h a ≡ overall s.store a
  pub infos : (a : ℕ) → info h a ≡ info s.store a

last_of-snoc : (a : ℕ) (l : List ℕ) (p : ℕ) → last_of a (l ++ p ∷ []) ≡ p
last_of-snoc a [] p = refl
last_of-snoc a (b ∷ l) p = last_of-snoc b l p

pub link_course-Enrolled :
    (s : State) (k : ℕ) (c : Course) (l : List ℕ) (p : ℕ)
    → get_elem? s.courses k ≡ some c
    → c.head ≡ first l
    → c.tail ≡ last l
    → Linked (by_course s.store) l
    → Distinct l
    → by_course s.store p ≡ some none
    → has p l ≡ false
    → (h : Store) × Enrolled s k c l p h
unfolding link_course
link_course-Enrolled s k c [] p there head tail within d new apart = (
  s.store,
  record {
    runs = >>=-some _ there (rw head refl);
    within = (new, tt);
    others = λ a i. refl;
    along = λ a. refl;
    infos = λ a. refl;
  },
)
link_course-Enrolled s k c (b ∷ l) p there head tail within d new apart =
    let (n, here) = linked-last_course s.store b l within in
    let (h, runs, r) = set_next_course-Recoursed s.store (last_of b l) (some p) n here in
    let differ : (p == last_of b l) ≡ false =
      has-apart (b ∷ l) p (last_of b l) apart (has-last_of b l) in
    (
      h,
      record {
        runs =
            >>=-some _ there
              (rw (head, tail) (>>=-some _ runs (rw (last_of-snoc b l p, sym head) refl)));
        within =
            Linked-snoc (by_course s.store) (by_course h) b l p d within (r.others p differ ∙ new)
              r.changed (λ a q i. r.others a i);
        others = λ a i. r.others a (has-apart (b ∷ l) a (last_of b l) i (has-last_of b l));
        along = r.along;
        infos = r.infos;
      },
    )
