-- ===== src/Waitlist/Writes.antt =====
-- A2/hcq.c: what one write to a student changes, seen through the links and the rest of its fields.
use csc.Common.{
  ℕ, ◌≡◌, refl, ap, ◌∙◌, ◌>>=◌, >>=-eq-some, >>=-some, inl, inr, true, false, Option, some, List,
  [], ◌∷◌, arith, ◌==◌, ==_iff, Bool-cases,
}
use csc.Waitlist.{Student, Store, write, set_next_overall, set_next_course}
use csc.Waitlist.View.{Entry, overall, by_course, info, Infos, addrs}
use csc.Waitlist.Links.{has}

-- `next_overall` of `p` is now `v`, and nothing else has changed.
pub record Relinked (h h' : Store) (p : ℕ) (v : Option ℕ) : Type 0 where
  pub changed : overall h' p ≡ some v
  pub others : (a : ℕ) → (a == p) ≡ false → overall h' a ≡ overall h a
  pub courses : (a : ℕ) → by_course h' a ≡ by_course h a
  pub infos : (a : ℕ) → info h' a ≡ info h a

pub record Recoursed (h h' : Store) (p : ℕ) (v : Option ℕ) : Type 0 where
  pub changed : by_course h' p ≡ some v
  pub others : (a : ℕ) → (a == p) ≡ false → by_course h' a ≡ by_course h a
  pub along : (a : ℕ) → overall h' a ≡ overall h a
  pub infos : (a : ℕ) → info h' a ≡ info h a

pub write-same :
    {A : Type 0} (f : Student → A) (h : Store) (p : ℕ) (n m : Student) (a : ℕ)
    → h p ≡ some n
    → f m ≡ f n
    → (write h p (some m) a >>= λ k. some (f k)) ≡ (h a >>= λ k. some (f k))
write-same f h p n m a e q = elim (Bool-cases (a == p)) [
  | inl i ↦ let same : h a ≡ some n = ap h ((==_iff a p).0 i) ∙ e in rw (i, same) (ap some q)
  | inr i ↦ rw i refl
]

pub write-other :
    {A : Type 0} (f : Student → A) (h : Store) (p : ℕ) (c : Option Student) (a : ℕ)
    → (a == p) ≡ false
    → (write h p c a >>= λ k. some (f k)) ≡ (h a >>= λ k. some (f k))
write-other f h p c a i = rw i refl

pub write_self :
    {A : Type 0} (f : Student → A) (h : Store) (p : ℕ) (m : Student)
    → (write h p (some m) p >>= λ k. some (f k)) ≡ some (f m)
write_self f h p m = rw ((==_iff p p).1 refl) refl

pub set_next_overall-Relinked :
    (h : Store) (p : ℕ) (v : Option ℕ) (n : Student)
    → h p ≡ some n
    → (h' : Store) × (set_next_overall h (some p) v ≡ some h') × Relinked h h' p v
unfolding set_next_overall
set_next_overall-Relinked h p v n e =
    let m : Student = record n { next_overall = v } in
    (
      write h p (some m),
      >>=-some _ e refl,
      record {
        changed = write_self (λ k. k.next_overall) h p m;
        others = λ a i. write-other (λ k. k.next_overall) h p (some m) a i;
        courses = λ a. write-same (λ k. k.next_course) h p n m a e refl;
        infos = λ a. write-same (λ k. (k.name, k.arrival_time, k.course)) h p n m a e refl;
      },
    )

pub set_next_course-Recoursed :
    (h : Store) (p : ℕ) (v : Option ℕ) (n : Student)
    → h p ≡ some n
    → (h' : Store) × (set_next_course h (some p) v ≡ some h') × Recoursed h h' p v
unfolding set_next_course
set_next_course-Recoursed h p v n e =
    let m : Student = record n { next_course = v } in
    (
      write h p (some m),
      >>=-some _ e refl,
      record {
        changed = write_self (λ k. k.next_course) h p m;
        others = λ a i. write-other (λ k. k.next_course) h p (some m) a i;
        along = λ a. write-same (λ k. k.next_overall) h p n m a e refl;
        infos = λ a. write-same (λ k. (k.name, k.arrival_time, k.course)) h p n m a e refl;
      },
    )

-- A student whose information is known is in the store.
pub record Stored (h : Store) (e : Entry) : Type 0 where
  pub student : Student
  pub here : h e.addr ≡ some student
  pub name : student.name ≡ e.name
  pub arrival : student.arrival_time ≡ e.arrival
  pub course : student.course ≡ e.course

pub info-Stored :
    (h : Store) (e : Entry) → info h e.addr ≡ some (e.name, e.arrival, e.course) → Stored h e
info-Stored h e i =
    let (n, here, same) = >>=-eq-some (h e.addr) (λ k. some (k.name, k.arrival_time, k.course)) i in
    record {
      student = n;
      here = here;
      name = ground (arith, same);
      arrival = ground (arith, same);
      course = ground (arith, same);
    }

pub overall-next :
    (h : Store) (p : ℕ) (n : Student) (v : Option ℕ)
    → h p ≡ some n
    → overall h p ≡ some v
    → n.next_overall ≡ v
overall-next h p n v e l = ground (arith, e, l)

pub course-next :
    (h : Store) (p : ℕ) (n : Student) (v : Option ℕ)
    → h p ≡ some n
    → by_course h p ≡ some v
    → n.next_course ≡ v
course-next h p n v e l = ground (arith, e, l)

pub Infos-same :
    (h h' : Store) (l : List Entry)
    → Infos h l
    → ((a : ℕ) → has a (addrs l) ≡ true → info h' a ≡ info h a)
    → Infos h' l
Infos-same h h' [] i same = tt
Infos-same h h' (e ∷ l) (p, i) same =
    (same e.addr (ground arith) ∙ p, Infos-same h h' l i (λ a q. same a (ground (arith, q))))
