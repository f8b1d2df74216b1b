-- ===== src/Waitlist/Keeps.antt =====
-- A2/hcq.c: what a state shows does not depend on other addresses, and the statistics can change.
use csc.Common.{ℕ, ◌≤◌, ◌≡◌, refl, ◌∙◌, true, arith, length, set, length-set}
use csc.Waitlist.{State, Store}
use csc.Waitlist.View.{
  View, Stats, Shows, addrs, of, live, served, overall, by_course, info, course_of,
}
use csc.Waitlist.Links.{has, has-append, Linked-same}
use csc.Waitlist.ByCourse.{has-of}
use csc.Waitlist.Good.{Good-change, addrs-append}
use csc.Waitlist.Courses.{courses_of-set}

-- Who waits is among the students that the view names.
pub has-live : (v : View) (a : ℕ) → has a (addrs v.queue) ≡ true → has a (addrs (live v)) ≡ true
has-live v a h =
    rw (addrs-append v.queue (served v.tas))
      (has-append a (addrs v.queue) (addrs (served v.tas)) ∙ ground (arith, h))

-- The store may change where no student of the view is, and grow.
pub Shows-observe :
    (s : State) (v : View) (h : Store) (n m : ℕ)
    → Shows s v
    → s.next ≤ n
    → n ≡ m
    → ((a : ℕ) → has a (addrs (live v)) ≡ true → overall h a ≡ overall s.store a)
    → ((a : ℕ) → has a (addrs (live v)) ≡ true → by_course h a ≡ by_course s.store a)
    → ((a : ℕ) → has a (addrs (live v)) ≡ true → info h a ≡ info s.store a)
    → Shows (record s { store = h; next = n }) (record v { next = m })
Shows-observe s v h n m w le e o c i = record {
  courses = w.courses;
  tas = w.tas;
  front = w.front;
  along =
      Linked-same (overall s.store) (overall h) (addrs v.queue) w.along
        (λ a q. o a (has-live v a q));
  within = λ k.
      Linked-same (by_course s.store) (by_course h) (addrs (of k v.queue)) (w.within k)
        (λ a q. c a (has-live v a (has-of k a v.queue q)));
  good = Good-change s.store h s.next n (length v.stats) (live v) w.good le i;
  short = omega (arith, w.short, le);
  fresh = e;
}

pub Shows-count :
    (s : State) (v : View) (k : ℕ) (d : Stats)
    → Shows s v
    → Shows
        (record s { courses = set s.courses k (course_of d (of k v.queue)) })
        (record v { stats = set v.stats k d })
Shows-count s v k d w = record {
  courses =
      rw w.courses (courses_of-set 0 v.stats v.queue v.queue k k d (omega arith) (λ m n. refl));
  tas = w.tas;
  front = w.front;
  along = w.along;
  within = w.within;
  good = rw (length-set v.stats k d) w.good;
  short = w.short;
  fresh = w.fresh;
}
