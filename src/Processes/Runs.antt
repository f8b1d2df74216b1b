-- ===== src/Processes/Runs.antt =====
-- A1/most_processes.c: the tally is the longest run of lines of one user.
use csc.Common.{
  ℕ, suc, ◌+◌, ◌≤◌, ◌≡◌, refl, sym, ap, ◌∙◌, ◌⊎◌, inl, inr, false, List, [], ◌∷◌, arith, ltb, ◌==◌,
  if◌then◌else◌, ltb→lt, Bool-cases, Bytes, str_eq, str_eq_iff, str_eq_refl,
}
use Prim.Native.Nat.{max}
use csc.Processes.{Tally, started, count_line, count_line_ppid, read_lines, read_lines_ppid}

-- The length of the run of `u` that starts the list.
abbrev pub run_at : Bytes → List Bytes → ℕ
run_at u [] = 0
run_at u (v ∷ l) = let rest = run_at u l in if str_eq v u then suc rest else 0

-- The longest run.
abbrev pub longest : List Bytes → ℕ
longest [] = 0
longest (u ∷ l) = let rest = longest l in max (run_at u (u ∷ l)) rest

-- A run of `u` of the length `k`.
pub data HasRun (u : Bytes) (k : ℕ) : List Bytes → Type 0 where
  here : {l : List Bytes} → run_at u l ≡ k → HasRun u k l
  there : {v : Bytes} {l : List Bytes} → HasRun u k l → HasRun u k (v ∷ l)

-- The tally after the lines `l` and then `u`, the last first.
pub record Tallied (nobody u : Bytes) (l : List Bytes) (t : Tally) : Type 0 where
  pub user : t.current_uid ≡ u
  pub run : t.current_pid_num ≡ run_at u (u ∷ l)
  pub greatest : t.greatest_pid_num ≡ max 1 (longest (u ∷ l))
  pub who :
      ((t.greatest_pid_num ≡ 1) × (t.greatest_uid ≡ nobody))
      ⊎ HasRun t.greatest_uid t.greatest_pid_num (u ∷ l)

-- The lines, the last first, on top of those before.
abbrev pub onto : List Bytes → List Bytes → List Bytes
onto [] l = l
onto (u ∷ rest) l = onto rest (u ∷ l)

count_line-Tallied :
    (nobody u v : Bytes) (l : List Bytes) (t : Tally)
    → Tallied nobody u l t
    → Tallied nobody v (u ∷ l) (count_line t v)
unfolding count_line
count_line-Tallied nobody u v l t h = elim (Bool-cases (str_eq v t.current_uid)) [
  | inl e ↦
      let same : v ≡ t.current_uid = (str_eq_iff v t.current_uid).0 e in
      let runs : run_at v (v ∷ u ∷ l) ≡ suc (run_at u (u ∷ l)) =
        ground (arith, str_eq_refl v, ap (λ w. run_at w (u ∷ l)) (same ∙ h.user)) in
      let kept : ((t.greatest_pid_num ≡ 1) × (t.greatest_uid ≡ nobody))
          ⊎ HasRun t.greatest_uid t.greatest_pid_num (v ∷ u ∷ l) =
        keep h.who in
      elim (Bool-cases (ltb t.greatest_pid_num (t.current_pid_num + 1))) [
        | inl q ↦
            rw (e, q, count_line)
              (record {
                user = sym same;
                run = omega (arith, runs, h.run);
                greatest = omega (arith, runs, h.run, h.greatest, ltb→lt _ _ q);
                who = inr (
                    here (ap (λ w. run_at w (v ∷ u ∷ l)) (sym same) ∙ runs ∙ omega (arith, h.run)));
              })
        | inr q ↦
            rw (e, q, count_line)
              (record {
                user = sym same;
                run = omega (arith, runs, h.run);
                greatest =
                    let small : t.current_pid_num + 1 ≤ t.greatest_pid_num = ground (arith, q) in
                    omega (arith, runs, h.run, h.greatest, small);
                who = kept;
              })
      ]
  | inr e ↦
      let other : str_eq u v ≡ false = elim (Bool-cases (str_eq u v)) [
        | inl p ↦ ground (arith, e, str_eq_iff v t.current_uid, (str_eq_iff u v).0 p, h.user)
        | inr p ↦ p
      ] in
      let runs : run_at v (v ∷ u ∷ l) ≡ 1 = ground (arith, str_eq_refl v, other) in
      rw (e, count_line)
        (record {
          user = refl;
          run = sym runs;
          greatest = omega (arith, runs, h.greatest);
          who = keep h.who;
        })
]
  where
    keep :
        ((t.greatest_pid_num ≡ 1) × (t.greatest_uid ≡ nobody))
          ⊎ HasRun t.greatest_uid t.greatest_pid_num (u ∷ l)
        → ((t.greatest_pid_num ≡ 1) × (t.greatest_uid ≡ nobody))
          ⊎ HasRun t.greatest_uid t.greatest_pid_num (v ∷ u ∷ l)
    keep (inl p) = inl p
    keep (inr p) = inr (there p)

-- The first line, of a user whose name does not stand in `current_uid` by chance.
first-Tallied :
    (nobody uninitialised u : Bytes)
    → str_eq u uninitialised ≡ false
    → Tallied nobody u [] (count_line (started nobody uninitialised) u)
unfolding count_line
first-Tallied nobody uninitialised u e =
    rw (e, count_line)
      (record {
        user = refl;
        run = ground (arith, str_eq_refl u);
        greatest = ground (arith, str_eq_refl u);
        who = inl (refl, refl);
      })

-- After all lines: the greatest number is that of the longest run of lines of one user, and the
-- greatest user has a run of that length; but if no run has two lines, the user is still `nobody`.
pub record Result (nobody : Bytes) (lines : List Bytes) (t : Tally) : Type 0 where
  pub greatest : t.greatest_pid_num ≡ max 1 (longest lines)
  pub who :
      ((t.greatest_pid_num ≡ 1) × (t.greatest_uid ≡ nobody))
      ⊎ HasRun t.greatest_uid t.greatest_pid_num lines

read_lines-from :
    (nobody u : Bytes) (rest l : List Bytes) (t : Tally)
    → Tallied nobody u l t
    → Result nobody (onto rest (u ∷ l)) (read_lines t rest)
unfolding read_lines
read_lines-from nobody u [] l t h = record { greatest = h.greatest; who = h.who }
read_lines-from nobody u (v ∷ rest) l t h =
    read_lines-from nobody v rest (u ∷ l) (count_line t v) (count_line-Tallied nobody u v l t h)

-- `read_lines`, on input whose first user's name does not stand in the uninitialised array: the
-- number is that of the longest run, and the user has such a run unless no run has two lines.
pub read_lines-Result :
    (nobody uninitialised u : Bytes) (rest : List Bytes)
    → str_eq u uninitialised ≡ false
    → Result nobody (onto (u ∷ rest) []) (read_lines (started nobody uninitialised) (u ∷ rest))
unfolding read_lines
read_lines-Result nobody uninitialised u rest e =
    read_lines-from nobody u rest [] _ (first-Tallied nobody uninitialised u e)

-- The users of the lines of one parent.
abbrev pub of_parent : ℕ → List (Bytes × ℕ) → List Bytes
of_parent p [] = []
of_parent p ((uid, ppid) ∷ rest) = let l = of_parent p rest in if ppid == p then uid ∷ l else l

-- Each loop has a body of its own; on a line of the parent they do the same.
count_line_ppid-count_line :
    (p : ℕ) (t : Tally) (uid : Bytes) (ppid : ℕ)
    → count_line_ppid p t (uid, ppid) ≡ (if ppid == p then count_line t uid else t)
unfolding count_line_ppid count_line
count_line_ppid-count_line p t uid ppid = ground arith

-- `read_lines_ppid`, whose loop body is written out a second time, is `read_lines` on the lines of that
-- parent.
pub read_lines_ppid_lem :
    (p : ℕ) (t : Tally) (lines : List (Bytes × ℕ))
    → read_lines_ppid p t lines ≡ read_lines t (of_parent p lines)
unfolding read_lines read_lines_ppid
read_lines_ppid_lem p t [] = refl
read_lines_ppid_lem p t ((uid, ppid) ∷ rest) =
    ap (λ k. read_lines_ppid p k rest) (count_line_ppid-count_line p t uid ppid)
    ∙ elim (Bool-cases (ppid == p)) [
      | inl e ↦ rw e (read_lines_ppid_lem p (count_line t uid) rest)
      | inr e ↦ rw e (read_lines_ppid_lem p t rest)
    ]
