-- ===== src/Jobs/Expiry.antt =====
-- `_expire_and_cancel` of jobs.py keeps to the state machine of `Moves`, and rows by their keys.
use traceline.Common.{
  ◌≡◌, inl, inr, refl, subst, String, Bool, true, false, ◌&&◌, some, List, [], ◌∷◌, filter, All,
  All-map, eq_iff, arith, Bool-cases,
}
use traceline.Jobs.Table.{is_leased, Job, Store, is_job, find_row}
use traceline.Jobs.Queue.{
  World, add_event, is_expired, next_status, expired, expire_row, expire_rows, expire_and_cancel,
}
use traceline.Jobs.Moves.{
  IsKeyed, Kept, Kept-refl, Kept-trans, update_where-Kept, update_where-All, expiring, RowRun, rest,
  one_step, RowRun-trans,
}

pub is_job-sym :
    (j k : Job)
    → is_job j.workspace_id j.job_id k ≡ false
    → is_job k.workspace_id k.job_id j ≡ true
    → ⊥
is_job-sym j k h e = ground (
  arith,
  eq_iff j.workspace_id k.workspace_id,
  eq_iff k.workspace_id j.workspace_id,
  eq_iff j.job_id k.job_id,
  eq_iff k.job_id j.job_id,
)

-- Of the rows with the id of r in the workspace, there is only r.
abbrev pub Only : Job → Job → Type 0
Only r j = is_job r.workspace_id r.job_id j ≡ true → j ≡ r

pub keyed_rows : (js : List Job) → IsKeyed js → All (λ r. All (Only r) js) js
keyed_rows [] h = tt
keyed_rows (x ∷ xs) h =
    (((λ e. refl), All-map _ (Only x) (λ j no e. cc) xs h.0), both xs xs h.0 (keyed_rows xs h.1))
  where
    both :
        (ys zs : List Job)
        → All (λ k. is_job x.workspace_id x.job_id k ≡ false) zs
        → All (λ r. All (Only r) ys) zs
        → All (λ r. All (Only r) (x ∷ ys)) zs
    both ys [] a b = tt
    both ys (z ∷ zs) a b = (((λ e. absurd (is_job-sym x z a.0 e)), b.0), both ys zs a.1 b.1)

some_inj : {A : Type 0} {a b : A} → some a ≡ some b → a ≡ b
some_inj h = cc

pub found_row :
    (p : Job → Bool) (Q : Job → Type 0) (js : List Job) {r : Job}
    → All Q js
    → find_row p js ≡ some r
    → Q r × (p r ≡ true)
unfolding find_row
found_row p Q [] h e = cc
found_row p Q (j ∷ js) h e = elim (Bool-cases (p j)) [
  | inl hit ↦ (subst Q (some_inj (rw hit at e)) h.0, cc (rw hit at e))
  | inr miss ↦ found_row p Q js h.1 (rw miss at e)
]

abbrev Same : String → Job → Job → Type 0
Same ws r j = is_job ws r.job_id j ≡ true → is_leased j.status ≡ true → j ≡ r

in_workspace :
    (w : World) (ws now : String) (r j : Job)
    → is_expired w ws now r ≡ true
    → is_job ws r.job_id j ≡ true
    → is_job r.workspace_id r.job_id j ≡ true
in_workspace w ws now r j h e = ground (
  arith,
  eq_iff r.workspace_id ws,
  eq_iff j.workspace_id ws,
  eq_iff j.workspace_id r.workspace_id,
)

selected :
    (w : World) (ws now : String) (js rs : List Job)
    → All (λ r. All (Only r) js) rs
    → All (λ r. All (Same ws r) js) (filter (is_expired w ws now) rs)
selected w ws now js [] h = tt
selected w ws now js (r ∷ rs) h = elim (Bool-cases (is_expired w ws now r)) [
  | inl hit ↦
      rw (hit, All)
        (
          All-map (Only r) (Same ws r) (λ j only here l. only (in_workspace w ws now r j hit here))
              js h.0,
          selected w ws now js rs h.1,
        )
  | inr miss ↦ rw (miss, All) (selected w ws now js rs h.1)
]

module _ (w : World) where
  open w use {Float}

  kept : (js : List Job) → Kept (RowRun w) js js
  kept = Kept-refl (RowRun w) (λ j. rest)

  not_leased : (j : Job) → is_leased (next_status w j) ≡ false
  not_leased j = ground arith

  -- One row's expiry, where that row is the only one that it can reach.
  expire_row-Kept :
      (ws now : String) (r : Job) (s : Store)
      → All (Same ws r) s.jobs
      → Kept (RowRun w) s.jobs (expire_row w ws now r s).jobs
  unfolding add_event
  expire_row-Kept ws now r s h =
      update_where-Kept (RowRun w) (Same ws r) (λ j. is_job ws r.job_id j && is_leased j.status)
        (expired w (next_status w r) now) (λ j. rest)
        (λ j same hit.
          let e = same (ground arith) (ground arith) in
          let l : is_leased r.status ≡ true = (rw (← e) (ground arith)) in
          rw e (one_step w (expiring now l)))
        s.jobs h

  expire_row-Same :
      (ws now : String) (r q : Job) (s : Store)
      → All (Same ws q) s.jobs
      → All (Same ws q) (expire_row w ws now r s).jobs
  unfolding add_event
  expire_row-Same ws now r q s h =
      update_where-All (Same ws q) _ _ (λ j same hit here l. cc (not_leased r)) s.jobs h

  expire_rows-Kept :
      (ws now : String) (rs : List Job) (s : Store)
      → All (λ r. All (Same ws r) s.jobs) rs
      → Kept (RowRun w) s.jobs (expire_rows w ws now rs s).jobs
  unfolding expire_rows
  expire_rows-Kept ws now [] s h = kept s.jobs
  expire_rows-Kept ws now (r ∷ rs) s h =
      let t = expire_row w ws now r s in
      Kept-trans (RowRun w) (RowRun-trans w) s.jobs t.jobs _ (expire_row-Kept ws now r s h.0) (
        expire_rows-Kept ws now rs t (
          All-map (λ q. All (Same ws q) s.jobs) (λ q. All (Same ws q) t.jobs)
            (λ q. expire_row-Same ws now r q s) rs h.1))

  pub expire_and_cancel-Kept :
      (ws now : String) (s : Store)
      → IsKeyed s.jobs
      → Kept (RowRun w) s.jobs (expire_and_cancel w ws now s).jobs
  unfolding expire_and_cancel
  expire_and_cancel-Kept ws now s h =
      expire_rows-Kept ws now _ s (selected w ws now s.jobs s.jobs (keyed_rows s.jobs h))
