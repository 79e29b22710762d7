-- ===== src/Jobs/Evolution.antt =====
-- What every call of jobs.py preserves: the keys, the shape of each row, and what never changes back.
use traceline.Common.{
  ◌≤◌, ◌<◌, ◌≡◌, ◌⊎◌, inl, inr, refl, ◌∙◌, String, true, false, none, List, [], ◌∷◌, ◌++◌, any, All,
  All-append, is_some, arith, Bool-cases,
}
use traceline.Jobs.Table.{
  JobStatus, queued, leased, completed, failed, cancelled, is_terminal, Job, Store, is_job,
}
use traceline.Jobs.Queue.{World}
use traceline.Jobs.Lease.{cancelling}
use traceline.Jobs.Calls.{Call, run_call, run_calls}
use traceline.Jobs.Moves.{
  IsKeyed, Kept, RowStep, leasing, expiring, dropping, extending, completing, failing, requesting,
  RowRun, rest, then_step, IsNew, Moves,
}
use traceline.Jobs.Expiry.{is_job-sym}
use traceline.Jobs.Refines.{run_call-Moves}

-- What was enqueued stays.
abbrev pub SameJob : Job → Job → Type 0
SameJob j k =
    (k.workspace_id ≡ j.workspace_id)
    × (k.job_id ≡ j.job_id)
    × (k.command_json ≡ j.command_json)
    × (k.command_digest ≡ j.command_digest)
    × (k.idempotency_key ≡ j.idempotency_key)
    × (k.max_attempts ≡ j.max_attempts)
    × (k.created_at ≡ j.created_at)

-- k is what became of j: the same job, no lower fence, and the same row if j had ended.
abbrev pub Later : Job → Job → Type 0
Later j k = SameJob j k × (j.fence ≤ k.fence) × ((is_terminal j.status ≡ false) ⊎ (k ≡ j))

abbrev pub NoLease : Job → Type 0
NoLease j = (j.lease_worker_id ≡ none) × (j.lease_expires_at ≡ none)

-- What the columns hold in each status.
abbrev pub Shape : JobStatus → Job → Type 0
Shape queued j = NoLease j × (j.attempts < j.max_attempts) × (j.cancellation_requested ≡ false)
Shape leased j = (is_some j.lease_worker_id ≡ true) × (is_some j.lease_expires_at ≡ true)
Shape completed j = NoLease j × (is_some j.result_json ≡ true) × (j.cancellation_requested ≡ false)
Shape failed j = NoLease j × (is_some j.error_json ≡ true) × (j.cancellation_requested ≡ false)
Shape cancelled j = NoLease j × (j.cancellation_requested ≡ true)

abbrev pub IsValid : Job → Type 0
IsValid j = (j.attempts ≡ j.fence) × (j.attempts ≤ j.max_attempts) × Shape j.status j

abbrev pub IsValidStore : Store → Type 0
IsValidStore s = IsKeyed s.jobs × All IsValid s.jobs

module _ (w : World) where
  open w use {Float}

  cancelling-Later :
      (st : JobStatus) (j : Job) (now : String)
      → j.status ≡ st
      → is_terminal st ≡ false
      → Later j (cancelling w st now j)
  cancelling-Later queued j now e h =
      ((refl, refl, refl, refl, refl, refl, refl), omega arith, inl (ground arith))
  cancelling-Later leased j now e h =
      ((refl, refl, refl, refl, refl, refl, refl), omega arith, inl (ground arith))
  cancelling-Later _ j now e h = cc

  cancelling-IsValid :
      (st : JobStatus) (j : Job) (now : String)
      → j.status ≡ st
      → is_terminal st ≡ false
      → IsValid j
      → IsValid (cancelling w st now j)
  cancelling-IsValid queued j now e h v = ground arith
  cancelling-IsValid leased j now e h v = ground arith
  cancelling-IsValid _ j now e h v = cc

  RowStep-Later : {j k : Job} → RowStep w j k → Later j k
  RowStep-Later (leasing worker now h) =
      ((refl, refl, refl, refl, refl, refl, refl), omega arith, inl (ground arith))
  RowStep-Later (expiring now h) =
      ((refl, refl, refl, refl, refl, refl, refl), omega arith, inl (ground arith))
  RowStep-Later (dropping now h c) =
      ((refl, refl, refl, refl, refl, refl, refl), omega arith, inl (ground arith))
  RowStep-Later (extending t now h) =
      ((refl, refl, refl, refl, refl, refl, refl), omega arith, inl (ground arith))
  RowStep-Later (completing result now h c) =
      ((refl, refl, refl, refl, refl, refl, refl), omega arith, inl (ground arith))
  RowStep-Later (failing error now h c) =
      ((refl, refl, refl, refl, refl, refl, refl), omega arith, inl (ground arith))
  RowStep-Later (requesting {j} now h) = cancelling-Later j.status j now refl h

  RowStep-IsValid : {j k : Job} → RowStep w j k → IsValid j → IsValid k
  RowStep-IsValid (leasing worker now h) v = ground arith
  RowStep-IsValid (expiring now h) v = ground arith
  RowStep-IsValid (dropping now h c) v = ground arith
  RowStep-IsValid (extending t now h) v = ground arith
  RowStep-IsValid (completing result now h c) v = ground arith
  RowStep-IsValid (failing error now h c) v = ground arith
  RowStep-IsValid (requesting {j} now h) v = cancelling-IsValid j.status j now refl h v

  pub RowRun-Later : {j k : Job} → RowRun w j k → Later j k
  RowRun-Later rest = ((refl, refl, refl, refl, refl, refl, refl), omega arith, inr refl)
  RowRun-Later (then_step {j} {k} {l} run s) = go (RowRun-Later run) (RowStep-Later s)
    where
      go : Later j k → Later k l → Later j l
      go (a, f, e) (b, g, d) = ((b.0 ∙ a.0, cc, cc, cc, cc, cc, cc), omega arith, ended e d)
        where
          ended :
              (is_terminal j.status ≡ false) ⊎ (k ≡ j)
              → (is_terminal k.status ≡ false) ⊎ (l ≡ k)
              → (is_terminal j.status ≡ false) ⊎ (l ≡ j)
          ended (inl open_) d = inl open_
          ended (inr same) (inl open_) = inl (rw (← same) open_)
          ended (inr same) (inr still) = inr (still ∙ same)

  RowRun-IsValid : {j k : Job} → RowRun w j k → IsValid j → IsValid k
  RowRun-IsValid rest v = v
  RowRun-IsValid (then_step run s) v = RowStep-IsValid s (RowRun-IsValid run v)

  -- A property of rows that runs keep.
  pub Kept-All :
      (Q : Job → Type 0)
      → ((j k : Job) → RowRun w j k → Q j → Q k)
      → (js ks : List Job) → Kept (RowRun w) js ks
      → All Q js
      → All Q ks
  Kept-All Q f [] [] p h = tt
  Kept-All Q f (j ∷ js) (k ∷ ks) p h = (f j k p.0 h.0, Kept-All Q f js ks p.1 h.1)
  Kept-All Q f [] (k ∷ ks) p h = absurd p
  Kept-All Q f (j ∷ js) [] p h = absurd p

  pub is_job-Later : (ws id : String) (j k : Job) → RowRun w j k → is_job ws id k ≡ is_job ws id j
  is_job-Later ws id j k run = let ids = (RowRun-Later run).0 in rw (ids.0, ids.1) refl

  Kept-IsKeyed : (js ks : List Job) → Kept (RowRun w) js ks → IsKeyed js → IsKeyed ks
  Kept-IsKeyed [] [] p h = tt
  Kept-IsKeyed (j ∷ js) (k ∷ ks) p h =
      let ids = (RowRun-Later p.0).0 in
      (
        Kept-All (λ l. is_job k.workspace_id k.job_id l ≡ false)
            (λ l m run e. is_job-Later k.workspace_id k.job_id l m run ∙ e) js ks p.1
            (rw (ids.0, ids.1) h.0),
        Kept-IsKeyed js ks p.1 h.1,
      )
  Kept-IsKeyed [] (k ∷ ks) p h = absurd p
  Kept-IsKeyed (j ∷ js) [] p h = absurd p

  append-IsKeyed :
      (js : List Job) (n : Job)
      → any (is_job n.workspace_id n.job_id) js ≡ false
      → IsKeyed js
      → IsKeyed (js ++ (n ∷ []))
  append-IsKeyed [] n free h = (tt, tt)
  append-IsKeyed (j ∷ js) n free h = (
    All-append (λ k. is_job j.workspace_id j.job_id k ≡ false) js (n ∷ []) h.0
        (other (Bool-cases _), tt),
    append-IsKeyed js n (ground arith) h.1,
  )
    where
      other :
          (is_job j.workspace_id j.job_id n ≡ true) ⊎ (is_job j.workspace_id j.job_id n ≡ false)
          → is_job j.workspace_id j.job_id n ≡ false
      other (inl same) = absurd (is_job-sym n j (ground arith) same)
      other (inr e) = e

  pub Moves-IsKeyed : (js ks : List Job) → Moves w js ks → IsKeyed js → IsKeyed ks
  Moves-IsKeyed js ks (inl kept) h = Kept-IsKeyed js ks kept h
  Moves-IsKeyed js ks (inr (n, e, new)) h = rw e (append-IsKeyed js n new.0 h)

  Moves-IsValid : (js ks : List Job) → Moves w js ks → All IsValid js → All IsValid ks
  Moves-IsValid js ks (inl kept) h = Kept-All IsValid (λ j k. RowRun-IsValid) js ks kept h
  Moves-IsValid js ks (inr (n, e, new)) h =
      rw (e, All) (All-append IsValid js (n ∷ []) h (new_row n new, tt))
    where
      new_row : (n : Job) → IsNew w js n → IsValid n
      new_row n (free, st, f, a, m, lw, le, c) =
          (cc, ground arith, rw (st, Shape) ((lw, le), ground arith, c))

  -- Whatever is called in whatever order, by whom and when, the rows keep their distinct keys, the
  -- attempts are counted by the fence and never exceed max_attempts, and the columns fit the status: a
  -- lease exactly while leased, a further attempt left while queued, a result once completed, an
  -- error once failed, a request once cancelled.
  pub run_calls-IsValid :
      (s : Store) (cs : List (Call Float)) → IsValidStore s → IsValidStore (run_calls w s cs)
  unfolding run_calls
  run_calls-IsValid s [] h = h
  run_calls-IsValid s (c ∷ cs) h =
      let m = run_call-Moves w s c h.0 in
      let t = run_call w s c in
      run_calls-IsValid t cs (Moves-IsKeyed s.jobs t.jobs m h.0, Moves-IsValid s.jobs t.jobs m h.1)
