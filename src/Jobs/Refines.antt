-- ===== src/Jobs/Refines.antt =====
-- Every call of a method of JobQueue keeps to the state machine of `Moves`.
use traceline.Common.{
  ℕ, ◌≡◌, ◌⊎◌, inl, inr, refl, String, Bool, true, ◌&&◌, not, Option, none, some, List, Result, ok,
  err, ◌>>=◌, any, All, Ensures, Ensures-then, str_eq, eq_iff, arith, Bool-cases, Option-cases,
  check, leb,
}
use traceline.Values.{Value}
use traceline.Predicate.Tokens.{str_length}
use traceline.Jobs.Table.{is_terminal, Job, Store, is_job, update_where, find_row, oldest}
use traceline.Jobs.Queue.{
  World, Actor, JobError, validation_error, is_command, value_error, is_blank, Answer, authorize,
  require_actor, add_event, new_job, insert_job, bound_or_insert, enqueue, answer, row,
  expire_and_cancel, is_claimable, update_jobs, lease_job, lease_oldest, claim, claim_specific,
}
use traceline.Jobs.Lease.{
  update_lease, acknowledge_cancel, abandon, heartbeat, complete, fail, is_typed_error, cancelling,
  cancel_row, request_cancel, acknowledge_outbox,
}
use traceline.Jobs.Calls.{
  call_method, run_call, committed, Call, Method, enqueue_of, claim_by, claim_specific_by,
  acknowledge_cancel_of, abandon_of, heartbeat_of, complete_of, fail_of, request_cancel_of,
  acknowledge_outbox_of,
}
use traceline.Jobs.Moves.{
  IsKeyed, Kept, Kept-refl, Kept-trans, update_where-Kept, All-unit, RowStep, leasing, dropping,
  extending, completing, failing, requesting, RowRun, rest, one_step, RowRun-trans, Moves,
}
use traceline.Jobs.Expiry.{Only, keyed_rows, found_row, expire_and_cancel-Kept}

module _ (w : World) where
  open w use {Float}

  -- The rows of the answer's store are those of s, moved on.
  abbrev KeptFrom : List Job → Store × Option Job → Type 0
  KeptFrom js r = Kept (RowRun w) js r.0.jobs

  kept : (js : List Job) → Kept (RowRun w) js js
  kept = Kept-refl (RowRun w) (λ j. rest)

  answer-KeptFrom :
      (ws id : String) (js : List Job) (t : Store)
      → Kept (RowRun w) js t.jobs
      → Ensures (KeptFrom js) (answer w ws id t)
  answer-KeptFrom ws id js t h =
      Ensures-then (KeptFrom js) (row (find_row (is_job ws id) t.jobs)) (λ j. ok (t, some j))
        (λ j. h)

  -- A guarded UPDATE whose rows step, after a part that keeps to the machine.
  update_jobs-KeptFrom :
      (p : Job → Bool) (f : Job → Job) (next : Store → Answer) (otherwise : Answer) (js : List Job)
      (s : Store)
      → Kept (RowRun w) js s.jobs
      → ((j : Job) → p j ≡ true → RowStep w j (f j))
      → ((t : Store) → Kept (RowRun w) js t.jobs → Ensures (KeptFrom js) (next t))
      → Ensures (KeptFrom js) otherwise
      → Ensures (KeptFrom js) (update_jobs w p f next otherwise s)
  update_jobs-KeptFrom p f next otherwise js s h steps after other =
      elim (Bool-cases (any p s.jobs)) [
        | inl hit ↦
            rw (hit, Ensures) (after _ (Kept-trans (RowRun w) (RowRun-trans w) js s.jobs _ h moved))
        | inr miss ↦ rw (miss, Ensures) other
      ]
    where
      moved : Kept (RowRun w) s.jobs (update_where p f s.jobs)
      moved =
          update_where-Kept (RowRun w) (λ j. Unit) p f (λ j. rest)
            (λ j u hit. one_step w (steps j hit)) s.jobs (All-unit s.jobs)

  lease_job-KeptFrom :
      (ws id worker now : String) (js : List Job) (s : Store)
      → Kept (RowRun w) js s.jobs
      → Ensures (KeptFrom js) (lease_job w ws id worker now s)
  unfolding add_event
  lease_job-KeptFrom ws id worker now js s h =
      update_jobs-KeptFrom _ _ _ _ js s h (λ j hit. leasing worker now (ground arith))
        (λ t k. answer-KeptFrom ws id js (add_event w ws id "leased" now t) k) h

  lease_oldest-KeptFrom :
      (o : Option Job) (ws worker now : String) (js : List Job) (s : Store)
      → Kept (RowRun w) js s.jobs
      → Ensures (KeptFrom js) (lease_oldest w o ws worker now s)
  lease_oldest-KeptFrom none ws worker now js s h = h
  lease_oldest-KeptFrom (some j) ws worker now js s h =
      lease_job-KeptFrom ws j.job_id worker now js s h

  -- A check before the rest.
  behind :
      (P : Store × Option Job → Type 0) (g : Result JobError (Unit {0})) (m : Answer)
      → Ensures P m
      → Ensures P (g >>= λ u. m)
  behind P (ok u) m h = h
  behind P (err e) m h = tt

  claim-KeptFrom :
      (a : Actor) (now worker : String) (s : Store)
      → IsKeyed s.jobs
      → Ensures (KeptFrom s.jobs) (claim w a now worker s)
  unfolding claim
  claim-KeptFrom a now worker s h =
      let s1 = expire_and_cancel w a.workspace_id now s in
      let next = oldest (λ j. str_eq j.workspace_id a.workspace_id && is_claimable w j) s1.jobs in
      behind (KeptFrom s.jobs) (check (not (is_blank worker)) value_error) _ (
        behind (KeptFrom s.jobs) (authorize a true)
          (lease_oldest w next a.workspace_id worker now s1)
          (lease_oldest-KeptFrom next a.workspace_id worker now s.jobs s1
            (expire_and_cancel-Kept w a.workspace_id now s h)))

  claim_specific-KeptFrom :
      (a : Actor) (now id worker : String) (s : Store)
      → IsKeyed s.jobs
      → Ensures (KeptFrom s.jobs) (claim_specific w a now id worker s)
  unfolding claim_specific
  claim_specific-KeptFrom a now id worker s h =
      let leased_it =
        lease_job w a.workspace_id id worker now (expire_and_cancel w a.workspace_id now s) in
      behind (KeptFrom s.jobs) (check (not (is_blank id)) value_error) _ (
        behind (KeptFrom s.jobs) (check (not (is_blank worker)) value_error) _ (
          behind (KeptFrom s.jobs) (authorize a true) leased_it (
            lease_job-KeptFrom a.workspace_id id worker now s.jobs
              (expire_and_cancel w a.workspace_id now s)
              (expire_and_cancel-Kept w a.workspace_id now s h))))

  -- An UPDATE under a fence, with its event.
  update_lease-KeptFrom :
      (ws id type now : String) (p : Job → Bool) (f : Job → Job) (s : Store)
      → ((j : Job) → p j ≡ true → RowStep w j (f j))
      → Ensures (KeptFrom s.jobs) (update_lease w ws id type now p f s)
  unfolding add_event
  update_lease-KeptFrom ws id type now p f s steps =
      update_jobs-KeptFrom p f _ _ s.jobs s (kept s.jobs) steps
        (λ t k. answer-KeptFrom ws id s.jobs (add_event w ws id type now t) k) tt

  cancel_row-KeptFrom :
      (ws id now : String) (r : Job) (s : Store)
      → All (Only r) s.jobs
      → is_job ws id r ≡ true
      → Ensures (KeptFrom s.jobs) (cancel_row w ws id now r s)
  unfolding add_event
  cancel_row-KeptFrom ws id now r s h here = elim (Bool-cases (is_terminal r.status)) [
    | inl over ↦ rw (over, Ensures) (kept s.jobs)
    | inr open_ ↦
        rw (open_, Ensures)
          (answer-KeptFrom ws id s.jobs _ (
            update_where-Kept (RowRun w) (Only r) (is_job ws id) (cancelling w r.status now)
              (λ j. rest)
              (λ j only hit. rw (only (same_key j hit)) (one_step w (requesting now open_))) s.jobs
              h))
  ]
    where
      same_key : (j : Job) → is_job ws id j ≡ true → is_job r.workspace_id r.job_id j ≡ true
      same_key j hit = ground (
        arith,
        eq_iff r.workspace_id ws,
        eq_iff j.workspace_id ws,
        eq_iff r.job_id id,
        eq_iff j.job_id id,
        eq_iff j.workspace_id r.workspace_id,
        eq_iff j.job_id r.job_id,
      )

  request_cancel-KeptFrom :
      (a : Actor) (now id : String) (s : Store)
      → IsKeyed s.jobs
      → Ensures (KeptFrom s.jobs) (request_cancel w a now id s)
  unfolding request_cancel
  request_cancel-KeptFrom a now id s h =
      Ensures-then (KeptFrom s.jobs) (authorize a true) _
        (λ u. go (Option-cases (find_row (is_job a.workspace_id id) s.jobs)))
    where
      go :
          (find_row (is_job a.workspace_id id) s.jobs ≡ none)
            ⊎ ((r : Job) × (find_row (is_job a.workspace_id id) s.jobs ≡ some r))
          → Ensures (KeptFrom s.jobs) (
              row (find_row (is_job a.workspace_id id) s.jobs) >>= λ r.
              cancel_row w a.workspace_id id now r s)
      go (inl e) = rw (e, Ensures) tt
      go (inr (r, e)) =
          let (only, here) =
            found_row (is_job a.workspace_id id) (λ q. All (Only q) s.jobs) s.jobs
              (keyed_rows s.jobs h) e in
          rw (e, Ensures) (cancel_row-KeptFrom a.workspace_id id now r s only here)

  abbrev MovedFrom : List Job → Store × Option Job → Type 0
  MovedFrom js r = Moves w js r.0.jobs

  moved : (js : List Job) (m : Answer) → Ensures (KeptFrom js) m → Ensures (MovedFrom js) m
  moved js (ok r) h = inl h
  moved js (err e) h = tt

  insert_job-MovedFrom :
      (ws id : String) (command : Value Float) (key now : String) (max : ℕ) (s : Store)
      → leb 1 max ≡ true
      → Ensures (MovedFrom s.jobs) (insert_job w (new_job w ws id command key max now) s)
  unfolding add_event
  insert_job-MovedFrom ws id command key now max s le =
      elim (Bool-cases (any (is_job ws id) s.jobs)) [
        | inl taken ↦ rw (taken, Ensures) tt
        | inr free ↦
            rw (free, Ensures)
              (inr (
                new_job w ws id command key max now,
                refl,
                (free, refl, refl, refl, le, refl, refl, refl),
              ))
      ]

  bound_or_insert-MovedFrom :
      (o : Option Job) (ws id : String) (command : Value Float) (key now : String) (max : ℕ)
      (s : Store)
      → leb 1 max ≡ true
      → Ensures (MovedFrom s.jobs) (bound_or_insert w o (new_job w ws id command key max now) s)
  bound_or_insert-MovedFrom none ws id command key now max s le =
      insert_job-MovedFrom ws id command key now max s le
  bound_or_insert-MovedFrom (some j) ws id command key now max s le =
      elim (Bool-cases (str_eq j.command_digest (w.hmac_digest (w.canonical command)))) [
        | inl same ↦ rw (same, Ensures) (inl (kept s.jobs))
        | inr other ↦ rw (other, Ensures) tt
      ]

  enqueue-MovedFrom :
      (a : Actor) (now : String) (command : Value Float) (key : String) (max : ℕ) (s : Store)
      → Ensures (MovedFrom s.jobs) (enqueue w a now command key max s)
  unfolding enqueue
  enqueue-MovedFrom a now command key max s =
      let P = MovedFrom s.jobs in
      behind P (authorize a true) _ (
        behind P (check (is_command w command) validation_error) _ (
          behind P (check (not (is_blank key) && leb (str_length key) 255) validation_error) _
            (elim (Bool-cases (leb 1 max && leb max 20)) [
              | inl fine ↦
                  rw (fine, Ensures)
                    (bound_or_insert-MovedFrom _ a.workspace_id _ command key now max s
                      (ground arith))
              | inr bad ↦ rw (bad, Ensures) tt
            ])))

  call_method-MovedFrom :
      (a : Actor) (now : String) (m : Method Float) (s : Store)
      → IsKeyed s.jobs
      → Ensures (MovedFrom s.jobs) (call_method w a now m s)
  unfolding call_method acknowledge_cancel abandon heartbeat complete fail acknowledge_outbox
  call_method-MovedFrom a now (enqueue_of command key max) s h =
      enqueue-MovedFrom a now command key max s
  call_method-MovedFrom a now (claim_by worker) s h =
      moved s.jobs _ (claim-KeptFrom a now worker s h)
  call_method-MovedFrom a now (claim_specific_by id worker) s h =
      moved s.jobs _ (claim_specific-KeptFrom a now id worker s h)
  call_method-MovedFrom a now (acknowledge_cancel_of id fence) s h =
      moved s.jobs (acknowledge_cancel w a now id fence s) (
        behind (KeptFrom s.jobs) (require_actor a true none) _ (
          update_lease-KeptFrom a.workspace_id id "cancelled" now _ _ s
            (λ j hit. dropping now (ground arith) (ground arith))))
  call_method-MovedFrom a now (abandon_of id fence) s h =
      moved s.jobs (abandon w a now id fence s) (
        behind (KeptFrom s.jobs) (require_actor a true none) _ (
          update_jobs-KeptFrom _ _ _ _ s.jobs s (kept s.jobs)
            (λ j hit. extending now now (ground arith))
            (λ t k. answer-KeptFrom a.workspace_id id s.jobs t k) tt))
  call_method-MovedFrom a now (heartbeat_of id fence) s h =
      moved s.jobs (heartbeat w a now id fence s) (
        behind (KeptFrom s.jobs) (authorize a true) _ (
          update_jobs-KeptFrom _ _ _ _ s.jobs s (kept s.jobs)
            (λ j hit. extending (w.lease_until now) now (ground arith))
            (λ t k. answer-KeptFrom a.workspace_id id s.jobs t k) tt))
  call_method-MovedFrom a now (complete_of id fence result) s h =
      moved s.jobs (complete w a now id fence result s) (
        behind (KeptFrom s.jobs) (authorize a true) _ (
          update_lease-KeptFrom a.workspace_id id "completed" now _ _ s
            (λ j hit. completing result now (ground arith) (ground arith))))
  call_method-MovedFrom a now (fail_of id fence error) s h =
      moved s.jobs (fail w a now id fence error s) (
        behind (KeptFrom s.jobs) (authorize a true) _ (
          behind (KeptFrom s.jobs) (check (is_typed_error w error) validation_error) _ (
            update_lease-KeptFrom a.workspace_id id "failed" now _ _ s
              (λ j hit. failing error now (ground arith) (ground arith)))))
  call_method-MovedFrom a now (request_cancel_of id) s h =
      moved s.jobs _ (request_cancel-KeptFrom a now id s h)
  call_method-MovedFrom a now (acknowledge_outbox_of event_id) s h =
      behind (MovedFrom s.jobs) (authorize a true) _ (inl (kept s.jobs))

  committed-Moves :
      (s : Store) (m : Answer)
      → Ensures (MovedFrom s.jobs) m
      → Moves w s.jobs (committed w s m).jobs
  committed-Moves s (ok r) h = h
  committed-Moves s (err e) h = inl (kept s.jobs)

  -- Where no two rows have one key, every call of any method keeps to the state machine: each row
  -- goes on along legal changes, and no row is lost; or else one new row is added, queued, under an
  -- id that no row had.
  pub run_call-Moves :
      (s : Store) (c : Call Float) → IsKeyed s.jobs → Moves w s.jobs (run_call w s c).jobs
  unfolding run_call
  run_call-Moves s c h = committed-Moves s _ (call_method-MovedFrom c.actor c.now c.method s h)
