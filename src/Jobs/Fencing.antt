-- ===== src/Jobs/Fencing.antt =====
-- What a job of jobs.py becomes over any calls, and what a superseded lease can still do.
use traceline.Common.{
  ℕ, ◌<◌, ◌≡◌, ◌⊎◌, inl, inr, refl, String, Bool, true, false, ◌&&◌, none, some, List, [], ◌∷◌,
  ◌++◌, ok, err, any, All, All-map, eq_iff, arith, Bool-cases,
}
use traceline.Values.{Value}
use traceline.Jobs.Table.{Job, Store, is_job, find_row}
use traceline.Jobs.Queue.{World, Actor, Answer, stale_lease, authorize, require_actor}
use traceline.Jobs.Lease.{
  holds_fence, is_active, acknowledge_cancel, abandon, heartbeat, complete, fail, is_typed_error,
}
use traceline.Jobs.Calls.{Call, run_call, run_calls}
use traceline.Jobs.Moves.{IsKeyed, Kept, RowRun, rest, RowRun-trans, Moves}
use traceline.Jobs.Expiry.{Only, keyed_rows, found_row}
use traceline.Jobs.Refines.{run_call-Moves}
use traceline.Jobs.Evolution.{Later, RowRun-Later, is_job-Later, Moves-IsKeyed}

-- The answers to a holder of the fence.
abbrev pub IsStale : Answer → Type 0
IsStale m = m ≡ err stale_lease

module _ (w : World) where
  open w use {Float}

  -- The row under a key, and what it went on to be.
  abbrev Found : String → String → Job → List Job → Type 0
  Found ws id j ks = (k : Job) × (find_row (is_job ws id) ks ≡ some k) × RowRun w j k

  Kept-find :
      (ws id : String) (js ks : List Job) {j : Job}
      → Kept (RowRun w) js ks
      → find_row (is_job ws id) js ≡ some j
      → Found ws id j ks
  unfolding find_row
  Kept-find ws id [] [] p e = cc
  Kept-find ws id (x ∷ js) (y ∷ ks) {j} p e = elim (Bool-cases (is_job ws id x)) [
    | inl hit ↦
        let here : x ≡ j = (cc (rw hit at e)) in
        (y, rw (is_job-Later w ws id x y p.0, hit) refl, rw (← here) p.0)
    | inr miss ↦
        let (k, found, run) = Kept-find ws id js ks p.1 (rw miss at e) in
        (k, rw (is_job-Later w ws id x y p.0, miss) found, run)
  ]
  Kept-find ws id [] (k ∷ ks) p e = absurd p
  Kept-find ws id (j ∷ js) [] p e = absurd p

  append-find :
      (p : Job → Bool) (js : List Job) (n : Job) {j : Job}
      → find_row p js ≡ some j
      → find_row p (js ++ (n ∷ [])) ≡ some j
  unfolding find_row
  append-find p [] n e = cc
  append-find p (x ∷ js) n e = elim (Bool-cases (p x)) [
    | inl hit ↦ rw hit (rw hit at e)
    | inr miss ↦ rw miss (append-find p js n (rw miss at e))
  ]

  Moves-find :
      (ws id : String) (js ks : List Job) {j : Job}
      → Moves w js ks
      → find_row (is_job ws id) js ≡ some j
      → Found ws id j ks
  Moves-find ws id js ks (inl p) e = Kept-find ws id js ks p e
  Moves-find ws id js ks {j} (inr (n, same, new)) e =
      (j, rw same (append-find (is_job ws id) js n e), rest)

  run_calls-find :
      (s : Store) (cs : List (Call Float)) (ws id : String) {j : Job}
      → IsKeyed s.jobs
      → find_row (is_job ws id) s.jobs ≡ some j
      → IsKeyed (run_calls w s cs).jobs × Found ws id j (run_calls w s cs).jobs
  unfolding run_calls
  run_calls-find s [] ws id {j} h e = (h, (j, e, rest))
  run_calls-find s (c ∷ cs) ws id {j} h e =
      let t = run_call w s c in
      let m = run_call-Moves w s c h in
      let (k, found, run) = Moves-find ws id s.jobs t.jobs m e in
      let (keyed, (l, last, more)) =
        run_calls-find t cs ws id (Moves-IsKeyed w s.jobs t.jobs m h) found in
      (keyed, (l, last, RowRun-trans w j k l run more))

  -- Whatever is called in whatever order, a job is never lost: its key, its command, its digest, its
  -- max_attempts and its creation stay, its fence never falls, and once it completed, failed or was
  -- cancelled its row never changes.
  pub run_calls-Later :
      (s : Store) (cs : List (Call Float)) (ws id : String) {j : Job}
      → IsKeyed s.jobs
      → find_row (is_job ws id) s.jobs ≡ some j
      → (k : Job) × (find_row (is_job ws id) (run_calls w s cs).jobs ≡ some k) × Later j k
  run_calls-Later s cs ws id h e =
      let (keyed, (k, found, run)) = run_calls-find s cs ws id h e in (k, found, RowRun-Later w run)

  none_of : (p : Job → Bool) (js : List Job) → All (λ j. p j ≡ false) js → any p js ≡ false
  none_of p [] h = refl
  none_of p (j ∷ js) h = ground (arith, none_of p js h.1)

  -- No row has a fence below that of the row under the key.
  no_holder :
      (ws id : String) (fence : ℕ) (p : Job → Bool) (js : List Job) {k : Job}
      → IsKeyed js
      → find_row (is_job ws id) js ≡ some k
      → fence < k.fence
      → ((j : Job) → p j ≡ true → holds_fence ws id fence j ≡ true)
      → any p js ≡ false
  no_holder ws id fence p js {k} h e lower guard =
      let (only, here) = found_row (is_job ws id) (λ r. All (Only r) js) js (keyed_rows js h) e in
      none_of p js
        (All-map (Only k) (λ j. p j ≡ false) (λ j o. misses j here o (Bool-cases (p j))) js only)
    where
      misses :
          (j : Job) → is_job ws id k ≡ true → Only k j → (p j ≡ true) ⊎ (p j ≡ false) → p j ≡ false
      misses j here o (inr e) = e
      misses j here o (inl hit) =
          let same = o (
            ground (
              arith,
              guard j hit,
              eq_iff k.workspace_id ws,
              eq_iff j.workspace_id ws,
              eq_iff k.job_id id,
              eq_iff j.job_id id,
              eq_iff j.workspace_id k.workspace_id,
              eq_iff j.job_id k.job_id,
            )) in
          ground (arith, guard j hit, same)

  write_allowed : (a : Actor) → authorize a true ≡ ok tt → require_actor a true none ≡ ok tt
  unfolding require_actor
  write_allowed a h = ground arith

  -- Once a job was leased under a higher fence, a worker that still holds a lower one can do nothing:
  -- whatever was called since, its completion, its failure, its heartbeat, its acknowledgement of a
  -- cancellation and its abandonment raise StaleLease.
  pub superseded_lease :
      (s : Store) (cs : List (Call Float)) (a : Actor) (now id : String) (fence : ℕ)
      (v : Value Float) {j : Job}
      → IsKeyed s.jobs
      → find_row (is_job a.workspace_id id) s.jobs ≡ some j
      → fence < j.fence
      → authorize a true ≡ ok tt
      → is_typed_error w v ≡ true
      → let t = run_calls w s cs in
        IsStale (complete w a now id fence v t)
        × IsStale (fail w a now id fence v t)
        × IsStale (heartbeat w a now id fence t)
        × IsStale (acknowledge_cancel w a now id fence t)
        × IsStale (abandon w a now id fence t)
  unfolding complete fail heartbeat acknowledge_cancel abandon
  superseded_lease s cs a now id fence v h e lower allowed typed =
      let t = run_calls w s cs in
      let (keyed, (k, found, run)) = run_calls-find s cs a.workspace_id id h e in
      let below : fence < k.fence = (ground (arith, (RowRun-Later w run).1)) in
      let no_active =
        no_holder a.workspace_id id fence (is_active a.workspace_id id fence now) t.jobs keyed found
          below (λ j hit. ground arith) in
      let no_holding =
        no_holder a.workspace_id id fence (holds_fence a.workspace_id id fence) t.jobs keyed found
          below (λ j hit. hit) in
      let no_cancelling =
        no_holder a.workspace_id id fence
          (λ j. holds_fence a.workspace_id id fence j && j.cancellation_requested) t.jobs keyed
          found below (λ j hit. ground arith) in
      (
        rw (allowed, no_active) refl,
        rw (allowed, typed, no_active) refl,
        rw (allowed, no_active) refl,
        rw (write_allowed a allowed, no_cancelling) refl,
        rw (write_allowed a allowed, no_holding) refl,
      )
