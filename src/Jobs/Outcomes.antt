-- ===== src/Jobs/Outcomes.antt =====
-- What an enqueued command and a live lease of jobs.py lead to.
use text.Mathlib.TextPositions.{eq_refl}
use traceline.Common.{
  subst, sym, ℕ, suc, ◌≡◌, inl, inr, refl, String, Bool, true, false, ◌&&◌, not, Option, none, some,
  List, [], ◌∷◌, ◌++◌, ok, err, ==_iff, eq_iff, Result, >>=-eq-ok, any, str_eq, arith, Bool-cases,
  check, leb,
}
use traceline.Values.{Value}
use traceline.Predicate.Tokens.{str_length}
use traceline.Jobs.Table.{
  leased, completed, later_than, Job, OutboxEvent, Store, is_job, find_row, update_where,
}
use traceline.Jobs.Queue.{
  World, Actor, JobError, stale_lease, validation_error, authorize, enqueue, add_event, new_event,
  new_job, has_key, bound_or_insert, is_command, is_blank, set_jobs,
}
use traceline.Jobs.Publication.{assert_active_iff}
use traceline.Jobs.Lease.{
  opt_str_eq, assert_active, publication, is_active, complete, completed_with,
}

find-append :
    (p : Job → Bool) (js : List Job) (n : Job)
    → find_row p js ≡ none
    → p n ≡ true
    → find_row p (js ++ (n ∷ [])) ≡ some n
unfolding find_row
find-append p [] n e h = rw h refl
find-append p (x ∷ js) n e h = elim (Bool-cases (p x)) [
  | inl hit ↦ cc (rw hit at e)
  | inr miss ↦ rw miss (find-append p js n (rw miss at e) h)
]

-- The row that a query finds passes it.
row-passes : (p : Job → Bool) (js : List Job) {j : Job} → find_row p js ≡ some j → p j ≡ true
unfolding find_row
row-passes p [] e = cc
row-passes p (x ∷ js) e = elim (Bool-cases (p x)) [
  | inl hit ↦ cc (rw hit at e)
  | inr miss ↦ row-passes p js (rw miss at e)
]

-- The row that a query finds, behind an UPDATE that reaches it and keeps what the query asks.
find-update :
    (q p : Job → Bool) (f : Job → Job) (js : List Job) {j : Job}
    → ((k : Job) → q (f k) ≡ q k)
    → find_row q js ≡ some j
    → p j ≡ true
    → find_row q (update_where p f js) ≡ some (f j)
unfolding find_row update_where
find-update q p f [] keeps e h = cc
find-update q p f (x ∷ js) {j} keeps e h = elim (Bool-cases (q x)) [
  | inl hit ↦ let here : x ≡ j = (cc (rw hit at e)) in rw (here, h, keeps j, ← here, hit) refl
  | inr miss ↦ elim (Bool-cases (p x)) [
    | inl reached ↦ rw (reached, keeps x, miss) (find-update q p f js keeps (rw miss at e) h)
    | inr out ↦ rw (out, miss) (find-update q p f js keeps (rw miss at e) h)
  ]
]

any_found :
    (q p : Job → Bool) (js : List Job) {j : Job}
    → find_row q js ≡ some j
    → p j ≡ true
    → any p js ≡ true
unfolding find_row
any_found q p [] e h = cc
any_found q p (x ∷ js) {j} e h = elim (Bool-cases (q x)) [
  | inl hit ↦ let here : x ≡ j = (cc (rw hit at e)) in rw (here, h) refl
  | inr miss ↦ ground (arith, any_found q p js (rw miss at e) h)
]

opt_str_eq_refl : (o : Option String) → opt_str_eq o o ≡ true
opt_str_eq_refl none = refl
opt_str_eq_refl (some s) = eq_refl s

live_lease :
    (a : Actor) (now : String) (j : Job) (s : Store)
    → authorize a true ≡ ok tt
    → find_row (is_job a.workspace_id j.job_id) s.jobs ≡ some j
    → j.status ≡ leased
    → later_than j.lease_expires_at now ≡ true
    → j.cancellation_requested ≡ false
    → assert_active a now j s ≡ ok j
live_lease a now j s allowed found is_held live going =
    (assert_active_iff a now j j s allowed).1
      (found, (rw is_held refl, refl, opt_str_eq_refl j.lease_worker_id, live, going))

completing_publication :
    (a : Actor) (now later : String) (j : Job) (s t : Store) {r : Job}
    → assert_active a now j s ≡ ok j
    → find_row (is_job a.workspace_id j.job_id) t.jobs ≡ some r
    → r.status ≡ completed
    → r.fence ≡ j.fence
    → publication a now later j true (λ u. ok t) s ≡ ok t
unfolding publication
completing_publication a now later j s t {r} live found ended same =
    rw (live, found, ended, (==_iff r.fence j.fence).1 same) refl

module _ (w : World) where
  open w use {Float, hmac_digest, canonical, redact_content, redaction_data}

  bound_again :
      (o : Option Job) (ws id other key now later : String) (command : Value Float) (max : ℕ)
      (s t : Store) {out : Option Job}
      → find_row (has_key w ws key) s.jobs ≡ o
      → bound_or_insert w o (new_job w ws id command key max now) s ≡ ok (t, out)
      → bound_or_insert w
          (find_row (has_key w ws key) t.jobs)
          (new_job w ws other command key max later)
          t
        ≡ ok (t, out)
  unfolding add_event
  bound_again (some b) ws id other key now later command max s t {out} found h =
      elim (Bool-cases (str_eq b.command_digest (hmac_digest (canonical command)))) [
        | inl same ↦
            let h1 : Path (Result JobError (Store × Option Job)) (ok (s, some b)) (ok (t, out)) =
              (rw same at h) in
            let st : s ≡ t = (cc h1) in
            let so : some b ≡ out = (cc h1) in rw (← st, ← so, found, same) refl
        | inr other_digest ↦ cc (rw other_digest at h)
      ]
  bound_again none ws id other key now later command max s t {out} found h =
      elim (Bool-cases (any (is_job ws id) s.jobs)) [
        | inl taken ↦ cc (rw taken at h)
        | inr free ↦
            let new = new_job w ws id command key max now in
            let added =
              add_event w ws id "queued" now
                (record s { jobs = s.jobs ++ (new ∷ []); drawn = suc s.drawn }) in
            let h1 : Path (Result JobError (Store × Option Job)) (ok (added, some new))
                (ok (t, out)) =
              (rw free at h) in
            let st : added ≡ t = (cc h1) in
            let so : some new ≡ out = (cc h1) in
            rw
              (
                ← st,
                ← so,
                find-append (has_key w ws key) s.jobs new found (rw (eq_refl ws, eq_refl key) refl),
                eq_refl (hmac_digest (canonical command)),
              )
              refl
      ]

  -- Enqueuing the same command under the same key again right away, at whatever time,
  -- changes nothing and returns the same row.
  pub enqueue-idempotent :
      (a : Actor) (now later : String) (command : Value Float) (key : String) (max : ℕ)
      (s t : Store) {out : Option Job}
      → enqueue w a now command key max s ≡ ok (t, out)
      → enqueue w a later command key max t ≡ ok (t, out)
  unfolding enqueue
  enqueue-idempotent a now later command key max s t h =
      let (u, allowed, h1) = >>=-eq-ok (authorize a true) _ h in
      let (u2, shaped, h2) = >>=-eq-ok (check (is_command w command) validation_error) _ h1 in
      let (u3, keyed, h3) =
        >>=-eq-ok (check (not (is_blank key) && leb (str_length key) 255) validation_error) _ h2 in
      let (u4, bounded, h4) = >>=-eq-ok (check (leb 1 max && leb max 20) validation_error) _ h3 in
      rw (allowed, shaped, keyed, bounded)
        (bound_again (find_row (has_key w a.workspace_id key) s.jobs) a.workspace_id
          (w.fresh_id s.drawn) (w.fresh_id t.drawn) key now later command max s t refl h4)

  -- The row of a completed job against the one before: the redacted result, no lease, and the job,
  -- its command and its counters as they were.
  abbrev pub IsCompletion : Value Float → String → Job → Job → Type 0
  IsCompletion result now j r =
      (r.status ≡ completed)
      × (r.result_json ≡ some (canonical (redact_content result)))
      × (r.result_redaction_json ≡ some (canonical (redaction_data result)))
      × (r.lease_worker_id ≡ none)
      × (r.lease_expires_at ≡ none)
      × (r.updated_at ≡ now)
      × (r.command_json ≡ j.command_json)
      × (r.attempts ≡ j.attempts)
      × (r.fence ≡ j.fence)

  -- An actor who may write completes a job that is leased under the fence, until a later time and with
  -- no cancellation asked for: the row is completed with the redacted result, without a lease and
  -- otherwise as it was; one event that says so is added to the outbox; from then on, at any time,
  -- `assert_active` refuses the lease as stale; and a publication that completes commits these writes.
  pub active_lease-complete :
      (a : Actor) (now later id : String) (fence : ℕ) (result : Value Float) (s : Store) {j : Job}
      → authorize a true ≡ ok tt
      → find_row (is_job a.workspace_id id) s.jobs ≡ some j
      → j.status ≡ leased
      → j.fence ≡ fence
      → later_than j.lease_expires_at now ≡ true
      → j.cancellation_requested ≡ false
      → (t : Store) × (r : Job) × (event : OutboxEvent) × (complete w a now id fence result s
          ≡ ok (t, some r))
        × (find_row (is_job a.workspace_id id) t.jobs ≡ some r)
        × IsCompletion result now j r
        × (t.outbox ≡ s.outbox ++ (event ∷ []))
        × ((event.job_id ≡ id) × (event.event_type ≡ "completed") × (event.published_at ≡ none))
        × (assert_active a later j t ≡ err stale_lease)
        × (publication a now later j true (λ u. ok t) s ≡ ok t)
  unfolding complete add_event assert_active publication
  active_lease-complete a now later id fence result s {j} allowed e is_held same live going =
      let ours = row-passes (is_job a.workspace_id id) s.jobs e in
      let p = is_active a.workspace_id id fence now in
      let active : p j ≡ true =
        (rw (ours, is_held, (==_iff j.fence fence).1 same, live, going) refl) in
      let found =
        find-update (is_job a.workspace_id id) p (completed_with w result now) s.jobs (λ k. refl) e
          active in
      let hit = any_found (is_job a.workspace_id id) p s.jobs e active in
      let changed = set_jobs w (update_where p (completed_with w result now) s.jobs) s in
      let t = add_event w a.workspace_id id "completed" now changed in
      let same_id : j.job_id ≡ id = ((eq_iff j.job_id id).0 (ground (arith, ours))) in
      let by_its_id : find_row (is_job a.workspace_id j.job_id) t.jobs
          ≡ some (completed_with w result now j) =
        (subst
          (λ x. find_row (is_job a.workspace_id x) t.jobs ≡ some (completed_with w result now j))
          (sym same_id) found) in
      (
        add_event w a.workspace_id id "completed" now changed,
        completed_with w result now j,
        new_event w a.workspace_id (w.fresh_id s.drawn) id "completed" now,
        rw (allowed, hit, found) refl,
        found,
        (refl, refl, refl, refl, refl, refl, refl, refl, refl),
        refl,
        (refl, refl, refl),
        rw (allowed, same_id, found) refl,
        completing_publication a now later j s
            (add_event w a.workspace_id id "completed" now changed)
            {r = completed_with w result now j}
            (live_lease a now j s allowed
              (subst (λ x. find_row (is_job a.workspace_id x) s.jobs ≡ some j) (sym same_id) e)
              is_held live going)
            by_its_id refl refl,
      )
