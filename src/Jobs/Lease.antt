-- ===== src/Jobs/Lease.antt =====
-- The methods of JobQueue that work under a lease, the cancellation, and the outbox.
use traceline.Common.{
  ℕ, String, Bool, true, false, ◌&&◌, ◌||◌, not, Option, none, some, Result, ok, err, ◌>>=◌, check,
  ◌==◌, str_eq, str_lt, if◌then◌else◌,
}
use traceline.Values.{Value, str, dict, entry_get}
use traceline.Jobs.Table.{
  queued, completed, failed, cancelled, is_leased, is_completed, is_terminal, JobStatus, Job,
  OutboxEvent, Store, is_job, later_than, update_where, find_row,
}
use traceline.Jobs.Queue.{
  JobError, validation_error, stale_lease, job_cancelled, type_error, World, Actor, require_actor,
  authorize, Answer, add_event, answer, row, update_jobs, set_jobs,
}

-- `==` on a column that may be NULL.
abbrev pub opt_str_eq : Option String → Option String → Bool
opt_str_eq none none = true
opt_str_eq (some s) (some t) = str_eq s t
opt_str_eq _ _ = false

-- What the checks of `assert_active` need of the lease.
abbrev pub not_this_lease : Job → Job → Bool
not_this_lease current lease =
    not (is_leased current.status)
    || (not (current.fence == lease.fence)
        || not (opt_str_eq current.lease_worker_id lease.lease_worker_id))

-- current.lease_expires_at <= now, which raises where there is no time, then the cancellation
abbrev pub checked_time : Option String → Job → String → Result JobError Job
checked_time none current now = err type_error
checked_time (some t) current now =
    if not (str_lt now t)
    then err stale_lease
    else if current.cancellation_requested
    then err job_cancelled
    else ok current

abbrev pub checked_lease : Option Job → Job → String → Result JobError Job
checked_lease none lease now = err stale_lease
checked_lease (some current) lease now =
    if not_this_lease current lease
    then err stale_lease
    else checked_time current.lease_expires_at current now

unfoldable pub assert_active : Actor → String → Job → Store → Result JobError Job
unfolding require_actor find_row
assert_active a now lease s = authorize a true >>= λ _.
    checked_lease (find_row (is_job a.workspace_id lease.job_id) s.jobs) lease now

abbrev pub checked_completion : Job → Job → Result JobError (Unit {0})
checked_completion current lease =
    if not (is_completed current.status) || not (current.fence == lease.fence)
    then err stale_lease
    else ok tt

-- The end of `publication`, at a later time.
abbrev pub recheck : Actor → String → Job → Bool → Store → Result JobError (Unit {0})
recheck a later lease completing s =
    if completing
    then (row (find_row (is_job a.workspace_id lease.job_id) s.jobs) >>= λ current.
        checked_completion current lease)
    else (assert_active a later lease s >>= λ _. ok tt)

-- `publication` around the writes of its block, which may raise; an error rolls them back.
unfoldable pub publication :
    Actor
    → String
    → String
    → Job
    → Bool
    → (Store → Result JobError Store)
    → Store
    → Result JobError Store
unfolding assert_active
publication a now later lease completing block s = assert_active a now lease s >>= λ _.
    block s >>= λ t. recheck a later lease completing t >>= λ _. ok t

-- ... AND status='leased' AND fence=?
abbrev pub holds_fence : String → String → ℕ → Job → Bool
holds_fence ws id fence j = is_job ws id j && (is_leased j.status && (j.fence == fence))

-- ... AND lease_expires_at>? AND cancellation_requested=0
abbrev pub is_active : String → String → ℕ → String → Job → Bool
is_active ws id fence now j =
    holds_fence ws id fence j && (later_than j.lease_expires_at now && not j.cancellation_requested)

module _ (w : World) where
  open w use {Float, redact_content, redaction_data, canonical, lease_until}

  -- The guarded UPDATE, StaleLease where it updates no row, and the event and the row behind it.
  abbrev pub update_lease :
      String → String → String → String → (Job → Bool) → (Job → Job) → Store → Answer
  update_lease ws id type now p f s =
      update_jobs w p f (λ t. answer w ws id (add_event w ws id type now t)) (err stale_lease) s

  abbrev pub cancelled_at : String → Job → Job
  cancelled_at now j = record j {
    status = cancelled;
    lease_worker_id = none;
    lease_expires_at = none;
    updated_at = now;
  }

  unfoldable pub acknowledge_cancel : Actor → String → String → ℕ → Store → Answer
  unfolding require_actor update_where find_row add_event
  acknowledge_cancel a now id fence s = require_actor a true none >>= λ _.
      update_lease a.workspace_id id "cancelled" now
        (λ j. holds_fence a.workspace_id id fence j && j.cancellation_requested) (cancelled_at now)
        s

  abbrev pub expires_at : String → String → Job → Job
  expires_at t now j = record j { lease_expires_at = some t; updated_at = now }

  unfoldable pub abandon : Actor → String → String → ℕ → Store → Answer
  unfolding require_actor update_where find_row
  abandon a now id fence s = require_actor a true none >>= λ _.
      update_jobs w (holds_fence a.workspace_id id fence) (expires_at now now)
        (answer w a.workspace_id id) (err stale_lease) s

  unfoldable pub heartbeat : Actor → String → String → ℕ → Store → Answer
  unfolding require_actor update_where find_row
  heartbeat a now id fence s = authorize a true >>= λ _.
      update_jobs w (is_active a.workspace_id id fence now) (expires_at (lease_until now) now)
        (answer w a.workspace_id id) (err stale_lease) s

  abbrev pub completed_with : Value Float → String → Job → Job
  completed_with result now j = record j {
    status = completed;
    result_json = some (canonical (redact_content result));
    result_redaction_json = some (canonical (redaction_data result));
    lease_worker_id = none;
    lease_expires_at = none;
    updated_at = now;
  }

  unfoldable pub complete : Actor → String → String → ℕ → Value Float → Store → Answer
  unfolding require_actor update_where find_row add_event
  complete a now id fence result s = authorize a true >>= λ _.
      update_lease a.workspace_id id "completed" now (is_active a.workspace_id id fence now)
        (completed_with result now) s

  -- isinstance(error, dict) and isinstance(error.get("code"), str)
  abbrev pub is_text : Option (Value Float) → Bool
  is_text (some (str _)) = true
  is_text _ = false

  abbrev pub is_typed_error : Value Float → Bool
  is_typed_error (dict es) = is_text (entry_get "code" es)
  is_typed_error _ = false

  abbrev pub failed_with : Value Float → String → Job → Job
  failed_with error now j = record j {
    status = failed;
    error_json = some (canonical (redact_content error));
    result_redaction_json = some (canonical (redaction_data error));
    lease_worker_id = none;
    lease_expires_at = none;
    updated_at = now;
  }

  unfoldable pub fail : Actor → String → String → ℕ → Value Float → Store → Answer
  unfolding require_actor update_where find_row add_event
  fail a now id fence error s = authorize a true >>= λ _.
      check (is_typed_error error) validation_error >>= λ _.
      update_lease a.workspace_id id "failed" now (is_active a.workspace_id id fence now)
        (failed_with error now) s

  abbrev pub cancelling : JobStatus → String → Job → Job
  cancelling queued now j = record j {
    cancellation_requested = true;
    status = cancelled;
    lease_worker_id = none;
    lease_expires_at = none;
    updated_at = now;
  }
  cancelling status now j = record j {
    cancellation_requested = true;
    status = status;
    updated_at = now;
  }

  abbrev pub cancel_event : JobStatus → String
  cancel_event queued = "cancelled"
  cancel_event _ = "cancellation_requested"

  abbrev pub cancel_row : String → String → String → Job → Store → Answer
  cancel_row ws id now r s =
      if is_terminal r.status
      then ok (s, some r)
      else answer w ws id (
          add_event w ws id (cancel_event r.status) now
            (set_jobs w (update_where (is_job ws id) (cancelling r.status now) s.jobs) s))

  unfoldable pub request_cancel : Actor → String → String → Store → Answer
  unfolding require_actor update_where find_row add_event
  request_cancel a now id s = authorize a true >>= λ _.
      row (find_row (is_job a.workspace_id id) s.jobs) >>= λ r. cancel_row a.workspace_id id now r s

  abbrev pub is_unpublished : Option String → Bool
  is_unpublished none = true
  is_unpublished (some _) = false

  abbrev pub published : String → OutboxEvent → OutboxEvent
  published now e = record e { published_at = some now }

  unfoldable pub acknowledge_outbox : Actor → String → String → Store → Answer
  unfolding require_actor update_where
  acknowledge_outbox a now event_id s = authorize a true >>= λ _. ok (
    record s {
      outbox =
          update_where
            (λ (e : OutboxEvent).
              str_eq e.workspace_id a.workspace_id
              && (str_eq e.event_id event_id && is_unpublished e.published_at))
            (published now) s.outbox;
    },
    none,
  )
