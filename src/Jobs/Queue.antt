-- ===== src/Jobs/Queue.antt =====
-- The methods of JobQueue. Each is one transaction: an error leaves the store as it was. The texts
-- of a clock reading are arguments; redaction, canonical JSON, the keyed digest, the arithmetic on
-- dates and the random identifiers are parameters. Transactions run one after another: the row locks
-- that PostgreSQL takes for that are not modelled.
use traceline.Common.{
  ℕ, suc, String, Bool, true, false, ◌&&◌, ◌||◌, not, Option, none, some, List, [], ◌∷◌, ◌++◌,
  Result, ok, err, ◌>>=◌, check, leb, str_eq, any, filter, if◌then◌else◌,
}
use traceline.Values.{Value, str, dict, end, entry}
use traceline.Predicate.Tokens.{str_length}
use traceline.Jobs.Table.{
  JobStatus, queued, leased, failed, cancelled, status_text, is_queued, is_leased, Job, OutboxEvent,
  Store, is_job, at_most, update_where, find_row, oldest,
}

-- WorkflowError by its code, with the ValueErrors, the IntegrityError of the primary key, and
-- Python's TypeError.
pub data JobError : Type 0 where
  unauthorized forbidden validation_error idempotency_conflict not_found : JobError
  stale_lease job_cancelled value_error integrity_error type_error : JobError

pub record World : Type 1 where
  pub Float : Type 0
  -- redact(value).content, and `_redaction_data` of it
  pub redact_content : Value Float → Value Float
  pub redaction_data : Value Float → Value Float
  pub canonical : Value Float → String
  -- the digest of a text under the install's key
  pub hmac_digest : String → String
  -- a time and the lease's seconds after it
  pub lease_until : String → String
  -- the identifiers that are drawn, in their order
  pub fresh_id : ℕ → String

pub record Actor : Type 0 where
  pub actor_id : String
  pub workspace_id : String
  pub role : String

abbrev pub is_blank : String → Bool
is_blank s = str_eq s ""

abbrev pub is_editor : String → Bool
is_editor r = str_eq r "owner" || str_eq r "editor"

abbrev pub other_workspace : Actor → Option String → Bool
other_workspace a none = false
other_workspace a (some ws) = not (str_eq ws a.workspace_id)

-- Actor.require
unfoldable pub require_actor : Actor → Bool → Option String → Result JobError (Unit {0})
require_actor a write ws =
    if is_blank a.actor_id
      || (is_blank a.workspace_id || not (is_editor a.role || str_eq a.role "viewer"))
    then err unauthorized
    else if other_workspace a ws
    then err forbidden
    else if write && not (is_editor a.role)
    then err forbidden
    else ok tt

-- self.actor.require(write=..., workspace_id=self.workspace_id), where the property
-- `workspace_id` requires the actor too.
abbrev pub authorize : Actor → Bool → Result JobError (Unit {0})
authorize a write =
    require_actor a false (some a.workspace_id) >>= λ _. require_actor a write (some a.workspace_id)

-- Its effect, and the row that it returns.
abbrev pub Answer : Type 0
Answer = Result JobError (Store × Option Job)

-- `_row`, on what a SELECT found
abbrev pub row : Option Job → Result JobError Job
row none = err not_found
row (some j) = ok j

module _ (w : World) where
  open w use {Float, redact_content, redaction_data, canonical, hmac_digest, lease_until, fresh_id}

  abbrev pub event_payload : String → String → Value Float
  event_payload id type = dict (entry "job_id" (str id) (entry "event_type" (str type) end))

  -- The row that `_outbox` inserts.
  abbrev pub new_event : String → String → String → String → String → OutboxEvent
  new_event ws event_id id type now = record {
    workspace_id = ws;
    event_id = event_id;
    job_id = id;
    event_type = type;
    payload_json = canonical (event_payload id type);
    created_at = now;
    published_at = none;
  }

  -- _outbox, whose random event id is taken to be new in the outbox
  unfoldable pub add_event : String → String → String → String → Store → Store
  add_event ws id type now s = record s {
    outbox = s.outbox ++ (new_event ws (fresh_id s.drawn) id type now ∷ []);
    drawn = suc s.drawn;
  }

  abbrev pub set_jobs : List Job → Store → Store
  set_jobs js s = record s { jobs = js }

  -- isinstance(command, dict) and command
  abbrev pub is_command : Value Float → Bool
  is_command (dict (entry _ _ _)) = true
  is_command _ = false

  abbrev pub new_job : String → String → Value Float → String → ℕ → String → Job
  new_job ws id command key max now = record {
    workspace_id = ws;
    job_id = id;
    command_json = canonical (redact_content command);
    command_digest = hmac_digest (canonical command);
    idempotency_key = key;
    status = queued;
    attempts = 0;
    max_attempts = max;
    fence = 0;
    lease_worker_id = none;
    lease_expires_at = none;
    cancellation_requested = false;
    result_json = none;
    error_json = none;
    command_redaction_json = canonical (redaction_data command);
    result_redaction_json = none;
    created_at = now;
    updated_at = now;
  }

  abbrev pub has_key : String → String → Job → Bool
  has_key ws key j = str_eq j.workspace_id ws && str_eq j.idempotency_key key

  -- The INSERT, whose primary key must be new.
  abbrev pub insert_job : Job → Store → Answer
  insert_job j s =
      if any (is_job j.workspace_id j.job_id) s.jobs
      then err integrity_error
      else ok (
        add_event j.workspace_id j.job_id "queued" j.created_at
            (record s { jobs = s.jobs ++ (j ∷ []); drawn = suc s.drawn }),
        some j,
      )

  abbrev pub bound_or_insert : Option Job → Job → Store → Answer
  bound_or_insert (some bound) j s =
      if str_eq bound.command_digest j.command_digest
      then ok (s, some bound)
      else err idempotency_conflict
  bound_or_insert none j s = insert_job j s

  unfoldable pub enqueue : Actor → String → Value Float → String → ℕ → Store → Answer
  unfolding require_actor find_row
  enqueue a now command key max s = authorize a true >>= λ _.
      check (is_command command) validation_error >>= λ _.
      check (not (is_blank key) && leb (str_length key) 255) validation_error >>= λ _.
      check (leb 1 max && leb max 20) validation_error >>= λ _.
      bound_or_insert (find_row (has_key a.workspace_id key) s.jobs)
        (new_job a.workspace_id (fresh_id s.drawn) command key max now) s

  -- The SELECT of the job behind each method.
  abbrev pub answer : String → String → Store → Answer
  answer ws id s = row (find_row (is_job ws id) s.jobs) >>= λ j. ok (s, some j)

  unfoldable pub get : Actor → String → Store → Answer
  unfolding require_actor find_row
  get a id s = require_actor a false (some a.workspace_id) >>= λ _. answer a.workspace_id id s

  -- status='leased' AND lease_expires_at<=?
  abbrev pub is_expired : String → String → Job → Bool
  is_expired ws now j =
      str_eq j.workspace_id ws && (is_leased j.status && at_most j.lease_expires_at now)

  abbrev pub next_status : Job → JobStatus
  next_status j =
      if j.cancellation_requested
      then cancelled
      else if leb j.max_attempts j.attempts
      then failed
      else queued

  abbrev pub retry_exhausted : JobStatus → Option String
  retry_exhausted failed = some (canonical (dict (entry "code" (str "retry_exhausted") end)))
  retry_exhausted _ = none

  abbrev pub expired : JobStatus → String → Job → Job
  expired status now j = record j {
    status = status;
    lease_worker_id = none;
    lease_expires_at = none;
    error_json = retry_exhausted status;
    updated_at = now;
  }

  abbrev pub expire_row : String → String → Job → Store → Store
  expire_row ws now r s = add_event ws r.job_id (status_text (next_status r)) now (
      set_jobs
        (update_where (λ j. is_job ws r.job_id j && is_leased j.status)
          (expired (next_status r) now) s.jobs)
        s)

  -- The loop of `_expire_and_cancel`, on the rows that were selected.
  unfoldable pub expire_rows : String → String → List Job → Store → Store
  unfolding add_event update_where
  expire_rows ws now [] s = s
  expire_rows ws now (r ∷ rs) s = expire_rows ws now rs (expire_row ws now r s)

  unfoldable pub expire_and_cancel : String → String → Store → Store
  unfolding expire_rows
  expire_and_cancel ws now s = expire_rows ws now (filter (is_expired ws now) s.jobs) s

  -- status='queued' AND cancellation_requested=0
  abbrev pub is_claimable : Job → Bool
  is_claimable j = is_queued j.status && not j.cancellation_requested

  abbrev pub lease_to : String → String → Job → Job
  lease_to worker now j = record j {
    status = leased;
    attempts = suc j.attempts;
    fence = suc j.fence;
    lease_worker_id = some worker;
    lease_expires_at = some (lease_until now);
    updated_at = now;
  }

  -- An UPDATE of the rows with `p`, and how it goes on where one was updated, and where none was.
  abbrev pub update_jobs : (Job → Bool) → (Job → Job) → (Store → Answer) → Answer → Store → Answer
  update_jobs p f next otherwise s =
      if any p s.jobs then next (set_jobs (update_where p f s.jobs) s) else otherwise

  -- The end of both claims: the guarded UPDATE, the event, the row.
  abbrev pub lease_job : String → String → String → String → Store → Answer
  lease_job ws id worker now s =
      update_jobs (λ j. is_job ws id j && is_claimable j) (lease_to worker now)
        (λ t. answer ws id (add_event ws id "leased" now t)) (ok (s, none)) s

  abbrev pub lease_oldest : Option Job → String → String → String → Store → Answer
  lease_oldest none ws worker now s = ok (s, none)
  lease_oldest (some j) ws worker now s = lease_job ws j.job_id worker now s

  unfoldable pub claim : Actor → String → String → Store → Answer
  unfolding require_actor expire_and_cancel oldest update_where find_row add_event
  claim a now worker s = check (not (is_blank worker)) value_error >>= λ _.
      authorize a true >>= λ _.
      let s1 = expire_and_cancel a.workspace_id now s in
      lease_oldest (oldest (λ j. str_eq j.workspace_id a.workspace_id && is_claimable j) s1.jobs)
        a.workspace_id worker now s1

  unfoldable pub claim_specific : Actor → String → String → String → Store → Answer
  unfolding require_actor expire_and_cancel update_where find_row add_event
  claim_specific a now id worker s = check (not (is_blank id)) value_error >>= λ _.
      check (not (is_blank worker)) value_error >>= λ _. authorize a true >>= λ _.
      lease_job a.workspace_id id worker now (expire_and_cancel a.workspace_id now s)
