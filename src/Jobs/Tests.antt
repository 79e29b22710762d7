-- ===== src/Jobs/Tests.antt =====
-- A queue with one worker, and runs of jobs.py on it.
use traceline.Common.{
  Result, ◌↔◌, ◌≡◌, refl, String, true, false, none, some, List, [], ◌∷◌, ◌++◌, ok, err, map, ◌==◌,
  arith, if◌then◌else◌, str_lt,
}
use traceline.Values.{Value, str, dict, entry, end, entry_get}
use traceline.Jobs.Table.{leased, completed, Job, OutboxEvent, Store, is_job, find_row}
use traceline.Jobs.Queue.{
  stale_lease, JobError, World, Actor, require_actor, enqueue, add_event, claim,
}
use traceline.Jobs.Lease.{
  assert_active, publication, complete, fail, heartbeat, abandon, acknowledge_cancel,
}
use traceline.Jobs.Calls.{
  Call, Method, enqueue_of, claim_by, complete_of, request_cancel_of, run_call, run_calls,
}
use traceline.Jobs.Moves.{Moves}
use traceline.Jobs.Refines.{run_call-Moves}
use traceline.Jobs.Evolution.{Later, IsValidStore, run_calls-IsValid}
use traceline.Jobs.Fencing.{IsStale, run_calls-Later, superseded_lease}
use traceline.Jobs.Publication.{IsLive, assert_active_iff, publication-IsLive}
use traceline.Jobs.Outcomes.{IsCompletion, enqueue-idempotent, active_lease-complete}

-- No redaction, one text for all JSON, leases until "5", and two identifiers.
abbrev plain : World
plain = record {
  Float = Unit {0};
  redact_content = λ v. v;
  redaction_data = λ v. v;
  canonical = λ v. "{}";
  hmac_digest = λ s. s;
  lease_until = λ s. "5";
  fresh_id = λ n. if n == 0 then "job" else "event";
}

abbrev owner : Actor
owner = record { actor_id = "alice"; workspace_id = "ws"; role = "owner" }

-- {"kind": "run"}
abbrev run_command : Value (Unit {0})
run_command = dict (entry "kind" (str "run") end)

-- {"code": "x"}
abbrev typed_error : Value (Unit {0})
typed_error = dict (entry "code" (str "x") end)

abbrev empty_store : Store
empty_store = record { jobs = []; outbox = []; drawn = 0 }

-- A job in its second lease, until "5".
abbrev leased_job : Job
leased_job = record {
  workspace_id = "ws";
  job_id = "job";
  command_json = "{}";
  command_digest = "{}";
  idempotency_key = "key";
  status = leased;
  attempts = 2;
  max_attempts = 3;
  fence = 2;
  lease_worker_id = some "worker";
  lease_expires_at = some "5";
  cancellation_requested = false;
  result_json = none;
  error_json = none;
  command_redaction_json = "{}";
  result_redaction_json = none;
  created_at = "1";
  updated_at = "3";
}

abbrev leased_store : Store
leased_store = record { jobs = leased_job ∷ []; outbox = []; drawn = 4 }

abbrev at_time : String → Method (Unit {0}) → Call (Unit {0})
at_time now m = record { actor = owner; now = now; method = m }

abbrev session : List (Call (Unit {0}))
session =
    at_time "1" (enqueue_of run_command "key" 3)
    ∷ at_time "2" (claim_by "worker")
    ∷ at_time "3" (complete_of "job" 1 run_command)
    ∷ []

statuses_of_session :
    map (λ (j : Job). j.status) (run_calls plain empty_store session).jobs ≡ completed ∷ []
unfolding run_calls enqueue claim complete str_lt
statuses_of_session = refl

events_of_session :
    map (λ (e : OutboxEvent). e.event_type) (run_calls plain empty_store session).outbox
    ≡ "queued" ∷ "leased" ∷ "completed" ∷ []
unfolding run_calls enqueue claim complete str_lt
events_of_session = refl

run_call-Moves_example :
    Moves plain [] (run_call plain empty_store (at_time "1" (enqueue_of run_command "key" 3))).jobs
run_call-Moves_example =
    run_call-Moves plain empty_store (at_time "1" (enqueue_of run_command "key" 3)) tt

run_calls-IsValid_example : IsValidStore (run_calls plain empty_store session)
run_calls-IsValid_example = run_calls-IsValid plain empty_store session (tt, tt)

run_calls-Later_example :
    (k : Job) × (find_row
        (is_job "ws" "job")
        (run_calls plain leased_store (at_time "4" (request_cancel_of "job") ∷ [])).jobs
      ≡ some k)
    × Later leased_job k
unfolding find_row
run_calls-Later_example =
    run_calls-Later plain leased_store (at_time "4" (request_cancel_of "job") ∷ []) "ws" "job"
      {j = leased_job} (tt, tt) refl

abbrev later_calls : List (Call (Unit {0}))
later_calls = at_time "6" (claim_by "another") ∷ []

superseded_lease_example :
    IsStale
      (complete plain owner "4" "job" 1 typed_error (run_calls plain leased_store later_calls))
    × IsStale (fail plain owner "4" "job" 1 typed_error (run_calls plain leased_store later_calls))
    × IsStale (heartbeat plain owner "4" "job" 1 (run_calls plain leased_store later_calls))
    × IsStale
        (acknowledge_cancel plain owner "4" "job" 1 (run_calls plain leased_store later_calls))
    × IsStale (abandon plain owner "4" "job" 1 (run_calls plain leased_store later_calls))
unfolding find_row require_actor entry_get
superseded_lease_example =
    superseded_lease plain leased_store later_calls owner "4" "job" 1 typed_error {j = leased_job}
      (tt, tt) refl (omega arith) refl refl

abbrev after_enqueue : Store
after_enqueue = run_call plain empty_store (at_time "1" (enqueue_of run_command "key" 3))

enqueue-idempotent_example :
    enqueue plain owner "2" run_command "key" 3 after_enqueue
    ≡ ok (after_enqueue, find_row (is_job "ws" "job") after_enqueue.jobs)
unfolding run_call enqueue add_event
enqueue-idempotent_example =
    enqueue-idempotent plain owner "1" "2" run_command "key" 3 empty_store after_enqueue
      {out = find_row (is_job "ws" "job") after_enqueue.jobs} refl

active_lease-complete_example :
    (t : Store) × (r : Job) × (event : OutboxEvent) × (complete plain owner "4" "job" 2 run_command
        leased_store
      ≡ ok (t, some r))
    × (find_row (is_job "ws" "job") t.jobs ≡ some r)
    × IsCompletion plain run_command "4" leased_job r
    × (t.outbox ≡ [] ++ (event ∷ []))
    × ((event.job_id ≡ "job") × (event.event_type ≡ "completed") × (event.published_at ≡ none))
    × (assert_active owner "9" leased_job t ≡ err stale_lease)
    × (publication owner "4" "9" leased_job true (λ u. ok t) leased_store ≡ ok t)
unfolding find_row require_actor str_lt
active_lease-complete_example =
    active_lease-complete plain owner "4" "9" "job" 2 run_command leased_store {j = leased_job} refl
      refl refl refl refl refl

assert_active_iff_example : (assert_active owner "4" leased_job leased_store ≡ ok leased_job) ↔ (
    (find_row (is_job "ws" "job") leased_store.jobs ≡ some leased_job)
    × IsLive leased_job "4" leased_job)
unfolding require_actor
assert_active_iff_example = assert_active_iff owner "4" leased_job leased_job leased_store refl

-- A block that writes an event.
abbrev report : Store → Result JobError Store
report s = ok (add_event plain "ws" "job" "progress" "4" s)

abbrev reported : Store
reported = add_event plain "ws" "job" "progress" "4" leased_store

publication-IsLive_example :
    (report leased_store ≡ ok reported)
    × ((c : Job) × (find_row (is_job "ws" "job") leased_store.jobs ≡ some c)
        × IsLive leased_job "3" c)
    × ((c : Job) × (find_row (is_job "ws" "job") reported.jobs ≡ some c) × IsLive leased_job "4" c)
unfolding require_actor publication add_event str_lt
publication-IsLive_example =
    publication-IsLive owner "3" "4" leased_job report leased_store reported refl refl
