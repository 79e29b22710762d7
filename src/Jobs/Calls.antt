-- ===== src/Jobs/Calls.antt =====
-- The calls of the methods of JobQueue that change the database, and runs of them.
use traceline.Common.{ℕ, String, List, [], ◌∷◌, ok, err}
use traceline.Values.{Value}
use traceline.Jobs.Table.{Store}
use traceline.Jobs.Queue.{World, Actor, Answer, enqueue, claim, claim_specific}
use traceline.Jobs.Lease.{
  acknowledge_cancel, abandon, heartbeat, complete, fail, request_cancel, acknowledge_outbox,
}

-- A method with its arguments.
pub data Method (F : Type 0) : Type 0 where
  enqueue_of : Value F → String → ℕ → Method F
  claim_by : String → Method F
  claim_specific_by : String → String → Method F
  acknowledge_cancel_of : String → ℕ → Method F
  abandon_of : String → ℕ → Method F
  heartbeat_of : String → ℕ → Method F
  complete_of : String → ℕ → Value F → Method F
  fail_of : String → ℕ → Value F → Method F
  request_cancel_of : String → Method F
  acknowledge_outbox_of : String → Method F

-- Who calls what, and the clock's reading in it.
pub record Call (F : Type 0) : Type 0 where
  pub actor : Actor
  pub now : String
  pub method : Method F

module _ (w : World) where
  open w use {Float}

  unfoldable pub call_method : Actor → String → Method Float → Store → Answer
  call_method a now (enqueue_of command key max) s = enqueue w a now command key max s
  call_method a now (claim_by worker) s = claim w a now worker s
  call_method a now (claim_specific_by id worker) s = claim_specific w a now id worker s
  call_method a now (acknowledge_cancel_of id fence) s = acknowledge_cancel w a now id fence s
  call_method a now (abandon_of id fence) s = abandon w a now id fence s
  call_method a now (heartbeat_of id fence) s = heartbeat w a now id fence s
  call_method a now (complete_of id fence result) s = complete w a now id fence result s
  call_method a now (fail_of id fence error) s = fail w a now id fence error s
  call_method a now (request_cancel_of id) s = request_cancel w a now id s
  call_method a now (acknowledge_outbox_of event_id) s = acknowledge_outbox w a now event_id s

  -- The transaction: what an error leaves is the store as it was.
  abbrev pub committed : Store → Answer → Store
  committed s (ok (t, _)) = t
  committed s (err _) = s

  unfoldable pub run_call : Store → Call Float → Store
  unfolding call_method
  run_call s c = committed s (call_method c.actor c.now c.method s)

  unfoldable pub run_calls : Store → List (Call Float) → Store
  unfolding run_call
  run_calls s [] = s
  run_calls s (c ∷ cs) = run_calls (run_call s c) cs
