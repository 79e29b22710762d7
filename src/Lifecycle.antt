-- ===== src/Lifecycle.antt =====
-- lifecycle.py (src/llm_agent_eval/lifecycle.py): the statuses of runs, cases, attempts and of the
-- smoke gate, the tables of legal transitions, and `transition`. Each status is a `str` in Python, so
-- that `transition` takes every argument as its text.
pub mod Transition
pub mod Statuses
mod Tests
use Prim.Native.String.{String}
use traceline.Common.{
  Bool, true, false, List, [], ◌∷◌, Result, ok, err, ◌>>=◌, str_eq, any, is_empty, if◌then◌else◌,
}

pub data RunStatus : Type 0 where
  draft queued provisioning running aggregating complete : RunStatus
  failed cancelled incomplete : RunStatus

-- RunStatus.value
unfoldable pub run_value : RunStatus → String
run_value RunStatus.draft = "draft"
run_value RunStatus.queued = "queued"
run_value RunStatus.provisioning = "provisioning"
run_value RunStatus.running = "running"
run_value RunStatus.aggregating = "aggregating"
run_value RunStatus.complete = "complete"
run_value RunStatus.failed = "failed"
run_value RunStatus.cancelled = "cancelled"
run_value RunStatus.incomplete = "incomplete"

-- The rows of RUN_TRANSITIONS.
unfoldable pub run_allowed : RunStatus → List RunStatus
run_allowed RunStatus.draft = RunStatus.queued ∷ RunStatus.cancelled ∷ []
run_allowed RunStatus.queued = RunStatus.provisioning ∷ RunStatus.cancelled ∷ []
run_allowed RunStatus.provisioning = RunStatus.running ∷ RunStatus.failed ∷ RunStatus.cancelled ∷ []
run_allowed RunStatus.running =
    RunStatus.aggregating ∷ RunStatus.failed ∷ RunStatus.cancelled ∷ RunStatus.incomplete ∷ []
run_allowed RunStatus.aggregating =
    RunStatus.complete ∷ RunStatus.failed ∷ RunStatus.incomplete ∷ []
run_allowed RunStatus.complete = []
run_allowed RunStatus.failed = []
run_allowed RunStatus.cancelled = RunStatus.queued ∷ []
run_allowed RunStatus.incomplete = RunStatus.queued ∷ RunStatus.cancelled ∷ []

abbrev pub run_members : List RunStatus
run_members =
    RunStatus.draft ∷ RunStatus.queued ∷ RunStatus.provisioning ∷ RunStatus.running
    ∷ RunStatus.aggregating ∷ RunStatus.complete ∷ RunStatus.failed ∷ RunStatus.cancelled
    ∷ RunStatus.incomplete ∷ []

pub data RunCaseStatus : Type 0 where
  queued running completed failed cancelled skipped : RunCaseStatus

-- RunCaseStatus.value
unfoldable pub run_case_value : RunCaseStatus → String
run_case_value RunCaseStatus.queued = "queued"
run_case_value RunCaseStatus.running = "running"
run_case_value RunCaseStatus.completed = "completed"
run_case_value RunCaseStatus.failed = "failed"
run_case_value RunCaseStatus.cancelled = "cancelled"
run_case_value RunCaseStatus.skipped = "skipped"

-- The rows of RUN_CASE_TRANSITIONS.
unfoldable pub run_case_allowed : RunCaseStatus → List RunCaseStatus
run_case_allowed RunCaseStatus.queued =
    RunCaseStatus.running ∷ RunCaseStatus.cancelled ∷ RunCaseStatus.skipped ∷ []
run_case_allowed RunCaseStatus.running =
    RunCaseStatus.completed ∷ RunCaseStatus.failed ∷ RunCaseStatus.cancelled ∷ []
run_case_allowed RunCaseStatus.completed = []
run_case_allowed RunCaseStatus.failed = RunCaseStatus.queued ∷ []
run_case_allowed RunCaseStatus.cancelled = RunCaseStatus.queued ∷ []
run_case_allowed RunCaseStatus.skipped = []

abbrev pub run_case_members : List RunCaseStatus
run_case_members =
    RunCaseStatus.queued ∷ RunCaseStatus.running ∷ RunCaseStatus.completed ∷ RunCaseStatus.failed
    ∷ RunCaseStatus.cancelled ∷ RunCaseStatus.skipped ∷ []

pub data AttemptStatus : Type 0 where
  queued running completed timed_out budget_exceeded cancelled : AttemptStatus
  orphaned errored : AttemptStatus

-- AttemptStatus.value
unfoldable pub attempt_value : AttemptStatus → String
attempt_value AttemptStatus.queued = "queued"
attempt_value AttemptStatus.running = "running"
attempt_value AttemptStatus.completed = "completed"
attempt_value AttemptStatus.timed_out = "timed_out"
attempt_value AttemptStatus.budget_exceeded = "budget_exceeded"
attempt_value AttemptStatus.cancelled = "cancelled"
attempt_value AttemptStatus.orphaned = "orphaned"
attempt_value AttemptStatus.errored = "errored"

-- The rows of ATTEMPT_TRANSITIONS.
unfoldable pub attempt_allowed : AttemptStatus → List AttemptStatus
attempt_allowed AttemptStatus.queued =
    AttemptStatus.running ∷ AttemptStatus.cancelled ∷ AttemptStatus.orphaned ∷ []
attempt_allowed AttemptStatus.running =
    AttemptStatus.completed ∷ AttemptStatus.timed_out ∷ AttemptStatus.budget_exceeded
    ∷ AttemptStatus.cancelled ∷ AttemptStatus.orphaned ∷ AttemptStatus.errored ∷ []
attempt_allowed AttemptStatus.completed = []
attempt_allowed AttemptStatus.timed_out = []
attempt_allowed AttemptStatus.budget_exceeded = []
attempt_allowed AttemptStatus.cancelled = []
attempt_allowed AttemptStatus.orphaned = []
attempt_allowed AttemptStatus.errored = []

abbrev pub attempt_members : List AttemptStatus
attempt_members =
    AttemptStatus.queued ∷ AttemptStatus.running ∷ AttemptStatus.completed ∷ AttemptStatus.timed_out
    ∷ AttemptStatus.budget_exceeded ∷ AttemptStatus.cancelled ∷ AttemptStatus.orphaned
    ∷ AttemptStatus.errored ∷ []

pub data SmokeState : Type 0 where
  ingested analyzed runtime_prepared smoke_passed evaluable entrypoint_missing : SmokeState
  install_failed invocation_failed provider_unreachable no_trace timeout : SmokeState

-- SmokeState.value
unfoldable pub smoke_value : SmokeState → String
smoke_value SmokeState.ingested = "INGESTED"
smoke_value SmokeState.analyzed = "ANALYZED"
smoke_value SmokeState.runtime_prepared = "RUNTIME_PREPARED"
smoke_value SmokeState.smoke_passed = "SMOKE_PASSED"
smoke_value SmokeState.evaluable = "EVALUABLE"
smoke_value SmokeState.entrypoint_missing = "entrypoint_missing"
smoke_value SmokeState.install_failed = "install_failed"
smoke_value SmokeState.invocation_failed = "invocation_failed"
smoke_value SmokeState.provider_unreachable = "provider_unreachable"
smoke_value SmokeState.no_trace = "no_trace"
smoke_value SmokeState.timeout = "timeout"

-- SMOKE_FAILURE_STATES
abbrev pub smoke_failure_states : List SmokeState
smoke_failure_states =
    SmokeState.entrypoint_missing ∷ SmokeState.install_failed ∷ SmokeState.invocation_failed
    ∷ SmokeState.provider_unreachable ∷ SmokeState.no_trace ∷ SmokeState.timeout ∷ []

-- The rows of SMOKE_TRANSITIONS.
unfoldable pub smoke_allowed : SmokeState → List SmokeState
smoke_allowed SmokeState.ingested = SmokeState.analyzed ∷ []
smoke_allowed SmokeState.analyzed = SmokeState.runtime_prepared ∷ smoke_failure_states
smoke_allowed SmokeState.runtime_prepared = SmokeState.smoke_passed ∷ smoke_failure_states
smoke_allowed SmokeState.smoke_passed = SmokeState.evaluable ∷ []
smoke_allowed SmokeState.evaluable = []
smoke_allowed SmokeState.entrypoint_missing =
    SmokeState.runtime_prepared ∷ SmokeState.smoke_passed ∷ smoke_failure_states
smoke_allowed SmokeState.install_failed =
    SmokeState.runtime_prepared ∷ SmokeState.smoke_passed ∷ smoke_failure_states
smoke_allowed SmokeState.invocation_failed =
    SmokeState.runtime_prepared ∷ SmokeState.smoke_passed ∷ smoke_failure_states
smoke_allowed SmokeState.provider_unreachable =
    SmokeState.runtime_prepared ∷ SmokeState.smoke_passed ∷ smoke_failure_states
smoke_allowed SmokeState.no_trace =
    SmokeState.runtime_prepared ∷ SmokeState.smoke_passed ∷ smoke_failure_states
smoke_allowed SmokeState.timeout =
    SmokeState.runtime_prepared ∷ SmokeState.smoke_passed ∷ smoke_failure_states

abbrev pub smoke_members : List SmokeState
smoke_members =
    SmokeState.ingested ∷ SmokeState.analyzed ∷ SmokeState.runtime_prepared
    ∷ SmokeState.smoke_passed ∷ SmokeState.evaluable ∷ SmokeState.entrypoint_missing
    ∷ SmokeState.install_failed ∷ SmokeState.invocation_failed ∷ SmokeState.provider_unreachable
    ∷ SmokeState.no_trace ∷ SmokeState.timeout ∷ []

pub data LifecycleError : Type 0 where
  illegal_transition type_error : LifecycleError

-- A table: its members in their order, their texts, and the members that each may turn into.
pub record Table (S : Type 0) : Type 0 where
  pub members : List S
  pub value : S → String
  pub allowed : S → List S

abbrev pub run_transitions : Table RunStatus
run_transitions = record { members = run_members; value = run_value; allowed = run_allowed }

abbrev pub run_case_transitions : Table RunCaseStatus
run_case_transitions = record {
  members = run_case_members;
  value = run_case_value;
  allowed = run_case_allowed;
}

abbrev pub attempt_transitions : Table AttemptStatus
attempt_transitions = record {
  members = attempt_members;
  value = attempt_value;
  allowed = attempt_allowed;
}

abbrev pub smoke_transitions : Table SmokeState
smoke_transitions = record { members = smoke_members; value = smoke_value; allowed = smoke_allowed }

module _ {S : Type 0} where
  -- The loop of `_coerce`.
  unfoldable pub coerce_in : (S → String) → String → List S → Result LifecycleError S
  coerce_in value s [] = err illegal_transition
  coerce_in value s (m ∷ ms) =
      let rest = coerce_in value s ms in if str_eq (value m) s then ok m else rest

  unfoldable pub coerce_status : Table S → String → Result LifecycleError S
  unfolding coerce_in
  coerce_status t s = coerce_in t.value s t.members

  -- Behind the two coercions.
  unfoldable pub step : Table S → S → S → Result LifecycleError S
  step t current target =
      if str_eq (t.value current) (t.value target)
      then ok target
      else if any (λ m. str_eq (t.value m) (t.value target)) (t.allowed current)
      then ok target
      else err illegal_transition

  unfoldable pub transition : Table S → String → String → Result LifecycleError S
  transition t current target =
      if is_empty t.members
      then err type_error
      else (coerce_status t current >>= λ c. coerce_status t target >>= λ d. step t c d)

unfoldable pub is_run_terminal : RunStatus → Bool
is_run_terminal RunStatus.complete = true
is_run_terminal RunStatus.failed = true
is_run_terminal RunStatus.cancelled = true
is_run_terminal _ = false

unfoldable pub is_attempt_terminal : AttemptStatus → Bool
is_attempt_terminal AttemptStatus.queued = false
is_attempt_terminal AttemptStatus.running = false
is_attempt_terminal _ = true

unfoldable pub is_smoke_failure : SmokeState → Bool
unfolding smoke_value
is_smoke_failure s = any (λ m. str_eq (smoke_value m) (smoke_value s)) smoke_failure_states
