-- ===== src/Evaluators/Targets.antt =====
-- What a target observes in evaluators.py: `_select_target_events` and `_apply_occurrence`.
use traceline.Common.{
  ℕ, zero, suc, ◌-◌, String, Bool, true, false, ◌&&◌, List, [], ◌∷◌, Option, none, some, Result, ok,
  err, filter, length, str_eq, ltb, if◌then◌else◌,
}
use traceline.Common.Int.{ℤ, pos, negsuc}
use traceline.Values.{Value, missing, entry_get, Python}
use traceline.Events.{
  EventType, llm_response, tool_call, tool_result, retrieval as retrieval_event, type_value,
  TraceEvent,
}
use traceline.Predicate.Eval.{or_missing}
use traceline.Predicate.Compile.{Cel}
use traceline.TraceRules.Matching.{
  RuleError, rule_error, clock_error, python_error as rule_python_error, sort_events,
}
use traceline.Spec.Model.{
  TargetType, model_output, tool_invocation, tool_arguments, tool_output, retrieval, final_response,
  state_change, workflow_node, external, Target,
}
use traceline.Spec.Checks.{drop_prefix}
use traceline.Evaluators.Scores.{
  Raised, evaluation_error, unknown_occurrence, trace_rule_error, type_error, value_error,
  python_error,
}

-- The type of the events that a target observes, if it observes events.
unfoldable pub observed_type : TargetType → Option EventType
observed_type model_output = some llm_response
observed_type tool_invocation = some tool_call
observed_type tool_arguments = some tool_call
observed_type tool_output = some tool_result
observed_type retrieval = some retrieval_event
observed_type _ = none

-- _NON_EVENT_TARGETS
abbrev pub is_outside : TargetType → Bool
is_outside final_response = true
is_outside state_change = true
is_outside workflow_node = true
is_outside external = true
is_outside _ = false

abbrev pub from_rule : {A : Type 0} → Result RuleError A → Result Raised A
from_rule (ok a) = ok a
from_rule (err (rule_error r)) = err (trace_rule_error r)
from_rule (err clock_error) = err type_error
from_rule (err rule_python_error) = err python_error

abbrev pub tool_fits : Option String → Option String → Bool
tool_fits none tool = true
tool_fits (some t) none = false
tool_fits (some t) (some u) = str_eq u t

module _ (py : Python) (celpy : Cel py.Float) where
  open py use {Float, to_int}

  abbrev pub observes : EventType → Option String → TraceEvent Float → Bool
  unfolding type_value
  observes t tool e = str_eq (type_value e.type) (type_value t) && tool_fits tool e.tool

  abbrev pub select_typed :
      Option EventType
      → Option String
      → List (TraceEvent Float)
      → Result Raised (List (TraceEvent Float))
  unfolding sort_events type_value
  select_typed none tool events = ok []
  select_typed (some t) tool events =
      from_rule (sort_events py celpy (filter (observes t tool) events))

  unfoldable pub select_target_events :
      Target → List (TraceEvent Float) → Result Raised (List (TraceEvent Float))
  unfolding observed_type sort_events type_value
  select_target_events target events = select_typed (observed_type target.type) target.tool events

-- selected[n], in a list of its own
unfoldable pub event_at : {A : Type 0} → ℕ → List A → Option (List A)
event_at n [] = none
event_at zero (x ∷ xs) = some (x ∷ [])
event_at (suc n) (x ∷ xs) = event_at n xs

-- selected[-1], in a list of its own
unfoldable pub last_of : {A : Type 0} → List A → List A
last_of [] = []
last_of (x ∷ []) = x ∷ []
last_of (x ∷ (y ∷ ys)) = last_of (y ∷ ys)

abbrev pub first_only : {A : Type 0} → List A → List A
first_only [] = []
first_only (x ∷ _) = x ∷ []

-- selected[n], which counts from the end for a negative n
abbrev pub indexed : {A : Type 0} → Option ℤ → List A → Result Raised (Option (List A))
unfolding event_at
indexed none xs = err value_error
indexed (some (pos n)) xs = ok (event_at n xs)
indexed (some (negsuc n)) xs =
    if ltb n (length xs) then ok (event_at (length xs - suc n) xs) else err python_error

module _ (py : Python) where
  open py use {Float, to_int}

  abbrev pub index_occurrence :
      {A : Type 0} → Option String → List A → Result Raised (Option (List A))
  unfolding event_at
  index_occurrence none xs = err (evaluation_error unknown_occurrence)
  index_occurrence (some n) xs = indexed (to_int n) xs

  -- On events that are not none: the target matched some.
  unfoldable pub apply_occurrence :
      {A : Type 0} → Option String → List A → Result Raised (Option (List A))
  unfolding last_of drop_prefix event_at
  apply_occurrence none xs = ok (some (first_only xs))
  apply_occurrence (some o) xs =
      if str_eq o "first"
      then ok (some (first_only xs))
      else if str_eq o "last"
      then ok (some (last_of xs))
      else if str_eq o "all"
      then ok (some xs)
      else index_occurrence (drop_prefix "index:" o) xs

  -- payload.get(key, MISSING)
  unfoldable pub payload_ctx : TraceEvent Float → String → Value Float
  unfolding entry_get
  payload_ctx e key = elim e.payload [ none ↦ missing | some es ↦ or_missing py (entry_get key es) ]
