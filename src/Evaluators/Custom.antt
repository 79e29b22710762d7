-- ===== src/Evaluators/Custom.antt =====
-- `score_custom` of evaluators.py: the score of a reviewed evaluator artifact, whose sandboxed run is a
-- parameter. The serialisation of the evidence and of the case for it is left out.
pub mod Sound
use Prim.Native.String
use traceline.Common.{
  String, Bool, true, false, not, ◌&&◌, ◌||◌, List, [], Option, none, some, Result, ok, err, ◌>>=◌,
  check, all, elem_str, is_empty, if◌then◌else◌,
}
use traceline.Common.Int.{ℤ}
use traceline.Values.{Value, null, int, float, dict, entry_get, Python}
use traceline.Events.{TraceEvent}
use traceline.Predicate.Compile.{Cel}
use traceline.Spec.Model.{Metric, TestCase, EvaluationSpec}
use traceline.Evaluators.Numbers.{Arithmetic, Number, as_number, between, to_real}
use traceline.Evaluators.Scores.{
  CaseScore, error_status, Raised, evaluation_error, bad_custom_score, custom_range,
  bad_custom_refs, overflow_error, value_error, type_error, key_error, attribute_error,
  AttemptEvent,
}
use traceline.Evaluators.Targets.{is_outside, select_target_events}
use traceline.Evaluators.Raw.{
  Attempt, dedupe_ids, safe_value, case_score, judged, on_missing_result, normalize_number,
}
use traceline.Evaluators.Observed.{as_strings}
use traceline.Evaluators.ByType.{case_from_spec, ids_of_events, traced, is_input, is_whole_trace}
use traceline.Evaluators.Attempts.{slot, validate_events}

-- The artifact, on the selected events, the output and the case.
abbrev pub Artifact : Type 0 → Type 0
Artifact F = List (TraceEvent F) → Value F → TestCase F → Result Raised (Value F)

abbrev pub or_raised : {A : Type 0} → Raised → Option A → Result Raised A
or_raised e none = err e
or_raised e (some a) = ok a

module _ {F : Type 0} where
  abbrev pub is_null_value : Value F → Bool
  is_null_value null = true
  is_null_value _ = false

  abbrev pub with_version : String → CaseScore F → CaseScore F
  with_version v s = record {
    metric_id = s.metric_id;
    case_id = s.case_id;
    score = s.score;
    passed = s.passed;
    evidence_event_ids = s.evidence_event_ids;
    status = s.status;
    attempt = s.attempt;
    on_retry_override = s.on_retry_override;
    provisional = s.provisional;
    raw_value = s.raw_value;
    evaluator_version = some v;
  }

  -- result.get("score"), if the result is a dict and that a number
  abbrev pub custom_number : Value F → Option (Number F)
  unfolding entry_get
  custom_number (dict es) = elim (entry_get "score" es) [ none ↦ none | some v ↦ as_number v ]
  custom_number _ = none

  -- result.get("evidence_refs", [])
  abbrev pub custom_refs : Value F → Option (List String)
  unfolding entry_get
  custom_refs (dict es) = elim (entry_get "evidence_refs" es) [
    | none ↦ some []
    | some v ↦ as_strings v
  ]
  custom_refs _ = none

-- `except (EvaluationError, TypeError, ValueError, KeyError, AttributeError)`
abbrev pub is_custom_caught : Raised → Bool
is_custom_caught (evaluation_error p) = true
is_custom_caught type_error = true
is_custom_caught value_error = true
is_custom_caught key_error = true
is_custom_caught attribute_error = true
is_custom_caught _ = false

module _ (py : Python) (celpy : Cel py.Float) (ar : Arithmetic py.Float)
    (to_text : Value py.Float → String) where
  open py use {Float, float_lt, float_eq}

  -- The score of what the artifact returned, with the ids that it may refer to.
  unfoldable pub custom_score :
      Metric Float → Attempt → List String → Float → Value Float → Result Raised (CaseScore Float)
  unfolding normalize_number dedupe_ids safe_value
  custom_score m a ids threshold result =
      or_raised (evaluation_error bad_custom_score) (custom_number result) >>= λ n.
      or_raised overflow_error (to_real py ar n) >>= λ x.
      check (ar.is_finite x) (evaluation_error bad_custom_score) >>= λ _.
      or_raised (evaluation_error custom_range) m.scoring.range >>= λ (lo, hi).
      check (between py ar lo n hi) (evaluation_error custom_range) >>= λ _.
      or_raised (evaluation_error bad_custom_refs) (custom_refs result) >>= λ refs.
      check (all (λ ref. elem_str ref ids) refs) (evaluation_error bad_custom_refs) >>= λ _.
      normalize_number py ar to_text lo hi n >>= λ score. ok (
        judged m a score (float_lt threshold x || float_eq threshold x) (dedupe_ids refs)
          (elim n [ Number.whole k ↦ int k | Number.real y ↦ float y ]))

  abbrev pub or_custom_error :
      Metric Float → Attempt → Result Raised (CaseScore Float) → Result Raised (CaseScore Float)
  or_custom_error m a (ok s) = ok s
  or_custom_error m a (err e) =
      if is_custom_caught e then ok (case_score m a none false [] error_status null) else err e

  -- The events that the artifact sees.
  abbrev pub custom_events :
      Metric Float → List (TraceEvent Float) → Result Raised (List (TraceEvent Float))
  unfolding select_target_events
  custom_events m events =
      if is_whole_trace m.target.type || (is_input m.target.type || is_outside m.target.type)
      then ok events
      else select_target_events py celpy m.target events

  -- Nothing to score: no output of an outside target, or no event.
  abbrev pub custom_missing : Metric Float → List (TraceEvent Float) → Value Float → Bool
  custom_missing m selected output =
      is_outside m.target.type && is_null_value output
      || (is_empty selected && is_whole_trace m.target.type
          || is_empty selected && (not (is_input m.target.type) && is_null_value output))

  -- evidence_event_ids or the ids of the selected events
  abbrev pub custom_ids : List String → List (TraceEvent Float) → List String
  custom_ids [] selected = ids_of_events selected
  custom_ids given selected = given

  abbrev pub or_flag : Bool → Option Bool → Bool
  or_flag b none = b
  or_flag b (some c) = c

  abbrev pub custom_result :
      Artifact Float
      → TestCase Float
      → Metric Float
      → Attempt
      → List (TraceEvent Float)
      → List String
      → Float
      → Value Float
      → Result Raised (CaseScore Float)
  unfolding custom_score
  custom_result artifact c m a selected given threshold output =
      artifact selected output c >>= λ result.
      custom_score m a (custom_ids given selected) threshold result

  abbrev pub version_result :
      String → Result Raised (CaseScore Float) → Result Raised (CaseScore Float)
  version_result version r = r >>= λ s. ok (with_version version s)

  unfoldable pub score_custom :
      EvaluationSpec Float
      → String
      → List (AttemptEvent Float)
      → Metric Float
      → Artifact Float
      → (version : String) → (threshold : Float) → (given : List String) → (output : Value Float)
      → (attempt : ℤ) → (override : Bool) → (provisional : Option Bool)
      → Result Raised (CaseScore Float)
  unfolding case_from_spec on_missing_result custom_score select_target_events
  score_custom spec id events m artifact version threshold given output attempt override
        provisional =
      validate_events id events >>= λ _. case_from_spec spec.cases id >>= λ c.
      let a = slot id attempt override (or_flag m.provisional provisional) in
      custom_events m (traced events) >>= λ selected.
      if custom_missing m selected output
      then on_missing_result py ar to_text m a
      else version_result version
          (or_custom_error m a (custom_result artifact c m a selected given threshold output))
