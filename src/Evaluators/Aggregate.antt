-- ===== src/Evaluators/Aggregate.antt =====
-- The run-level rollup of evaluators.py: aggregate_metric, evaluate_gate and gate_safe. `sorted` is a
-- stable sort by insertion, which agrees with Python's on floats without a NaN.
pub mod Counts
pub mod Gates
pub mod Readiness
use traceline.Common.{
  ℕ, zero, suc, ◌-◌, String, Bool, true, false, not, ◌&&◌, Option, none, some, List, [], ◌∷◌,
  Result, ok, ◌>>=◌, check, all, filter, length, map, str_eq, ltb, if◌then◌else◌,
}
use traceline.Common.Int.{ℤ, pos, pos_part, ltb_ℤ}
use traceline.Values.{Python}
use traceline.Spec.Model.{
  EvaluationSpec, Metric, MetricType, judge, Method, pass_rate, mean, p50, p95, min, sum, OnError,
  count_failed, exclude, Gate, JudgeBinding,
}
use traceline.Judge.Readiness.{ReadinessState, calibrated}
use traceline.Judge.Registry.{Thresholds, Registry, get}
use traceline.Evaluators.Numbers.{Arithmetic}
use traceline.Evaluators.Scores.{
  CaseStatus, pass_status, fail_status, error_status, skipped_status, AggregationState,
  in_progress_state, partial_state, complete_state, CaseScore, RunAggregate, GateResult, Raised,
  value_error,
}

abbrev pub is_passed : CaseStatus → Bool
is_passed pass_status = true
is_passed _ = false

abbrev pub is_skipped : CaseStatus → Bool
is_skipped skipped_status = true
is_skipped _ = false

abbrev pub is_error : CaseStatus → Bool
is_error error_status = true
is_error _ = false

-- Whether a case of this status is in the denominator.
unfoldable pub counted : OnError → CaseStatus → Bool
counted _ pass_status = true
counted _ fail_status = true
counted exclude error_status = false
counted count_failed error_status = true
counted _ skipped_status = false

abbrev pub or_default : {A : Type 0} → A → Option A → A
or_default d none = d
or_default d (some a) = a

module _ {F : Type 0} where
  abbrev pub retained : List (CaseScore F) → List (CaseScore F)
  retained scores = filter (λ (s : CaseScore F). not s.on_retry_override) scores

  abbrev pub count_status : (CaseStatus → Bool) → List (CaseScore F) → ℕ
  count_status test scores = length (filter (λ (s : CaseScore F). test s.status) scores)

  abbrev pub denominator : OnError → List (CaseScore F) → List (CaseScore F)
  denominator on_error scores = filter (λ (s : CaseScore F). counted on_error s.status) scores

  unfoldable pub nth : ℕ → List F → Option F
  nth n [] = none
  nth zero (x ∷ xs) = some x
  nth (suc n) (x ∷ xs) = nth n xs

-- max(0, min(c - 1, n - 1))
abbrev pub clamp_rank : ℤ → ℕ → ℕ
clamp_rank c n = let k = pos_part c - 1 in if ltb k (n - 1) then k else n - 1

unfoldable pub state_of : Bool → ℕ → ℤ → AggregationState
state_of true n expected = in_progress_state
state_of false n expected = if ltb_ℤ (pos n) expected then partial_state else complete_state

module _ (py : Python) (ar : Arithmetic py.Float) where
  open py use {Float, float_lt}
  open ar use {zero_float, half, most, ratio, div_count, ceil_times}

  unfoldable pub insert_float : Float → List Float → List Float
  insert_float x [] = x ∷ []
  insert_float x (y ∷ ys) =
      let rest = insert_float x ys in if float_lt x y then x ∷ (y ∷ ys) else y ∷ rest

  unfoldable pub sort_floats : List Float → List Float → List Float
  unfolding insert_float
  sort_floats out [] = out
  sort_floats out (x ∷ xs) = sort_floats (insert_float x out) xs

  unfoldable pub percentile : List Float → Float → Option Float
  unfolding sort_floats nth
  percentile values p =
      let ordered = sort_floats [] values in
      nth (clamp_rank (ceil_times p (length ordered)) (length ordered)) ordered

  -- min(values): the first of the smallest
  unfoldable pub min_from : Float → List Float → Float
  min_from x [] = x
  min_from x (y ∷ ys) = min_from (if float_lt y x then y else x) ys

  abbrev pub min_value : List Float → Option Float
  min_value [] = none
  min_value (x ∷ xs) = some (min_from x xs)

  abbrev pub mean_of : List Float → Float
  mean_of values = div_count (ar.sum values) (length values)

  unfoldable pub method_value : Method → Float → List Float → Option Float
  unfolding percentile min_from
  method_value pass_rate rate values = some rate
  method_value mean rate values = some (mean_of values)
  method_value p50 rate values = percentile values half
  method_value p95 rate values = percentile values most
  method_value min rate values = min_value values
  method_value sum rate values = some (ar.sum values)

  -- The aggregate of what is retained, by its denominator.
  unfoldable pub rollup :
      Metric Float
      → AggregationState
      → List (CaseScore Float)
      → List (CaseScore Float)
      → RunAggregate Float
  unfolding method_value
  rollup m state kept [] = record {
    metric_id = m.metric_id;
    value = none;
    pass_rate = none;
    mean = none;
    n_cases = length kept;
    n_denominator = 0;
    error_n = count_status is_error kept;
    skipped_n = count_status is_skipped kept;
    aggregation_state = state;
  }
  rollup m state kept (first ∷ rest) =
      let scores = first ∷ rest in
      let rate = ratio (count_status is_passed scores) (length scores) in
      let values = map (λ (s : CaseScore Float). or_default zero_float s.score) scores in
      record {
        metric_id = m.metric_id;
        value = method_value m.aggregation.method rate values;
        pass_rate = some rate;
        mean = some (mean_of values);
        n_cases = length kept;
        n_denominator = length scores;
        error_n = count_status is_error kept;
        skipped_n = count_status is_skipped kept;
        aggregation_state = state;
      }

  unfoldable pub aggregate_metric :
      EvaluationSpec Float
      → Metric Float
      → List (CaseScore Float)
      → Option ℤ
      → Bool
      → Result Raised (RunAggregate Float)
  unfolding rollup state_of counted
  aggregate_metric spec m scores expected_n in_progress =
      check (all (λ (s : CaseScore Float). str_eq s.metric_id m.metric_id) scores) value_error
      >>= λ _.
          let kept = retained scores in
          let expected = or_default (pos (length spec.cases)) expected_n in
          ok (
            rollup m (state_of in_progress (length kept) expected) kept
              (denominator m.aggregation.on_error kept))

  abbrev pub below_min : Float → Option Float → Bool
  below_min v none = false
  below_min v (some bound) = float_lt v bound

  abbrev pub above_max : Float → Option Float → Bool
  above_max v none = false
  above_max v (some bound) = float_lt bound v

  abbrev pub gate_result : String → Option Float → Bool → Bool → GateResult Float
  gate_result id v passed active = record {
    metric_id = id;
    value = v;
    passed = passed;
    active = active;
  }

  unfoldable pub gate_on : String → Option (Gate Float) → Option Float → GateResult Float
  gate_on id none v = gate_result id v true false
  gate_on id (some g) none = gate_result id none false true
  gate_on id (some g) (some v) =
      gate_result id (some v) (not (below_min v g.min) && not (above_max v g.max)) true

  unfoldable pub evaluate_gate : Metric Float → RunAggregate Float → GateResult Float
  unfolding gate_on
  evaluate_gate m a = gate_on m.metric_id m.gate a.value

module _ (py : Python) (defaults : Thresholds py.Float) where
  open py use {Float}

  abbrev pub is_calibrated : ReadinessState → Bool
  is_calibrated calibrated = true
  is_calibrated _ = false

  -- The registry, if there is one: `get` stores a new binding in it.
  abbrev pub MaybeRegistry : Type 0
  MaybeRegistry = Option (Registry Float)

  unfoldable pub binding_ready : Option JudgeBinding → MaybeRegistry → Bool × MaybeRegistry
  unfolding get
  binding_ready b none = (false, none)
  binding_ready none reg = (false, reg)
  binding_ready (some b) (some reg) =
      let (r, reg') = get py defaults b reg in (is_calibrated r.state, some reg')

  abbrev pub ready_for : MetricType → Option JudgeBinding → MaybeRegistry → Bool × MaybeRegistry
  ready_for judge b reg = binding_ready b reg
  ready_for _ b reg = (true, reg)

  -- One round of the loop of `gate_safe`.
  unfoldable pub eligible : Metric Float → MaybeRegistry → Bool × MaybeRegistry
  unfolding binding_ready
  eligible m reg = if m.provisional then (false, reg) else ready_for m.type m.judge_binding reg

  unfoldable pub gate_safe :
      List (Metric Float) → MaybeRegistry → List (Metric Float) × MaybeRegistry
  unfolding eligible
  gate_safe [] reg = ([], reg)
  gate_safe (m ∷ ms) reg =
      let (keep, reg') = eligible m reg in
      let (out, reg'') = gate_safe ms reg' in (if keep then m ∷ out else out, reg'')
