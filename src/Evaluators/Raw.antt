-- ===== src/Evaluators/Raw.antt =====
-- From a raw value to a case's score in evaluators.py: `_score_raw_value` and what it calls.
-- `to_text` is Python's str().
pub mod Bounds
pub mod Consistent
use Prim.Native.String
use traceline.Common.{
  ℕ, suc, ◌-◌, String, Bool, true, false, List, [], ◌∷◌, Option, none, some, Result, ok, err, ◌>>=◌,
  traverse, all, length, str_eq, ltb, if◌then◌else◌,
}
use traceline.Common.Int.{ℤ}
use traceline.Values.{
  Value, bool, float, null, list, dict, missing, unknown, Items, nil, cons, items, Entries, end,
  entry, Python,
}
use traceline.Spec.Model.{
  ScoringType, binary, numeric_scoring, categorical, Scoring, Metric, OnMissing, fail, skip, pass,
}
use traceline.TraceRules.Rules.{dedupe}
use traceline.Evaluators.Numbers.{
  Arithmetic, Number, as_number, between, number_eq, to_real, max_float, min_float,
}
use traceline.Evaluators.Condition.Tokens.{
  CondProblem, cond_error, cond_value_error, cond_index_error, no_fuel,
}
use traceline.Evaluators.Condition.Eval.{cond_holds}
use traceline.Evaluators.Condition.Parser.{compile_condition}
use traceline.Evaluators.Scores.{
  CaseStatus, pass_status, fail_status, error_status, skipped_status, CaseScore, condition_error,
  no_condition, list_of_categories, on_missing_unset, Raised, evaluation_error, value_error,
  type_error, zero_division, overflow_error, python_error, out_of_fuel,
}

-- What every result of one attempt carries.
pub record Attempt : Type 0 where
  pub case_id : String
  pub attempt : ℤ
  pub on_retry_override : Bool
  pub provisional : Bool

abbrev pub verdict_of : Bool → CaseStatus
verdict_of true = pass_status
verdict_of false = fail_status

-- _dedupe_ids
unfoldable pub dedupe_ids : List String → List String
unfolding dedupe
dedupe_ids ids = dedupe ids

-- categories.index(text), with the number of them
unfoldable pub category_index : String → List String → Option ℕ
category_index s [] = none
category_index s (c ∷ cs) =
    let rest = category_index s cs in
    if str_eq c s then some 0 else elim rest [ none ↦ none | some n ↦ some (suc n) ]

-- all(test(x) for x in xs), where the test may raise
unfoldable pub all_hold : {A : Type 0} → (A → Result Raised Bool) → List A → Result Raised Bool
all_hold test [] = ok true
all_hold test (x ∷ xs) = test x >>= λ b. elim b [ true ↦ all_hold test xs | false ↦ ok false ]

abbrev pub is_binary_scoring : ScoringType → Bool
is_binary_scoring binary = true
is_binary_scoring _ = false

module _ {F : Type 0} where
  unfoldable mutual
    -- `_safe_raw_value`
    pub safe_value : Value F → Value F
    safe_value missing = null
    safe_value unknown = null
    safe_value (list vs) = list (safe_items vs)
    safe_value (dict es) = dict (safe_entries es)
    safe_value v = v

    pub safe_items : Items F → Items F
    safe_items nil = nil
    safe_items (cons v vs) = cons (safe_value v) (safe_items vs)

    pub safe_entries : Entries F → Entries F
    safe_entries end = end
    safe_entries (entry k v es) = entry k (safe_value v) (safe_entries es)

  -- A CaseScore of the attempt.
  abbrev pub case_score :
      Metric F → Attempt → Option F → Bool → List String → CaseStatus → Value F → CaseScore F
  case_score m a score passed evidence status raw = record {
    metric_id = m.metric_id;
    case_id = a.case_id;
    score = score;
    passed = passed;
    evidence_event_ids = evidence;
    status = status;
    attempt = a.attempt;
    on_retry_override = a.on_retry_override;
    provisional = a.provisional;
    raw_value = raw;
    evaluator_version = none;
  }

  -- CaseStatus.PASS if passed else CaseStatus.FAIL
  abbrev pub judged : Metric F → Attempt → F → Bool → List String → Value F → CaseScore F
  judged m a score passed evidence raw =
      case_score m a (some score) passed evidence (verdict_of passed) raw

  unfoldable pub error_result : Metric F → Attempt → CaseScore F
  error_result m a = case_score m a none false [] error_status null

abbrev pub condition_raised : CondProblem → Raised
condition_raised (cond_error p) = evaluation_error (condition_error p)
condition_raised cond_value_error = value_error
condition_raised cond_index_error = python_error
condition_raised no_fuel = out_of_fuel

abbrev pub from_condition : {A : Type 0} → Result CondProblem A → Result Raised A
from_condition (ok a) = ok a
from_condition (err e) = err (condition_raised e)

module _ (py : Python) (ar : Arithmetic py.Float) (to_text : Value py.Float → String) where
  open py use {Float, float_lt}
  open ar use {zero_float, one_float, sub, div, ratio, sum, div_count}

  -- 1.0 if passed else 0.0
  abbrev pub one_or_zero : Bool → Float
  one_or_zero true = one_float
  one_or_zero false = zero_float

  abbrev pub missing_score :
      Metric Float → Attempt → Option OnMissing → Result Raised (CaseScore Float)
  missing_score m a none = err (evaluation_error on_missing_unset)
  missing_score m a (some pass) = ok (case_score m a (some one_float) true [] pass_status null)
  missing_score m a (some skip) = ok (case_score m a none false [] skipped_status null)
  missing_score m a (some fail) = ok (case_score m a (some zero_float) false [] fail_status null)

  unfoldable pub on_missing_result : Metric Float → Attempt → Result Raised (CaseScore Float)
  on_missing_result m a = missing_score m a m.target.on_missing

  abbrev pub with_condition : Option String → Value Float → Result Raised Bool
  unfolding compile_condition cond_holds
  with_condition none raw = err (evaluation_error no_condition)
  with_condition (some c) raw =
      if str_eq c ""
      then err (evaluation_error no_condition)
      else (from_condition (compile_condition py c) >>= λ n. ok (cond_holds py n raw))

  unfoldable pub eval_condition : Metric Float → Value Float → Result Raised Bool
  unfolding compile_condition cond_holds
  eval_condition m raw = with_condition m.scoring.condition raw

  abbrev pub range_of : Scoring Float → Result Raised (Float × Float)
  range_of s = elim s.range [ none ↦ err type_error | some r ↦ ok r ]

  unfoldable pub in_score_range : Scoring Float → Value Float → Result Raised Bool
  in_score_range s raw = elim (as_number raw) [
    | none ↦ ok false
    | some n ↦ range_of s >>= λ (lo, hi). ok (between py ar lo n hi)
  ]

  -- min(max(x, 0.0), 1.0)
  abbrev pub clamp_unit : Float → Float
  clamp_unit x = min_float py ar (max_float py ar x zero_float) one_float

  abbrev pub scaled : Float → Float → Option Float → Result Raised Float
  scaled lo hi none = err overflow_error
  scaled lo hi (some x) = ok (clamp_unit (div (sub x lo) (sub hi lo)))

  unfoldable pub normalize_number : Float → Float → Number Float → Result Raised Float
  normalize_number lo hi n =
      if float_lt lo hi
      then scaled lo hi (to_real py ar n)
      else ok (one_or_zero (number_eq py ar n lo))

  -- A value that is no number scores 0.0; a missing range cannot be unpacked.
  abbrev pub normalize_in : Option (Float × Float) → Option (Number Float) → Result Raised Float
  unfolding normalize_number
  normalize_in range none = ok zero_float
  normalize_in none (some n) = err type_error
  normalize_in (some (lo, hi)) (some n) = normalize_number lo hi n

  unfoldable pub normalize_score : Scoring Float → Value Float → Result Raised Float
  unfolding normalize_number
  normalize_score s raw = normalize_in s.range (as_number raw)

  -- sum(norms) / len(norms)
  abbrev pub mean_score : List Float → Result Raised Float
  mean_score [] = err zero_division
  mean_score (x ∷ xs) = ok (div_count (sum (x ∷ xs)) (length (x ∷ xs)))

  -- The score of the category at an index.
  abbrev pub category_score : List String → ℕ → Float
  category_score cs n = if ltb 1 (length cs) then ratio n (length cs - 1) else one_float

  abbrev pub category_of : Value Float → Option String
  category_of missing = none
  category_of v = some (to_text v)

  abbrev pub find_category : Option String → List String → Option ℕ
  unfolding category_index
  find_category none cs = none
  find_category (some s) cs = category_index s cs

  abbrev pub categories_of : Scoring Float → List String
  categories_of s = elim s.categories [ none ↦ [] | some cs ↦ cs ]

  -- The three ways of scoring, of a list that `occurrence: all` observed and of one value.
  unfoldable pub score_list :
      ScoringType
      → Metric Float
      → Attempt
      → List (Value Float)
      → Value Float
      → List String
      → Result Raised (CaseScore Float)
  unfolding eval_condition all_hold in_score_range normalize_score
  score_list binary m a vs raw evidence = all_hold (eval_condition m) vs >>= λ passed.
      ok (judged m a (one_or_zero passed) passed evidence raw)
  score_list numeric_scoring m a vs raw evidence =
      traverse (normalize_score m.scoring) vs >>= λ norms.
      traverse (in_score_range m.scoring) vs >>= λ fits.
      mean_score norms >>= λ score. ok (judged m a score (all (λ b. b) fits) evidence raw)
  score_list categorical m a vs raw evidence = err (evaluation_error list_of_categories)

  abbrev pub category_result :
      Metric Float → Attempt → List String → Value Float → Option ℕ → CaseScore Float
  category_result m a evidence raw none = judged m a zero_float false evidence raw
  category_result m a evidence raw (some n) =
      judged m a (category_score (categories_of m.scoring) n) true evidence raw

  unfoldable pub score_one :
      ScoringType
      → Metric Float
      → Attempt
      → Value Float
      → List String
      → Result Raised (CaseScore Float)
  unfolding eval_condition in_score_range normalize_score category_index
  score_one binary m a v evidence = eval_condition m v >>= λ passed.
      ok (judged m a (one_or_zero passed) passed evidence (safe_value v))
  score_one numeric_scoring m a v evidence = in_score_range m.scoring v >>= λ passed.
      normalize_score m.scoring v >>= λ score. ok (judged m a score passed evidence (safe_value v))
  score_one categorical m a v evidence = ok (
      category_result m a evidence (safe_value v)
        (find_category (category_of v) (categories_of m.scoring)))

  unfoldable pub score_raw_value :
      Metric Float → Attempt → Value Float → List String → Result Raised (CaseScore Float)
  unfolding score_list score_one safe_value
  score_raw_value m a (list vs) evidence =
      score_list m.scoring.type m a (items vs) (list (safe_items vs)) evidence
  score_raw_value m a v evidence = score_one m.scoring.type m a v evidence

  -- `_boolean_case_score`
  unfoldable pub boolean_case_score :
      Metric Float → Attempt → Bool → List String → Result Raised (CaseScore Float)
  unfolding score_raw_value
  boolean_case_score m a passed evidence =
      if is_binary_scoring m.scoring.type
      then ok (judged m a (one_or_zero passed) passed evidence (bool passed))
      else score_raw_value m a (float (one_or_zero passed)) evidence
