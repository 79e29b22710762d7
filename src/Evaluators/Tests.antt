-- ===== src/Evaluators/Tests.antt =====
-- Runs of the evaluators on small metrics.
use Prim.Native.Char.{code}
use traceline.Common.{
  ℕ, zero, suc, ◌+◌, ◌≡◌, ◌≢◌, ◌↔◌, refl, ap, String, true, false, none, some, List, [], ◌∷◌, ok,
  All, Ensures, eq_iff, length, arith, str_eq, inl, inr, Bool-cases,
}
use traceline.Common.Int.{pos}
use traceline.Values.{Value, int, str, dict, null, missing, entry, end, cons, nil}
use traceline.Spec.Model.{numeric, numeric_scoring, judge}
use traceline.Predicate.Tokens.{is_nil, str_length}
use traceline.Judge.Registry.{Registry}
use traceline.Judge.Calls.{run_calls, label_call, kappa_call}
use traceline.Evaluators.Scores.{
  CaseScore, RunAggregate, complete_state, pass_status, error_status, skipped_status,
}
use traceline.Predicate.Syntax.{CompareOp}
use traceline.Evaluators.Condition.Eval.{
  CondNodes, last_node, next_node, cond_literal, cond_raw, cond_compare, cond_all, cond_any,
  cond_holds,
}
use traceline.Evaluators.Condition.Parser.{compile_condition}
use traceline.Evaluators.Condition.Total.{CondOutcome, compile_condition-CondOutcome}
use traceline.Evaluators.Condition.Logic.{AllLogical, all_hold_of, any_holds_of, connectives_hold}
use traceline.Evaluators.Aggregate.{aggregate_metric, retained, evaluate_gate, gate_safe}
use traceline.Evaluators.Aggregate.Counts.{
  left_out, aggregate_metric-counts, aggregate_metric-retained,
}
use traceline.Evaluators.Aggregate.Gates.{FloatCompare, Passes, evaluate_gate_iff, unmeasured_gate}
use traceline.Evaluators.Aggregate.Readiness.{MayGate, gate_safe-MayGate}
use traceline.Evaluators.Raw.{normalize_score}
use traceline.Evaluators.Raw.Bounds.{FloatOrder, InUnit, normalize_score-InUnit}
use traceline.Evaluators.Raw.Consistent.{IsConsistent}
use traceline.Evaluators.ByType.{traced}
use traceline.Evaluators.Attempts.{slot, evaluate_case}
use traceline.Evaluators.Attempts.Carried.{evaluate_case-IsConsistent}
use traceline.Evaluators.Custom.{Artifact, or_flag, score_custom}
use traceline.Evaluators.Custom.Sound.{IsSelectedScore, score_custom-IsLinkedScore}
use traceline.Evaluators.Selectors.{Step, wildcard, index, key, all_chars, selector_tokens}
use traceline.Evaluators.Selectors.Print.{Texts, is_numeral, print_steps, selector_tokens-print}
use traceline.Evaluators.Samples.{
  counting, float_counts, no_celpy, shipped, as_text, no_pattern, binding_of, scoring_of, metric_of,
  matching, one_spec, call_of, score_of,
}

-- A pass, an error, a skip, and a retry that passed.
abbrev scores : List (CaseScore ℕ)
scores =
    score_of pass_status (some 1) false
    ∷ (score_of error_status none false
        ∷ (score_of skipped_status none false ∷ (score_of pass_status (some 1) true ∷ [])))

abbrev rolled : RunAggregate ℕ
rolled = record {
  metric_id = "m";
  value = some 1;
  pass_rate = some 1;
  mean = some 1;
  n_cases = 3;
  n_denominator = 1;
  error_n = 1;
  skipped_n = 1;
  aggregation_state = complete_state;
}

rolls : aggregate_metric counting float_counts one_spec matching scores none false ≡ ok rolled
unfolding aggregate_metric
rolls = refl

aggregate_metric-counts_example :
    (rolled.n_cases ≡ length (retained scores))
    × (rolled.n_denominator
          + rolled.skipped_n
          + left_out matching.aggregation.on_error rolled.error_n
        ≡ rolled.n_cases)
aggregate_metric-counts_example =
    aggregate_metric-counts counting float_counts one_spec matching scores none false rolled rolls

aggregate_metric-retained_example :
    aggregate_metric counting float_counts one_spec matching (retained scores) none false
    ≡ ok rolled
aggregate_metric-retained_example =
    aggregate_metric-retained counting float_counts one_spec matching scores none false rolled rolls

counts_compare : FloatCompare counting
counts_compare = record {
  total = λ x y xx yy h. ground arith;
  apart = λ x y h. ground arith;
  nan = λ x y h. absurd (ground arith);
}

evaluate_gate_iff_example :
    ((evaluate_gate counting float_counts matching rolled).passed ≡ true)
    ↔ Passes counting float_counts matching.gate rolled.value
evaluate_gate_iff_example = evaluate_gate_iff counting float_counts counts_compare matching rolled

-- Only an error, which the metric excludes.
abbrev unmeasured : RunAggregate ℕ
unmeasured = record {
  metric_id = "m";
  value = none;
  pass_rate = none;
  mean = none;
  n_cases = 1;
  n_denominator = 0;
  error_n = 1;
  skipped_n = 0;
  aggregation_state = complete_state;
}

abbrev one_error : List (CaseScore ℕ)
one_error = score_of error_status none false ∷ []

rolls_empty :
    aggregate_metric counting float_counts one_spec matching one_error none false ≡ ok unmeasured
unfolding aggregate_metric
rolls_empty = refl

unmeasured_gate_example : (evaluate_gate counting float_counts matching unmeasured).passed ≡ false
unmeasured_gate_example =
    unmeasured_gate counting float_counts one_spec matching one_error none false unmeasured
      (record { min = some 1; max = none }) rolls_empty refl refl

abbrev ready : Registry ℕ
unfolding run_calls
ready =
    run_calls counting shipped
      (label_call (binding_of "a") (pos 3) ∷ (kappa_call (binding_of "a") 6 ∷ [])) []

gate_safe-MayGate_example :
    All
      (MayGate counting shipped (some ready))
      (gate_safe counting shipped
        (metric_of judge numeric numeric_scoring false ∷ (matching ∷ []))
        (some ready)).0
gate_safe-MayGate_example =
    gate_safe-MayGate counting shipped
      (metric_of judge numeric numeric_scoring false ∷ (matching ∷ [])) (some ready)

counts_order : FloatOrder counting float_counts
counts_order = record {
  total = λ x y xx yy h. ground arith;
  nan = λ x y h. absurd (ground arith);
  zero_number = refl;
  one_number = refl;
  zero_le_one = refl;
}

normalize_score-InUnit_example :
    Ensures
      (InUnit counting float_counts as_text counts_order)
      (normalize_score counting float_counts as_text (scoring_of numeric_scoring) (int (pos 7)))
normalize_score-InUnit_example =
    normalize_score-InUnit counting float_counts as_text counts_order (scoring_of numeric_scoring)
      (int (pos 7))

evaluate_case-IsConsistent_example :
    Ensures (IsConsistent matching (slot "c" (pos 0) false false)) (
      evaluate_case counting no_celpy float_counts as_text no_pattern one_spec none "c"
        (call_of (pos 0) ∷ (call_of (pos 1) ∷ []))
        matching)
evaluate_case-IsConsistent_example =
    evaluate_case-IsConsistent counting no_celpy float_counts as_text no_pattern one_spec none "c"
      (call_of (pos 0) ∷ (call_of (pos 1) ∷ [])) matching

-- Gives every case 3 of 5, by the first event.
abbrev always_three : Artifact ℕ
always_three events output c = ok (
    dict
      (entry "score" (int (pos 3)) (entry "evidence_refs" (Value.list (cons (str "e1") nil)) end)))

score_custom-IsLinkedScore_example :
    Ensures
      (IsSelectedScore counting no_celpy float_counts as_text matching
        (slot "c" (pos 0) false (or_flag counting no_celpy float_counts as_text false none))
        []
        (traced (call_of (pos 0) ∷ [])))
      (score_custom counting no_celpy float_counts as_text one_spec "c"
        (call_of (pos 0) ∷ [])
        matching
        always_three
        "v1"
        2
        []
        null
        (pos 0)
        false
        none)
score_custom-IsLinkedScore_example =
    score_custom-IsLinkedScore counting no_celpy float_counts as_text one_spec "c"
      (call_of (pos 0) ∷ []) matching always_three "v1" 2 [] null (pos 0) false none

-- A text of n + 1 ones, which `counting` reads as n.
abbrev ones : ℕ → String
ones zero = "1"
ones (suc n) = String.◌∷◌ "1" (ones n)

ones-numerals : (n : ℕ) → all_chars counting (is_numeral counting ones) (ones n) ≡ true
ones-numerals zero = refl
ones-numerals (suc n) = ones-numerals n

ones_some : (n : ℕ) → is_nil counting (ones n) ≡ false
ones_some zero = refl
ones_some (suc n) = refl

abbrev first_code : String → ℕ
first_code String.[] = 0
first_code (String.◌∷◌ c s) = code c

starts_one : (s : String) → str_eq (String.◌∷◌ "1" s) "*" ≡ false
starts_one s = elim (Bool-cases (str_eq (String.◌∷◌ "1" s) "*")) [
  | inr miss ↦ miss
  | inl hit ↦ absurd (differ (ap first_code ((eq_iff (String.◌∷◌ "1" s) "*").0 hit)))
]
  where
    differ : ◌≢◌ {A = ℕ} 49 42
    differ e = omega (arith, e)

ones_not_star : (n : ℕ) → str_eq (ones n) "*" ≡ false
ones_not_star zero = refl
ones_not_star (suc n) = starts_one (ones n)

ones_length : (n : ℕ) → str_length (ones n) ≡ suc n
ones_length zero = refl
ones_length (suc n) = ap suc (ones_length n)

ones_read : (n : ℕ) → counting.to_int (ones n) ≡ some (pos n)
ones_read n = ap (λ k. some (pos k)) (omega (arith, ones_length n))

ones_texts : Texts counting ones
ones_texts = record {
  numerals = ones-numerals;
  some_digit = ones_some;
  not_star = ones_not_star;
  reads_back = ones_read;
  dot_ends = refl;
  bracket_ends = refl;
  star_ends = refl;
}

abbrev some_steps : List Step
some_steps = key "args" ∷ (index (pos 2) ∷ (wildcard ∷ []))

selector_tokens-print_example :
    selector_tokens counting (print_steps counting ones some_steps) ≡ ok some_steps
selector_tokens-print_example =
    selector_tokens-print counting ones ones_texts some_steps ((refl, refl), (tt, (tt, tt)))

compile_condition-CondOutcome_example :
    CondOutcome (compile_condition counting "!(raw_value == null) && raw_value != 1")
compile_condition-CondOutcome_example =
    compile_condition-CondOutcome counting "!(raw_value == null) && raw_value != 1"

-- raw_value != null, raw_value > 1
abbrev two_tests : CondNodes ℕ
two_tests =
    next_node (cond_compare CompareOp.ne cond_raw (cond_literal null))
      (next_node (cond_compare CompareOp.gt cond_raw (cond_literal (int (pos 1)))) last_node)

two_tests-AllLogical : AllLogical two_tests
unfolding AllLogical
two_tests-AllLogical = (tt, (tt, tt))

connectives_hold_example :
    (cond_holds counting (cond_all two_tests) missing ≡ all_hold_of counting two_tests missing)
    × (cond_holds counting (cond_any two_tests) missing ≡ any_holds_of counting two_tests missing)
connectives_hold_example = connectives_hold counting two_tests missing two_tests-AllLogical

-- A missing raw value passes as an operand of its own.
missing_operand_passes :
    cond_holds counting
      (cond_all (next_node cond_raw (next_node (cond_literal (Value.bool true)) last_node)))
      missing
    ≡ true
unfolding cond_holds
missing_operand_passes = refl
