-- ===== src/Evaluators/Observed.antt =====
-- The evaluators of observed values of evaluators.py, with retrieval.py: `_score_observed_value` and
-- `_resolve_reference`. The packages re and celpy and Python's str() are parameters.
pub mod Consistent
use Prim.Native.Char.{code}
use Prim.Native.String
use Prim.Native.String.{String, [], ◌∷◌}
use traceline.Common.{
  ℕ, zero, suc, Bool, false, ◌&&◌, List, Option, none, some, Result, ok, err, ◌>>=◌, all, filter,
  length, str_eq, elem_str, ◌==◌, map, if◌then◌else◌,
}
use mathlib.Core.List
use traceline.Common.Int.{ℤ, pos}
use traceline.Values.{Value, str, list, dict, float, Items, nil, cons, entry_get, Python}
use traceline.Spec.Model.{
  EvaluatorType, exact_match, json_schema, regex, numeric, reference, composite, recall_at_k,
  citation_correctness, Metric, TestCase,
}
use traceline.TraceRules.Rules.{dedupe}
use traceline.Evaluators.Numbers.{Arithmetic}
use traceline.Evaluators.Condition.Eval.{values_eq}
use traceline.Evaluators.Schema.{Search, compiled, validate_json_schema}
use traceline.Evaluators.Raw.{
  Attempt, all_hold, is_binary_scoring, boolean_case_score, score_raw_value,
}
use traceline.Evaluators.Scores.{
  CaseScore, Raised, evaluation_error, bad_ranking, bad_citations, no_citations, bad_reference,
  composite_evaluator, wrong_evaluator, value_error, type_error,
}

-- The text v of a list of texts.
abbrev pub as_string : {F : Type 0} → Value F → Option String
as_string (str s) = some s
as_string _ = none

abbrev pub cons_option : {A : Type 0} → Option A → Option (List A) → Option (List A)
cons_option none _ = none
cons_option (some a) none = none
cons_option (some a) (some rest) = some (List.◌∷◌ a rest)

abbrev pub strings_of : {F : Type 0} → Items F → Option (List String)
strings_of nil = some List.[]
strings_of (cons v vs) = cons_option (as_string v) (strings_of vs)

-- A list of texts, and nothing else.
abbrev pub as_strings : {F : Type 0} → Value F → Option (List String)
as_strings (list vs) = strings_of vs
as_strings _ = none

abbrev pub take_list : {A : Type 0} → ℕ → List A → List A
take_list zero xs = List.[]
take_list (suc n) List.[] = List.[]
take_list (suc n) (List.◌∷◌ x xs) = List.◌∷◌ x (take_list n xs)

-- evidence[name], of the last entry
unfoldable pub citation_of : String → List (String × Bool) → Option Bool
citation_of s List.[] = none
citation_of s (List.◌∷◌ (k, b) es) =
    let found = citation_of s es in
    elim found [ some c ↦ some c | none ↦ if str_eq k s then some b else none ]

abbrev pub count_cited : List (Option Bool) → Option ℕ
count_cited List.[] = some 0
count_cited (List.◌∷◌ none bs) = none
count_cited (List.◌∷◌ (some b) bs) = elim (count_cited bs) [
  | none ↦ none
  | some n ↦ some (if b then suc n else n)
]

-- path.split("."): the first segment, and the others
unfoldable pub split_dots : String → String × List String
split_dots [] = ([], List.[])
split_dots (c ∷ cs) =
    let (first, others) = split_dots cs in
    if code c == b'.' then ([], List.◌∷◌ first others) else (c ∷ first, others)

module _ (py : Python) (ar : Arithmetic py.Float) (to_text : Value py.Float → String)
    (search : Search) where
  open py use {Float}
  open ar use {zero_float, ratio}

  abbrev pub ratio_of : ℕ → ℕ → Float
  ratio_of n zero = zero_float
  ratio_of n (suc m) = ratio n (suc m)

  -- retrieval.recall_at_k, on a k that is an int and at least 1
  unfoldable pub recall_at : List String → List String → Option ℤ → Result Raised Float
  unfolding dedupe
  recall_at relevant ranked (some (pos (suc k))) =
      let wanted = dedupe relevant in
      ok (
        ratio_of (length (filter (λ s. elem_str s (take_list (suc k) ranked)) wanted))
          (length wanted))
  recall_at relevant ranked _ = err value_error

  abbrev pub cited_ratio : ℕ → Option ℕ → Option Float
  cited_ratio total none = none
  cited_ratio total (some n) = some (ratio n total)

  -- retrieval.citation_correctness
  unfoldable pub citation_score : List String → List (String × Bool) → Option Float
  unfolding citation_of
  citation_score List.[] evidence = none
  citation_score (List.◌∷◌ c cs) evidence =
      let all_cited = List.◌∷◌ c cs in
      cited_ratio (length all_cited) (count_cited (map (λ s. citation_of s evidence) all_cited))

  -- values[0] if len(values) == 1 else list(values)
  abbrev pub values_items : List (Value Float) → Items Float
  values_items List.[] = nil
  values_items (List.◌∷◌ v vs) = cons v (values_items vs)

  abbrev pub raw_of : List (Value Float) → Value Float
  raw_of (List.◌∷◌ v List.[]) = v
  raw_of vs = list (values_items vs)

  abbrev pub descend : Value Float → List String → Option (Value Float)
  descend v List.[] = some v
  descend (dict es) (List.◌∷◌ s ss) = elim (entry_get s es) [ none ↦ none | some v ↦ descend v ss ]
  descend _ (List.◌∷◌ s ss) = none

  abbrev pub or_bad_reference : Option (Value Float) → Result Raised (Value Float)
  or_bad_reference none = err (evaluation_error bad_reference)
  or_bad_reference (some v) = ok v

  abbrev pub resolve_segments : TestCase Float → String × List String → Result Raised (Value Float)
  unfolding entry_get
  resolve_segments c (first, List.◌∷◌ second (List.◌∷◌ name rest)) =
      if str_eq first "test" && str_eq second "expected"
      then or_bad_reference
          (elim (entry_get name c.expected) [ none ↦ none | some v ↦ descend v rest ])
      else err (evaluation_error bad_reference)
  resolve_segments c _ = err (evaluation_error bad_reference)

  abbrev pub resolve_path_value : TestCase Float → Option String → Result Raised (Value Float)
  unfolding entry_get split_dots
  resolve_path_value c none = err (evaluation_error bad_reference)
  resolve_path_value c (some path) = resolve_segments c (split_dots path)

  unfoldable pub resolve_reference : Metric Float → TestCase Float → Result Raised (Value Float)
  unfolding entry_get split_dots
  resolve_reference m c = resolve_path_value c (as_string m.evaluator.expected)

  -- Equal values pass under binary scoring; another scoring reads the raw value.
  unfoldable pub score_equal :
      Metric Float
      → Attempt
      → List (Value Float)
      → Value Float
      → List String
      → Result Raised (CaseScore Float)
  unfolding values_eq boolean_case_score score_raw_value
  score_equal m a values expected evidence =
      if is_binary_scoring m.scoring.type
      then boolean_case_score py ar to_text m a (all (λ v. values_eq py v expected) values) evidence
      else score_raw_value py ar to_text m a (raw_of values) evidence

  -- A test of every value under binary scoring.
  unfoldable pub score_tested :
      (Value Float → Result Raised Bool)
      → Metric Float
      → Attempt
      → List (Value Float)
      → List String
      → Result Raised (CaseScore Float)
  unfolding all_hold boolean_case_score score_raw_value
  score_tested test m a values evidence =
      if is_binary_scoring m.scoring.type
      then (all_hold test values >>= λ passed. boolean_case_score py ar to_text m a passed evidence)
      else score_raw_value py ar to_text m a (raw_of values) evidence

  -- isinstance(v, str) and compiled.search(v) is not None
  abbrev pub text_matches : (String → Bool) → Value Float → Result Raised Bool
  text_matches finds (str s) = ok (finds s)
  text_matches finds _ = ok false

  abbrev pub score_regex :
      Option String
      → Metric Float
      → Attempt
      → List (Value Float)
      → List String
      → Result Raised (CaseScore Float)
  unfolding score_tested
  score_regex none m a values evidence = err type_error
  score_regex (some p) m a values evidence = compiled py search (search p) >>= λ finds.
      score_tested (text_matches finds) m a values evidence

  abbrev pub score_recall :
      Metric Float
      → Attempt
      → List String
      → Option (List String)
      → Option (List String)
      → Result Raised (CaseScore Float)
  unfolding recall_at score_raw_value
  score_recall m a evidence none relevant = err (evaluation_error bad_ranking)
  score_recall m a evidence (some ranked) none = err type_error
  score_recall m a evidence (some ranked) (some relevant) =
      recall_at relevant ranked m.evaluator.k >>= λ score.
      score_raw_value py ar to_text m a (float score) evidence

  abbrev pub score_citation :
      Metric Float → Attempt → List String → Option Float → Result Raised (CaseScore Float)
  unfolding score_raw_value
  score_citation m a evidence none = err (evaluation_error no_citations)
  score_citation m a evidence (some score) =
      score_raw_value py ar to_text m a (float score) evidence

  abbrev pub evidence_of : Option (List (String × Bool)) → List (String × Bool)
  evidence_of none = List.[]
  evidence_of (some es) = es

  abbrev pub score_citations :
      Metric Float → Attempt → List String → Option (List String) → Result Raised (CaseScore Float)
  unfolding citation_score score_raw_value
  score_citations m a evidence none = err (evaluation_error bad_citations)
  score_citations m a evidence (some cited) =
      score_citation m a evidence (citation_score cited (evidence_of m.evaluator.evidence))

  -- By the evaluator's type.
  unfoldable pub observed_by :
      EvaluatorType
      → Metric Float
      → Attempt
      → List (Value Float)
      → List String
      → TestCase Float
      → Result Raised (CaseScore Float)
  unfolding score_equal score_tested score_raw_value resolve_reference recall_at citation_score
      validate_json_schema
  observed_by exact_match m a values evidence case =
      score_equal m a values m.evaluator.expected evidence
  observed_by regex m a values evidence case = score_regex m.evaluator.pattern m a values evidence
  observed_by numeric m a values evidence case =
      score_raw_value py ar to_text m a (raw_of values) evidence
  observed_by recall_at_k m a values evidence case =
      score_recall m a evidence (as_strings (raw_of values)) (as_strings m.evaluator.expected)
  observed_by citation_correctness m a values evidence case =
      score_citations m a evidence (as_strings (raw_of values))
  observed_by reference m a values evidence case =
      resolve_reference m case >>= λ expected. score_equal m a values expected evidence
  observed_by json_schema m a values evidence case =
      score_tested (validate_json_schema py search m.evaluator.schema) m a values evidence
  observed_by composite m a values evidence case = err (evaluation_error composite_evaluator)
  observed_by _ m a values evidence case = err (evaluation_error wrong_evaluator)

  unfoldable pub score_observed_value :
      Metric Float
      → Attempt
      → List (Value Float)
      → List String
      → TestCase Float
      → Result Raised (CaseScore Float)
  unfolding observed_by
  score_observed_value m a values evidence case =
      observed_by m.evaluator.type m a values evidence case
