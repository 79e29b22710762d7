-- ===== src/Evaluators/Aggregate/Counts.antt =====
-- How aggregate_metric of evaluators.py counts its cases.
use traceline.Common.{
  ℕ, ◌+◌, ◌≡◌, refl, ap, Bool, not, Option, List, [], ◌∷◌, ok, filter, length, str_eq, arith,
  Bool-cases, inl, inr, check-ok, all-filter, subst, suc, if◌then◌else◌,
}
use traceline.Common.Int.{ℤ}
use traceline.Values.{Python}
use traceline.Spec.Model.{EvaluationSpec, Metric, OnError, count_failed, exclude}
use traceline.Evaluators.Numbers.{Arithmetic}
use traceline.Evaluators.Scores.{
  CaseStatus, pass_status, fail_status, error_status, skipped_status, AggregationState, CaseScore,
  RunAggregate, value_error,
}
use traceline.Evaluators.Aggregate.{
  is_skipped, is_error, counted, retained, count_status, denominator, rollup, aggregate_metric,
}

-- The errors that the denominator leaves out.
abbrev pub left_out : OnError → ℕ → ℕ
left_out count_failed n = 0
left_out exclude n = n

module _ {F : Type 0} where
  denominator-length :
      (o : OnError) (kept : List (CaseScore F))
      → length (denominator o kept)
          + count_status is_skipped kept
          + left_out o (count_status is_error kept)
        ≡ length kept
  unfolding counted
  denominator-length count_failed [] = omega arith
  denominator-length exclude [] = omega arith
  denominator-length o (s ∷ kept) = go o s.status (denominator-length o kept)
    where
      go :
          (o : OnError) (st : CaseStatus)
          → length (denominator o kept)
              + count_status is_skipped kept
              + left_out o (count_status is_error kept)
            ≡ length kept
          → length (if counted o st then s ∷ denominator o kept else denominator o kept)
              + length (
                  if is_skipped st
                  then s ∷ filter (λ (x : CaseScore F). is_skipped x.status) kept
                  else filter (λ (x : CaseScore F). is_skipped x.status) kept)
              + left_out o (
                  length (
                    if is_error st
                    then s ∷ filter (λ (x : CaseScore F). is_error x.status) kept
                    else filter (λ (x : CaseScore F). is_error x.status) kept))
            ≡ suc (length kept)
      go o pass_status h = omega (arith, h)
      go o fail_status h = omega (arith, h)
      go count_failed error_status h = omega (arith, h)
      go exclude error_status h = omega (arith, h)
      go o skipped_status h = omega (arith, h)

  retained-idempotent : (scores : List (CaseScore F)) → retained (retained scores) ≡ retained scores
  retained-idempotent [] = refl
  retained-idempotent (s ∷ scores) = elim (Bool-cases s.on_retry_override) [
    | inl late ↦ rw late (retained-idempotent scores)
    | inr first ↦ rw (first, retained-idempotent scores) refl
  ]

module _ (py : Python) (ar : Arithmetic py.Float) where
  open py use {Float}

  rollup-counts :
      (m : Metric Float) (state : AggregationState) (kept dens : List (CaseScore Float))
      → ((rollup py ar m state kept dens).n_cases ≡ length kept)
        × ((rollup py ar m state kept dens).n_denominator ≡ length dens)
        × ((rollup py ar m state kept dens).skipped_n ≡ count_status is_skipped kept)
        × ((rollup py ar m state kept dens).error_n ≡ count_status is_error kept)
  unfolding rollup
  rollup-counts m state kept [] = (refl, refl, refl, refl)
  rollup-counts m state kept (d ∷ dens) = (refl, refl, refl, refl)

  -- An aggregate counts the results that are no retries: each of them once, in the denominator or as
  -- skipped or, where the metric excludes errors, as an error.
  pub aggregate_metric-counts :
      (spec : EvaluationSpec Float) (m : Metric Float) (scores : List (CaseScore Float))
      (expected : Option ℤ) (in_progress : Bool) (a : RunAggregate Float)
      → aggregate_metric py ar spec m scores expected in_progress ≡ ok a
      → (a.n_cases ≡ length (retained scores))
        × (a.n_denominator + a.skipped_n + left_out m.aggregation.on_error a.error_n ≡ a.n_cases)
  unfolding aggregate_metric
  aggregate_metric-counts spec m scores expected in_progress a h =
      let kept = retained scores in
      let dens = denominator m.aggregation.on_error kept in
      let (cases, dens_n, skipped, errors) = rollup-counts m _ kept dens in
      subst Counts (check-ok _ value_error h).1 (
        cases,
        rw (cases, dens_n, skipped, errors) (denominator-length m.aggregation.on_error kept),
      )
    where
      Counts : RunAggregate Float → Type 0
      Counts a =
          (a.n_cases ≡ length (retained scores))
          × (a.n_denominator + a.skipped_n + left_out m.aggregation.on_error a.error_n ≡ a.n_cases)

  -- The results of retries never enter an aggregate: without them it is the same.
  pub aggregate_metric-retained :
      (spec : EvaluationSpec Float) (m : Metric Float) (scores : List (CaseScore Float))
      (expected : Option ℤ) (in_progress : Bool) (a : RunAggregate Float)
      → aggregate_metric py ar spec m scores expected in_progress ≡ ok a
      → aggregate_metric py ar spec m (retained scores) expected in_progress ≡ ok a
  unfolding aggregate_metric
  aggregate_metric-retained spec m scores expected in_progress a h =
      let (same, done) = check-ok _ value_error h in
      rw
        (
          all-filter (λ (s : CaseScore Float). str_eq s.metric_id m.metric_id)
              (λ s. not s.on_retry_override) scores same,
          retained-idempotent scores,
        )
        (ap ok done)
