-- ===== src/Evaluators/Attempts/Carried.antt =====
-- What the results of `score_attempt` and `evaluate_case` of evaluators.py carry.
use traceline.Common.{
  ◌≡◌, refl, ap, String, Bool, true, false, not, ◌&&◌, List, [], ◌∷◌, Option, Result, ok, err, inl,
  inr, Ensures, Bool-cases, filter, all-filtered, is_empty, arith, if◌then◌else◌,
}
use traceline.Common.Int.{ℤ, pos, negsuc, eqb_ℤ, ltb_ℤ}
use traceline.Values.{Value, Python}
use traceline.Predicate.Compile.{Cel}
use traceline.Spec.Model.{Metric, EvaluationSpec}
use traceline.Judge.Verdicts.{Judge}
use traceline.Evaluators.Numbers.{Arithmetic}
use traceline.Evaluators.Schema.{Search}
use traceline.Evaluators.Scores.{CaseScore, Raised, AttemptEvent}
use traceline.Evaluators.Raw.{Attempt, error_result, on_missing_result}
use traceline.Evaluators.Raw.Consistent.{
  IsConsistent, after, known_first, either, error_result-IsConsistent,
  on_missing_result-IsConsistent,
}
use traceline.Evaluators.ByType.{is_input, traced, score_by_type}
use traceline.Evaluators.ByType.Consistent.{score_by_type-IsConsistent}
use traceline.Evaluators.Attempts.{
  slot, attempt_of, or_error, is_caught, score_attempt, evaluate_case, validate_events,
}

eqb_zero : (n : ℤ) → eqb_ℤ n (pos 0) ≡ true → n ≡ pos 0
eqb_zero (pos n) h = ap pos (ground arith)
eqb_zero (negsuc n) h = absurd (ground arith)

module _ {F : Type 0} where
  or_error-IsConsistent :
      (m : Metric F) (a : Attempt) (r : Result Raised (CaseScore F))
      → Ensures (IsConsistent m a) r
      → Ensures (IsConsistent m a) (or_error (error_result m a) r)
  or_error-IsConsistent m a (ok s) h = h
  or_error-IsConsistent m a (err e) h = go (is_caught e)
    where
      go : (b : Bool) → Ensures (IsConsistent m a) (if b then ok (error_result m a) else err e)
      go true = error_result-IsConsistent m a
      go false = tt

  abbrev is_first : AttemptEvent F → Bool
  is_first e = eqb_ℤ e.attempt (pos 0)

  one_attempt :
      (e : AttemptEvent F) (es : List (AttemptEvent F))
      → is_first e ≡ true
      → attempt_of (e ∷ filter is_first es) ≡ ok (pos 0)
  unfolding attempt_of
  one_attempt e es h = rw (eqb_zero e.attempt h, all-filtered is_first es) refl

  attempt_of-first :
      (events : List (AttemptEvent F)) → attempt_of (filter is_first events) ≡ ok (pos 0)
  attempt_of-first [] = unfold attempt_of in refl
  attempt_of-first (e ∷ es) = elim (Bool-cases (is_first e)) [
    | inl hit ↦ rw hit (one_attempt e es hit)
    | inr miss ↦ rw miss (attempt_of-first es)
  ]

module _ (py : Python) (celpy : Cel py.Float) (ar : Arithmetic py.Float)
    (to_text : Value py.Float → String) (finder : Search) where
  open py use {Float}

  attempt-IsConsistent :
      (spec : EvaluationSpec Float) (j : Option (Judge Float)) (id : String)
      (events : List (AttemptEvent Float)) (m : Metric Float) (n : ℤ)
      → Ensures {E = Raised} (IsConsistent m (slot id n (ltb_ℤ (pos 0) n) m.provisional)) (
          if is_empty events && not (is_input m.target.type)
          then on_missing_result py ar to_text m (slot id n (ltb_ℤ (pos 0) n) m.provisional)
          else or_error (error_result m (slot id n (ltb_ℤ (pos 0) n) m.provisional)) (
              score_by_type py celpy ar to_text finder spec.cases j m
                (slot id n (ltb_ℤ (pos 0) n) m.provisional)
                (traced events)))
  attempt-IsConsistent spec j id events m n =
      search
        (either, on_missing_result-IsConsistent, or_error-IsConsistent, score_by_type-IsConsistent)

  -- Of the attempt n of all events.
  pub score_attempt-IsConsistent :
      (spec : EvaluationSpec Float) (j : Option (Judge Float)) (id : String)
      (events : List (AttemptEvent Float)) (m : Metric Float) (n : ℤ)
      → attempt_of events ≡ ok n
      → Ensures
          (IsConsistent m (slot id n (ltb_ℤ (pos 0) n) m.provisional))
          (score_attempt py celpy ar to_text finder spec j id events m)
  unfolding score_attempt
  score_attempt-IsConsistent spec j id events m n e =
      search (after, known_first, attempt-IsConsistent) depth 14

  -- Where evaluate_case returns a score, it names the metric and the case, is one of attempt 0 and no
  -- retry, carries the metric's provisional flag, says by `passed` whether its status is PASS, and has
  -- a score exactly for PASS and FAIL.
  pub evaluate_case-IsConsistent :
      (spec : EvaluationSpec Float) (j : Option (Judge Float)) (id : String)
      (events : List (AttemptEvent Float)) (m : Metric Float)
      → Ensures
          (IsConsistent m (slot id (pos 0) false m.provisional))
          (evaluate_case py celpy ar to_text finder spec j id events m)
  unfolding evaluate_case
  evaluate_case-IsConsistent spec j id events m =
      after m _ (validate_events id events) _
        (λ _. score_attempt-IsConsistent spec j id _ m (pos 0) (attempt_of-first events))
