-- ===== src/Evaluators/Custom/Sound.antt =====
-- What the results of `score_custom` of evaluators.py carry.
use traceline.Common.{
  ◌≡◌, refl, String, Bool, true, false, ◌&&◌, List, [], ◌∷◌, Option, none, some, Result, ok, err,
  ◌>>=◌, inl, inr, Ensures, Ensures-then, Bool-cases, All, all, elem_str, check, if◌then◌else◌,
}
use traceline.Common.Int.{ℤ}
use traceline.Values.{Value, Python}
use traceline.Events.{TraceEvent}
use traceline.Predicate.Compile.{Cel}
use traceline.TraceRules.Reports.{All-dedupe}
use traceline.TraceRules.Rules.{dedupe}
use traceline.Spec.Model.{Metric, TestCase, EvaluationSpec, OnMissing, fail, skip, pass}
use traceline.Evaluators.Numbers.{Arithmetic}
use traceline.Evaluators.Scores.{CaseScore, Raised, AttemptEvent, evaluation_error, bad_custom_refs}
use traceline.Evaluators.Raw.{Attempt, judged, dedupe_ids, on_missing_result, missing_score}
use traceline.Evaluators.Raw.Consistent.{IsConsistent, judged-IsConsistent}
use traceline.Evaluators.ByType.{traced, case_from_spec}
use traceline.Evaluators.Attempts.{slot, validate_events}
use traceline.Evaluators.Custom.{
  Artifact, or_flag, is_custom_caught, custom_score, or_custom_error, custom_events, custom_ids,
  custom_result, version_result, score_custom,
}

-- The id is one of the ids.
abbrev pub IsListed : List String → String → Type 0
IsListed ids i = elem_str i ids ≡ true

all-IsListed :
    (ids refs : List String) → all (λ r. elem_str r ids) refs ≡ true → All (IsListed ids) refs
all-IsListed ids [] h = tt
all-IsListed ids (r ∷ refs) h = go (elem_str r ids) refl h (all-IsListed ids refs)
  where
    go :
        (b : Bool)
        → elem_str r ids ≡ b
        → b && all (λ x. elem_str x ids) refs ≡ true
        → (all (λ x. elem_str x ids) refs ≡ true → All (IsListed ids) refs)
        → All (IsListed ids) (r ∷ refs)
    go true e k rest = (e, rest k)
    go false e k rest = cc

module _ {F : Type 0} where
  -- Consistent with the metric and the attempt, with evidence among the ids only.
  abbrev pub IsLinkedScore : Metric F → Attempt → List String → CaseScore F → Type 0
  IsLinkedScore m a ids s = IsConsistent m a s × All (IsListed ids) s.evidence_event_ids

  step :
      {A : Type 0} (m : Metric F) (a : Attempt) (ids : List String) (r : Result Raised A)
      (f : A → Result Raised (CaseScore F))
      → ((x : A) → Ensures (IsLinkedScore m a ids) (f x))
      → Ensures (IsLinkedScore m a ids) (r >>= f)
  step m a ids r f k = Ensures-then (IsLinkedScore m a ids) r f k

  refs_step :
      (m : Metric F) (a : Attempt) (ids refs : List String)
      (f : Unit {0} → Result Raised (CaseScore F))
      → (All (IsListed ids) refs → Ensures (IsLinkedScore m a ids) (f tt))
      → Ensures
          (IsLinkedScore m a ids)
          (check (all (λ r. elem_str r ids) refs) (evaluation_error bad_custom_refs) >>= f)
  refs_step m a ids refs f k = go (all (λ r. elem_str r ids) refs) (all-IsListed ids refs)
    where
      go :
          (b : Bool)
          → (b ≡ true → All (IsListed ids) refs)
          → Ensures (IsLinkedScore m a ids) (check b (evaluation_error bad_custom_refs) >>= f)
      go true h = k (h refl)
      go false h = tt

  judged-IsLinkedScore :
      (m : Metric F) (a : Attempt) (ids refs : List String) (score : F) (passed : Bool)
      (raw : Value F)
      → All (IsListed ids) refs
      → IsLinkedScore m a ids (judged m a score passed (dedupe_ids refs) raw)
  unfolding dedupe_ids dedupe
  judged-IsLinkedScore m a ids refs score passed raw h =
      (judged-IsConsistent m a score passed (dedupe refs) raw, All-dedupe (IsListed ids) [] refs h)

module _ (py : Python) (celpy : Cel py.Float) (ar : Arithmetic py.Float)
    (to_text : Value py.Float → String) where
  open py use {Float}

  custom_score-IsLinkedScore :
      (m : Metric Float) (a : Attempt) (ids : List String) (threshold : Float)
      (result : Value Float)
      → Ensures (IsLinkedScore m a ids) (custom_score py celpy ar to_text m a ids threshold result)
  unfolding custom_score
  custom_score-IsLinkedScore m a ids threshold result =
      search (step, refs_step, judged-IsLinkedScore) depth 20

  custom_result-IsLinkedScore :
      (artifact : Artifact Float) (c : TestCase Float) (m : Metric Float) (a : Attempt)
      (selected : List (TraceEvent Float)) (given : List String) (threshold : Float)
      (output : Value Float)
      → Ensures
          (IsLinkedScore m a (custom_ids py celpy ar to_text given selected))
          (custom_result py celpy ar to_text artifact c m a selected given threshold output)
  unfolding custom_result
  custom_result-IsLinkedScore artifact c m a selected given threshold output =
      search (step, custom_score-IsLinkedScore)

  or_custom_error-IsLinkedScore :
      (m : Metric Float) (a : Attempt) (ids : List String) (r : Result Raised (CaseScore Float))
      → Ensures (IsLinkedScore m a ids) r
      → Ensures (IsLinkedScore m a ids) (or_custom_error py celpy ar to_text m a r)
  or_custom_error-IsLinkedScore m a ids (ok s) h = h
  or_custom_error-IsLinkedScore m a ids (err e) h = elim (Bool-cases (is_custom_caught e)) [
    | inl caught ↦ rw (caught, Ensures) ((refl, refl, refl, refl, refl, (refl, refl)), tt)
    | inr loose ↦ rw (loose, Ensures) tt
  ]

  version_result-IsLinkedScore :
      (m : Metric Float) (a : Attempt) (ids : List String) (version : String)
      (r : Result Raised (CaseScore Float))
      → Ensures (IsLinkedScore m a ids) r
      → Ensures (IsLinkedScore m a ids) (version_result py celpy ar to_text version r)
  version_result-IsLinkedScore m a ids version (ok s) h = h
  version_result-IsLinkedScore m a ids version (err e) h = tt

  missing-IsLinkedScore :
      (m : Metric Float) (a : Attempt) (ids : List String)
      → Ensures (IsLinkedScore m a ids) (on_missing_result py ar to_text m a)
  unfolding on_missing_result
  missing-IsLinkedScore m a ids = go m.target.on_missing
    where
      go :
          (o : Option OnMissing)
          → Ensures {E = Raised} (IsLinkedScore m a ids) (missing_score py ar to_text m a o)
      go none = tt
      go (some pass) = ((refl, refl, refl, refl, refl, (refl, refl)), tt)
      go (some skip) = ((refl, refl, refl, refl, refl, (refl, refl)), tt)
      go (some fail) = ((refl, refl, refl, refl, refl, (refl, refl)), tt)

  either_score :
      (m : Metric Float) (a : Attempt) (ids : List String) (b : Bool)
      (x y : Result Raised (CaseScore Float))
      → Ensures (IsLinkedScore m a ids) x
      → Ensures (IsLinkedScore m a ids) y
      → Ensures (IsLinkedScore m a ids) (if b then x else y)
  either_score m a ids true x y h k = h
  either_score m a ids false x y h k = k

  -- Linked to the evidence ids that were given or, if none were, to those of the selected events.
  abbrev pub IsSelectedScore :
      Metric Float → Attempt → List String → List (TraceEvent Float) → CaseScore Float → Type 0
  IsSelectedScore m a given events s =
      (selected : List (TraceEvent Float)) × (custom_events py celpy ar to_text m events
        ≡ ok selected)
      × IsLinkedScore m a (custom_ids py celpy ar to_text given selected) s

  selected_step :
      (m : Metric Float) (a : Attempt) (given : List String) (events : List (TraceEvent Float))
      (f : List (TraceEvent Float) → Result Raised (CaseScore Float))
      → ((sel : List (TraceEvent Float))
          → Ensures (IsLinkedScore m a (custom_ids py celpy ar to_text given sel)) (f sel))
      → Ensures
          (IsSelectedScore m a given events)
          (custom_events py celpy ar to_text m events >>= f)
  selected_step m a given events f k = go (custom_events py celpy ar to_text m events) refl
    where
      with_selected :
          (sel : List (TraceEvent Float)) (r : Result Raised (CaseScore Float))
          → custom_events py celpy ar to_text m events ≡ ok sel
          → Ensures (IsLinkedScore m a (custom_ids py celpy ar to_text given sel)) r
          → Ensures (IsSelectedScore m a given events) r
      with_selected sel (ok s) e h = (sel, e, h)
      with_selected sel (err r) e h = tt

      go :
          (r : Result Raised (List (TraceEvent Float)))
          → custom_events py celpy ar to_text m events ≡ r
          → Ensures (IsSelectedScore m a given events) (r >>= f)
      go (ok sel) e = with_selected sel (f sel) e (k sel)
      go (err x) e = tt

  -- Where score_custom returns a score, whatever the artifact returned or raised, it names the metric
  -- and the case and carries the flags it was called with, says by `passed` whether its status is PASS,
  -- has a score exactly for PASS and FAIL, and refers only to the evidence ids that were given or, if
  -- none were, to those of the selected events.
  pub score_custom-IsLinkedScore :
      (spec : EvaluationSpec Float) (id : String) (events : List (AttemptEvent Float))
      (m : Metric Float) (artifact : Artifact Float) (version : String) (threshold : Float)
      (given : List String) (output : Value Float) (attempt : ℤ) (override : Bool)
      (provisional : Option Bool)
      → Ensures
          (IsSelectedScore m
            (slot id attempt override (or_flag py celpy ar to_text m.provisional provisional))
            given
            (traced events))
          (score_custom py celpy ar to_text spec id events m artifact version threshold given output
            attempt override provisional)
  unfolding score_custom
  score_custom-IsLinkedScore spec id events m artifact version threshold given output attempt
        override flag =
      let a = slot id attempt override (or_flag py celpy ar to_text m.provisional flag) in
      Ensures-then (IsSelectedScore m a given (traced events)) (validate_events id events) _ λ u.
        Ensures-then (IsSelectedScore m a given (traced events)) (case_from_spec spec.cases id) _
          λ c. selected_step m a given (traced events) _ (λ sel.
            search
              (
                either_score, missing-IsLinkedScore, version_result-IsLinkedScore,
                or_custom_error-IsLinkedScore, custom_result-IsLinkedScore,
              )
              depth 12)
