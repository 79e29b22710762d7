-- ===== src/Evaluators/Raw/Consistent.antt =====
-- The shape of the results that `_score_raw_value` of evaluators.py and its callers make.
use traceline.Common.{
  ℕ, ◌≡◌, refl, sym, subst, arith, String, Bool, true, false, List, Option, none, some, Result, ok,
  err, ◌>>=◌, is_some, Ensures, Ensures-then, if◌then◌else◌,
}
use traceline.Values.{Value, list, items, Python}
use traceline.Spec.Model.{
  ScoringType, binary, numeric_scoring, categorical, Metric, OnMissing, fail, skip, pass,
}
use traceline.Evaluators.Numbers.{Arithmetic}
use traceline.Evaluators.Scores.{CaseStatus, pass_status, fail_status, CaseScore, Raised}
use traceline.Evaluators.Raw.{
  Attempt, judged, error_result, on_missing_result, missing_score, score_list, score_one,
  category_result, score_raw_value, boolean_case_score, safe_items,
}

module _ {F : Type 0} where
  -- `passed` says whether the status is PASS, and a score is there exactly for PASS and FAIL.
  abbrev pub Shape : CaseStatus → Bool → Option F → Type 0
  Shape pass_status passed score = (passed ≡ true) × (is_some score ≡ true)
  Shape fail_status passed score = (passed ≡ false) × (is_some score ≡ true)
  Shape _ passed score = (passed ≡ false) × (is_some score ≡ false)

  -- The score names the metric and the attempt, carries its flags, and has the shape of its status.
  abbrev pub IsConsistent : Metric F → Attempt → CaseScore F → Type 0
  IsConsistent m a s =
      (s.metric_id ≡ m.metric_id)
      × (s.case_id ≡ a.case_id)
      × (s.attempt ≡ a.attempt)
      × (s.on_retry_override ≡ a.on_retry_override)
      × (s.provisional ≡ a.provisional)
      × Shape s.status s.passed s.score

  pub judged-IsConsistent :
      (m : Metric F) (a : Attempt) (score : F) (passed : Bool) (ids : List String) (raw : Value F)
      → IsConsistent m a (judged m a score passed ids raw)
  judged-IsConsistent m a score true ids raw = (refl, refl, refl, refl, refl, (refl, refl))
  judged-IsConsistent m a score false ids raw = (refl, refl, refl, refl, refl, (refl, refl))

  pub error_result-IsConsistent : (m : Metric F) (a : Attempt) → IsConsistent m a (error_result m a)
  unfolding error_result
  error_result-IsConsistent m a = (refl, refl, refl, refl, refl, (refl, refl))

  -- What a chain returns is consistent if its last part's result is.
  pub after :
      {A : Type 0} (m : Metric F) (a : Attempt) (r : Result Raised A)
      (f : A → Result Raised (CaseScore F))
      → ((x : A) → Ensures (IsConsistent m a) (f x))
      → Ensures (IsConsistent m a) (r >>= f)
  after m a r f k = Ensures-then (IsConsistent m a) r f k

  pub raises : (m : Metric F) (a : Attempt) (e : Raised) → Ensures (IsConsistent m a) (err e)
  raises m a e = tt

  -- A chain whose first part is known.
  pub known_first :
      {A : Type 0} (m : Metric F) (a : Attempt) (r : Result Raised A)
      (f : A → Result Raised (CaseScore F)) (x : A)
      → r ≡ ok x
      → Ensures (IsConsistent m a) (f x)
      → Ensures (IsConsistent m a) (r >>= f)
  known_first m a (ok y) f x e h =
      subst (λ z. Ensures (IsConsistent m a) (f z)) (sym (ground (arith, e))) h
  known_first m a (err y) f x e h = tt

  pub either :
      (m : Metric F) (a : Attempt) (b : Bool) (x y : Result Raised (CaseScore F))
      → Ensures (IsConsistent m a) x
      → Ensures (IsConsistent m a) y
      → Ensures (IsConsistent m a) (if b then x else y)
  either m a true x y h k = h
  either m a false x y h k = k

module _ (py : Python) (ar : Arithmetic py.Float) (to_text : Value py.Float → String) where
  open py use {Float}

  pub on_missing_result-IsConsistent :
      (m : Metric Float) (a : Attempt)
      → Ensures (IsConsistent m a) (on_missing_result py ar to_text m a)
  unfolding on_missing_result
  on_missing_result-IsConsistent m a = go m.target.on_missing
    where
      go :
          (o : Option OnMissing)
          → Ensures {E = Raised} (IsConsistent m a) (missing_score py ar to_text m a o)
      go none = tt
      go (some pass) = (refl, refl, refl, refl, refl, (refl, refl))
      go (some skip) = (refl, refl, refl, refl, refl, (refl, refl))
      go (some fail) = (refl, refl, refl, refl, refl, (refl, refl))

  score_list-IsConsistent :
      (t : ScoringType) (m : Metric Float) (a : Attempt) (vs : List (Value Float))
      (raw : Value Float) (ids : List String)
      → Ensures (IsConsistent m a) (score_list py ar to_text t m a vs raw ids)
  unfolding score_list
  score_list-IsConsistent binary m a vs raw ids = search (after, judged-IsConsistent)
  score_list-IsConsistent numeric_scoring m a vs raw ids = search (after, judged-IsConsistent)
  score_list-IsConsistent categorical m a vs raw ids = tt

  category_result-IsConsistent :
      (m : Metric Float) (a : Attempt) (ids : List String) (raw : Value Float) (found : Option ℕ)
      → IsConsistent m a (category_result py ar to_text m a ids raw found)
  category_result-IsConsistent m a ids raw none = search judged-IsConsistent
  category_result-IsConsistent m a ids raw (some n) = search judged-IsConsistent

  score_one-IsConsistent :
      (t : ScoringType) (m : Metric Float) (a : Attempt) (v : Value Float) (ids : List String)
      → Ensures (IsConsistent m a) (score_one py ar to_text t m a v ids)
  unfolding score_one
  score_one-IsConsistent binary m a v ids = search (after, judged-IsConsistent)
  score_one-IsConsistent numeric_scoring m a v ids = search (after, judged-IsConsistent)
  score_one-IsConsistent categorical m a v ids = category_result-IsConsistent m a ids _ _

  pub score_raw_value-IsConsistent :
      (m : Metric Float) (a : Attempt) (v : Value Float) (ids : List String)
      → Ensures (IsConsistent m a) (score_raw_value py ar to_text m a v ids)
  unfolding score_raw_value
  score_raw_value-IsConsistent m a (list vs) ids =
      score_list-IsConsistent m.scoring.type m a (items vs) (list (safe_items vs)) ids
  score_raw_value-IsConsistent m a v ids = score_one-IsConsistent m.scoring.type m a v ids

  pub boolean_case_score-IsConsistent :
      (m : Metric Float) (a : Attempt) (passed : Bool) (ids : List String)
      → Ensures (IsConsistent m a) (boolean_case_score py ar to_text m a passed ids)
  unfolding boolean_case_score
  boolean_case_score-IsConsistent m a passed ids =
      search (either, judged-IsConsistent, score_raw_value-IsConsistent)
