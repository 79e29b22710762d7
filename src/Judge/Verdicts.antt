-- ===== src/Judge/Verdicts.antt =====
-- The verdicts and the judges of judge.py. A judge's model and its binding do not enter its verdicts.
use traceline.Common.{
  String, Bool, true, List, [], ◌∷◌, Option, none, some, Result, ok, err, ◌>>=◌, check, str_eq,
  if◌then◌else◌,
}
use traceline.Values.{Value, Python}
use traceline.Spec.Model.{Metric, TestCase}
use traceline.Evaluators.Numbers.{Arithmetic, Number, as_number, between}
use traceline.Evaluators.Scores.{Raised, judgment_error}

pub record JudgeVerdict (F : Type 0) : Type 0 where
  pub score : Number F
  pub evidence_refs : List String

-- JudgeEvaluator.evaluate
abbrev pub Judge : Type 0 → Type 0
Judge F = Metric F → TestCase F → List String → Result Raised (JudgeVerdict F)

module _ (py : Python) (ar : Arithmetic py.Float) where
  open py use {Float}

  abbrev pub scale_fits : Option (Float × Float) → Number Float → Bool
  scale_fits none n = true
  scale_fits (some (lo, hi)) n = between py ar lo n hi

  -- The construction of a JudgeVerdict, from its score, its scale and its evidence.
  unfoldable pub judge_verdict :
      Value Float → Option (Float × Float) → List String → Result Raised (JudgeVerdict Float)
  judge_verdict score scale refs = elim (as_number score) [
    | none ↦ err judgment_error
    | some n ↦ check (scale_fits scale n) judgment_error >>= λ _.
        ok (record { score = n; evidence_refs = refs })
  ]

  unfoldable pub unconfigured_judge : Judge Float
  unconfigured_judge m c evidence = err judgment_error

  -- NoopJudge, with the score it is made with.
  unfoldable pub noop_judge : Float → Judge Float
  unfolding judge_verdict
  noop_judge score m c evidence = judge_verdict (Value.float score) none evidence

  abbrev pub scripted_score : List (String × Value Float) → Value Float → String → Value Float
  scripted_score [] default id = default
  scripted_score ((k, v) ∷ scores) default id =
      let rest = scripted_score scores default id in if str_eq k id then v else rest

  -- ScriptedJudge, with its scores by case and the default.
  unfoldable pub scripted_judge : List (String × Value Float) → Float → Judge Float
  unfolding judge_verdict
  scripted_judge scores default m c evidence =
      judge_verdict (scripted_score scores (Value.float default) c.case_id) none evidence
