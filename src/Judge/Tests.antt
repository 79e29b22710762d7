-- ===== src/Judge/Tests.antt =====
-- Runs of the registry of judge.py.
use traceline.Common.{ℕ, none, ◌≡◌, ◌≢◌, refl, ap, eq_iff, ◌↔◌, true, false, List, [], ◌∷◌, arith}
use traceline.Common.Int.{pos, negsuc}
use traceline.Spec.Model.{JudgeBinding}
use traceline.Judge.Readiness.{kappa_below, sufficient}
use traceline.Judge.Registry.{get, record_label, provisional, lookup}
use traceline.Judge.Calls.{
  RegistryCall, label_call, kappa_call, run_call, run_calls, provisional_iff, run_call-others,
}
use traceline.Evaluators.Samples.{counting, shipped, binding_of}

-- Three labels, then a kappa of 6.
abbrev calibration : List (RegistryCall ℕ)
calibration = label_call (binding_of "a") (pos 3) ∷ (kappa_call (binding_of "a") 6 ∷ [])

provisional_iff_example :
    (provisional counting shipped (binding_of "a") (run_calls counting shipped calibration [])
      ≡ false)
    ↔ ((kappa_below counting
            (get counting shipped
              (binding_of "a")
              (run_calls counting shipped calibration [])).0.kappa_reset
            (get counting shipped
              (binding_of "a")
              (run_calls counting shipped calibration [])).0.kappa
          ≡ false)
        × (sufficient counting
              (get counting shipped (binding_of "a") (run_calls counting shipped calibration [])).0
            ≡ true))
provisional_iff_example = provisional_iff counting shipped calibration (binding_of "a")

b_is_not_a : binding_of "b" ≢ binding_of "a"
b_is_not_a e = apart ((eq_iff "b" "a").1 (ap (λ (b : JudgeBinding). b.model) e))
  where
    apart : false ≢ true
    apart h = ground arith

run_call-others_example :
    lookup (binding_of "a") (
      run_call counting shipped
        (label_call (binding_of "b") (pos 1))
        (run_calls counting shipped calibration []))
    ≡ lookup (binding_of "a") (run_calls counting shipped calibration [])
run_call-others_example =
    run_call-others counting shipped calibration (label_call (binding_of "b") (pos 1))
      (binding_of "a") b_is_not_a

-- After three labels and a kappa of 6 the binding is calibrated.
calibrates :
    provisional counting shipped (binding_of "a") (run_calls counting shipped calibration [])
    ≡ false
unfolding run_calls provisional
calibrates = refl

-- A count of labels that would fall below 0 is refused.
no_negative_count : (record_label counting shipped (binding_of "a") (negsuc 0) []).0 ≡ none
unfolding record_label
no_negative_count = refl
