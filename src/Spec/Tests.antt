-- ===== src/Spec/Tests.antt =====
-- Rules that the validators of spec.py accept, and their runs.
use traceline.Common.{ℕ, ◌≡◌, refl, true, none, [], ◌∷◌, ok}
use traceline.Values.{str, dict, Entries, end, entry}
use traceline.TraceRules.Rules.{evaluate_rule}
use traceline.Spec.Rules.{validate_trace_rule_body}
use traceline.Spec.Rules.Late.{RaisesLate}
use traceline.Spec.Rules.Sound.{has_no_implies, validated_rule-RaisesLate}
use traceline.Evaluators.Samples.{counting, no_celpy, call_of}
use traceline.Evaluators.ByType.{traced}
use traceline.Common.Int.{pos}

-- {"op": "exists", "match": {"event": "tool_call"}}
abbrev some_call : Entries ℕ
some_call =
    entry "op" (str "exists") (entry "match" (dict (entry "event" (str "tool_call") end)) end)

accepts : validate_trace_rule_body some_call ≡ ok tt
unfolding validate_trace_rule_body
accepts = refl

plain : has_no_implies 101 (dict some_call) ≡ true
unfolding has_no_implies
plain = refl

validated_rule-RaisesLate_example :
    RaisesLate
      (evaluate_rule counting no_celpy (dict some_call) (traced (call_of (pos 0) ∷ [])) none)
validated_rule-RaisesLate_example =
    validated_rule-RaisesLate counting no_celpy some_call (traced (call_of (pos 0) ∷ [])) none
      accepts plain
