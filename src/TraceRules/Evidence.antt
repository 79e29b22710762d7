-- ===== src/TraceRules/Evidence.antt =====
-- The evidence links of trace_rules.py: what a rule reports are ids of events of the trace.
use Prim.Native.String.{String}
use text.Mathlib.TextPositions.{eq_refl}
use traceline.Common.{
  ◌||◌, ℕ, zero, suc, ◌≡◌, refl, Bool, true, false, Option, none, some, List, [], ◌∷◌, Ensures,
  Ensures-bind, Ensures-then, Ensures-traverse, traverse, elem_str, All, if◌then◌else◌,
}
use traceline.Values.{Value, dict, Entries, Python}
use traceline.Predicate.Compile.{Cel}
use traceline.TraceRules.Matching.{
  Event, match_events, get, require, no_ms, no_rule, no_rules, no_consequent, as_int, window_of,
  as_dict,
}
use traceline.TraceRules.Rules.{
  Op, for_all, exists, never, exists_before, exists_after, immediately_precedes, within_ms, and_op,
  or_op, not_op, implies, RuleResult, Eval, ids, eval_and_or, eval_not, eval_implies, candidates,
  quantify, satisfying, eval_for_all, eval_within_ms, eval_anchored, match_result,
  eval_match_bearing, dispatch, require_both, as_rule, as_nonempty, as_single, eval_op, eval_node,
  evaluate_rule, max_depth, op_of,
}
use traceline.TraceRules.Reports.{
  Reports, All-if, failing_parts, combine-Reports, negate-Reports, imply-Reports,
}
use traceline.TraceRules.Candidates.{match_events-All, candidates-All, satisfying-All}

module _ (py : Python) (celpy : Cel py.Float) (events : List (Event py celpy)) where
  -- An id of an event of the trace.
  abbrev pub IsEventId : String → Type 0
  IsEventId i = elem_str i (ids py celpy events) ≡ true

  abbrev HasEventId : Event py celpy → Type 0
  HasEventId e = IsEventId e.event_id

  All-ids : (cs : List (Event py celpy)) → All HasEventId cs → All IsEventId (ids py celpy cs)
  All-ids [] h = tt
  All-ids (c ∷ cs) h = (h.0, All-ids cs h.1)

  abbrev IsLinked : RuleResult → Type 0
  IsLinked = Reports IsEventId

  -- An evaluation of children that reports events of the trace.
  abbrev Links : Eval py celpy → Type 0
  Links rec =
      (node : Value py.Float) (anchor : Option (Event py celpy))
      → Ensures IsLinked (rec node anchor)

  ids-if :
      (b : Bool) (cs : List (Event py celpy))
      → All HasEventId cs
      → All IsEventId (if b then ids py celpy cs else [])
  ids-if true cs h = All-ids cs h
  ids-if false cs h = tt

  match_result-IsLinked :
      (op : Op) (cs : List (Event py celpy))
      → All HasEventId cs
      → IsLinked (match_result py celpy op cs)
  unfolding match_result
  match_result-IsLinked exists cs h = (All-ids cs h, ids-if _ cs h)
  match_result-IsLinked never cs h = (All-ids cs h, All-if IsEventId _ _ (All-ids cs h))
  match_result-IsLinked _ cs h = (All-ids cs h, tt)

  quantify-IsLinked :
      (cs : List (Event py celpy)) (rs : List RuleResult)
      → All HasEventId cs
      → All IsLinked rs
      → IsLinked (quantify py celpy cs rs)
  unfolding quantify
  quantify-IsLinked cs rs h k = (All-ids cs h, failing_parts IsEventId _ rs k)

  module _ (all_in : All HasEventId events) where
    match_bearing-IsLinked :
        (op : Op) (node : Entries py.Float) (anchor : Option (Event py celpy))
        → Ensures IsLinked (eval_match_bearing py celpy op node events anchor)
    unfolding eval_match_bearing
    match_bearing-IsLinked op node anchor =
        Ensures-bind IsLinked (All HasEventId) (candidates py celpy node events anchor) _
          (candidates-All py celpy HasEventId node events anchor all_in) (match_result-IsLinked op)

    anchored-IsLinked :
        (op : Op) (node : Entries py.Float) (anchor : Option (Event py celpy))
        → Ensures IsLinked (eval_anchored py celpy op node events anchor)
    unfolding eval_anchored
    anchored-IsLinked op node none = tt
    anchored-IsLinked op node (some a) =
        Ensures-bind IsLinked (All HasEventId) (candidates py celpy node events (some a)) _
          (candidates-All py celpy HasEventId node events (some a) all_in)
          λ cs h.
            Ensures-bind IsLinked (All HasEventId) (satisfying py celpy op cs events a) _
              (satisfying-All py celpy HasEventId op cs events a h)
              λ sat k. (All-ids sat k, ids-if _ cs h)

    within_ms-IsLinked :
        (node : Entries py.Float) (anchor : Option (Event py celpy))
        → Ensures IsLinked (eval_within_ms py celpy node events anchor)
    unfolding eval_within_ms
    within_ms-IsLinked node anchor =
        Ensures-then IsLinked (require py celpy no_ms (as_int py celpy (get py celpy node "ms"))) _
          λ ms.
            Ensures-then IsLinked
              (require py celpy no_ms (as_dict py celpy (get py celpy node "match"))) _
              λ m.
                Ensures-bind IsLinked (All HasEventId)
                  (match_events py celpy m events anchor (some ms)) _
                  (match_events-All py celpy HasEventId m events anchor (some ms) all_in)
                  λ cs h. (All-ids cs h, tt)

    and_or-IsLinked :
        (rec : Eval py celpy) (is_and : Bool) (node : Entries py.Float)
        (anchor : Option (Event py celpy))
        → Links rec
        → Ensures IsLinked (eval_and_or py celpy rec is_and node anchor)
    unfolding eval_and_or
    and_or-IsLinked rec is_and node anchor h =
        Ensures-then IsLinked
          (require py celpy no_rules (as_nonempty py celpy (get py celpy node "rules"))) _
          λ rules.
            Ensures-bind IsLinked (All IsLinked) (traverse (λ r. rec r anchor) rules) _
              (Ensures-traverse IsLinked (λ r. rec r anchor) rules (λ r. h r anchor))
              (combine-Reports IsEventId is_and)

    not-IsLinked :
        (rec : Eval py celpy) (node : Entries py.Float) (anchor : Option (Event py celpy))
        → Links rec
        → Ensures IsLinked (eval_not py celpy rec node anchor)
    unfolding eval_not
    not-IsLinked rec node anchor h =
        Ensures-then IsLinked
          (require py celpy no_rule (as_rule py celpy (get py celpy node "rule"))) _
          λ child.
            Ensures-bind IsLinked IsLinked (rec child anchor) _ (h child anchor)
              (negate-Reports IsEventId)

    implies-IsLinked :
        (rec : Eval py celpy) (node : Entries py.Float) (anchor : Option (Event py celpy))
        → Links rec
        → Ensures IsLinked (eval_implies py celpy rec node anchor)
    unfolding eval_implies
    implies-IsLinked rec node anchor h =
        Ensures-then IsLinked
          (require py celpy no_rule (as_rule py celpy (get py celpy node "rule"))) _
          λ a.
            Ensures-then IsLinked
              (require py celpy no_consequent (as_single py celpy (get py celpy node "rules"))) _
              λ c. Ensures-bind IsLinked IsLinked (rec a anchor) _ (h a anchor) λ ra ha.
                Ensures-bind IsLinked IsLinked (rec c anchor) _ (h c anchor)
                  (λ rc hc. imply-Reports IsEventId ra rc ha hc)

    for_all-IsLinked :
        (rec : Eval py celpy) (node : Entries py.Float) (anchor : Option (Event py celpy))
        → Links rec
        → Ensures IsLinked (eval_for_all py celpy rec node events anchor)
    unfolding eval_for_all
    for_all-IsLinked rec node anchor h =
        Ensures-then IsLinked
          (require_both py celpy (as_dict py celpy (get py celpy node "match"))
            (as_rule py celpy (get py celpy node "assert")))
          _
          λ (m, assert_rule).
            Ensures-then IsLinked (window_of py celpy (get py celpy node "within_ms")) _ λ window.
              Ensures-bind IsLinked (All HasEventId) (match_events py celpy m events anchor window)
                _ (match_events-All py celpy HasEventId m events anchor window all_in)
                λ cs hcs.
                  Ensures-bind IsLinked (All IsLinked) (traverse (λ e. rec assert_rule (some e)) cs)
                    _
                    (Ensures-traverse IsLinked (λ e. rec assert_rule (some e)) cs
                      (λ e. h assert_rule (some e)))
                    (λ rs hrs. quantify-IsLinked cs rs hcs hrs)

    dispatch-IsLinked :
        (rec : Eval py celpy) (op : Op) (node : Entries py.Float) (anchor : Option (Event py celpy))
        → Links rec
        → Ensures IsLinked (dispatch py celpy rec op node events anchor)
    unfolding dispatch
    dispatch-IsLinked rec and_op node anchor h = and_or-IsLinked rec true node anchor h
    dispatch-IsLinked rec or_op node anchor h = and_or-IsLinked rec false node anchor h
    dispatch-IsLinked rec not_op node anchor h = not-IsLinked rec node anchor h
    dispatch-IsLinked rec implies node anchor h = implies-IsLinked rec node anchor h
    dispatch-IsLinked rec for_all node anchor h = for_all-IsLinked rec node anchor h
    dispatch-IsLinked rec within_ms node anchor h = within_ms-IsLinked node anchor
    dispatch-IsLinked rec exists_before node anchor h = anchored-IsLinked exists_before node anchor
    dispatch-IsLinked rec exists_after node anchor h = anchored-IsLinked exists_after node anchor
    dispatch-IsLinked rec immediately_precedes node anchor h =
        anchored-IsLinked immediately_precedes node anchor
    dispatch-IsLinked rec op node anchor h = match_bearing-IsLinked op node anchor

    eval_node-IsLinked : (levels : ℕ) → Links (eval_node py celpy levels events)
    unfolding eval_node
    eval_node-IsLinked zero node anchor = tt
    eval_node-IsLinked (suc levels) (dict node) anchor =
        go (op_of py celpy (get py celpy node "op")) (eval_node-IsLinked levels)
      where
        go :
            (o : Option Op)
            → Links (eval_node py celpy levels events)
            → Ensures IsLinked
                (eval_op py celpy (eval_node py celpy levels events) o node events anchor)
        go none ih = tt
        go (some op) ih = dispatch-IsLinked (eval_node py celpy levels events) op node anchor ih
    eval_node-IsLinked (suc levels) _ anchor = tt

  or_true : (b : Bool) → (b || true) ≡ true
  or_true true = refl
  or_true false = refl

  All-known :
      (es : List (Event py celpy))
      → ((i : String) → elem_str i (ids py celpy es) ≡ true → IsEventId i)
      → All HasEventId es
  All-known [] h = tt
  All-known (e ∷ es) h =
      (h e.event_id (rw (eq_refl e.event_id) refl), All-known es (λ i k. h i (rw k (or_true _))))

-- Whatever rule evaluates, on whatever trace and anchor, its evidence links lead to the trace: each
-- id that it reports as matched or as failing is the id of one of the events.
pub evaluate_rule-IsLinked :
    (py : Python) (celpy : Cel py.Float) (rule : Value py.Float) (events : List (Event py celpy))
    (anchor : Option (Event py celpy))
    → Ensures (Reports (IsEventId py celpy events)) (evaluate_rule py celpy rule events anchor)
unfolding evaluate_rule
evaluate_rule-IsLinked py celpy rule events anchor =
    eval_node-IsLinked py celpy events (All-known py celpy events events (λ i h. h)) (suc max_depth)
      rule anchor
