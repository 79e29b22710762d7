-- ===== src/TraceRules/Rules.antt =====
-- The operators of trace_rules.py. A node is a Python value, as the JSON of the rule is read; the
-- first argument of `eval_node` is how many depths are left below _MAX_DEPTH.
use Prim.Native.String.{String}
use traceline.Common.{
  ℕ, zero, suc, Bool, true, false, not, ◌||◌, Option, none, some, List, [], ◌∷◌, ◌++◌, Result, ok,
  err, ◌>>=◌, traverse, str_eq, elem_str, filter, filter_result, any, all, is_empty, map, length,
  if◌then◌else◌,
}
use traceline.Values.{Value, str, dict, list, Items, items, Entries, Python}
use traceline.Events.{TraceEvent}
use traceline.Predicate.Compile.{Cel}
use traceline.TraceRules.Order.{key_lt, is_ancestor, precedes, follows}
use traceline.TraceRules.Matching.{
  nesting_too_deep, not_an_object, unknown_op, no_rules, no_rule, no_consequent, no_match,
  no_assert, no_ms, no_anchor, RuleError, rule_error, Event, get, as_int, as_dict, require,
  window_of, match_events,
}

-- TRACE_RULE_OPS
pub data Op : Type 0 where
  for_all exists never exists_before exists_after immediately_precedes count within_ms : Op
  and_op or_op not_op implies : Op

abbrev pub op_of_text : String → Option Op
op_of_text s =
    if str_eq s "for_all"
    then some for_all
    else if str_eq s "exists"
    then some exists
    else if str_eq s "never"
    then some never
    else if str_eq s "exists_before"
    then some exists_before
    else if str_eq s "exists_after"
    then some exists_after
    else if str_eq s "immediately_precedes"
    then some immediately_precedes
    else if str_eq s "count"
    then some count
    else if str_eq s "within_ms"
    then some within_ms
    else if str_eq s "and"
    then some and_op
    else if str_eq s "or"
    then some or_op
    else if str_eq s "not"
    then some not_op
    else if str_eq s "implies"
    then some implies
    else none

pub record RuleResult : Type 0 where
  pub result : Bool
  pub matched : List String
  pub failing : List String
  pub value : Option ℕ

-- _dedupe, behind the ids that were seen
unfoldable pub dedupe_from : List String → List String → List String
dedupe_from seen [] = []
dedupe_from seen (i ∷ ids) = elim (elem_str i seen) [
  | true ↦ dedupe_from seen ids
  | false ↦ i ∷ dedupe_from (i ∷ seen) ids
]

unfoldable pub dedupe : List String → List String
unfolding dedupe_from
dedupe ids = dedupe_from [] ids

-- [i for r in results for i in f(r)]
abbrev pub ids_of : (RuleResult → List String) → List RuleResult → List String
ids_of f [] = []
ids_of f (r ∷ rs) = f r ++ ids_of f rs

abbrev pub both : RuleResult → List String
both r = r.matched ++ r.failing

abbrev pub failed : RuleResult → Bool
failed r = not r.result

-- The result of `_eval_and_or` from those of the rules.
unfoldable pub combine : Bool → List RuleResult → RuleResult
unfolding dedupe
combine is_and rs =
    let result =
      if is_and
      then all (λ (r : RuleResult). r.result) rs
      else any (λ (r : RuleResult). r.result) rs in
    record {
      result = result;
      matched = dedupe (ids_of (λ r. r.matched) rs);
      failing = if result then [] else dedupe (ids_of both (filter failed rs));
      value = none;
    }

unfoldable pub negate : RuleResult → RuleResult
unfolding dedupe
negate r = record {
  result = not r.result;
  matched = r.matched;
  failing = if r.result then [] else dedupe (both r);
  value = none;
}

unfoldable pub imply : RuleResult → RuleResult → RuleResult
unfolding dedupe
imply a b =
    let result = not a.result || b.result in
    record {
      result = result;
      matched = dedupe (a.matched ++ b.matched);
      failing = if result then [] else dedupe (both a ++ both b);
      value = none;
    }

-- _MAX_DEPTH
abbrev pub max_depth : ℕ
max_depth = 100

module _ (py : Python) (celpy : Cel py.Float) where
  open py use {Float}

  abbrev pub Outcome : Type 0
  Outcome = Result RuleError RuleResult

  -- `_eval_node` on a child, with the anchor that it gets.
  abbrev pub Eval : Type 0
  Eval = Value Float → Option (Event py celpy) → Outcome

  abbrev pub ids : List (Event py celpy) → List String
  ids = map (λ (e : TraceEvent Float). e.event_id)

  abbrev pub op_of : Value Float → Option Op
  op_of (str s) = op_of_text s
  op_of _ = none

  -- isinstance(v, list) and v
  abbrev pub as_nonempty : Value Float → Option (List (Value Float))
  as_nonempty (list xs) = if is_empty (items xs) then none else some (items xs)
  as_nonempty _ = none

  -- isinstance(v, list) and len(v) == 1
  abbrev pub as_single : Value Float → Option (Value Float)
  as_single (list (Items.cons v Items.nil)) = some v
  as_single _ = none

  abbrev pub as_rule : Value Float → Option (Value Float)
  as_rule (dict es) = some (dict es)
  as_rule _ = none

  unfoldable pub eval_and_or : Eval → Bool → Entries Float → Option (Event py celpy) → Outcome
  eval_and_or rec is_and node anchor =
      require py celpy no_rules (as_nonempty (get py celpy node "rules")) >>= λ rules.
      traverse (λ r. rec r anchor) rules >>= λ rs. ok (combine is_and rs)

  unfoldable pub eval_not : Eval → Entries Float → Option (Event py celpy) → Outcome
  eval_not rec node anchor =
      require py celpy no_rule (as_rule (get py celpy node "rule")) >>= λ child.
      rec child anchor >>= λ r. ok (negate r)

  unfoldable pub eval_implies : Eval → Entries Float → Option (Event py celpy) → Outcome
  eval_implies rec node anchor =
      require py celpy no_rule (as_rule (get py celpy node "rule")) >>= λ antecedent.
      require py celpy no_consequent (as_single (get py celpy node "rules")) >>= λ consequent.
      rec antecedent anchor >>= λ a. rec consequent anchor >>= λ b. ok (imply a b)

  -- What a rule with a match resolves first: its candidates, under the optional window.
  unfoldable pub candidates :
      Entries Float
      → List (Event py celpy)
      → Option (Event py celpy)
      → Result RuleError (List (Event py celpy))
  candidates node events anchor =
      require py celpy no_match (as_dict py celpy (get py celpy node "match")) >>= λ m.
      window_of py celpy (get py celpy node "within_ms") >>= λ window.
      match_events py celpy m events anchor window

  -- The result of `_eval_for_all` from the candidates and the results of their asserts.
  unfoldable pub quantify : List (Event py celpy) → List RuleResult → RuleResult
  unfolding dedupe
  quantify cs rs =
      let result = all (λ (r : RuleResult). r.result) rs in
      record {
        result = result;
        matched = ids cs;
        failing = if result then [] else dedupe (ids_of both (filter failed rs));
        value = none;
      }

  abbrev pub require_both :
      Option (Entries Float) → Option (Value Float) → Result RuleError (Entries Float × Value Float)
  require_both (some m) (some a) = ok (m, a)
  require_both _ _ = err (rule_error no_assert)

  unfoldable pub eval_for_all :
      Eval → Entries Float → List (Event py celpy) → Option (Event py celpy) → Outcome
  eval_for_all rec node events anchor =
      require_both (as_dict py celpy (get py celpy node "match"))
        (as_rule (get py celpy node "assert"))
      >>= λ (m, assert_rule). window_of py celpy (get py celpy node "within_ms") >>= λ window.
          match_events py celpy m events anchor window >>= λ cs.
          traverse (λ e. rec assert_rule (some e)) cs >>= λ rs. ok (quantify cs rs)

  -- bool(candidates), with their ids
  abbrev pub found : List (Event py celpy) → RuleResult
  found cs = record { result = not (is_empty cs); matched = ids cs; failing = []; value = none }

  unfoldable pub eval_within_ms :
      Entries Float → List (Event py celpy) → Option (Event py celpy) → Outcome
  eval_within_ms node events anchor =
      require py celpy no_ms (as_int py celpy (get py celpy node "ms")) >>= λ ms.
      require py celpy no_ms (as_dict py celpy (get py celpy node "match")) >>= λ m.
      match_events py celpy m events anchor (some ms) >>= λ cs. ok (found cs)

  abbrev pub latest :
      Option (Event py celpy) → Event py celpy → Result RuleError (Option (Event py celpy))
  unfolding key_lt
  latest none e = ok (some e)
  latest (some b) e = key_lt b e >>= λ later. ok (some (if later then e else b))

  -- One round of the loop of `_immediate_predecessors`.
  unfoldable pub better :
      List (Event py celpy)
      → Event py celpy
      → Option (Event py celpy)
      → Event py celpy
      → Result RuleError (Option (Event py celpy))
  unfolding is_ancestor key_lt
  better events anchor best e =
      if str_eq e.event_id anchor.event_id || is_ancestor events anchor e
      then ok best
      else (key_lt e anchor >>= λ before. if before then latest best e else ok best)

  unfoldable pub best_from :
      List (Event py celpy)
      → Event py celpy
      → Option (Event py celpy)
      → List (Event py celpy)
      → Result RuleError (Option (Event py celpy))
  unfolding better
  best_from events anchor best [] = ok best
  best_from events anchor best (e ∷ es) =
      better events anchor best e >>= λ b. best_from events anchor b es

  abbrev pub with_id : String → List (Event py celpy) → List (Event py celpy)
  with_id id = filter (λ (e : TraceEvent Float). str_eq e.event_id id)

  abbrev pub with_best_id : Option (Event py celpy) → List (Event py celpy) → List (Event py celpy)
  with_best_id none cs = []
  with_best_id (some b) cs = with_id b.event_id cs

  abbrev pub predecessors_for :
      Option String
      → List (Event py celpy)
      → List (Event py celpy)
      → Event py celpy
      → Result RuleError (List (Event py celpy))
  unfolding best_from
  predecessors_for (some p) cs events anchor = ok (with_id p cs)
  predecessors_for none cs events anchor =
      best_from events anchor none events >>= λ best. ok (with_best_id best cs)

  unfoldable pub immediate_predecessors :
      List (Event py celpy)
      → List (Event py celpy)
      → Event py celpy
      → Result RuleError (List (Event py celpy))
  unfolding best_from
  immediate_predecessors cs events anchor = predecessors_for anchor.parent_event_id cs events anchor

  -- The candidates of an anchored operator that satisfy it.
  unfoldable pub satisfying :
      Op
      → List (Event py celpy)
      → List (Event py celpy)
      → Event py celpy
      → Result RuleError (List (Event py celpy))
  unfolding precedes follows immediate_predecessors
  satisfying exists_before cs events anchor = filter_result (λ e. precedes events e anchor) cs
  satisfying exists_after cs events anchor = filter_result (λ e. follows events e anchor) cs
  satisfying _ cs events anchor = immediate_predecessors cs events anchor

  unfoldable pub eval_anchored :
      Op → Entries Float → List (Event py celpy) → Option (Event py celpy) → Outcome
  eval_anchored op node events none = err (rule_error no_anchor)
  eval_anchored op node events (some anchor) = candidates node events (some anchor) >>= λ cs.
      satisfying op cs events anchor >>= λ sat. ok (record {
        result = not (is_empty sat);
        matched = ids sat;
        failing = if is_empty sat then ids cs else [];
        value = none;
      })

  -- The results of `exists`, `never` and `count` from the candidates.
  unfoldable pub match_result : Op → List (Event py celpy) → RuleResult
  match_result exists cs = record {
    result = not (is_empty cs);
    matched = ids cs;
    failing = if is_empty cs then ids cs else [];
    value = none;
  }
  match_result never cs = record {
    result = is_empty cs;
    matched = ids cs;
    failing = if is_empty cs then [] else ids cs;
    value = none;
  }
  match_result _ cs = record {
    result = true;
    matched = ids cs;
    failing = [];
    value = some (length cs);
  }

  unfoldable pub eval_match_bearing :
      Op → Entries Float → List (Event py celpy) → Option (Event py celpy) → Outcome
  eval_match_bearing op node events anchor =
      candidates node events anchor >>= λ cs. ok (match_result op cs)

  -- The dispatch of `_eval_node`.
  unfoldable pub dispatch :
      Eval → Op → Entries Float → List (Event py celpy) → Option (Event py celpy) → Outcome
  unfolding eval_and_or eval_not eval_implies eval_for_all eval_within_ms eval_anchored
      eval_match_bearing
  dispatch rec and_op node events anchor = eval_and_or rec true node anchor
  dispatch rec or_op node events anchor = eval_and_or rec false node anchor
  dispatch rec not_op node events anchor = eval_not rec node anchor
  dispatch rec implies node events anchor = eval_implies rec node anchor
  dispatch rec for_all node events anchor = eval_for_all rec node events anchor
  dispatch rec within_ms node events anchor = eval_within_ms node events anchor
  dispatch rec exists_before node events anchor = eval_anchored exists_before node events anchor
  dispatch rec exists_after node events anchor = eval_anchored exists_after node events anchor
  dispatch rec immediately_precedes node events anchor =
      eval_anchored immediately_precedes node events anchor
  dispatch rec op node events anchor = eval_match_bearing op node events anchor

  abbrev pub eval_op :
      Eval → Option Op → Entries Float → List (Event py celpy) → Option (Event py celpy) → Outcome
  eval_op rec none node events anchor = err (rule_error unknown_op)
  eval_op rec (some op) node events anchor = dispatch rec op node events anchor

  abbrev pub eval_dict :
      Eval → Value Float → List (Event py celpy) → Option (Event py celpy) → Outcome
  eval_dict rec (dict node) events anchor =
      eval_op rec (op_of (get py celpy node "op")) node events anchor
  eval_dict rec _ events anchor = err (rule_error not_an_object)

  -- `_eval_node`, with `levels` = _MAX_DEPTH + 1 - depth
  unfoldable pub eval_node : ℕ → List (Event py celpy) → Eval
  unfolding dispatch get
  eval_node zero events node anchor = err (rule_error nesting_too_deep)
  eval_node (suc levels) events node anchor = eval_dict (eval_node levels events) node events anchor

  unfoldable pub evaluate_rule :
      Value Float → List (Event py celpy) → Option (Event py celpy) → Outcome
  unfolding eval_node
  evaluate_rule rule events anchor = eval_node (suc max_depth) events rule anchor
