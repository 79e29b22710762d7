-- ===== src/TraceRules/Tests.antt =====
-- Traces of a few events, and runs of the rules of trace_rules.py on them.
use traceline.Common.{
  ℕ, ◌≤◌, ◌≡◌, ◌≢◌, ◌↔◌, ◌⊎◌, inr, ok, refl, String, true, false, Option, none, some, List, [], ◌∷◌,
  err, filter, Ensures,
}
use traceline.Common.Int.{pos}
use traceline.Values.{Value, str, dict, Entries, end, entry, Python, naive, aware}
use traceline.Events.{TraceEvent, EventType, tool_call, tool_result, llm_call, proxy}
use traceline.Predicate.Compile.{Cel}
use traceline.Predicate.Tokens.{syntax, empty_predicate}
use traceline.TraceRules.Order.{one_kind, is_ancestor, precedes, follows, count_ids, parent_of}
use traceline.TraceRules.Matching.{clock_error, criteria, in_window, match_events, get}
use traceline.TraceRules.Rules.{evaluate_rule}
use traceline.TraceRules.Causality.{Earlier, Chain, is_ancestor_iff, precedes_order, SameKey}
use traceline.TraceRules.Sorted.{IsSorted, passes, match_events-IsSorted_perm}
use traceline.TraceRules.Reports.{Reports}
use traceline.TraceRules.Evidence.{IsEventId, evaluate_rule-IsLinked}
use mathlib.Core.List.{Perm}

-- A runtime with no floats but one, no conversions and no classes of characters.
abbrev bare : Python
bare = record {
  Float = Unit {0};
  float_eq = λ x y. true;
  float_lt = λ x y. false;
  int_float_eq = λ n x. false;
  int_float_lt = λ n x. true;
  float_int_lt = λ x n. false;
  to_int = λ s. none;
  to_float = λ s. none;
  chr = λ n. "n";
  from_iso_format = λ s. none;
  within_millis = λ d ms. true;
  is_digit = λ c. false;
  is_alpha = λ c. false;
  is_blank = λ c. false;
  is_alnum = λ c. false;
}

abbrev no_cel : Cel (Unit {0})
no_cel = record {
  Program = Unit {0};
  compile_cel = λ s. err (syntax 0 empty_predicate);
  run = λ p e. false;
}

abbrev event_of : String → EventType → ℕ → ℕ → Option String → Option String → TraceEvent (Unit {0})
event_of id type time seq parent tool = record {
  event_id = id;
  type = type;
  source = proxy;
  timestamp = aware time;
  sequence = pos seq;
  parent_event_id = parent;
  provider_request_id = none;
  tool = tool;
  cost = none;
  redaction_state = record { status = "clean"; rules = [] };
  payload = none;
}

-- A call of the model, its tool call, and the tool's result, whose clock ran behind.
abbrev model_call : TraceEvent (Unit {0})
model_call = event_of "m" llm_call 10 1 none none

abbrev search_call : TraceEvent (Unit {0})
search_call = event_of "c" tool_call 20 2 (some "m") (some "search")

abbrev search_result : TraceEvent (Unit {0})
search_result = event_of "r" tool_result 15 3 (some "c") (some "search")

abbrev trace : List (TraceEvent (Unit {0}))
trace = search_result ∷ search_call ∷ model_call ∷ []

-- {"event": "tool_call"}
abbrev calls : Entries (Unit {0})
calls = entry "event" (str "tool_call") end

-- {"op": "exists", "match": {"event": "tool_call"}}
abbrev some_call : Value (Unit {0})
some_call = dict (entry "op" (str "exists") (entry "match" (dict calls) end))

is_ancestor_iff_example :
    (is_ancestor trace model_call search_result ≡ true)
    ↔ ((n : ℕ) × (n ≤ count_ids trace) × Chain trace "m" n (parent_of trace search_result))
is_ancestor_iff_example = is_ancestor_iff trace model_call search_result

precedes_order_example :
    ((precedes trace search_call search_result ≡ ok true) ↔ (
      (is_ancestor trace search_call search_result ≡ true)
      ⊎ ((is_ancestor trace search_result search_call ≡ false)
          × (one_kind (aware 20) (aware 15) ≡ true)
          × Earlier search_call search_result)))
    × ((precedes trace search_call search_result ≡ err clock_error) ↔ (
        (is_ancestor trace search_call search_result ≡ false)
        × (is_ancestor trace search_result search_call ≡ false)
        × (one_kind (aware 20) (aware 15) ≡ false)))
    × ((precedes trace search_call search_result ≢ ok true)
        ⊎ (precedes trace search_result search_call ≢ ok true))
    × ((precedes trace search_call search_result ≡ ok true)
        ⊎ (precedes trace search_result search_call ≡ ok true)
        ⊎ SameKey search_call search_result
        ⊎ (precedes trace search_call search_result ≡ err clock_error))
    × (follows trace search_call search_result ≡ precedes trace search_result search_call)
unfolding is_ancestor
precedes_order_example = precedes_order trace search_call search_result (inr refl)

match_events-IsSorted_perm_example :
    IsSorted bare no_cel (search_call ∷ [])
    × ((kept : List (TraceEvent (Unit {0}))) × (in_window bare no_cel none none trace
            (filter (passes bare no_cel (criteria bare no_cel calls)) trace)
          ≡ ok kept)
        × Perm (search_call ∷ []) kept)
unfolding match_events get
match_events-IsSorted_perm_example =
    match_events-IsSorted_perm bare no_cel calls trace none none {out = search_call ∷ []} refl

-- A naive call among the others.
abbrev mixed_trace : List (TraceEvent (Unit {0}))
mixed_trace = (record search_call { timestamp = naive 1 }) ∷ trace

-- A match of all calls cannot be sorted.
mixed_match : match_events bare no_cel calls mixed_trace none none ≡ err clock_error
unfolding match_events get
mixed_match = refl

evaluate_rule-IsLinked_example :
    Ensures (Reports (IsEventId bare no_cel trace)) (evaluate_rule bare no_cel some_call trace none)
evaluate_rule-IsLinked_example = evaluate_rule-IsLinked bare no_cel some_call trace none
