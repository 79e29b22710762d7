-- ===== src/TraceRules/Matching.antt =====
-- The match resolution of trace_rules.py. The cache of compiled predicates only saves time and is
-- left out: compiling a text again gives the same predicate.
use Prim.Native.String.{String}
use traceline.Common.{
  ℕ, ◌-◌, Bool, true, false, not, ◌&&◌, ◌||◌, Option, none, some, List, [], ◌∷◌, Result, ok, err,
  ◌>>=◌, ltb, str_eq, filter_result, check, if◌then◌else◌,
}
use traceline.Common.Int.{ℤ}
use traceline.Values.{
  DateTime, Value, bool, int, str, null, dict, Entries, entry_get, or_null, Python, py_eq, of_bool,
}
use traceline.Events.{type_value, Source, runner, source_value, TraceEvent, opt_str}
use traceline.Predicate.Tokens.{CompileError, syntax, semantic}
use traceline.Predicate.Eval.{PyError}
use traceline.Predicate.Compile.{
  Cel, Language, prototype, cel, needs_cel, compile, evaluate_predicate,
}
use traceline.TraceRules.Order.{instant, one_kind, of_one_kind, key_before, all_one_kind}
pub use traceline.TraceRules.Errors.{
  Reason, nesting_too_deep, not_an_object, unknown_op, bad_source, bad_where, no_rules, no_rule,
  no_consequent, no_match, no_assert, bad_window, no_ms, no_anchor, RuleError, rule_error,
  clock_error, python_error,
}

module _ (py : Python) (celpy : Cel py.Float) where
  open py use {Float, within_millis}

  abbrev pub Event : Type 0
  Event = TraceEvent Float

  -- node.get(key), None where it is absent
  unfoldable pub get : Entries Float → String → Value Float
  unfolding entry_get
  get node key = or_null (entry_get key node)

  -- isinstance(v, int), with its number: a bool is an int
  abbrev pub as_int : Value Float → Option ℤ
  as_int (int n) = some n
  as_int (bool b) = some (of_bool py b)
  as_int _ = none

  -- isinstance(v, dict)
  abbrev pub as_dict : Value Float → Option (Entries Float)
  as_dict (dict es) = some es
  as_dict _ = none

  abbrev pub require : {A : Type 0} → Reason → Option A → Result RuleError A
  require r none = err (rule_error r)
  require r (some a) = ok a

  -- The optional 'within_ms' filter.
  abbrev pub window_of : Value Float → Result RuleError (Option ℤ)
  window_of null = ok none
  window_of v = require bad_window (as_int v) >>= λ n. ok (some n)

  -- min() over the timestamps, from the least so far.
  unfoldable pub min_from : DateTime → List Event → Result RuleError DateTime
  unfolding one_kind
  min_from least [] = ok least
  min_from least (e ∷ es) =
      of_one_kind e.timestamp least (ltb (instant e.timestamp) (instant least)) >>= λ b.
      min_from (if b then e.timestamp else least) es

  -- The earliest timestamp, if there is an event.
  unfoldable pub attempt_start : List Event → Result RuleError (Option DateTime)
  unfolding min_from
  attempt_start [] = ok none
  attempt_start (e ∷ es) = min_from e.timestamp es >>= λ t. ok (some t)

  -- |a - b|
  abbrev pub distance : ℕ → ℕ → ℕ
  distance a b = if ltb a b then b - a else a - b

  unfoldable pub within_window : Option DateTime → ℤ → Event → Result RuleError Bool
  unfolding one_kind
  within_window none ms e = ok false
  within_window (some t) ms e =
      of_one_kind e.timestamp t (within_millis (distance (instant e.timestamp) (instant t)) ms)

  -- `anchor_ts` of `_match`
  abbrev pub anchor_ts : Option Event → List Event → Result RuleError (Option DateTime)
  unfolding attempt_start
  anchor_ts (some a) es = ok (some a.timestamp)
  anchor_ts none es = attempt_start es

  abbrev pub is_null : Value Float → Bool
  is_null null = true
  is_null _ = false

  abbrev pub from_compile : {A : Type 0} → Result CompileError A → Result RuleError A
  from_compile (ok a) = ok a
  from_compile (err (syntax _ _)) = err (rule_error bad_where)
  from_compile (err (semantic _)) = err (rule_error bad_where)
  from_compile (err _) = err python_error

  abbrev pub from_python : {A : Type 0} → Result PyError A → Result RuleError A
  from_python (ok a) = ok a
  from_python (err _) = err python_error

  abbrev pub language_of : String → Language
  language_of s = if needs_cel s then cel else prototype

  -- `where is None`, or the compiled predicate on the event. A `where` that is no text is Python's
  -- TypeError, from looking it up in the cache or a marker in it.
  unfoldable pub where_holds : Value Float → Event → Result RuleError Bool
  unfolding compile evaluate_predicate
  where_holds null e = ok true
  where_holds (str s) e = from_compile (compile py celpy (language_of s) s) >>= λ p.
      from_python (evaluate_predicate py celpy p e)
  where_holds _ e = err python_error

  abbrev pub not_runner : Source → Bool
  not_runner runner = false
  not_runner _ = true

  -- The keys of a match object.
  pub record Criteria : Type 0 where
    pub event : Value Float
    pub tool : Value Float
    pub when : Value Float
    pub source : Value Float

  abbrev pub criteria : Entries Float → Criteria
  criteria m = record {
    event = get m "event";
    tool = get m "tool";
    when = get m "where";
    source = get m "source";
  }

  -- The tests of the loop that need no predicate: type, source, tool.
  unfoldable pub selects : Criteria → Event → Bool
  unfolding py_eq type_value source_value
  selects c e =
      py_eq py (str (type_value e.type)) c.event
      && ((if is_null c.source
            then not_runner e.source
            else py_eq py (str (source_value e.source)) c.source)
          && (is_null c.tool || py_eq py (opt_str e.tool) c.tool))

  -- One round of the loop of `_match`.
  unfoldable pub matches : Criteria → Event → Result RuleError Bool
  unfolding selects where_holds
  matches c e = if selects c e then where_holds c.when e else ok false

  abbrev pub keep_if : Event → Bool → List Event → List Event
  keep_if e b es = if b then e ∷ es else es

  unfoldable pub match_loop : Criteria → List Event → Result RuleError (List Event)
  unfolding matches
  match_loop c [] = ok []
  match_loop c (e ∷ es) = matches c e >>= λ b. match_loop c es >>= λ out. ok (keep_if e b out)

  abbrev pub is_source : Value Float → Bool
  is_source (str s) = str_eq s "proxy" || (str_eq s "adapter" || str_eq s "runner")
  is_source _ = false

  -- A stable sort by the keys, by insertion behind the equal ones.
  unfoldable pub insert_event : Event → List Event → List Event
  insert_event e [] = e ∷ []
  insert_event e (x ∷ xs) =
      let rest = insert_event e xs in if key_before e x then e ∷ (x ∷ xs) else x ∷ rest

  unfoldable pub sort_from : List Event → List Event → List Event
  unfolding insert_event key_before
  sort_from out [] = out
  sort_from out (e ∷ es) = sort_from (insert_event e out) es

  -- out.sort(key=_fallback_key). To fix an order a sort compares all neighbours in it, and so a naive
  -- with an aware timestamp where it has both.
  unfoldable pub sort_events : List Event → Result RuleError (List Event)
  unfolding all_one_kind sort_from
  sort_events out = check (all_one_kind out) clock_error >>= λ _. ok (sort_from [] out)

  unfoldable pub in_window :
      Option ℤ → Option Event → List Event → List Event → Result RuleError (List Event)
  unfolding within_window attempt_start
  in_window none anchor events out = ok out
  in_window (some ms) anchor events out =
      anchor_ts anchor events >>= λ t. filter_result (within_window t ms) out

  -- `_match`, on the match object's entries
  unfoldable pub match_events :
      Entries Float → List Event → Option Event → Option ℤ → Result RuleError (List Event)
  unfolding match_loop in_window sort_events
  match_events m events anchor window =
      if not (is_null (get m "source")) && not (is_source (get m "source"))
      then err (rule_error bad_source)
      else (match_loop (criteria m) events >>= λ out.
          in_window window anchor events out >>= λ kept. sort_events kept)
