-- ===== src/Predicate/Eval.antt =====
-- The three-valued evaluation of predicates.py. A comparison of a naive with an aware datetime
-- raises Python's TypeError, so evaluation is fallible.
use Prim.Native.Nat.{Ordering}
use traceline.Common.{
  String, Bool, true, false, not, ◌&&◌, ◌||◌, Option, none, some, List, [], ◌∷◌, Result, ok, err,
  ◌>>=◌, str_eq, str_lt, if◌then◌else◌,
}
use traceline.Common.Int.{eqb_ℤ, ltb_ℤ}
use traceline.Values.{
  DateTime, datetime_eq, datetime_lt, Value, bool, int, float, str, null, datetime, list, dict,
  model, missing, unknown, entry_get, Python, py_eq,
}
use traceline.Events.{TraceEvent, cost_value, redaction_value, payload_value, opt_str}
use traceline.Predicate.Syntax.{
  CompareOp, eq, ne, lt, le, gt, ge, Node, literal, path, compare, and_node, or_node, not_node,
}

pub data PyError : Type 0 where
  type_error : PyError

module _ (py : Python) where
  open py use {Float, float_eq, float_lt, int_float_eq, int_float_lt, float_int_lt, from_iso_format}

  -- getattr(event, name, MISSING), on the fields that a path may root at
  unfoldable pub attribute : TraceEvent Float → String → Value Float
  attribute e name =
      if str_eq name "payload"
      then payload_value e.payload
      else if str_eq name "cost"
      then cost_value e.cost
      else if str_eq name "timestamp"
      then datetime e.timestamp
      else if str_eq name "provider_request_id"
      then opt_str e.provider_request_id
      else if str_eq name "parent_event_id"
      then opt_str e.parent_event_id
      else if str_eq name "redaction_state"
      then redaction_value e.redaction_state
      else missing

  abbrev pub or_missing : Option (Value Float) → Value Float
  or_missing none = missing
  or_missing (some v) = v

  unfoldable pub resolve_segment : Value Float → String → Value Float
  resolve_segment (dict es) seg = or_missing (entry_get seg es)
  resolve_segment (model c es) seg = or_missing (entry_get seg es)
  resolve_segment _ seg = missing

  unfoldable pub resolve_path : Value Float → List String → Value Float
  unfolding resolve_segment entry_get
  resolve_path v [] = v
  resolve_path missing (seg ∷ segs) = missing
  resolve_path v (seg ∷ segs) = resolve_path (resolve_segment v seg) segs

  unfoldable pub path_value : List String → TraceEvent Float → Value Float
  unfolding attribute resolve_path
  path_value [] e = missing
  path_value (name ∷ segs) e = resolve_path (attribute e name) segs

  abbrev pub parsed_eq : DateTime → Option DateTime → Bool
  parsed_eq a none = false
  parsed_eq a (some b) = datetime_eq a b

  -- The clauses follow the tests of `_typed_eq` in their order.
  unfoldable pub typed_eq : Value Float → Value Float → Bool
  unfolding py_eq
  typed_eq (bool a) (bool b) = if a then b else not b
  typed_eq (int n) (int m) = eqb_ℤ n m
  typed_eq (int n) (float x) = int_float_eq n x
  typed_eq (float x) (int n) = int_float_eq n x
  typed_eq (float x) (float y) = float_eq x y
  typed_eq (datetime a) (str s) = parsed_eq a (from_iso_format s)
  typed_eq (str s) (datetime b) = parsed_eq b (from_iso_format s)
  typed_eq (str s) (str t) = str_eq s t
  typed_eq null null = true
  typed_eq (datetime a) (datetime b) = datetime_eq a b
  typed_eq (list xs) (list ys) = py_eq py (list xs) (list ys)
  typed_eq (dict xs) (dict ys) = py_eq py (dict xs) (dict ys)
  typed_eq (model c xs) (model d ys) = py_eq py (model c xs) (model d ys)
  typed_eq missing missing = true
  typed_eq unknown unknown = true
  typed_eq _ _ = false

  -- (a > b) - (a < b), from the two tests
  abbrev pub sign : Bool → Bool → Ordering
  sign true false = Ordering.gt
  sign false true = Ordering.lt
  sign _ _ = Ordering.eq

  abbrev pub datetime_order : DateTime → DateTime → Result PyError (Option Ordering)
  datetime_order a b = elim (datetime_lt b a) [
    | none ↦ err type_error
    | some g ↦ elim (datetime_lt a b) [ none ↦ err type_error | some l ↦ ok (some (sign g l)) ]
  ]

  abbrev pub parsed_order :
      (DateTime → Result PyError (Option Ordering))
      → Option DateTime
      → Result PyError (Option Ordering)
  parsed_order f none = ok none
  parsed_order f (some d) = f d

  -- `none` is UNKNOWN
  unfoldable pub order : Value Float → Value Float → Result PyError (Option Ordering)
  unfolding str_lt
  order (int n) (int m) = ok (some (sign (ltb_ℤ m n) (ltb_ℤ n m)))
  order (int n) (float x) = ok (some (sign (float_int_lt x n) (int_float_lt n x)))
  order (float x) (int n) = ok (some (sign (int_float_lt n x) (float_int_lt x n)))
  order (float x) (float y) = ok (some (sign (float_lt y x) (float_lt x y)))
  order (str s) (str t) = ok (some (sign (str_lt t s) (str_lt s t)))
  order (datetime a) (str s) = parsed_order (λ b. datetime_order a b) (from_iso_format s)
  order (str s) (datetime b) = parsed_order (λ a. datetime_order a b) (from_iso_format s)
  order (datetime a) (datetime b) = datetime_order a b
  order _ _ = ok none

  abbrev pub order_test : CompareOp → Ordering → Bool
  order_test lt Ordering.lt = true
  order_test le Ordering.lt = true
  order_test le Ordering.eq = true
  order_test gt Ordering.gt = true
  order_test ge Ordering.gt = true
  order_test ge Ordering.eq = true
  order_test _ _ = false

  abbrev pub ordered : CompareOp → Option Ordering → Value Float
  ordered op none = unknown
  ordered op (some o) = bool (order_test op o)

  -- The comparison of present values.
  abbrev pub compare_present : CompareOp → Value Float → Value Float → Result PyError (Value Float)
  compare_present eq a b = ok (bool (typed_eq a b))
  compare_present ne a b = ok (bool (not (typed_eq a b)))
  compare_present op a b = order a b >>= λ o. ok (ordered op o)

  abbrev pub is_missing : Value Float → Bool
  is_missing missing = true
  is_missing _ = false

  abbrev pub is_null : Value Float → Bool
  is_null null = true
  is_null _ = false

  abbrev pub is_eq : CompareOp → Bool
  is_eq eq = true
  is_eq _ = false

  unfoldable pub compare_values :
      CompareOp → Value Float → Value Float → Result PyError (Value Float)
  unfolding typed_eq order
  compare_values op a b =
      if is_missing a || is_missing b
      then (if is_eq op && (is_null a || is_null b) then ok (bool true) else ok unknown)
      else compare_present op a b

  -- `none` is UNKNOWN
  unfoldable pub as_truth : Value Float → Option Bool
  as_truth (bool b) = some b
  as_truth _ = none

  abbrev pub is_false : Option Bool → Bool
  is_false (some false) = true
  is_false _ = false

  abbrev pub is_true : Option Bool → Bool
  is_true (some true) = true
  is_true _ = false

  unfoldable pub bool_and : Value Float → Value Float → Value Float
  unfolding as_truth
  bool_and a b =
      if is_false (as_truth a) || is_false (as_truth b)
      then bool false
      else if is_true (as_truth a) && is_true (as_truth b)
      then bool true
      else unknown

  unfoldable pub bool_or : Value Float → Value Float → Value Float
  unfolding as_truth
  bool_or a b =
      if is_true (as_truth a) || is_true (as_truth b)
      then bool true
      else if is_false (as_truth a) && is_false (as_truth b)
      then bool false
      else unknown

  abbrev pub negate : Option Bool → Value Float
  negate none = unknown
  negate (some b) = bool (not b)

  unfoldable pub bool_not : Value Float → Value Float
  unfolding as_truth
  bool_not a = negate (as_truth a)

  unfoldable pub evaluate : Node Float → TraceEvent Float → Result PyError (Value Float)
  unfolding path_value compare_values bool_and bool_or bool_not
  evaluate (literal v) e = ok v
  evaluate (path segs) e = ok (path_value segs e)
  evaluate (compare op l r) e = evaluate l e >>= λ a. evaluate r e >>= λ b. compare_values op a b
  evaluate (and_node l r) e = evaluate l e >>= λ a. evaluate r e >>= λ b. ok (bool_and a b)
  evaluate (or_node l r) e = evaluate l e >>= λ a. evaluate r e >>= λ b. ok (bool_or a b)
  evaluate (not_node n) e = evaluate n e >>= λ a. ok (bool_not a)

  abbrev pub is_true_value : Value Float → Bool
  is_true_value (bool b) = b
  is_true_value _ = false

  -- Predicate.evaluate, on the prototype language
  unfoldable pub holds : Node Float → TraceEvent Float → Result PyError Bool
  unfolding evaluate
  holds n e = evaluate n e >>= λ v. ok (is_true_value v)
