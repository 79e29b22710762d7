-- ===== src/Evaluators/Condition/Eval.antt =====
-- The nodes of a scoring.condition in evaluators.py and their evaluation on the raw value, with the
-- equality of values that the other evaluators share.
use traceline.Common.{
  Bool, true, false, not, ◌&&◌, ◌||◌, Option, none, some, str_eq, str_lt, if◌then◌else◌,
}
use Prim.Native.Nat.{Ordering}
use traceline.Common.Int.{ltb_ℤ, eqb_ℤ, pos}
use traceline.Values.{
  Value, bool, int, float, str, null, list, dict, missing, unknown, nil, end, Python, py_eq,
}
use traceline.Predicate.Syntax.{CompareOp, eq, ne}
use traceline.Predicate.Eval.{sign, ordered, is_missing, is_null, is_eq}

mutual
  pub data CondNode (F : Type 0) : Type 0 where
    cond_literal : Value F → CondNode F
    cond_raw : CondNode F
    cond_compare : CompareOp → CondNode F → CondNode F → CondNode F
    cond_all cond_any : CondNodes F → CondNode F
    cond_negate : CondNode F → CondNode F

  pub data CondNodes (F : Type 0) : Type 0 where
    last_node : CondNodes F
    next_node : CondNode F → CondNodes F → CondNodes F

module _ (py : Python) where
  open py use {Float, float_eq, float_lt, int_float_eq, int_float_lt, float_int_lt}

  -- `_typed_eq`
  unfoldable pub values_eq : Value Float → Value Float → Bool
  unfolding py_eq
  values_eq missing b = false
  values_eq a missing = false
  values_eq (bool a) (bool b) = if a then b else not b
  values_eq (bool a) b = false
  values_eq a (bool b) = false
  values_eq a b = py_eq py a b

  -- `none` where the two have no order
  unfoldable pub cond_order : Value Float → Value Float → Option Ordering
  unfolding str_lt
  cond_order (int n) (int m) = some (sign py (ltb_ℤ m n) (ltb_ℤ n m))
  cond_order (int n) (float x) = some (sign py (float_int_lt x n) (int_float_lt n x))
  cond_order (float x) (int n) = some (sign py (int_float_lt n x) (float_int_lt x n))
  cond_order (float x) (float y) = some (sign py (float_lt y x) (float_lt x y))
  cond_order (str s) (str t) = some (sign py (str_lt t s) (str_lt s t))
  cond_order _ _ = none

  -- The comparison of present values.
  abbrev pub cond_present : CompareOp → Value Float → Value Float → Value Float
  cond_present eq a b = bool (values_eq a b)
  cond_present ne a b = bool (not (values_eq a b))
  cond_present op a b = ordered py op (cond_order a b)

  unfoldable pub compare_cond : CompareOp → Value Float → Value Float → Value Float
  unfolding values_eq cond_order
  compare_cond op a b =
      if is_missing py a || is_missing py b
      then if is_eq py op && (is_null py a || is_null py b) then bool true else unknown
      else cond_present op a b

  abbrev pub is_bool : Bool → Value Float → Bool
  is_bool true (bool b) = b
  is_bool false (bool b) = not b
  is_bool _ _ = false

  abbrev pub is_unknown : Value Float → Bool
  is_unknown unknown = true
  is_unknown _ = false

  unfoldable pub cond_and : Value Float → Value Float → Value Float
  cond_and a b =
      if is_bool false a || is_bool false b
      then bool false
      else if is_unknown a || is_unknown b
      then unknown
      else bool true

  unfoldable pub cond_or : Value Float → Value Float → Value Float
  cond_or a b =
      if is_bool true a || is_bool true b
      then bool true
      else if is_unknown a || is_unknown b
      then unknown
      else bool false

  abbrev pub is_zero : Value Float → Bool
  is_zero (int n) = eqb_ℤ n (pos 0)
  is_zero (float x) = int_float_eq (pos 0) x
  is_zero _ = false

  -- bool(v)
  abbrev pub truthy : Value Float → Bool
  truthy (bool b) = b
  truthy (int n) = not (is_zero (int n))
  truthy (float x) = not (is_zero (float x))
  truthy (str s) = not (str_eq s "")
  truthy null = false
  truthy (list nil) = false
  truthy (dict end) = false
  truthy _ = true

  unfoldable pub cond_not : Value Float → Value Float
  cond_not unknown = unknown
  cond_not v = bool (not (truthy v))

  unfoldable mutual
    unfolding compare_cond cond_not cond_and cond_or

    pub cond_value_of : CondNode Float → Value Float → Value Float
    cond_value_of (cond_literal v) raw = v
    cond_value_of cond_raw raw = raw
    cond_value_of (cond_compare op l r) raw =
        compare_cond op (cond_value_of l raw) (cond_value_of r raw)
    cond_value_of (cond_all ns) raw = join_values true ns raw (bool true)
    cond_value_of (cond_any ns) raw = join_values false ns raw (bool false)
    cond_value_of (cond_negate n) raw = cond_not (cond_value_of n raw)

    -- The loop over the children, with the result so far.
    pub join_values : Bool → CondNodes Float → Value Float → Value Float → Value Float
    join_values is_and last_node raw result = result
    join_values true (next_node n ns) raw result =
        join_values true ns raw (cond_and result (cond_value_of n raw))
    join_values false (next_node n ns) raw result =
        join_values false ns raw (cond_or result (cond_value_of n raw))

  -- `_Condition.evaluate`
  unfoldable pub cond_holds : CondNode Float → Value Float → Bool
  unfolding cond_value_of
  cond_holds n raw = is_bool true (cond_value_of n raw)
