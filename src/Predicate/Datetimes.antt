-- ===== src/Predicate/Datetimes.antt =====
-- When the evaluation of predicates.py raises: an order between a naive and an aware datetime.
use traceline.Common.{
  ℕ, ◌≡◌, ◌↔◌, String, Bool, true, false, ◌&&◌, ◌||◌, Option, none, some, [], ◌∷◌, arith, err,
}
use traceline.Values.{DateTime, naive, aware, Value, str, datetime, Python}
use traceline.Events.{TraceEvent}
use traceline.Predicate.Syntax.{CompareOp, eq, ne, literal, path, compare}
use traceline.Predicate.Eval.{type_error, order, compare_values, holds}

abbrev pub kinds_differ : Option DateTime → Option DateTime → Bool
kinds_differ (some (naive _)) (some (aware _)) = true
kinds_differ (some (aware _)) (some (naive _)) = true
kinds_differ _ _ = false

abbrev pub is_order : CompareOp → Bool
is_order eq = false
is_order ne = false
is_order _ = true

module _ (py : Python) where
  open py use {Float, from_iso_format}

  abbrev pub is_datetime : Value Float → Bool
  is_datetime (datetime _) = true
  is_datetime _ = false

  -- The datetime that an operand stands for beside a datetime.
  abbrev pub as_datetime : Value Float → Option DateTime
  as_datetime (datetime d) = some d
  as_datetime (str s) = from_iso_format s
  as_datetime _ = none

  -- One operand is a datetime, the other one too or the text of one, and just one of them is naive.
  abbrev pub mixes_kinds : Value Float → Value Float → Bool
  mixes_kinds a b = (is_datetime a || is_datetime b) && kinds_differ (as_datetime a) (as_datetime b)

  order-raises_iff :
      (a b : Value Float) → (order py a b ≡ err type_error) ↔ (mixes_kinds a b ≡ true)
  unfolding order
  order-raises_iff (datetime (naive a)) (datetime (naive b)) = ground arith
  order-raises_iff _ _ = ground arith

  -- A comparison raises exactly if its operator is an order and its operands are a naive and an
  -- aware datetime, one of them perhaps as an ISO 8601 text.
  pub compare_values-raises_iff :
      (op : CompareOp) (a b : Value Float)
      → (compare_values py op a b ≡ err type_error) ↔ ((is_order op && mixes_kinds a b) ≡ true)
  unfolding compare_values
  compare_values-raises_iff eq a b = ground arith
  compare_values-raises_iff ne a b = ground arith
  compare_values-raises_iff op a b = ground (arith, order-raises_iff a b)

  -- On an event whose timestamp is aware, an order between the timestamp and a text of a datetime
  -- with no offset raises, so that `Predicate.evaluate` returns no boolean.
  pub naive_literal_raises :
      (op : CompareOp) (s : String) (e : TraceEvent Float) {t u : ℕ}
      → is_order op ≡ true
      → e.timestamp ≡ aware t
      → from_iso_format s ≡ some (naive u)
      → holds py (compare op (path ("timestamp" ∷ [])) (literal (str s))) e ≡ err type_error
  unfolding holds
  naive_literal_raises eq s e h p q = cc
  naive_literal_raises op s e h p q = ground arith
