-- ===== src/Predicate/Truth.antt =====
-- The laws of the three-valued evaluation of predicates.py.
use Prim.Native.Nat.{Ordering, min, max}
use traceline.Common.{
  ℕ, ◌-◌, Option-cases, inl, inr, ◌≡◌, refl, ap, true, false, Option, some, arith, Result, ok, err,
  ◌>>=◌,
}
use traceline.Values.{DateTime, naive, Value, bool, int, float, str, datetime, Python}
use traceline.Events.{TraceEvent}
use traceline.Predicate.Syntax.{
  CompareOp, eq, ne, lt, le, gt, ge, Node, and_node, or_node, not_node,
}
use traceline.Predicate.Eval.{
  PyError, bool_and, bool_or, bool_not, order, datetime_order, compare_values, compare_present,
  ordered, evaluate,
}

-- false < UNKNOWN < true, where MISSING and every value that is no boolean count as UNKNOWN.
abbrev pub rank : {F : Type 0} → Value F → ℕ
rank (bool true) = 2
rank (bool false) = 0
rank _ = 1

module _ (py : Python) where
  open py use {Float}

  -- The connectives are the minimum, the maximum and the reversal of the order
  -- false < UNKNOWN < true; no operand is ever coerced to a truth value.
  pub connectives_rank :
      (a b : Value Float)
      → (rank (bool_and py a b) ≡ min (rank a) (rank b))
        × (rank (bool_or py a b) ≡ max (rank a) (rank b))
        × (rank (bool_not py a) ≡ 2 - rank a)
  unfolding bool_and bool_or bool_not
  connectives_rank (bool true) (bool true) = ground arith
  connectives_rank _ _ = ground arith

  not_and :
      (a b : Value Float)
      → bool_not py (bool_and py a b) ≡ bool_or py (bool_not py a) (bool_not py b)
  unfolding bool_and bool_or bool_not
  not_and (bool true) (bool true) = refl
  not_and (bool a) (bool b) = ground arith
  not_and _ _ = ground arith

  not_or :
      (a b : Value Float)
      → bool_not py (bool_or py a b) ≡ bool_and py (bool_not py a) (bool_not py b)
  unfolding bool_and bool_or bool_not
  not_or (bool true) (bool true) = refl
  not_or (bool a) (bool b) = ground arith
  not_or _ _ = ground arith

  -- De Morgan's laws for whole predicates: a negated conjunction, or disjunction, evaluates on
  -- every event as the disjunction, or conjunction, of the negations, exceptions included.
  pub evaluate-de_morgan :
      (l r : Node Float) (e : TraceEvent Float)
      → (evaluate py (not_node (and_node l r)) e
          ≡ evaluate py (or_node (not_node l) (not_node r)) e)
        × (evaluate py (not_node (or_node l r)) e
            ≡ evaluate py (and_node (not_node l) (not_node r)) e)
  unfolding evaluate
  evaluate-de_morgan l r e = go (evaluate py l e) (evaluate py r e)
    where
      go :
          (x y : Result PyError (Value Float))
          → (((x >>= λ a. y >>= λ b. ok (bool_and py a b)) >>= λ v. ok (bool_not py v)) ≡ (
              (x >>= λ a. ok (bool_not py a)) >>= λ a.
              (y >>= λ b. ok (bool_not py b)) >>= λ b. ok (bool_or py a b)))
            × (((x >>= λ a. y >>= λ b. ok (bool_or py a b)) >>= λ v. ok (bool_not py v)) ≡ (
                (x >>= λ a. ok (bool_not py a)) >>= λ a.
                (y >>= λ b. ok (bool_not py b)) >>= λ b. ok (bool_and py a b)))
      go (ok a) (ok b) = (ap ok (not_and a b), ap ok (not_or a b))
      go (ok a) (err x) = (refl, refl)
      go (err x) y = (refl, refl)

  -- The operator with its sides exchanged.
  abbrev pub flip : CompareOp → CompareOp
  flip lt = gt
  flip le = ge
  flip gt = lt
  flip ge = le
  flip op = op

  abbrev pub IsOrder : CompareOp → Type 0
  IsOrder eq = ⊥
  IsOrder ne = ⊥
  IsOrder _ = Unit

  abbrev swap : Option Ordering → Option Ordering
  swap (some Ordering.lt) = some Ordering.gt
  swap (some Ordering.gt) = some Ordering.lt
  swap o = o

  abbrev map_ok : Result PyError (Option Ordering) → Result PyError (Option Ordering)
  map_ok (ok o) = ok (swap o)
  map_ok (err x) = err x

  datetime_order-swap : (a b : DateTime) → datetime_order py b a ≡ map_ok (datetime_order py a b)
  datetime_order-swap (naive a) (naive b) = ground arith
  datetime_order-swap _ _ = ground arith

  order-swap : (a b : Value Float) → order py b a ≡ map_ok (order py a b)
  unfolding order
  order-swap (int n) (int m) = ground arith
  order-swap (int n) (float x) = ground arith
  order-swap (float x) (int m) = ground arith
  order-swap (float x) (float y) = ground arith
  order-swap (str s) (str t) = ground arith
  order-swap (datetime a) (str s) = elim (Option-cases (py.from_iso_format s)) [
    | inl h ↦ rw h refl
    | inr (d, h) ↦ rw h (datetime_order-swap a d)
  ]
  order-swap (str s) (datetime b) = elim (Option-cases (py.from_iso_format s)) [
    | inl h ↦ rw h refl
    | inr (d, h) ↦ rw h (datetime_order-swap d b)
  ]
  order-swap (datetime a) (datetime b) = datetime_order-swap a b
  order-swap _ _ = ground arith

  ordered-flip :
      (op : CompareOp)
      → IsOrder op
      → (r : Result PyError (Option Ordering))
      → (r >>= λ o. ok (ordered py op o)) ≡ (map_ok r >>= λ o. ok (ordered py (flip op) o))
  ordered-flip eq h r = absurd h
  ordered-flip ne h r = absurd h
  ordered-flip lt h r = ground arith
  ordered-flip le h r = ground arith
  ordered-flip gt h r = ground arith
  ordered-flip ge h r = ground arith

  present-flip :
      (op : CompareOp) (a b : Value Float)
      → IsOrder op
      → compare_present py op a b ≡ compare_present py (flip op) b a
  present-flip eq a b h = absurd h
  present-flip ne a b h = absurd h
  present-flip lt a b h = rw (order-swap a b) (ordered-flip lt h (order py a b))
  present-flip le a b h = rw (order-swap a b) (ordered-flip le h (order py a b))
  present-flip gt a b h = rw (order-swap a b) (ordered-flip gt h (order py a b))
  present-flip ge a b h = rw (order-swap a b) (ordered-flip ge h (order py a b))

  -- An order comparison reads the same from both sides: a < b is b > a, and a <= b is b >= a,
  -- whatever the operands, the missing ones and the TypeError included.
  pub compare_values-flip :
      (op : CompareOp) (a b : Value Float)
      → IsOrder op
      → compare_values py op a b ≡ compare_values py (flip op) b a
  unfolding compare_values
  compare_values-flip eq a b h = absurd h
  compare_values-flip ne a b h = absurd h
  compare_values-flip lt a b h = ground (arith, present-flip lt a b)
  compare_values-flip le a b h = ground (arith, present-flip le a b)
  compare_values-flip gt a b h = ground (arith, present-flip gt a b)
  compare_values-flip ge a b h = ground (arith, present-flip ge a b)
