-- ===== src/Predicate/Missing.antt =====
-- The missing-value rule of predicates.py: where it holds, and where it does not.
use traceline.Common.{
  ◌≡◌, String, Bool, true, false, List, arith, ok, ◌⊎◌, ◌↔◌, inl, inr, refl, Result, err, ◌>>=◌,
}
use traceline.Values.{Value, bool, null, missing, Python}
use traceline.Events.{TraceEvent}
use traceline.Predicate.Syntax.{CompareOp, eq, ne, Node, literal, path, compare, not_node}
use traceline.Predicate.Eval.{PyError, path_value, compare_values, evaluate, is_true_value, holds}

module _ (py : Python) where
  open py use {Float}

  -- What a comparison gives that has MISSING on one side: the operator is == and the other side an
  -- explicit null, or it does not hold, or it raises what the other side raises.
  abbrev pub MissingRule :
      CompareOp
      → Result PyError (Value Float)
      → Result PyError (Value Float)
      → Result PyError Bool
      → Type 0
  MissingRule op x y out =
      ((out ≡ ok true) ↔ ((op ≡ eq) × ((x ≡ ok null) ⊎ (y ≡ ok null))))
      × ((out ≡ ok true)
          ⊎ (out ≡ ok false)
          ⊎ ((e : PyError) × (out ≡ err e) × ((x ≡ err e) ⊎ (y ≡ err e))))

  -- Predicate.evaluate on the results of the two sides of a comparison.
  abbrev held :
      CompareOp → Result PyError (Value Float) → Result PyError (Value Float) → Result PyError Bool
  held op x y = (x >>= λ a. y >>= λ b. compare_values py op a b) >>= λ v. ok (is_true_value py v)

  missing_left :
      (op : CompareOp) (b : Value Float)
      → MissingRule op (ok missing) (ok b) (held op (ok missing) (ok b))
  unfolding compare_values
  missing_left op b = ((λ h. ground arith, λ h. ground arith), ground arith)

  missing_right :
      (op : CompareOp) (a : Value Float)
      → MissingRule op (ok a) (ok missing) (held op (ok a) (ok missing))
  unfolding compare_values
  missing_right op a = ((λ h. ground arith, λ h. ground arith), ground arith)

  missing_side :
      (op : CompareOp) (x y : Result PyError (Value Float))
      → (x ≡ ok missing) ⊎ (y ≡ ok missing)
      → MissingRule op x y (held op x y)
  missing_side op (ok a) (ok b) (inl h) = let e : a ≡ missing = (cc h) in rw e (missing_left op b)
  missing_side op (ok a) (ok b) (inr h) = let e : b ≡ missing = (cc h) in rw e (missing_right op a)
  missing_side op (ok a) (err e) h =
      ((λ k. cc, λ k. absurd (ground arith)), inr (inr (e, refl, inr refl)))
  missing_side op (err e) y h =
      ((λ k. cc, λ k. absurd (ground arith)), inr (inr (e, refl, inl refl)))

  -- A comparison one of whose sides evaluates to MISSING, as a path does that does not resolve on the
  -- event, holds exactly when the operator is == and the other side evaluates to an explicit null; else
  -- it is false, != null included, or raises what the other side raises.
  pub missing_rule :
      (op : CompareOp) (l r : Node Float) (e : TraceEvent Float)
      → (evaluate py l e ≡ ok missing) ⊎ (evaluate py r e ≡ ok missing)
      → MissingRule op (evaluate py l e) (evaluate py r e) (holds py (compare op l r) e)
  unfolding holds
  missing_rule op l r e h = missing_side op (evaluate py l e) (evaluate py r e) h

  -- The rule does not reach through a connective: where the path does not resolve, its negation
  -- compares as different from every boolean, so that this check of a missing field passes.
  pub missing_ne_passes :
      (segs : List String) (b : Bool) (e : TraceEvent Float)
      → path_value py segs e ≡ missing
      → holds py (compare ne (not_node (path segs)) (literal (bool b))) e ≡ ok true
  unfolding holds
  missing_ne_passes segs b e p = ground arith
