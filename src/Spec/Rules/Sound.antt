-- ===== src/Spec/Rules/Sound.antt =====
-- What the validation of a trace rule by spec.py saves its evaluation by trace_rules.py from.
use traceline.Common.{
  ℕ, zero, suc, ◌≡◌, inl, inr, refl, Bool, true, false, ◌&&◌, Option, none, some, List, [], ◌∷◌, ok,
  ◌>>=◌, >>=-eq-ok, traverse, All, arith, is_empty, Bool-cases,
}
use traceline.Values.{Value, str, dict, list, items, Entries, Python}
use traceline.Predicate.Compile.{Cel}
use traceline.TraceRules.Matching.{Event, get, require, match_events, no_rules}
use traceline.TraceRules.Rules.{
  Op, for_all, exists, never, exists_before, exists_after, immediately_precedes, count, within_ms,
  and_op, or_op, not_op, implies, Eval, combine, op_of, as_nonempty, as_rule, eval_and_or, eval_not,
  eval_for_all, dispatch, eval_op, eval_node, evaluate_rule,
}
use traceline.Spec.Rules.{
  field, rule_op, check_all, check_rules, check_rule, check_assert, check_op, check_at,
  validate_trace_rule_body, Check, no_assert,
}
use traceline.Spec.Rules.Late.{
  RaisesLate, bind-RaisesLate, traverse-RaisesLate, match_events-RaisesLate, window-RaisesLate,
}
use traceline.Spec.Rules.Nodes.{
  get-field, HasMatch, matching_parts, eval_match_bearing-RaisesLate, eval_anchored-RaisesLate,
  eval_within_ms-RaisesLate,
}

-- No `implies` in the node, nor in its children, down to a depth.
module _ {F : Type 0} where
  abbrev all_plain : (Value F → Bool) → List (Value F) → Bool
  all_plain p [] = true
  all_plain p (v ∷ vs) = p v && all_plain p vs

  abbrev plain_items : (Value F → Bool) → Value F → Bool
  plain_items p (list xs) = all_plain p (items xs)
  plain_items p _ = true

  abbrev plain_op : (Value F → Bool) → Option Op → Entries F → Bool
  plain_op p (some implies) node = false
  plain_op p (some and_op) node = plain_items p (field node "rules")
  plain_op p (some or_op) node = plain_items p (field node "rules")
  plain_op p (some not_op) node = p (field node "rule")
  plain_op p (some for_all) node = p (field node "assert")
  plain_op p _ node = true

  unfoldable pub has_no_implies : ℕ → Value F → Bool
  unfolding field
  has_no_implies (suc levels) (dict node) =
      plain_op (has_no_implies levels) (rule_op (field node "op")) node
  has_no_implies _ _ = true

module _ (py : Python) (celpy : Cel py.Float) where
  open py use {Float}

  -- A child that was checked raises late.
  abbrev Sound : Check Float → (Value Float → Bool) → Eval py celpy → Type 0
  Sound rec p ev =
      (v : Value Float) (a : Option (Event py celpy))
      → rec v ≡ ok tt
      → p v ≡ true
      → RaisesLate (ev v a)

  checked_rule :
      (e : _) (rec : Check Float) (v : Value Float)
      → check_rule e rec v ≡ ok tt
      → (as_rule py celpy v ≡ some v) × (rec v ≡ ok tt)
  checked_rule e rec (dict es) h = (refl, h)
  checked_rule e rec _ h = cc

  eval_not-RaisesLate :
      (rec : Check Float) (p : Value Float → Bool) (ev : Eval py celpy) (e : _)
      (node : Entries Float) (a : Option (Event py celpy))
      → Sound rec p ev
      → check_rule e rec (field node "rule") ≡ ok tt
      → p (field node "rule") ≡ true
      → RaisesLate (eval_not py celpy ev node a)
  unfolding eval_not
  eval_not-RaisesLate rec p ev e node a sound h plain =
      let (known, fine) = checked_rule e rec (field node "rule") h in
      rw (get-field py celpy node "rule", known)
        (bind-RaisesLate (ev (field node "rule") a) _ (sound (field node "rule") a fine plain)
          (λ r. tt))

  checked_all :
      (rec : Check Float) (p : Value Float → Bool) (ev : Eval py celpy)
      (a : Option (Event py celpy)) (vs : List (Value Float))
      → Sound rec p ev
      → check_all rec vs ≡ ok tt
      → all_plain p vs ≡ true
      → All (λ v. RaisesLate (ev v a)) vs
  checked_all rec p ev a [] sound h plain = tt
  checked_all rec p ev a (v ∷ vs) sound h plain =
      let (u, first, rest) = >>=-eq-ok (rec v) _ h in
      (sound v a first (ground arith), checked_all rec p ev a vs sound rest (ground arith))

  eval_and_or-RaisesLate :
      (rec : Check Float) (p : Value Float → Bool) (ev : Eval py celpy) (is_and : Bool)
      (node : Entries Float) (a : Option (Event py celpy))
      → Sound rec p ev
      → check_rules rec (field node "rules") ≡ ok tt
      → plain_items p (field node "rules") ≡ true
      → RaisesLate (eval_and_or py celpy ev is_and node a)
  unfolding eval_and_or
  eval_and_or-RaisesLate rec p ev is_and node a sound h plain =
      rw (get-field py celpy node "rules") (go (field node "rules") h plain)
    where
      go :
          (v : Value Float)
          → check_rules rec v ≡ ok tt
          → plain_items p v ≡ true
          → RaisesLate (
              require py celpy no_rules (as_nonempty py celpy v) >>= λ rules.
              traverse (λ r. ev r a) rules >>= λ rs. ok (combine is_and rs))
      go (list xs) h plain = elim (Bool-cases (is_empty (items xs))) [
        | inl none_there ↦ cc (rw none_there at h)
        | inr some_there ↦
            rw (some_there, RaisesLate)
              (bind-RaisesLate (traverse (λ r. ev r a) (items xs)) _
                (traverse-RaisesLate (λ r. ev r a) (items xs)
                  (checked_all rec p ev a (items xs) sound (rw some_there at h) plain))
                (λ rs. tt))
      ]
      go _ h plain = cc

  eval_for_all-RaisesLate :
      (rec : Check Float) (p : Value Float → Bool) (ev : Eval py celpy) (node : Entries Float)
      (es : List (Event py celpy)) (a : Option (Event py celpy))
      → Sound rec p ev
      → HasMatch py celpy node
      → check_assert rec for_all node ≡ ok tt
      → p (field node "assert") ≡ true
      → RaisesLate (eval_for_all py celpy ev node es a)
  unfolding eval_for_all
  eval_for_all-RaisesLate rec p ev node es a sound (window, (m, e, ok_m)) h plain =
      let (known, fine) = checked_rule no_assert rec (field node "assert") h in
      rw (get-field py celpy node "match", e, get-field py celpy node "assert", known)
        (window-RaisesLate py celpy (get py celpy node "within_ms") _
          (rw (get-field py celpy node "within_ms") window)
          (λ o.
            bind-RaisesLate (match_events py celpy m es a o) _
              (match_events-RaisesLate py celpy m es a o ok_m)
              (λ cs.
                bind-RaisesLate (traverse (λ x. ev (field node "assert") (some x)) cs) _
                  (traverse-RaisesLate _ cs (every cs fine plain)) (λ rs. tt))))
    where
      every :
          (cs : List (Event py celpy))
          → rec (field node "assert") ≡ ok tt
          → p (field node "assert") ≡ true
          → All (λ x. RaisesLate (ev (field node "assert") (some x))) cs
      every [] f q = tt
      every (c ∷ cs) f q = (sound (field node "assert") (some c) f q, every cs f q)

  dispatch-RaisesLate :
      (rec : Check Float) (p : Value Float → Bool) (ev : Eval py celpy) (root : Bool)
      (o : Option Op) (node : Entries Float) (es : List (Event py celpy))
      (a : Option (Event py celpy))
      → Sound rec p ev
      → check_op rec root o node ≡ ok tt
      → plain_op p o node ≡ true
      → RaisesLate (eval_op py celpy ev o node es a)
  unfolding check_op dispatch
  dispatch-RaisesLate rec p ev root none node es a s h q = cc
  dispatch-RaisesLate rec p ev root (some and_op) node es a s h q =
      eval_and_or-RaisesLate rec p ev true node a s h q
  dispatch-RaisesLate rec p ev root (some or_op) node es a s h q =
      eval_and_or-RaisesLate rec p ev false node a s h q
  dispatch-RaisesLate rec p ev root (some not_op) node es a s h q =
      eval_not-RaisesLate rec p ev _ node a s h q
  dispatch-RaisesLate rec p ev root (some implies) node es a s h q = cc
  dispatch-RaisesLate rec p ev root (some for_all) node es a s h q =
      let (ms, matched, asserted) = matching_parts py celpy rec root for_all node h in
      eval_for_all-RaisesLate rec p ev node es a s matched asserted q
  dispatch-RaisesLate rec p ev root (some within_ms) node es a s h q =
      let (ms, matched, asserted) = matching_parts py celpy rec root within_ms node h in
      eval_within_ms-RaisesLate py celpy node es a ms matched
  dispatch-RaisesLate rec p ev root (some exists) node es a s h q =
      eval_match_bearing-RaisesLate py celpy exists node es a
        (matching_parts py celpy rec root exists node h).1
  dispatch-RaisesLate rec p ev root (some never) node es a s h q =
      eval_match_bearing-RaisesLate py celpy never node es a
        (matching_parts py celpy rec root never node h).1
  dispatch-RaisesLate rec p ev root (some count) node es a s h q =
      eval_match_bearing-RaisesLate py celpy count node es a
        (matching_parts py celpy rec root count node h).1
  dispatch-RaisesLate rec p ev root (some exists_before) node es a s h q =
      eval_anchored-RaisesLate py celpy exists_before node es a
        (matching_parts py celpy rec root exists_before node h).1
  dispatch-RaisesLate rec p ev root (some exists_after) node es a s h q =
      eval_anchored-RaisesLate py celpy exists_after node es a
        (matching_parts py celpy rec root exists_after node h).1
  dispatch-RaisesLate rec p ev root (some immediately_precedes) node es a s h q =
      eval_anchored-RaisesLate py celpy immediately_precedes node es a
        (matching_parts py celpy rec root immediately_precedes node h).1

  op_of-rule_op : (v : Value Float) → op_of py celpy v ≡ rule_op v
  op_of-rule_op (str s) = refl
  op_of-rule_op _ = refl

  check_at-RaisesLate :
      (levels : ℕ) (root : Bool) (es : List (Event py celpy)) (v : Value Float)
      (a : Option (Event py celpy))
      → check_at levels root v ≡ ok tt
      → has_no_implies levels v ≡ true
      → RaisesLate (eval_node py celpy levels es v a)
  unfolding check_at eval_node has_no_implies
  check_at-RaisesLate zero root es v a h q = cc
  check_at-RaisesLate (suc levels) root es (dict node) a h q =
      rw (get-field py celpy node "op", op_of-rule_op (field node "op"))
        (dispatch-RaisesLate (check_at levels false) (has_no_implies levels)
          (eval_node py celpy levels es) root (rule_op (field node "op")) node es a
          (λ v b f r. check_at-RaisesLate levels false es v b f r) h q)
  check_at-RaisesLate (suc levels) root es _ a h q = cc

  -- A rule that the specification's validation accepts and that has no `implies` evaluates on every
  -- trace to a result, or raises for a missing anchor, for a `where` that does not compile, with the
  -- TypeError of a naive and an aware timestamp, or with an exception of Python out of a `where`; no
  -- other TraceRuleError is left.
  pub validated_rule-RaisesLate :
      (rule : Entries Float) (es : List (Event py celpy)) (a : Option (Event py celpy))
      → validate_trace_rule_body rule ≡ ok tt
      → has_no_implies 101 (dict rule) ≡ true
      → RaisesLate (evaluate_rule py celpy (dict rule) es a)
  unfolding validate_trace_rule_body evaluate_rule
  validated_rule-RaisesLate rule es a h q = check_at-RaisesLate 101 true es (dict rule) a h q
