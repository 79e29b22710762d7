-- ===== src/Evaluators/Condition/Logic.antt =====
-- What the connectives of a scoring.condition in evaluators.py mean where their operands are
-- comparisons, Boolean literals or such conditions again.
use traceline.Common.{
  ◌≡◌, refl, ap, ◌∙◌, Bool, true, false, ◌&&◌, ◌||◌, if◌then◌else◌, Option, none, some,
}
use Prim.Native.Nat.{Ordering}
use traceline.Values.{Value, bool, unknown, Python}
use traceline.Predicate.Syntax.{CompareOp, eq, ne, lt, le, gt, ge}
use traceline.Predicate.Eval.{ordered, is_missing, is_null, is_eq}
use traceline.Evaluators.Condition.Eval.{
  CondNode, cond_literal, cond_raw, cond_compare, cond_all, cond_any, cond_negate, CondNodes,
  last_node, next_node, cond_order, cond_present, compare_cond, is_bool, is_unknown, cond_and,
  cond_or, cond_not, cond_value_of, join_values, cond_holds,
}

module _ {F : Type 0} where
  -- True, False or UNKNOWN.
  abbrev IsTruth : Value F → Type 0
  IsTruth (bool b) = Unit
  IsTruth unknown = Unit
  IsTruth _ = ⊥

  -- No raw value and no literal but True and False stands as an operand of a connective.
  unfoldable mutual
    pub IsLogical : CondNode F → Type 0
    IsLogical (cond_literal (bool b)) = Unit
    IsLogical (cond_literal _) = ⊥
    IsLogical cond_raw = ⊥
    IsLogical (cond_compare op l r) = Unit
    IsLogical (cond_all ns) = AllLogical ns
    IsLogical (cond_any ns) = AllLogical ns
    IsLogical (cond_negate n) = IsLogical n

    pub AllLogical : CondNodes F → Type 0
    AllLogical last_node = Unit
    AllLogical (next_node n ns) = IsLogical n × AllLogical ns

module _ (py : Python) where
  open py use {Float}

  ordered-IsTruth : (op : CompareOp) (r : Option Ordering) → IsTruth (ordered py op r)
  ordered-IsTruth op none = tt
  ordered-IsTruth op (some r) = tt

  present-IsTruth : (op : CompareOp) (a b : Value Float) → IsTruth (cond_present py op a b)
  present-IsTruth eq a b = tt
  present-IsTruth ne a b = tt
  present-IsTruth lt a b = ordered-IsTruth lt (cond_order py a b)
  present-IsTruth le a b = ordered-IsTruth le (cond_order py a b)
  present-IsTruth gt a b = ordered-IsTruth gt (cond_order py a b)
  present-IsTruth ge a b = ordered-IsTruth ge (cond_order py a b)

  if-IsTruth : (b : Bool) (x y : Value Float) → IsTruth x → IsTruth y → IsTruth (if b then x else y)
  if-IsTruth true x y h k = h
  if-IsTruth false x y h k = k

  compare-IsTruth : (op : CompareOp) (a b : Value Float) → IsTruth (compare_cond py op a b)
  unfolding compare_cond
  compare-IsTruth op a b =
      if-IsTruth (is_missing py a || is_missing py b) _ _
        (if-IsTruth (is_eq py op && (is_null py a || is_null py b)) (bool true) unknown tt tt)
        (present-IsTruth op a b)

  and-IsTruth : (a b : Value Float) → IsTruth (cond_and py a b)
  unfolding cond_and
  and-IsTruth a b =
      if-IsTruth (is_bool py false a || is_bool py false b) (bool false) _ tt
        (if-IsTruth (is_unknown py a || is_unknown py b) unknown (bool true) tt tt)

  or-IsTruth : (a b : Value Float) → IsTruth (cond_or py a b)
  unfolding cond_or
  or-IsTruth a b =
      if-IsTruth (is_bool py true a || is_bool py true b) (bool true) _ tt
        (if-IsTruth (is_unknown py a || is_unknown py b) unknown (bool false) tt tt)

  not-IsTruth : (v : Value Float) → IsTruth (cond_not py v)
  unfolding cond_not
  not-IsTruth unknown = tt
  not-IsTruth _ = tt

  join-IsTruth :
      (is_and : Bool) (ns : CondNodes Float) (raw r : Value Float)
      → IsTruth r
      → IsTruth (join_values py is_and ns raw r)
  unfolding cond_value_of
  join-IsTruth is_and last_node raw r h = h
  join-IsTruth true (next_node n ns) raw r h =
      join-IsTruth true ns raw _ (and-IsTruth r (cond_value_of py n raw))
  join-IsTruth false (next_node n ns) raw r h =
      join-IsTruth false ns raw _ (or-IsTruth r (cond_value_of py n raw))

  value-IsTruth :
      (n : CondNode Float) (raw : Value Float) → IsLogical n → IsTruth (cond_value_of py n raw)
  unfolding cond_value_of IsLogical
  value-IsTruth (cond_literal (bool b)) raw h = tt
  value-IsTruth (cond_literal _) raw h = absurd h
  value-IsTruth cond_raw raw h = absurd h
  value-IsTruth (cond_compare op l r) raw h = compare-IsTruth op _ _
  value-IsTruth (cond_all ns) raw h = join-IsTruth true ns raw (bool true) tt
  value-IsTruth (cond_any ns) raw h = join-IsTruth false ns raw (bool false) tt
  value-IsTruth (cond_negate n) raw h = not-IsTruth _

  -- A truth by its two Boolean tests.
  and_holds :
      (a b : Value Float)
      → IsTruth a
      → IsTruth b
      → is_bool py true (cond_and py a b) ≡ is_bool py true a && is_bool py true b
  unfolding cond_and
  and_holds (bool true) (bool true) h k = refl
  and_holds (bool true) (bool false) h k = refl
  and_holds (bool true) unknown h k = refl
  and_holds (bool false) (bool b) h k = refl
  and_holds (bool false) unknown h k = refl
  and_holds unknown (bool true) h k = refl
  and_holds unknown (bool false) h k = refl
  and_holds unknown unknown h k = refl
  and_holds (bool true) _ h k = absurd k
  and_holds (bool false) _ h k = absurd k
  and_holds unknown _ h k = absurd k
  and_holds _ b h k = absurd h

  or_holds :
      (a b : Value Float)
      → IsTruth a
      → IsTruth b
      → is_bool py true (cond_or py a b) ≡ is_bool py true a || is_bool py true b
  unfolding cond_or
  or_holds (bool true) (bool b) h k = refl
  or_holds (bool true) unknown h k = refl
  or_holds (bool false) (bool true) h k = refl
  or_holds (bool false) (bool false) h k = refl
  or_holds (bool false) unknown h k = refl
  or_holds unknown (bool true) h k = refl
  or_holds unknown (bool false) h k = refl
  or_holds unknown unknown h k = refl
  or_holds (bool true) _ h k = absurd k
  or_holds (bool false) _ h k = absurd k
  or_holds unknown _ h k = absurd k
  or_holds _ b h k = absurd h

  -- Every condition of the list holds, and some condition of it holds.
  unfoldable pub all_hold_of : CondNodes Float → Value Float → Bool
  unfolding cond_holds
  all_hold_of last_node raw = true
  all_hold_of (next_node n ns) raw = cond_holds py n raw && all_hold_of ns raw

  unfoldable pub any_holds_of : CondNodes Float → Value Float → Bool
  unfolding cond_holds
  any_holds_of last_node raw = false
  any_holds_of (next_node n ns) raw = cond_holds py n raw || any_holds_of ns raw

  and_assoc : (a b c : Bool) → (a && b) && c ≡ a && (b && c)
  and_assoc true b c = refl
  and_assoc false b c = refl

  or_assoc : (a b c : Bool) → (a || b) || c ≡ a || (b || c)
  or_assoc true b c = refl
  or_assoc false b c = refl

  and_true : (a : Bool) → a ≡ a && true
  and_true true = refl
  and_true false = refl

  or_false : (a : Bool) → a ≡ a || false
  or_false true = refl
  or_false false = refl

  join_all_holds :
      (ns : CondNodes Float) (raw r : Value Float)
      → AllLogical ns
      → IsTruth r
      → is_bool py true (join_values py true ns raw r) ≡ is_bool py true r && all_hold_of ns raw
  unfolding cond_value_of cond_holds AllLogical all_hold_of
  join_all_holds last_node raw r h k = and_true (is_bool py true r)
  join_all_holds (next_node n ns) raw r h k =
      join_all_holds ns raw _ h.1 (and-IsTruth r (cond_value_of py n raw))
      ∙ ap (λ b. b && all_hold_of ns raw) (and_holds r _ k (value-IsTruth n raw h.0))
      ∙ and_assoc (is_bool py true r) _ _

  join_any_holds :
      (ns : CondNodes Float) (raw r : Value Float)
      → AllLogical ns
      → IsTruth r
      → is_bool py true (join_values py false ns raw r) ≡ is_bool py true r || any_holds_of ns raw
  unfolding cond_value_of cond_holds AllLogical any_holds_of
  join_any_holds last_node raw r h k = or_false (is_bool py true r)
  join_any_holds (next_node n ns) raw r h k =
      join_any_holds ns raw _ h.1 (or-IsTruth r (cond_value_of py n raw))
      ∙ ap (λ b. b || any_holds_of ns raw) (or_holds r _ k (value-IsTruth n raw h.0))
      ∙ or_assoc (is_bool py true r) _ _

  -- Where the operands are comparisons, Boolean literals and such conditions again, && holds on a raw
  -- value, a missing one too, exactly if every operand does, and || exactly if some operand does.
  pub connectives_hold :
      (ns : CondNodes Float) (raw : Value Float)
      → AllLogical ns
      → (cond_holds py (cond_all ns) raw ≡ all_hold_of ns raw)
        × (cond_holds py (cond_any ns) raw ≡ any_holds_of ns raw)
  unfolding cond_holds cond_value_of
  connectives_hold ns raw h =
      (join_all_holds ns raw (bool true) h tt, join_any_holds ns raw (bool false) h tt)
