-- ===== src/Evaluators/Aggregate/Gates.antt =====
-- When a gate of evaluators.py passes.
use traceline.Common.{
  ◌≡◌, refl, subst, ◌↔◌, ◌⊎◌, inl, inr, Bool-cases, Bool, true, false, not, ◌&&◌, Option, none,
  some, List, [], ◌∷◌, ok, check-ok, arith,
}
use traceline.Common.Int.{ℤ}
use traceline.Values.{Python}
use traceline.Spec.Model.{EvaluationSpec, Metric, Gate}
use traceline.Judge.Readiness.{float_le}
use traceline.Evaluators.Numbers.{Arithmetic}
use traceline.Evaluators.Scores.{CaseScore, RunAggregate, AggregationState, value_error}
use traceline.Evaluators.Aggregate.{
  retained, denominator, rollup, aggregate_metric, below_min, above_max, gate_on, evaluate_gate,
}

-- What IEEE 754 says of the order of floats: of two that are no NaN, one is below the other or the
-- other is at most the one, never both, and no float is below a NaN or above it.
pub record FloatCompare (py : Python) : Type 0 where
  pub total :
      (x y : py.Float)
      → py.float_eq x x ≡ true
      → py.float_eq y y ≡ true
      → py.float_lt x y ≡ false
      → float_le py y x ≡ true
  pub apart : (x y : py.Float) → float_le py y x ≡ true → py.float_lt x y ≡ false
  pub nan :
      (x y : py.Float)
      → py.float_eq x x ≡ false
      → (py.float_lt x y ≡ false) × (py.float_lt y x ≡ false)

module _ (py : Python) where
  open py use {Float, float_eq, float_lt}

  -- lo ≤ v, unless one of them is a NaN.
  abbrev pub AtMost : Float → Float → Type 0
  AtMost lo v = (float_le py lo v ≡ true) ⊎ (float_eq lo lo ≡ false) ⊎ (float_eq v v ≡ false)

  -- What a bound asks, where the gate has it.
  abbrev pub IfBound : (Float → Type 0) → Option Float → Type 0
  IfBound P none = Unit
  IfBound P (some bound) = P bound

  pub not_below_iff : FloatCompare py → (lo v : Float) → (float_lt v lo ≡ false) ↔ AtMost lo v
  not_below_iff order lo v = (into, out)
    where
      into : float_lt v lo ≡ false → AtMost lo v
      into h = elim (Bool-cases (float_eq v v)) [
        | inr nan_value ↦ inr (inr nan_value)
        | inl number ↦ elim (Bool-cases (float_eq lo lo)) [
          | inr nan_bound ↦ inr (inl nan_bound)
          | inl bound ↦ inl (order.total v lo number bound h)
        ]
      ]

      out : AtMost lo v → float_lt v lo ≡ false
      out (inl le) = order.apart v lo le
      out (inr (inl nan_bound)) = (order.nan lo v nan_bound).1
      out (inr (inr nan_value)) = (order.nan v lo nan_value).0

module _ (py : Python) (ar : Arithmetic py.Float) where
  open py use {Float, float_lt}

  -- The value is at least the minimum and at most the maximum, where the gate has them.
  abbrev pub Within : Gate Float → Float → Type 0
  Within g v = IfBound py (λ lo. AtMost py lo v) g.min × IfBound py (λ hi. AtMost py v hi) g.max

  below_min_iff :
      FloatCompare py
      → (v : Float) (bound : Option Float)
      → (below_min py ar v bound ≡ false) ↔ IfBound py (λ lo. AtMost py lo v) bound
  below_min_iff order v none = (λ h. tt, λ h. refl)
  below_min_iff order v (some lo) = not_below_iff py order lo v

  above_max_iff :
      FloatCompare py
      → (v : Float) (bound : Option Float)
      → (above_max py ar v bound ≡ false) ↔ IfBound py (λ hi. AtMost py v hi) bound
  above_max_iff order v none = (λ h. tt, λ h. refl)
  above_max_iff order v (some hi) = not_below_iff py order v hi

  -- What a metric's gate asks of the aggregate's value.
  abbrev pub Passes : Option (Gate Float) → Option Float → Type 0
  Passes none v = Unit
  Passes (some g) none = ⊥
  Passes (some g) (some v) = Within g v

  bounds_iff : (low high : Bool) → (not low && not high ≡ true) ↔ ((low ≡ false) × (high ≡ false))
  bounds_iff true high = (λ h. cc, λ h. cc)
  bounds_iff false true = (λ h. cc, λ h. cc)
  bounds_iff false false = (λ h. (refl, refl), λ h. refl)

  bounds-Within :
      FloatCompare py
      → (g : Gate Float) (v : Float)
      → (not (below_min py ar v g.min) && not (above_max py ar v g.max) ≡ true) ↔ Within g v
  bounds-Within order g v =
      let split = bounds_iff (below_min py ar v g.min) (above_max py ar v g.max) in
      let low = below_min_iff order v g.min in
      let high = above_max_iff order v g.max in
      (λ h. (low.0 (split.0 h).0, high.0 (split.0 h).1), λ (l, u). split.1 (low.1 l, high.1 u))

  -- By the order of IEEE floats, a metric passes its gate exactly if it declares none, or has a value
  -- that is at least the minimum and at most the maximum, where the gate has these and neither the
  -- value nor the bound is a NaN.
  pub evaluate_gate_iff :
      FloatCompare py
      → (m : Metric Float) (a : RunAggregate Float)
      → ((evaluate_gate py ar m a).passed ≡ true) ↔ Passes m.gate a.value
  unfolding evaluate_gate gate_on
  evaluate_gate_iff order m a = go m.gate a.value
    where
      go :
          (g : Option (Gate Float)) (v : Option Float)
          → ((gate_on py ar m.metric_id g v).passed ≡ true) ↔ Passes g v
      go none v = (λ h. tt, λ h. refl)
      go (some g) none = (λ h. cc, λ h. absurd h)
      go (some g) (some v) = bounds-Within order g v

  rollup-empty :
      (m : Metric Float) (state : AggregationState) (kept dens : List (CaseScore Float))
      → (rollup py ar m state kept dens).n_denominator ≡ 0
      → (rollup py ar m state kept dens).value ≡ none
  unfolding rollup
  rollup-empty m state kept [] h = refl
  rollup-empty m state kept (d ∷ dens) h = absurd (omega (arith, h))

  -- A metric with a gate never passes it on an aggregate whose denominator is empty.
  pub unmeasured_gate :
      (spec : EvaluationSpec Float) (m : Metric Float) (scores : List (CaseScore Float))
      (expected : Option ℤ) (in_progress : Bool) (a : RunAggregate Float) (g : Gate Float)
      → aggregate_metric py ar spec m scores expected in_progress ≡ ok a
      → m.gate ≡ some g
      → a.n_denominator ≡ 0
      → (evaluate_gate py ar m a).passed ≡ false
  unfolding aggregate_metric evaluate_gate gate_on
  unmeasured_gate spec m scores expected in_progress a g h gated empty =
      let done = (check-ok _ value_error h).1 in
      let value =
        subst (λ (x : RunAggregate Float). x.n_denominator ≡ 0 → x.value ≡ none) done
          (rollup-empty m _ (retained scores)
            (denominator m.aggregation.on_error (retained scores)))
          empty in
      rw (gated, value) refl
