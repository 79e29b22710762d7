-- ===== src/Judge/Readiness.antt =====
-- The readiness of a judge binding, of judge.py: ReadinessState and JudgeReadiness. A negative count
-- of labels is a ValueError; kappas are Python's floats.
use traceline.Common.{
  ℕ, suc, ◌+◌, ◌-◌, Bool, true, false, ◌&&◌, ◌||◌, Option, none, some, ltb, leb, if◌then◌else◌,
}
use traceline.Common.Int.{ℤ, pos, negsuc}
use traceline.Values.{Python}
use traceline.Spec.Model.{JudgeBinding}

pub data ReadinessState : Type 0 where
  uncalibrated calibrating calibrated : ReadinessState

unfoldable pub readiness_is_provisional : ReadinessState → Bool
readiness_is_provisional uncalibrated = true
readiness_is_provisional calibrating = true
readiness_is_provisional calibrated = false

pub record JudgeReadiness (F : Type 0) : Type 0 where
  pub binding : JudgeBinding
  pub state : ReadinessState
  pub label_count : ℕ
  pub kappa : Option F
  pub min_labels : ℕ
  pub kappa_ready : F
  pub kappa_reset : F
  pub generation : ℕ

module _ (py : Python) where
  open py use {Float, float_eq, float_lt}

  -- x <= y
  abbrev pub float_le : Float → Float → Bool
  float_le x y = float_lt x y || float_eq x y

  abbrev pub with_state : ReadinessState → JudgeReadiness Float → JudgeReadiness Float
  with_state s r = record {
    binding = r.binding;
    state = s;
    label_count = r.label_count;
    kappa = r.kappa;
    min_labels = r.min_labels;
    kappa_ready = r.kappa_ready;
    kappa_reset = r.kappa_reset;
    generation = r.generation;
  }

  abbrev pub kappa_at_least : Float → Option Float → Bool
  kappa_at_least bound none = false
  kappa_at_least bound (some k) = float_le bound k

  abbrev pub kappa_below : Float → Option Float → Bool
  kappa_below bound none = false
  kappa_below bound (some k) = float_lt k bound

  unfoldable pub sufficient : JudgeReadiness Float → Bool
  sufficient r = leb r.min_labels r.label_count && kappa_at_least r.kappa_ready r.kappa

  -- The state that `_derive` finds.
  unfoldable pub derived_state : JudgeReadiness Float → ReadinessState
  unfolding sufficient
  derived_state r =
      let partial = if ltb 0 r.label_count then calibrating else uncalibrated in
      if kappa_below r.kappa_reset r.kappa
      then partial
      else if sufficient r
      then calibrated
      else partial

  unfoldable pub derive : JudgeReadiness Float → JudgeReadiness Float
  unfolding derived_state
  derive r = with_state (derived_state r) r

  -- label_count + n, `none` for the ValueError of __post_init__ on a negative count
  abbrev pub added : ℕ → ℤ → Option ℕ
  added count (pos n) = some (count + n)
  added count (negsuc n) = if ltb n count then some (count - suc n) else none

  unfoldable pub relabel : ℕ → JudgeReadiness Float → JudgeReadiness Float
  unfolding derive
  relabel count r = derive (record {
    binding = r.binding;
    state = r.state;
    label_count = count;
    kappa = r.kappa;
    min_labels = r.min_labels;
    kappa_ready = r.kappa_ready;
    kappa_reset = r.kappa_reset;
    generation = r.generation;
  })

  unfoldable pub relabel_if : JudgeReadiness Float → Option ℕ → Option (JudgeReadiness Float)
  unfolding relabel
  relabel_if r none = none
  relabel_if r (some count) = some (relabel count r)

  unfoldable pub with_label : ℤ → JudgeReadiness Float → Option (JudgeReadiness Float)
  unfolding relabel_if
  with_label n r = relabel_if r (added r.label_count n)

  unfoldable pub with_kappa : Float → JudgeReadiness Float → JudgeReadiness Float
  unfolding derive
  with_kappa k r = derive (record {
    binding = r.binding;
    state = r.state;
    label_count = r.label_count;
    kappa = some k;
    min_labels = r.min_labels;
    kappa_ready = r.kappa_ready;
    kappa_reset = r.kappa_reset;
    generation = r.generation;
  })

  abbrev pub or_binding : JudgeBinding → Option JudgeBinding → JudgeBinding
  or_binding b none = b
  or_binding b (some c) = c

  unfoldable pub reset : Option JudgeBinding → JudgeReadiness Float → JudgeReadiness Float
  reset b r = record {
    binding = or_binding r.binding b;
    state = uncalibrated;
    label_count = 0;
    kappa = none;
    min_labels = r.min_labels;
    kappa_ready = r.kappa_ready;
    kappa_reset = r.kappa_reset;
    generation = suc r.generation;
  }
