-- ===== src/Evaluators/Raw/Bounds.antt =====
-- The normalised score of evaluators.py lies between 0 and 1.
use traceline.Common.{
  ◌≡◌, ◌⊎◌, inl, inr, String, Bool, true, false, ◌||◌, Option, none, some, Ensures, Bool-cases,
  arith,
}
use traceline.Values.{Value, Python}
use traceline.Spec.Model.{Scoring}
use traceline.Judge.Readiness.{float_le}
use traceline.Evaluators.Numbers.{Arithmetic, Number, as_number, to_real, min_float, number_eq}
use traceline.Evaluators.Raw.{
  clamp_unit, normalize_number, normalize_in, scaled, one_or_zero, normalize_score,
}

-- What IEEE 754 says of the order of floats.
pub record FloatOrder (py : Python) (ar : Arithmetic py.Float) : Type 0 where
  -- of two floats that are no NaN, one is less than or equal to the other
  pub total :
      (x y : py.Float)
      → py.float_eq x x ≡ true
      → py.float_eq y y ≡ true
      → py.float_lt x y ≡ false
      → float_le py y x ≡ true
  -- every order with a NaN is false
  pub nan :
      (x y : py.Float)
      → py.float_eq x x ≡ false
      → (py.float_lt x y ≡ false) × (py.float_lt y x ≡ false)
  pub zero_number : py.float_eq ar.zero_float ar.zero_float ≡ true
  pub one_number : py.float_eq ar.one_float ar.one_float ≡ true
  pub zero_le_one : float_le py ar.zero_float ar.one_float ≡ true

module _ (py : Python) (ar : Arithmetic py.Float) (to_text : Value py.Float → String)
    (order : FloatOrder py ar) where
  open py use {Float, float_eq, float_lt}
  open ar use {zero_float, one_float}

  -- The float is a NaN, or between 0 and 1.
  abbrev pub InUnit : Float → Type 0
  InUnit x =
      (float_eq x x ≡ false)
      ⊎ ((float_le py zero_float x ≡ true) × (float_le py x one_float ≡ true))

  abbrev Bounded : Float → Type 0
  Bounded x = (float_le py zero_float x ≡ true) × (float_le py x one_float ≡ true)

  or_true : (a b : Bool) → b ≡ true → a || b ≡ true
  or_true a b h = ground arith

  float_le_refl : (x : Float) → float_eq x x ≡ true → float_le py x x ≡ true
  float_le_refl x num = or_true (float_lt x x) (float_eq x x) num

  clamp_high :
      (x : Float)
      → float_eq x x ≡ true
      → float_le py zero_float x ≡ true
      → Bounded (min_float py ar x one_float)
  clamp_high x num low = elim (Bool-cases (float_lt one_float x)) [
    | inl above ↦ rw above (order.zero_le_one, float_le_refl one_float order.one_number)
    | inr below ↦ rw below (low, order.total one_float x order.one_number num below)
  ]

  clamp_unit-InUnit : (x : Float) → InUnit (clamp_unit py ar to_text x)
  clamp_unit-InUnit x = elim (Bool-cases (float_eq x x)) [
    | inl num ↦ elim (Bool-cases (float_lt x zero_float)) [
      | inl below ↦ rw below (
          inr
            (clamp_high zero_float order.zero_number (float_le_refl zero_float order.zero_number)))
      | inr above ↦
          rw above (inr (clamp_high x num (order.total x zero_float num order.zero_number above)))
    ]
    | inr nan ↦ rw ((order.nan x zero_float nan).0, (order.nan x one_float nan).1) (inl nan)
  ]

  one_or_zero-InUnit : (b : Bool) → InUnit (one_or_zero py ar to_text b)
  one_or_zero-InUnit true = inr (order.zero_le_one, float_le_refl one_float order.one_number)
  one_or_zero-InUnit false = inr (float_le_refl zero_float order.zero_number, order.zero_le_one)

  scaled-InUnit : (lo hi : Float) (x : Option Float) → Ensures InUnit (scaled py ar to_text lo hi x)
  scaled-InUnit lo hi none = tt
  scaled-InUnit lo hi (some x) = clamp_unit-InUnit (ar.div (ar.sub x lo) (ar.sub hi lo))

  pub normalize_number-InUnit :
      (lo hi : Float) (n : Number Float) → Ensures InUnit (normalize_number py ar to_text lo hi n)
  unfolding normalize_number
  normalize_number-InUnit lo hi n = elim (Bool-cases (float_lt lo hi)) [
    | inl wide ↦ rw (wide, Ensures) (scaled-InUnit lo hi (to_real py ar n))
    | inr empty ↦ rw (empty, Ensures) (one_or_zero-InUnit (number_eq py ar n lo))
  ]

  normalize_in-InUnit :
      (r : Option (Float × Float)) (n : Option (Number Float))
      → Ensures InUnit (normalize_in py ar to_text r n)
  unfolding normalize_in
  normalize_in-InUnit r none = one_or_zero-InUnit false
  normalize_in-InUnit none (some n) = tt
  normalize_in-InUnit (some (lo, hi)) (some n) = normalize_number-InUnit lo hi n

  -- A normalised score is between 0 and 1, unless it is a NaN, for every raw value and range.
  pub normalize_score-InUnit :
      (s : Scoring Float) (raw : Value Float) → Ensures InUnit (normalize_score py ar to_text s raw)
  unfolding normalize_score normalize_in
  normalize_score-InUnit s raw = normalize_in-InUnit s.range (as_number raw)
