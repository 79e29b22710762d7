-- ===== src/Evaluators/Numbers.antt =====
-- The arithmetic on floats that the scoring takes from Python, as parameters beside the comparisons
-- in Values, and the comparisons of numbers that are ints or floats.
use traceline.Common.{ℕ, Bool, false, ◌||◌, Option, none, some, List, if◌then◌else◌}
use traceline.Common.Int.{ℤ}
use traceline.Values.{Value, int, float, Python}

pub record Arithmetic (F : Type 0) : Type 0 where
  -- the floats 0.0, 1.0, 0.5 and 0.95
  pub zero_float : F
  pub one_float : F
  pub half : F
  pub most : F
  pub sub : F → F → F
  pub div : F → F → F
  -- float(n), `none` for the OverflowError
  pub of_int : ℤ → Option F
  -- a / b of ints, where a ≤ b and b is not 0
  pub ratio : ℕ → ℕ → F
  -- sum(values) of floats
  pub sum : List F → F
  -- x / n, n not 0
  pub div_count : F → ℕ → F
  -- math.ceil(p * n)
  pub ceil_times : F → ℕ → ℤ
  -- math.isfinite
  pub is_finite : F → Bool

-- A number that is no bool.
pub data Number (F : Type 0) : Type 0 where
  whole : ℤ → Number F
  real : F → Number F

-- _is_number, with the number
abbrev pub as_number : {F : Type 0} → Value F → Option (Number F)
as_number (int n) = some (whole n)
as_number (float x) = some (real x)
as_number _ = none

module _ (py : Python) (ar : Arithmetic py.Float) where
  open py use {Float, float_eq, float_lt, int_float_eq, int_float_lt, float_int_lt}
  open ar use {of_int}

  -- x <= y, x a float
  abbrev pub le_number : Float → Number Float → Bool
  le_number x (whole n) = float_int_lt x n || int_float_eq n x
  le_number x (real y) = float_lt x y || float_eq x y

  abbrev pub number_le : Number Float → Float → Bool
  number_le (whole n) y = int_float_lt n y || int_float_eq n y
  number_le (real x) y = float_lt x y || float_eq x y

  -- lo <= n <= hi
  abbrev pub between : Float → Number Float → Float → Bool
  between lo n hi = if le_number lo n then number_le n hi else false

  abbrev pub number_eq : Number Float → Float → Bool
  number_eq (whole n) y = int_float_eq n y
  number_eq (real x) y = float_eq x y

  -- The number as an operand of float arithmetic.
  abbrev pub to_real : Number Float → Option Float
  to_real (whole n) = of_int n
  to_real (real x) = some x

  -- max(x, y) and min(x, y)
  abbrev pub max_float : Float → Float → Float
  max_float x y = if float_lt x y then y else x

  abbrev pub min_float : Float → Float → Float
  min_float x y = if float_lt y x then y else x
