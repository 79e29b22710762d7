-- ===== src/Evaluators/Schema.antt =====
-- The JSON Schema subset of evaluators.py: `_validate_json_schema`, `_json_ok` and
-- `_matches_json_type`. The package re is a parameter: `none` is its re.error.
use traceline.Common.{
  ℕ, zero, suc, String, Bool, true, false, not, ◌||◌, List, [], ◌∷◌, Option, none, some, Result, ok,
  err, ◌>>=◌, any, str_eq, is_some, if◌then◌else◌,
}
use Prim.Native.Nat.{max}
use traceline.Common.Int.{pos, ltb_ℤ, eqb_ℤ}
use traceline.Values.{
  Value, bool, int, float, str, null, list, dict, model, Items, nil, cons, items, Entries, end,
  entry, entry_get, or_null, Python, of_bool,
}
use traceline.Predicate.Tokens.{str_length}
use traceline.Evaluators.Numbers.{Number, whole, real, as_number}
use traceline.Evaluators.Condition.Eval.{values_eq}
use traceline.Evaluators.Raw.{all_hold}
use traceline.Evaluators.Scores.{
  Raised, evaluation_error, bad_schema, bad_pattern, type_error, attribute_error, out_of_fuel,
}

-- re.compile(pattern), as the test whether its search finds a match in a text.
abbrev pub Search : Type 0
Search = String → Option (String → Bool)

unfoldable pub matches_json_type : {F : Type 0} → String → Value F → Bool
matches_json_type t (dict es) = str_eq t "object"
matches_json_type t (list vs) = str_eq t "array"
matches_json_type t (str s) = str_eq t "string"
matches_json_type t (int n) = str_eq t "number" || str_eq t "integer"
matches_json_type t (float x) = str_eq t "number"
matches_json_type t (bool b) = str_eq t "boolean"
matches_json_type t null = str_eq t "null"
matches_json_type t _ = false

module _ {F : Type 0} where
  abbrev pub matches_type_value : Value F → Value F → Bool
  unfolding matches_json_type
  matches_type_value (str t) v = matches_json_type t v
  matches_type_value _ v = false

  abbrev pub characters : String → List (Value F)
  characters String.[] = []
  characters (String.◌∷◌ c s) = str (String.◌∷◌ c String.[]) ∷ characters s

  abbrev pub keys_of : Entries F → List (Value F)
  keys_of end = []
  keys_of (entry k v es) = str k ∷ keys_of es

  -- What `for x in v` walks over; a TypeError on a value that is no list, text or dict.
  abbrev pub iterate : Value F → Result Raised (List (Value F))
  iterate (list vs) = ok (items vs)
  iterate (str s) = ok (characters s)
  iterate (dict es) = ok (keys_of es)
  iterate _ = err type_error

  -- key in instance, of a dict
  abbrev pub has_key_value : Entries F → Value F → Result Raised Bool
  has_key_value es (str k) = ok (is_some (entry_get k es))
  has_key_value es (list vs) = err type_error
  has_key_value es (dict ds) = err type_error
  has_key_value es _ = ok false

  -- expected is not None and the instance is of no such type
  abbrev pub type_fits : Option (Value F) → Value F → Bool
  unfolding matches_json_type
  type_fits none v = true
  type_fits (some null) v = true
  type_fits (some (list ts)) v = any (λ t. matches_type_value t v) (items ts)
  type_fits (some t) v = matches_type_value t v

-- Both tests, the second only if the first holds.
infixr 6 ◌and_then◌
abbrev pub ◌and_then◌ : Result Raised Bool → Result Raised Bool → Result Raised Bool
ok true and_then r = r
ok false and_then r = ok false
err e and_then r = err e

module _ (py : Python) (search : Search) where
  open py use {Float, float_eq, float_lt, int_float_eq, int_float_lt, float_int_lt}

  -- A number or a bool, which Python compares as a number.
  abbrev pub comparable : Value Float → Option (Number Float)
  comparable (bool b) = some (whole (of_bool py b))
  comparable v = as_number v

  -- a <= b of two numbers
  abbrev pub numbers_le : Number Float → Number Float → Bool
  numbers_le (whole n) (whole m) = ltb_ℤ n m || eqb_ℤ n m
  numbers_le (whole n) (real y) = int_float_lt n y || int_float_eq n y
  numbers_le (real x) (whole m) = float_int_lt x m || int_float_eq m x
  numbers_le (real x) (real y) = float_lt x y || float_eq x y

  -- a < b of two numbers
  abbrev pub numbers_lt : Number Float → Number Float → Bool
  numbers_lt (whole n) (whole m) = ltb_ℤ n m
  numbers_lt (whole n) (real y) = int_float_lt n y
  numbers_lt (real x) (whole m) = float_int_lt x m
  numbers_lt (real x) (real y) = float_lt x y

  -- A bound of the schema that is None, or that `test` compares with the instance; a TypeError if it is
  -- no number.
  abbrev pub bound_holds : (Number Float → Bool) → Value Float → Result Raised Bool
  bound_holds test null = ok true
  bound_holds test b = elim (comparable b) [ none ↦ err type_error | some n ↦ ok (test n) ]

  abbrev pub field_of : Entries Float → String → Value Float
  field_of es k = or_null (entry_get k es)

  abbrev pub numeric_bounds : Entries Float → Option (Number Float) → Result Raised Bool
  numeric_bounds schema none = ok true
  numeric_bounds schema (some n) =
      bound_holds (λ b. numbers_le b n) (field_of schema "minimum")
      and_then bound_holds (λ b. numbers_le n b) (field_of schema "maximum")

  abbrev pub compiled : Option (String → Bool) → Result Raised (String → Bool)
  compiled none = err (evaluation_error bad_pattern)
  compiled (some finds) = ok finds

  abbrev pub pattern_holds : Value Float → String → Result Raised Bool
  pattern_holds null s = ok true
  pattern_holds (str p) s = compiled (search p) >>= λ finds. ok (finds s)
  pattern_holds _ s = err type_error

  abbrev pub text_bounds : Entries Float → Value Float → Result Raised Bool
  text_bounds schema (str s) =
      let n = whole (pos (str_length s)) in
      bound_holds (λ b. not (numbers_lt n b)) (field_of schema "minLength")
      and_then (bound_holds (λ b. not (numbers_lt b n)) (field_of schema "maxLength")
          and_then pattern_holds (field_of schema "pattern") s)
  text_bounds schema _ = ok true

  abbrev pub enum_holds : Option (Value Float) → Value Float → Result Raised Bool
  unfolding values_eq
  enum_holds none v = ok true
  enum_holds (some e) v = iterate e >>= λ es. ok (any (λ x. values_eq py x v) es)

  abbrev pub const_holds : Option (Value Float) → Value Float → Bool
  unfolding values_eq
  const_holds none v = true
  const_holds (some c) v = values_eq py c v

  -- schema.get("required", [])
  abbrev pub required_keys : Option (Value Float) → Result Raised (List (Value Float))
  required_keys none = ok []
  required_keys (some v) = iterate v

  abbrev pub required_hold : Entries Float → Entries Float → Result Raised Bool
  unfolding all_hold
  required_hold schema es =
      required_keys (entry_get "required" schema) >>= λ keys. all_hold (has_key_value es) keys

  abbrev pub Checker : Type 0
  Checker = Value Float → Value Float → Result Raised Bool

  abbrev pub property_holds : Checker → Value Float → Option (Value Float) → Result Raised Bool
  property_holds rec sub none = ok true
  property_holds rec sub (some v) = rec sub v

  abbrev pub each_property : Checker → Entries Float → Entries Float → Result Raised Bool
  each_property rec end es = ok true
  each_property rec (entry k sub props) es =
      property_holds rec sub (entry_get k es) and_then each_property rec props es

  -- (schema.get("properties") or {}).items(), an AttributeError on what is no dict
  abbrev pub properties_hold : Checker → Value Float → Entries Float → Result Raised Bool
  properties_hold rec (dict props) es = each_property rec props es
  properties_hold rec null es = ok true
  properties_hold rec (bool false) es = ok true
  properties_hold rec (list nil) es = ok true
  properties_hold rec (str s) es = if str_eq s "" then ok true else err attribute_error
  properties_hold rec (int n) es = if eqb_ℤ n (pos 0) then ok true else err attribute_error
  properties_hold rec (float x) es = if int_float_eq (pos 0) x then ok true else err attribute_error
  properties_hold rec _ es = err attribute_error

  abbrev pub elements_hold : Checker → Value Float → List (Value Float) → Result Raised Bool
  unfolding all_hold
  elements_hold rec null vs = ok true
  elements_hold rec sub vs = all_hold (rec sub) vs

  -- The properties of an object, or the elements of an array.
  abbrev pub members_hold : Checker → Entries Float → Value Float → Result Raised Bool
  unfolding all_hold
  members_hold rec schema (dict es) =
      required_hold schema es and_then properties_hold rec (field_of schema "properties") es
  members_hold rec schema (list vs) = elements_hold rec (field_of schema "items") (items vs)
  members_hold rec schema _ = ok true

  abbrev pub object_ok : Checker → Entries Float → Value Float → Result Raised Bool
  unfolding all_hold values_eq matches_json_type
  object_ok rec schema v =
      ok (type_fits (entry_get "type" schema) v)
      and_then (enum_holds (entry_get "enum" schema) v
          and_then (ok (const_holds (entry_get "const" schema) v)
              and_then (numeric_bounds schema (as_number v)
                  and_then (text_bounds schema v and_then members_hold rec schema v))))

  abbrev pub schema_ok : Checker → Checker
  unfolding all_hold values_eq matches_json_type
  schema_ok rec (bool true) v = ok true
  schema_ok rec (dict schema) v = object_ok rec schema v
  schema_ok rec _ v = ok false

  -- `_json_ok`, on fuel
  unfoldable pub json_ok : ℕ → Checker
  unfolding all_hold values_eq matches_json_type entry_get
  json_ok zero schema v = err out_of_fuel
  json_ok (suc f) schema v = schema_ok (json_ok f) schema v

  -- How deep a value is nested, and one more.
  unfoldable mutual
    pub value_depth : Value Float → ℕ
    value_depth (list vs) = suc (items_depth vs)
    value_depth (dict es) = suc (entries_depth es)
    value_depth (model c es) = suc (entries_depth es)
    value_depth _ = 1

    pub items_depth : Items Float → ℕ
    items_depth nil = 1
    items_depth (cons v vs) = max (value_depth v) (items_depth vs)

    pub entries_depth : Entries Float → ℕ
    entries_depth end = 1
    entries_depth (entry k v es) = max (value_depth v) (entries_depth es)

  unfoldable pub validate_json_schema : Option (Entries Float) → Value Float → Result Raised Bool
  unfolding json_ok value_depth
  validate_json_schema none v = err (evaluation_error bad_schema)
  validate_json_schema (some es) v = json_ok (value_depth (dict es)) (dict es) v
