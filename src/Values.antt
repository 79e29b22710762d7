-- ===== src/Values.antt =====
-- The Python values that the evaluation code handles (src/llm_agent_eval/predicates.py calls them
-- `_Value`), and what it takes from Python's runtime: floats, the conversions of literals, the
-- classes of characters and the reading of ISO 8601 texts are parameters.
use Prim.Native.Char.{Char}
use traceline.Common.{
  ℕ, ◌+◌, String, Bool, true, false, ◌&&◌, Option, none, some, List, [], ◌∷◌, ltb, ◌==◌,
  if◌then◌else◌, str_eq,
}
use traceline.Common.Int.{ℤ, pos, eqb_ℤ}

-- A `datetime`: its microseconds since the first of January of year 1, in UTC if it is aware.
-- Python compares two naive or two aware ones; an order between the two kinds is a TypeError, an
-- equality is False.
pub data DateTime : Type 0 where
  naive aware : ℕ → DateTime

abbrev pub datetime_eq : DateTime → DateTime → Bool
datetime_eq (naive a) (naive b) = a == b
datetime_eq (aware a) (aware b) = a == b
datetime_eq _ _ = false

-- a < b, `none` for the TypeError
abbrev pub datetime_lt : DateTime → DateTime → Option Bool
datetime_lt (naive a) (naive b) = some (ltb a b)
datetime_lt (aware a) (aware b) = some (ltb a b)
datetime_lt _ _ = none

-- `missing` and `unknown` are the sentinels. `model` is a pydantic object with its class and its
-- declared fields.
mutual
  pub data Value (F : Type 0) : Type 0 where
    bool : Bool → Value F
    int : ℤ → Value F
    float : F → Value F
    str : String → Value F
    null : Value F
    datetime : DateTime → Value F
    list : Items F → Value F
    dict : Entries F → Value F
    model : String → Entries F → Value F
    missing : Value F
    unknown : Value F

  pub data Items (F : Type 0) : Type 0 where
    nil : Items F
    cons : Value F → Items F → Items F

  pub data Entries (F : Type 0) : Type 0 where
    end : Entries F
    entry : String → Value F → Entries F → Entries F

abbrev pub items : {F : Type 0} → Items F → List (Value F)
items nil = []
items (cons v vs) = v ∷ items vs

abbrev pub entries_length : {F : Type 0} → Entries F → ℕ
entries_length end = 0
entries_length (entry _ _ es) = entries_length es + 1

-- d.get(key)
unfoldable pub entry_get : {F : Type 0} → String → Entries F → Option (Value F)
entry_get key end = none
entry_get key (entry k v es) = if str_eq k key then some v else entry_get key es

-- d.get(key), with None where it is absent
abbrev pub or_null : {F : Type 0} → Option (Value F) → Value F
or_null none = null
or_null (some v) = v

-- What Python's runtime supplies.
pub record Python : Type 1 where
  pub Float : Type 0
  pub float_eq : Float → Float → Bool
  pub float_lt : Float → Float → Bool
  pub int_float_eq : ℤ → Float → Bool
  pub int_float_lt : ℤ → Float → Bool
  pub float_int_lt : Float → ℤ → Bool
  -- int(text) and float(text), `none` for the ValueError
  pub to_int : String → Option ℤ
  pub to_float : String → Option Float
  -- chr(n), where it is a character: a surrogate, which Python's `str` admits, is none here
  pub chr : ℕ → Char
  -- datetime.fromisoformat(text), `none` for the ValueError
  pub from_iso_format : String → Option DateTime
  -- abs(delta.total_seconds() * 1000.0) <= ms, for a delta of so many microseconds
  pub within_millis : ℕ → ℤ → Bool
  -- str.isspace, str.isdigit, str.isalpha and str.isalnum of one character
  pub is_blank : ℕ → Bool
  pub is_digit : ℕ → Bool
  pub is_alpha : ℕ → Bool
  pub is_alnum : ℕ → Bool

module _ (py : Python) where
  open py use {Float, float_eq, int_float_eq}

  -- a bool is the int 0 or 1
  abbrev pub of_bool : Bool → ℤ
  of_bool true = pos 1
  of_bool false = pos 0

  -- a == b between a number, or a bool, and any value
  abbrev pub int_eq_value : ℤ → Value Float → Bool
  int_eq_value n (bool b) = eqb_ℤ n (of_bool b)
  int_eq_value n (int m) = eqb_ℤ n m
  int_eq_value n (float x) = int_float_eq n x
  int_eq_value n _ = false

  abbrev pub float_eq_value : Float → Value Float → Bool
  float_eq_value x (bool b) = int_float_eq (of_bool b) x
  float_eq_value x (int m) = int_float_eq m x
  float_eq_value x (float y) = float_eq x y
  float_eq_value x _ = false

  abbrev pub found_and : (Value Float → Bool) → Option (Value Float) → Bool
  found_and test none = false
  found_and test (some v) = test v

  -- Python's own `==`, on lists and dicts by members.
  unfoldable mutual
    pub py_eq : Value Float → Value Float → Bool
    py_eq (bool a) v = int_eq_value (of_bool a) v
    py_eq (int n) v = int_eq_value n v
    py_eq (float x) v = float_eq_value x v
    py_eq (str s) (str t) = str_eq s t
    py_eq null null = true
    py_eq (datetime a) (datetime b) = datetime_eq a b
    py_eq (list xs) (list ys) = items_eq xs ys
    py_eq (dict a) (dict b) = (entries_length a == entries_length b) && entries_in a b
    py_eq (model c a) (model d b) =
        str_eq c d && ((entries_length a == entries_length b) && entries_in a b)
    py_eq missing missing = true
    py_eq unknown unknown = true
    py_eq _ _ = false

    pub items_eq : Items Float → Items Float → Bool
    items_eq nil nil = true
    items_eq (cons x xs) (cons y ys) = py_eq x y && items_eq xs ys
    items_eq _ _ = false

    pub entries_in : Entries Float → Entries Float → Bool
    entries_in end b = true
    entries_in (entry k v es) b = found_and (py_eq v) (entry_get k b) && entries_in es b
