-- ===== src/Evaluators/Selectors.antt =====
-- The JSONPath subset of evaluators.py: `_selector_tokens` and `_select_from`.
pub mod Print
use Prim.Native.Char.{Char, code}
use Prim.Native.String
use Prim.Native.String.{String, [], ◌∷◌}
use traceline.Common.{
  ℕ, zero, suc, Bool, true, not, ◌&&◌, List, Option, none, some, Result, ok, err, ◌>>=◌, ◌==◌,
  str_eq, if◌then◌else◌,
}
use mathlib.Core.List
use traceline.Common.Int.{ℤ, pos}
use traceline.Values.{
  Value, list, dict, missing, Items, nil, cons, Entries, end, entry, entry_get, Python,
}
use traceline.Predicate.Tokens.{span, is_word, is_nil, str_length}
use traceline.Evaluators.Scores.{
  Raised, evaluation_error, unsupported_selector, value_error, out_of_fuel,
}

pub data Step : Type 0 where
  wildcard : Step
  index : ℤ → Step
  key : String → Step

module _ {F : Type 0} where
  -- list(d.values())
  abbrev pub dict_values : Entries F → Items F
  dict_values end = nil
  dict_values (entry k v es) = cons v (dict_values es)

  -- items[n]
  unfoldable pub item_at : ℕ → Items F → Value F
  item_at n nil = missing
  item_at zero (cons v vs) = v
  item_at (suc n) (cons v vs) = item_at n vs

  abbrev pub key_value : Option (Value F) → Value F
  key_value none = missing
  key_value (some v) = v

  -- One round of the loop of `_select_from`; a step that does not resolve gives MISSING.
  unfoldable pub select_step : Step → Value F → Value F
  unfolding item_at entry_get
  select_step wildcard (dict es) = list (dict_values es)
  select_step wildcard (list vs) = list vs
  select_step (index (pos n)) (list vs) = item_at n vs
  select_step (key k) (dict es) = key_value (entry_get k es)
  select_step _ _ = missing

  unfoldable pub select_steps : List Step → Value F → Value F
  unfolding select_step
  select_steps List.[] v = v
  select_steps (List.◌∷◌ s ss) v = select_steps ss (select_step s v)

abbrev pub unsupported : {A : Type 0} → Result Raised A
unsupported = err (evaluation_error unsupported_selector)

abbrev pub before_close : Char → Option (String × String) → Option (String × String)
before_close c none = none
before_close c (some (a, b)) = some (c ∷ a, b)

-- rest.find("]", i): what stands before it and behind it
unfoldable pub until_close : String → Option (String × String)
until_close [] = none
until_close (c ∷ cs) =
    let found = until_close cs in if code c == b']' then some ([], cs) else before_close c found

module _ (py : Python) where
  open py use {Float, is_blank, is_digit, to_int}

  abbrev pub all_chars : (ℕ → Bool) → String → Bool
  all_chars p [] = true
  all_chars p (c ∷ cs) = p (code c) && all_chars p cs

  -- text.lstrip() and text.rstrip()
  unfoldable pub strip_left : String → String
  strip_left [] = []
  strip_left (c ∷ cs) = let rest = strip_left cs in if is_blank (code c) then rest else c ∷ cs

  unfoldable pub strip_right : String → String
  strip_right [] = []
  strip_right (c ∷ cs) =
      let rest = strip_right cs in if is_blank (code c) && is_nil py rest then [] else c ∷ rest

  abbrev pub index_or_raise : Option ℤ → Result Raised Step
  index_or_raise none = err value_error
  index_or_raise (some n) = ok (index n)

  -- inner.isdigit(), which no empty text is
  abbrev pub all_digits : String → Bool
  all_digits s = not (is_nil py s) && all_chars is_digit s

  unfoldable pub bracket_step : String → Result Raised Step
  unfolding strip_left strip_right
  bracket_step raw =
      let inner = strip_right (strip_left raw) in
      if str_eq inner "*"
      then ok wildcard
      else if all_digits inner
      then index_or_raise (to_int inner)
      else unsupported

  -- Behind a dot: a wildcard, or a key.
  unfoldable pub dot_step : String → Result Raised (Step × String)
  unfolding span
  dot_step [] = unsupported
  dot_step (c ∷ cs) =
      let word = span py (is_word py) (c ∷ cs) in
      if code c == b'.'
      then unsupported
      else if code c == b'*'
      then ok (wildcard, cs)
      else if is_nil py word.0
      then unsupported
      else ok (key word.0, word.1)

  abbrev pub bracket_at : Option (String × String) → Result Raised (Step × String)
  unfolding bracket_step
  bracket_at none = unsupported
  bracket_at (some (inner, rest)) = bracket_step inner >>= λ s. ok (s, rest)

  -- One round of the loop of `_selector_tokens`.
  unfoldable pub one_step : Char → String → Result Raised (Step × String)
  unfolding dot_step until_close bracket_step
  one_step c cs =
      if code c == b'.'
      then dot_step cs
      else if code c == b'['
      then bracket_at (until_close cs)
      else unsupported

  unfoldable pub steps_from : ℕ → String → Result Raised (List Step)
  unfolding one_step
  steps_from zero cs = err out_of_fuel
  steps_from (suc f) [] = ok List.[]
  steps_from (suc f) (c ∷ cs) =
      one_step c cs >>= λ (s, rest). steps_from f rest >>= λ ss. ok (List.◌∷◌ s ss)

  unfoldable pub selector_tokens : String → Result Raised (List Step)
  unfolding steps_from
  selector_tokens rest = steps_from (suc (str_length rest)) rest

  -- The text behind a leading '$'.
  abbrev pub behind_dollar : String → Result Raised String
  behind_dollar [] = unsupported
  behind_dollar (c ∷ cs) = if code c == b'$' then ok cs else unsupported

  unfoldable pub select_from : Value Float → Option String → Result Raised (Value Float)
  unfolding selector_tokens select_steps
  select_from context none = ok context
  select_from context (some selector) = behind_dollar selector >>= λ rest.
      selector_tokens rest >>= λ steps. ok (select_steps steps context)
