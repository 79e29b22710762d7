-- ===== src/Evaluators/Condition/Tokens.antt =====
-- The lexer of `_CondParser` in evaluators.py. The functions walk the text and count the position i;
-- what they read is returned with the text that is left and its position.
use Prim.Native.Char.{Char, code}
use Prim.Native.String
use Prim.Native.String.{String, [], ◌∷◌}
use traceline.Common.{
  ℕ, zero, suc, ◌+◌, true, false, ◌&&◌, ◌||◌, List, Option, none, some, Result, ok, err, ◌>>=◌,
  ◌==◌, if◌then◌else◌,
}
use mathlib.Core.Option
use traceline.Values.{Value, int, float, str, Python}
use traceline.Predicate.Tokens.{
  str_length, push, is_space, is_minus, is_nil, is_word_start, is_word, span, take_one, fraction,
  two_op, starts_digit, drop_one,
}

-- A token's kind and value.
pub data CondKind (F : Type 0) : Type 0 where
  cond_op : String → CondKind F
  open_paren close_paren : CondKind F
  cond_value : Value F → CondKind F
  cond_ident : String → CondKind F
  cond_eof : CondKind F

pub data CondToken (F : Type 0) : Type 0 where
  cond_token : CondKind F → ℕ → CondToken F

-- What `compile` raises: a ConditionError with its position, a ValueError of int() or float(), or the
-- IndexError of a read behind the tokens. `no_fuel` is the model's own.
pub data CondProblem : Type 0 where
  cond_error : ℕ → CondProblem
  cond_value_error cond_index_error no_fuel : CondProblem

-- The character that an escape stands for, if it is one of `\\`, `"`, `'`, `n`, `t` and `r`.
unfoldable pub cond_escape : String → Option Char
cond_escape [] = none
cond_escape (c ∷ _) =
    if code c == 92 || code c == 34 || code c == 39
    then some c
    else if code c == b'n'
    then some "\n"
    else if code c == b't'
    then some "\t"
    else if code c == b'r'
    then some "\r"
    else none

module _ (py : Python) where
  open py use {Float, to_int, to_float, is_digit}

  abbrev pub CondScan : Type 0 → Type 0
  CondScan A = Result CondProblem (A × String × ℕ)

  -- The loop of `_scan_string`, on fuel, from position i with what it has read so far.
  unfoldable pub scan_text : (fuel quote start i : ℕ) → String → String → CondScan String
  unfolding cond_escape
  scan_text zero quote start i out cs = err no_fuel
  scan_text (suc f) quote start i out [] = err (cond_error start)
  scan_text (suc f) quote start i out (c ∷ cs) = elim (code c == quote) [
    | true ↦ ok (out, cs, i + 1)
    | false ↦ elim (if code c == 92 then cond_escape cs else none) [
      | some x ↦ scan_text f quote start (i + 2) (push out x) (drop_one py cs)
      | none ↦ scan_text f quote start (i + 1) (push out c) cs
    ]
  ]

  abbrev pub value_or_raise : Option (Value Float) → Result CondProblem (Value Float)
  value_or_raise none = err cond_value_error
  value_or_raise (some v) = ok v

  unfoldable pub scan_value : ℕ → String → CondScan (Value Float)
  unfolding span take_one
  scan_value i cs =
      let sign = take_one py (is_minus py) cs in
      let digits = span py is_digit sign.1 in
      let frac = fraction py digits.1 in
      let raw = String.◌++◌ sign.0 (String.◌++◌ digits.0 frac.0) in
      value_or_raise
        (if is_nil py frac.0 then Option.map int (to_int raw) else Option.map float (to_float raw))
      >>= λ v. ok (v, frac.1, i + str_length raw)

  -- The token of one character.
  unfoldable pub char_kind : ℕ → Option (CondKind Float)
  char_kind c =
      if c == b'<'
      then some (cond_op "<")
      else if c == b'>'
      then some (cond_op ">")
      else if c == b'!'
      then some (cond_op "!")
      else if c == b'('
      then some open_paren
      else if c == b')'
      then some close_paren
      else none

  abbrev pub some_kind :
      {A : Type 0} → (A → CondKind Float) → CondScan A → CondScan (Option (CondKind Float))
  some_kind f m = m >>= λ (a, rest, j). ok (some (f a), rest, j)

  -- The literals, the words, and what is none of them.
  unfoldable pub word_token : ℕ → Char → String → CondScan (Option (CondKind Float))
  unfolding scan_text scan_value span
  word_token i c cs =
      if code c == 34 || code c == 39
      then some_kind (λ s. cond_value (str s))
          (scan_text (suc (str_length cs)) (code c) i (i + 1) [] cs)
      else if is_digit (code c) || (code c == b'-' && starts_digit py cs)
      then some_kind cond_value (scan_value i (c ∷ cs))
      else if is_word_start py (code c)
      then (let word = span py (is_word py) cs in
          ok (some (cond_ident (c ∷ word.0)), word.1, i + 1 + str_length word.0))
      else err (cond_error i)

  abbrev pub char_token :
      ℕ → Char → String → Option (CondKind Float) → CondScan (Option (CondKind Float))
  char_token i c cs (some k) = ok (some k, cs, i + 1)
  char_token i c cs none = word_token i c cs

  abbrev pub pair_token : ℕ → Char → String → Option String → CondScan (Option (CondKind Float))
  pair_token i c cs (some o) = ok (some (cond_op o), drop_one py cs, i + 2)
  pair_token i c cs none = char_token i c cs (char_kind (code c))

  -- One round of the loop of `_tokenize` at the character c; `none` at white space.
  unfoldable pub cond_next : ℕ → Char → String → CondScan (Option (CondKind Float))
  unfolding two_op char_kind word_token
  cond_next i c cs =
      if is_space py (code c)
      then ok (none, cs, i + 1)
      else pair_token i c cs (two_op py (code c) cs)

  abbrev pub add_token :
      Option (CondKind Float) → ℕ → List (CondToken Float) → List (CondToken Float)
  add_token none i ts = ts
  add_token (some k) i ts = List.◌∷◌ (cond_token k i) ts

  unfoldable pub cond_tokens_from : ℕ → ℕ → String → Result CondProblem (List (CondToken Float))
  unfolding cond_next
  cond_tokens_from zero i cs = err no_fuel
  cond_tokens_from (suc f) i [] = ok (List.◌∷◌ (cond_token cond_eof i) List.[])
  cond_tokens_from (suc f) i (c ∷ cs) =
      cond_next i c cs >>= λ (k, rest, j). cond_tokens_from f j rest >>= λ ts. ok (add_token k i ts)

  unfoldable pub cond_tokenize : String → Result CondProblem (List (CondToken Float))
  unfolding cond_tokens_from
  cond_tokenize s = cond_tokens_from (suc (str_length s)) 0 s
