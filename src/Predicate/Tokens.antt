-- ===== src/Predicate/Tokens.antt =====
-- The lexer of predicates.py. The functions walk the text and count the position `i`; what they read
-- is returned with the text that is left and its position.
pub mod Sound
use Prim.Native.Char.{Char, code}
use Prim.Native.String
use Prim.Native.String.{String, [], ◌∷◌}
use traceline.Common.{
  ℕ, zero, suc, ◌+◌, ◌-◌, ◌*◌, Bool, true, false, ◌&&◌, ◌||◌, not, List, [], ◌∷◌, Option, none,
  some, Result, ok, err, ◌>>=◌, leb, ◌==◌, if◌then◌else◌,
}
use mathlib.Core.Option
use traceline.Common.Int.{ℤ}
use traceline.Values.{Python}

-- A token's kind and value, without its position.
pub data Kind (F : Type 0) : Type 0 where
  ident : String → Kind F
  int_number : ℤ → Kind F
  float_number : F → Kind F
  text : String → Kind F
  op : String → Kind F
  dot : Kind F
  lparen : Kind F
  rparen : Kind F
  eof : Kind F

-- A token with its position.
pub data Token (F : Type 0) : Type 0 where
  token : Kind F → ℕ → Token F

-- What a PredicateSyntaxError says, without the texts that it quotes.
pub data Syntactic : Type 0 where
  unterminated_escape bad_unicode_escape unknown_escape unterminated_string : Syntactic
  unexpected_character nesting_exceeded unexpected_trailing unclosed_parenthesis : Syntactic
  expected_expression expected_identifier reserved_word empty_predicate : Syntactic

-- What a PredicateSemanticError says.
pub data Semantic : Type 0 where
  underscore_identifier unknown_field : Semantic

-- What compilation raises. The first two are PredicateErrors; `value_error` is Python's, from int()
-- or float(). `index_error` (a token list read past its end) and `out_of_fuel` never occur.
pub data CompileError : Type 0 where
  syntax : ℕ → Syntactic → CompileError
  semantic : Semantic → CompileError
  value_error : CompileError
  index_error : CompileError
  out_of_fuel : CompileError

abbrev pub str_length : String → ℕ
str_length [] = 0
str_length (c ∷ s) = suc (str_length s)

abbrev pub push : String → Char → String
push s c = String.◌++◌ s (c ∷ [])

-- The value of a hexadecimal digit.
unfoldable pub hex_value : ℕ → Option ℕ
hex_value c =
    if leb b'0' c && leb c b'9'
    then some (c - b'0')
    else if leb b'a' c && leb c b'f'
    then some (c - b'a' + 10)
    else if leb b'A' c && leb c b'F'
    then some (c - b'A' + 10)
    else none

abbrev pub and_digit : Option ℕ → Option ℕ → Option ℕ
and_digit (some h) (some d) = some (h * 16 + d)
and_digit _ _ = none

-- int(hex4, 16), if all four are digits
unfoldable pub hex4 : Char → Char → Char → Char → Option ℕ
unfolding hex_value
hex4 a b c d =
    and_digit (and_digit (and_digit (hex_value (code a)) (hex_value (code b))) (hex_value (code c)))
      (hex_value (code d))

module _ (py : Python) where
  open py use {Float, to_int, to_float, chr, is_digit, is_alpha, is_alnum}

  -- _ESCAPES
  unfoldable pub escape : ℕ → Option Char
  escape c =
      if c == b'n'
      then some (chr 10)
      else if c == b't'
      then some (chr 9)
      else if c == b'r'
      then some (chr 13)
      else if c == b'b'
      then some (chr 8)
      else if c == b'f'
      then some (chr 12)
      else if c == 34
      then some (chr 34)
      else if c == 39
      then some (chr 39)
      else if c == 92
      then some (chr 92)
      else none

  -- What is read, the text behind it, and its position.
  abbrev pub Scan : Type 0 → Type 0
  Scan A = Result CompileError (A × String × ℕ)

  abbrev pub or_raise : {A : Type 0} → CompileError → Option A → Result CompileError A
  or_raise e none = err e
  or_raise e (some a) = ok a

  abbrev pub unicode_escape : ℕ → String → Scan Char
  unicode_escape i (a ∷ (b ∷ (c ∷ (d ∷ cs)))) =
      or_raise (syntax i bad_unicode_escape) (hex4 a b c d) >>= λ n. ok (chr n, cs, i + 6)
  unicode_escape i _ = err (syntax i bad_unicode_escape)

  -- Behind the backslash at position i.
  unfoldable pub scan_escape : ℕ → String → Scan Char
  unfolding hex4 escape
  scan_escape i [] = err (syntax i unterminated_escape)
  scan_escape i (e ∷ cs) =
      if code e == b'u'
      then unicode_escape i cs
      else or_raise (syntax i unknown_escape) (escape (code e)) >>= λ x. ok (x, cs, i + 2)

  -- The loop of `_scan_string`, on fuel, from position i with what it has read so far.
  unfoldable pub scan_string : (fuel quote start i : ℕ) → String → String → Scan String
  unfolding scan_escape
  scan_string zero quote start i out cs = err out_of_fuel
  scan_string (suc f) quote start i out [] = err (syntax start unterminated_string)
  scan_string (suc f) quote start i out (c ∷ cs) = elim (code c == quote) [
    | true ↦ ok (out, cs, i + 1)
    | false ↦ elim (code c == 92) [
      | true ↦ scan_escape i cs >>= λ (x, rest, j). scan_string f quote start j (push out x) rest
      | false ↦ scan_string f quote start (i + 1) (push out c) cs
    ]
  ]

  -- The longest prefix of characters that pass, and the rest.
  unfoldable pub span : (ℕ → Bool) → String → String × String
  span p [] = ([], [])
  span p (c ∷ cs) = let r = span p cs in if p (code c) then (c ∷ r.0, r.1) else ([], c ∷ cs)

  -- One character, if it passes.
  unfoldable pub take_one : (ℕ → Bool) → String → String × String
  take_one p [] = ([], [])
  take_one p (c ∷ cs) = if p (code c) then (c ∷ [], cs) else ([], c ∷ cs)

  abbrev pub is_minus : ℕ → Bool
  is_minus c = c == b'-'

  abbrev pub is_dot : ℕ → Bool
  is_dot c = c == b'.'

  abbrev pub is_exponent : ℕ → Bool
  is_exponent c = c == b'e' || c == b'E'

  abbrev pub is_sign : ℕ → Bool
  is_sign c = c == b'+' || c == b'-'

  abbrev pub is_nil : String → Bool
  is_nil [] = true
  is_nil (_ ∷ _) = false

  -- Optional parts behind a marker: nothing if the marker is not there.
  abbrev pub fraction : String → String × String
  fraction cs =
      let mark = take_one is_dot cs in
      let digits = span is_digit mark.1 in
      if is_nil mark.0 then ([], cs) else (String.◌++◌ mark.0 digits.0, digits.1)

  abbrev pub exponent : String → String × String
  exponent cs =
      let mark = take_one is_exponent cs in
      let sign = take_one is_sign mark.1 in
      let digits = span is_digit sign.1 in
      if is_nil mark.0
      then ([], cs)
      else (String.◌++◌ mark.0 (String.◌++◌ sign.0 digits.0), digits.1)

  abbrev pub number_kind : Bool → String → Result CompileError (Kind Float)
  number_kind true raw = or_raise value_error (Option.map float_number (to_float raw))
  number_kind false raw = or_raise value_error (Option.map int_number (to_int raw))

  unfoldable pub scan_number : ℕ → String → Scan (Kind Float)
  unfolding span take_one
  scan_number i cs =
      let sign = take_one is_minus cs in
      let whole = span is_digit sign.1 in
      let frac = fraction whole.1 in
      let expo = exponent frac.1 in
      let raw = String.◌++◌ sign.0 (String.◌++◌ whole.0 (String.◌++◌ frac.0 expo.0)) in
      number_kind (not (is_nil frac.0 && is_nil expo.0)) raw >>= λ k.
      ok (k, expo.1, i + str_length raw)

  abbrev pub is_space : ℕ → Bool
  is_space c = c == 32 || c == 9 || c == 13 || c == 10

  abbrev pub is_word_start : ℕ → Bool
  is_word_start c = is_alpha c || c == b'_'

  abbrev pub is_word : ℕ → Bool
  is_word c = is_alnum c || c == b'_'

  -- The operator of two characters that the text begins with.
  unfoldable pub two_op : ℕ → String → Option String
  two_op c [] = none
  two_op c (d ∷ _) =
      let k = code d in
      if c == b'=' && k == b'='
      then some "=="
      else if c == b'!' && k == b'='
      then some "!="
      else if c == b'<' && k == b'='
      then some "<="
      else if c == b'>' && k == b'='
      then some ">="
      else if c == b'&' && k == b'&'
      then some "&&"
      else if c == b'|' && k == b'|'
      then some "||"
      else none

  -- The token of one character.
  unfoldable pub one_kind : ℕ → Option (Kind Float)
  one_kind c =
      if c == b'<'
      then some (op "<")
      else if c == b'>'
      then some (op ">")
      else if c == b'!'
      then some (op "!")
      else if c == b'('
      then some lparen
      else if c == b')'
      then some rparen
      else if c == b'.'
      then some dot
      else none

  abbrev pub starts_digit : String → Bool
  starts_digit [] = false
  starts_digit (d ∷ _) = is_digit (code d)

  abbrev pub drop_one : String → String
  drop_one [] = []
  drop_one (_ ∷ cs) = cs

  abbrev pub keep_kind : {A : Type 0} → (A → Kind Float) → Scan A → Scan (Option (Kind Float))
  keep_kind f m = m >>= λ (a, rest, j). ok (some (f a), rest, j)

  -- The literals, the words, and what is none of them.
  unfoldable pub long_token : ℕ → Char → String → Scan (Option (Kind Float))
  unfolding scan_string scan_number span
  long_token i c cs =
      if code c == 34 || code c == 39
      then keep_kind text (scan_string (suc (str_length cs)) (code c) i (i + 1) [] cs)
      else if is_digit (code c) || (code c == b'-' && starts_digit cs)
      then keep_kind (λ k. k) (scan_number i (c ∷ cs))
      else if is_word_start (code c)
      then (let word = span is_word cs in
          ok (some (ident (c ∷ word.0)), word.1, i + 1 + str_length word.0))
      else err (syntax i unexpected_character)

  abbrev pub one_token : ℕ → Char → String → Option (Kind Float) → Scan (Option (Kind Float))
  one_token i c cs (some k) = ok (some k, cs, i + 1)
  one_token i c cs none = long_token i c cs

  abbrev pub two_token : ℕ → Char → String → Option String → Scan (Option (Kind Float))
  two_token i c cs (some o) = ok (some (op o), drop_one cs, i + 2)
  two_token i c cs none = one_token i c cs (one_kind (code c))

  -- One round of the loop of `_tokenize` at the character c; `none` at white space.
  unfoldable pub next_token : ℕ → Char → String → Scan (Option (Kind Float))
  unfolding two_op one_kind long_token
  next_token i c cs =
      if is_space (code c) then ok (none, cs, i + 1) else two_token i c cs (two_op (code c) cs)

  abbrev pub cons_token : Option (Kind Float) → ℕ → List (Token Float) → List (Token Float)
  cons_token none i ts = ts
  cons_token (some k) i ts = token k i ∷ ts

  unfoldable pub tokens_from : ℕ → ℕ → String → Result CompileError (List (Token Float))
  unfolding next_token
  tokens_from zero i cs = err out_of_fuel
  tokens_from (suc f) i [] = ok (token eof i ∷ [])
  tokens_from (suc f) i (c ∷ cs) =
      next_token i c cs >>= λ (k, rest, j). tokens_from f j rest >>= λ ts. ok (cons_token k i ts)

  unfoldable pub tokenize : String → Result CompileError (List (Token Float))
  unfolding tokens_from
  tokenize s = tokens_from (suc (str_length s)) 0 s
