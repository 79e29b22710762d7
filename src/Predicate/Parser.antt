-- ===== src/Predicate/Parser.antt =====
-- The recursive-descent parser of predicates.py, as functions from the tokens that are left. The
-- first argument of `nots` is `_MAX_NESTING_DEPTH - self._depth`, the levels that `_enter_nesting`
-- still allows; the two `while` loops run on fuel.
pub mod Safe
pub mod Sound
use traceline.Common.{
  ℕ, zero, suc, String, Bool, true, false, ◌||◌, List, [], ◌∷◌, Option, none, some, Result, ok, err,
  ◌>>=◌, length, str_eq, elem_str, starts_with_code, if◌then◌else◌,
}
use traceline.Values.{bool, int, float, str, null}
use traceline.Predicate.Tokens.{
  ident, int_number, float_number, text, op, dot, lparen, rparen, eof, Token, token, CompileError,
  syntax, semantic, index_error, out_of_fuel, nesting_exceeded, unexpected_trailing,
  unclosed_parenthesis, expected_expression, expected_identifier, reserved_word,
  underscore_identifier, unknown_field,
}
use traceline.Predicate.Syntax.{
  CompareOp, eq, ne, lt, le, gt, ge, Node, literal, path, compare, and_node, or_node, not_node,
  allowed_fields,
}

-- What is parsed, and the tokens behind it.
abbrev pub Parser : Type 0 → Type 0
Parser F = List (Token F) → Result CompileError (Node F × List (Token F))

-- _MAX_NESTING_DEPTH
abbrev pub max_nesting_depth : ℕ
max_nesting_depth = 100

abbrev pub is_underscored : String → Bool
is_underscored = starts_with_code b'_'

abbrev pub reserved : List String
reserved = "true" ∷ "false" ∷ "null" ∷ []

unfoldable pub compare_op : String → Option CompareOp
compare_op o =
    if str_eq o "=="
    then some eq
    else if str_eq o "!="
    then some ne
    else if str_eq o "<"
    then some lt
    else if str_eq o "<="
    then some le
    else if str_eq o ">"
    then some gt
    else if str_eq o ">="
    then some ge
    else none

module _ {F : Type 0} where
  -- The loop of `_parse_path` over the dots.
  unfoldable pub segments : List (Token F) → Result CompileError (List String × List (Token F))
  segments (token dot _ ∷ (token (ident s) q ∷ ts)) =
      let more = segments ts >>= λ (ss, rest). ok (s ∷ ss, rest) in
      if is_underscored s
      then err (semantic underscore_identifier)
      else if elem_str s reserved
      then err (syntax q reserved_word)
      else more
  segments (token dot _ ∷ (token _ q ∷ _)) = err (syntax q expected_identifier)
  segments (token dot _ ∷ []) = err index_error
  segments [] = err index_error
  segments ts = ok ([], ts)

  -- Behind the path's first identifier.
  unfoldable pub parse_path : String → Parser F
  unfolding segments
  parse_path name ts =
      if is_underscored name
      then err (semantic underscore_identifier)
      else if elem_str name allowed_fields
      then (segments ts >>= λ (ss, rest). ok (path (name ∷ ss), rest))
      else err (semantic unknown_field)

  abbrev pub word : String → Parser F
  word s ts =
      if str_eq s "true"
      then ok (literal (bool true), ts)
      else if str_eq s "false"
      then ok (literal (bool false), ts)
      else if str_eq s "null"
      then ok (literal null, ts)
      else parse_path s ts

  abbrev pub close : Node F → Parser F
  close n (token rparen _ ∷ ts) = ok (n, ts)
  close n (token _ p ∷ _) = err (syntax p unclosed_parenthesis)
  close n [] = err index_error

  -- `inner` parses what stands in parentheses, given the position of the opening one.
  unfoldable pub parse_primary : (ℕ → Parser F) → Parser F
  unfolding parse_path
  parse_primary inner (token (int_number n) _ ∷ ts) = ok (literal (int n), ts)
  parse_primary inner (token (float_number x) _ ∷ ts) = ok (literal (float x), ts)
  parse_primary inner (token (text s) _ ∷ ts) = ok (literal (str s), ts)
  parse_primary inner (token (ident s) _ ∷ ts) = word s ts
  parse_primary inner (token lparen p ∷ ts) = inner p ts >>= λ (n, rest). close n rest
  parse_primary inner (token _ p ∷ _) = err (syntax p expected_expression)
  parse_primary inner [] = err index_error

  abbrev pub compare_with : (ℕ → Parser F) → Node F → Token F → Option CompareOp → Parser F
  compare_with inner l t none ts = ok (l, t ∷ ts)
  compare_with inner l t (some c) ts =
      parse_primary inner ts >>= λ (r, rest). ok (compare c l r, rest)

  -- Behind the left operand.
  unfoldable pub compare_rest : (ℕ → Parser F) → Node F → Parser F
  unfolding parse_primary compare_op
  compare_rest inner l (token (op o) p ∷ ts) =
      compare_with inner l (token (op o) p) (compare_op o) ts
  compare_rest inner l [] = err index_error
  compare_rest inner l ts = ok (l, ts)

  unfoldable pub parse_comparison : (ℕ → Parser F) → Parser F
  unfolding compare_rest
  parse_comparison inner ts = parse_primary inner ts >>= λ (l, rest). compare_rest inner l rest

  -- `inner_not` parses the operand of a `!`.
  unfoldable pub parse_not : (inner_not inner : ℕ → Parser F) → Parser F
  unfolding parse_comparison
  parse_not inner_not inner (token (op o) p ∷ ts) =
      if str_eq o "!"
      then (inner_not p ts >>= λ (n, rest). ok (not_node n, rest))
      else parse_comparison inner (token (op o) p ∷ ts)
  parse_not inner_not inner ts = parse_comparison inner ts

  abbrev pub starts_op : String → List (Token F) → Bool
  starts_op o (token (op o') _ ∷ _) = str_eq o' o
  starts_op o _ = false

  abbrev pub rest_of : List (Token F) → List (Token F)
  rest_of [] = []
  rest_of (_ ∷ ts) = ts

  -- The loop that `_parse_and` and `_parse_or` share: while the next token is the operator o,
  -- parse one more operand and join it on the left.
  unfoldable pub join_loop : String → (Node F → Node F → Node F) → Parser F → ℕ → Node F → Parser F
  join_loop o join operand fuel node [] = err index_error
  join_loop o join operand zero node (t ∷ ts) = err out_of_fuel
  join_loop o join operand (suc fuel) node (t ∷ ts) = elim (starts_op o (t ∷ ts)) [
    | false ↦ ok (node, t ∷ ts)
    | true ↦ operand ts >>= λ (n, rest). join_loop o join operand fuel (join node n) rest
  ]

  unfoldable pub parse_and : Parser F → Parser F
  unfolding join_loop
  parse_and operand ts =
      operand ts >>= λ (n, rest). join_loop "&&" and_node operand (length rest) n rest

  unfoldable pub parse_or : Parser F → Parser F
  unfolding parse_and join_loop
  parse_or operand ts = parse_and operand ts >>= λ (n, rest).
      join_loop "||" or_node (parse_and operand) (length rest) n rest

  -- `_enter_nesting` at the cap.
  abbrev pub too_deep : ℕ → Parser F
  too_deep p ts = err (syntax p nesting_exceeded)

  -- `_parse_not` where so many levels are left.
  unfoldable pub nots : ℕ → Parser F
  unfolding parse_not parse_or
  nots zero = parse_not too_deep too_deep
  nots (suc levels) = parse_not (λ _. nots levels) (λ _. parse_or (nots levels))

  abbrev pub finish : Node F → List (Token F) → Result CompileError (Node F)
  finish n (token eof _ ∷ _) = ok n
  finish n (token _ p ∷ _) = err (syntax p unexpected_trailing)
  finish n [] = err index_error

  unfoldable pub parse : List (Token F) → Result CompileError (Node F)
  unfolding nots parse_or
  parse ts = parse_or (nots max_nesting_depth) ts >>= λ (n, rest). finish n rest
