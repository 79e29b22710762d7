-- ===== src/Evaluators/Condition/Parser.antt =====
-- The recursive descent of `_CondParser` in evaluators.py, on the list of the tokens that are left. The
-- nesting is bounded by fuel, as many levels as there are tokens; Python's own recursion limit is left
-- out.
use Prim.Native.Char.{code}
use traceline.Common.{
  ℕ, zero, suc, String, Bool, true, false, List, [], ◌∷◌, Option, none, some, Result, ok, err,
  ◌>>=◌, str_eq, length, if◌then◌else◌,
}
use traceline.Values.{bool, null, Python}
use traceline.Predicate.Syntax.{CompareOp}
use traceline.Predicate.Parser.{compare_op}
use traceline.Evaluators.Condition.Tokens.{
  cond_op, open_paren, close_paren, cond_value, cond_ident, cond_eof, CondToken, cond_token,
  CondProblem, cond_error, cond_index_error, no_fuel, cond_tokenize,
}
use traceline.Evaluators.Condition.Eval.{
  CondNode, cond_literal, cond_raw, cond_compare, cond_all, cond_any, cond_negate, CondNodes,
  last_node, next_node,
}

-- What is parsed, and the tokens behind it.
abbrev pub CondParser : Type 0 → Type 0
CondParser F = List (CondToken F) → Result CondProblem (CondNode F × List (CondToken F))

module _ {F : Type 0} where
  -- A word as an operand: raw_value, or one of the three literals.
  unfoldable pub word_node : String → Option (CondNode F)
  word_node w =
      if str_eq w "raw_value"
      then some cond_raw
      else if str_eq w "true"
      then some (cond_literal (bool true))
      else if str_eq w "false"
      then some (cond_literal (bool false))
      else if str_eq w "null"
      then some (cond_literal null)
      else none

  abbrev pub node_or_raise : ℕ → Option (CondNode F) → CondParser F
  node_or_raise p none ts = err (cond_error p)
  node_or_raise p (some n) ts = ok (n, ts)

  abbrev pub expect_close : CondNode F → CondParser F
  expect_close n (cond_token close_paren p ∷ ts) = ok (n, ts)
  expect_close n (cond_token _ p ∷ ts) = err (cond_error p)
  expect_close n [] = err cond_index_error

  -- `inner` parses what stands in parentheses.
  unfoldable pub cond_operand : CondParser F → CondParser F
  unfolding word_node
  cond_operand inner (cond_token (cond_value v) p ∷ ts) = ok (cond_literal v, ts)
  cond_operand inner (cond_token (cond_ident w) p ∷ ts) = node_or_raise p (word_node w) ts
  cond_operand inner (cond_token open_paren p ∷ ts) = inner ts >>= λ (n, rest). expect_close n rest
  cond_operand inner (cond_token _ p ∷ ts) = err (cond_error p)
  cond_operand inner [] = err cond_index_error

  unfoldable pub next_op : List (CondToken F) → Option CompareOp
  unfolding compare_op
  next_op (cond_token (cond_op o) p ∷ ts) = compare_op o
  next_op _ = none

  abbrev pub tokens_behind : List (CondToken F) → List (CondToken F)
  tokens_behind [] = []
  tokens_behind (_ ∷ ts) = ts

  abbrev pub compare_behind : CondParser F → CondNode F → Option CompareOp → CondParser F
  compare_behind inner left none ts = ok (left, ts)
  compare_behind inner left (some o) ts = cond_operand inner (tokens_behind ts) >>= λ (right, rest).
      ok (cond_compare o left right, rest)

  unfoldable pub cond_comparison : CondParser F → CondParser F
  unfolding cond_operand compare_op next_op
  cond_comparison inner ts =
      cond_operand inner ts >>= λ (left, rest). compare_behind inner left (next_op rest) rest

  abbrev pub is_op : String → List (CondToken F) → Bool
  is_op o (cond_token (cond_op o') p ∷ ts) = str_eq o' o
  is_op o _ = false

  -- `inner_not` parses the operand of a `!`.
  unfoldable pub cond_nots : (inner_not inner : CondParser F) → CondParser F
  unfolding cond_comparison
  cond_nots inner_not inner ts =
      if is_op "!" ts
      then (inner_not (tokens_behind ts) >>= λ (n, rest). ok (cond_negate n, rest))
      else cond_comparison inner ts

  -- The rest of the nodes of the loops of `_parse_and` and `_parse_or`.
  unfoldable pub more_nodes :
      String
      → CondParser F
      → ℕ
      → List (CondToken F)
      → Result CondProblem (CondNodes F × List (CondToken F))
  more_nodes o operand zero ts = err no_fuel
  more_nodes o operand (suc fuel) ts = elim (is_op o ts) [
    | false ↦ ok (last_node, ts)
    | true ↦ operand (tokens_behind ts) >>= λ (n, rest).
        more_nodes o operand fuel rest >>= λ (ns, rest'). ok (next_node n ns, rest')
  ]

  -- A single node stands for itself.
  abbrev pub joined : (CondNodes F → CondNode F) → CondNode F → CondNodes F → CondNode F
  joined join n last_node = n
  joined join n (next_node m ms) = join (next_node n (next_node m ms))

  unfoldable pub cond_join : String → (CondNodes F → CondNode F) → CondParser F → CondParser F
  unfolding more_nodes
  cond_join o join operand ts = operand ts >>= λ (n, rest).
      more_nodes o operand (suc (length rest)) rest >>= λ (ns, rest'). ok (joined join n ns, rest')

  unfoldable pub cond_ors : CondParser F → CondParser F
  unfolding more_nodes cond_join
  cond_ors operand = cond_join "||" cond_any (cond_join "&&" cond_all operand)

  -- `_parse_not`, on fuel.
  unfoldable pub cond_levels : ℕ → CondParser F
  unfolding cond_nots cond_ors
  cond_levels zero ts = err no_fuel
  cond_levels (suc levels) ts =
      cond_nots (λ rest. cond_levels levels rest) (λ rest. cond_ors (cond_levels levels) rest) ts

  abbrev pub cond_finish : CondNode F → List (CondToken F) → Result CondProblem (CondNode F)
  cond_finish n (cond_token cond_eof p ∷ ts) = ok n
  cond_finish n (cond_token _ p ∷ ts) = err (cond_error p)
  cond_finish n [] = err cond_index_error

  unfoldable pub cond_parse : List (CondToken F) → Result CondProblem (CondNode F)
  unfolding cond_levels cond_ors
  cond_parse ts = cond_ors (cond_levels (length ts)) ts >>= λ (n, rest). cond_finish n rest

module _ (py : Python) where
  open py use {Float, is_blank}

  -- not text.strip()
  unfoldable pub is_blank_condition : String → Bool
  is_blank_condition String.[] = true
  is_blank_condition (String.◌∷◌ c s) =
      let rest = is_blank_condition s in if is_blank (code c) then rest else false

  -- `_Condition.compile`
  unfoldable pub compile_condition : String → Result CondProblem (CondNode Float)
  unfolding cond_tokenize cond_parse is_blank_condition
  compile_condition s =
      if is_blank_condition s then err (cond_error 0) else (cond_tokenize py s >>= cond_parse)
