-- ===== src/Evaluators/Condition/Total.antt =====
-- The parser of `_CondParser` in evaluators.py comes to an end, and reads no token behind the last.
use traceline.Common.{
  ℕ, zero, suc, ◌-◌, ◌≤◌, ◌<◌, ◌≡◌, refl, String, Bool, true, false, List, [], ◌∷◌, Option, none,
  some, Result, ok, err, ◌>>=◌, length, arith, Bool-cases, inl, inr, if◌then◌else◌,
}
use traceline.Values.{Python}
use traceline.Predicate.Syntax.{CompareOp}
use traceline.Predicate.Parser.{compare_op}
use traceline.Evaluators.Condition.Tokens.{
  CondKind, cond_op, open_paren, close_paren, cond_value, cond_ident, cond_eof, CondToken,
  cond_token, CondProblem, cond_tokenize,
}
use traceline.Evaluators.Condition.Eval.{
  CondNode, cond_compare, cond_negate, CondNodes, cond_any, cond_all, next_node,
}
use traceline.Evaluators.Condition.Parser.{
  CondParser, word_node, node_or_raise, expect_close, cond_operand, next_op, tokens_behind,
  compare_behind, cond_comparison, is_op, cond_nots, more_nodes, joined, cond_join, cond_ors,
  cond_levels, cond_finish, cond_parse, is_blank_condition, compile_condition,
}
use traceline.Evaluators.Condition.Lexed.{
  IsCondError, IsEnd, EndsCond, CondTokens, cond_tokenize-CondTokens,
}

module _ {F : Type 0} where
  -- What is parsed, with at most m tokens left, the last an eof; or an error.
  abbrev Good : {A : Type 0} → ℕ → Result CondProblem (A × List (CondToken F)) → Type 0
  Good m (ok (a, rest)) = EndsCond rest × (length rest ≤ m)
  Good m (err e) = IsCondError e

  -- On lists of at most g tokens the parser consumes one at least.
  abbrev Consumes : ℕ → CondParser F → Type 0
  Consumes g p =
      (m : ℕ) (ts : List (CondToken F))
      → EndsCond ts
      → length ts ≤ suc m
      → length ts ≤ g
      → Good m (p ts)

  Good-bind :
      {A B : Type 0} (m m' : ℕ) (r : Result CondProblem (A × List (CondToken F)))
      (f : A × List (CondToken F) → Result CondProblem (B × List (CondToken F)))
      → Good m r
      → ((a : A) (rest : List (CondToken F))
          → EndsCond rest
          → length rest ≤ m
          → Good m' (f (a, rest)))
      → Good m' (r >>= f)
  Good-bind m m' (ok (a, rest)) f h k = k a rest h.0 h.1
  Good-bind m m' (err e) f h k = h

  behind :
      (k : CondKind F) (p : ℕ) (ts : List (CondToken F))
      → ¬ (IsEnd k)
      → EndsCond (cond_token k p ∷ ts)
      → EndsCond ts
  behind k p [] n h = absurd (n h)
  behind k p (t ∷ ts) n h = h

  word-Good :
      (m p : ℕ) (o : Option (CondNode F)) (ts : List (CondToken F))
      → EndsCond ts
      → length ts ≤ m
      → Good m (node_or_raise p o ts)
  word-Good m p none ts h le = tt
  word-Good m p (some n) ts h le = (h, le)

  close-Good :
      (m : ℕ) (n : CondNode F) (ts : List (CondToken F))
      → EndsCond ts
      → length ts ≤ m
      → Good m (expect_close n ts)
  close-Good m n (cond_token close_paren p ∷ ts) h le =
      (behind close_paren p ts (λ x. x) h, omega arith)
  close-Good m n (cond_token k p ∷ ts) h le = tt
  close-Good m n [] h le = h

  module _ (f : ℕ) (inner : CondParser F) (inner_good : Consumes f inner) where
    operand-Consumes : Consumes (suc f) (cond_operand inner)
    unfolding cond_operand
    operand-Consumes m (cond_token (cond_value v) p ∷ ts) h le lf =
        (behind (cond_value v) p ts (λ x. x) h, omega arith)
    operand-Consumes m (cond_token (cond_ident w) p ∷ ts) h le lf =
        word-Good m p (word_node w) ts (behind (cond_ident w) p ts (λ x. x) h) (omega arith)
    operand-Consumes m (cond_token open_paren p ∷ ts) h le lf =
        Good-bind m m (inner ts) (λ (n, rest). expect_close n rest)
          (inner_good m ts (behind open_paren p ts (λ x. x) h) (omega arith) (omega arith))
          (λ n rest e l. close-Good m n rest e l)
    operand-Consumes m (cond_token _ p ∷ ts) h le lf = tt
    operand-Consumes m [] h le lf = h

    compare-Good :
        (m : ℕ) (l : CondNode F) (o : Option CompareOp) (ts : List (CondToken F))
        → o ≡ next_op ts
        → EndsCond ts
        → length ts ≤ m
        → length ts ≤ f
        → Good m (compare_behind inner l o ts)
    unfolding next_op compare_op
    compare-Good m l none ts e h le lf = (h, le)
    compare-Good m l (some o) (cond_token (cond_op w) p ∷ ts) e h le lf =
        Good-bind m m (cond_operand inner ts) (λ (r, rest). ok (cond_compare o l r, rest))
          (operand-Consumes m ts (behind (cond_op w) p ts (λ x. x) h) (omega arith) (omega arith))
          (λ r rest e' l'. (e', l'))
    compare-Good m l (some o) [] e h le lf = absurd h
    compare-Good m l (some o) (cond_token _ p ∷ ts) e h le lf = cc

    comparison-Consumes : Consumes (suc f) (cond_comparison inner)
    unfolding cond_comparison
    comparison-Consumes m ts h le lf =
        Good-bind (length ts - 1) m (cond_operand inner ts)
          (λ (l, rest). compare_behind inner l (next_op rest) rest)
          (operand-Consumes (length ts - 1) ts h (omega arith) lf)
          (λ l rest e l'. compare-Good m l (next_op rest) rest refl e (omega arith) (omega arith))

  behind_op :
      (o : String) (ts : List (CondToken F))
      → is_op o ts ≡ true
      → EndsCond ts
      → EndsCond (tokens_behind ts) × (suc (length (tokens_behind ts)) ≤ length ts)
  behind_op o (cond_token (cond_op w) p ∷ ts) e h =
      (behind (cond_op w) p ts (λ x. x) h, omega arith)
  behind_op o (cond_token _ p ∷ ts) e h = cc
  behind_op o [] e h = absurd h

  nots-Consumes :
      (f : ℕ) (inner_not inner : CondParser F)
      → Consumes f inner_not
      → Consumes f inner
      → Consumes (suc f) (cond_nots inner_not inner)
  unfolding cond_nots
  nots-Consumes f inner_not inner a b m ts h le lf = elim (Bool-cases (is_op "!" ts)) [
    | inr other ↦ rw (other, Good) (comparison-Consumes f inner b m ts h le lf)
    | inl bang ↦
        let (e, l) = behind_op "!" ts bang h in
        rw (bang, Good)
          (Good-bind m m (inner_not (tokens_behind ts)) (λ (n, rest). ok (cond_negate n, rest))
            (a m (tokens_behind ts) e (omega arith) (omega arith)) (λ n rest e' l'. (e', l')))
  ]

  module _ (g : ℕ) (o : String) (join : CondNodes F → CondNode F) (operand : CondParser F)
      (operand_good : Consumes g operand) where
    more-Good :
        (fuel m : ℕ) (ts : List (CondToken F))
        → EndsCond ts
        → length ts ≤ m
        → length ts ≤ g
        → length ts < fuel
        → Good m (more_nodes o operand fuel ts)
    unfolding more_nodes
    more-Good zero m ts h le lg enough = absurd (omega (arith, enough))
    more-Good (suc fuel) m ts h le lg enough = elim (Bool-cases (is_op o ts)) [
      | inr other ↦ rw (other, Good) (h, le)
      | inl more ↦
          let (e, l) = behind_op o ts more h in
          rw (more, Good)
            (Good-bind (length ts - 1) m (operand (tokens_behind ts))
              (λ (n, rest).
                more_nodes o operand fuel rest >>= λ (ns, rest'). ok (next_node n ns, rest'))
              (operand_good (length ts - 1) (tokens_behind ts) e (omega arith) (omega arith))
              (λ n rest e' l'.
                Good-bind m m (more_nodes o operand fuel rest)
                  (λ (ns, rest'). ok (next_node n ns, rest'))
                  (more-Good fuel m rest e' (omega arith) (omega arith) (omega arith))
                  (λ ns rest' e'' l''. (e'', l''))))
    ]

    join-Consumes : Consumes g (cond_join o join operand)
    unfolding cond_join
    join-Consumes m ts h le lg =
        Good-bind (length ts - 1) m (operand ts)
          (λ (n, rest). more_nodes o operand (suc (length rest)) rest >>= λ (ns, rest').
            ok (joined join n ns, rest'))
          (operand_good (length ts - 1) ts h (omega arith) lg)
          (λ n rest e l.
            Good-bind m m (more_nodes o operand (suc (length rest)) rest)
              (λ (ns, rest'). ok (joined join n ns, rest'))
              (more-Good (suc (length rest)) m rest e (omega arith) (omega arith) (omega arith))
              (λ ns rest' e' l'. (e', l')))

  ors-Consumes :
      (g : ℕ) (operand : CondParser F) → Consumes g operand → Consumes g (cond_ors operand)
  unfolding cond_ors
  ors-Consumes g operand s =
      join-Consumes g "||" cond_any (cond_join "&&" cond_all operand)
        (join-Consumes g "&&" cond_all operand s)

  levels-Consumes : (f : ℕ) → Consumes f (cond_levels f)
  unfolding cond_levels
  levels-Consumes zero m [] h le lf = absurd h
  levels-Consumes zero m (t ∷ ts) h le lf = absurd (omega arith)
  levels-Consumes (suc f) m ts h le lf =
      nots-Consumes f (cond_levels f) (cond_ors (cond_levels f)) (levels-Consumes f)
        (ors-Consumes f (cond_levels f) (levels-Consumes f)) m ts h le lf

  -- A node, or an error that is a ConditionError or a ValueError.
  abbrev pub CondOutcome : Result CondProblem (CondNode F) → Type 0
  CondOutcome (ok n) = Unit
  CondOutcome (err e) = IsCondError e

  finish-CondOutcome :
      (n : CondNode F) (ts : List (CondToken F)) → EndsCond ts → CondOutcome (cond_finish n ts)
  finish-CondOutcome n (cond_token cond_eof p ∷ ts) h = tt
  finish-CondOutcome n (cond_token _ p ∷ ts) h = tt
  finish-CondOutcome n [] h = h

  parse-CondOutcome : (ts : List (CondToken F)) → EndsCond ts → CondOutcome (cond_parse ts)
  unfolding cond_parse
  parse-CondOutcome ts h = go (cond_ors (cond_levels (length ts)) ts) (
      ors-Consumes (length ts) (cond_levels (length ts)) (levels-Consumes (length ts)) (length ts)
        ts h (omega arith) (omega arith))
    where
      go :
          (r : Result CondProblem (CondNode F × List (CondToken F)))
          → Good (length ts) r
          → CondOutcome (r >>= λ (n, rest). cond_finish n rest)
      go (ok (n, rest)) k = finish-CondOutcome n rest k.0
      go (err e) k = k

module _ (py : Python) where
  open py use {Float}

  -- Compiling any text as a condition ends in a node, in a ConditionError, or in the ValueError of a
  -- number: the fuel is enough, and no token is read behind the last.
  pub compile_condition-CondOutcome : (s : String) → CondOutcome (compile_condition py s)
  unfolding compile_condition
  compile_condition-CondOutcome s =
      go (is_blank_condition py s) (cond_tokenize py s) (cond_tokenize-CondTokens py s)
    where
      go :
          (b : Bool) (r : Result CondProblem (List (CondToken Float)))
          → CondTokens py r
          → CondOutcome (if b then err (CondProblem.cond_error 0) else (r >>= cond_parse))
      go true r h = tt
      go false (ok ts) h = parse-CondOutcome ts h
      go false (err e) h = h
