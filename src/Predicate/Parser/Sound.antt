-- ===== src/Predicate/Parser/Sound.antt =====
-- What the parser of predicates.py guarantees, one lemma for each of its functions.
use traceline.Common.{
  ℕ, zero, suc, ◌≤◌, ◌≡◌, String, true, List, [], ◌∷◌, Option, none, some, Result, ok, err, ◌>>=◌,
  length, str_eq, arith, Bool-cases, inl, inr,
}
use Prim.Native.Nat.{max, zero-le}
use traceline.Predicate.Tokens.{
  ident, int_number, float_number, text, op, lparen, rparen, eof, Token, token, CompileError,
}
use traceline.Predicate.Syntax.{CompareOp, Node, compare, and_node, or_node, not_node}
use traceline.Predicate.Parser.{
  Parser, compare_op, word, close, parse_primary, compare_with, compare_rest, parse_comparison,
  parse_not, starts_op, join_loop, parse_and, parse_or, too_deep, nots, finish, parse,
  max_nesting_depth,
}
use traceline.Predicate.Parser.Safe.{
  IsPredicateError, IsSafe, not_depth, EndsEof, Outcome, Sound, Outcome-bind, EndsEof-tail,
  parse_path_sound,
}

module _ {F : Type 0} where
  word_sound :
      (d m : ℕ) (s : String) (ts : List (Token F))
      → EndsEof ts
      → length ts ≤ m
      → Outcome d m (word s ts)
  word_sound d m s ts h le = ground (arith, parse_path_sound d m s ts h le)

  close_sound :
      (d m : ℕ) (n : Node F) (ts : List (Token F))
      → IsSafe n
      → not_depth n ≤ d
      → EndsEof ts
      → length ts ≤ m
      → Outcome d m (close n ts)
  close_sound d m n (token rparen p ∷ ts) safe shallow h le =
      (safe, shallow, EndsEof-tail rparen p ts (λ x. x) h, omega arith)
  close_sound d m n (token k p ∷ ts) safe shallow h le = tt
  close_sound d m n [] safe shallow h le = h

  module _ (d : ℕ) (inner : ℕ → Parser F) (inner_sound : (p : ℕ) → Sound d (inner p)) where
    primary-Sound : Sound d (parse_primary inner)
    unfolding parse_primary
    primary-Sound m (token (int_number n) p ∷ ts) h le =
        (tt, zero-le, EndsEof-tail (int_number n) p ts (λ x. x) h, omega arith)
    primary-Sound m (token (float_number n) p ∷ ts) h le =
        (tt, zero-le, EndsEof-tail (float_number n) p ts (λ x. x) h, omega arith)
    primary-Sound m (token (text s) p ∷ ts) h le =
        (tt, zero-le, EndsEof-tail (text s) p ts (λ x. x) h, omega arith)
    primary-Sound m (token (ident s) p ∷ ts) h le =
        word_sound d m s ts (EndsEof-tail (ident s) p ts (λ x. x) h) (omega arith)
    primary-Sound m (token lparen p ∷ ts) h le =
        Outcome-bind d d m m (inner p ts) (λ (n, rest). close n rest)
          (inner_sound p m ts (EndsEof-tail lparen p ts (λ x. x) h) (omega arith)) (close_sound d m)
    primary-Sound m (token _ p ∷ ts) h le = tt
    primary-Sound m [] h le = h

    compare_with_sound :
        (m : ℕ) (l : Node F) (o : String) (p : ℕ) (c : Option CompareOp) (ts : List (Token F))
        → IsSafe l
        → not_depth l ≤ d
        → EndsEof (token (op o) p ∷ ts)
        → suc (length ts) ≤ m
        → Outcome d m (compare_with inner l (token (op o) p) c ts)
    compare_with_sound m l o p none ts safe shallow h le = (safe, shallow, h, le)
    compare_with_sound m l o p (some c) ts safe shallow h le =
        Outcome-bind d d m m (parse_primary inner ts) (λ (r, rest). ok (compare c l r, rest))
          (primary-Sound m ts (EndsEof-tail (op o) p ts (λ x. x) h) (omega arith))
          (λ r rest safe' shallow' h' le'. ((safe, safe'), omega arith, h', le'))

    compare_rest_sound :
        (m : ℕ) (l : Node F) (ts : List (Token F))
        → IsSafe l
        → not_depth l ≤ d
        → EndsEof ts
        → length ts ≤ m
        → Outcome d m (compare_rest inner l ts)
    unfolding compare_rest
    compare_rest_sound m l (token (op o) p ∷ ts) safe shallow h le =
        compare_with_sound m l o p (compare_op o) ts safe shallow h le
    compare_rest_sound m l [] safe shallow h le = h
    compare_rest_sound m l ts safe shallow h le = (safe, shallow, h, le)

    comparison-Sound : Sound d (parse_comparison inner)
    unfolding parse_comparison
    comparison-Sound m ts h le =
        Outcome-bind d d m m (parse_primary inner ts) (λ (l, rest). compare_rest inner l rest)
          (primary-Sound m ts h le) (compare_rest_sound m)

  EndsEof-behind_op :
      (o : String) (t : Token F) (ts : List (Token F))
      → starts_op o (t ∷ ts) ≡ true
      → EndsEof (t ∷ ts)
      → EndsEof ts
  EndsEof-behind_op o (token (op o') p) ts e h = EndsEof-tail (op o') p ts (λ x. x) h
  EndsEof-behind_op o (token _ p) ts e h = cc

  -- A parser for one operand gives one for the operands joined by an operator.
  module _ (d : ℕ) (o : String) (join : Node F → Node F → Node F) (operand : Parser F)
      (join_safe : (l r : Node F) → IsSafe l → IsSafe r → IsSafe (join l r))
      (join_depth : (l r : Node F) → not_depth (join l r) ≤ max (not_depth l) (not_depth r))
      (operand_sound : Sound d operand) where
    join_loop_sound :
        (fuel m : ℕ) (n : Node F) (ts : List (Token F))
        → IsSafe n
        → not_depth n ≤ d
        → EndsEof ts
        → length ts ≤ m
        → length ts ≤ fuel
        → Outcome d m (join_loop o join operand fuel n ts)
    unfolding join_loop
    join_loop_sound fuel m n [] safe shallow h le enough = h
    join_loop_sound zero m n (t ∷ ts) safe shallow h le enough = absurd (omega arith)
    join_loop_sound (suc fuel) m n (t ∷ ts) safe shallow h le enough =
        elim (Bool-cases (starts_op o (t ∷ ts))) [
          | inr other ↦ rw (other, Outcome) (safe, shallow, h, le)
          | inl more ↦
              rw (more, Outcome)
                (Outcome-bind d d (length ts) m (operand ts)
                  (λ (r, rest). join_loop o join operand fuel (join n r) rest)
                  (operand_sound (length ts) ts (EndsEof-behind_op o t ts more h) (omega arith))
                  (λ r rest safe' shallow' h' le'.
                    join_loop_sound fuel m (join n r) rest (join_safe n r safe safe')
                      (omega (arith, join_depth n r)) h' (omega arith) (omega arith)))
        ]

    joined-Sound :
        Sound d (λ ts. operand ts >>= λ (n, rest). join_loop o join operand (length rest) n rest)
    joined-Sound m ts h le =
        Outcome-bind d d m m (operand ts)
          (λ (n, rest). join_loop o join operand (length rest) n rest) (operand_sound m ts h le)
          (λ n rest safe shallow h' le'.
            join_loop_sound (length rest) m n rest safe shallow h' le' (omega arith))

  parse_or-Sound : (d : ℕ) (operand : Parser F) → Sound d operand → Sound d (parse_or operand)
  unfolding parse_or
  parse_or-Sound d operand s =
      joined-Sound d "||" or_node (parse_and operand) (λ l r a b. (a, b)) (λ l r. omega arith)
        (joined-Sound d "&&" and_node operand (λ l r a b. (a, b)) (λ l r. omega arith) s)

  parse_not-Sound :
      (d : ℕ) (inner_not inner : ℕ → Parser F)
      → ((p m : ℕ) (ts : List (Token F))
          → EndsEof ts
          → length ts ≤ suc m
          → Outcome d m (inner_not p ts >>= λ (n, rest). ok (not_node n, rest)))
      → ((p : ℕ) → Sound d (inner p))
      → Sound d (parse_not inner_not inner)
  unfolding parse_not
  parse_not-Sound d inner_not inner a b m (token (op o) p ∷ ts) h le =
      elim (Bool-cases (str_eq o "!")) [
        | inl is_not ↦
            rw (is_not, Outcome) (a p m ts (EndsEof-tail (op o) p ts (λ x. x) h) (omega arith))
        | inr other ↦ rw (other, Outcome) (comparison-Sound d inner b m (token (op o) p ∷ ts) h le)
      ]
  parse_not-Sound d inner_not inner a b m [] h le = comparison-Sound d inner b m [] h le
  parse_not-Sound d inner_not inner a b m (token k p ∷ ts) h le =
      comparison-Sound d inner b m (token k p ∷ ts) h le

  Outcome-deeper :
      (d m : ℕ) (r : Result CompileError (Node F × List (Token F)))
      → Outcome d m r
      → Outcome (suc d) m r
  Outcome-deeper d m (ok (n, rest)) h = (h.0, omega arith, h.2, h.3)
  Outcome-deeper d m (err e) h = h

  -- Whatever the levels left, the parser consumes a token at least, and gives a safe node with no
  -- more negations in one another than levels, or a PredicateError.
  nots-Sound : (levels : ℕ) → Sound {F = F} levels (nots levels)
  unfolding nots
  nots-Sound zero = parse_not-Sound 0 too_deep too_deep (λ p m ts h le. tt) (λ p m ts h le. tt)
  nots-Sound (suc levels) =
      let rest = nots-Sound levels in
      parse_not-Sound (suc levels) (λ _. nots levels) (λ _. parse_or (nots levels))
        (λ p m ts h le.
          Outcome-bind levels (suc levels) m m (nots levels ts) (λ (n, rest). ok (not_node n, rest))
            (rest m ts h le) (λ n rest' safe shallow h' le'. (safe, omega arith, h', le')))
        (λ p m ts h le.
          Outcome-deeper levels m (parse_or (nots levels) ts)
            (parse_or-Sound levels (nots levels) rest m ts h le))

  abbrev pub ParseOutcome : Result CompileError (Node F) → Type 0
  ParseOutcome (ok n) = IsSafe n × (not_depth n ≤ max_nesting_depth)
  ParseOutcome (err e) = IsPredicateError e

  finish_sound :
      (m : ℕ) (r : Result CompileError (Node F × List (Token F)))
      → Outcome max_nesting_depth m r
      → ParseOutcome (r >>= λ (n, rest). finish n rest)
  finish_sound m (ok (n, token eof _ ∷ _)) h = (h.0, h.1)
  finish_sound m (ok (n, token _ p ∷ _)) h = tt
  finish_sound m (ok (n, [])) h = h.2
  finish_sound m (err e) h = h

  -- On every token list that ends in an eof, parsing comes to an end with a tree or a PredicateError
  -- (it neither runs out of fuel nor reads past the list). In the tree every path roots at a
  -- whitelisted field, has no segment that starts with an underscore or is a reserved word, and at
  -- most 100 negations stand in one another.
  pub parse_sound : (ts : List (Token F)) → EndsEof ts → ParseOutcome (parse ts)
  unfolding parse
  parse_sound ts h = finish_sound (length ts) (parse_or (nots max_nesting_depth) ts) (
      parse_or-Sound max_nesting_depth (nots max_nesting_depth) (nots-Sound max_nesting_depth)
        (length ts) ts h (omega arith))
