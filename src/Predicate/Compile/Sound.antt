-- ===== src/Predicate/Compile/Sound.antt =====
-- What a compiled predicate of predicates.py guarantees, from the text on.
use Prim.Native.String.{String}
use traceline.Common.{◌≤◌, List, Result, ok, err, ◌>>=◌, Bool-cases, inl, inr, ◌⊎◌}
use traceline.Values.{Python}
use traceline.Predicate.Tokens.{Token, CompileError, tokenize}
use traceline.Predicate.Tokens.Sound.{IsLexError, LexOutcome, tokenize_sound}
use traceline.Predicate.Syntax.{Node}
use traceline.Predicate.Parser.{parse, max_nesting_depth}
use traceline.Predicate.Parser.Safe.{IsSafe, not_depth, IsPredicateError}
use traceline.Predicate.Parser.Sound.{ParseOutcome, parse_sound}
use traceline.Predicate.Compile.{Cel, Predicate, tree, program, prototype, is_blank_text, compile}

module _ (py : Python) (celpy : Cel py.Float) where
  open py use {Float}
  open celpy use {Program}

  -- A tree with safe paths and at most 100 negations in one another; or a PredicateError, or the
  -- ValueError of a number.
  abbrev pub CompileOutcome : Result CompileError (Predicate Float Program) → Type 0
  CompileOutcome (ok (tree n)) = IsSafe n × (not_depth n ≤ max_nesting_depth)
  CompileOutcome (ok (program _)) = ⊥
  CompileOutcome (err e) = IsLexError e ⊎ IsPredicateError e

  parsed_sound :
      (r : Result CompileError (Node Float))
      → ParseOutcome r
      → CompileOutcome (r >>= λ n. ok (tree n))
  parsed_sound (ok n) h = h
  parsed_sound (err e) h = inr h

  lexed_sound :
      (r : Result CompileError (List (Token Float)))
      → LexOutcome py r
      → CompileOutcome ((r >>= parse) >>= λ n. ok (tree n))
  lexed_sound (ok ts) h = parsed_sound (parse ts) (parse_sound ts h)
  lexed_sound (err e) h = inl h

  -- Compiling any text in the prototype language comes to an end. It gives a tree, in which every
  -- path roots at a whitelisted field and no segment starts with an underscore or is a reserved word
  -- and at most 100 negations stand in one another, or it raises a PredicateError or the ValueError
  -- of a number.
  pub compile_sound : (s : String) → CompileOutcome (compile py celpy prototype s)
  unfolding compile
  compile_sound s = elim (Bool-cases (is_blank_text py celpy s)) [
    | inl blank ↦ rw (blank, CompileOutcome) (inl tt)
    | inr text ↦ rw (text, CompileOutcome) (lexed_sound (tokenize py s) (tokenize_sound py s))
  ]
