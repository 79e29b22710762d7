-- ===== src/Predicate/Parser/Safe.antt =====
-- Safe trees, the outcomes of the parser of predicates.py on the tokens that are left, and its paths.
use traceline.Common.{
  ℕ, suc, ◌≤◌, ◌≡◌, String, true, false, List, [], ◌∷◌, Result, ok, err, ◌>>=◌, length, elem_str,
  All, arith, Bool-cases, inl, inr,
}
use Prim.Native.Nat.{max, zero-le}
use traceline.Predicate.Tokens.{Kind, ident, dot, eof, Token, token, CompileError, syntax, semantic}
use traceline.Predicate.Syntax.{
  Node, literal, path, compare, and_node, or_node, not_node, allowed_fields,
}
use traceline.Predicate.Parser.{Parser, is_underscored, reserved, segments, parse_path}

-- A PredicateError, with or without a position.
abbrev pub IsPredicateError : CompileError → Type 0
IsPredicateError (syntax _ _) = Unit
IsPredicateError (semantic _) = Unit
IsPredicateError _ = ⊥

abbrev pub IsSegment : String → Type 0
IsSegment s = (is_underscored s ≡ false) × (elem_str s reserved ≡ false)

-- The path roots at a whitelisted field, and no segment of it starts with an underscore or is a
-- reserved word.
abbrev pub IsSafePath : List String → Type 0
IsSafePath [] = ⊥
IsSafePath (name ∷ segs) = (elem_str name allowed_fields ≡ true) × All IsSegment segs

module _ {F : Type 0} where
  -- Every path in the tree is safe.
  abbrev pub IsSafe : Node F → Type 0
  IsSafe (literal _) = Unit
  IsSafe (path segs) = IsSafePath segs
  IsSafe (compare _ l r) = IsSafe l × IsSafe r
  IsSafe (and_node l r) = IsSafe l × IsSafe r
  IsSafe (or_node l r) = IsSafe l × IsSafe r
  IsSafe (not_node n) = IsSafe n

  -- How many negations stand in one another.
  abbrev pub not_depth : Node F → ℕ
  not_depth (literal _) = 0
  not_depth (path _) = 0
  not_depth (compare _ l r) = max (not_depth l) (not_depth r)
  not_depth (and_node l r) = max (not_depth l) (not_depth r)
  not_depth (or_node l r) = max (not_depth l) (not_depth r)
  not_depth (not_node n) = suc (not_depth n)

  abbrev pub IsEof : Kind F → Type 0
  IsEof eof = Unit
  IsEof _ = ⊥

  -- The list ends in an eof token.
  abbrev pub EndsEof : List (Token F) → Type 0
  EndsEof [] = ⊥
  EndsEof (token k _ ∷ []) = IsEof k
  EndsEof (token _ _ ∷ (t ∷ ts)) = EndsEof (t ∷ ts)

  -- A safe node with at most d negations in one another, and at most m tokens left, the last an eof;
  -- or a PredicateError.
  abbrev pub Outcome : ℕ → ℕ → Result CompileError (Node F × List (Token F)) → Type 0
  Outcome d m (ok (n, rest)) = IsSafe n × (not_depth n ≤ d) × EndsEof rest × (length rest ≤ m)
  Outcome d m (err e) = IsPredicateError e

  -- A parser that consumes at least one token.
  abbrev pub Sound : ℕ → Parser F → Type 0
  Sound d p = (m : ℕ) (ts : List (Token F)) → EndsEof ts → length ts ≤ suc m → Outcome d m (p ts)

  pub Outcome-bind :
      (d d' m m' : ℕ) (r : Result CompileError (Node F × List (Token F)))
      (f : Node F × List (Token F) → Result CompileError (Node F × List (Token F)))
      → Outcome d m r
      → ((n : Node F) (rest : List (Token F))
          → IsSafe n
          → not_depth n ≤ d
          → EndsEof rest
          → length rest ≤ m
          → Outcome d' m' (f (n, rest)))
      → Outcome d' m' (r >>= f)
  Outcome-bind d d' m m' (ok (n, rest)) f h k = k n rest h.0 h.1 h.2 h.3
  Outcome-bind d d' m m' (err e) f h k = h

  pub EndsEof-tail :
      (k : Kind F) (p : ℕ) (ts : List (Token F))
      → ¬ (IsEof k)
      → EndsEof (token k p ∷ ts)
      → EndsEof ts
  EndsEof-tail k p [] n h = absurd (n h)
  EndsEof-tail k p (t ∷ ts) n h = h

  abbrev SegmentsOutcome : ℕ → Result CompileError (List String × List (Token F)) → Type 0
  SegmentsOutcome m (ok (ss, rest)) = All IsSegment ss × EndsEof rest × (length rest ≤ m)
  SegmentsOutcome m (err e) = IsPredicateError e

  SegmentsOutcome-cons :
      (m : ℕ) (s : String) (r : Result CompileError (List String × List (Token F)))
      → IsSegment s
      → SegmentsOutcome m r
      → SegmentsOutcome m (r >>= λ (ss, rest). ok (s ∷ ss, rest))
  SegmentsOutcome-cons m s (ok (ss, rest)) h k = ((h, k.0), k.1, k.2)
  SegmentsOutcome-cons m s (err e) h k = k

  segments_sound :
      (m : ℕ) (ts : List (Token F)) → EndsEof ts → length ts ≤ m → SegmentsOutcome m (segments ts)
  unfolding segments
  segments_sound m (token dot _ ∷ (token (ident s) q ∷ ts)) h le =
      elim (Bool-cases (is_underscored s)) [
        | inl bad ↦ rw bad tt
        | inr good ↦ elim (Bool-cases (elem_str s reserved)) [
          | inl bad ↦ rw (good, bad) tt
          | inr fine ↦
              rw (good, fine)
                (SegmentsOutcome-cons m s (segments ts) (good, fine)
                  (segments_sound m ts (EndsEof-tail (ident s) q ts (λ x. x) h) (omega arith)))
        ]
      ]
  segments_sound m (token dot _ ∷ (token k q ∷ ts)) h le = tt
  segments_sound m (token dot _ ∷ []) h le = h
  segments_sound m [] h le = h
  segments_sound m ts h le = (tt, h, le)

  pub parse_path_sound :
      (d m : ℕ) (name : String) (ts : List (Token F))
      → EndsEof ts
      → length ts ≤ m
      → Outcome d m (parse_path name ts)
  unfolding parse_path
  parse_path_sound d m name ts h le = elim (Bool-cases (is_underscored name)) [
    | inl bad ↦ rw bad tt
    | inr good ↦ elim (Bool-cases (elem_str name allowed_fields)) [
      | inr unknown ↦ rw (good, unknown) tt
      | inl known ↦ rw (good, known) (go (segments ts) known (segments_sound m ts h le))
    ]
  ]
    where
      go :
          (r : Result CompileError (List String × List (Token F)))
          → elem_str name allowed_fields ≡ true
          → SegmentsOutcome m r
          → Outcome d m (r >>= λ (ss, rest). ok (path (name ∷ ss), rest))
      go (ok (ss, rest)) known k = ((known, k.0), zero-le, k.1, k.2)
      go (err e) known k = k
