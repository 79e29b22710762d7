-- ===== src/Evaluators/Selectors/Print.antt =====
-- The selectors that `_selector_tokens` of evaluators.py reads back, printed from their steps.
use Prim.Native.Char.{Char, code}
use Prim.Native.String.{String, [], ◌∷◌}
use traceline.Common.{
  ℕ, zero, suc, ◌≤◌, ◌<◌, ◌≡◌, ◌≢◌, refl, sym, ap, ◌∙◌, Bool, true, false, not, ◌&&◌, ◌||◌, List,
  some, ok, ◌==◌, All, Bool-cases, inl, inr, arith, str_eq, ==_iff,
}
use traceline.Common.Int.{pos}
use traceline.Values.{Python}
use traceline.Predicate.Tokens.{span, is_word, is_nil, str_length}
use traceline.Evaluators.Selectors.{
  Step, wildcard, index, key, until_close, all_chars, strip_left, strip_right, bracket_step,
  dot_step, one_step, steps_from, selector_tokens,
}

abbrev pub append : String → String → String
append [] t = t
append (c ∷ s) t = c ∷ append s t

true_is_false : true ≢ false
true_is_false h = ground arith

append-length : (s t : String) → str_length t ≤ str_length (append s t)
append-length [] t = omega arith
append-length (c ∷ s) t = omega (arith, append-length s t)

both_true : (a b : Bool) → a && b ≡ true → (a ≡ true) × (b ≡ true)
both_true true true h = (refl, refl)
both_true true false h = cc
both_true false b h = cc

none_true : (a b c : Bool) → a && not (b || c) ≡ true → (a ≡ true) × (b ≡ false) × (c ≡ false)
none_true true false false h = (refl, refl, refl)
none_true true true c h = cc
none_true true false true h = cc
none_true false b c h = cc

-- A code that passes a test is not one that fails it.
other_code : (p : ℕ → Bool) (c k : ℕ) → p c ≡ true → p k ≡ false → c == k ≡ false
other_code p c k h n = elim (Bool-cases (c == k)) [
  | inr miss ↦ miss
  | inl hit ↦ absurd (true_is_false (sym h ∙ ap p ((==_iff c k).0 hit) ∙ n))
]

module _ (py : Python) (digits : ℕ → String) where
  open py use {is_blank, is_digit, to_int}

  -- A character of a number's text: a digit, no blank and no closing bracket.
  abbrev pub is_numeral : ℕ → Bool
  is_numeral c = is_digit c && not (is_blank c || c == b']')

  -- What Python says of str(n), of an index n, and of the characters of a selector.
  pub record Texts : Type 0 where
    pub numerals : (n : ℕ) → all_chars py is_numeral (digits n) ≡ true
    pub some_digit : (n : ℕ) → is_nil py (digits n) ≡ false
    pub not_star : (n : ℕ) → str_eq (digits n) "*" ≡ false
    pub reads_back : (n : ℕ) → to_int (digits n) ≡ some (pos n)
    pub dot_ends : is_word py b'.' ≡ false
    pub bracket_ends : is_word py b'[' ≡ false
    pub star_ends : is_word py b'*' ≡ false

  -- A key is a word that is not empty, an index a number that is not negative.
  abbrev pub IsPlain : Step → Type 0
  IsPlain wildcard = Unit
  IsPlain (key k) = (is_nil py k ≡ false) × (all_chars py (is_word py) k ≡ true)
  IsPlain (index (pos n)) = Unit
  IsPlain (index _) = ⊥

  -- The text of a step before a text.
  abbrev pub print_step : Step → String → String
  print_step wildcard rest = "." ∷ ("*" ∷ rest)
  print_step (key k) rest = "." ∷ append k rest
  print_step (index (pos n)) rest = "[" ∷ append (digits n) ("]" ∷ rest)
  print_step (index _) rest = rest

  abbrev pub print_steps : List Step → String
  print_steps List.[] = []
  print_steps (List.◌∷◌ s ss) = print_step s (print_steps ss)

  module _ (texts : Texts) where
    -- A text at which a word ends.
    abbrev Ends : String → Type 0
    Ends [] = Unit
    Ends (c ∷ s) = is_word py (code c) ≡ false

    print_steps-Ends : (ss : List Step) → All IsPlain ss → Ends (print_steps ss)
    print_steps-Ends List.[] h = tt
    print_steps-Ends (List.◌∷◌ wildcard ss) h = texts.dot_ends
    print_steps-Ends (List.◌∷◌ (key k) ss) h = texts.dot_ends
    print_steps-Ends (List.◌∷◌ (index (pos n)) ss) h = texts.bracket_ends
    print_steps-Ends (List.◌∷◌ (index _) ss) h = absurd h.0

    span-append :
        (k rest : String)
        → all_chars py (is_word py) k ≡ true
        → Ends rest
        → span py (is_word py) (append k rest) ≡ (k, rest)
    unfolding span
    span-append [] [] h e = refl
    span-append [] (c ∷ s) h e = rw e refl
    span-append (c ∷ k) rest h e =
        let (word, rest_words) = both_true (is_word py (code c)) _ h in
        rw (word, span-append k rest rest_words e) refl

    numeral_parts :
        (c : Char) (d : String)
        → all_chars py is_numeral (c ∷ d) ≡ true
        → (is_digit (code c) ≡ true)
          × (is_blank (code c) ≡ false)
          × (code c == b']' ≡ false)
          × (all_chars py is_numeral d ≡ true)
    numeral_parts c d h =
        let (first, others) = both_true (is_numeral (code c)) (all_chars py is_numeral d) h in
        let (digit, solid, open_end) =
          none_true (is_digit (code c)) (is_blank (code c)) (code c == b']') first in
        (digit, solid, open_end, others)

    until_close-append :
        (d rest : String)
        → all_chars py is_numeral d ≡ true
        → until_close (append d ("]" ∷ rest)) ≡ some (d, rest)
    unfolding until_close
    until_close-append [] rest h = refl
    until_close-append (c ∷ d) rest h =
        let (digit, solid, open_end, others) = numeral_parts c d h in
        rw (open_end, until_close-append d rest others) refl

    strip_left-numeral : (d : String) → all_chars py is_numeral d ≡ true → strip_left py d ≡ d
    unfolding strip_left
    strip_left-numeral [] h = refl
    strip_left-numeral (c ∷ d) h =
        let (digit, solid, open_end, others) = numeral_parts c d h in rw solid refl

    strip_right-numeral : (d : String) → all_chars py is_numeral d ≡ true → strip_right py d ≡ d
    unfolding strip_right
    strip_right-numeral [] h = refl
    strip_right-numeral (c ∷ d) h =
        let (digit, solid, open_end, others) = numeral_parts c d h in
        rw (solid, strip_right-numeral d others) refl

    all_digits-numeral :
        (d : String) → all_chars py is_numeral d ≡ true → all_chars py is_digit d ≡ true
    all_digits-numeral [] h = refl
    all_digits-numeral (c ∷ d) h =
        let (digit, solid, open_end, others) = numeral_parts c d h in
        rw digit (all_digits-numeral d others)

    dot_step-key :
        (k rest : String)
        → is_nil py k ≡ false
        → all_chars py (is_word py) k ≡ true
        → Ends rest
        → dot_step py (append k rest) ≡ ok (key k, rest)
    unfolding dot_step
    dot_step-key [] rest h w e = cc
    dot_step-key (c ∷ k) rest h w e =
        let first = (both_true (is_word py (code c)) (all_chars py (is_word py) k) w).0 in
        rw
          (
            other_code (is_word py) (code c) b'.' first texts.dot_ends,
            other_code (is_word py) (code c) b'*' first texts.star_ends,
            span-append (c ∷ k) rest w e,
          )
          refl

    bracket_step-index : (n : ℕ) → bracket_step py (digits n) ≡ ok (index (pos n))
    unfolding bracket_step
    bracket_step-index n =
        rw
          (
            strip_left-numeral (digits n) (texts.numerals n),
            strip_right-numeral (digits n) (texts.numerals n),
            texts.not_star n,
            texts.some_digit n,
            all_digits-numeral (digits n) (texts.numerals n),
            texts.reads_back n,
          )
          refl

    steps_from-print :
        (ss : List Step) (f : ℕ)
        → All IsPlain ss
        → str_length (print_steps ss) < f
        → steps_from py f (print_steps ss) ≡ ok ss
    unfolding steps_from one_step
    steps_from-print ss zero h lt = absurd (omega (arith, lt))
    steps_from-print List.[] (suc f) h lt = refl
    steps_from-print (List.◌∷◌ wildcard ss) (suc f) h lt =
        rw (steps_from-print ss f h.1 (omega (arith, lt))) refl
    steps_from-print (List.◌∷◌ (key k) ss) (suc f) h lt =
        rw
          (
            dot_step-key k (print_steps ss) h.0.0 h.0.1 (print_steps-Ends ss h.1),
            steps_from-print ss f h.1 (omega (arith, lt, append-length k (print_steps ss))),
          )
          refl
    steps_from-print (List.◌∷◌ (index (pos n)) ss) (suc f) h lt =
        rw
          (
            until_close-append (digits n) (print_steps ss) (texts.numerals n),
            bracket_step-index n,
            steps_from-print ss f h.1
                (omega (arith, lt, append-length (digits n) ("]" ∷ print_steps ss))),
          )
          refl
    steps_from-print (List.◌∷◌ (index _) ss) (suc f) h lt = absurd h.0

    -- The steps of a selector that are wildcards, non-negative indices and non-empty word keys are read
    -- back from its text.
    pub selector_tokens-print :
        (ss : List Step) → All IsPlain ss → selector_tokens py (print_steps ss) ≡ ok ss
    unfolding selector_tokens
    selector_tokens-print ss h =
        steps_from-print ss (suc (str_length (print_steps ss))) h (omega arith)
