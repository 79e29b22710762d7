-- ===== src/Predicate/Tokens/Sound.antt =====
-- The lexer of predicates.py comes to an end: each round consumes a character at least.
use Prim.Native.Char.{Char, code}
use Prim.Native.String.{String, [], ◌∷◌}
use traceline.Common.{
  ℕ, zero, suc, ◌+◌, ◌≤◌, ◌<◌, ◌≡◌, refl, Bool, true, false, ◌&&◌, ◌||◌, List, [], ◌∷◌, Option,
  none, some, Result, ok, err, ◌>>=◌, ◌==◌, arith, Bool-cases, inl, inr, if◌then◌else◌,
}
use traceline.Values.{Python}
use traceline.Predicate.Tokens.{
  Kind, text, Token, CompileError, syntax, value_error, bad_unicode_escape, unknown_escape,
  str_length, push, or_raise, unicode_escape, scan_escape, scan_string, span, take_one, is_minus,
  is_dot, is_exponent, is_sign, fraction, exponent, number_kind, scan_number, hex4, escape, two_op,
  one_kind, long_token, one_token, two_token, starts_digit, drop_one, next_token, cons_token,
  tokens_from, tokenize, is_space, is_word, is_word_start, keep_kind,
}
use traceline.Predicate.Parser.Safe.{EndsEof}

-- The errors of the lexer: a PredicateSyntaxError, or the ValueError of a number.
abbrev pub IsLexError : CompileError → Type 0
IsLexError (syntax _ _) = Unit
IsLexError value_error = Unit
IsLexError _ = ⊥

module _ (py : Python) where
  open py use {Float, is_digit, is_alpha, is_alnum}

  -- At most m characters are left, or there is an error of the lexer.
  abbrev Leaves : {A : Type 0} → ℕ → Result CompileError (A × String × ℕ) → Type 0
  Leaves m (ok (a, rest, j)) = str_length rest ≤ m
  Leaves m (err e) = IsLexError e

  pub span-le : (p : ℕ → Bool) (s : String) → str_length (span py p s).1 ≤ str_length s
  unfolding span
  span-le p [] = omega arith
  span-le p (c ∷ s) = ground (arith, span-le p s)

  pub take_one-le : (p : ℕ → Bool) (s : String) → str_length (take_one py p s).1 ≤ str_length s
  unfolding take_one
  take_one-le p [] = omega arith
  take_one-le p (c ∷ s) = ground arith

  or_raise-Leaves :
      {A B : Type 0} (m j : ℕ) (e : CompileError) (o : Option A) (f : A → B) (rest : String)
      → IsLexError e
      → str_length rest ≤ m
      → Leaves m (or_raise py e o >>= λ a. ok (f a, rest, j))
  or_raise-Leaves m j e none f rest h le = h
  or_raise-Leaves m j e (some a) f rest h le = le

  Leaves-if :
      {A : Type 0} (m : ℕ) (b : Bool) (x y : Result CompileError (A × String × ℕ))
      → (b ≡ true → Leaves m x)
      → (b ≡ false → Leaves m y)
      → Leaves m (if b then x else y)
  Leaves-if m true x y hx hy = hx refl
  Leaves-if m false x y hx hy = hy refl

  Leaves-bind :
      {A B : Type 0} (m m' : ℕ) (r : Result CompileError (A × String × ℕ))
      (f : A × String × ℕ → Result CompileError (B × String × ℕ))
      → Leaves m r
      → ((a : A) (rest : String) (j : ℕ) → str_length rest ≤ m → Leaves m' (f (a, rest, j)))
      → Leaves m' (r >>= f)
  Leaves-bind m m' (ok (a, rest, j)) f h k = k a rest j h
  Leaves-bind m m' (err e) f h k = h

  Leaves-mono :
      {A : Type 0} (m m' : ℕ) (r : Result CompileError (A × String × ℕ))
      → m ≤ m'
      → Leaves m r
      → Leaves m' r
  Leaves-mono m m' (ok (a, rest, j)) le h = omega arith
  Leaves-mono m m' (err e) le h = h

  unicode_escape-Leaves : (i : ℕ) (cs : String) → Leaves (str_length cs) (unicode_escape py i cs)
  unicode_escape-Leaves i (a ∷ (b ∷ (c ∷ (d ∷ cs)))) =
      or_raise-Leaves (suc (suc (suc (suc (str_length cs))))) (i + 6) (syntax i bad_unicode_escape)
        (hex4 a b c d) py.chr cs tt (omega arith)
  unicode_escape-Leaves i [] = tt
  unicode_escape-Leaves i (_ ∷ []) = tt
  unicode_escape-Leaves i (_ ∷ (_ ∷ [])) = tt
  unicode_escape-Leaves i (_ ∷ (_ ∷ (_ ∷ []))) = tt

  scan_escape-Leaves : (i : ℕ) (cs : String) → Leaves (str_length cs) (scan_escape py i cs)
  unfolding scan_escape
  scan_escape-Leaves i [] = tt
  scan_escape-Leaves i (e ∷ cs) =
      Leaves-if (suc (str_length cs)) (code e == b'u') _ _
        (λ _.
          Leaves-mono (str_length cs) (suc (str_length cs)) (unicode_escape py i cs) (omega arith)
            (unicode_escape-Leaves i cs))
        (λ _.
          or_raise-Leaves (suc (str_length cs)) (i + 2) (syntax i unknown_escape)
            (escape py (code e)) (λ x. x) cs tt (omega arith))

  scan_string-Leaves :
      (fuel quote start i : ℕ) (out cs : String)
      → str_length cs < fuel
      → Leaves (str_length cs) (scan_string py fuel quote start i out cs)
  unfolding scan_string
  scan_string-Leaves zero quote start i out cs h = elim h [ ]
  scan_string-Leaves (suc f) quote start i out [] h = tt
  scan_string-Leaves (suc f) quote start i out (c ∷ cs) h = elim (Bool-cases (code c == quote)) [
    | inl closing ↦ rw (closing, Leaves) (omega arith)
    | inr open_still ↦ elim (Bool-cases (code c == 92)) [
      | inl slash ↦
          rw (open_still, slash, Leaves)
            (Leaves-bind (str_length cs) (suc (str_length cs)) (scan_escape py i cs)
              (λ (x, rest, j). scan_string py f quote start j (push out x) rest)
              (scan_escape-Leaves i cs)
              (λ x rest j le.
                Leaves-mono (str_length rest) (suc (str_length cs))
                  (scan_string py f quote start j (push out x) rest) (omega arith)
                  (scan_string-Leaves f quote start j (push out x) rest (omega arith))))
      | inr plain ↦
          rw (open_still, plain, Leaves)
            (Leaves-mono (str_length cs) (suc (str_length cs))
              (scan_string py f quote start (i + 1) (push out c) cs) (omega arith)
              (scan_string-Leaves f quote start (i + 1) (push out c) cs (omega arith)))
    ]
  ]

  pub fraction-le : (s : String) → str_length (fraction py s).1 ≤ str_length s
  fraction-le s =
      let mark = take_one py (is_dot py) s in
      ground (arith, take_one-le (is_dot py) s, span-le is_digit mark.1)

  exponent-le : (s : String) → str_length (exponent py s).1 ≤ str_length s
  exponent-le s =
      let mark = take_one py (is_exponent py) s in
      let sign = take_one py (is_sign py) mark.1 in
      ground (
        arith,
        take_one-le (is_exponent py) s,
        take_one-le (is_sign py) mark.1,
        span-le is_digit sign.1,
      )

  -- A number consumes its first character, a digit or a minus sign.
  pub whole-le :
      (c : Char) (cs : String)
      → (is_digit (code c) || (code c == b'-' && starts_digit py cs)) ≡ true
      → str_length (span py is_digit (take_one py (is_minus py) (c ∷ cs)).1).1 ≤ str_length cs
  unfolding take_one
  whole-le c cs h = elim (Bool-cases (code c == b'-')) [
    | inl minus ↦ rw minus (span-le is_digit cs)
    | inr other ↦ rw other (unfold span in ground (arith, span-le is_digit cs))
  ]

  number_kind-Leaves :
      (m j : ℕ) (b : Bool) (raw rest : String)
      → str_length rest ≤ m
      → Leaves m (number_kind py b raw >>= λ k. ok (k, rest, j))
  number_kind-Leaves m j true raw rest h = or_raise-Leaves m j value_error _ (λ k. k) rest tt h
  number_kind-Leaves m j false raw rest h = or_raise-Leaves m j value_error _ (λ k. k) rest tt h

  scan_number-Leaves :
      (i : ℕ) (c : Char) (cs : String)
      → (is_digit (code c) || (code c == b'-' && starts_digit py cs)) ≡ true
      → Leaves (str_length cs) (scan_number py i (c ∷ cs))
  unfolding scan_number
  scan_number-Leaves i c cs h =
      let whole = span py is_digit (take_one py (is_minus py) (c ∷ cs)).1 in
      number_kind-Leaves (str_length cs) _ _ _ (exponent py (fraction py whole.1).1).1
        (omega (arith, whole-le c cs h, fraction-le whole.1, exponent-le (fraction py whole.1).1))

  keep_kind-Leaves :
      {A : Type 0} (m : ℕ) (f : A → Kind Float) (r : Result CompileError (A × String × ℕ))
      → Leaves m r
      → Leaves m (keep_kind py f r)
  keep_kind-Leaves m f (ok (a, rest, j)) h = h
  keep_kind-Leaves m f (err e) h = h

  long_token-Leaves :
      (i : ℕ) (c : Char) (cs : String) → Leaves (str_length cs) (long_token py i c cs)
  unfolding long_token
  long_token-Leaves i c cs =
      Leaves-if (str_length cs) (code c == 34 || code c == 39) _ _
        (λ _.
          keep_kind-Leaves (str_length cs) text _
            (scan_string-Leaves (suc (str_length cs)) (code c) i (i + 1) [] cs (omega arith)))
        (λ _.
          Leaves-if (str_length cs) (is_digit (code c) || (code c == b'-' && starts_digit py cs)) _
            _ (λ h. keep_kind-Leaves (str_length cs) (λ k. k) _ (scan_number-Leaves i c cs h))
            (λ _.
              Leaves-if (str_length cs) (is_word_start py (code c)) _ _
                (λ _. span-le (is_word py) cs) (λ _. tt)))

  one_token-Leaves :
      (i : ℕ) (c : Char) (cs : String) (o : Option (Kind Float))
      → Leaves (str_length cs) (one_token py i c cs o)
  one_token-Leaves i c cs (some k) = omega arith
  one_token-Leaves i c cs none = long_token-Leaves i c cs

  pub drop_one-le : (cs : String) → str_length (drop_one py cs) ≤ str_length cs
  drop_one-le [] = omega arith
  drop_one-le (c ∷ cs) = omega arith

  two_token-Leaves :
      (i : ℕ) (c : Char) (cs : String) (o : Option String)
      → Leaves (str_length cs) (two_token py i c cs o)
  two_token-Leaves i c cs (some o) = drop_one-le cs
  two_token-Leaves i c cs none = one_token-Leaves i c cs (one_kind py (code c))

  next_token-Leaves :
      (i : ℕ) (c : Char) (cs : String) → Leaves (str_length cs) (next_token py i c cs)
  unfolding next_token
  next_token-Leaves i c cs =
      Leaves-if (str_length cs) (is_space py (code c)) _ _ (λ _. omega arith)
        (λ _. two_token-Leaves i c cs (two_op py (code c) cs))

  abbrev pub LexOutcome : Result CompileError (List (Token Float)) → Type 0
  LexOutcome (ok ts) = EndsEof ts
  LexOutcome (err e) = IsLexError e

  cons_token-EndsEof :
      (k : Option (Kind Float)) (i : ℕ) (ts : List (Token Float))
      → EndsEof ts
      → EndsEof (cons_token py k i ts)
  cons_token-EndsEof none i ts h = h
  cons_token-EndsEof (some k) i [] h = absurd h
  cons_token-EndsEof (some k) i (t ∷ ts) h = h

  cons_token-LexOutcome :
      (k : Option (Kind Float)) (i : ℕ) (r : Result CompileError (List (Token Float)))
      → LexOutcome r
      → LexOutcome (r >>= λ ts. ok (cons_token py k i ts))
  cons_token-LexOutcome k i (ok ts) h = cons_token-EndsEof k i ts h
  cons_token-LexOutcome k i (err e) h = h

  tokens_from_sound :
      (fuel i : ℕ) (cs : String) → str_length cs < fuel → LexOutcome (tokens_from py fuel i cs)
  unfolding tokens_from
  tokens_from_sound zero i cs h = elim h [ ]
  tokens_from_sound (suc f) i [] h = tt
  tokens_from_sound (suc f) i (c ∷ cs) h =
      go (next_token py i c cs) (next_token-Leaves i c cs) (tokens_from_sound f)
    where
      go :
          (r : Result CompileError (Option (Kind Float) × String × ℕ))
          → Leaves (str_length cs) r
          → ((j : ℕ) (rest : String) → str_length rest < f → LexOutcome (tokens_from py f j rest))
          → LexOutcome
              (r >>= λ (k, rest, j). tokens_from py f j rest >>= λ ts. ok (cons_token py k i ts))
      go (ok (k, rest, j)) le ih =
          cons_token-LexOutcome k i (tokens_from py f j rest) (ih j rest (omega arith))
      go (err e) le ih = le

  -- On every text the lexer comes to an end, with tokens of which the last is an eof, with a
  -- PredicateSyntaxError, or with the ValueError of a number.
  pub tokenize_sound : (s : String) → LexOutcome (tokenize py s)
  unfolding tokenize
  tokenize_sound s = tokens_from_sound (suc (str_length s)) 0 s (omega arith)
