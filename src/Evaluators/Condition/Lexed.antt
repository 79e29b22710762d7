-- ===== src/Evaluators/Condition/Lexed.antt =====
-- The lexer of `_CondParser` in evaluators.py comes to an end: each round consumes a character at least.
use Prim.Native.Char.{Char, code}
use Prim.Native.String.{String, [], ◌∷◌}
use traceline.Common.{
  ℕ, zero, suc, ◌+◌, ◌≤◌, ◌<◌, ◌≡◌, refl, Bool, true, false, ◌&&◌, ◌||◌, List, Option, none, some,
  Result, ok, err, ◌>>=◌, ◌==◌, arith, if◌then◌else◌,
}
use traceline.Values.{Value, str, Python}
use traceline.Predicate.Tokens.{
  str_length, push, is_space, is_minus, is_word, is_word_start, span, take_one, fraction, two_op,
  starts_digit, drop_one,
}
use traceline.Predicate.Tokens.Sound.{span-le, fraction-le, whole-le, drop_one-le}
use traceline.Evaluators.Condition.Tokens.{
  CondKind, cond_value, cond_eof, CondToken, cond_token, CondProblem, cond_error, cond_value_error,
  cond_escape, scan_text, value_or_raise, scan_value, char_kind, some_kind, word_token, char_token,
  pair_token, cond_next, add_token, cond_tokens_from, cond_tokenize,
}

-- A ConditionError, or the ValueError of a number.
abbrev pub IsCondError : CondProblem → Type 0
IsCondError (cond_error _) = Unit
IsCondError cond_value_error = Unit
IsCondError _ = ⊥

module _ {F : Type 0} where
  abbrev pub IsEnd : CondKind F → Type 0
  IsEnd cond_eof = Unit
  IsEnd _ = ⊥

  -- The list ends in an eof token.
  abbrev pub EndsCond : List (CondToken F) → Type 0
  EndsCond List.[] = ⊥
  EndsCond (List.◌∷◌ (cond_token k _) List.[]) = IsEnd k
  EndsCond (List.◌∷◌ (cond_token _ _) (List.◌∷◌ t ts)) = EndsCond (List.◌∷◌ t ts)

module _ (py : Python) where
  open py use {Float, is_digit}

  -- At most m characters are left, or there is an error.
  abbrev Leaves : {A : Type 0} → ℕ → Result CondProblem (A × String × ℕ) → Type 0
  Leaves m (ok (a, rest, j)) = str_length rest ≤ m
  Leaves m (err e) = IsCondError e

  Leaves-mono :
      {A : Type 0} (m m' : ℕ) (r : Result CondProblem (A × String × ℕ))
      → m ≤ m'
      → Leaves m r
      → Leaves m' r
  Leaves-mono m m' (ok (a, rest, j)) le h = omega arith
  Leaves-mono m m' (err e) le h = h

  Leaves-if :
      {A : Type 0} (m : ℕ) (b : Bool) (x y : Result CondProblem (A × String × ℕ))
      → (b ≡ true → Leaves m x)
      → (b ≡ false → Leaves m y)
      → Leaves m (if b then x else y)
  Leaves-if m true x y hx hy = hx refl
  Leaves-if m false x y hx hy = hy refl

  scan_text-Leaves :
      (fuel quote start i : ℕ) (out cs : String)
      → str_length cs < fuel
      → Leaves (str_length cs) (scan_text py fuel quote start i out cs)
  unfolding scan_text
  scan_text-Leaves zero quote start i out cs h = elim h [ ]
  scan_text-Leaves (suc f) quote start i out [] h = tt
  scan_text-Leaves (suc f) quote start i out (c ∷ cs) h =
      go (code c == quote) (if code c == 92 then cond_escape cs else none)
        (λ j s. scan_text-Leaves f quote start j s)
    where
      go :
          (b : Bool) (o : Option Char)
          → ((j : ℕ) (s rest : String)
              → str_length rest < f
              → Leaves (str_length rest) (scan_text py f quote start j s rest))
          → Leaves (suc (str_length cs)) (elim b [
            | true ↦ ok (out, cs, i + 1)
            | false ↦ elim o [
              | some x ↦ scan_text py f quote start (i + 2) (push out x) (drop_one py cs)
              | none ↦ scan_text py f quote start (i + 1) (push out c) cs
            ]
          ])
      go true o ih = omega arith
      go false none ih =
          Leaves-mono (str_length cs) (suc (str_length cs)) _ (omega arith)
            (ih (i + 1) (push out c) cs (omega arith))
      go false (some x) ih =
          Leaves-mono (str_length (drop_one py cs)) (suc (str_length cs)) _
            (omega (arith, drop_one-le py cs))
            (ih (i + 2) (push out x) (drop_one py cs) (omega (arith, drop_one-le py cs)))

  value_or_raise-Leaves :
      (m j : ℕ) (o : Option (Value Float)) (rest : String)
      → str_length rest ≤ m
      → Leaves m (value_or_raise py o >>= λ v. ok (v, rest, j))
  value_or_raise-Leaves m j none rest h = tt
  value_or_raise-Leaves m j (some v) rest h = h

  scan_value-Leaves :
      (i : ℕ) (c : Char) (cs : String)
      → (is_digit (code c) || (code c == b'-' && starts_digit py cs)) ≡ true
      → Leaves (str_length cs) (scan_value py i (c ∷ cs))
  unfolding scan_value
  scan_value-Leaves i c cs h =
      let digits = span py is_digit (take_one py (is_minus py) (c ∷ cs)).1 in
      value_or_raise-Leaves (str_length cs) _ _ (fraction py digits.1).1
        (omega (arith, whole-le py c cs h, fraction-le py digits.1))

  some_kind-Leaves :
      {A : Type 0} (m : ℕ) (f : A → CondKind Float) (r : Result CondProblem (A × String × ℕ))
      → Leaves m r
      → Leaves m (some_kind py f r)
  some_kind-Leaves m f (ok (a, rest, j)) h = h
  some_kind-Leaves m f (err e) h = h

  word_token-Leaves :
      (i : ℕ) (c : Char) (cs : String) → Leaves (str_length cs) (word_token py i c cs)
  unfolding word_token
  word_token-Leaves i c cs =
      Leaves-if (str_length cs) (code c == 34 || code c == 39) _ _
        (λ _.
          some_kind-Leaves (str_length cs) (λ s. cond_value (str s)) _
            (scan_text-Leaves (suc (str_length cs)) (code c) i (i + 1) [] cs (omega arith)))
        (λ _.
          Leaves-if (str_length cs) (is_digit (code c) || (code c == b'-' && starts_digit py cs)) _
            _ (λ h. some_kind-Leaves (str_length cs) cond_value _ (scan_value-Leaves i c cs h))
            (λ _.
              Leaves-if (str_length cs) (is_word_start py (code c)) _ _
                (λ _. span-le py (is_word py) cs) (λ _. tt)))

  char_token-Leaves :
      (i : ℕ) (c : Char) (cs : String) (o : Option (CondKind Float))
      → Leaves (str_length cs) (char_token py i c cs o)
  char_token-Leaves i c cs (some k) = omega arith
  char_token-Leaves i c cs none = word_token-Leaves i c cs

  pair_token-Leaves :
      (i : ℕ) (c : Char) (cs : String) (o : Option String)
      → Leaves (str_length cs) (pair_token py i c cs o)
  pair_token-Leaves i c cs (some o) = drop_one-le py cs
  pair_token-Leaves i c cs none = char_token-Leaves i c cs (char_kind py (code c))

  cond_next-Leaves : (i : ℕ) (c : Char) (cs : String) → Leaves (str_length cs) (cond_next py i c cs)
  unfolding cond_next
  cond_next-Leaves i c cs =
      Leaves-if (str_length cs) (is_space py (code c)) _ _ (λ _. omega arith)
        (λ _. pair_token-Leaves i c cs (two_op py (code c) cs))

  -- Tokens that end in an eof, or an error.
  abbrev pub CondTokens : Result CondProblem (List (CondToken Float)) → Type 0
  CondTokens (ok ts) = EndsCond ts
  CondTokens (err e) = IsCondError e

  add_token-EndsCond :
      (k : Option (CondKind Float)) (i : ℕ) (ts : List (CondToken Float))
      → EndsCond ts
      → EndsCond (add_token py k i ts)
  add_token-EndsCond none i ts h = h
  add_token-EndsCond (some k) i List.[] h = absurd h
  add_token-EndsCond (some k) i (List.◌∷◌ t ts) h = h

  add_token-CondTokens :
      (k : Option (CondKind Float)) (i : ℕ) (r : Result CondProblem (List (CondToken Float)))
      → CondTokens r
      → CondTokens (r >>= λ ts. ok (add_token py k i ts))
  add_token-CondTokens k i (ok ts) h = add_token-EndsCond k i ts h
  add_token-CondTokens k i (err e) h = h

  cond_tokens_from-CondTokens :
      (fuel i : ℕ) (cs : String) → str_length cs < fuel → CondTokens (cond_tokens_from py fuel i cs)
  unfolding cond_tokens_from
  cond_tokens_from-CondTokens zero i cs h = elim h [ ]
  cond_tokens_from-CondTokens (suc f) i [] h = tt
  cond_tokens_from-CondTokens (suc f) i (c ∷ cs) h =
      go (cond_next py i c cs) (cond_next-Leaves i c cs) (cond_tokens_from-CondTokens f)
    where
      go :
          (r : Result CondProblem (Option (CondKind Float) × String × ℕ))
          → Leaves (str_length cs) r
          → ((j : ℕ) (rest : String)
              → str_length rest < f
              → CondTokens (cond_tokens_from py f j rest))
          → CondTokens (
              r >>= λ (k, rest, j). cond_tokens_from py f j rest >>= λ ts. ok (add_token py k i ts))
      go (ok (k, rest, j)) le ih =
          add_token-CondTokens k i (cond_tokens_from py f j rest) (ih j rest (omega arith))
      go (err e) le ih = le

  pub cond_tokenize-CondTokens : (s : String) → CondTokens (cond_tokenize py s)
  unfolding cond_tokenize
  cond_tokenize-CondTokens s = cond_tokens_from-CondTokens (suc (str_length s)) 0 s (omega arith)
