-- ===== src/Common/Results.antt =====
-- Code that may raise: a value or an error, with its bind.
use mathlib.Core.Path.{◌≡◌, refl}
use mathlib.Core.Bool.{Bool, true, false}
use traceline.Common.Lists.{All}
use mathlib.Core.List.{List, [], ◌∷◌}
use traceline.Common.Tests.{if◌then◌else◌}

pub data Result {ℓ} (E : Type 0) (A : Type ℓ) : Type ℓ where
  ok : A → Result E A
  err : E → Result E A

infixl 5 ◌>>=◌
abbrev pub ◌>>=◌ {ℓ κ} :
    {E : Type 0} {A : Type ℓ} {B : Type κ} → Result E A → (A → Result E B) → Result E B
ok a >>= f = f a
err e >>= f = err e

-- `if not test: raise e`
abbrev pub check : {E : Type 0} → Bool → E → Result E (Unit {0})
check true e = ok tt
check false e = err e

-- [f(x) for x in xs], which stops at the first exception
abbrev pub traverse {ℓ κ} :
    {E : Type 0} {A : Type ℓ} {B : Type κ} → (A → Result E B) → List A → Result E (List B)
traverse f [] = ok []
traverse f (x ∷ xs) = f x >>= λ y. traverse f xs >>= λ ys. ok (y ∷ ys)

-- [x for x in xs if f(x)], where the test may raise
abbrev pub filter_result {ℓ} :
    {E : Type 0} {A : Type ℓ} → (A → Result E Bool) → List A → Result E (List A)
filter_result f [] = ok []
filter_result f (x ∷ xs) = f x >>= λ b. filter_result f xs >>= λ ys. ok (if b then x ∷ ys else ys)

-- A chain that succeeds did so in both parts.
pub >>=-eq-ok {ℓ κ} :
    {E : Type 0} {A : Type ℓ} {B : Type κ} (first : Result E A) (next : A → Result E B) {out : B}
    → (first >>= next) ≡ ok out
    → (mid : A) × (first ≡ ok mid) × (next mid ≡ ok out)
>>=-eq-ok (err e) next chain = cc
>>=-eq-ok (ok mid) next chain = (mid, refl, chain)

-- The postcondition of code that may raise.
abbrev pub Ensures {ℓ} : {E A : Type 0} → (A → Type ℓ) → Result E A → Type ℓ
Ensures P (ok a) = P a
Ensures P (err e) = Unit

module _ {ℓ} {E A B : Type 0} (Q : B → Type ℓ) where
  pub Ensures-bind {κ} :
      (P : A → Type κ) (m : Result E A) (f : A → Result E B)
      → Ensures P m
      → ((a : A) → P a → Ensures Q (f a))
      → Ensures Q (m >>= f)
  Ensures-bind P (ok a) f h k = k a h
  Ensures-bind P (err e) f h k = tt

  pub Ensures-then :
      (m : Result E A) (f : A → Result E B) → ((a : A) → Ensures Q (f a)) → Ensures Q (m >>= f)
  Ensures-then (ok a) f k = k a
  Ensures-then (err e) f k = tt

  pub Ensures-traverse :
      (f : A → Result E B) (xs : List A)
      → ((a : A) → Ensures Q (f a))
      → Ensures (All Q) (traverse f xs)
  Ensures-traverse f [] h = tt
  Ensures-traverse f (x ∷ xs) h = go (f x) (traverse f xs) (h x) (Ensures-traverse f xs h)
    where
      go :
          (r : Result E B) (rs : Result E (List B))
          → Ensures Q r
          → Ensures (All Q) rs
          → Ensures (All Q) (r >>= λ y. rs >>= λ ys. ok (y ∷ ys))
      go (ok y) (ok ys) p ps = (p, ps)
      go (ok y) (err e) p ps = tt
      go (err e) rs p ps = tt

pub Ensures-filter {ℓ} :
    {E A : Type 0} (P : A → Type ℓ) (f : A → Result E Bool) (xs : List A)
    → All P xs
    → Ensures (All P) (filter_result f xs)
Ensures-filter P f [] h = tt
Ensures-filter {A = A} P f (x ∷ xs) h =
    Ensures-then (All P) (f x) _
      λ b. Ensures-bind (All P) (All P) (filter_result f xs) _ (Ensures-filter P f xs h.1) (keep b)
  where
    keep : (b : Bool) (ys : List A) → All P ys → All P (if b then x ∷ ys else ys)
    keep true ys k = (h.0, k)
    keep false ys k = k

pub check-ok {ℓ} :
    {E : Type 0} {A : Type ℓ} (b : Bool) (e : E) {x a : A}
    → (check b e >>= λ _. ok x) ≡ ok a
    → (b ≡ true) × (x ≡ a)
check-ok true e h = (refl, cc)
check-ok false e h = cc
