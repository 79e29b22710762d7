-- ===== src/Judge/Entries.antt =====
-- What the registry of judge.py holds: states that `_derive` finds, under their own bindings.
use traceline.Common.{
  ℕ, ◌≡◌, ◌≢◌, refl, sym, ◌∙◌, subst, ◌↔◌, Bool, true, false, Option, none, some, [], ◌∷◌, All,
  Bool-cases, inl, inr, arith, eq_iff,
}
use traceline.Values.{Python}
use traceline.Spec.Model.{JudgeBinding}
use traceline.Judge.Readiness.{
  JudgeReadiness, sufficient, derived_state, derive, relabel, with_kappa, reset,
}
use traceline.Judge.Registry.{
  Thresholds, same_key, Registry, lookup, store, found_or_fresh, fresh, get,
}

pub same_key_refl : (a : JudgeBinding) → same_key a a ≡ true
unfolding same_key
same_key_refl a =
    rw
      (
        (eq_iff a.provider a.provider).1 refl,
        (eq_iff a.model a.model).1 refl,
        (eq_iff a.schema_version a.schema_version).1 refl,
      )
      ((eq_iff a.rubric_version a.rubric_version).1 refl)

pub same_key_iff : (a b : JudgeBinding) → (same_key a b ≡ true) ↔ (a ≡ b)
unfolding same_key
same_key_iff a b = (
  λ h. grind (arith, eq_iff),
  λ e. subst (λ (c : JudgeBinding). same_key a c ≡ true) e (same_key_refl a),
)

pub differ-same_key : (a b : JudgeBinding) → a ≢ b → same_key a b ≡ false
differ-same_key a b h = elim (Bool-cases (same_key a b)) [
  | inl hit ↦ absurd (h ((same_key_iff a b).0 hit))
  | inr miss ↦ miss
]

module _ (py : Python) (defaults : Thresholds py.Float) where
  open py use {Float}

  -- The state is the one that `_derive` finds.
  abbrev pub IsDerived : JudgeReadiness Float → Type 0
  IsDerived r = r.state ≡ derived_state py r

  -- What the registry holds for a binding.
  abbrev pub IsEntry : JudgeBinding → JudgeReadiness Float → Type 0
  IsEntry b r = IsDerived r × (r.binding ≡ b)

  abbrev pub AllDerived : Registry Float → Type 0
  AllDerived reg = All (λ (k, r). IsEntry k r) reg

  abbrev pub OptEntry : JudgeBinding → Option (JudgeReadiness Float) → Type 0
  OptEntry b none = Unit
  OptEntry b (some r) = IsEntry b r

  pub store-AllDerived :
      (b : JudgeBinding) (r : JudgeReadiness Float) (reg : Registry Float)
      → IsEntry b r
      → AllDerived reg
      → AllDerived (store b r reg)
  unfolding store
  store-AllDerived b r [] h hs = (h, tt)
  store-AllDerived b r ((k, old) ∷ rest) h hs = elim (Bool-cases (same_key k b)) [
    | inl hit ↦
        rw (hit, All)
          (subst (λ (x : JudgeBinding). IsEntry x r) (sym ((same_key_iff k b).0 hit)) h, hs.1)
    | inr miss ↦ rw (miss, All) (hs.0, store-AllDerived b r rest h hs.1)
  ]

  pub lookup-OptEntry :
      (b : JudgeBinding) (reg : Registry Float) → AllDerived reg → OptEntry b (lookup b reg)
  unfolding lookup
  lookup-OptEntry b [] hs = tt
  lookup-OptEntry b ((k, old) ∷ rest) hs = elim (Bool-cases (same_key k b)) [
    | inl hit ↦ rw hit (subst (λ (x : JudgeBinding). IsEntry x old) ((same_key_iff k b).0 hit) hs.0)
    | inr miss ↦ rw miss (lookup-OptEntry b rest hs.1)
  ]

  pub fresh-IsEntry : (b : JudgeBinding) → IsEntry b (fresh py defaults b)
  unfolding derived_state sufficient
  fresh-IsEntry b = (ground arith, refl)

  pub get-IsEntry :
      (b : JudgeBinding) (reg : Registry Float)
      → AllDerived reg
      → IsEntry b (get py defaults b reg).0 × AllDerived (get py defaults b reg).1
  unfolding get
  get-IsEntry b reg hs = go (lookup b reg) (lookup-OptEntry b reg hs)
    where
      go :
          (o : Option (JudgeReadiness Float))
          → OptEntry b o
          → IsEntry b (found_or_fresh py defaults b reg o).0
            × AllDerived (found_or_fresh py defaults b reg o).1
      go (some r) h = (h, hs)
      go none h = (fresh-IsEntry b, store-AllDerived b _ reg (fresh-IsEntry b) hs)

  -- A change that sets the state anew and keeps the binding b.
  abbrev pub Derives : JudgeBinding → (JudgeReadiness Float → JudgeReadiness Float) → Type 0
  Derives b f = (r : JudgeReadiness Float) → r.binding ≡ b → IsEntry b (f r)

  pub relabel-Derives : (count : ℕ) (b : JudgeBinding) → Derives b (relabel py count)
  unfolding relabel derive derived_state sufficient
  relabel-Derives count b r same = (refl, same)

  pub with_kappa-Derives : (k : Float) (b : JudgeBinding) → Derives b (with_kappa py k)
  unfolding with_kappa derive derived_state sufficient
  with_kappa-Derives k b r same = (refl, same)

  pub reset-Derives : (b : JudgeBinding) → Derives b (reset py (some b))
  unfolding derived_state sufficient reset
  reset-Derives b r same = (ground arith, refl)

  pub lookup-store :
      (b c : JudgeBinding) (r : JudgeReadiness Float) (reg : Registry Float)
      → b ≢ c
      → lookup c (store b r reg) ≡ lookup c reg
  unfolding lookup store
  lookup-store b c r [] h = rw (differ-same_key b c h) refl
  lookup-store b c r ((k, old) ∷ rest) h = elim (Bool-cases (same_key k b)) [
    | inl hit ↦ rw (hit, differ-same_key k c (λ e. h (sym ((same_key_iff k b).0 hit) ∙ e))) refl
    | inr miss ↦ rw (miss, lookup-store b c r rest h) refl
  ]

  pub lookup-get :
      (b c : JudgeBinding) (reg : Registry Float)
      → b ≢ c
      → lookup c (get py defaults b reg).1 ≡ lookup c reg
  unfolding get
  lookup-get b c reg h = go (lookup b reg)
    where
      go :
          (o : Option (JudgeReadiness Float))
          → lookup c (found_or_fresh py defaults b reg o).1 ≡ lookup c reg
      go (some r) = refl
      go none = lookup-store b c _ reg h

  pub lookup-stored :
      (b : JudgeBinding) (r : JudgeReadiness Float) (reg : Registry Float)
      → lookup b (store b r reg) ≡ some r
  unfolding lookup store
  lookup-stored b r [] = rw (same_key_refl b) refl
  lookup-stored b r ((k, old) ∷ rest) = elim (Bool-cases (same_key k b)) [
    | inl hit ↦ rw (hit, hit) refl
    | inr miss ↦ rw (miss, miss, lookup-stored b r rest) refl
  ]

  pub found_or_fresh-lookup :
      (c : JudgeBinding) (reg reg' : Registry Float) (o o' : Option (JudgeReadiness Float))
      → o ≡ o'
      → (found_or_fresh py defaults c reg o).0 ≡ (found_or_fresh py defaults c reg' o').0
  found_or_fresh-lookup c reg reg' none none e = refl
  found_or_fresh-lookup c reg reg' (some r) (some r') e = cc
  found_or_fresh-lookup c reg reg' none (some r) e = cc
  found_or_fresh-lookup c reg reg' (some r) none e = cc

  pub fresh-unchanged :
      (b c : JudgeBinding) (reg : Registry Float)
      → lookup b reg ≡ none
      → (get py defaults c (store b (fresh py defaults b) reg)).0 ≡ (get py defaults c reg).0
  unfolding get
  fresh-unchanged b c reg new = go (same_key b c) refl
    where
      go :
          (same : Bool)
          → same_key b c ≡ same
          → (found_or_fresh py defaults c
              (store b (fresh py defaults b) reg)
              (lookup c (store b (fresh py defaults b) reg))).0
            ≡ (found_or_fresh py defaults c reg (lookup c reg)).0
      go false e = found_or_fresh-lookup c _ reg _ (lookup c reg) (
          lookup-store b c (fresh py defaults b) reg
            (λ q. absurd (ground (arith, sym e ∙ (same_key_iff b c).1 q))))
      go true e =
          subst
            (λ (x : JudgeBinding).
              (found_or_fresh py defaults x (store b (fresh py defaults b) reg)
                (lookup x (store b (fresh py defaults b) reg))).0
              ≡ (found_or_fresh py defaults x reg (lookup x reg)).0)
            ((same_key_iff b c).0 e) (rw (lookup-stored b (fresh py defaults b) reg, new) refl)

  -- Getting one binding changes no other answer of the registry, nor its own.
  pub get-unchanged :
      (b c : JudgeBinding) (reg : Registry Float)
      → (get py defaults c (get py defaults b reg).1).0 ≡ (get py defaults c reg).0
  unfolding get
  get-unchanged b c reg = go (lookup b reg) refl
    where
      go :
          (o : Option (JudgeReadiness Float))
          → lookup b reg ≡ o
          → (get py defaults c (found_or_fresh py defaults b reg o).1).0 ≡ (get py defaults c reg).0
      go (some r) e = refl
      go none e = fresh-unchanged b c reg e
