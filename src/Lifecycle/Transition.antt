-- ===== src/Lifecycle/Transition.antt =====
-- `transition` of lifecycle.py against its tables, for any table whose texts are read back.
use text.Mathlib.TextPositions.{eq_refl}
use traceline.Common.{
  ◌≡◌, ◌↔◌, ◌⊎◌, inl, inr, refl, Bool, true, false, ◌||◌, List, [], ◌∷◌, ok, err, str_eq, any,
  is_empty, eq_iff, sym, arith, Bool-cases,
}
use traceline.Lifecycle.{
  RunStatus, run_value, RunCaseStatus, run_case_value, AttemptStatus, attempt_value, SmokeState,
  smoke_value, illegal_transition, Table, run_transitions, run_case_transitions,
  attempt_transitions, smoke_transitions, coerce_status, step, transition,
}

or_true : (b : Bool) → (b || true) ≡ true
or_true true = refl
or_true false = refl

-- The text of a member is read as that member.
pub run_coerce : (a : RunStatus) → coerce_status run_transitions (run_value a) ≡ ok a
unfolding coerce_status run_value
run_coerce RunStatus.draft = refl
run_coerce _ = refl

pub attempt_coerce :
    (a : AttemptStatus) → coerce_status attempt_transitions (attempt_value a) ≡ ok a
unfolding coerce_status attempt_value
attempt_coerce AttemptStatus.queued = refl
attempt_coerce _ = refl

pub smoke_coerce : (a : SmokeState) → coerce_status smoke_transitions (smoke_value a) ≡ ok a
unfolding coerce_status smoke_value
smoke_coerce SmokeState.ingested = refl
smoke_coerce _ = refl

pub case_coerce : (a : RunCaseStatus) → coerce_status run_case_transitions (run_case_value a) ≡ ok a
unfolding coerce_status run_case_value
case_coerce RunCaseStatus.queued = refl
case_coerce _ = refl

-- b is one of the members.
abbrev pub IsIn : {S : Type 0} → S → List S → Type 0
IsIn b [] = ⊥
IsIn b (m ∷ ms) = (b ≡ m) ⊎ IsIn b ms

module _ {S : Type 0} (t : Table S) (reads : (a : S) → coerce_status t (t.value a) ≡ ok a) where
  value-injective : (a b : S) → t.value a ≡ t.value b → a ≡ b
  value-injective a b h = cc (reads a, reads b)

  any-IsIn : (b : S) (ms : List S) → any (λ m. str_eq (t.value m) (t.value b)) ms ≡ true → IsIn b ms
  any-IsIn b [] h = cc
  any-IsIn b (m ∷ ms) h = elim (Bool-cases (str_eq (t.value m) (t.value b))) [
    | inl same ↦ inl (sym (value-injective m b ((eq_iff (t.value m) (t.value b)).0 same)))
    | inr other ↦ inr (any-IsIn b ms (rw other at h))
  ]

  IsIn-any : (b : S) (ms : List S) → IsIn b ms → any (λ m. str_eq (t.value m) (t.value b)) ms ≡ true
  IsIn-any b [] h = absurd h
  IsIn-any b (m ∷ ms) (inl e) = rw (← e, eq_refl (t.value b)) refl
  IsIn-any b (m ∷ ms) (inr h) = rw (IsIn-any b ms h) (or_true _)

  step_sound : (a b : S) → step t a b ≡ ok b → (a ≡ b) ⊎ IsIn b (t.allowed a)
  unfolding step
  step_sound a b h = elim (Bool-cases (str_eq (t.value a) (t.value b))) [
    | inl same ↦ inl (value-injective a b ((eq_iff (t.value a) (t.value b)).0 same))
    | inr other ↦ elim (Bool-cases (any (λ m. str_eq (t.value m) (t.value b)) (t.allowed a))) [
      | inl listed ↦ inr (any-IsIn b (t.allowed a) listed)
      | inr missing ↦ cc (rw (other, missing) at h)
    ]
  ]

  step_complete : (a b : S) → (a ≡ b) ⊎ IsIn b (t.allowed a) → step t a b ≡ ok b
  unfolding step
  step_complete a b (inl e) = ground (arith, eq_iff (t.value a) (t.value b))
  step_complete a b (inr h) = ground (arith, IsIn-any b (t.allowed a) h)

  step_or : (a b : S) → (step t a b ≡ ok b) ⊎ (step t a b ≡ err illegal_transition)
  unfolding step
  step_or a b = ground arith

  transition-step :
      (a b : S) → is_empty t.members ≡ false → transition t (t.value a) (t.value b) ≡ step t a b
  unfolding transition
  transition-step a b h = rw (h, reads a, reads b) refl

  -- Exactly the legal transitions succeed, with the target as the result: the same status again, and
  -- those in the table's row. Any other raises.
  pub transition_iff :
      (a b : S)
      → is_empty t.members ≡ false
      → ((transition t (t.value a) (t.value b) ≡ ok b) ↔ ((a ≡ b) ⊎ IsIn b (t.allowed a)))
        × ((transition t (t.value a) (t.value b) ≡ ok b)
            ⊎ (transition t (t.value a) (t.value b) ≡ err illegal_transition))
  transition_iff a b h =
      rw (transition-step a b h) ((step_sound a b, step_complete a b), step_or a b)
