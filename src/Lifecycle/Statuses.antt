-- ===== src/Lifecycle/Statuses.antt =====
-- What the tables of lifecycle.py allow.
use traceline.Common.{
  false, ℕ, zero, suc, ◌+◌, ◌≤◌, ◌<◌, ◌≡◌, ◌≢◌, ◌↔◌, ◌⊎◌, inl, inr, refl, ◌∙◌, true, ok, arith,
}
use traceline.Lifecycle.{
  RunStatus, run_value, run_allowed, AttemptStatus, attempt_value, attempt_allowed, SmokeState,
  smoke_value, smoke_allowed, run_transitions, attempt_transitions, smoke_transitions, transition,
  coerce_status, step, is_attempt_terminal, is_smoke_failure,
}
use traceline.Lifecycle.Transition.{IsIn, run_coerce, attempt_coerce, smoke_coerce, transition_iff}

-- How far a run status is from the start.
abbrev pub run_rank : RunStatus → ℕ
run_rank RunStatus.draft = 0
run_rank RunStatus.queued = 1
run_rank RunStatus.provisioning = 2
run_rank RunStatus.running = 3
run_rank RunStatus.aggregating = 4
run_rank RunStatus.incomplete = 5
run_rank _ = 6

abbrev pub RunStep : RunStatus → RunStatus → Type 0
RunStep a b = transition run_transitions (run_value a) (run_value b) ≡ ok b

run_step : (a b : RunStatus) → RunStep a b → (a ≡ b) ⊎ IsIn b (run_allowed a)
run_step a b h = (transition_iff run_transitions run_coerce a b refl).0.0 h

-- A legal run transition stays, requeues, or advances along draft, queued, provisioning, running,
-- aggregating, incomplete, and last complete, failed or cancelled; and a complete or failed run stays
-- what it is.
pub run_progress :
    (a b : RunStatus)
    → RunStep a b
    → ((a ≡ b) ⊎ (b ≡ RunStatus.queued) ⊎ (run_rank a < run_rank b))
      × ((a ≢ RunStatus.complete) ⊎ (a ≡ b))
      × ((a ≢ RunStatus.failed) ⊎ (a ≡ b))
run_progress a b h = go a (run_step a b h)
  where
    go :
        (a : RunStatus)
        → (a ≡ b) ⊎ IsIn b (run_allowed a)
        → ((a ≡ b) ⊎ (b ≡ RunStatus.queued) ⊎ (run_rank a < run_rank b))
          × ((a ≢ RunStatus.complete) ⊎ (a ≡ b))
          × ((a ≢ RunStatus.failed) ⊎ (a ≡ b))
    go RunStatus.draft h = (
      unfold run_allowed in ground arith,
      unfold run_allowed in ground arith,
      unfold run_allowed in ground arith,
    )
    go _ h = (
      unfold run_allowed in ground arith,
      unfold run_allowed in ground arith,
      unfold run_allowed in ground arith,
    )

-- `Advance n a b`: n legal changes of status lead from a to b, none of them a requeue: a run comes
-- to QUEUED only from DRAFT.
pub data Advance : ℕ → RunStatus → RunStatus → Type 0 where
  start : {a : RunStatus} → Advance zero a a
  next :
      {n : ℕ} {a b c : RunStatus}
      → Advance n a b
      → RunStep b c
      → b ≢ c
      → (c ≢ RunStatus.queued) ⊎ (b ≡ RunStatus.draft)
      → Advance (suc n) a c

step-rank :
    (b c : RunStatus)
    → RunStep b c
    → b ≢ c
    → (c ≢ RunStatus.queued) ⊎ (b ≡ RunStatus.draft)
    → run_rank b < run_rank c
step-rank b c s changed (inl resumed) = ground (arith, (run_progress b c s).0)
step-rank b c s changed (inr first) = rw first (above c (λ e. changed (first ∙ e)))
  where
    above : (c : RunStatus) → RunStatus.draft ≢ c → 0 < run_rank c
    above RunStatus.draft other = absurd (other refl)
    above _ other = omega arith

Advance-rank : {n : ℕ} {a b : RunStatus} → Advance n a b → run_rank a + n ≤ run_rank b
Advance-rank start = omega arith
Advance-rank (next {b} {c} run s changed resumed) =
    omega (arith, Advance-rank run, step-rank b c s changed resumed)

rank-le : (a : RunStatus) → run_rank a ≤ 6
rank-le RunStatus.draft = omega arith
rank-le _ = omega arith

-- A run that is not requeued, that is one that comes to QUEUED only from DRAFT, changes its status at
-- most six times.
pub Advance-bounded : {n : ℕ} {a b : RunStatus} → Advance n a b → n ≤ 6
Advance-bounded {b = b} run = omega (arith, Advance-rank run, rank-le b)

abbrev pub AttemptStep : AttemptStatus → AttemptStatus → Type 0
AttemptStep a b = transition attempt_transitions (attempt_value a) (attempt_value b) ≡ ok b

attempt_step : (a b : AttemptStatus) → AttemptStep a b → (a ≡ b) ⊎ IsIn b (attempt_allowed a)
attempt_step a b h = (transition_iff attempt_transitions attempt_coerce a b refl).0.0 h

allowed : (a b : AttemptStatus) → IsIn b (attempt_allowed a) → AttemptStep a b
allowed a b h = (transition_iff attempt_transitions attempt_coerce a b refl).0.1 (inr h)

-- The terminal attempt statuses are exactly those that no legal transition leaves.
pub attempt_terminal_iff :
    (a : AttemptStatus)
    → (is_attempt_terminal a ≡ true) ↔ ((b : AttemptStatus) → AttemptStep a b → a ≡ b)
attempt_terminal_iff a = (λ h b s. stays a h (attempt_step a b s), leaves a)
  where
    stays :
        {b : AttemptStatus} (a : AttemptStatus)
        → is_attempt_terminal a ≡ true
        → (a ≡ b) ⊎ IsIn b (attempt_allowed a)
        → a ≡ b
    stays AttemptStatus.queued h s = unfold is_attempt_terminal in cc
    stays _ h s = unfold is_attempt_terminal attempt_allowed in ground arith

    leaves :
        (a : AttemptStatus)
        → ((b : AttemptStatus) → AttemptStep a b → a ≡ b)
        → is_attempt_terminal a ≡ true
    leaves AttemptStatus.queued h = cc (
        h AttemptStatus.cancelled (
          allowed AttemptStatus.queued AttemptStatus.cancelled
            (unfold attempt_allowed in inr (inl refl))))
    leaves AttemptStatus.running h = cc (
        h AttemptStatus.completed (
          allowed AttemptStatus.running AttemptStatus.completed
            (unfold attempt_allowed in inl refl)))
    leaves _ h = unfold is_attempt_terminal in refl

abbrev pub SmokeStep : SmokeState → SmokeState → Type 0
SmokeStep a b = transition smoke_transitions (smoke_value a) (smoke_value b) ≡ ok b

smoke_step : (a b : SmokeState) → SmokeStep a b → (a ≡ b) ⊎ IsIn b (smoke_allowed a)
smoke_step a b h = (transition_iff smoke_transitions smoke_coerce a b refl).0.0 h

not_failure :
    (b : SmokeState)
    → is_smoke_failure b ≡ true
    → (b ≢ SmokeState.analyzed) × (b ≢ SmokeState.evaluable)
not_failure SmokeState.analyzed h = unfold is_smoke_failure in cc
not_failure SmokeState.evaluable h = unfold is_smoke_failure in cc
not_failure _ h = (λ e. cc, λ e. cc)

-- A project becomes evaluable only from SMOKE_PASSED, passes smoke only from RUNTIME_PREPARED or a
-- failure state, fails smoke from neither INGESTED, SMOKE_PASSED nor EVALUABLE, and EVALUABLE is
-- never left.
pub smoke_gate :
    (a b : SmokeState)
    → SmokeStep a b
    → a ≢ b
    → ((b ≢ SmokeState.evaluable) ⊎ (a ≡ SmokeState.smoke_passed))
      × ((b ≢ SmokeState.smoke_passed)
          ⊎ (a ≡ SmokeState.runtime_prepared)
          ⊎ (is_smoke_failure a ≡ true))
      × ((is_smoke_failure b ≡ false) ⊎ ((a ≢ SmokeState.ingested) × (a ≢ SmokeState.smoke_passed)))
      × (a ≢ SmokeState.evaluable)
smoke_gate a b h changed = go a (smoke_step a b h) changed
  where
    go :
        (a : SmokeState)
        → (a ≡ b) ⊎ IsIn b (smoke_allowed a)
        → a ≢ b
        → ((b ≢ SmokeState.evaluable) ⊎ (a ≡ SmokeState.smoke_passed))
          × ((b ≢ SmokeState.smoke_passed)
              ⊎ (a ≡ SmokeState.runtime_prepared)
              ⊎ (is_smoke_failure a ≡ true))
          × ((is_smoke_failure b ≡ false)
              ⊎ ((a ≢ SmokeState.ingested) × (a ≢ SmokeState.smoke_passed)))
          × (a ≢ SmokeState.evaluable)
    go SmokeState.ingested h c = (
      unfold smoke_allowed in ground arith,
      unfold smoke_allowed is_smoke_failure in ground arith,
      unfold smoke_allowed in ground (arith, not_failure b),
      unfold smoke_allowed in λ x. ground arith,
    )
    go _ h c = (
      unfold smoke_allowed in ground arith,
      unfold smoke_allowed is_smoke_failure in ground arith,
      unfold smoke_allowed in ground (arith, not_failure b),
      unfold smoke_allowed in λ x. ground arith,
    )

-- An analyzed project may land in any of the six failure states without having been prepared, and
-- from there pass smoke.
pub analyzed_may_fail :
    (f : SmokeState)
    → is_smoke_failure f ≡ true
    → SmokeStep SmokeState.analyzed f × SmokeStep f SmokeState.smoke_passed
analyzed_may_fail SmokeState.timeout h = (
  unfold transition coerce_status step smoke_allowed smoke_value in refl,
  unfold transition coerce_status step smoke_allowed smoke_value in refl,
)
analyzed_may_fail _ h =
    unfold transition coerce_status step smoke_allowed smoke_value is_smoke_failure in ground arith
