-- ===== src/Lifecycle/Tests.antt =====
-- Transitions of lifecycle.py on single statuses.
use traceline.Common.{false, ◌≤◌, ◌<◌, ◌≡◌, ◌≢◌, ◌↔◌, ◌⊎◌, inl, inr, refl, true, ok, err}
use traceline.Lifecycle.{
  RunStatus, AttemptStatus, SmokeState, run_value, run_transitions, transition, illegal_transition,
  run_allowed, is_attempt_terminal, is_smoke_failure, coerce_status, step, smoke_value,
  smoke_allowed,
}
use traceline.Lifecycle.Transition.{IsIn, run_coerce, transition_iff}
use traceline.Lifecycle.Statuses.{
  run_rank, run_progress, start, next, Advance-bounded, AttemptStep, attempt_terminal_iff,
  SmokeStep, smoke_gate, analyzed_may_fail,
}

transition_iff_example :
    ((transition run_transitions "draft" "running" ≡ ok RunStatus.running) ↔ (
      (RunStatus.draft ≡ RunStatus.running) ⊎ IsIn RunStatus.running (run_allowed RunStatus.draft)))
    × ((transition run_transitions "draft" "running" ≡ ok RunStatus.running)
        ⊎ (transition run_transitions "draft" "running" ≡ err illegal_transition))
unfolding run_value
transition_iff_example =
    transition_iff run_transitions run_coerce RunStatus.draft RunStatus.running refl

run_progress_example :
    ((RunStatus.running ≡ RunStatus.incomplete)
      ⊎ (RunStatus.incomplete ≡ RunStatus.queued)
      ⊎ (run_rank RunStatus.running < run_rank RunStatus.incomplete))
    × ((RunStatus.running ≢ RunStatus.complete) ⊎ (RunStatus.running ≡ RunStatus.incomplete))
    × ((RunStatus.running ≢ RunStatus.failed) ⊎ (RunStatus.running ≡ RunStatus.incomplete))
unfolding transition coerce_status step run_value run_allowed
run_progress_example = run_progress RunStatus.running RunStatus.incomplete refl

Advance-bounded_example : 2 ≤ 6
unfolding transition coerce_status step run_value run_allowed
Advance-bounded_example =
    Advance-bounded {n = 2} {a = RunStatus.draft} {b = RunStatus.provisioning} (
      next {b = RunStatus.queued} {c = RunStatus.provisioning}
        (next {b = RunStatus.draft} {c = RunStatus.queued} start refl (λ e. cc) (inr refl)) refl
        (λ e. cc) (inl (λ e. cc)))

attempt_terminal_iff_example :
    (is_attempt_terminal AttemptStatus.orphaned ≡ true)
    ↔ ((b : AttemptStatus) → AttemptStep AttemptStatus.orphaned b → AttemptStatus.orphaned ≡ b)
attempt_terminal_iff_example = attempt_terminal_iff AttemptStatus.orphaned

smoke_gate_example :
    ((SmokeState.evaluable ≢ SmokeState.evaluable)
      ⊎ (SmokeState.smoke_passed ≡ SmokeState.smoke_passed))
    × ((SmokeState.evaluable ≢ SmokeState.smoke_passed)
        ⊎ (SmokeState.smoke_passed ≡ SmokeState.runtime_prepared)
        ⊎ (is_smoke_failure SmokeState.smoke_passed ≡ true))
    × ((is_smoke_failure SmokeState.evaluable ≡ false)
        ⊎ ((SmokeState.smoke_passed ≢ SmokeState.ingested)
            × (SmokeState.smoke_passed ≢ SmokeState.smoke_passed)))
    × (SmokeState.smoke_passed ≢ SmokeState.evaluable)
unfolding transition coerce_status step smoke_value smoke_allowed
smoke_gate_example = smoke_gate SmokeState.smoke_passed SmokeState.evaluable refl (λ e. cc)

analyzed_may_fail_example :
    SmokeStep SmokeState.analyzed SmokeState.no_trace
    × SmokeStep SmokeState.no_trace SmokeState.smoke_passed
unfolding is_smoke_failure
analyzed_may_fail_example = analyzed_may_fail SmokeState.no_trace refl
