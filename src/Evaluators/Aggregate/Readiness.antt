-- ===== src/Evaluators/Aggregate/Readiness.antt =====
-- Which metrics gate_safe of evaluators.py lets through, over the registry of judge.py.
use traceline.Common.{
  ◌≡◌, refl, subst, ◌↔◌, Bool, true, false, Option, none, some, List, [], ◌∷◌, All, All-map, arith,
  if◌then◌else◌,
}
use traceline.Values.{Python}
use traceline.Spec.Model.{Metric, MetricType, rule_metric, scalar, judge, JudgeBinding}
use traceline.Judge.Readiness.{
  ReadinessState, uncalibrated, calibrating, calibrated, readiness_is_provisional, JudgeReadiness,
}
use traceline.Judge.Registry.{Thresholds, get, provisional, is_provisional}
use traceline.Judge.Entries.{get-unchanged}
use traceline.Evaluators.Aggregate.{
  is_calibrated, MaybeRegistry, binding_ready, ready_for, eligible, gate_safe,
}

module _ (py : Python) (defaults : Thresholds py.Float) where
  open py use {Float}

  -- The judge's binding in the registry is calibrated.
  abbrev pub Ready : Option JudgeBinding → MaybeRegistry py defaults → Type 0
  Ready b none = ⊥
  Ready none (some reg) = ⊥
  Ready (some b) (some reg) = provisional py defaults b reg ≡ false

  abbrev pub JudgeReady : MetricType → Option JudgeBinding → MaybeRegistry py defaults → Type 0
  JudgeReady judge b reg = Ready b reg
  JudgeReady _ b reg = Unit

  -- The metric may gate: it is not flagged, and a judge's binding is ready.
  abbrev pub MayGate : MaybeRegistry py defaults → Metric Float → Type 0
  MayGate reg m = (m.provisional ≡ false) × JudgeReady m.type m.judge_binding reg

  calibrated_iff :
      (s : ReadinessState)
      → (is_calibrated py defaults s ≡ true) ↔ (readiness_is_provisional s ≡ false)
  unfolding readiness_is_provisional
  calibrated_iff uncalibrated = (λ h. cc, λ h. cc)
  calibrated_iff calibrating = (λ h. cc, λ h. cc)
  calibrated_iff calibrated = (λ h. refl, λ h. refl)

  binding_ready_iff :
      (b : Option JudgeBinding) (reg : MaybeRegistry py defaults)
      → ((binding_ready py defaults b reg).0 ≡ true) ↔ Ready b reg
  unfolding binding_ready provisional is_provisional
  binding_ready_iff none none = (λ h. absurd (ground arith), λ h. absurd h)
  binding_ready_iff (some b) none = (λ h. absurd (ground arith), λ h. absurd h)
  binding_ready_iff none (some reg) = (λ h. absurd (ground arith), λ h. absurd h)
  binding_ready_iff (some b) (some reg) = calibrated_iff (get py defaults b reg).0.state

  ready_for_iff :
      (t : MetricType) (b : Option JudgeBinding) (reg : MaybeRegistry py defaults)
      → ((ready_for py defaults t b reg).0 ≡ true) ↔ JudgeReady t b reg
  ready_for_iff judge b reg = binding_ready_iff b reg
  ready_for_iff rule_metric b reg = (λ h. tt, λ h. refl)
  ready_for_iff scalar b reg = (λ h. tt, λ h. refl)

  eligible_iff :
      (m : Metric Float) (reg : MaybeRegistry py defaults)
      → ((eligible py defaults m reg).0 ≡ true) ↔ MayGate reg m
  unfolding eligible
  eligible_iff m reg = go m.provisional
    where
      go :
          (p : Bool)
          → ((if p then (false, reg) else ready_for py defaults m.type m.judge_binding reg).0
              ≡ true)
            ↔ ((p ≡ false) × JudgeReady m.type m.judge_binding reg)
      go true = (λ h. cc, λ h. cc)
      go false =
          let (there, back) = ready_for_iff m.type m.judge_binding reg in
          (λ h. (refl, there h), λ h. back h.1)

  -- The registries of which every binding has the same readiness.
  abbrev SameReady : MaybeRegistry py defaults → MaybeRegistry py defaults → Type 0
  SameReady none none = Unit
  SameReady (some a) (some b) =
      (c : JudgeBinding) → (get py defaults c a).0 ≡ (get py defaults c b).0
  SameReady _ _ = ⊥

  SameReady-refl : (reg : MaybeRegistry py defaults) → SameReady reg reg
  SameReady-refl none = tt
  SameReady-refl (some reg) = λ c. refl

  ready_for-SameReady :
      (t : MetricType) (b : Option JudgeBinding) (reg : MaybeRegistry py defaults)
      → SameReady (ready_for py defaults t b reg).1 reg
  unfolding binding_ready
  ready_for-SameReady rule_metric b reg = SameReady-refl reg
  ready_for-SameReady scalar b reg = SameReady-refl reg
  ready_for-SameReady judge b none = tt
  ready_for-SameReady judge none (some reg) = SameReady-refl (some reg)
  ready_for-SameReady judge (some b) (some reg) = λ c. get-unchanged py defaults b c reg

  eligible-SameReady :
      (m : Metric Float) (reg : MaybeRegistry py defaults)
      → SameReady (eligible py defaults m reg).1 reg
  unfolding eligible
  eligible-SameReady m reg = go m.provisional
    where
      go :
          (p : Bool)
          → SameReady
              (if p then (false, reg) else ready_for py defaults m.type m.judge_binding reg).1
              reg
      go true = SameReady-refl reg
      go false = ready_for-SameReady m.type m.judge_binding reg

  Ready-SameReady :
      (b : Option JudgeBinding) (reg reg' : MaybeRegistry py defaults)
      → SameReady reg' reg
      → Ready b reg'
      → Ready b reg
  unfolding provisional
  Ready-SameReady b none none h r = r
  Ready-SameReady none (some reg) (some reg') h r = r
  Ready-SameReady b none (some reg') h r = absurd h
  Ready-SameReady b (some reg) none h r = absurd h
  Ready-SameReady (some b) (some reg) (some reg') h r =
      subst (λ (x : JudgeReadiness Float). is_provisional py defaults x ≡ false) (h b) r

  MayGate-SameReady :
      (reg reg' : MaybeRegistry py defaults)
      → SameReady reg' reg
      → (m : Metric Float) → MayGate reg' m
      → MayGate reg m
  MayGate-SameReady reg reg' h m may = (may.0, go m.type may.1)
    where
      go : (t : MetricType) → JudgeReady t m.judge_binding reg' → JudgeReady t m.judge_binding reg
      go judge r = Ready-SameReady m.judge_binding reg reg' h r
      go rule_metric r = tt
      go scalar r = tt

  -- Every metric that gate_safe lets through is not flagged as provisional and, if it is a judge's, has
  -- a binding that the given registry says is calibrated.
  pub gate_safe-MayGate :
      (ms : List (Metric Float)) (reg : MaybeRegistry py defaults)
      → All (MayGate reg) (gate_safe py defaults ms reg).0
  unfolding gate_safe
  gate_safe-MayGate [] reg = tt
  gate_safe-MayGate (m ∷ ms) reg = go (eligible py defaults m reg).0 (eligible_iff m reg).0 (
      All-map (MayGate (eligible py defaults m reg).1) (MayGate reg)
        (MayGate-SameReady reg _ (eligible-SameReady m reg))
        (gate_safe py defaults ms (eligible py defaults m reg).1).0
        (gate_safe-MayGate ms (eligible py defaults m reg).1))
    where
      out : List (Metric Float)
      out = (gate_safe py defaults ms (eligible py defaults m reg).1).0

      go :
          (b : Bool)
          → (b ≡ true → MayGate reg m)
          → All (MayGate reg) out
          → All (MayGate reg) (if b then m ∷ out else out)
      go true may rest = (may refl, rest)
      go false may rest = rest
