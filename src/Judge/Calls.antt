-- ===== src/Judge/Calls.antt =====
-- Sequences of calls on the registry of judge.py, for what lets a judge's metrics gate.
use traceline.Common.{
  ℕ, ◌≡◌, ◌≢◌, refl, sym, ◌∙◌, ◌↔◌, Bool, true, false, Option, none, some, List, [], ◌∷◌,
  if◌then◌else◌, ltb,
}
use traceline.Common.Int.{ℤ}
use traceline.Values.{Python}
use traceline.Spec.Model.{JudgeBinding}
use traceline.Judge.Readiness.{
  uncalibrated, calibrating, calibrated, readiness_is_provisional, JudgeReadiness, kappa_below,
  sufficient, derived_state, added, relabel, relabel_if, with_label, with_kappa, reset,
}
use traceline.Judge.Registry.{
  Thresholds, Registry, lookup, get, set, put_if, record_label, recompute_kappa, reset_binding,
  is_provisional, provisional,
}
use traceline.Judge.Entries.{
  AllDerived, store-AllDerived, get-IsEntry, Derives, relabel-Derives, with_kappa-Derives,
  reset-Derives, lookup-store, lookup-get,
}

pub data RegistryCall (F : Type 0) : Type 0 where
  get_call reset_call : JudgeBinding → RegistryCall F
  label_call : JudgeBinding → ℤ → RegistryCall F
  kappa_call : JudgeBinding → F → RegistryCall F

abbrev pub call_binding : {F : Type 0} → RegistryCall F → JudgeBinding
call_binding (get_call b) = b
call_binding (reset_call b) = b
call_binding (label_call b n) = b
call_binding (kappa_call b k) = b

module _ (py : Python) (defaults : Thresholds py.Float) where
  open py use {Float}

  unfoldable pub run_call : RegistryCall Float → Registry Float → Registry Float
  unfolding get record_label recompute_kappa reset_binding
  run_call (get_call b) reg = (get py defaults b reg).1
  run_call (reset_call b) reg = (reset_binding py defaults b reg).1
  run_call (label_call b n) reg = (record_label py defaults b n reg).1
  run_call (kappa_call b k) reg = (recompute_kappa py defaults b k reg).1

  unfoldable pub run_calls : List (RegistryCall Float) → Registry Float → Registry Float
  unfolding run_call
  run_calls [] reg = reg
  run_calls (c ∷ cs) reg = run_calls cs (run_call c reg)

  set-AllDerived :
      (f : JudgeReadiness Float → JudgeReadiness Float) (b : JudgeBinding) (reg : Registry Float)
      → Derives py defaults b f
      → AllDerived py defaults reg
      → AllDerived py defaults
          (set py defaults (f (get py defaults b reg).0) (get py defaults b reg).1)
  unfolding set
  set-AllDerived f b reg h hs =
      let (r, reg') = get py defaults b reg in
      let ((_, same), hs') = get-IsEntry py defaults b reg hs in
      let entry = h r same in
      store-AllDerived py defaults (f r).binding (f r) reg' (entry.0, refl) hs'

  label-AllDerived :
      (b : JudgeBinding) (reg : Registry Float) (count : Option ℕ)
      → AllDerived py defaults reg
      → AllDerived py defaults
          (put_if py defaults
            (relabel_if py (get py defaults b reg).0 count)
            (get py defaults b reg).1).1
  unfolding put_if relabel_if
  label-AllDerived b reg none hs = (get-IsEntry py defaults b reg hs).1
  label-AllDerived b reg (some count) hs =
      set-AllDerived (relabel py count) b reg (relabel-Derives py defaults count b) hs

  run_call-AllDerived :
      (c : RegistryCall Float) (reg : Registry Float)
      → AllDerived py defaults reg
      → AllDerived py defaults (run_call c reg)
  unfolding run_call record_label with_label recompute_kappa reset_binding
  run_call-AllDerived (get_call b) reg hs = (get-IsEntry py defaults b reg hs).1
  run_call-AllDerived (label_call b n) reg hs =
      label-AllDerived b reg (added py (get py defaults b reg).0.label_count n) hs
  run_call-AllDerived (kappa_call b k) reg hs =
      set-AllDerived (with_kappa py k) b reg (with_kappa-Derives py defaults k b) hs
  run_call-AllDerived (reset_call b) reg hs =
      set-AllDerived (reset py (some b)) b reg (reset-Derives py defaults b) hs

  run_calls-AllDerived :
      (cs : List (RegistryCall Float)) (reg : Registry Float)
      → AllDerived py defaults reg
      → AllDerived py defaults (run_calls cs reg)
  unfolding run_calls
  run_calls-AllDerived [] reg hs = hs
  run_calls-AllDerived (c ∷ cs) reg hs = run_calls-AllDerived cs _ (run_call-AllDerived c reg hs)

  settled_iff :
      (below enough labelled : Bool)
      → (readiness_is_provisional (
            if below
            then (if labelled then calibrating else uncalibrated)
            else if enough
            then calibrated
            else if labelled
            then calibrating
            else uncalibrated)
          ≡ false)
        ↔ ((below ≡ false) × (enough ≡ true))
  unfolding readiness_is_provisional
  settled_iff true enough true = (λ h. cc, λ h. cc)
  settled_iff true enough false = (λ h. cc, λ h. cc)
  settled_iff false true labelled = (λ h. (refl, refl), λ h. refl)
  settled_iff false false true = (λ h. cc, λ h. cc)
  settled_iff false false false = (λ h. cc, λ h. cc)

  derived_state-settled_iff :
      (r : JudgeReadiness Float)
      → (readiness_is_provisional (derived_state py r) ≡ false)
        ↔ ((kappa_below py r.kappa_reset r.kappa ≡ false) × (sufficient py r ≡ true))
  unfolding derived_state
  derived_state-settled_iff r =
      settled_iff (kappa_below py r.kappa_reset r.kappa) (sufficient py r) (ltb 0 r.label_count)

  -- After any sequence of calls that get, label, score and reset bindings of a new registry, a binding
  -- is not provisional exactly if its labels and its kappa suffice and its kappa is not below the
  -- reset threshold.
  pub provisional_iff :
      (cs : List (RegistryCall Float)) (b : JudgeBinding)
      → (provisional py defaults b (run_calls cs []) ≡ false) ↔ (
          (kappa_below py
              (get py defaults b (run_calls cs [])).0.kappa_reset
              (get py defaults b (run_calls cs [])).0.kappa
            ≡ false)
          × (sufficient py (get py defaults b (run_calls cs [])).0 ≡ true))
  unfolding provisional is_provisional
  provisional_iff cs b =
      rw ((get-IsEntry py defaults b (run_calls cs []) (run_calls-AllDerived cs [] tt)).0.0, ◌↔◌)
        (derived_state-settled_iff (get py defaults b (run_calls cs [])).0)

  lookup-set :
      (f : JudgeReadiness Float → JudgeReadiness Float) (b c : JudgeBinding) (reg : Registry Float)
      → Derives py defaults b f
      → AllDerived py defaults reg
      → b ≢ c
      → lookup c (set py defaults (f (get py defaults b reg).0) (get py defaults b reg).1)
        ≡ lookup c reg
  unfolding set
  lookup-set f b c reg d hs h =
      let (r, reg') = get py defaults b reg in
      let same = (d r (get-IsEntry py defaults b reg hs).0.1).1 in
      lookup-store py defaults (f r).binding c (f r) reg' (λ e. h (sym same ∙ e))
      ∙ lookup-get py defaults b c reg h

  lookup-label :
      (b c : JudgeBinding) (reg : Registry Float) (count : Option ℕ)
      → AllDerived py defaults reg
      → b ≢ c
      → lookup c
          (put_if py defaults
            (relabel_if py (get py defaults b reg).0 count)
            (get py defaults b reg).1).1
        ≡ lookup c reg
  unfolding put_if relabel_if
  lookup-label b c reg none hs h = lookup-get py defaults b c reg h
  lookup-label b c reg (some count) hs h =
      lookup-set (relabel py count) b c reg (relabel-Derives py defaults count b) hs h

  call-lookup :
      (call : RegistryCall Float) (c : JudgeBinding) (reg : Registry Float)
      → AllDerived py defaults reg
      → call_binding call ≢ c
      → lookup c (run_call call reg) ≡ lookup c reg
  unfolding run_call record_label with_label recompute_kappa reset_binding
  call-lookup (get_call b) c reg hs h = lookup-get py defaults b c reg h
  call-lookup (label_call b n) c reg hs h =
      lookup-label b c reg (added py (get py defaults b reg).0.label_count n) hs h
  call-lookup (kappa_call b k) c reg hs h =
      lookup-set (with_kappa py k) b c reg (with_kappa-Derives py defaults k b) hs h
  call-lookup (reset_call b) c reg hs h =
      lookup-set (reset py (some b)) b c reg (reset-Derives py defaults b) hs h

  -- A call after any sequence of calls on a new registry leaves the readiness of every binding but its
  -- own as it was.
  pub run_call-others :
      (cs : List (RegistryCall Float)) (call : RegistryCall Float) (c : JudgeBinding)
      → call_binding call ≢ c
      → lookup c (run_call call (run_calls cs [])) ≡ lookup c (run_calls cs [])
  run_call-others cs call c h =
      call-lookup call c (run_calls cs []) (run_calls-AllDerived cs [] tt) h
