-- ===== src/Judge/Registry.antt =====
-- JudgeReadinessRegistry of judge.py. Its dict is an association list in the order of insertion, keyed
-- by the four texts of a binding. The shipped thresholds are parameters: the floats 0.6 and 0.5, and
-- 30 labels.
use traceline.Common.{
  ℕ, Bool, ◌&&◌, Option, none, some, List, [], ◌∷◌, str_eq, if◌then◌else◌, is_some,
}
use traceline.Common.Int.{ℤ}
use traceline.Values.{Python}
use traceline.Spec.Model.{JudgeBinding}
use traceline.Judge.Readiness.{
  uncalibrated, readiness_is_provisional, JudgeReadiness, with_label, with_kappa, reset,
}

pub record Thresholds (F : Type 0) : Type 0 where
  pub default_min_labels : ℕ
  pub default_kappa_ready : F
  pub default_kappa_reset : F

-- _key(a) == _key(b)
unfoldable pub same_key : JudgeBinding → JudgeBinding → Bool
same_key a b =
    str_eq a.provider b.provider
    && (str_eq a.model b.model
        && (str_eq a.schema_version b.schema_version && str_eq a.rubric_version b.rubric_version))

abbrev pub Registry : Type 0 → Type 0
Registry F = List (JudgeBinding × JudgeReadiness F)

module _ {F : Type 0} where
  unfoldable pub lookup : JudgeBinding → Registry F → Option (JudgeReadiness F)
  unfolding same_key
  lookup b [] = none
  lookup b ((k, r) ∷ rest) = let found = lookup b rest in if same_key k b then some r else found

  unfoldable pub store : JudgeBinding → JudgeReadiness F → Registry F → Registry F
  unfolding same_key
  store b r [] = (b, r) ∷ []
  store b r ((k, old) ∷ rest) =
      let stored = store b r rest in if same_key k b then (k, r) ∷ rest else (k, old) ∷ stored

module _ (py : Python) (defaults : Thresholds py.Float) where
  open py use {Float}
  open defaults use {default_min_labels, default_kappa_ready, default_kappa_reset}

  abbrev pub fresh : JudgeBinding → JudgeReadiness Float
  fresh b = record {
    binding = b;
    state = uncalibrated;
    label_count = 0;
    kappa = none;
    min_labels = default_min_labels;
    kappa_ready = default_kappa_ready;
    kappa_reset = default_kappa_reset;
    generation = 0;
  }

  -- What `get` returns, and the registry, in which it stores a new binding.
  abbrev pub found_or_fresh :
      JudgeBinding
      → Registry Float
      → Option (JudgeReadiness Float)
      → JudgeReadiness Float × Registry Float
  found_or_fresh b reg (some r) = (r, reg)
  found_or_fresh b reg none = (fresh b, store b (fresh b) reg)

  unfoldable pub get : JudgeBinding → Registry Float → JudgeReadiness Float × Registry Float
  unfolding lookup store
  get b reg = found_or_fresh b reg (lookup b reg)

  unfoldable pub set : JudgeReadiness Float → Registry Float → Registry Float
  unfolding store
  set r reg = store r.binding r reg

  abbrev pub put : JudgeReadiness Float → Registry Float → JudgeReadiness Float × Registry Float
  unfolding set
  put r reg = (r, set r reg)

  -- `none` for the ValueError, behind what `get` has stored
  unfoldable pub put_if :
      Option (JudgeReadiness Float)
      → Registry Float
      → Option (JudgeReadiness Float) × Registry Float
  unfolding set
  put_if none reg = (none, reg)
  put_if (some r) reg = (some r, set r reg)

  unfoldable pub record_label :
      JudgeBinding → ℤ → Registry Float → Option (JudgeReadiness Float) × Registry Float
  unfolding get with_label put_if
  record_label b n reg = let (r, reg') = get b reg in put_if (with_label py n r) reg'

  unfoldable pub recompute_kappa :
      JudgeBinding → Float → Registry Float → JudgeReadiness Float × Registry Float
  unfolding get with_kappa set
  recompute_kappa b k reg = let (r, reg') = get b reg in put (with_kappa py k r) reg'

  unfoldable pub reset_binding :
      JudgeBinding → Registry Float → JudgeReadiness Float × Registry Float
  unfolding get reset set
  reset_binding b reg = let (r, reg') = get b reg in put (reset py (some b) r) reg'

  unfoldable pub is_provisional : JudgeReadiness Float → Bool
  unfolding readiness_is_provisional
  is_provisional r = readiness_is_provisional r.state

  unfoldable pub provisional : JudgeBinding → Registry Float → Bool
  unfolding get is_provisional
  provisional b reg = is_provisional (get b reg).0

  unfoldable pub contains : JudgeBinding → Registry Float → Bool
  unfolding lookup
  contains b reg = is_some (lookup b reg)
