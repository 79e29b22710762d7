-- ===== src/TraceRules/Order.antt =====
-- The ordering contract of trace_rules.py. Timestamps compare as instants where both are naive or
-- both aware; Python raises a TypeError on one of each.
use traceline.Common.{
  ℕ, zero, suc, String, Bool, true, false, ◌&&◌, ◌||◌, Option, none, some, List, [], ◌∷◌, ltb, ◌==◌,
  str_eq, elem_str, map, all, if◌then◌else◌, Result, ok, ◌>>=◌, check,
}
use traceline.Common.Int.{ltb_ℤ}
use traceline.Values.{DateTime, naive, aware}
use traceline.Events.{TraceEvent}
use traceline.TraceRules.Errors.{RuleError, clock_error}

abbrev pub instant : DateTime → ℕ
instant (naive n) = n
instant (aware n) = n

-- Both naive, or both aware.
unfoldable pub one_kind : DateTime → DateTime → Bool
one_kind (naive m) (naive n) = true
one_kind (aware m) (aware n) = true
one_kind _ _ = false

-- A comparison or a subtraction of two timestamps, with its value where they are of one kind.
abbrev pub of_one_kind {ℓ} : {A : Type ℓ} → DateTime → DateTime → A → Result RuleError A
of_one_kind s t a = check (one_kind s t) clock_error >>= λ _. ok a

module _ {F : Type 0} where
  -- The order of the keys by timestamp, then by sequence, on timestamps of one kind.
  unfoldable pub key_before : TraceEvent F → TraceEvent F → Bool
  key_before a b =
      ltb (instant a.timestamp) (instant b.timestamp)
      || (instant a.timestamp == instant b.timestamp) && ltb_ℤ a.sequence b.sequence

  -- _fallback_key(a) < _fallback_key(b)
  unfoldable pub key_lt : TraceEvent F → TraceEvent F → Result RuleError Bool
  unfolding key_before one_kind
  key_lt a b = of_one_kind a.timestamp b.timestamp (key_before a b)

  -- All timestamps are naive, or all are aware.
  unfoldable pub all_one_kind : List (TraceEvent F) → Bool
  unfolding one_kind
  all_one_kind [] = true
  all_one_kind (e ∷ es) = all (λ (x : TraceEvent F). one_kind e.timestamp x.timestamp) es

  abbrev pub or_this : TraceEvent F → String → Option (TraceEvent F) → Option (TraceEvent F)
  or_this e id (some later) = some later
  or_this e id none = if str_eq e.event_id id then some e else none

  -- by_id.get(id), where a later event of the same id replaces an earlier one
  unfoldable pub by_id : List (TraceEvent F) → String → Option (TraceEvent F)
  by_id [] id = none
  by_id (e ∷ es) id = or_this e id (by_id es id)

  -- len(by_id)
  unfoldable pub count_ids : List (TraceEvent F) → ℕ
  count_ids [] = 0
  count_ids (e ∷ es) =
      let rest = count_ids es in
      if elem_str e.event_id (map (λ (x : TraceEvent F). x.event_id) es) then rest else suc rest

  abbrev pub parent_of : List (TraceEvent F) → TraceEvent F → Option (TraceEvent F)
  parent_of es e = elim e.parent_event_id [ none ↦ none | some p ↦ by_id es p ]

  -- The loop of `_is_ancestor` at `cur`, while the step count may still grow by `left`.
  unfoldable pub ancestor_loop : ℕ → List (TraceEvent F) → String → Option (TraceEvent F) → Bool
  unfolding by_id
  ancestor_loop left es id none = false
  ancestor_loop zero es id (some cur) = str_eq cur.event_id id
  ancestor_loop (suc left) es id (some cur) =
      str_eq cur.event_id id || ancestor_loop left es id (parent_of es cur)

  unfoldable pub is_ancestor : List (TraceEvent F) → TraceEvent F → TraceEvent F → Bool
  unfolding ancestor_loop count_ids
  is_ancestor es ancestor desc =
      ancestor_loop (count_ids es) es ancestor.event_id (parent_of es desc)

  unfoldable pub precedes :
      List (TraceEvent F) → TraceEvent F → TraceEvent F → Result RuleError Bool
  unfolding is_ancestor key_lt
  precedes es a b =
      if is_ancestor es a b then ok true else if is_ancestor es b a then ok false else key_lt a b

  unfoldable pub follows : List (TraceEvent F) → TraceEvent F → TraceEvent F → Result RuleError Bool
  unfolding is_ancestor key_lt
  follows es a b =
      if is_ancestor es b a then ok true else if is_ancestor es a b then ok false else key_lt b a
