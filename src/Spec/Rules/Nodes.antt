-- ===== src/Spec/Rules/Nodes.antt =====
-- The evaluation of a node with a match (trace_rules.py), after the check of the node by spec.py.
use traceline.Common.{
  ◌∷◌, [], str_eq, String, if◌then◌else◌, ◌≡◌, refl, String, Bool, true, false, not, ◌&&◌, ◌||◌,
  Option, none, some, List, Result, ok, err, ◌>>=◌, check,
}
use traceline.Common.Int.{ℤ}
use traceline.Values.{Value, bool, int, dict, Entries, Python}
use traceline.Predicate.Compile.{Cel}
use traceline.TraceRules.Matching.{RuleError, Event, get, as_int, match_events}
use traceline.TraceRules.Order.{is_ancestor, key_lt, precedes, follows}
use traceline.TraceRules.Rules.{
  exists_before, exists_after, latest, better, best_from, predecessors_for, immediate_predecessors,
  satisfying, Op, candidates, eval_within_ms, eval_anchored, eval_match_bearing,
}
use traceline.Spec.Rules.{
  field, is_int, opt_int, check_match, check_match_value, check_assert, check_matching, Check,
  is_count, is_within, inner_count, no_ms as no_ms_problem, bad_window,
}
use traceline.Spec.Rules.Late.{
  filter-RaisesLate, one_kind-RaisesLate, RaisesLate, bind-RaisesLate, match_events-RaisesLate,
  window-RaisesLate,
}

module _ (py : Python) (celpy : Cel py.Float) where
  open py use {Float}

  pub get-field : (node : Entries Float) (key : String) → get py celpy node key ≡ field node key
  unfolding get field
  get-field node key = refl

  -- What a match-bearing node that was checked holds.
  abbrev pub HasMatch : Entries Float → Type 0
  HasMatch node =
      (opt_int (field node "within_ms") ≡ true)
      × ((m : Entries Float) × (field node "match" ≡ dict m) × (check_match m ≡ ok tt))

  match_value :
      (v : Value Float)
      → check_match_value v ≡ ok tt
      → (m : Entries Float) × (v ≡ dict m) × (check_match m ≡ ok tt)
  match_value (dict m) h = (m, refl, h)
  match_value _ h = cc

  five_checks :
      {E : Type 0} (a b c : Bool) (m n : Result E (Unit {0})) (p q r : E)
      → (check a p >>= λ u. check b q >>= λ v. m >>= λ w. check c r >>= λ x. n) ≡ ok tt
      → (b ≡ true) × (m ≡ ok tt) × (c ≡ true) × (n ≡ ok tt)
  five_checks true true true (ok u) (ok v) p q r h = (refl, refl, refl, refl)
  five_checks true true true (ok u) (err e) p q r h = cc
  five_checks true true true (err e) n p q r h = cc
  five_checks true true false (ok u) n p q r h = cc
  five_checks true true false (err e) n p q r h = cc
  five_checks true false c m n p q r h = cc
  five_checks false b c m n p q r h = cc

  pub matching_parts :
      (rec : Check Float) (root : Bool) (op : Op) (node : Entries Float)
      → check_matching rec root op node ≡ ok tt
      → ((not (is_within op) || is_int (field node "ms")) ≡ true)
        × HasMatch node
        × (check_assert rec op node ≡ ok tt)
  unfolding check_matching
  matching_parts rec root op node h =
      let (ms, matched, window, asserted) =
        five_checks (not (is_count op && not root)) (not (is_within op) || is_int (field node "ms"))
          (opt_int (field node "within_ms")) (check_match_value (field node "match"))
          (check_assert rec op node) inner_count no_ms_problem bad_window h in
      (ms, (window, match_value (field node "match") matched), asserted)

  candidates-RaisesLate :
      (node : Entries Float) (es : List (Event py celpy)) (a : Option (Event py celpy))
      → HasMatch node
      → RaisesLate (candidates py celpy node es a)
  unfolding candidates
  candidates-RaisesLate node es a (window, (m, e, ok_m)) =
      rw (get-field node "match", e)
        (window-RaisesLate py celpy (get py celpy node "within_ms")
          (λ o. match_events py celpy m es a o) (rw (get-field node "within_ms") window)
          (λ o. match_events-RaisesLate py celpy m es a o ok_m))

  pub eval_match_bearing-RaisesLate :
      (op : Op) (node : Entries Float) (es : List (Event py celpy)) (a : Option (Event py celpy))
      → HasMatch node
      → RaisesLate (eval_match_bearing py celpy op node es a)
  unfolding eval_match_bearing
  eval_match_bearing-RaisesLate op node es a h =
      bind-RaisesLate (candidates py celpy node es a) _ (candidates-RaisesLate node es a h)
        (λ cs. tt)

  key_lt-RaisesLate : (a b : Event py celpy) → RaisesLate (key_lt a b)
  unfolding key_lt
  key_lt-RaisesLate a b = one_kind-RaisesLate a.timestamp b.timestamp _

  latest-RaisesLate :
      (before : Bool) (best : Option (Event py celpy)) (e : Event py celpy)
      → RaisesLate (if before then latest py celpy best e else ok best)
  unfolding key_lt
  latest-RaisesLate true none e = tt
  latest-RaisesLate true (some b) e =
      bind-RaisesLate (key_lt b e) _ (key_lt-RaisesLate b e) (λ l. tt)
  latest-RaisesLate false best e = tt

  either-RaisesLate :
      {A : Type 0} (b : Bool) (x y : Result RuleError A)
      → RaisesLate x
      → RaisesLate y
      → RaisesLate (if b then x else y)
  either-RaisesLate true x y h k = h
  either-RaisesLate false x y h k = k

  better-RaisesLate :
      (es : List (Event py celpy)) (a : Event py celpy) (best : Option (Event py celpy))
      (e : Event py celpy)
      → RaisesLate (better py celpy es a best e)
  unfolding better
  better-RaisesLate es a best e =
      either-RaisesLate (str_eq e.event_id a.event_id || is_ancestor es a e) _ _ tt (
        bind-RaisesLate (key_lt e a) _ (key_lt-RaisesLate e a)
          (λ before. latest-RaisesLate before best e))

  best_from-RaisesLate :
      (es : List (Event py celpy)) (a : Event py celpy) (best : Option (Event py celpy))
      (rest : List (Event py celpy))
      → RaisesLate (best_from py celpy es a best rest)
  unfolding best_from
  best_from-RaisesLate es a best [] = tt
  best_from-RaisesLate es a best (e ∷ rest) =
      bind-RaisesLate (better py celpy es a best e) _ (better-RaisesLate es a best e)
        (λ b. best_from-RaisesLate es a b rest)

  predecessors-RaisesLate :
      (parent : Option String) (cs es : List (Event py celpy)) (a : Event py celpy)
      → RaisesLate (predecessors_for py celpy parent cs es a)
  unfolding best_from
  predecessors-RaisesLate (some p) cs es a = tt
  predecessors-RaisesLate none cs es a =
      bind-RaisesLate (best_from py celpy es a none es) _ (best_from-RaisesLate es a none es)
        (λ b. tt)

  satisfying-RaisesLate :
      (op : Op) (cs es : List (Event py celpy)) (a : Event py celpy)
      → RaisesLate (satisfying py celpy op cs es a)
  unfolding satisfying precedes follows immediate_predecessors
  satisfying-RaisesLate exists_before cs es a = filter-RaisesLate _ cs (λ e.
      either-RaisesLate (is_ancestor es e a) _ _ tt
        (either-RaisesLate (is_ancestor es a e) _ _ tt (key_lt-RaisesLate e a)))
  satisfying-RaisesLate exists_after cs es a = filter-RaisesLate _ cs (λ e.
      either-RaisesLate (is_ancestor es a e) _ _ tt
        (either-RaisesLate (is_ancestor es e a) _ _ tt (key_lt-RaisesLate a e)))
  satisfying-RaisesLate _ cs es a = predecessors-RaisesLate a.parent_event_id cs es a

  pub eval_anchored-RaisesLate :
      (op : Op) (node : Entries Float) (es : List (Event py celpy)) (a : Option (Event py celpy))
      → HasMatch node
      → RaisesLate (eval_anchored py celpy op node es a)
  unfolding eval_anchored
  eval_anchored-RaisesLate op node es none h = tt
  eval_anchored-RaisesLate op node es (some a) h =
      bind-RaisesLate (candidates py celpy node es (some a)) _
        (candidates-RaisesLate node es (some a) h)
        (λ cs.
          bind-RaisesLate (satisfying py celpy op cs es a) _ (satisfying-RaisesLate op cs es a)
            (λ sat. tt))

  ms_value : (v : Value Float) → is_int v ≡ true → (n : ℤ) × (as_int py celpy v ≡ some n)
  ms_value (int n) h = (n, refl)
  ms_value (bool b) h = (_, refl)
  ms_value _ h = cc

  pub eval_within_ms-RaisesLate :
      (node : Entries Float) (es : List (Event py celpy)) (a : Option (Event py celpy))
      → is_int (field node "ms") ≡ true
      → HasMatch node
      → RaisesLate (eval_within_ms py celpy node es a)
  unfolding eval_within_ms
  eval_within_ms-RaisesLate node es a h (window, (m, e, ok_m)) =
      let (n, ms) = ms_value (field node "ms") h in
      rw (get-field node "ms", ms, get-field node "match", e)
        (bind-RaisesLate (match_events py celpy m es a (some n)) _
          (match_events-RaisesLate py celpy m es a (some n) ok_m) (λ cs. tt))
