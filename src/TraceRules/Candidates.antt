-- ===== src/TraceRules/Candidates.antt =====
-- The candidates of trace_rules.py are events of the trace: predicates on events, from the trace to
-- what an operator selects.
use Prim.Native.String.{String}
use traceline.Common.{
  Bool, true, false, not, Option, none, some, List, [], ◌∷◌, Ensures, Ensures-bind, Ensures-then,
  Ensures-filter, check, ◌&&◌, All, All-filter, Bool-cases, inl, inr,
}
use traceline.Common.Int.{ℤ}
use traceline.Values.{Entries, Python}
use traceline.Predicate.Compile.{Cel}
use traceline.TraceRules.Order.{all_one_kind}
use traceline.TraceRules.Matching.{
  Event, Criteria, criteria, match_loop, keep_if, insert_event, sort_from, sort_events, anchor_ts,
  clock_error, in_window, match_events, matches, get, is_null, is_source, require, no_match,
  window_of, as_dict,
}
use traceline.TraceRules.Sorted.{All-insert}
use traceline.TraceRules.Rules.{
  Op, exists_before, exists_after, candidates, best_from, immediate_predecessors, predecessors_for,
  with_best_id, satisfying,
}

module _ (py : Python) (celpy : Cel py.Float) (P : Event py celpy → Type 0) where
  All-match_loop :
      (c : Criteria py celpy) (es : List (Event py celpy))
      → All P es
      → Ensures (All P) (match_loop py celpy c es)
  unfolding match_loop
  All-match_loop c [] h = tt
  All-match_loop c (e ∷ es) h = Ensures-then (All P) (matches py celpy c e) _ λ b.
      Ensures-bind (All P) (All P) (match_loop py celpy c es) _ (All-match_loop c es h.1) (keep b)
    where
      keep : (b : Bool) (out : List (Event py celpy)) → All P out → All P (keep_if py celpy e b out)
      keep true out k = (h.0, k)
      keep false out k = k

  All-sort_from :
      (out es : List (Event py celpy)) → All P out → All P es → All P (sort_from py celpy out es)
  unfolding sort_from
  All-sort_from out [] h k = h
  All-sort_from out (e ∷ es) h k =
      All-sort_from (insert_event py celpy e out) es (All-insert py celpy P e out k.0 h) k.1

  All-in_window :
      (window : Option ℤ) (anchor : Option (Event py celpy)) (events out : List (Event py celpy))
      → All P out
      → Ensures (All P) (in_window py celpy window anchor events out)
  unfolding in_window
  All-in_window none anchor events out h = h
  All-in_window (some ms) anchor events out h =
      Ensures-then (All P) (anchor_ts py celpy anchor events) _ λ t. Ensures-filter P _ out h

  pub sort_events-All :
      (es : List (Event py celpy)) → All P es → Ensures (All P) (sort_events py celpy es)
  unfolding sort_events
  sort_events-All es h =
      Ensures-then (All P) (check (all_one_kind es) clock_error) _ λ u. All-sort_from [] es tt h

  -- What holds of every event holds of every candidate.
  pub match_events-All :
      (m : Entries py.Float) (events : List (Event py celpy)) (anchor : Option (Event py celpy))
      (window : Option ℤ)
      → All P events
      → Ensures (All P) (match_events py celpy m events anchor window)
  unfolding match_events
  match_events-All m events anchor window h =
      elim (Bool-cases (
        not (is_null py celpy (get py celpy m "source"))
        && not (is_source py celpy (get py celpy m "source")))) [
          | inl bad ↦ rw (bad, Ensures) tt
          | inr fine ↦
              rw (fine, Ensures)
                (Ensures-bind (All P) (All P) (match_loop py celpy (criteria py celpy m) events) _
                  (All-match_loop (criteria py celpy m) events h)
                  λ out k.
                    Ensures-bind (All P) (All P) (in_window py celpy window anchor events out) _
                      (All-in_window window anchor events out k) sort_events-All)
        ]

  pub candidates-All :
      (node : Entries py.Float) (events : List (Event py celpy)) (anchor : Option (Event py celpy))
      → All P events
      → Ensures (All P) (candidates py celpy node events anchor)
  unfolding candidates
  candidates-All node events anchor h =
      Ensures-then (All P)
        (require py celpy no_match (as_dict py celpy (get py celpy node "match"))) _
        λ m.
          Ensures-then (All P) (window_of py celpy (get py celpy node "within_ms")) _
            λ window. match_events-All m events anchor window h

  predecessors_for-All :
      (o : Option String) (cs events : List (Event py celpy)) (anchor : Event py celpy)
      → All P cs
      → Ensures (All P) (predecessors_for py celpy o cs events anchor)
  unfolding best_from
  predecessors_for-All (some p) cs events anchor h = All-filter P _ cs h
  predecessors_for-All none cs events anchor h =
      Ensures-then (All P) (best_from py celpy events anchor none events) _ go
    where
      go : (o : Option (Event py celpy)) → All P (with_best_id py celpy o cs)
      go none = tt
      go (some b) = All-filter P _ cs h

  pub satisfying-All :
      (op : Op) (cs events : List (Event py celpy)) (anchor : Event py celpy)
      → All P cs
      → Ensures (All P) (satisfying py celpy op cs events anchor)
  unfolding satisfying
  satisfying-All exists_before cs events anchor h = Ensures-filter P _ cs h
  satisfying-All exists_after cs events anchor h = Ensures-filter P _ cs h
  satisfying-All _ cs events anchor h =
      unfold immediate_predecessors in
      predecessors_for-All anchor.parent_event_id cs events anchor h
