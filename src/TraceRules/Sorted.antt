-- ===== src/TraceRules/Sorted.antt =====
-- What `_match` of trace_rules.py returns: the events that pass, in the order of the keys.
use mathlib.Core.List.{Perm, append-nil, perm_middle}
use mathlib.Core.List.Perm
use traceline.Common.{
  ◌≡◌, refl, Bool, false, ◌&&◌, not, Option, List, [], ◌∷◌, ◌++◌, ok, err, >>=-eq-ok, check-ok,
  filter, All, Bool-cases, inl, inr, if◌then◌else◌,
}
use traceline.Common.Int.{ℤ}
use traceline.Values.{Entries, Python}
use traceline.Predicate.Compile.{Cel}
use traceline.TraceRules.Order.{key_before}
use traceline.TraceRules.Causality.{key_before-asym, key_before-weak_trans}
use traceline.TraceRules.Matching.{
  Event, Criteria, criteria, matches, match_loop, keep_if, insert_event, sort_from, sort_events,
  clock_error, in_window, match_events, get, is_null, is_source,
}

module _ (py : Python) (celpy : Cel py.Float) where
  abbrev NotBefore : Event py celpy → Event py celpy → Type 0
  NotBefore x y = key_before y x ≡ false

  abbrev pub IsSorted : List (Event py celpy) → Type 0
  IsSorted [] = Unit
  IsSorted (x ∷ xs) = All (NotBefore x) xs × IsSorted xs

  pub All-insert :
      (P : Event py celpy → Type 0) (e : Event py celpy) (xs : List (Event py celpy))
      → P e
      → All P xs
      → All P (insert_event py celpy e xs)
  unfolding insert_event
  All-insert P e [] p h = (p, tt)
  All-insert P e (x ∷ xs) p h = elim (Bool-cases (key_before e x)) [
    | inl before ↦ rw before (p, h)
    | inr behind ↦ rw behind (h.0, All-insert P e xs p h.1)
  ]

  NotBefore-trans :
      (e x : Event py celpy) (xs : List (Event py celpy))
      → NotBefore e x
      → All (NotBefore x) xs
      → All (NotBefore e) xs
  NotBefore-trans e x [] h k = tt
  NotBefore-trans e x (y ∷ ys) h k =
      (key_before-weak_trans e x y h k.0, NotBefore-trans e x ys h k.1)

  insert-IsSorted :
      (e : Event py celpy) (xs : List (Event py celpy))
      → IsSorted xs
      → IsSorted (insert_event py celpy e xs)
  unfolding insert_event
  insert-IsSorted e [] h = (tt, tt)
  insert-IsSorted e (x ∷ xs) h = elim (Bool-cases (key_before e x)) [
    | inl before ↦
        let later = key_before-asym e x before in
        rw before ((later, NotBefore-trans e x xs later h.0), h)
    | inr behind ↦ rw behind (All-insert (NotBefore x) e xs behind h.0, insert-IsSorted e xs h.1)
  ]

  insert-perm :
      (e : Event py celpy) (xs : List (Event py celpy)) → Perm (insert_event py celpy e xs) (e ∷ xs)
  unfolding insert_event
  insert-perm e [] = Perm.refl (e ∷ [])
  insert-perm e (x ∷ xs) = elim (Bool-cases (key_before e x)) [
    | inl before ↦ rw before (Perm.refl (e ∷ (x ∷ xs)))
    | inr behind ↦ rw behind (Perm.trans (Perm.cons x (insert-perm e xs)) (Perm.swap e x xs))
  ]

  sort_from-IsSorted :
      (out es : List (Event py celpy)) → IsSorted out → IsSorted (sort_from py celpy out es)
  unfolding sort_from
  sort_from-IsSorted out [] h = h
  sort_from-IsSorted out (e ∷ es) h =
      sort_from-IsSorted (insert_event py celpy e out) es (insert-IsSorted e out h)

  sort_from-perm : (out es : List (Event py celpy)) → Perm (sort_from py celpy out es) (out ++ es)
  unfolding sort_from
  sort_from-perm out [] = rw append-nil (Perm.refl out)
  sort_from-perm out (e ∷ es) =
      Perm.trans (sort_from-perm (insert_event py celpy e out) es)
        (Perm.trans (Perm.append_right es (insert-perm e out)) (Perm.symm (perm_middle out es)))

  -- The tests of the loop, where none of them raises.
  abbrev pub passes : Criteria py celpy → Event py celpy → Bool
  passes c e = elim (matches py celpy c e) [ ok b ↦ b | err _ ↦ false ]

  keep_filter :
      (c : Criteria py celpy) (e : Event py celpy) (b : Bool) (out : List (Event py celpy))
      → matches py celpy c e ≡ ok b
      → keep_if py celpy e b out ≡ (if passes c e then e ∷ out else out)
  keep_filter c e b out h = rw (h, passes) refl

  pub match_loop-filter :
      (c : Criteria py celpy) (es : List (Event py celpy)) {out : List (Event py celpy)}
      → match_loop py celpy c es ≡ ok out
      → out ≡ filter (passes c) es
  unfolding match_loop
  match_loop-filter c [] h = cc
  match_loop-filter c (e ∷ es) h =
      let (b, tested, rest) = >>=-eq-ok (matches py celpy c e) _ h in
      let (later, looped, same) = >>=-eq-ok (match_loop py celpy c es) _ rest in
      let ih = match_loop-filter c es looped in let kept = keep_filter c e b later tested in cc

  sort_events-IsSorted_perm :
      (es : List (Event py celpy)) {out : List (Event py celpy)}
      → sort_events py celpy es ≡ ok out
      → IsSorted out × Perm out es
  unfolding sort_events
  sort_events-IsSorted_perm es h =
      let sorted = (check-ok _ clock_error h).1 in
      rw (← sorted) (sort_from-IsSorted [] es tt, sort_from-perm [] es)

  -- Where a match resolves, its candidates are a rearrangement of the events that pass its tests of
  -- type, source, tool and predicate and then lie in the window, none lost and none twice, in the
  -- order of timestamp and sequence.
  pub match_events-IsSorted_perm :
      (m : Entries py.Float) (events : List (Event py celpy)) (anchor : Option (Event py celpy))
      (window : Option ℤ) {out : List (Event py celpy)}
      → match_events py celpy m events anchor window ≡ ok out
      → IsSorted out
        × ((kept : List (Event py celpy)) × (in_window py celpy window anchor events
                (filter (passes (criteria py celpy m)) events)
              ≡ ok kept)
            × Perm out kept)
  unfolding match_events
  match_events-IsSorted_perm m events anchor window h =
      elim (Bool-cases (
        not (is_null py celpy (get py celpy m "source"))
        && not (is_source py celpy (get py celpy m "source")))) [
          | inl bad ↦ cc (rw bad at h)
          | inr fine ↦
              let (l, looped, rest) =
                >>=-eq-ok (match_loop py celpy (criteria py celpy m) events) _ (rw fine at h) in
              let (kept, windowed, sorted) =
                >>=-eq-ok (in_window py celpy window anchor events l) _ rest in
              let (in_order, perm) = sort_events-IsSorted_perm kept sorted in
              let passed = match_loop-filter (criteria py celpy m) events looped in
              (in_order, (kept, rw (← passed) windowed, perm))
        ]
