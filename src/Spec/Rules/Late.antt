-- ===== src/Spec/Rules/Late.antt =====
-- What is left for the evaluation of a rule by trace_rules.py to raise, and that the matching of
-- events raises no more than that once spec.py has checked the match.
use traceline.Common.{
  ltb, filter_result, if◌then◌else◌, eq_iff, ◌≡◌, inl, inr, refl, Bool, true, false, not, ◌&&◌,
  Option, none, some, List, [], ◌∷◌, Result, ok, err, ◌>>=◌, check, traverse, All, arith,
  Bool-cases,
}
use traceline.Common.Int.{ℤ}
use traceline.Values.{DateTime, Value, bool, int, str, null, Entries, Python}
use traceline.Predicate.Tokens.{CompileError, syntax, semantic}
use traceline.Predicate.Eval.{PyError}
use traceline.Predicate.Compile.{Cel, compile, evaluate_predicate}
use traceline.TraceRules.Order.{instant, one_kind, of_one_kind, all_one_kind}
use traceline.TraceRules.Matching.{
  clock_error, min_from, attempt_start, anchor_ts, within_window, in_window, sort_events, Event,
  no_anchor, bad_where, RuleError, rule_error, python_error, get, window_of, is_null, is_source,
  from_compile, from_python, where_holds, Criteria, criteria, selects, matches, match_loop,
  match_events,
}
use traceline.Spec.Rules.{
  field, opt_int, opt_text, opt_in, sources, check_match, bad_event, bad_tool,
  bad_where as bad_where_problem, bad_source,
}

-- What is left for the evaluation to raise: a missing anchor, a `where` that does not compile, the
-- TypeError of a naive with an aware timestamp, and the exceptions of Python that a `where` brings.
abbrev pub IsLate : RuleError → Type 0
IsLate (rule_error no_anchor) = Unit
IsLate (rule_error bad_where) = Unit
IsLate clock_error = Unit
IsLate python_error = Unit
IsLate _ = ⊥

abbrev pub RaisesLate : {A : Type 0} → Result RuleError A → Type 0
RaisesLate (ok a) = Unit
RaisesLate (err e) = IsLate e

pub bind-RaisesLate :
    {A B : Type 0} (m : Result RuleError A) (f : A → Result RuleError B)
    → RaisesLate m
    → ((a : A) → RaisesLate (f a))
    → RaisesLate (m >>= f)
bind-RaisesLate (ok a) f h k = k a
bind-RaisesLate (err e) f h k = h

pub traverse-RaisesLate :
    {A B : Type 0} (f : A → Result RuleError B) (xs : List A)
    → All (λ x. RaisesLate (f x)) xs
    → RaisesLate (traverse f xs)
traverse-RaisesLate f [] h = tt
traverse-RaisesLate f (x ∷ xs) h =
    bind-RaisesLate (f x) _ h.0
      (λ y. bind-RaisesLate (traverse f xs) _ (traverse-RaisesLate f xs h.1) (λ ys. tt))

pub filter-RaisesLate :
    {A : Type 0} (f : A → Result RuleError Bool) (xs : List A)
    → ((a : A) → RaisesLate (f a))
    → RaisesLate (filter_result f xs)
filter-RaisesLate f [] h = tt
filter-RaisesLate f (x ∷ xs) h =
    bind-RaisesLate (f x) _ (h x)
      (λ b. bind-RaisesLate (filter_result f xs) _ (filter-RaisesLate f xs h) (λ ys. tt))

clock-RaisesLate : (b : Bool) → RaisesLate (check b clock_error)
clock-RaisesLate true = tt
clock-RaisesLate false = tt

pub one_kind-RaisesLate : {A : Type 0} (s t : DateTime) (a : A) → RaisesLate (of_one_kind s t a)
one_kind-RaisesLate s t a =
    bind-RaisesLate (check (one_kind s t) clock_error) _ (clock-RaisesLate (one_kind s t)) (λ u. tt)

-- Four checks in a row.
four_checks :
    {E : Type 0} (a b c d : Bool) (p q r s : E)
    → (check a p >>= λ u. check b q >>= λ v. check c r >>= λ w. check d s) ≡ ok tt
    → (c ≡ true) × (d ≡ true)
four_checks true true true true p q r s h = (refl, refl)
four_checks _ _ _ _ p q r s h = cc

module _ (py : Python) (celpy : Cel py.Float) where
  open py use {Float}

  -- A `where` that is a text or absent.
  where_holds-RaisesLate :
      (v : Value Float) (e : Event py celpy)
      → opt_text v ≡ true
      → RaisesLate (where_holds py celpy v e)
  unfolding where_holds
  where_holds-RaisesLate null e h = tt
  where_holds-RaisesLate (str s) e h =
      bind-RaisesLate (from_compile py celpy (compile py celpy _ s)) _
        (compiles (compile py celpy _ s)) (λ p. evaluates (evaluate_predicate py celpy p e))
    where
      compiles : {A : Type 0} (r : Result CompileError A) → RaisesLate (from_compile py celpy r)
      compiles (ok a) = tt
      compiles (err (syntax _ _)) = tt
      compiles (err (semantic _)) = tt
      compiles (err _) = tt

      evaluates : {A : Type 0} (r : Result PyError A) → RaisesLate (from_python py celpy r)
      evaluates (ok a) = tt
      evaluates (err _) = tt
  where_holds-RaisesLate _ e h = cc

  matches-RaisesLate :
      (c : Criteria py celpy) (e : Event py celpy)
      → opt_text c.when ≡ true
      → RaisesLate (matches py celpy c e)
  unfolding matches
  matches-RaisesLate c e h = elim (Bool-cases (selects py celpy c e)) [
    | inl hit ↦ rw (hit, RaisesLate) (where_holds-RaisesLate c.when e h)
    | inr miss ↦ rw (miss, RaisesLate) tt
  ]

  match_loop-RaisesLate :
      (c : Criteria py celpy) (es : List (Event py celpy))
      → opt_text c.when ≡ true
      → RaisesLate (match_loop py celpy c es)
  unfolding match_loop
  match_loop-RaisesLate c [] h = tt
  match_loop-RaisesLate c (e ∷ es) h =
      bind-RaisesLate (matches py celpy c e) _ (matches-RaisesLate c e h) (λ b.
        bind-RaisesLate (match_loop py celpy c es) _ (match_loop-RaisesLate c es h) (λ out. tt))

  source_fits :
      (v : Value Float)
      → opt_in sources v ≡ true
      → (not (is_null py celpy v) && not (is_source py celpy v)) ≡ false
  source_fits null h = refl
  source_fits (str s) h = ground (
    arith,
    eq_iff s "proxy",
    eq_iff "proxy" s,
    eq_iff s "adapter",
    eq_iff "adapter" s,
    eq_iff s "runner",
    eq_iff "runner" s,
  )
  source_fits _ h = cc

  min_from-RaisesLate :
      (least : DateTime) (es : List (Event py celpy)) → RaisesLate (min_from py celpy least es)
  unfolding min_from
  min_from-RaisesLate least [] = tt
  min_from-RaisesLate least (e ∷ es) =
      bind-RaisesLate (of_one_kind e.timestamp least (ltb (instant e.timestamp) (instant least))) _
        (one_kind-RaisesLate e.timestamp least _)
        (λ b. min_from-RaisesLate (if b then e.timestamp else least) es)

  anchor_ts-RaisesLate :
      (a : Option (Event py celpy)) (es : List (Event py celpy))
      → RaisesLate (anchor_ts py celpy a es)
  unfolding attempt_start
  anchor_ts-RaisesLate (some a) es = tt
  anchor_ts-RaisesLate none [] = tt
  anchor_ts-RaisesLate none (e ∷ es) =
      bind-RaisesLate (min_from py celpy e.timestamp es) _ (min_from-RaisesLate e.timestamp es)
        (λ t. tt)

  within_window-RaisesLate :
      (t : Option DateTime) (ms : ℤ) (e : Event py celpy)
      → RaisesLate (within_window py celpy t ms e)
  unfolding within_window
  within_window-RaisesLate none ms e = tt
  within_window-RaisesLate (some t) ms e = one_kind-RaisesLate e.timestamp t _

  in_window-RaisesLate :
      (window : Option ℤ) (a : Option (Event py celpy)) (es out : List (Event py celpy))
      → RaisesLate (in_window py celpy window a es out)
  unfolding in_window
  in_window-RaisesLate none a es out = tt
  in_window-RaisesLate (some ms) a es out =
      bind-RaisesLate (anchor_ts py celpy a es) _ (anchor_ts-RaisesLate a es)
        (λ t. filter-RaisesLate _ out (within_window-RaisesLate t ms))

  sort_events-RaisesLate : (es : List (Event py celpy)) → RaisesLate (sort_events py celpy es)
  unfolding sort_events
  sort_events-RaisesLate es =
      bind-RaisesLate (check (all_one_kind es) clock_error) _ (clock-RaisesLate (all_one_kind es))
        (λ u. tt)

  pub match_events-RaisesLate :
      (m : Entries Float) (es : List (Event py celpy)) (a : Option (Event py celpy))
      (window : Option ℤ)
      → check_match m ≡ ok tt
      → RaisesLate (match_events py celpy m es a window)
  unfolding match_events check_match
  match_events-RaisesLate m es a window h =
      let (texts, from) =
        four_checks _ (opt_text (field m "tool")) (opt_text (field m "where"))
          (opt_in sources (field m "source")) bad_event bad_tool bad_where_problem bad_source h in
      let w : opt_text (get py celpy m "where") ≡ true = (unfold get field in texts) in
      let s : opt_in sources (get py celpy m "source") ≡ true = (unfold get field in from) in
      rw (source_fits (get py celpy m "source") s, RaisesLate)
        (bind-RaisesLate (match_loop py celpy (criteria py celpy m) es) _
          (match_loop-RaisesLate (criteria py celpy m) es w)
          (λ out.
            bind-RaisesLate (in_window py celpy window a es out) _
              (in_window-RaisesLate window a es out) sort_events-RaisesLate))

  -- The window of a node that was checked.
  pub window-RaisesLate :
      {B : Type 0} (v : Value Float) (f : Option ℤ → Result RuleError B)
      → opt_int v ≡ true
      → ((o : Option ℤ) → RaisesLate (f o))
      → RaisesLate (window_of py celpy v >>= f)
  window-RaisesLate null f h k = k none
  window-RaisesLate (int n) f h k = k (some n)
  window-RaisesLate (bool b) f h k = k _
  window-RaisesLate _ f h k = cc
