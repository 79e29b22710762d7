-- ===== src/TraceRules/Reports.antt =====
-- Predicates on the ids that a result of trace_rules.py reports, through the functions that join results.
use Prim.Native.String.{String}
use traceline.Common.{
  Bool, true, false, List, [], ◌∷◌, elem_str, filter, All, All-append, All-filter, Bool-cases, inl,
  inr, if◌then◌else◌,
}
use traceline.TraceRules.Rules.{
  RuleResult, dedupe_from, dedupe, ids_of, both, failed, combine, negate, imply,
}

module _ (Q : String → Type 0) where
  -- Both lists of a result hold only ids with `Q`.
  abbrev pub Reports : RuleResult → Type 0
  Reports r = All Q r.matched × All Q r.failing

  pub All-dedupe : (seen l : List String) → All Q l → All Q (dedupe_from seen l)
  unfolding dedupe_from
  All-dedupe seen [] h = tt
  All-dedupe seen (i ∷ l) h = elim (Bool-cases (elem_str i seen)) [
    | inl old ↦ rw (old, All) (All-dedupe seen l h.1)
    | inr new ↦ rw (new, All) (h.0, All-dedupe (i ∷ seen) l h.1)
  ]

  All-both : (r : RuleResult) → Reports r → All Q (both r)
  All-both r h = All-append Q r.matched r.failing h.0 h.1

  All-matched : (rs : List RuleResult) → All Reports rs → All Q (ids_of (λ r. r.matched) rs)
  All-matched [] h = tt
  All-matched (r ∷ rs) h = All-append Q r.matched _ h.0.0 (All-matched rs h.1)

  All-ids_of-both : (rs : List RuleResult) → All Reports rs → All Q (ids_of both rs)
  All-ids_of-both [] h = tt
  All-ids_of-both (r ∷ rs) h = All-append Q (both r) _ (All-both r h.0) (All-ids_of-both rs h.1)

  pub All-if : (b : Bool) (l : List String) → All Q l → All Q (if b then [] else l)
  All-if true l h = tt
  All-if false l h = h

  pub failing_parts :
      (b : Bool) (rs : List RuleResult)
      → All Reports rs
      → All Q (if b then [] else dedupe (ids_of both (filter failed rs)))
  failing_parts b rs h = All-if b _ (
      unfold dedupe in
      All-dedupe [] _ (All-ids_of-both (filter failed rs) (All-filter Reports failed rs h)))

  pub combine-Reports :
      (is_and : Bool) (rs : List RuleResult) → All Reports rs → Reports (combine is_and rs)
  unfolding combine
  combine-Reports is_and rs h =
      (unfold dedupe in All-dedupe [] _ (All-matched rs h), failing_parts _ rs h)

  pub negate-Reports : (r : RuleResult) → Reports r → Reports (negate r)
  unfolding negate
  negate-Reports r h = (h.0, All-if r.result _ (All-dedupe [] _ (All-both r h)))

  pub imply-Reports : (a b : RuleResult) → Reports a → Reports b → Reports (imply a b)
  unfolding imply
  imply-Reports a b h k = (
    All-dedupe [] _ (All-append Q a.matched b.matched h.0 k.0),
    All-if _ _ (All-dedupe [] _ (All-append Q (both a) (both b) (All-both a h) (All-both b k))),
  )
