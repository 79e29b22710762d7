-- ===== src/TraceRules/Causality.antt =====
-- Causal precedence in trace_rules.py: the ancestor search against chains of parents, and the
-- order that it makes.
use traceline.Common.{
  ap, ok, err, ◌≢◌, ◌<◌, ℕ, zero, suc, ◌≤◌, ◌≡◌, ◌↔◌, ◌⊎◌, inl, inr, refl, Result, Bool, check,
  ◌>>=◌, if◌then◌else◌, String, true, false, Option, none, some, List, str_eq, eq_iff, arith,
  Bool-cases,
}
use traceline.Common.Int.{ℤ, pos, negsuc, ltb_ℤ}
use traceline.Values.{DateTime, naive, aware}
use traceline.Events.{TraceEvent}
use traceline.TraceRules.Errors.{RuleError, clock_error}
use traceline.TraceRules.Order.{
  instant, one_kind, key_before, count_ids, parent_of, ancestor_loop, is_ancestor, key_lt, precedes,
  follows,
}

same_sequence : (m n : ℤ) → ltb_ℤ m n ≡ false → ltb_ℤ n m ≡ false → m ≡ n
same_sequence (pos m) (pos n) h k = ap pos (ground arith)
same_sequence (negsuc m) (negsuc n) h k = ap negsuc (ground arith)
same_sequence (pos m) (negsuc n) h k = absurd (ground arith)
same_sequence (negsuc m) (pos n) h k = absurd (ground arith)

same_timestamp : (s t : DateTime) → one_kind s t ≡ true → instant s ≡ instant t → s ≡ t
unfolding one_kind
same_timestamp (naive m) (naive n) h e = ap naive e
same_timestamp (aware m) (aware n) h e = ap aware e
same_timestamp (naive m) (aware n) h e = cc
same_timestamp (aware m) (naive n) h e = cc

one_kind_sym : (s t : DateTime) → one_kind s t ≡ true → one_kind t s ≡ true
unfolding one_kind
one_kind_sym (naive m) (naive n) h = refl
one_kind_sym (aware m) (aware n) h = refl
one_kind_sym (naive m) (aware n) h = cc
one_kind_sym (aware m) (naive n) h = cc

map_last : {P Q R X Y : Type 0} → (X → Y) → P ⊎ (Q × R × X) → P ⊎ (Q × R × Y)
map_last f (inl p) = inl p
map_last f (inr (q, r, x)) = inr (q, r, f x)

-- Precedence by the two questions of ancestry, the kinds of the timestamps and the keys.
abbrev ordered : Bool → Bool → Bool → Bool → Result RuleError Bool
ordered p q k x = if p then ok true else if q then ok false else (check k clock_error >>= λ _. ok x)

ordered_iff :
    (p q k x : Bool)
    → (ordered p q k x ≡ ok true) ↔ ((p ≡ true) ⊎ ((q ≡ false) × (k ≡ true) × (x ≡ true)))
ordered_iff true q k x = (λ h. inl refl, λ h. refl)
ordered_iff false true k x = (λ h. cc, λ h. ground arith)
ordered_iff false false true x = (λ h. ground arith, λ h. ground arith)
ordered_iff false false false x = (λ h. cc, λ h. ground arith)

ordered_raises :
    (p q k x : Bool)
    → (ordered p q k x ≡ err clock_error) ↔ ((p ≡ false) × (q ≡ false) × (k ≡ false))
ordered_raises true q k x = (λ h. cc, λ h. cc)
ordered_raises false true k x = (λ h. cc, λ h. cc)
ordered_raises false false true x = (λ h. cc, λ h. cc)
ordered_raises false false false x = (λ h. (refl, refl, refl), λ h. refl)

ordered_asym :
    (p q k l x y : Bool)
    → (p ≡ false) ⊎ (q ≡ false)
    → (x ≡ true → y ≡ false)
    → (ordered p q k x ≢ ok true) ⊎ (ordered q p l y ≢ ok true)
ordered_asym true true k l x y h asym = absurd (ground arith)
ordered_asym true false k l x y h asym = inr (λ e. cc)
ordered_asym false true k l x y h asym = inl (λ e. cc)
ordered_asym false false false l x y h asym = inl (λ e. cc)
ordered_asym false false true l false y h asym = inl (λ e. cc)
ordered_asym false false true false true y h asym = inr (λ e. cc)
ordered_asym false false true true true y h asym = rw (asym refl) (inr (λ e. cc))

ordered_total :
    {S : Type 0} (p q k l x y : Bool)
    → (k ≡ true → l ≡ true)
    → (k ≡ true → (x ≡ true) ⊎ (y ≡ true) ⊎ S)
    → (ordered p q k x ≡ ok true)
      ⊎ (ordered q p l y ≡ ok true)
      ⊎ S
      ⊎ (ordered p q k x ≡ err clock_error)
ordered_total true q k l x y sym total = inl refl
ordered_total false true k l x y sym total = inr (inl refl)
ordered_total false false false l x y sym total = inr (inr (inr refl))
ordered_total {S} false false true l x y sym total = rw (sym refl) (by_key (total refl))
  where
    by_key :
        (x ≡ true) ⊎ (y ≡ true) ⊎ S
        → (ordered false false true x ≡ ok true)
          ⊎ (ordered false false true y ≡ ok true)
          ⊎ S
          ⊎ (ordered false false true x ≡ err clock_error)
    by_key (inl h) = inl (ap ok h)
    by_key (inr (inl h)) = inr (inl (ap ok h))
    by_key (inr (inr s)) = inr (inr (inl s))

module _ {F : Type 0} where
  -- `Chain es id n o`: from `o`, following n parents by their ids leads to an event with that id.
  pub data Chain (es : List (TraceEvent F)) (id : String) : ℕ → Option (TraceEvent F) → Type 0 where
    here : {e : TraceEvent F} → e.event_id ≡ id → Chain es id zero (some e)
    up : {e : TraceEvent F} {n : ℕ} → Chain es id n (parent_of es e) → Chain es id (suc n) (some e)

  loop_sound :
      (left : ℕ) (es : List (TraceEvent F)) (id : String) (o : Option (TraceEvent F))
      → ancestor_loop left es id o ≡ true
      → (n : ℕ) × (n ≤ left) × Chain es id n o
  unfolding ancestor_loop
  loop_sound left es id none h = cc
  loop_sound zero es id (some e) h = (zero, omega arith, here ((eq_iff e.event_id id).0 h))
  loop_sound (suc left) es id (some e) h = elim (Bool-cases (str_eq e.event_id id)) [
    | inl same ↦ (zero, omega arith, here ((eq_iff e.event_id id).0 same))
    | inr other ↦
        let (n, le, c) = loop_sound left es id (parent_of es e) (rw other at h) in
        (suc n, omega arith, up c)
  ]

  loop_complete :
      (left n : ℕ) (es : List (TraceEvent F)) (id : String) {o : Option (TraceEvent F)}
      → Chain es id n o
      → n ≤ left
      → ancestor_loop left es id o ≡ true
  unfolding ancestor_loop
  loop_complete zero n es id (here {e} same) le = (eq_iff e.event_id id).1 same
  loop_complete zero (suc n) es id (up c) le = absurd (omega arith)
  loop_complete (suc left) n es id (here {e} same) le = rw ((eq_iff e.event_id id).1 same)
  loop_complete (suc left) (suc n) es id (up {e} c) le =
      ground (arith, loop_complete left n es id c (omega arith))

  -- An event is found as an ancestor exactly if following the parents of the other, one at least and
  -- at most one more than there are event ids, leads to its id; a cycle of parents ends the search.
  pub is_ancestor_iff :
      (es : List (TraceEvent F)) (a d : TraceEvent F)
      → (is_ancestor es a d ≡ true)
        ↔ ((n : ℕ) × (n ≤ count_ids es) × Chain es a.event_id n (parent_of es d))
  unfolding is_ancestor
  is_ancestor_iff es a d = (
    loop_sound (count_ids es) es a.event_id (parent_of es d),
    λ (n, le, c). loop_complete (count_ids es) n es a.event_id c le,
  )

  -- The keys by which neither of two events is earlier.
  abbrev pub SameKey : TraceEvent F → TraceEvent F → Type 0
  SameKey a b = (a.timestamp ≡ b.timestamp) × (a.sequence ≡ b.sequence)

  -- Earlier by timestamp, and at the same timestamp by sequence.
  abbrev pub Earlier : TraceEvent F → TraceEvent F → Type 0
  Earlier a b =
      (instant a.timestamp < instant b.timestamp)
      ⊎ ((instant a.timestamp ≡ instant b.timestamp) × (ltb_ℤ a.sequence b.sequence ≡ true))

  pub key_before-asym : (a b : TraceEvent F) → key_before a b ≡ true → key_before b a ≡ false
  unfolding key_before
  key_before-asym a b h = ground arith

  pub key_before-weak_trans :
      (a b c : TraceEvent F)
      → key_before b a ≡ false
      → key_before c b ≡ false
      → key_before c a ≡ false
  unfolding key_before
  key_before-weak_trans a b c h k = ground arith

  key_before_iff : (a b : TraceEvent F) → (key_before a b ≡ true) ↔ Earlier a b
  unfolding key_before
  key_before_iff a b = (λ h. ground arith, λ h. ground arith)

  key_before_total :
      (a b : TraceEvent F)
      → one_kind a.timestamp b.timestamp ≡ true
      → (key_before a b ≡ true) ⊎ (key_before b a ≡ true) ⊎ SameKey a b
  unfolding key_before
  key_before_total a b h =
      ground (arith, same_timestamp a.timestamp b.timestamp h, same_sequence a.sequence b.sequence)

  -- Unless two events are ancestors of one another: an event precedes another exactly if it is its
  -- ancestor or, where neither is, their timestamps are of one kind and its own is earlier, or the
  -- same and its sequence smaller; the question raises TypeError exactly where neither is an ancestor
  -- and one timestamp is naive, the other aware; two events never precede each other both ways; unless
  -- it raises, one precedes the other or both timestamp and sequence are equal; and to follow is to be
  -- preceded.
  pub precedes_order :
      (es : List (TraceEvent F)) (a b : TraceEvent F)
      → (is_ancestor es a b ≡ false) ⊎ (is_ancestor es b a ≡ false)
      → ((precedes es a b ≡ ok true) ↔ (
          (is_ancestor es a b ≡ true)
          ⊎ ((is_ancestor es b a ≡ false)
              × (one_kind a.timestamp b.timestamp ≡ true)
              × Earlier a b)))
        × ((precedes es a b ≡ err clock_error) ↔ (
            (is_ancestor es a b ≡ false)
            × (is_ancestor es b a ≡ false)
            × (one_kind a.timestamp b.timestamp ≡ false)))
        × ((precedes es a b ≢ ok true) ⊎ (precedes es b a ≢ ok true))
        × ((precedes es a b ≡ ok true)
            ⊎ (precedes es b a ≡ ok true)
            ⊎ SameKey a b
            ⊎ (precedes es a b ≡ err clock_error))
        × (follows es a b ≡ precedes es b a)
  unfolding precedes follows key_lt
  precedes_order es a b h =
      let p = is_ancestor es a b in
      let q = is_ancestor es b a in
      let k = one_kind a.timestamp b.timestamp in
      let l = one_kind b.timestamp a.timestamp in
      let x = key_before a b in
      let y = key_before b a in
      let earlier = key_before_iff a b in
      (
        (
          λ e. map_last earlier.0 ((ordered_iff p q k x).0 e),
          λ e. (ordered_iff p q k x).1 (map_last earlier.1 e),
        ),
        ordered_raises p q k x,
        ordered_asym p q k l x y h (key_before-asym a b),
        ordered_total p q k l x y (one_kind_sym a.timestamp b.timestamp) (key_before_total a b),
        refl,
      )
