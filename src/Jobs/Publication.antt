-- ===== src/Jobs/Publication.antt =====
-- The checks of `assert_active` and `publication` of jobs.py.
use traceline.Common.{
  ◌≡◌, ◌↔◌, inl, inr, refl, ap, subst, ◌∙◌, String, true, false, Option, none, some, Result, ok,
  >>=-eq-ok, arith, Bool-cases, ==_iff,
}
use traceline.Jobs.Table.{Job, Store, is_job, is_leased, later_than, find_row}
use traceline.Jobs.Queue.{JobError, Actor, authorize}
use traceline.Jobs.Lease.{
  opt_str_eq, not_this_lease, checked_time, checked_lease, assert_active, recheck, publication,
}

-- The row carries the lease, at a time before its end, and no cancellation was asked for.
abbrev pub IsLive : Job → String → Job → Type 0
IsLive lease now c =
    (is_leased c.status ≡ true)
    × (c.fence ≡ lease.fence)
    × (opt_str_eq c.lease_worker_id lease.lease_worker_id ≡ true)
    × (later_than c.lease_expires_at now ≡ true)
    × (c.cancellation_requested ≡ false)

checked_time_iff :
    (o : Option String) (c d : Job) (now : String)
    → (checked_time o c now ≡ ok d)
      ↔ ((c ≡ d) × (later_than o now ≡ true) × (c.cancellation_requested ≡ false))
checked_time_iff none c d now = (λ h. cc, λ h. cc)
checked_time_iff (some t) c d now = (λ h. ground arith, λ h. ground arith)

checked_lease_iff :
    (o : Option Job) (lease d : Job) (now : String)
    → (checked_lease o lease now ≡ ok d) ↔ ((o ≡ some d) × IsLive lease now d)
checked_lease_iff none lease d now = (λ h. cc, λ h. cc)
checked_lease_iff (some c) lease d now = (into, out)
  where
    into : checked_lease (some c) lease now ≡ ok d → (some c ≡ some d) × IsLive lease now d
    into h = elim (Bool-cases (not_this_lease c lease)) [
      | inl other ↦ cc (rw other at h)
      | inr same ↦
          let (e, live, going) = (checked_time_iff c.lease_expires_at c d now).0 (rw same at h) in
          (
            rw e refl,
            rw (← e) (
              ground arith,
              ground (arith, ==_iff c.fence lease.fence),
              ground arith,
              live,
              going,
            ),
          )
    ]

    out : (some c ≡ some d) × IsLive lease now d → checked_lease (some c) lease now ≡ ok d
    out (e, (l, f, w, live, going)) =
        let e1 : c ≡ d = (cc e) in
        let same : not_this_lease d lease ≡ false = (ground (arith, ==_iff d.fence lease.fence)) in
        rw (e1, same) ((checked_time_iff d.lease_expires_at d d now).1 (refl, live, going))

-- For an actor who may write, `assert_active` succeeds exactly if the job's row carries the very
-- lease, unexpired and with no cancellation asked for, and it returns that row.
pub assert_active_iff :
    (a : Actor) (now : String) (lease c : Job) (s : Store)
    → authorize a true ≡ ok tt
    → (assert_active a now lease s ≡ ok c)
      ↔ ((find_row (is_job a.workspace_id lease.job_id) s.jobs ≡ some c) × IsLive lease now c)
unfolding assert_active
assert_active_iff a now lease c s allowed =
    rw allowed
      (checked_lease_iff (find_row (is_job a.workspace_id lease.job_id) s.jobs) lease c now)

-- A publication that is not the completion commits only what its block wrote, and only if the
-- lease was live on the row before the block and is live, at the later time, on the row behind it.
pub publication-IsLive :
    (a : Actor) (now later : String) (lease : Job) (block : Store → Result JobError Store)
    (s t : Store)
    → authorize a true ≡ ok tt
    → publication a now later lease false block s ≡ ok t
    → (block s ≡ ok t)
      × ((c : Job) × (find_row (is_job a.workspace_id lease.job_id) s.jobs ≡ some c)
          × IsLive lease now c)
      × ((c : Job) × (find_row (is_job a.workspace_id lease.job_id) t.jobs ≡ some c)
          × IsLive lease later c)
unfolding publication
publication-IsLive a now later lease block s t allowed h =
    let (c, before, h1) = >>=-eq-ok (assert_active a now lease s) _ h in
    let (u, wrote, h2) = >>=-eq-ok (block s) _ h1 in
    let (v, checked, h3) = >>=-eq-ok (recheck a later lease false u) _ h2 in
    let (d, after, h4) = >>=-eq-ok (assert_active a later lease u) _ checked in
    let same : u ≡ t = (cc h3) in
    let (found, live) = (assert_active_iff a now lease c s allowed).0 before in
    let (refound, alive) = (assert_active_iff a later lease d u allowed).0 after in
    (
      wrote ∙ ap ok same,
      (c, found, live),
      (
        d,
        subst (λ x. find_row (is_job a.workspace_id lease.job_id) x.jobs ≡ some d) same refound,
        alive,
      ),
    )
