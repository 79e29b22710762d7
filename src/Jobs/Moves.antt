-- ===== src/Jobs/Moves.antt =====
-- How one call of jobs.py may change the rows of the table: the state machine of a job, and the
-- proof that every call keeps to it.
use traceline.Common.{
  ◌≡◌, ◌⊎◌, inl, inr, String, Bool, true, false, none, List, [], ◌∷◌, ◌++◌, any, All, Bool-cases,
  if◌then◌else◌, leb,
}
use traceline.Values.{Value}
use traceline.Jobs.Table.{queued, is_leased, is_terminal, Job, is_job, update_where}
use traceline.Jobs.Queue.{World, next_status, expired, is_claimable, lease_to}
use traceline.Jobs.Lease.{cancelled_at, expires_at, completed_with, failed_with, cancelling}

-- No two rows have the same workspace and id.
abbrev pub IsKeyed : List Job → Type 0
IsKeyed [] = Unit
IsKeyed (j ∷ js) = All (λ k. is_job j.workspace_id j.job_id k ≡ false) js × IsKeyed js

module _ {A : Type 0} where
  -- Row by row, related by R.
  abbrev pub Kept : (A → A → Type 0) → List A → List A → Type 0
  Kept R [] [] = Unit
  Kept R (j ∷ js) (k ∷ ks) = R j k × Kept R js ks
  Kept R _ _ = ⊥

  pub Kept-refl : (R : A → A → Type 0) → ((j : A) → R j j) → (js : List A) → Kept R js js
  Kept-refl R h [] = tt
  Kept-refl R h (j ∷ js) = (h j, Kept-refl R h js)

  pub Kept-trans :
      (R : A → A → Type 0)
      → ((j k l : A) → R j k → R k l → R j l)
      → (js ks ls : List A) → Kept R js ks
      → Kept R ks ls
      → Kept R js ls
  Kept-trans R h [] [] [] p q = tt
  Kept-trans R h (j ∷ js) (k ∷ ks) (l ∷ ls) p q = (h j k l p.0 q.0, Kept-trans R h js ks ls p.1 q.1)
  Kept-trans R h [] (k ∷ ks) ls p q = absurd p
  Kept-trans R h (j ∷ js) [] ls p q = absurd p
  Kept-trans R h [] [] (l ∷ ls) p q = absurd q
  Kept-trans R h (j ∷ js) (k ∷ ks) [] p q = absurd q

  pub update_where-Kept :
      (R : A → A → Type 0) (Q : A → Type 0) (p : A → Bool) (f : A → A)
      → ((j : A) → R j j)
      → ((j : A) → Q j → p j ≡ true → R j (f j))
      → (js : List A) → All Q js
      → Kept R js (update_where p f js)
  unfolding update_where
  update_where-Kept R Q p f same changed [] h = tt
  update_where-Kept R Q p f same changed (j ∷ js) h =
      (one, update_where-Kept R Q p f same changed js h.1)
    where
      one : R j (if p j then f j else j)
      one = elim (Bool-cases (p j)) [ inl e ↦ rw e (changed j h.0 e) | inr e ↦ rw e (same j) ]

  pub update_where-All :
      (Q : A → Type 0) (p : A → Bool) (f : A → A)
      → ((j : A) → Q j → p j ≡ true → Q (f j))
      → (js : List A) → All Q js
      → All Q (update_where p f js)
  unfolding update_where
  update_where-All Q p f changed [] h = tt
  update_where-All Q p f changed (j ∷ js) h = (one, update_where-All Q p f changed js h.1)
    where
      one : Q (if p j then f j else j)
      one = elim (Bool-cases (p j)) [ inl e ↦ rw e (changed j h.0 e) | inr e ↦ rw e h.0 ]

  pub All-unit : (js : List A) → All (λ (j : A). Unit {0}) js
  All-unit [] = tt
  All-unit (j ∷ js) = (tt, All-unit js)

module _ (w : World) where
  open w use {Float}

  -- The changes of a row.
  pub data RowStep : Job → Job → Type 0 where
    leasing :
        {j : Job} (worker now : String)
        → is_claimable w j ≡ true
        → RowStep j (lease_to w worker now j)
    expiring :
        {j : Job} (now : String)
        → is_leased j.status ≡ true
        → RowStep j (expired w (next_status w j) now j)
    dropping :
        {j : Job} (now : String)
        → is_leased j.status ≡ true
        → j.cancellation_requested ≡ true
        → RowStep j (cancelled_at w now j)
    extending :
        {j : Job} (t now : String) → is_leased j.status ≡ true → RowStep j (expires_at w t now j)
    completing :
        {j : Job} (result : Value Float) (now : String)
        → is_leased j.status ≡ true
        → j.cancellation_requested ≡ false
        → RowStep j (completed_with w result now j)
    failing :
        {j : Job} (error : Value Float) (now : String)
        → is_leased j.status ≡ true
        → j.cancellation_requested ≡ false
        → RowStep j (failed_with w error now j)
    requesting :
        {j : Job} (now : String)
        → is_terminal j.status ≡ false
        → RowStep j (cancelling w j.status now j)

  pub data RowRun : Job → Job → Type 0 where
    rest : {j : Job} → RowRun j j
    then_step : {j k l : Job} → RowRun j k → RowStep k l → RowRun j l

  pub one_step : {j k : Job} → RowStep j k → RowRun j k
  one_step s = then_step rest s

  pub RowRun-trans : (j k l : Job) → RowRun j k → RowRun k l → RowRun j l
  RowRun-trans j k l p rest = p
  RowRun-trans j k l p (then_step {k = m} q s) = then_step (RowRun-trans j k m p q) s

  -- A new row: queued, with no attempt, no lease and no request, and an id that no row has.
  abbrev pub IsNew : List Job → Job → Type 0
  IsNew js j =
      (any (is_job j.workspace_id j.job_id) js ≡ false)
      × (j.status ≡ queued)
      × (j.fence ≡ 0)
      × (j.attempts ≡ 0)
      × (leb 1 j.max_attempts ≡ true)
      × (j.lease_worker_id ≡ none)
      × (j.lease_expires_at ≡ none)
      × (j.cancellation_requested ≡ false)

  -- Every row goes along the state machine, or one row is added.
  abbrev pub Moves : List Job → List Job → Type 0
  Moves js ks = Kept RowRun js ks ⊎ ((j : Job) × (ks ≡ js ++ (j ∷ [])) × IsNew js j)
