-- ===== src/Jobs/Table.antt =====
-- The tables `jobs` and `job_outbox`, and the statements that the methods of JobQueue run on them.
-- The JSON columns are kept as the texts stored. Times are ISO 8601 texts, compared as texts, as the
-- queries do.
use traceline.Common.{
  ℕ, String, Bool, true, false, ◌&&◌, ◌||◌, not, Option, none, some, List, [], ◌∷◌, str_eq, str_lt,
  if◌then◌else◌,
}

pub data JobStatus : Type 0 where
  queued leased completed failed cancelled : JobStatus

-- The text of the column.
unfoldable pub status_text : JobStatus → String
status_text queued = "queued"
status_text leased = "leased"
status_text completed = "completed"
status_text failed = "failed"
status_text cancelled = "cancelled"

abbrev pub is_queued : JobStatus → Bool
is_queued queued = true
is_queued _ = false

abbrev pub is_leased : JobStatus → Bool
is_leased leased = true
is_leased _ = false

abbrev pub is_completed : JobStatus → Bool
is_completed completed = true
is_completed _ = false

-- status in {"completed", "failed", "cancelled"}
abbrev pub is_terminal : JobStatus → Bool
is_terminal queued = false
is_terminal leased = false
is_terminal _ = true

pub record Job : Type 0 where
  pub workspace_id : String
  pub job_id : String
  pub command_json : String
  pub command_digest : String
  pub idempotency_key : String
  pub status : JobStatus
  pub attempts : ℕ
  pub max_attempts : ℕ
  pub fence : ℕ
  pub lease_worker_id : Option String
  pub lease_expires_at : Option String
  pub cancellation_requested : Bool
  pub result_json : Option String
  pub error_json : Option String
  pub command_redaction_json : String
  pub result_redaction_json : Option String
  pub created_at : String
  pub updated_at : String

pub record OutboxEvent : Type 0 where
  pub workspace_id : String
  pub event_id : String
  pub job_id : String
  pub event_type : String
  pub payload_json : String
  pub created_at : String
  pub published_at : Option String

-- The database, with how many identifiers were drawn.
pub record Store : Type 0 where
  pub jobs : List Job
  pub outbox : List OutboxEvent
  pub drawn : ℕ

-- WHERE workspace_id=? AND job_id=?
abbrev pub is_job : String → String → Job → Bool
is_job ws id j = str_eq j.workspace_id ws && str_eq j.job_id id

-- An order with a column that may be NULL is no match.
abbrev pub at_most : Option String → String → Bool
at_most none now = false
at_most (some t) now = not (str_lt now t)

abbrev pub later_than : Option String → String → Bool
later_than none now = false
later_than (some t) now = str_lt now t

module _ {A : Type 0} where
  -- UPDATE ... SET ... WHERE ...
  unfoldable pub update_where : (A → Bool) → (A → A) → List A → List A
  update_where p f [] = []
  update_where p f (j ∷ js) = (if p j then f j else j) ∷ update_where p f js

  -- SELECT ... fetchone()
  unfoldable pub find_row : (A → Bool) → List A → Option A
  find_row p [] = none
  find_row p (j ∷ js) = let rest = find_row p js in if p j then some j else rest

-- ORDER BY created_at,job_id
abbrev pub before : Job → Job → Bool
before a b =
    str_lt a.created_at b.created_at || str_eq a.created_at b.created_at && str_lt a.job_id b.job_id

abbrev pub first_of : Job → Option Job → Option Job
first_of j none = some j
first_of j (some k) = if before k j then some k else some j

-- ... ORDER BY created_at,job_id LIMIT 1
unfoldable pub oldest : (Job → Bool) → List Job → Option Job
oldest p [] = none
oldest p (j ∷ js) = let rest = oldest p js in if p j then first_of j rest else rest
