-- ===== src/Jobs.antt =====
-- jobs.py (src/llm_agent_eval/jobs.py): the durable job queue with leases, fences and a transactional
-- outbox, over the tables of migrations/0002_jobs_secrets.sql. `Table` holds the rows and the
-- statements on them, `Queue` the methods of JobQueue, each one transaction; `Calls` runs one of
-- them on a store; the proofs stand below them.
pub mod Table
pub mod Queue
pub mod Lease
pub mod Calls
pub mod Moves
pub mod Expiry
pub mod Refines
pub mod Evolution
pub mod Fencing
pub mod Outcomes
pub mod Publication
mod Tests
