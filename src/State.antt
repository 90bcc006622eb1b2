-- ===== src/State.antt =====
-- state_store.py: `SQLiteStateStore`, and job_queue.py: `SQLiteJobQueue`. A raise leaves the tables as
-- they are, since its connection closes with no commit.
pub mod Imports
pub mod Jobs
pub mod Ingestion
pub mod Tests

-- The exceptions of both modules.
pub data Error : Type 0 where
  missing_field bad_severity bad_evidence_hash integrity unknown_event : Error
  bad_worker bad_policy unknown_job identity_mismatch : Error

pub data Answer {ℓ} (T : Type ℓ) : Type ℓ where
  raised : Error → Answer T
  returned : T → Answer T

-- The next statement, unless this one raises.
abbrev pub after {ℓ κ} : {S : Type ℓ} {T : Type κ} → Answer S → (S → Answer T) → Answer T
after (raised e) next_ = raised e
after (returned s) next_ = next_ s
