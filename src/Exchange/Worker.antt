-- ===== src/Exchange/Worker.antt =====
-- scripts/pipeline_worker.py: one claimed job, and the jobs that an inbox adds. The pipeline on some bytes,
-- `str(error)` and SHA-256 are arguments, as is what others do to the queue meanwhile.
pub mod Completion
pub mod Inbox
use sentinel_grc.Prelude.{
  ℕ, Bool, true, false, not, String, Option, none, some, List, [], ◌∷◌, if◌then◌else◌,
}
use sentinel_grc.Prelude.Attempt.{Attempt, failed, done}
use sentinel_grc.State
use sentinel_grc.State.{Answer, raised, returned}
use sentinel_grc.State.Jobs.{Db, Verdict, renew, complete, fail, enqueue}
use sentinel_grc.State.Ingestion.{PayloadRow, find_payload_by_evidence_id}
use sentinel_grc.Exchange.Publication.{
  Content, JsonFile, Read, got, nothing, raises, read_evidence_bytes, read_verified_evidence,
}

-- The outcome of `_validated_inbox_item` and `_read_claimed_payload`: bytes, an `OSError`, or a `ValueError`.
pub data Reading : Type 0 where
  payload : List ℕ → Reading
  storage_error : Reading
  refused : String → Reading

pub record Options : Type 0 where
  pub lease_seconds : ℕ
  pub max_attempts : ℕ
  pub retry_delay : ℕ

-- What happens around the calls of one job: their times, the flag `lease_lost` at its two tests, a
-- `sqlite3.Error` of the first renewal, and the changes of others to the queue.
pub record Circumstances : Type 0 where
  pub renew_error : Bool
  pub renewed_at : ℕ
  pub while_reading : Db → Db
  pub lost_reading : Bool
  pub while_running : Db → Db
  pub lost_running : Bool
  pub ended_at : ℕ

pub data Outcome : Type 0 where
  lost : Outcome
  error : Verdict → String → Outcome
  finished : String → Outcome
  crashed : State.Error → Outcome

abbrev pub of_read : String → Read → Reading
of_read message (got bytes) = payload bytes
of_read message nothing = refused message
of_read message raises = storage_error

abbrev pub read_managed : (List ℕ → String) → Content → Option PayloadRow → Reading
read_managed digest content none =
    of_read "inbox payload must be a regular readable file" (read_evidence_bytes content)
read_managed digest content (some row) =
    if row.is_committed
    then of_read "managed inbox payload failed committed hash verification"
        (read_verified_evidence digest content row.payload_hash)
    else refused "managed inbox payload is not committed"

-- `_read_claimed_payload`
unfoldable pub read_claimed_payload : (List ℕ → String) → JsonFile → List PayloadRow → Reading
read_claimed_payload digest file rows =
    read_managed digest file.content (find_payload_by_evidence_id file.stem rows)

-- The path of a job, or the error of `_validated_inbox_item`.
abbrev pub read_item : (List ℕ → String) → Attempt String JsonFile → List PayloadRow → Reading
read_item digest (failed message) rows = refused message
read_item digest (done file) rows = read_claimed_payload digest file rows

module _ (k : ℕ) (worker : String) (options : Options) (s : Circumstances)
    (message_of : State.Error → String) where
  abbrev pub with_verdict :
      String → Answer (Verdict × Db) → (State.Error → Outcome × Db) → Outcome × Db
  with_verdict message (raised e) otherwise = otherwise e
  with_verdict message (returned (v, db)) otherwise = (error v message, db)

  -- The outer `except Exception`
  abbrev pub fail_outer : String → Db → Outcome × Db
  fail_outer message db =
      with_verdict message
        (fail k worker message options.max_attempts options.retry_delay s.ended_at db)
        (λ e. (crashed e, db))

  -- The handlers of the read, whose own raise the outer one catches.
  abbrev pub fail_inner : String → ℕ → ℕ → Db → Outcome × Db
  fail_inner message max_attempts delay db =
      with_verdict message (fail k worker message max_attempts delay s.ended_at db)
        (λ e. fail_outer (message_of e) db)

  abbrev pub after_complete : String → Db → Answer (Bool × Db) → Outcome × Db
  after_complete status db (raised e) = fail_outer (message_of e) db
  after_complete status db (returned (ours, longer)) =
      (if ours then finished status else lost, longer)

  abbrev pub after_run : Attempt String String → Db → Outcome × Db
  after_run (failed message) db = fail_outer message db
  after_run (done status) db =
      if s.lost_running
      then (lost, db)
      else after_complete status db (complete k worker s.ended_at db)

  abbrev pub after_reading : (List ℕ → Attempt String String) → Reading → Db → Outcome × Db
  after_reading run (payload bytes) db =
      if s.lost_reading then (lost, db) else after_run (run bytes) (s.while_running db)
  after_reading run storage_error db =
      fail_inner "evidence storage is temporarily unavailable" options.max_attempts
        options.retry_delay db
  after_reading run (refused message) db = fail_inner message 1 0 db

  abbrev pub after_renewal :
      (List ℕ → Attempt String String) → Reading → Db → Answer (Bool × Db) → Outcome × Db
  after_renewal run reading db (raised e) = (crashed e, db)
  after_renewal run reading db (returned (ours, renewed)) =
      if ours then after_reading run reading (s.while_reading renewed) else (lost, renewed)

  -- `_process_claimed_job`
  unfoldable pub process_claimed_job :
      (List ℕ → Attempt String String) → Reading → Db → Outcome × Db
  process_claimed_job run reading db =
      if s.renew_error
      then (lost, db)
      else after_renewal run reading db (renew k worker options.lease_seconds s.renewed_at db)

abbrev pub is_processable : Option PayloadRow → Bool
is_processable none = true
is_processable (some row) = row.is_committed

-- The loop of `process_inbox_once` over the files of the inbox, each with its path.
unfoldable pub enqueue_inbox : List PayloadRow → ℕ → List (String × String) → Db → Db
enqueue_inbox rows now [] db = db
enqueue_inbox rows now ((stem, path) ∷ rest) db =
    enqueue_inbox rows now rest (
      if is_processable (find_payload_by_evidence_id stem rows)
      then (enqueue path now db).1
      else db)
