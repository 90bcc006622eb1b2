-- ===== src/State/Ingestion.antt =====
-- state_store.py: nonces against replay, accepted payloads, and runs of the pipeline. Times and
-- durations are naturals.
pub mod Once
pub mod Payloads
pub mod Runs
use sentinel_grc.Prelude.{
  ℕ, ◌+◌, Bool, true, false, ◌&&◌, ◌||◌, not, String, Option, none, some, List, [], ◌∷◌, ◌++◌,
  if◌then◌else◌, ◌==◌, string_eq, leb, nat_beq, any, find, update, count, select, length,
}
use sentinel_grc.Prelude.Text
use sentinel_grc.State.{Answer, raised, returned, identity_mismatch}

-- `replay_nonces`
pub record Nonce : Type 0 where
  pub nonce : String
  pub expires_at : ℕ

abbrev pub is_nonce : String → Nonce → Bool
is_nonce n row = row.nonce == n

abbrev pub is_alive : ℕ → Nonce → Bool
is_alive now row = not (leb row.expires_at now)

-- `reserve_nonce`; a refusal takes the deletion of expired rows back, since nothing is committed.
unfoldable pub reserve_nonce : String → ℕ → ℕ → List Nonce → Bool × List Nonce
reserve_nonce n ttl now rows =
    let alive = select (is_alive now) rows in
    if any (is_nonce n) alive
    then (false, rows)
    else (true, alive ++ record { nonce = n; expires_at = now + ttl } ∷ [])

-- `accepted_payloads`; its status is "committed" or "pending".
pub record PayloadRow : Type 0 where
  pub payload_hash : String
  pub evidence_id : String
  pub accepted_at : ℕ
  pub is_committed : Bool

abbrev pub is_payload : String → PayloadRow → Bool
is_payload h row = row.payload_hash == h

abbrev pub has_evidence : String → PayloadRow → Bool
has_evidence e row = row.evidence_id == e

-- `get_evidence_id`
unfoldable pub get_evidence_id : String → List PayloadRow → Option String
get_evidence_id h rows = elim (find (λ row. is_payload h row && row.is_committed) rows) [
  | none ↦ none
  | some row ↦ some row.evidence_id
]

-- INSERT OR IGNORE, and whether it inserted.
abbrev pub inserted : PayloadRow → List PayloadRow → Bool × List PayloadRow
inserted row rows =
    if any (is_payload row.payload_hash) rows then (false, rows) else (true, rows ++ row ∷ [])

-- The check of `begin_payload` on the row that is there after the insertion.
abbrev pub identified :
    String → Option PayloadRow → Bool × List PayloadRow → Answer (Bool × List PayloadRow)
identified e none r = raised identity_mismatch
identified e (some row) r = if has_evidence e row then returned r else raised identity_mismatch

-- `begin_payload`
unfoldable pub begin_payload :
    String → String → ℕ → List PayloadRow → Answer (Bool × List PayloadRow)
begin_payload h e now rows =
    let r =
      inserted
        (record { payload_hash = h; evidence_id = e; accepted_at = now; is_committed = false })
        rows in
    identified e (find (is_payload h) r.1) r

abbrev pub is_reserved : String → String → PayloadRow → Bool
is_reserved h e row = is_payload h row && has_evidence e row

-- `commit_payload`
unfoldable pub commit_payload : String → String → List PayloadRow → Bool × List PayloadRow
commit_payload h e rows = (
  nat_beq (count (is_reserved h e) rows) 1,
  update (is_reserved h e) (λ row. record row { is_committed = true }) rows,
)

-- `is_evidence_committed`
unfoldable pub is_evidence_committed : String → List PayloadRow → Bool
is_evidence_committed e rows = any (λ row. has_evidence e row && row.is_committed) rows

-- `find_payload_by_evidence_id`
unfoldable pub find_payload_by_evidence_id : String → List PayloadRow → Option PayloadRow
find_payload_by_evidence_id e rows = find (has_evidence e) rows

-- `remember_payload`
unfoldable pub remember_payload : String → String → ℕ → List PayloadRow → Bool × List PayloadRow
remember_payload h e now rows =
    inserted (record { payload_hash = h; evidence_id = e; accepted_at = now; is_committed = true })
      rows

pub data RunStatus : Type 0 where
  running completed failed : RunStatus

-- `pipeline_runs`
pub record PipelineRun : Type 0 where
  pub input_hash : String
  pub ledger_record_hash : String
  pub remediation_path : String
  pub tickets_path : String
  pub report_path : String
  pub processed_at : ℕ
  pub status : RunStatus
  pub last_error : Option String
  pub run_lease_until : ℕ

abbrev pub is_run : String → PipelineRun → Bool
is_run h row = row.input_hash == h

abbrev pub is_free : ℕ → PipelineRun → Bool
is_free now row = elim row.status [
  | running ↦ leb row.run_lease_until now
  | completed ↦ false
  | failed ↦ true
]

abbrev pub new_run : String → ℕ → ℕ → PipelineRun
new_run h until now = record {
  input_hash = h;
  ledger_record_hash = "";
  remediation_path = "";
  tickets_path = "";
  report_path = "";
  processed_at = now;
  status = running;
  last_error = none;
  run_lease_until = until;
}

abbrev pub rerun : ℕ → ℕ → PipelineRun → PipelineRun
rerun until now row = record row {
  status = running;
  last_error = none;
  processed_at = now;
  run_lease_until = until;
}

abbrev pub claimed :
    String → ℕ → ℕ → Option PipelineRun → List PipelineRun → Bool × List PipelineRun
claimed h until now none rows = (true, rows ++ new_run h until now ∷ [])
claimed h until now (some row) rows =
    if is_free now row then (true, update (is_run h) (rerun until now) rows) else (false, rows)

-- `claim_pipeline_run`
unfoldable pub claim_pipeline_run : String → ℕ → ℕ → List PipelineRun → Bool × List PipelineRun
claim_pipeline_run h now lease rows = claimed h (now + lease) now (find (is_run h) rows) rows

-- What a run leaves: the hash of its ledger record and the paths of its files.
pub record Output : Type 0 where
  pub ledger_record_hash : String
  pub remediation_path : String
  pub tickets_path : String
  pub report_path : String

abbrev pub completed_run : Output → ℕ → PipelineRun → PipelineRun
completed_run out now row = record row {
  status = completed;
  ledger_record_hash = out.ledger_record_hash;
  remediation_path = out.remediation_path;
  tickets_path = out.tickets_path;
  report_path = out.report_path;
  processed_at = now;
  last_error = none;
  run_lease_until = 0;
}

-- `complete_pipeline_run`
unfoldable pub complete_pipeline_run : String → Output → ℕ → List PipelineRun → List PipelineRun
complete_pipeline_run h out now rows = update (is_run h) (completed_run out now) rows

-- `fail_pipeline_run`
unfoldable pub fail_pipeline_run : String → String → ℕ → List PipelineRun → List PipelineRun
fail_pipeline_run h error now rows =
    update (is_run h)
      (λ row. record row {
        status = failed;
        last_error = some (Text.take 2000 error);
        processed_at = now;
        run_lease_until = 0;
      })
      rows

-- `get_pipeline_run`
unfoldable pub get_pipeline_run : String → List PipelineRun → Option PipelineRun
get_pipeline_run h rows = find (is_run h) rows

-- `remember_pipeline_run`: INSERT OR IGNORE, with the status "completed".
unfoldable pub remember_pipeline_run : String → Output → ℕ → List PipelineRun → List PipelineRun
remember_pipeline_run h out now rows =
    if any (is_run h) rows then rows else rows ++ completed_run out now (new_run h 0 now) ∷ []
