-- ===== src/State/Tests.antt =====
-- Imports and jobs on small tables, and the theorems at them.
use sentinel_grc.Prelude.{
  count, ◌≤◌, ◌<◌, ◌+◌, ℕ, Bool, true, false, String, ◌≡◌, ◌≢◌, refl, ap, Option, none, some, List,
  [], ◌∷◌, arith, eq_iff,
}
use sentinel_grc.Prelude.Text
use mathlib.Core.Bool.{false≢true}
use sentinel_grc.State.{returned}
use sentinel_grc.State.Imports
use sentinel_grc.State.Imports.{Import, AuditEvent, replayed, created, reassessed, record_import}
use sentinel_grc.State.Imports.Replay.{Op, upsert_op, mark_op, run, import-replayed}
use sentinel_grc.State.Jobs
use sentinel_grc.State.Jobs.{Job, claim, renew, complete, fail, lease_lost}
use sentinel_grc.State.Jobs.Progress.{claimed_job_can_complete}
use sentinel_grc.State.Jobs.Leases.{job_claim_exclusive, claimed_job-left_alone}
use sentinel_grc.State.Ingestion
use sentinel_grc.State.Ingestion.{Nonce, reserve_nonce, PipelineRun, claim_pipeline_run}
use sentinel_grc.State.Ingestion.Once
use sentinel_grc.State.Ingestion.Once.{nonce_once}
use sentinel_grc.State.Ingestion.Runs
use sentinel_grc.State.Ingestion.Runs.{run_claimed_once}
use sentinel_grc.State.{identity_mismatch, raised}
use sentinel_grc.State.Ingestion.{PayloadRow, begin_payload}
use sentinel_grc.State.Ingestion.Payloads
use sentinel_grc.State.Ingestion.Payloads.{payload_bound}

abbrev alert : Import
alert = record {
  finding_id = some "F-9";
  source = some "minisoar";
  control_id = some "CC7";
  asset_id = some "vm";
  title = some "Alert";
  risk_owner = some "olga";
  severity = some "high";
  details = some "{}";
}

abbrev hash : String
hash = "00000000000000000000000000000000000000000000000000000000000000aa"

abbrev digest : String → String
digest s = s

abbrev no_imports : Imports.Db
no_imports = record { findings = []; outbox = [] }

abbrev alert_content : Imports.Complete
alert_content = record {
  finding_id = "F-9";
  source = "minisoar";
  control_id = "CC7";
  asset_id = "vm";
  title = "Alert";
  risk_owner = "olga";
  severity = "high";
  details = "{}";
}

abbrev alert_event : AuditEvent
alert_event = Imports.new_event digest alert_content hash created 1

abbrev imported : Imports.Db
imported = record {
  findings = Imports.new_row alert_content (some hash) 1 ∷ [];
  outbox = alert_event ∷ [];
}

import_first :
    record_import digest alert hash 1 no_imports ≡ returned ((created, some alert_event), imported)
unfolding record_import Imports.complete Imports.import_complete Imports.recorded
    sentinel_grc.Prelude.Text.is_hex sentinel_grc.Prelude.Text.all_hex
    sentinel_grc.Prelude.Text.length
import_first = refl

abbrev between : List Op
between = upsert_op alert 2 ∷ mark_op alert_event.event_id 3 ∷ []

import-replayed_example :
    (e : Option AuditEvent) × (record_import digest alert hash 9 (run digest between imported)
      ≡ returned ((replayed, e), run digest between imported))
import-replayed_example =
    import-replayed digest alert hash 1 9 between no_imports imported (created, some alert_event)
      import_first

abbrev job : ℕ → String → Job
job n path = record {
  job_id = n;
  payload_path = path;
  status = Jobs.pending;
  attempts = 0;
  available_at = 0;
  locked_until = none;
  worker_id = none;
  last_error = none;
}

abbrev two_jobs : Jobs.Db
two_jobs = record { jobs = job 1 "a" ∷ job 2 "b" ∷ []; next_id = 3 }

abbrev one_leased : Jobs.Db
one_leased = record { jobs = Jobs.leased_to "w1" 310 (job 1 "a") ∷ job 2 "b" ∷ []; next_id = 3 }

abbrev both_leased : Jobs.Db
both_leased = record {
  jobs = Jobs.leased_to "w1" 310 (job 1 "a") ∷ Jobs.leased_to "w2" 320 (job 2 "b") ∷ [];
  next_id = 3;
}

abbrev tried : Job → Job
tried j = record j { attempts = 1 }

job_claims :
    (claim "w1" 300 10 two_jobs ≡ returned (some (tried (job 1 "a")), one_leased))
    × (claim "w2" 300 20 one_leased ≡ returned (some (tried (job 2 "b")), both_leased))
unfolding claim Jobs.lowest sentinel_grc.Prelude.Text.strip sentinel_grc.Prelude.Text.lstrip
    sentinel_grc.Prelude.Text.rstrip sentinel_grc.Prelude.Text.is_space
job_claims = (refl, refl)

job_claim_exclusive_example : (tried (job 2 "b")).job_id ≢ (tried (job 1 "a")).job_id
job_claim_exclusive_example =
    job_claim_exclusive "w1" "w2" 300 300 10 20 two_jobs one_leased both_leased (tried (job 1 "a"))
      (tried (job 2 "b")) job_claims.0 job_claims.1 (omega arith)

abbrev w1 : String
w1 = "w1"

abbrev w2 : String
w2 = "w2"

w1-w2 : w1 ≢ w2
w1-w2 e = false≢true ((eq_iff w1 w2).1 e)

claimed_job-left_alone_example :
    (renew 1 "w2" 300 400 one_leased ≡ returned (false, one_leased))
    × (complete 1 "w2" 400 one_leased ≡ returned (false, one_leased))
    × (fail 1 "w2" "late" 3 60 400 one_leased ≡ returned (lease_lost, one_leased))
unfolding sentinel_grc.Prelude.Text.strip sentinel_grc.Prelude.Text.lstrip
    sentinel_grc.Prelude.Text.rstrip sentinel_grc.Prelude.Text.is_space
claimed_job-left_alone_example =
    claimed_job-left_alone "w1" "w2" 300 10 two_jobs one_leased (tried (job 1 "a")) job_claims.0
      w1-w2 refl 300 400 "late" 3 60 (omega arith) (omega arith)

abbrev n1 : Nonce
n1 = record { nonce = "n"; expires_at = 310 }

abbrev other_nonces : List Once.Request
other_nonces = ("m", 50, 20) ∷ ("n", 900, 30) ∷ []

reserve_first : reserve_nonce "n" 300 10 [] ≡ (true, n1 ∷ [])
unfolding reserve_nonce
reserve_first = refl

nonce_once_example :
    reserve_nonce "n" 300 200 (Once.reserve_all other_nonces (n1 ∷ []))
    ≡ (false, Once.reserve_all other_nonces (n1 ∷ []))
nonce_once_example =
    nonce_once "n" 300 300 10 200 other_nonces [] (n1 ∷ []) reserve_first refl (omega arith)

abbrev run1 : PipelineRun
run1 = Ingestion.new_run "i" 910 10

abbrev other_claims : List Runs.Request
other_claims = ("j", 20, 900) ∷ ("i", 30, 900) ∷ []

run_first : claim_pipeline_run "i" 10 900 [] ≡ (true, run1 ∷ [])
unfolding claim_pipeline_run
run_first = refl

run_claimed_once_example :
    claim_pipeline_run "i" 500 900 (Runs.claim_all other_claims (run1 ∷ []))
    ≡ (false, Runs.claim_all other_claims (run1 ∷ []))
run_claimed_once_example =
    run_claimed_once "i" 10 500 900 900 other_claims [] (run1 ∷ []) run_first refl (omega arith)

abbrev payload1 : PayloadRow
payload1 = record { payload_hash = "p"; evidence_id = w1; accepted_at = 10; is_committed = false }

abbrev payload_ops : List Payloads.Op
payload_ops = Payloads.commit_op "p" w1 ∷ Payloads.begin_op "q" w2 20 ∷ []

begin_first : begin_payload "p" w1 10 [] ≡ returned (true, payload1 ∷ [])
unfolding begin_payload
begin_first = refl

payload_bound_example :
    begin_payload "p" w2 30 (Payloads.run payload_ops (payload1 ∷ [])) ≡ raised identity_mismatch
payload_bound_example =
    payload_bound "p" w1 w2 10 30 payload_ops [] (payload1 ∷ []) true begin_first w1-w2

abbrev one_job : Jobs.Db
one_job = record { jobs = job 1 "a" ∷ []; next_id = 2 }

one_id : (k : ℕ) → count (Jobs.has_id k) one_job.jobs ≤ 1
one_id k = ground arith

named_worker : Jobs.is_blank "w1" ≡ false
unfolding Text.strip
named_worker = refl

claimed_job_can_complete_example :
    (j : Job) × (after_ : Jobs.Db) × (claim "w1" 300 10 one_job ≡ returned (some j, after_))
    × ((t : ℕ)
        → t < 10 + 300
        → (final : Jobs.Db) × (complete j.job_id "w1" t after_ ≡ returned (true, final)))
claimed_job_can_complete_example =
    claimed_job_can_complete "w1" 300 10 one_job named_worker (omega arith) refl one_id
