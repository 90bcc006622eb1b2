-- ===== src/Exchange/Tests.antt =====
-- One event and one pending payload, and the theorems at them.
use sentinel_grc.Prelude.{
  ◌==◌, string_eq, ℕ, true, false, ◌&&◌, ◌||◌, String, ◌≡◌, refl, none, some, List, [], ◌∷◌, any,
}
use sentinel_grc.Prelude.Text
use sentinel_grc.Prelude.Attempt.{Attempt, done}
use sentinel_grc.State
use sentinel_grc.State.Jobs.{Job, Db, running, completed_job, renew, complete}
use sentinel_grc.Exchange.Publication.{JsonFile}
use sentinel_grc.Exchange.Worker.{
  Options, Circumstances, finished, read_claimed_payload, process_claimed_job,
}
use sentinel_grc.Exchange.Worker.{enqueue_inbox}
use sentinel_grc.Exchange.Worker.Inbox.{has_path, is_job_for, enqueued_paths}
use sentinel_grc.Records.Control.{null, text, flag, get}
use sentinel_grc.Exchange.Minisoar
use sentinel_grc.Exchange.Minisoar.{
  Object, Library, Incident, is_text_of, verification_succeeded, control_for,
  normalize_minisoar_incident,
}
use sentinel_grc.Exchange.Minisoar.Patterns
use sentinel_grc.Exchange.Minisoar.Gates.{IsHashed, incident_governed}
use sentinel_grc.Exchange.Worker.Completion.{is_completed, finished_job_completed}
use sentinel_grc.State.Ingestion.{PayloadRow, find_payload_by_evidence_id, commit_payload}
use sentinel_grc.Exchange.Connectors
use sentinel_grc.Exchange.Connectors.{
  Row, Crypto, Request, Reply, json_object, ingest_event, reserve,
}
use sentinel_grc.Exchange.Connectors.Replay.{Op, ingest_op, reserve_op, run, event_accepted_once}
use sentinel_grc.Exchange.Publication.{
  Directory, paths, scan_failed, regular, irregular, all_candidates, reconcile_pending_publications,
  sweep, reconcile_candidate, pending_candidate,
}
use sentinel_grc.Exchange.Publication.Verified.{
  is_published, is_pending, holds, reconciled_verified,
}
use sentinel_grc.Exchange.Publication.Progress.{reconciliation_commits}

abbrev hash : String
hash = "00000000000000000000000000000000000000000000000000000000000000aa"

abbrev crypto : Crypto
crypto = record { mac = λ raw secret. "5ec"; digest = λ raw. hash; parse = λ raw. json_object "{}" }

abbrev request : Request
request = record {
  raw = 123 ∷ 125 ∷ [];
  source = "minisoar";
  event_id = "EV-1";
  signature = "sha256=5ec";
  secret = "s";
  max_bytes = 1048576;
}

abbrev event_row : Row
event_row = record { source = "minisoar"; event_id = "EV-1"; payload_hash = hash; accepted_at = 5 }

abbrev accepted : Reply
accepted = record {
  is_accepted = true;
  event_id = "EV-1";
  source = "minisoar";
  payload_hash = hash;
  payload = some "{}";
}

abbrev duplicate : Reply
duplicate = record {
  is_accepted = false;
  event_id = "EV-1";
  source = "minisoar";
  payload_hash = hash;
  payload = none;
}

abbrev between : List Op
between = reserve_op "EV-2" "other" hash 6 ∷ ingest_op request 7 ∷ []

abbrev two_rows : List Row
two_rows =
    event_row
    ∷ record { source = "other"; event_id = "EV-2"; payload_hash = hash; accepted_at = 6 }
    ∷ []

first : ingest_event crypto request 5 [] ≡ done (accepted, event_row ∷ [])
unfolding ingest_event reserve Connectors.matches Connectors.all_inner Connectors.drop_prefix
    Text.length Text.is_hex
first = refl

ran : run crypto between (event_row ∷ []) ≡ two_rows
unfolding run ingest_event reserve Connectors.matches Connectors.all_inner Connectors.drop_prefix
    Text.length Text.is_hex
ran = refl

second :
    ingest_event crypto request 9 (run crypto between (event_row ∷ []))
    ≡ done (duplicate, run crypto between (event_row ∷ []))
unfolding run ingest_event reserve Connectors.matches Connectors.all_inner Connectors.drop_prefix
    Text.length Text.is_hex
second = refl

event_accepted_once_example :
    (crypto.digest request.raw ≡ crypto.digest request.raw)
    × (duplicate.is_accepted ≡ false)
    × (duplicate.payload ≡ none)
    × (run crypto between (event_row ∷ []) ≡ run crypto between (event_row ∷ []))
event_accepted_once_example =
    event_accepted_once crypto request request 5 9 between [] (event_row ∷ [])
      (run crypto between (event_row ∷ [])) accepted duplicate first refl refl second

abbrev digest : List ℕ → String
digest bytes = "d1"

abbrev evidence : String
evidence = "0123456789abcdef01234567"

abbrev orphan : PayloadRow
orphan = record {
  payload_hash = "d1";
  evidence_id = evidence;
  accepted_at = 100;
  is_committed = false;
}

abbrev inbox : List Directory
inbox =
    scan_failed
    ∷ paths (
        record { stem = "notes"; content = irregular }
        ∷ record { stem = evidence; content = regular (1 ∷ 2 ∷ []) }
        ∷ [])
    ∷ []

reconciliation_commits_example :
    any
      (is_published "d1" evidence)
      (reconcile_pending_publications digest inbox 300 400 (orphan ∷ [])).1
    ≡ true
unfolding Text.is_hex
reconciliation_commits_example =
    reconciliation_commits digest inbox 300 400 evidence (orphan ∷ []) orphan refl refl refl

committed :
    any
      (is_published "d1" evidence)
      (reconcile_pending_publications digest inbox 300 400 (orphan ∷ [])).1
    ≡ true
unfolding reconcile_pending_publications sweep reconcile_candidate pending_candidate
    find_payload_by_evidence_id commit_payload Text.is_hex
committed = refl

reconciled_verified_example :
    any (is_published "d1" evidence) (orphan ∷ [])
      || (any (holds digest "d1" evidence) (all_candidates inbox)
          && any (is_pending 300 400 "d1" evidence) (orphan ∷ []))
    ≡ true
reconciled_verified_example =
    reconciled_verified digest inbox 300 400 "d1" evidence (orphan ∷ []) committed

abbrev job : Job
job = record {
  job_id = 1;
  payload_path = "inbox/0123456789abcdef01234567.json";
  status = running;
  attempts = 1;
  available_at = 0;
  locked_until = some 310;
  worker_id = some "w1";
  last_error = none;
}

abbrev queue : Db
queue = record { jobs = job ∷ []; next_id = 2 }

abbrev options : Options
options = record { lease_seconds = 300; max_attempts = 3; retry_delay = 60 }

abbrev quiet : Circumstances
quiet = record {
  renew_error = false;
  renewed_at = 20;
  while_reading = λ db. db;
  lost_reading = false;
  while_running = λ db. db;
  lost_running = false;
  ended_at = 40;
}

abbrev message_of : State.Error → String
message_of e = "error"

abbrev pipeline : List ℕ → Attempt String String
pipeline bytes = done "accepted"

abbrev file : JsonFile
file = record { stem = evidence; content = regular (1 ∷ 2 ∷ []) }

abbrev published : List PayloadRow
published =
    record { payload_hash = "d1"; evidence_id = evidence; accepted_at = 100; is_committed = true }
    ∷ []

-- The queue behind the job.
abbrev done_queue : Db
done_queue = record {
  jobs = completed_job (record job { locked_until = some 320 }) ∷ [];
  next_id = 2;
}

processed :
    process_claimed_job 1 "w1" options quiet message_of pipeline
      (read_claimed_payload digest file published)
      queue
    ≡ (finished "accepted", done_queue)
unfolding process_claimed_job read_claimed_payload find_payload_by_evidence_id renew complete
    Text.strip
processed = refl

finished_job_completed_example :
    (bytes : List ℕ) × (file.content ≡ regular bytes)
    × (pipeline bytes ≡ done "accepted")
    × ((row : PayloadRow)
        → find_payload_by_evidence_id evidence published ≡ some row
        → (row.is_committed ≡ true) × (digest bytes ≡ row.payload_hash))
    × (any (is_completed 1) done_queue.jobs ≡ true)
finished_job_completed_example =
    finished_job_completed 1 "w1" options quiet message_of digest pipeline file published queue
      done_queue "accepted" processed

abbrev inbox_files : List (String × String)
inbox_files = (evidence, "inbox/a.json") ∷ ("notes", "inbox/notes.json") ∷ []

enqueued_paths_example :
    any (has_path "inbox/a.json") (enqueue_inbox (orphan ∷ []) 50 inbox_files queue).jobs
    ≡ any (has_path "inbox/a.json") queue.jobs
      || any (is_job_for (orphan ∷ []) "inbox/a.json") inbox_files
enqueued_paths_example = enqueued_paths (orphan ∷ []) 50 "inbox/a.json" inbox_files queue

abbrev library : Library
library = record {
  identity_digest = λ i. hash;
  payload_digest = λ p. hash;
  incident_digest = λ t. "0123";
  to_utc = λ t. some t;
  is_ip = λ t. true;
}

abbrev alert : Object
alert =
    ("source", text "minisoar")
    ∷ ("source_event_id", text "E-7")
    ∷ ("asset_id", text "srv-1")
    ∷ ("kind", text "malware")
    ∷ ("severity", text "high")
    ∷ ("detected_at", text "2024-05-01T00:00:00Z")
    ∷ ("evidence_ref", text "https://soar.lab/e/7")
    ∷ ("message", text "Trojan found")
    ∷ ("environment", text "synthetic-lab")
    ∷ ("risk_owner", text "olga")
    ∷ ("supported", flag true)
    ∷ ("identity_hash", text hash)
    ∷ ("alert_id", text "ALT-0000000000000000")
    ∷ ("payload_hash", text hash)
    ∷ []

abbrev closed_finding : Object
closed_finding =
    ("finding_id", text "FND-0000000000000000")
    ∷ ("status", text "closed")
    ∷ ("alert_id", text "ALT-0000000000000000")
    ∷ ("executor_id", text "bot")
    ∷ ("risk_owner", text "olga")
    ∷ ("severity", text "high")
    ∷ ("title", text "Trojan found")
    ∷ ("playbook_version", text "3")
    ∷ []

abbrev verification : Object
verification =
    ("passed", flag true)
    ∷ ("finding_id", text "FND-0000000000000000")
    ∷ ("verifier_id", text "vera")
    ∷ []

abbrev incident : Incident
incident = record {
  finding_id = "SEC-IR-0123";
  control_id = "SEC-END-001";
  asset_id = "srv-1";
  title = "Incident response closed: Trojan found";
  risk_owner = "olga";
  severity = "high";
  alert = record {
    content = record {
      identity = record {
        source = "minisoar";
        source_event_id = "E-7";
        kind = "malware";
        asset_id = "srv-1";
        account = none;
        source_ip = none;
      };
      severity = "high";
      detected_at = "2024-05-01T00:00:00Z";
      message = "Trojan found";
      evidence_ref = some "https://soar.lab/e/7";
      environment = "synthetic-lab";
      risk_owner = "olga";
    };
    utc_detected_at = "2024-05-01T00:00:00Z";
    identity_hash = hash;
    alert_id = "ALT-0000000000000000";
    payload_hash = hash;
  };
  fields = record {
    mini_soar_finding_id = "FND-0000000000000000";
    executor_id = "bot";
    risk_owner = "olga";
    severity = "high";
    title = "Trojan found";
  };
  verification_passed = true;
  verifier_id = some "vera";
  playbook_id = null;
  playbook_version = text "3";
  source = "minisoar_incident_response";
  simulated = true;
}

normalized :
    normalize_minisoar_incident library closed_finding alert (some verification) true
    ≡ done (some incident)
unfolding normalize_minisoar_incident Minisoar.validated_alert Minisoar.alert_content
    Minisoar.hashed_alert Minisoar.validated_finding_fields Minisoar.is_upper_of
    Minisoar.after_prefix Minisoar.all_upper_hex get Patterns.is_canonical_text Patterns.all_shown
    Patterns.ends_shown Patterns.is_evidence_reference Patterns.rest_of Patterns.host_from
    Patterns.all_solid Connectors.matches Connectors.all_inner Text.length Text.is_hex Text.is_space
normalized = refl

incident_governed_example :
    (is_text_of closed_finding "status" "closed" ≡ true)
    × (verification_succeeded (some verification) ≡ true)
    × (who : String) × (incident.verifier_id ≡ some who)
    × ((who == incident.fields.executor_id) ≡ false)
    × (control_for incident.alert.content.identity.kind ≡ some incident.control_id)
    × IsHashed library incident.alert
incident_governed_example =
    incident_governed library closed_finding alert (some verification) incident normalized
