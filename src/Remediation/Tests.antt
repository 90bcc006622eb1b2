-- ===== src/Remediation/Tests.antt =====
-- The queue of one server, and the theorems at it.
use sentinel_grc.Prelude.{
  select, ◌++◌, ◌++◌, ℕ, true, false, String, ◌≡◌, refl, Option, none, some, List, [], ◌∷◌, map,
  All, if◌then◌else◌, leb, string_eq, ◌==◌,
}
use sentinel_grc.Prelude.Text
use sentinel_grc.Prelude.Attempt.{done}
use sentinel_grc.Records.Control.{
  flag, text, Posture, Control, Result, equals, get, or_null, severity_weight,
  criticality_multiplier, evaluate_control, evaluate_all,
}
use sentinel_grc.Records.Ledger
use sentinel_grc.Records.Ledger.{failures}
use sentinel_grc.Remediation.{
  Asset, Exception, Finding, Queue, asset_for, with_criticality, findings_of,
  build_remediation_queue, accepted, accept_in, approve_exception, reopened, expire_in,
  expire_exceptions,
}
use sentinel_grc.Remediation.Exceptions.{finding_in, is_over, exception_until}
use sentinel_grc.Remediation.Failures.{remediation_queue-failures}
use sentinel_grc.Remediation.Tickets.{Ticket, Review, generate_tickets}
use sentinel_grc.Remediation.Tickets.Completeness.{
  subject, finding_subject, account_subject, IsTimely, needs_review, tickets_complete,
}

abbrev disk_control : Control
disk_control = record {
  control_id = "EP-001";
  name = "Disk encryption";
  owner = "Endpoint";
  iso27002 = text "8.24";
  nist_csf = text "PR.DS-01";
  required_field = "disk_encrypted";
  expected = some (flag true);
  max_value = none;
  severity = "high";
}

abbrev server : Asset
server = record {
  asset_id = "srv-1";
  hostname = text "srv";
  business_service = text "Payroll";
  criticality = text "critical";
}

abbrev posture : Posture
posture = ("asset_id", text "srv-1") ∷ ("disk_encrypted", flag false) ∷ []

abbrev result : Result
result = record {
  control_id = "EP-001";
  control_name = "Disk encryption";
  owner = "Endpoint";
  iso27002 = text "8.24";
  nist_csf = text "PR.DS-01";
  field = "disk_encrypted";
  expected = equals (flag true);
  observed = flag false;
  passed = false;
  severity = "high";
  risk_score = 24;
}

abbrev finding : Finding
finding = record {
  finding_id = "srv-1:EP-001";
  asset = server;
  control = result;
  status = "open";
  exception = none;
  exception_status = none;
}

abbrev queue : Queue
queue = record { asset_id = "srv-1"; risk_score = 24; findings = finding ∷ [] }

built : build_remediation_queue (disk_control ∷ []) posture (server ∷ []) ≡ done queue
unfolding build_remediation_queue asset_for findings_of evaluate_control get severity_weight
    criticality_multiplier Text.lower_is
built = refl

remediation_queue-failures_example :
    (a : Asset) × (rs : List Result) × (asset_for (or_null (get "asset_id" posture)) (server ∷ [])
      ≡ some a)
    × (queue.asset_id ≡ a.asset_id)
    × (evaluate_all (disk_control ∷ []) (with_criticality a.criticality posture) ≡ done rs)
    × (map (λ (f : Finding). f.control) queue.findings ≡ failures rs)
    × (queue.risk_score ≡ Ledger.total_risk rs)
remediation_queue-failures_example =
    remediation_queue-failures (disk_control ∷ []) posture (server ∷ []) queue built

abbrev review : Review
review = record {
  users =
      record { sam_account_name = "svc"; stale = true; privileged = true; enabled = false } ∷ [];
  reviewed_at = some "2024-05-01";
}

tickets_complete_example :
    (ts : List Ticket) × (generate_tickets (λ s. s) queue review 100 ≡ done ts)
    × (map subject ts
        ≡ map finding_subject queue.findings
          ++ map (account_subject review.reviewed_at) (select needs_review review.users))
    × All IsTimely ts
tickets_complete_example =
    tickets_complete (λ s. s) (disk_control ∷ []) posture (server ∷ []) queue review 100 built

abbrev from_iso : String → Option ℕ
from_iso s = if s == "2024-06-01" then some 30 else none

abbrev waiver : Exception
waiver = record { approver = "carla"; reason = "legacy"; expires_on = "2024-06-01" }

abbrev granted : Queue
granted = record queue { findings = accepted waiver finding ∷ [] }

abbrev back : Queue
back = record queue { findings = reopened (accepted waiver finding) ∷ [] }

approved : approve_exception from_iso 10 waiver "srv-1:EP-001" queue ≡ done granted
unfolding approve_exception accept_in Text.strip
approved = refl

expired : expire_exceptions from_iso 31 granted ≡ done back
unfolding expire_exceptions expire_in
expired = refl

exception_until_example :
    (f g : Finding) × (expiry : ℕ) × (finding_in "srv-1:EP-001" queue ≡ some f)
    × (f.status ≡ "open")
    × (from_iso waiver.expires_on ≡ some expiry)
    × (leb expiry 10 ≡ false)
    × (finding_in "srv-1:EP-001" back ≡ some g)
    × (g.status ≡ (if leb expiry 31 then "open" else "accepted-risk"))
    × (finding_in "srv-1:EP-002" granted ≡ finding_in "srv-1:EP-002" queue)
    × ((x : Finding)
        → finding_in "srv-1:EP-002" queue ≡ some x
        → (y : Finding) × (finding_in "srv-1:EP-002" back ≡ some y)
          × (is_over from_iso 31 x ≡ false → y ≡ x)
          × (is_over from_iso 31 x ≡ true
              → y ≡ record x { status = "open"; exception_status = some "expired" }))
exception_until_example =
    exception_until from_iso 10 31 waiver "srv-1:EP-001" "srv-1:EP-002" queue granted back refl
      approved expired refl
