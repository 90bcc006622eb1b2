-- ===== src/State/Imports.antt =====
-- state_store.py: findings imported from other programs, each with an event for the audit log.
pub mod Replay
use Prim.Native.String
use sentinel_grc.Prelude.{
  ℕ, ◌+◌, Bool, true, false, ◌&&◌, ◌||◌, not, String, Option, none, some, List, [], ◌∷◌, ◌++◌,
  if◌then◌else◌, ◌==◌, string_eq, is_none, any, find, update,
}
use sentinel_grc.Prelude.Text
use sentinel_grc.State.{
  Answer, raised, returned, after, missing_field, bad_severity, bad_evidence_hash, integrity,
  unknown_event,
}

-- The dictionary `finding`, where a key may be missing; `details` is the canonical JSON of its value.
pub record Import : Type 0 where
  pub finding_id : Option String
  pub source : Option String
  pub control_id : Option String
  pub asset_id : Option String
  pub title : Option String
  pub risk_owner : Option String
  pub severity : Option String
  pub details : Option String

-- The same with all keys of `required`.
pub record Complete : Type 0 where
  pub finding_id : String
  pub source : String
  pub control_id : String
  pub asset_id : String
  pub title : String
  pub risk_owner : String
  pub severity : String
  pub details : String

-- `external_findings`
pub record External : Type 0 where
  pub content : Complete
  pub created_at : ℕ
  pub updated_at : ℕ
  pub reassessment_count : ℕ
  pub last_evidence_hash : Option String

-- `external_finding_audit_outbox`; its details are the control and the source.
pub record AuditEvent : Type 0 where
  pub event_id : String
  pub finding_id : String
  pub evidence_hash : String
  pub event_type : String
  pub control_id : String
  pub source : String
  pub created_at : ℕ
  pub delivered_at : Option ℕ

pub record Db : Type 0 where
  pub findings : List External
  pub outbox : List AuditEvent

abbrev key : Option String → Answer String
key none = raised missing_field
key (some s) = returned s

abbrev is_severity : String → Bool
is_severity s = s == "low" || (s == "medium" || (s == "high" || s == "critical"))

-- The checks with which both methods begin.
unfoldable pub complete : Import → Answer Complete
complete i = after (key i.finding_id) λ f. after (key i.source) λ s. after (key i.control_id) λ c.
    after (key i.asset_id) λ a. after (key i.title) λ t. after (key i.risk_owner) λ o.
      after (key i.severity) λ v. after (key i.details) λ d.
        if is_severity v
        then returned (record {
          finding_id = f;
          source = s;
          control_id = c;
          asset_id = a;
          title = t;
          risk_owner = o;
          severity = v;
          details = d;
        })
        else raised bad_severity

abbrev pub has_id : String → External → Bool
has_id k row = row.content.finding_id == k

abbrev pub new_row : Complete → Option String → ℕ → External
new_row c hash now = record {
  content = c;
  created_at = now;
  updated_at = now;
  reassessment_count = 0;
  last_evidence_hash = hash;
}

abbrev pub reassessed_row : Complete → ℕ → External → External
reassessed_row c now row = record row {
  content = c;
  updated_at = now;
  reassessment_count = row.reassessment_count + 1;
}

abbrev pub stored : ℕ → Db → Complete → Answer (Bool × Db)
stored now db c =
    if any (has_id c.finding_id) db.findings
    then returned (
      false,
      record db { findings = update (has_id c.finding_id) (reassessed_row c now) db.findings },
    )
    else returned (true, record db { findings = db.findings ++ new_row c none now ∷ [] })

-- `upsert_external_finding`: true only on creation.
unfoldable pub upsert_external_finding : Import → ℕ → Db → Answer (Bool × Db)
upsert_external_finding i now db = after (complete i) (stored now db)

pub data Action : Type 0 where
  replayed created reassessed : Action

-- `WHERE finding_id = ? AND evidence_hash = ?`
abbrev pub is_import : String → String → AuditEvent → Bool
is_import f hash e = e.finding_id == f && e.evidence_hash == hash

abbrev pub event_type_of : Action → String
event_type_of replayed = "bridge.minisoar.finding.replayed"
event_type_of created = "bridge.minisoar.finding.created"
event_type_of reassessed = "bridge.minisoar.finding.reassessed"

-- `digest` is SHA-256 in hexadecimal.
abbrev pub event_id_of : (String → String) → String → String → String → String
event_id_of digest f hash event_type = Text.take 24 (
    digest (
      Prim.Native.String.◌++◌ "minisoar-audit|" (
        Prim.Native.String.◌++◌ f (
          Prim.Native.String.◌++◌ "|"
            (Prim.Native.String.◌++◌ hash (Prim.Native.String.◌++◌ "|" event_type))))))

abbrev pub new_event : (String → String) → Complete → String → Action → ℕ → AuditEvent
new_event digest c hash action now = record {
  event_id = event_id_of digest c.finding_id hash (event_type_of action);
  finding_id = c.finding_id;
  evidence_hash = hash;
  event_type = event_type_of action;
  control_id = c.control_id;
  source = c.source;
  created_at = now;
  delivered_at = none;
}

-- The event of the import, unless it is delivered.
abbrev pub pending_event : String → String → Db → Option AuditEvent
pending_event f hash db = elim (find (is_import f hash) db.outbox) [
  | none ↦ none
  | some e ↦ if is_none e.delivered_at then some e else none
]

abbrev pub Outcome : Type 0
Outcome = Action × Option AuditEvent

-- The insertion of the event, whose identifier is the primary key.
unfoldable pub recorded :
    (String → String) → Complete → String → Action → ℕ → List External → Db → Answer (Outcome × Db)
recorded digest c hash action now findings db =
    let e = new_event digest c hash action now in
    let db' : Db = record { findings = findings; outbox = db.outbox ++ e ∷ [] } in
    if any (λ x. x.event_id == e.event_id) db.outbox
    then raised integrity
    else returned ((action, pending_event c.finding_id hash db'), db')

-- The transaction of `record_external_finding_import`.
unfoldable pub import_complete :
    (String → String) → Complete → String → ℕ → Db → Answer (Outcome × Db)
import_complete digest c hash now db =
    if any (is_import c.finding_id hash) db.outbox
    then returned ((replayed, pending_event c.finding_id hash db), db)
    else if any (has_id c.finding_id) db.findings
    then recorded digest c hash reassessed now
        (update (has_id c.finding_id)
          (λ row. record (reassessed_row c now row) { last_evidence_hash = some hash }) db.findings)
        db
    else recorded digest c hash created now (db.findings ++ new_row c (some hash) now ∷ []) db

-- `record_external_finding_import`, with a text for `evidence_hash`
unfoldable pub record_import : (String → String) → Import → String → ℕ → Db → Answer (Outcome × Db)
record_import digest i hash now db = after (complete i) λ c.
    if Text.is_hex 64 hash then import_complete digest c hash now db else raised bad_evidence_hash

abbrev pub delivered : ℕ → AuditEvent → AuditEvent
delivered now e = record e {
  delivered_at = elim e.delivered_at [ none ↦ some now | some t ↦ some t ];
}

-- `mark_external_finding_audit_delivered`; event_id is the primary key, so a match is the only one.
unfoldable pub mark_delivered : String → ℕ → Db → Answer Db
mark_delivered k now db =
    if any (λ e. e.event_id == k) db.outbox
    then returned (record db { outbox = update (λ e. e.event_id == k) (delivered now) db.outbox })
    else raised unknown_event
