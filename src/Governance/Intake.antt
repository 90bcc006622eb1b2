-- ===== src/Governance/Intake.antt =====
-- governance_core.py: the validation and the transactions of `create_finding` and `upsert_finding`.
use sentinel_grc.Prelude.{ℕ, ◌&&◌, String, none, [], ◌∷◌, ◌++◌, ◌==◌, string_eq, not, any, update}
use sentinel_grc.Governance.Types.{Rating, admin, analyst, opened}
use sentinel_grc.Governance.Rows.{Actor, Finding, Details, str, rating, Db}
use sentinel_grc.Governance.Exec.{
  Library, Fresh, Result, ok, err, Value, ◌>>=◌, ◌>>◌, check, or_raise, already_exists, integrity,
  identity_changed, disappeared,
}
use sentinel_grc.Governance.Validate.{require, required_text, identifier, severity, max_text_length}
use sentinel_grc.Governance.Events.{record_event}
use sentinel_grc.Governance.Mutate.{has_id, find_finding}

-- The arguments of both methods.
pub record NewFinding : Type 0 where
  pub finding_id : Value
  pub control_id : Value
  pub asset_id : Value
  pub title : Value
  pub risk_owner : Value
  pub severity : Value

-- The arguments after validation.
pub record Valid : Type 0 where
  pub finding_id : String
  pub control_id : String
  pub asset_id : String
  pub title : String
  pub risk_owner : String
  pub severity : Rating

-- The checks with which both methods begin.
unfoldable pub validate : NewFinding → Actor → Result Valid
validate new actor = do
  require actor (admin ∷ analyst ∷ [])
  k ← identifier new.finding_id
  c ← identifier new.control_id
  a ← identifier new.asset_id
  t ← required_text new.title max_text_length
  o ← identifier new.risk_owner
  s ← severity new.severity
  ok (record {
    finding_id = k;
    control_id = c;
    asset_id = a;
    title = t;
    risk_owner = o;
    severity = s;
  })

abbrev pub identity_details : Valid → Details
identity_details v =
    ("control_id", str v.control_id)
    ∷ ("asset_id", str v.asset_id)
    ∷ ("severity", rating v.severity)
    ∷ []

-- The row that `create_finding` inserts.
abbrev pub new_row : Valid → Fresh → Finding
new_row v fresh = record {
  finding_id = v.finding_id;
  control_id = v.control_id;
  asset_id = v.asset_id;
  title = v.title;
  risk_owner = v.risk_owner;
  severity = v.severity;
  status = opened;
  treatment_type = none;
  treatment_reason = none;
  due_date = none;
  action_owner = none;
  implementer = none;
  evidence_submitter = none;
  created_at = fresh.now;
  updated_at = fresh.later;
}

-- The handler `except DatabaseIntegrityError`.
abbrev pub integrity_as_duplicate : {A : Type 0} → Result A → Result A
integrity_as_duplicate (err integrity) = err already_exists
integrity_as_duplicate r = r

-- The transaction of `create_finding`.
unfoldable pub create_body : Library → Fresh → Valid → Actor → Db → Result Db
create_body lib fresh v actor db = integrity_as_duplicate do
  check (not (any (has_id v.finding_id) db.findings)) integrity
  record_event lib fresh v.finding_id "finding_created" actor (identity_details v) fresh.now
      (record db { findings = db.findings ++ new_row v fresh ∷ [] })

abbrev pub reassess : Valid → ℕ → Finding → Finding
reassess v now f = record f {
  title = v.title;
  risk_owner = v.risk_owner;
  severity = v.severity;
  updated_at = now;
}

-- The second transaction of `upsert_finding`.
unfoldable pub reassess_body : Library → Fresh → Valid → Actor → Db → Result Db
reassess_body lib fresh v actor db = do
  row ← or_raise (find_finding v.finding_id db) disappeared
  check (row.control_id == v.control_id && row.asset_id == v.asset_id) identity_changed
  record_event lib fresh v.finding_id "finding_reassessed" actor (identity_details v) fresh.now
      (record db { findings = update (has_id v.finding_id) (reassess v fresh.now) db.findings })
