-- ===== src/Governance/Mutate.antt =====
-- governance_core.py: `_mutate`, the write transaction that the lifecycle methods share.
use sentinel_grc.Prelude.{
  ℕ, Bool, not, String, Option, some, List, [], ◌∷◌, ◌++◌, if◌then◌else◌, ◌==◌, string_eq, find,
  any, update, contains,
}
use sentinel_grc.Governance.Types.{Status, status_eq, Treatment}
use sentinel_grc.Governance.Rows.{
  Actor, Finding, Risk, TreatmentRow, Approval, Action, Verification, Closure, Details, Db,
}
use sentinel_grc.Governance.Exec.{
  Library, Fresh, Result, ok, ◌>>=◌, ◌>>◌, check, or_raise, not_found, cannot_transition, integrity,
}
use sentinel_grc.Governance.Events.{record_event}
use sentinel_grc.Governance.Method
use sentinel_grc.Governance.Method.{Exec, transaction, lift}

abbrev pub has_id : String → Finding → Bool
has_id k f = f.finding_id == k

-- `SELECT * FROM findings WHERE finding_id = ?`
abbrev pub find_finding : String → Db → Option Finding
find_finding k db = find (has_id k) db.findings

-- `get_finding`
unfoldable pub get_finding : String → Exec Finding
get_finding k db = (or_raise (find_finding k db) not_found, db)

-- The columns that a transition sets beside the status.
pub data Updates : Type 0 where
  no_updates : Updates
  treatment_updates : Treatment → String → String → Option String → Updates
  implementer_update : String → Updates

abbrev pub apply_updates : Updates → Finding → Finding
apply_updates no_updates f = f
apply_updates (treatment_updates type reason owner due) f = record f {
  treatment_type = some type;
  treatment_reason = some reason;
  action_owner = some owner;
  due_date = due;
}
apply_updates (implementer_update who) f = record f { implementer = some who }

abbrev pub set_status : Status → ℕ → Updates → Finding → Finding
set_status status now updates f =
    apply_updates updates (record f { status = status; updated_at = now })

-- The insertion that goes with a transition.
pub data Workflow : Type 0 where
  risk_record : Risk → Workflow
  risk_treatment : TreatmentRow → Workflow
  approval_record : Approval → Workflow
  action_item : Action → Workflow
  verification_record : Verification → Workflow
  closure_record : Closure → Workflow

-- `INSERT INTO risk_records ... ON CONFLICT(finding_id) DO UPDATE SET ...`
abbrev pub upsert_risk : Risk → List Risk → List Risk
upsert_risk r rows =
    if any (λ x. x.finding_id == r.finding_id) rows
    then update (λ x. x.finding_id == r.finding_id) (λ x. r) rows
    else rows ++ r ∷ []

-- A repeated primary key is an integrity error.
unfoldable pub run_workflow : Workflow → Db → Result Db
run_workflow (risk_record r) db = do
  check (not (any (λ x. x.risk_id == r.risk_id) db.risks)) integrity
  ok (record db { risks = upsert_risk r db.risks })
run_workflow (risk_treatment r) db = do
  check (not (any (λ x. x.treatment_id == r.treatment_id) db.treatments)) integrity
  ok (record db { treatments = db.treatments ++ r ∷ [] })
run_workflow (approval_record r) db = do
  check (not (any (λ x. x.approval_id == r.approval_id) db.approvals)) integrity
  ok (record db { approvals = db.approvals ++ r ∷ [] })
run_workflow (action_item r) db = do
  check (not (any (λ x. x.action_id == r.action_id) db.actions)) integrity
  ok (record db { actions = db.actions ++ r ∷ [] })
run_workflow (verification_record r) db = do
  check (not (any (λ x. x.verification_id == r.verification_id) db.verifications)) integrity
  ok (record db { verifications = db.verifications ++ r ∷ [] })
run_workflow (closure_record r) db = do
  check (not (any (λ x. x.closure_id == r.closure_id) db.closures)) integrity
  ok (record db { closures = db.closures ++ r ∷ [] })

-- What a transition of a finding is made of.
pub record Transition : Type 0 where
  pub event_type : String
  pub new_status : Status
  pub details : Details
  pub updates : Updates
  pub allowed : List Status
  pub workflow : Workflow

-- The transaction of `_mutate`.
unfoldable pub mutate_body : Library → Fresh → String → Actor → Transition → Db → Result Db
mutate_body lib fresh k actor t db = do
  row ← or_raise (find_finding k db) not_found
  check (contains t.allowed row.status) (cannot_transition row.status)
  recorded ← record_event lib fresh k t.event_type actor t.details fresh.now (record db {
    findings = update (has_id k) (set_status t.new_status fresh.now t.updates) db.findings;
  })
  run_workflow t.workflow recorded

-- `_mutate`
unfoldable pub mutate : Library → Fresh → String → Actor → Transition → Exec Finding
mutate lib fresh k actor t =
    Method.◌>>◌ (transaction (mutate_body lib fresh k actor t)) (get_finding k)
