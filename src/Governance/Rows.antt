-- ===== src/Governance/Rows.antt =====
-- governance_core.py: the actor and the rows of the tables. A column that holds JSON text is modelled
-- by the value that the text encodes; a column that every writer fills with one constant is left out.
use sentinel_grc.Prelude.{ℕ, Bool, String, Option, List}
use sentinel_grc.Governance.Types.{Role, Status, Treatment, Rating}

-- `ActorContext`
pub record Actor : Type 0 where
  pub actor_id : String
  pub role : Role
  pub auth_method : String

-- `findings`
pub record Finding : Type 0 where
  pub finding_id : String
  pub control_id : String
  pub asset_id : String
  pub title : String
  pub risk_owner : String
  pub severity : Rating
  pub status : Status
  pub treatment_type : Option Treatment
  pub treatment_reason : Option String
  pub due_date : Option String
  pub action_owner : Option String
  pub implementer : Option String
  pub evidence_submitter : Option String
  pub created_at : ℕ
  pub updated_at : ℕ

-- `risk_records`
pub record Risk : Type 0 where
  pub risk_id : String
  pub finding_id : String
  pub likelihood : Rating
  pub impact : Rating
  pub owner : String

-- `risk_treatments`
pub record TreatmentRow : Type 0 where
  pub treatment_id : String
  pub finding_id : String
  pub treatment_type : Treatment
  pub reason : String
  pub proposed_by : String

-- `approval_records`
pub record Approval : Type 0 where
  pub approval_id : String
  pub finding_id : String
  pub is_approved : Bool
  pub actor_id : String
  pub actor_role : Role
  pub reason : String

-- `action_items`
pub record Action : Type 0 where
  pub action_id : String
  pub finding_id : String
  pub owner : Option String
  pub implementer : String
  pub due_date : Option String

-- `governance_evidence`; every row has the status "submitted".
pub record Evidence : Type 0 where
  pub evidence_id : String
  pub finding_id : String
  pub source : String
  pub sha256 : String
  pub submitted_by : String
  pub submitted_at : ℕ
  pub object_key : String
  pub size_bytes : ℕ
  pub etag : String

-- `verification_records`
pub record Verification : Type 0 where
  pub verification_id : String
  pub finding_id : String
  pub verifier_id : String
  pub is_passed : Bool
  pub notes : String

-- `closure_records`
pub record Closure : Type 0 where
  pub closure_id : String
  pub finding_id : String
  pub closed_by : String
  pub reason : String

-- A value of the details dictionary of an event.
pub data Detail : Type 0 where
  str : String → Detail
  num : ℕ → Detail
  flag : Bool → Detail
  rating : Rating → Detail
  treatment : Treatment → Detail

abbrev pub Details : Type 0
Details = List (String × Detail)

-- The dictionary that is hashed: `body` of `_event` and of `verify_event_chain`.
pub record Body : Type 0 where
  pub finding_id : String
  pub event_type : String
  pub actor_id : String
  pub actor_role : Role
  pub auth_method : String
  pub occurred_at : ℕ
  pub details : Details
  pub previous_hash : String

-- `governance_events`
pub record Event : Type 0 where
  pub event_id : String
  pub finding_id : String
  pub event_sequence : ℕ
  pub event_type : String
  pub actor_id : String
  pub actor_role : Role
  pub auth_method : String
  pub occurred_at : ℕ
  pub details : Details
  pub previous_hash : String
  pub event_hash : String

-- `outbox_payload`
pub record Payload : Type 0 where
  pub body : Body
  pub event_id : String
  pub event_sequence : ℕ
  pub event_hash : String

-- The new rows of `governance_outbox` and of `audit_exports`.
pub record Notice : Type 0 where
  pub notice_id : String
  pub event_id : String
  pub finding_id : String
  pub event_sequence : ℕ
  pub payload : Payload
  pub created_at : ℕ
  pub available_at : ℕ

pub record Db : Type 0 where
  pub findings : List Finding
  pub risks : List Risk
  pub treatments : List TreatmentRow
  pub approvals : List Approval
  pub actions : List Action
  pub evidence : List Evidence
  pub verifications : List Verification
  pub closures : List Closure
  pub events : List Event
  pub outbox : List Notice
  pub exports : List Notice
