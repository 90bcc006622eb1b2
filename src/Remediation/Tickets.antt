-- ===== src/Remediation/Tickets.antt =====
-- scripts/workflow.py: tickets for open findings and for stale accounts. Times are minutes, and
-- `ticket_id`, a piece of a SHA-256, is an argument.
pub mod Completeness
use Prim.Native.String.{◌++◌ as str_append}
use sentinel_grc.Prelude.{
  ℕ, ◌+◌, ◌*◌, Bool, true, false, not, String, Option, none, some, List, [], ◌∷◌, ◌++◌,
  if◌then◌else◌, ◌==◌, string_eq,
}
use sentinel_grc.Prelude.Attempt.{Attempt, failed, done, ◌>>=◌, given}
use sentinel_grc.Records.Control.{Json, text, null, Result}
use sentinel_grc.Remediation
use sentinel_grc.Remediation.{Asset, Finding, Queue}

pub record Sla : Type 0 where
  pub response_minutes : ℕ
  pub resolution_hours : ℕ

pub record TicketAsset : Type 0 where
  pub asset_id : Json
  pub hostname : Json
  pub business_service : Json
  pub criticality : Json

pub record Ticket : Type 0 where
  pub ticket_id : String
  pub source : String
  pub title : String
  pub priority : String
  pub owner : String
  pub status : String
  pub created_at : ℕ
  pub response_due_at : ℕ
  pub resolution_due_at : ℕ
  pub asset : TicketAsset
  pub evidence_ref : String
  pub auto_remediation : Bool

-- A user in an access review.
pub record Account : Type 0 where
  pub sam_account_name : String
  pub stale : Bool
  pub privileged : Bool
  pub enabled : Bool

pub record Review : Type 0 where
  pub users : List Account
  pub reviewed_at : Option String

pub data Error : Type 0 where
  unknown_priority : Error

-- SLA
unfoldable pub sla : String → Option Sla
sla p =
    if p == "critical"
    then some (record { response_minutes = 15; resolution_hours = 4 })
    else if p == "high"
    then some (record { response_minutes = 30; resolution_hours = 8 })
    else if p == "medium"
    then some (record { response_minutes = 240; resolution_hours = 24 })
    else if p == "low"
    then some (record { response_minutes = 480; resolution_hours = 72 })
    else none

-- `make_ticket`
unfoldable pub make_ticket :
    (String → String)
    → String
    → String
    → String
    → String
    → String
    → TicketAsset
    → ℕ
    → Attempt Error Ticket
make_ticket ticket_id source title priority owner evidence_ref asset created =
    given (sla priority) unknown_priority >>= λ limits. done (record {
      ticket_id = ticket_id source;
      source = source;
      title = title;
      priority = priority;
      owner = owner;
      status = "open";
      created_at = created;
      response_due_at = created + limits.response_minutes;
      resolution_due_at = created + 60 * limits.resolution_hours;
      asset = asset;
      evidence_ref = evidence_ref;
      auto_remediation = false;
    })

abbrev pub ticket_asset : Asset → TicketAsset
ticket_asset a = record {
  asset_id = text a.asset_id;
  hostname = a.hostname;
  business_service = a.business_service;
  criticality = a.criticality;
}

abbrev pub finding_ticket : (String → String) → ℕ → Finding → Attempt Error Ticket
finding_ticket ticket_id created f =
    make_ticket ticket_id f.finding_id (str_append "Remediate control: " f.control.control_name)
      f.control.severity f.control.owner f.finding_id (ticket_asset f.asset) created

-- The loop over the findings.
unfoldable pub finding_tickets : (String → String) → ℕ → List Finding → Attempt Error (List Ticket)
finding_tickets ticket_id created [] = done []
finding_tickets ticket_id created (f ∷ fs) =
    let rest = finding_tickets ticket_id created fs in
    if f.status == "open"
    then (finding_ticket ticket_id created f >>= λ t. rest >>= λ ts. done (t ∷ ts))
    else rest

abbrev pub identity_asset : String → TicketAsset
identity_asset priority = record {
  asset_id = null;
  hostname = null;
  business_service = text "Identity";
  criticality = text priority;
}

abbrev pub formatted : Option String → String
formatted none = "None"
formatted (some s) = s

abbrev pub account_source : Account → Option String → String
account_source u reviewed_at =
    str_append "AD:" (str_append u.sam_account_name (str_append ":" (formatted reviewed_at)))

abbrev pub account_ticket :
    (String → String) → ℕ → Option String → Account → String → String → Attempt Error Ticket
account_ticket ticket_id created reviewed_at u priority title =
    make_ticket ticket_id (account_source u reviewed_at) title priority "Identity Governance"
      (account_source u reviewed_at) (identity_asset priority) created

-- The priority and the title for an account, if it gets a ticket.
abbrev pub account_case : Account → Option (String × String)
account_case u =
    if u.stale
    then if u.privileged
      then some ("critical", str_append "Review stale privileged account: " u.sam_account_name)
      else if u.enabled
      then some ("high", str_append "Review stale enabled account: " u.sam_account_name)
      else none
    else none

abbrev pub with_ticket :
    (String → String)
    → ℕ
    → Option String
    → Account
    → Option (String × String)
    → Attempt Error (List Ticket)
    → Attempt Error (List Ticket)
with_ticket ticket_id created reviewed_at u none rest = rest
with_ticket ticket_id created reviewed_at u (some (priority, title)) rest =
    account_ticket ticket_id created reviewed_at u priority title >>= λ t.
    rest >>= λ ts. done (t ∷ ts)

-- The loop over the users of the review.
unfoldable pub account_tickets :
    (String → String) → ℕ → Option String → List Account → Attempt Error (List Ticket)
account_tickets ticket_id created reviewed_at [] = done []
account_tickets ticket_id created reviewed_at (u ∷ us) =
    with_ticket ticket_id created reviewed_at u (account_case u)
      (account_tickets ticket_id created reviewed_at us)

-- `generate_tickets`, its tickets
unfoldable pub generate_tickets :
    (String → String) → Queue → Review → ℕ → Attempt Error (List Ticket)
generate_tickets ticket_id q review created =
    finding_tickets ticket_id created q.findings >>= λ first.
    account_tickets ticket_id created review.reviewed_at review.users >>= λ second.
    done (first ++ second)
