-- ===== src/Governance/Commits.antt =====
-- governance_core.py as a step relation: one step is one committed transaction, with what the method
-- that opened it had checked before. `Reach` is any sequence of them.
pub mod Methods
pub mod Findings
pub mod Evolution
pub mod Backing
pub mod Accountability
pub mod Writes
pub mod Emission
pub mod Registration
use sentinel_grc.Prelude.{
  Bool, false, true, String, ◌≡◌, Option, some, List, [], ◌∷◌, ◌==◌, string_eq, contains,
}
use sentinel_grc.Governance.Types
use sentinel_grc.Governance.Types.{
  Rating, Role, role_eq, Treatment, admin, analyst, approver, ciso, risk_committee,
}
use sentinel_grc.Governance.Rows.{Actor, Finding, Db}
use sentinel_grc.Governance.Exec.{Library, Fresh, Result, ok, Stored}
use sentinel_grc.Governance.Mutate.{find_finding, mutate_body, Transition}
use sentinel_grc.Governance.Transitions.{
  assessment, proposal, approval, start, verification, closing,
}
use sentinel_grc.Governance.Lifecycle.{is_involved}
use sentinel_grc.Governance.Intake.{Valid, create_body, reassess_body}
use sentinel_grc.Governance.Submission.{Prepared, evidence_body}

abbrev pub HasRole : Actor → List Role → Type 0
HasRole actor roles = contains roles actor.role ≡ true

abbrev pub operators : List Role
operators = Types.risk_owner ∷ analyst ∷ admin ∷ []

abbrev pub deciders : List Role
deciders = approver ∷ ciso ∷ risk_committee ∷ []

abbrev pub verifiers : List Role
verifiers = analyst ∷ approver ∷ ciso ∷ risk_committee ∷ []

-- The transitions that the methods pass to `_mutate`, with their checks.
pub data Move (db : Db) (fresh : Fresh) (k : String) (actor : Actor) (t : Transition) : Type 0 where
  assess :
      (l i : Rating) (finding : Finding)
      → HasRole actor operators
      → t ≡ assessment fresh k l i finding
      → Move db fresh k actor t
  propose :
      (type : Treatment) (why owner : String) (day : Option String)
      → HasRole actor operators
      → t ≡ proposal fresh k actor type why owner day
      → Move db fresh k actor t
  decide :
      (yea : Bool) (decision reason : String) (finding : Finding)
      → HasRole actor deciders
      → find_finding k db ≡ some finding
      → (actor.actor_id == finding.risk_owner) ≡ false
      → t ≡ approval fresh k actor yea decision reason finding
      → Move db fresh k actor t
  begin :
      (who : String) (finding : Finding)
      → HasRole actor operators
      → t ≡ start fresh k who finding
      → Move db fresh k actor t
  attest :
      (passed : Bool) (notes : String) (finding : Finding)
      → HasRole actor verifiers
      → find_finding k db ≡ some finding
      → is_involved actor.actor_id finding ≡ false
      → t ≡ verification fresh k actor passed notes
      → Move db fresh k actor t
  finish :
      (reason : String)
      → HasRole actor deciders
      → t ≡ closing fresh k actor reason
      → Move db fresh k actor t

pub data Commit (lib : Library) (db db' : Db) : Type 0 where
  create :
      (fresh : Fresh) (v : Valid) (actor : Actor)
      → HasRole actor (admin ∷ analyst ∷ [])
      → create_body lib fresh v actor db ≡ ok db'
      → Commit lib db db'
  reassess :
      (fresh : Fresh) (v : Valid) (actor : Actor)
      → HasRole actor (admin ∷ analyst ∷ [])
      → reassess_body lib fresh v actor db ≡ ok db'
      → Commit lib db db'
  submit :
      (fresh : Fresh) (k : String) (actor : Actor) (p : Prepared) (stored : Stored)
      → HasRole actor operators
      → (stored.sha256 == p.digest) ≡ true
      → evidence_body lib fresh k actor p stored db ≡ ok (some db')
      → Commit lib db db'
  move :
      (fresh : Fresh) (k : String) (actor : Actor) (t : Transition)
      → Move db fresh k actor t
      → mutate_body lib fresh k actor t db ≡ ok db'
      → Commit lib db db'

pub data Reach (lib : Library) (db : Db) : Db → Type 0 where
  here : Reach lib db db
  next : {mid db' : Db} → Reach lib db mid → Commit lib mid db' → Reach lib db db'
