-- ===== src/Governance/Lifecycle.antt =====
-- governance_core.py: the methods that move a finding through its lifecycle.
use sentinel_grc.Prelude.{
  Bool, ◌||◌, String, Option, [], ◌∷◌, ◌==◌, string_eq, not, contains, opt_is,
}
use sentinel_grc.Governance.Types
use sentinel_grc.Governance.Types.{
  role_eq, status_eq, admin, analyst, approver, ciso, risk_committee, accepted, verified,
}
use sentinel_grc.Governance.Rows.{Actor, Finding}
use sentinel_grc.Governance.Exec.{
  Library, Fresh, Value, check, owner_approves, not_independent, not_closable,
}
use sentinel_grc.Governance.Validate.{
  require, required_text, identifier, risk_rating, due_date, treatment_of, decision_of,
  max_text_length,
}
use sentinel_grc.Governance.Method.{Exec, lift, ◌>>=◌, ◌>>◌}
use sentinel_grc.Governance.Mutate.{get_finding, mutate}
use sentinel_grc.Governance.Transitions.{
  assessment, proposal, approval, start, verification, closing,
}

-- `assess_risk`
unfoldable pub assess_risk : Library → Fresh → String → Actor → Value → Value → Exec Finding
assess_risk lib fresh k actor likelihood impact = do
  lift (require actor (Types.risk_owner ∷ analyst ∷ admin ∷ []))
  l ← lift (risk_rating likelihood)
  i ← lift (risk_rating impact)
  finding ← get_finding k
  mutate lib fresh k actor (assessment fresh k l i finding)

-- `propose_treatment`
unfoldable pub propose_treatment :
    Library → Fresh → String → Actor → String → Value → Value → Option Value → Exec Finding
propose_treatment lib fresh k actor treatment_type reason action_owner due = do
  lift (require actor (Types.risk_owner ∷ analyst ∷ admin ∷ []))
  type ← lift (treatment_of treatment_type)
  why ← lift (required_text reason max_text_length)
  owner ← lift (identifier action_owner)
  day ← lift (due_date lib due)
  mutate lib fresh k actor (proposal fresh k actor type why owner day)

-- `approve_treatment`
unfoldable pub approve_treatment : Library → Fresh → String → Actor → String → String → Exec Finding
approve_treatment lib fresh k actor decision reason = do
  lift (require actor (approver ∷ ciso ∷ risk_committee ∷ []))
  yea ← lift (decision_of decision)
  finding ← get_finding k
  lift (check (not (actor.actor_id == finding.risk_owner)) owner_approves)
  mutate lib fresh k actor (approval fresh k actor yea decision reason finding)

-- `start_action`
unfoldable pub start_action : Library → Fresh → String → Actor → Value → Exec Finding
start_action lib fresh k actor implementer = do
  lift (require actor (Types.risk_owner ∷ analyst ∷ admin ∷ []))
  who ← lift (identifier implementer)
  finding ← get_finding k
  mutate lib fresh k actor (start fresh k who finding)

-- `actor_id in {finding["implementer"], finding["evidence_submitter"]}`
abbrev pub is_involved : String → Finding → Bool
is_involved who f = opt_is f.implementer who || opt_is f.evidence_submitter who

-- `verify`
unfoldable pub verify : Library → Fresh → String → Actor → Bool → String → Exec Finding
verify lib fresh k actor passed notes = do
  lift (require actor (analyst ∷ approver ∷ ciso ∷ risk_committee ∷ []))
  finding ← get_finding k
  lift (check (not (is_involved actor.actor_id finding)) not_independent)
  mutate lib fresh k actor (verification fresh k actor passed notes)

-- `close`
unfoldable pub close : Library → Fresh → String → Actor → String → Exec Finding
close lib fresh k actor reason = do
  lift (require actor (approver ∷ ciso ∷ risk_committee ∷ []))
  finding ← get_finding k
  lift (check (contains (verified ∷ accepted ∷ []) finding.status) not_closable)
  mutate lib fresh k actor (closing fresh k actor reason)
