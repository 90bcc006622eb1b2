-- ===== src/Governance/Commits/Registration.antt =====
-- `create_finding` and `upsert_finding` leave a database that commits lead to, and so does any
-- sequence of calls of the methods.
use sentinel_grc.Prelude.{Bool, String, ◌≡◌, Option, List, [], ◌∷◌}
use sentinel_grc.Governance.Types.{admin, analyst}
use sentinel_grc.Governance.Rows.{Actor, Finding, Db}
use sentinel_grc.Governance.Exec.{
  Library, Fresh, Result, ok, err, Value, already_exists, >>=-eq-ok, EvidenceStore,
}
use sentinel_grc.Governance.Method.{Exec, transaction, ◌>>◌}
use sentinel_grc.Governance.Validate.{require}
use sentinel_grc.Governance.Mutate.{get_finding}
use sentinel_grc.Governance.Intake.{NewFinding, Valid, validate, create_body, reassess_body}
use sentinel_grc.Governance.Registry.{create_finding, upsert_finding, revalidated, or_reassess}
use sentinel_grc.Governance.Submission.{Content, submit_evidence}
use sentinel_grc.Governance.Lifecycle.{
  assess_risk, propose_treatment, approve_treatment, start_action, verify, close,
}
use sentinel_grc.Governance.Commits.{HasRole, Reach, here, next, create, reassess}
use sentinel_grc.Governance.Commits.Methods.{
  Leads, lift-Leads, transaction-Leads, check-ok, assess_risk-Leads, propose_treatment-Leads,
  approve_treatment-Leads, start_action-Leads, verify-Leads, close-Leads, submit_evidence-Leads,
}

pub Reach-trans : {lib : Library} {a b c : Db} → Reach lib a b → Reach lib b c → Reach lib a c
Reach-trans r here = r
Reach-trans r (next s c) = next (Reach-trans r s) c

validate-role :
    (new : NewFinding) (actor : Actor) (v : Valid)
    → validate new actor ≡ ok v
    → HasRole actor (admin ∷ analyst ∷ [])
unfolding validate require
validate-role new actor v h = let (u, allowed, _) = >>=-eq-ok _ _ h in check-ok _ _ u allowed

module _ (lib : Library) (fresh : Fresh) (actor : Actor) (db : Db) where
  pub create_finding-Leads : (new : NewFinding) → Leads lib db (create_finding lib fresh new actor)
  unfolding create_finding
  create_finding-Leads new = lift-Leads _ _ λ v valid.
      transaction-Leads (create_body lib fresh v actor) v.finding_id
        λ db' e. create fresh v actor (validate-role new actor v valid) e

module _ (lib : Library) (fresh fresh' : Fresh) (actor : Actor) (db : Db) where
  or_reassess-Reach :
      (again : Exec Finding) (mid : Db) (r : Result Finding)
      → Reach lib db mid
      → Leads lib mid again
      → Reach lib db (or_reassess again r mid).1
  or_reassess-Reach again mid (ok f) h g = h
  or_reassess-Reach again mid (err already_exists) h g = Reach-trans h g.at
  or_reassess-Reach again mid (err e) h g = h

  pub upsert_finding-Leads :
      (new : NewFinding) → Leads lib db (upsert_finding lib fresh fresh' new actor)
  unfolding upsert_finding
  upsert_finding-Leads new = lift-Leads _ _ λ v valid. record {
    at =
        let again : Exec Finding =
          transaction (reassess_body lib fresh' v actor) >> get_finding v.finding_id in
        let (r, mid) = create_finding lib fresh (revalidated v) actor db in
        or_reassess-Reach again mid r (create_finding-Leads lib fresh actor db (revalidated v)).at (
          transaction-Leads (reassess_body lib fresh' v actor) v.finding_id
            λ db' e. reassess fresh' v actor (validate-role new actor v valid) e);
  }

-- A call of a method that writes.
pub data Call : Type 0 where
  create_call : Fresh → NewFinding → Actor → Call
  upsert_call : Fresh → Fresh → NewFinding → Actor → Call
  assess_call : Fresh → String → Actor → Value → Value → Call
  propose_call : Fresh → String → Actor → String → Value → Value → Option Value → Call
  approve_call : Fresh → String → Actor → String → String → Call
  start_call : Fresh → String → Actor → Value → Call
  submit_call : EvidenceStore → Fresh → String → Actor → Value → Content → Call
  verify_call : Fresh → String → Actor → Bool → String → Call
  close_call : Fresh → String → Actor → String → Call

abbrev pub perform : Library → Call → Exec Finding
perform lib (create_call fresh new actor) = create_finding lib fresh new actor
perform lib (upsert_call fresh fresh' new actor) = upsert_finding lib fresh fresh' new actor
perform lib (assess_call fresh k actor l i) = assess_risk lib fresh k actor l i
perform lib (propose_call fresh k actor t r o d) = propose_treatment lib fresh k actor t r o d
perform lib (approve_call fresh k actor d r) = approve_treatment lib fresh k actor d r
perform lib (start_call fresh k actor who) = start_action lib fresh k actor who
perform lib (submit_call store fresh k actor s c) = submit_evidence lib store fresh k actor s c
perform lib (verify_call fresh k actor passed notes) = verify lib fresh k actor passed notes
perform lib (close_call fresh k actor reason) = close lib fresh k actor reason

-- The database after some calls; a raise ends only its own call.
unfoldable pub run : Library → List Call → Db → Db
run lib [] db = db
run lib (c ∷ cs) db = run lib cs (perform lib c db).1

perform-Leads : (lib : Library) (c : Call) (db : Db) → Leads lib db (perform lib c)
perform-Leads lib (create_call fresh new actor) db = create_finding-Leads lib fresh actor db new
perform-Leads lib (upsert_call fresh fresh' new actor) db =
    upsert_finding-Leads lib fresh fresh' actor db new
perform-Leads lib (assess_call fresh k actor l i) db = assess_risk-Leads lib fresh k actor db l i
perform-Leads lib (propose_call fresh k actor t r o d) db =
    propose_treatment-Leads lib fresh k actor db t r o d
perform-Leads lib (approve_call fresh k actor d r) db =
    approve_treatment-Leads lib fresh k actor db d r
perform-Leads lib (start_call fresh k actor who) db = start_action-Leads lib fresh k actor db who
perform-Leads lib (submit_call store fresh k actor s c) db =
    submit_evidence-Leads lib fresh k actor db store s c
perform-Leads lib (verify_call fresh k actor passed notes) db =
    verify-Leads lib fresh k actor db passed notes
perform-Leads lib (close_call fresh k actor reason) db = close-Leads lib fresh k actor db reason

-- Any calls of the nine methods, with any arguments and raising or not, leave a database that a
-- history of commits reaches: each one a whole transaction by an actor whose role may do it, a decision
-- by someone other than the risk owner, a verification by someone who is not involved.
pub run-Reach : (lib : Library) (cs : List Call) (db : Db) → Reach lib db (run lib cs db)
unfolding run
run-Reach lib [] db = here
run-Reach lib (c ∷ cs) db =
    Reach-trans (perform-Leads lib c db).at (run-Reach lib cs (perform lib c db).1)
