-- ===== src/Governance/Commits/Methods.antt =====
-- Every method of governance_core.py, raising or not, leaves a database that commits lead to.
use sentinel_grc.Prelude.{
  Bool, false, true, String, ◌≡◌, refl, Option, none, some, ◌==◌, string_eq, not, arith, ◌&&◌,
  Bool-cases, Option-cases, inl, inr, any,
}
use sentinel_grc.Governance.Rows.{Actor, Finding, Db}
use sentinel_grc.Governance.Exec.{
  Library, Fresh, Result, ok, err, Value, Stored, Error, check, >>=-eq-ok, EvidenceStore,
}
use sentinel_grc.Governance.Method.{Exec, continue, commit_result, transaction, lift, ◌>>=◌, ◌>>◌}
use sentinel_grc.Governance.Validate.{require}
use sentinel_grc.Governance.Mutate.{find_finding, mutate_body, get_finding, mutate, Transition}
use sentinel_grc.Governance.Lifecycle.{
  assess_risk, propose_treatment, approve_treatment, start_action, verify, close,
}
use sentinel_grc.Governance.Types.{status_eq, in_progress, pending_verification}
use sentinel_grc.Governance.Submission.{
  Prepared, Content, is_same_evidence, persist_checked, evidence_body, finish_evidence, submit_for,
  submit_evidence,
}
use sentinel_grc.Governance.Commits.{
  HasRole, operators, Reach, here, next, Commit, submit, move, Move, assess, propose, decide, begin,
  attest, finish,
}

-- Run at `db`, the method leaves a database that commits lead to.
pub record Leads {A : Type 0} (lib : Library) (db : Db) (m : Exec A) : Type 0 where
  pub at : Reach lib db (m db).1

module _ {lib : Library} {db : Db} where
  -- the rest of a method, after a computation that did not write
  pub lift-Leads :
      {A B : Type 0} (r : Result A) (f : A → Exec B)
      → ((a : A) → r ≡ ok a → Leads lib db (f a))
      → Leads lib db (lift r >>= f)
  unfolding ◌>>=◌
  lift-Leads (ok a) f h = record { at = (h a refl).at }
  lift-Leads (err e) f h = record { at = here }

  found-Leads :
      {B : Type 0} (k : String) (f : Finding → Exec B)
      → ((a : Finding) → find_finding k db ≡ some a → Leads lib db (f a))
      → Leads lib db (get_finding k >>= f)
  unfolding ◌>>=◌ get_finding
  found-Leads k f h = elim (Option-cases (find_finding k db)) [
    | inl missing ↦ record { at = rw missing here }
    | inr (a, e) ↦ record { at = rw e (h a e).at }
  ]

  pub transaction-Leads :
      (body : Db → Result Db) (k : String)
      → ((db' : Db) → body db ≡ ok db' → Commit lib db db')
      → Leads lib db (transaction body >> get_finding k)
  unfolding ◌>>=◌ get_finding transaction
  transaction-Leads body k h = record { at = go (body db) h }
    where
      go :
          (r : Result Db)
          → ((db' : Db) → r ≡ ok db' → Commit lib db db')
          → Reach lib db
              (let (done, now) = commit_result r db in continue done (λ _. get_finding k) now).1
      go (ok db') h' = next here (h' db' refl)
      go (err e) h' = here

  mutate-Leads :
      (fresh : Fresh) (k : String) (actor : Actor) (t : Transition)
      → Move db fresh k actor t
      → Leads lib db (mutate lib fresh k actor t)
  unfolding mutate
  mutate-Leads fresh k actor t m =
      transaction-Leads (mutate_body lib fresh k actor t) k (λ db' e. move fresh k actor t m e)

pub check-ok : (b : Bool) (e : Error) (u : Unit {0}) → check b e ≡ ok u → b ≡ true
check-ok true e u h = refl
check-ok false e u h = cc

not-true : (b : Bool) → not b ≡ true → b ≡ false
not-true true h = cc
not-true false h = refl

module _ (lib : Library) (fresh : Fresh) (k : String) (actor : Actor) (db : Db) where
  pub assess_risk-Leads :
      (likelihood impact : Value) → Leads lib db (assess_risk lib fresh k actor likelihood impact)
  unfolding assess_risk require
  assess_risk-Leads likelihood impact = lift-Leads _ _ λ u allowed. lift-Leads _ _ λ l _.
      lift-Leads _ _ λ i _. found-Leads _ _ λ finding found.
        mutate-Leads fresh k actor _ (assess l i finding (check-ok _ _ u allowed) refl)

  pub approve_treatment-Leads :
      (decision reason : String)
      → Leads lib db (approve_treatment lib fresh k actor decision reason)
  unfolding approve_treatment require
  approve_treatment-Leads decision reason = lift-Leads _ _ λ u allowed. lift-Leads _ _ λ yea _.
      found-Leads _ _ λ finding found. lift-Leads _ _ λ w apart. mutate-Leads fresh k actor _ (
        decide yea decision reason finding (check-ok _ _ u allowed) found
          (not-true _ (check-ok _ _ w apart)) refl)

  pub propose_treatment-Leads :
      (type : String) (reason owner : Value) (day : Option Value)
      → Leads lib db (propose_treatment lib fresh k actor type reason owner day)
  unfolding propose_treatment require
  propose_treatment-Leads type reason owner day = lift-Leads _ _ λ u allowed. lift-Leads _ _ λ t _.
      lift-Leads _ _ λ why _. lift-Leads _ _ λ who _.
        lift-Leads _ _
          λ on _. mutate-Leads fresh k actor _ (propose t why who on (check-ok _ _ u allowed) refl)

  pub start_action-Leads :
      (implementer : Value) → Leads lib db (start_action lib fresh k actor implementer)
  unfolding start_action require
  start_action-Leads implementer = lift-Leads _ _ λ u allowed. lift-Leads _ _ λ who _.
      found-Leads _ _
        λ finding _. mutate-Leads fresh k actor _ (begin who finding (check-ok _ _ u allowed) refl)

  pub verify-Leads :
      (passed : Bool) (notes : String) → Leads lib db (verify lib fresh k actor passed notes)
  unfolding verify require
  verify-Leads passed notes = lift-Leads _ _ λ u allowed. found-Leads _ _ λ finding found.
      lift-Leads _ _ λ w apart. mutate-Leads fresh k actor _ (
        attest passed notes finding (check-ok _ _ u allowed) found
          (not-true _ (check-ok _ _ w apart)) refl)

  pub close-Leads : (reason : String) → Leads lib db (close lib fresh k actor reason)
  unfolding close require
  close-Leads reason = lift-Leads _ _ λ u allowed. found-Leads _ _ λ finding _.
      lift-Leads _ _
        λ w _. mutate-Leads fresh k actor _ (finish reason (check-ok _ _ u allowed) refl)

  finish_evidence-Reach :
      (r : Result (Option Db))
      → ((db' : Db) → r ≡ ok (some db') → Commit lib db db')
      → Reach lib db (finish_evidence k r db).1
  unfolding get_finding
  finish_evidence-Reach (ok (some db')) h = next here (h db' refl)
  finish_evidence-Reach (ok none) h = here
  finish_evidence-Reach (err e) h = here

  persist_checked-ok :
      (store : EvidenceStore) (p : Prepared) (stored : Stored)
      → persist_checked store p ≡ ok stored
      → (stored.sha256 == p.digest) ≡ true
  unfolding persist_checked
  persist_checked-ok store p stored h = ground arith

  submit_for-Leads :
      (store : EvidenceStore) (p : Prepared) (finding : Finding)
      → HasRole actor operators
      → Leads lib db (submit_for lib store fresh k actor p finding)
  unfolding submit_for
  submit_for-Leads store p finding allowed = elim (Bool-cases same) [
    | inl old ↦ record { at = rw old here }
    | inr new ↦ elim (Bool-cases (finding.status == in_progress)) [
      | inl going ↦ record { at = rw (new, going) (go (persist_checked store p) refl) }
      | inr stopped ↦ record { at = rw (new, stopped) here }
    ]
  ]
    where
      same : Bool
      same =
          finding.status == pending_verification
          && any (is_same_evidence k p.digest p.source actor.actor_id) db.evidence

      go :
          (r : Result Stored)
          → persist_checked store p ≡ r
          → Reach lib db
              (continue r
                (λ stored now. finish_evidence k (evidence_body lib fresh k actor p stored now) now)
                db).1
      go (ok stored) e =
          finish_evidence-Reach (evidence_body lib fresh k actor p stored db)
            λ db' d. submit fresh k actor p stored allowed (persist_checked-ok store p stored e) d
      go (err e') e = here

  pub submit_evidence-Leads :
      (store : EvidenceStore) (source : Value) (content : Content)
      → Leads lib db (submit_evidence lib store fresh k actor source content)
  unfolding submit_evidence require
  submit_evidence-Leads store source content = lift-Leads _ _ λ p checked.
      found-Leads _ _ λ finding _.
        submit_for-Leads store p finding
          (let (u, allowed, _) = >>=-eq-ok _ _ checked in check-ok _ _ u allowed)
