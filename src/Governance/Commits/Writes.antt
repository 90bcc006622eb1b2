-- ===== src/Governance/Commits/Writes.antt =====
-- governance_core.py: what each committed transaction had read, and what it wrote.
use sentinel_grc.Prelude.{
  ℕ, Bool, true, false, String, ◌≡◌, refl, ◌∙◌, ap, if◌then◌else◌, ◌==◌, string_eq, ◌&&◌, Option,
  none, some, [], ◌∷◌, ◌++◌, arith, not, any, contains, update,
}
use sentinel_grc.Governance.Types.{status_eq, status_beq_iff, in_progress, pending_verification}
use sentinel_grc.Governance.Rows.{Actor, Finding, Event, Details, Db}
use sentinel_grc.Governance.Exec.{
  Library, Fresh, Error, Result, ok, err, integrity, >>=-eq-ok, Stored, check, or_raise, ◌>>=◌,
  ◌>>◌, cannot_transition,
}
use sentinel_grc.Governance.Events.{next_event, notice_of, record_event}
use sentinel_grc.Governance.Mutate.{
  Workflow, risk_record, risk_treatment, run_workflow, mutate_body, Transition, find_finding,
  has_id, set_status,
}
use sentinel_grc.Governance.Intake.{
  Valid, create_body, reassess_body, integrity_as_duplicate, new_row, identity_details,
  reassess as reassessed,
}
use sentinel_grc.Governance.Submission.{
  Prepared, evidence_body, evidence_write, is_same_evidence, submitted, evidence_row,
  evidence_details,
}

-- A successful `_event` appends, and leaves the other tables alone.
pub record_event-ok :
    (lib : Library) (fresh : Fresh) (k ty : String) (actor : Actor) (details : Details) (now : ℕ)
    (db db' : Db)
    → record_event lib fresh k ty actor details now db ≡ ok db'
    → let e = next_event lib fresh k ty actor details now db.events in
      db' ≡ record db {
        events = db.events ++ e ∷ [];
        outbox = db.outbox ++ notice_of fresh.outbox_id e ∷ [];
        exports = db.exports ++ notice_of fresh.export_id e ∷ [];
      }
unfolding record_event
record_event-ok lib fresh k ty actor details now db db' h = ground arith

-- A workflow row goes into a table of its own.
pub run_workflow-ok :
    (w : Workflow) (db db' : Db)
    → run_workflow w db ≡ ok db'
    → (db'.findings ≡ db.findings)
      × (db'.evidence ≡ db.evidence)
      × (db'.events ≡ db.events)
      × (db'.outbox ≡ db.outbox)
      × (db'.exports ≡ db.exports)
unfolding run_workflow
run_workflow-ok (risk_record r) db db' h = ground arith
run_workflow-ok (risk_treatment r) db db' h = ground arith
run_workflow-ok _ db db' h = ground arith

abbrev pub Appended :
    (lib : Library) (fresh : Fresh) (k ty : String) (actor : Actor) (details : Details) (now : ℕ)
    → Db
    → Db
    → Type 0
Appended lib fresh k ty actor details now db db' =
    let e = next_event lib fresh k ty actor details now db.events in
    (db'.events ≡ db.events ++ e ∷ [])
    × (db'.outbox ≡ db.outbox ++ notice_of fresh.outbox_id e ∷ [])
    × (db'.exports ≡ db.exports ++ notice_of fresh.export_id e ∷ [])

-- What a committed `_mutate` read and wrote.
pub record Mutated (lib : Library) (fresh : Fresh) (k : String) (actor : Actor) (t : Transition)
    (db db' : Db) : Type 0 where
  pub row : Finding
  pub found : find_finding k db ≡ some row
  pub was_allowed : contains t.allowed row.status ≡ true
  pub findings :
      db'.findings ≡ update (has_id k) (set_status t.new_status fresh.now t.updates) db.findings
  pub evidence : db'.evidence ≡ db.evidence
  pub appended : Appended lib fresh k t.event_type actor t.details fresh.now db db'
  pub recorded : Db
  pub recorded_verifications : recorded.verifications ≡ db.verifications
  pub recorded_approvals : recorded.approvals ≡ db.approvals
  pub ran : run_workflow t.workflow recorded ≡ ok db'

or_raise-ok : {A : Type 0} (o : Option A) (e : Error) (a : A) → or_raise o e ≡ ok a → o ≡ some a
or_raise-ok none e a h = cc
or_raise-ok (some b) e a h = cc

not-true : (b : Bool) → not b ≡ true → b ≡ false
not-true true h = cc
not-true false h = refl

check-ok : (b : Bool) (e : Error) (u : Unit {0}) → check b e ≡ ok u → b ≡ true
check-ok true e u h = refl
check-ok false e u h = cc

pub mutate_body-ok :
    (lib : Library) (fresh : Fresh) (k : String) (actor : Actor) (t : Transition) (db db' : Db)
    → mutate_body lib fresh k actor t db ≡ ok db'
    → Mutated lib fresh k actor t db db'
unfolding mutate_body
mutate_body-ok lib fresh k actor t db db' h =
    let (row, found, h₁) = >>=-eq-ok _ _ h in
    let (u, allowed, h₂) = >>=-eq-ok _ _ h₁ in
    let (recorded, rec, ran) = >>=-eq-ok _ _ h₂ in
    let shape = record_event-ok lib fresh k t.event_type actor t.details fresh.now _ recorded rec in
    let kept = run_workflow-ok t.workflow recorded db' ran in
    record {
      row = row;
      found = or_raise-ok _ _ _ found;
      was_allowed = check-ok _ _ u allowed;
      findings = kept.0 ∙ ap (λ (d : Db). d.findings) shape;
      evidence = kept.1 ∙ ap (λ (d : Db). d.evidence) shape;
      appended = (
        kept.2 ∙ ap (λ (d : Db). d.events) shape,
        kept.3 ∙ ap (λ (d : Db). d.outbox) shape,
        kept.4 ∙ ap (λ (d : Db). d.exports) shape,
      );
      recorded = recorded;
      recorded_verifications = ap (λ (d : Db). d.verifications) shape;
      recorded_approvals = ap (λ (d : Db). d.approvals) shape;
      ran = ran;
    }

-- What a committed `create_finding` wrote.
pub record Created (lib : Library) (fresh : Fresh) (v : Valid) (actor : Actor) (db db' : Db)
    : Type 0 where
  pub unknown : any (has_id v.finding_id) db.findings ≡ false
  pub findings : db'.findings ≡ db.findings ++ new_row v fresh ∷ []
  pub others :
      (db'.evidence ≡ db.evidence)
      × (db'.verifications ≡ db.verifications)
      × (db'.approvals ≡ db.approvals)
  pub appended :
      Appended lib fresh v.finding_id "finding_created" actor (identity_details v) fresh.now db db'

integrity_as_duplicate-ok :
    (r : Result Db) (db' : Db) → integrity_as_duplicate r ≡ ok db' → r ≡ ok db'
integrity_as_duplicate-ok (ok d) db' h = h
integrity_as_duplicate-ok (err integrity) db' h = cc
integrity_as_duplicate-ok (err e) db' h = cc

pub create_body-ok :
    (lib : Library) (fresh : Fresh) (v : Valid) (actor : Actor) (db db' : Db)
    → create_body lib fresh v actor db ≡ ok db'
    → Created lib fresh v actor db db'
unfolding create_body
create_body-ok lib fresh v actor db db' h =
    let (u, new, rec) = >>=-eq-ok _ _ (integrity_as_duplicate-ok _ db' h) in
    let shape =
      record_event-ok lib fresh v.finding_id "finding_created" actor (identity_details v) fresh.now
        _ db' rec in
    record {
      unknown = not-true _ (check-ok _ _ u new);
      findings = ap (λ (d : Db). d.findings) shape;
      others = (
        ap (λ (d : Db). d.evidence) shape,
        ap (λ (d : Db). d.verifications) shape,
        ap (λ (d : Db). d.approvals) shape,
      );
      appended = (
        ap (λ (d : Db). d.events) shape,
        ap (λ (d : Db). d.outbox) shape,
        ap (λ (d : Db). d.exports) shape,
      );
    }

-- What the second transaction of `upsert_finding` read and wrote.
pub record Reassessed (lib : Library) (fresh : Fresh) (v : Valid) (actor : Actor) (db db' : Db)
    : Type 0 where
  pub row : Finding
  pub found : find_finding v.finding_id db ≡ some row
  pub same_identity : (row.control_id == v.control_id && row.asset_id == v.asset_id) ≡ true
  pub findings : db'.findings ≡ update (has_id v.finding_id) (reassessed v fresh.now) db.findings
  pub others :
      (db'.evidence ≡ db.evidence)
      × (db'.verifications ≡ db.verifications)
      × (db'.approvals ≡ db.approvals)
  pub appended :
      Appended lib fresh v.finding_id "finding_reassessed" actor
        (identity_details v)
        fresh.now
        db
        db'

pub reassess_body-ok :
    (lib : Library) (fresh : Fresh) (v : Valid) (actor : Actor) (db db' : Db)
    → reassess_body lib fresh v actor db ≡ ok db'
    → Reassessed lib fresh v actor db db'
unfolding reassess_body
reassess_body-ok lib fresh v actor db db' h =
    let (row, found, h₁) = >>=-eq-ok _ _ h in
    let (u, same, rec) = >>=-eq-ok _ _ h₁ in
    let shape =
      record_event-ok lib fresh v.finding_id "finding_reassessed" actor (identity_details v)
        fresh.now _ db' rec in
    record {
      row = row;
      found = or_raise-ok _ _ _ found;
      same_identity = check-ok _ _ u same;
      findings = ap (λ (d : Db). d.findings) shape;
      others = (
        ap (λ (d : Db). d.evidence) shape,
        ap (λ (d : Db). d.verifications) shape,
        ap (λ (d : Db). d.approvals) shape,
      );
      appended = (
        ap (λ (d : Db). d.events) shape,
        ap (λ (d : Db). d.outbox) shape,
        ap (λ (d : Db). d.exports) shape,
      );
    }

-- What a committed `_commit_evidence` read and wrote.
pub record Submitted (lib : Library) (fresh : Fresh) (k : String) (actor : Actor) (p : Prepared)
    (stored : Stored) (db db' : Db) : Type 0 where
  pub row : Finding
  pub found : find_finding k db ≡ some row
  pub was_in_progress : row.status ≡ in_progress
  pub findings : db'.findings ≡ update (has_id k) (submitted actor.actor_id fresh.now) db.findings
  pub evidence : db'.evidence ≡ db.evidence ++ evidence_row fresh k actor p.source stored ∷ []
  pub others : (db'.verifications ≡ db.verifications) × (db'.approvals ≡ db.approvals)
  pub appended :
      Appended lib fresh k "evidence_submitted" actor
        (evidence_details fresh p.source stored)
        fresh.now
        db
        db'

map_some-ok :
    (r : Result Db) (db' : Db) → (r >>= λ (d : Db). ok (some d)) ≡ ok (some db') → r ≡ ok db'
map_some-ok (ok d) db' h = cc
map_some-ok (err e) db' h = cc

-- Only the branch of a finding in progress commits.
committed_branch :
    (going same : Bool) (r : Result (Option Db)) (e : Error) (db' : Db)
    → (if going then r else if same then ok none else err e) ≡ ok (some db')
    → (going ≡ true) × (r ≡ ok (some db'))
committed_branch true same r e db' h = (refl, h)
committed_branch false same r e db' h = ground arith

check_bind-ok :
    (b : Bool) (e : Error) (m : Result Db) (db' : Db) → (check b e >> m) ≡ ok db' → m ≡ ok db'
check_bind-ok true e m db' h = h
check_bind-ok false e m db' h = cc

abbrev evidence_event : Library → Fresh → String → Actor → Prepared → Stored → Db → Event
evidence_event lib fresh k actor p stored db =
    next_event lib fresh k "evidence_submitted" actor (evidence_details fresh p.source stored)
      fresh.now db.events

evidence_write-ok :
    (lib : Library) (fresh : Fresh) (k : String) (actor : Actor) (p : Prepared) (stored : Stored)
    (db db' : Db)
    → evidence_write lib fresh k actor p stored db ≡ ok db'
    → db' ≡ record db {
      evidence = db.evidence ++ evidence_row fresh k actor p.source stored ∷ [];
      findings = update (has_id k) (submitted actor.actor_id fresh.now) db.findings;
      events = db.events ++ evidence_event lib fresh k actor p stored db ∷ [];
      outbox =
          db.outbox
          ++ notice_of fresh.outbox_id (evidence_event lib fresh k actor p stored db) ∷ [];
      exports =
          db.exports
          ++ notice_of fresh.export_id (evidence_event lib fresh k actor p stored db) ∷ [];
    }
unfolding evidence_write
evidence_write-ok lib fresh k actor p stored db db' h =
    record_event-ok lib fresh k "evidence_submitted" actor (evidence_details fresh p.source stored)
      fresh.now _ db'
      (check_bind-ok (not (any (λ x. x.evidence_id == fresh.row_id) db.evidence)) integrity _ db' h)

pub evidence_body-ok :
    (lib : Library) (fresh : Fresh) (k : String) (actor : Actor) (p : Prepared) (stored : Stored)
    (db db' : Db)
    → evidence_body lib fresh k actor p stored db ≡ ok (some db')
    → Submitted lib fresh k actor p stored db db'
unfolding evidence_body
evidence_body-ok lib fresh k actor p stored db db' h =
    let (row, found, h₁) = >>=-eq-ok _ _ h in
    let (going, h₂) =
      committed_branch (row.status == in_progress)
        (any (is_same_evidence k p.digest p.source actor.actor_id) db.evidence
          && row.status == pending_verification)
        (evidence_write lib fresh k actor p stored db >>= λ done. ok (some done))
        (cannot_transition row.status) db' h₁ in
    let shape = evidence_write-ok lib fresh k actor p stored db db' (map_some-ok _ db' h₂) in
    record {
      row = row;
      found = or_raise-ok _ _ _ found;
      was_in_progress = (status_beq_iff row.status in_progress).0 going;
      findings = ap (λ (d : Db). d.findings) shape;
      evidence = ap (λ (d : Db). d.evidence) shape;
      others = (ap (λ (d : Db). d.verifications) shape, ap (λ (d : Db). d.approvals) shape);
      appended = (
        ap (λ (d : Db). d.events) shape,
        ap (λ (d : Db). d.outbox) shape,
        ap (λ (d : Db). d.exports) shape,
      );
    }
