-- ===== src/Governance/Tests.antt =====
-- A finding's way through the registry, run step by step, and the theorems at that run.
use mathlib.Core.Bool.{true}
use sentinel_grc.Prelude.{ℕ, String, ◌≡◌, refl, Option, none, some, List, [], ◌∷◌, ◌++◌, arith, map}
use sentinel_grc.Governance.Types
use sentinel_grc.Governance.Types.{Status}
use sentinel_grc.Governance.Rows.{Actor, Finding, Db}
use sentinel_grc.Governance.Exec.{Library, Fresh, EvidenceStore, text, err, owner_approves}
use sentinel_grc.Governance.Intake.{NewFinding}
use sentinel_grc.Governance.Submission.{Content}
use sentinel_grc.Governance.Mutate.{find_finding}
use sentinel_grc.Governance.Chain.{verify_event_chain}
use sentinel_grc.Governance.Chain.Invariant.{run-verifies}
use sentinel_grc.Governance.Commits.{Reach}
use sentinel_grc.Governance.Commits.Backing.{is_backed}
use sentinel_grc.Governance.Commits.Accountability.{IsAccountable, run-is_backed}
use sentinel_grc.Governance.Commits.Evolution.{Continues, run-Continues}
use sentinel_grc.Governance.Commits.Emission.{IsMirrored, run-IsMirrored}
use sentinel_grc.Governance.Commits.Registration.{
  Call, create_call, upsert_call, assess_call, propose_call, approve_call, start_call, submit_call,
  verify_call, close_call, perform, run, run-Reach,
}

abbrev lib : Library
lib = record {
  event_digest = λ previous body. body.event_type;
  content_digest = λ raw. "d1";
  is_iso_date = λ s. true;
}

abbrev fresh_at : ℕ → String → Fresh
fresh_at t id = record {
  now = t;
  later = t;
  row_id = id;
  event_id = id;
  outbox_id = id;
  export_id = id;
}

abbrev ann : Actor
ann = record { actor_id = "ann"; role = Types.analyst; auth_method = "password" }

abbrev bob : Actor
bob = record { actor_id = "bob"; role = Types.approver; auth_method = "password" }

abbrev cat : Actor
cat = record { actor_id = "cat"; role = Types.ciso; auth_method = "password" }

abbrev store : EvidenceStore
store raw = some (record { object_key = "o"; sha256 = "d1"; size_bytes = 3; etag = "" })

abbrev new_f1 : NewFinding
new_f1 = record {
  finding_id = text "F-1";
  control_id = text "CC6";
  asset_id = text "db";
  title = text " Open port ";
  risk_owner = text "olga";
  severity = text "high";
}

abbrev empty_db : Db
empty_db = record {
  findings = [];
  risks = [];
  treatments = [];
  approvals = [];
  actions = [];
  evidence = [];
  verifications = [];
  closures = [];
  events = [];
  outbox = [];
  exports = [];
}

abbrev to_proposal : List Call
to_proposal =
    create_call (fresh_at 1 "1") new_f1 ann
    ∷ assess_call (fresh_at 2 "2") "F-1" ann (text "high") (text "low")
    ∷ propose_call (fresh_at 3 "3") "F-1" ann "mitigate" (text "patch") (text "dan") none
    ∷ []

abbrev to_approval : List Call
to_approval = to_proposal ++ approve_call (fresh_at 4 "4") "F-1" bob "approved" "ok" ∷ []

-- The approver verifies the work of `dan`, and `cat` closes it.
abbrev to_closure : List Call
to_closure =
    start_call (fresh_at 5 "5") "F-1" ann (text "dan")
    ∷ submit_call store (fresh_at 6 "6") "F-1" ann (text "scan") (Content.text "abc")
    ∷ verify_call (fresh_at 7 "7") "F-1" bob true "good"
    ∷ close_call (fresh_at 8 "8") "F-1" cat "done"
    ∷ []

abbrev statuses : Db → List Status
statuses db = map (λ f. f.status) db.findings

abbrev story : List Call
story = to_approval ++ to_closure

-- The risk owner, who may not approve.
abbrev olga : Actor
olga = record { actor_id = "olga"; role = Types.approver; auth_method = "password" }

-- The same finding twice.
abbrev scan_again : List Call
scan_again =
    upsert_call (fresh_at 1 "1") (fresh_at 2 "2") new_f1 ann
    ∷ upsert_call (fresh_at 3 "3") (fresh_at 4 "4") new_f1 ann
    ∷ []

abbrev closed_f1 : Finding
closed_f1 = record {
  finding_id = "F-1";
  control_id = "CC6";
  asset_id = "db";
  title = "Open port";
  risk_owner = "olga";
  severity = Types.high;
  status = Types.closed;
  treatment_type = some Types.mitigate;
  treatment_reason = some "patch";
  due_date = none;
  action_owner = some "dan";
  implementer = some "dan";
  evidence_submitter = some "ann";
  created_at = 1;
  updated_at = 8;
}

abbrev approved_f1 : Finding
approved_f1 = record closed_f1 {
  status = Types.approved;
  implementer = none;
  evidence_submitter = none;
  updated_at = 4;
}

-- The approval, the closure, a refusal of the risk owner's own approval, and a second scan.
runs :
    (statuses (run lib to_approval empty_db) ≡ Types.approved ∷ [])
    × (find_finding "F-1" (run lib to_approval empty_db) ≡ some approved_f1)
    × (find_finding "F-1" (run lib story empty_db) ≡ some closed_f1)
    × ((perform lib
          (approve_call (fresh_at 4 "4") "F-1" olga "approved" "ok")
          (run lib to_proposal empty_db)).0
        ≡ err owner_approves)
    × (map (λ e. e.event_type) (run lib scan_again empty_db).events
        ≡ "finding_created" ∷ "finding_reassessed" ∷ [])
unfolding sentinel_grc.Governance.Lifecycle.assess_risk
    sentinel_grc.Governance.Lifecycle.propose_treatment
    sentinel_grc.Governance.Lifecycle.approve_treatment
    sentinel_grc.Governance.Lifecycle.start_action sentinel_grc.Governance.Lifecycle.verify
    sentinel_grc.Governance.Lifecycle.close sentinel_grc.Governance.Method.◌>>=◌
    sentinel_grc.Governance.Method.lift sentinel_grc.Governance.Method.transaction
    sentinel_grc.Governance.Validate.require sentinel_grc.Governance.Validate.decision_of
    sentinel_grc.Governance.Validate.treatment_of sentinel_grc.Governance.Validate.required_text
    sentinel_grc.Governance.Validate.identifier sentinel_grc.Governance.Validate.due_date
    sentinel_grc.Governance.Validate.risk_rating sentinel_grc.Governance.Validate.severity
    sentinel_grc.Governance.Validate.is_blank sentinel_grc.Governance.Validate.rating_of
    sentinel_grc.Governance.Mutate.get_finding sentinel_grc.Governance.Mutate.mutate
    sentinel_grc.Governance.Mutate.mutate_body sentinel_grc.Governance.Mutate.run_workflow
    sentinel_grc.Governance.Events.latest sentinel_grc.Governance.Events.next_event
    sentinel_grc.Governance.Events.record_event sentinel_grc.Governance.Intake.create_body
    sentinel_grc.Governance.Intake.reassess_body sentinel_grc.Governance.Intake.validate
    sentinel_grc.Governance.Registry.create_finding sentinel_grc.Governance.Registry.upsert_finding
    sentinel_grc.Governance.Submission.encode sentinel_grc.Governance.Submission.evidence_body
    sentinel_grc.Governance.Submission.evidence_write
    sentinel_grc.Governance.Submission.persist_checked
    sentinel_grc.Governance.Submission.prepare_evidence sentinel_grc.Governance.Submission.raw_of
    sentinel_grc.Governance.Submission.submit_evidence sentinel_grc.Governance.Submission.submit_for
    sentinel_grc.Governance.Submission.utf8 sentinel_grc.Governance.Types.rating_word
    sentinel_grc.Prelude.Text.is_space sentinel_grc.Prelude.Text.lower
    sentinel_grc.Prelude.Text.lower_is sentinel_grc.Prelude.Text.lstrip
    sentinel_grc.Prelude.Text.rstrip sentinel_grc.Prelude.Text.strip
    sentinel_grc.Prelude.Text.length sentinel_grc.Governance.Chain.chain_holds
    sentinel_grc.Governance.Chain.verify_event_chain
    sentinel_grc.Governance.Commits.Registration.run
runs = (refl, refl, refl, refl, refl)

empty-IsAccountable : IsAccountable empty_db
empty-IsAccountable k f h = absurd (cc)

run-verifies_example : verify_event_chain lib "F-1" (run lib story empty_db) ≡ true
run-verifies_example = run-verifies lib story empty_db "F-1" (λ k. tt)

run-is_backed_example : is_backed (run lib story empty_db) closed_f1 ≡ true
run-is_backed_example = run-is_backed lib story empty_db "F-1" closed_f1 empty-IsAccountable runs.2

run-IsMirrored_example : IsMirrored (run lib story empty_db)
run-IsMirrored_example = run-IsMirrored lib story empty_db (refl, refl)

run-Reach_example : Reach lib empty_db (run lib story empty_db)
run-Reach_example = run-Reach lib story empty_db

run-Continues_example :
    (f' : Finding) × (find_finding "F-1" (run lib to_closure (run lib to_approval empty_db))
      ≡ some f')
    × Continues approved_f1 f'
run-Continues_example =
    run-Continues lib to_closure (run lib to_approval empty_db) "F-1" approved_f1 runs.1
