-- ===== src/Governance/Transitions.antt =====
-- governance_core.py: what each lifecycle method passes to `_mutate`.
use sentinel_grc.Prelude.{Bool, true, false, String, Option, some, [], ◌∷◌, if◌then◌else◌}
use sentinel_grc.Governance.Types
use sentinel_grc.Governance.Types.{
  Status, Treatment, Rating, accept, opened, rejected, pending_approval, approved, accepted,
  in_progress, pending_verification, verified, closed,
}
use sentinel_grc.Governance.Rows.{Actor, Finding, str, flag, rating, treatment}
use sentinel_grc.Governance.Exec.{Fresh}
use sentinel_grc.Governance.Mutate.{
  Transition, no_updates, treatment_updates, implementer_update, risk_record, risk_treatment,
  approval_record, action_item, verification_record, closure_record,
}

abbrev pub assessment : Fresh → String → Rating → Rating → Finding → Transition
assessment fresh k l i finding = record {
  event_type = "risk_assessed";
  new_status = Types.risk_assessed;
  details = ("likelihood", rating l) ∷ ("impact", rating i) ∷ [];
  updates = no_updates;
  allowed = opened ∷ rejected ∷ [];
  workflow = risk_record (record {
    risk_id = fresh.row_id;
    finding_id = k;
    likelihood = l;
    impact = i;
    owner = finding.risk_owner;
  });
}

abbrev pub proposal :
    Fresh → String → Actor → Treatment → String → String → Option String → Transition
proposal fresh k actor type why owner day = record {
  event_type = "treatment_proposed";
  new_status = pending_approval;
  details =
      ("treatment_type", treatment type) ∷ ("reason", str why) ∷ ("action_owner", str owner) ∷ [];
  updates = treatment_updates type why owner day;
  allowed = Types.risk_assessed ∷ [];
  workflow = risk_treatment (record {
    treatment_id = fresh.row_id;
    finding_id = k;
    treatment_type = type;
    reason = why;
    proposed_by = actor.actor_id;
  });
}

-- `_treatment_approval_status`
abbrev pub treatment_approval_status : Bool → Option Treatment → Status
treatment_approval_status false _ = Types.risk_assessed
treatment_approval_status true (some accept) = accepted
treatment_approval_status true _ = approved

abbrev pub approval : Fresh → String → Actor → Bool → String → String → Finding → Transition
approval fresh k actor yea decision reason finding = record {
  event_type = if yea then "treatment_approved" else "treatment_rejected";
  new_status = treatment_approval_status yea finding.treatment_type;
  details = ("decision", str decision) ∷ ("reason", str reason) ∷ [];
  updates = no_updates;
  allowed = pending_approval ∷ [];
  workflow = approval_record (record {
    approval_id = fresh.row_id;
    finding_id = k;
    is_approved = yea;
    actor_id = actor.actor_id;
    actor_role = actor.role;
    reason = reason;
  });
}

abbrev pub start : Fresh → String → String → Finding → Transition
start fresh k who finding = record {
  event_type = "action_started";
  new_status = in_progress;
  details = ("implementer", str who) ∷ [];
  updates = implementer_update who;
  allowed = approved ∷ [];
  workflow = action_item (record {
    action_id = fresh.row_id;
    finding_id = k;
    owner = finding.action_owner;
    implementer = who;
    due_date = finding.due_date;
  });
}

abbrev pub verification : Fresh → String → Actor → Bool → String → Transition
verification fresh k actor passed notes = record {
  event_type = if passed then "verification_passed" else "verification_failed";
  new_status = if passed then verified else in_progress;
  details = ("passed", flag passed) ∷ ("notes", str notes) ∷ [];
  updates = no_updates;
  allowed = pending_verification ∷ [];
  workflow = verification_record (record {
    verification_id = fresh.row_id;
    finding_id = k;
    verifier_id = actor.actor_id;
    is_passed = passed;
    notes = notes;
  });
}

abbrev pub closing : Fresh → String → Actor → String → Transition
closing fresh k actor reason = record {
  event_type = "finding_closed";
  new_status = closed;
  details = ("reason", str reason) ∷ [];
  updates = no_updates;
  allowed = verified ∷ accepted ∷ [];
  workflow = closure_record (record {
    closure_id = fresh.row_id;
    finding_id = k;
    closed_by = actor.actor_id;
    reason = reason;
  });
}
