-- ===== src/Records/Tests.antt =====
-- The audit log, controls and the ledger on small files, and the theorems at them.
use mathlib.Core.Bool.{false≢true}
use sentinel_grc.Prelude.{
  ◌==◌, sym, ap, string_eq, All, ◌*◌, ◌≤◌, true, false, String, ◌≡◌, refl, ◌⊎◌, none, some, List,
  [], ◌∷◌, ◌++◌, arith, nat_beq, length,
}
use sentinel_grc.Prelude.Text
use sentinel_grc.Prelude.Attempt.{failed, done}
use sentinel_grc.Records.ChainFile
use sentinel_grc.Records.ChainFile.{
  Line, object_line, File, absent, lines, lines_of, last_or, genesis, is_valid, check_lines,
  last_hash, intact, unreadable, invalid,
}
use sentinel_grc.Records.ChainFile.Laws.{Collision}
use sentinel_grc.Records.AuditLog.{
  Entry, Event, named, chain, entry_of, breaks, append, append_idempotent, find_event, find_id,
  verify, refused,
}
use sentinel_grc.Records.AuditLog.Idempotence.{
  Call, append_call, idempotent_call, run, audit_log-verifies, append_idempotent-again,
}
use sentinel_grc.Records.AuditLog.Tampering.{audit_log_tamper_evident, audit_log_cut}
use sentinel_grc.Records.Control.{
  Control, Result, flag, text, number, Posture, at_most, get, severity_weight,
  criticality_multiplier, evaluate_control, evaluate_all,
}
use sentinel_grc.Records.Control.Risk.{IsMet, evaluate_control_bounds}
use sentinel_grc.Records.Ledger.{
  json, Dict, as_text, verify_ledger, read_last_hash, append_evidence_atomic, ensure_record,
  evaluate, Summary,
}
use sentinel_grc.Records.Ledger.Laws.{append_evidence_atomic-verifies}
use sentinel_grc.Records.Ledger.Runs.{IsOf, IsOther, IsFirst, ensure_record-again}
use sentinel_grc.Records.Ledger.Outcome.{evaluate-summary}

abbrev digest : Entry → String
digest e = "h"

abbrev login : Event
login = record {
  event_type = "user.login";
  actor = named "ana";
  target = "console";
  details = some (record { stored = "{\"n\":1}"; is_read_from = λ s. s == "{\"n\":1}" });
}

abbrev first : Entry
first = entry_of "E-1" login "t1" genesis

abbrev one_record : File Entry
one_record = lines (object_line first (some "h") ∷ [])

abbrev calls : List Call
calls =
    append_call "E-2" login "t2"
    ∷ idempotent_call "E-1" login "t3"
    ∷ idempotent_call "E-3" login "t4"
    ∷ []

verifies : is_valid (verify digest one_record) ≡ true
unfolding verify ChainFile.verify check_lines
verifies = refl

grown : (length (lines_of (run digest calls one_record))) ≡ 3
unfolding run append append_idempotent find_event find_id check_lines last_hash ChainFile.append
    breaks Text.strip
grown = refl

audit_log-verifies_example : is_valid (verify digest (run digest calls one_record)) ≡ true
unfolding breaks
audit_log-verifies_example = audit_log-verifies digest calls one_record verifies refl

added : append_idempotent digest "E-1" login "t1" absent ≡ done ((first, true), one_record)
unfolding append append_idempotent find_event last_hash ChainFile.append breaks Text.strip
added = refl

append_idempotent-again_example :
    append_idempotent digest "E-1" login "t9" (run digest calls one_record)
    ≡ done ((first, false), run digest calls one_record)
unfolding breaks ChainFile.verify verify
append_idempotent-again_example =
    append_idempotent-again digest "E-1" login "t1" "t9" calls absent one_record first true refl
      refl refl refl added

-- Two logs of one record each that this digest does not tell apart.
abbrev rewritten : File Entry
rewritten = lines (object_line (entry_of "E-1" login "t2" genesis) (some "h") ∷ [])

rewritten_verifies : is_valid (verify digest rewritten) ≡ true
unfolding verify ChainFile.verify check_lines
rewritten_verifies = refl

audit_log_tamper_evident_example :
    (lines_of one_record ≡ lines_of rewritten) ⊎ Collision (chain digest)
audit_log_tamper_evident_example =
    audit_log_tamper_evident digest one_record rewritten verifies rewritten_verifies refl refl

-- A target with U+2028 in it.
abbrev cut_login : Event
cut_login = record {
  event_type = "user.login";
  actor = named "ana";
  target = "con\u{2028}sole";
  details = none;
}

audit_log_cut_example :
    (e : Entry) × (file' : File Entry) × (append digest "E-2" cut_login "t2" one_record
      ≡ done (e, file'))
    × (verify digest file' ≡ unreadable)
    × ((j : String) (next_ : Event) (later : String)
        → append digest j next_ later file' ≡ failed (refused (invalid unreadable)))
unfolding breaks
audit_log_cut_example = audit_log_cut digest "E-2" cut_login "t2" one_record verifies (omega arith)

abbrev disk_control : Control
disk_control = record {
  control_id = "EP-001";
  name = "Disk encryption";
  owner = "Endpoint";
  iso27002 = text "8.24";
  nist_csf = text "PR.DS-01";
  required_field = "disk_encrypted";
  expected = some (flag true);
  max_value = none;
  severity = "high";
}

abbrev patch_control : Control
patch_control = record {
  control_id = "EP-002";
  name = "Patch age";
  owner = "Endpoint";
  iso27002 = text "8.8";
  nist_csf = text "ID.RA-01";
  required_field = "patch_age_days";
  expected = none;
  max_value = some 30;
  severity = "critical";
}

abbrev laptop : Posture
laptop =
    ("hostname", text "lt-7")
    ∷ ("disk_encrypted", flag true)
    ∷ ("patch_age_days", number 45)
    ∷ ("criticality", text "High")
    ∷ []

abbrev patch_result : Result
patch_result = record {
  control_id = "EP-002";
  control_name = "Patch age";
  owner = "Endpoint";
  iso27002 = text "8.8";
  nist_csf = text "ID.RA-01";
  field = "patch_age_days";
  expected = at_most 30;
  observed = number 45;
  passed = false;
  severity = "critical";
  risk_score = 30;
}

patch_evaluated : evaluate_control patch_control laptop ≡ done patch_result
unfolding evaluate_control get severity_weight criticality_multiplier Text.lower_is
patch_evaluated = refl

evaluate_control_bounds_example :
    (patch_result.risk_score ≤ 40)
    × (nat_beq patch_result.risk_score 0 ≡ patch_result.passed)
    × (patch_result.passed ≡ true → IsMet patch_control (number 45))
    × (IsMet patch_control (number 45) → patch_result.passed ≡ true)
unfolding get
evaluate_control_bounds_example =
    evaluate_control_bounds patch_control laptop patch_result patch_evaluated

abbrev hash_of : Dict → String
hash_of d = "h"

ledger_verifies : is_valid (verify_ledger hash_of absent) ≡ true
unfolding verify_ledger ChainFile.verify
ledger_verifies = refl

abbrev note : Dict
note = ("input_hash", json (text "i1")) ∷ []

append_evidence_atomic-verifies_example :
    (d : Dict) × (append_evidence_atomic hash_of "t1" laptop (patch_result ∷ []) note absent
      ≡ done (d, lines (lines_of {R = Dict} absent ++ object_line d (some (hash_of d)) ∷ [])))
    × (verify_ledger hash_of (lines (lines_of absent ++ object_line d (some (hash_of d)) ∷ []))
        ≡ intact)
    × (read_last_hash hash_of (lines (lines_of absent ++ object_line d (some (hash_of d)) ∷ []))
        ≡ done (hash_of d))
unfolding get
append_evidence_atomic-verifies_example =
    append_evidence_atomic-verifies hash_of "t1" laptop (patch_result ∷ []) note absent
      ledger_verifies refl refl

-- What another run leaves while this one has no lock.
abbrev other_record : Dict
other_record = ("previous_hash", json (text genesis)) ∷ ("input_hash", json (text "i2")) ∷ []

abbrev other_ledger : File Dict
other_ledger = lines (object_line other_record (some "h") ∷ [])

other_verifies : is_valid (verify_ledger hash_of other_ledger) ≡ true
unfolding verify_ledger ChainFile.verify check_lines get
other_verifies = refl

other_record-IsOther : IsOther "i1" (object_line other_record (some "h"))
unfolding get
other_record-IsOther e =
    false≢true (sym (ap (λ o. elim (as_text o) [ none ↦ false | some t ↦ t == "i2" ]) e))

ensure_record-again_example :
    (d : Dict) × (longer : File Dict) × (ensure_record hash_of "t1" laptop
        (patch_result ∷ [])
        "i1"
        "PL-1"
        (λ f. other_ledger)
        absent
      ≡ done (d, longer))
    × (is_valid (verify_ledger hash_of longer) ≡ true)
    × IsOf "i1" d
    × ((IsFirst "i1" d (lines_of absent) × (longer ≡ absent))
        ⊎ (All (IsOther "i1") (lines_of absent)
            × (lines_of longer ≡ lines_of other_ledger ++ object_line d (some (hash_of d)) ∷ [])))
    × ((stamp' : String) (posture' : Posture) (rs' : List Result) (run' : String)
          (meanwhile' : File Dict → File Dict)
        → ensure_record hash_of stamp' posture' rs' "i1" run' meanwhile' longer ≡ done (d, longer))
ensure_record-again_example =
    ensure_record-again hash_of "t1" laptop (patch_result ∷ []) "i1" "PL-1" (λ f. other_ledger)
      absent ledger_verifies other_verifies (λ none_. (other_record-IsOther, tt))

abbrev catalogue : List Control
catalogue = disk_control ∷ patch_control ∷ []

abbrev printed : Summary
printed = record {
  hostname = text "lt-7";
  controls_evaluated = 2;
  controls_failed = 1;
  risk_score = 30;
  remediation_queue = patch_result ∷ [];
  evidence_hash = "h";
}

-- The ledger behind the evaluation.
abbrev longer : File Dict
longer = (evaluate hash_of "t1" catalogue laptop absent).1

evaluated : evaluate hash_of "t1" catalogue laptop absent ≡ (done (printed, 1), longer)
unfolding evaluate evaluate_all evaluate_control get severity_weight criticality_multiplier
    append_evidence_atomic read_last_hash verify_ledger ChainFile.verify Text.lower_is
evaluated = refl

evaluate-summary_example :
    (printed.controls_evaluated ≡ length catalogue)
    × (printed.risk_score ≤ 40 * printed.controls_failed)
    × (nat_beq 1 0 ≡ nat_beq printed.controls_failed 0)
    × (nat_beq 1 0 ≡ nat_beq printed.risk_score 0)
    × (verify_ledger hash_of longer ≡ intact)
evaluate-summary_example =
    evaluate-summary hash_of "t1" catalogue laptop absent longer printed 1 ledger_verifies evaluated
