-- ===== src/Records/Ledger.antt =====
-- sentinelgrc.py: the evidence ledger and `evaluate`. A record is a dict, its canonical JSON escapes
-- every character that could end a line, and the clock gives the text of `recorded_at`.
pub mod Laws
pub mod Outcome
pub mod Runs
use sentinel_grc.Prelude.{
  ℕ, ◌+◌, Bool, true, false, not, String, Option, none, some, List, [], ◌∷◌, ◌++◌, if◌then◌else◌,
  ◌==◌, string_eq, length, select,
}
use sentinel_grc.Prelude.Attempt.{Attempt, failed, done, ◌>>=◌}
use sentinel_grc.Records.ChainFile
use sentinel_grc.Records.ChainFile.{
  Line, object_line, other_json, no_json, blank, File, absent, undecodable, lines, Chained, Verdict,
  is_valid, is_blank, lines_of, last_or, genesis,
}
use sentinel_grc.Records.Control
use sentinel_grc.Records.Control.{Json, text, null, Posture, Result, get, or_null, evaluate_all}

-- A value in a record: `asset` and `results` are the nested ones.
pub data Value : Type 0 where
  json : Json → Value
  asset : List (String × Json) → Value
  results : List Result → Value

abbrev pub Dict : Type 0
Dict = List (String × Value)

-- `record[key] = value`
unfoldable pub put : String → Value → Dict → Dict
put k v [] = (k, v) ∷ []
put k v ((j, w) ∷ rest) =
    let later = put k v rest in if j == k then (j, v) ∷ rest else (j, w) ∷ later

-- `record.update(extra)`
unfoldable pub update_all : Dict → Dict → Dict
update_all [] record_ = record_
update_all ((k, v) ∷ extra) record_ = update_all extra (put k v record_)

-- `record.pop(key, None)`, the record
unfoldable pub without : String → Dict → Dict
without k [] = []
without k ((j, w) ∷ rest) = let later = without k rest in if j == k then later else (j, w) ∷ later

-- The value of a key where it is a text.
abbrev pub as_text : Option Value → Option String
as_text (some (json (text s))) = some s
as_text _ = none

-- The asset of a record: some keys of the posture.
abbrev pub asset_of : Posture → List (String × Json)
asset_of posture =
    ("asset_id", or_null (get "asset_id" posture))
    ∷ ("hostname", or_null (get "hostname" posture))
    ∷ ("owner", or_null (get "owner" posture))
    ∷ ("criticality", or_null (get "criticality" posture))
    ∷ ("collected_at", or_null (get "collected_at" posture))
    ∷ []

-- `build_evidence`, without the hash that it adds; no `extra` is an empty one.
abbrev pub build_evidence : String → Posture → List Result → Dict → String → Dict
build_evidence recorded_at posture rs extra previous = update_all extra (
    ("schema_version", json (text "1.0"))
    ∷ ("recorded_at", json (text recorded_at))
    ∷ ("asset", asset (asset_of posture))
    ∷ ("results", results rs)
    ∷ ("previous_hash", json (text previous))
    ∷ [])

-- The SHA-256 of the canonical JSON of a dict.
abbrev pub chain : (Dict → String) → Chained Dict
chain digest = record {
  digest = digest;
  previous = λ d. as_text (get "previous_hash" d);
  breaks = λ d. 0;
}

pub data Error : Type 0 where
  invalid_ledger : Verdict → Error
  evaluation : Control.Error → Error
  no_hostname : Error

-- `verify_ledger`
unfoldable pub verify_ledger : (Dict → String) → File Dict → Verdict
verify_ledger digest file = ChainFile.verify (chain digest) file

-- `read_last_hash`
unfoldable pub read_last_hash : (Dict → String) → File Dict → Attempt Error String
read_last_hash digest file =
    if is_valid (verify_ledger digest file)
    then done (if is_blank (lines_of file) then genesis else last_or genesis (lines_of file))
    else failed (invalid_ledger (verify_ledger digest file))

-- The line of a record: what is read back as its hash is the one that was added last.
abbrev pub line_of : (Dict → String) → Dict → Line Dict
line_of digest d = object_line (without "record_hash" d) (some (digest d))

-- `append_evidence_atomic`
unfoldable pub append_evidence_atomic :
    (Dict → String)
    → String
    → Posture
    → List Result
    → Dict
    → File Dict
    → Attempt Error (Dict × File Dict)
append_evidence_atomic digest recorded_at posture rs extra file =
    read_last_hash digest file >>= λ previous.
    let d = build_evidence recorded_at posture rs extra previous in
    done (d, lines (lines_of file ++ line_of digest d ∷ []))

abbrev pub has_text : String → String → Dict → Bool
has_text key s d = elim (as_text (get key d)) [ none ↦ false | some t ↦ t == s ]

-- The first record with the text under `input_hash`.
unfoldable pub find_input : String → List (Line Dict) → Option Dict
find_input h [] = none
find_input h (object_line d own ∷ ls) =
    let rest = find_input h ls in if has_text "input_hash" h d then some d else rest
find_input h (other_json ∷ ls) = find_input h ls
find_input h (no_json ∷ ls) = find_input h ls
find_input h (blank ∷ ls) = find_input h ls

-- `find_ledger_record`
unfoldable pub find_ledger_record :
    (Dict → String) → String → File Dict → Attempt Error (Option Dict)
find_ledger_record digest h file =
    if is_valid (verify_ledger digest file)
    then done (find_input h (lines_of file))
    else failed (invalid_ledger (verify_ledger digest file))

-- What a pipeline run adds to its record.
abbrev pub run_extra : String → String → Dict
run_extra input_hash run =
    ("input_hash", json (text input_hash)) ∷ ("pipeline_run_id", json (text run)) ∷ []

abbrev pub or_append :
    (Dict → String)
    → String
    → Posture
    → List Result
    → Dict
    → (File Dict → File Dict)
    → File Dict
    → Option Dict
    → Attempt Error (Dict × File Dict)
or_append digest recorded_at posture rs extra meanwhile file none =
    append_evidence_atomic digest recorded_at posture rs extra (meanwhile file)
or_append digest recorded_at posture rs extra meanwhile file (some d) = done (d, file)

-- The record of a pipeline run in `_execute_pipeline`: the one that is there, or a new one. The lock is
-- free between the two calls, where others may change the file: `meanwhile`.
unfoldable pub ensure_record :
    (Dict → String)
    → String
    → Posture
    → List Result
    → String
    → String
    → (File Dict → File Dict)
    → File Dict
    → Attempt Error (Dict × File Dict)
ensure_record digest recorded_at posture rs input_hash run meanwhile file =
    find_ledger_record digest input_hash file
    >>= or_append digest recorded_at posture rs (run_extra input_hash run) meanwhile file

pub record Summary : Type 0 where
  pub hostname : Json
  pub controls_evaluated : ℕ
  pub controls_failed : ℕ
  pub risk_score : ℕ
  pub remediation_queue : List Result
  pub evidence_hash : String

abbrev pub total_risk : List Result → ℕ
total_risk [] = 0
total_risk (r ∷ rs) = r.risk_score + total_risk rs

abbrev pub failures : List Result → List Result
failures rs = select (λ r. not r.passed) rs

abbrev pub summary_of : Json → List Result → String → Summary
summary_of host rs hash = record {
  hostname = host;
  controls_evaluated = length rs;
  controls_failed = length (failures rs);
  risk_score = total_risk (failures rs);
  remediation_queue = failures rs;
  evidence_hash = hash;
}

abbrev pub exit_code : List Result → ℕ
exit_code [] = 0
exit_code (r ∷ rs) = 1

-- What is printed and the exit code; the host name is read behind the append.
abbrev pub report : (Dict → String) → Posture → List Result → Dict → Attempt Error (Summary × ℕ)
report digest posture rs d = elim (get "hostname" posture) [
  | none ↦ failed no_hostname
  | some host ↦ done (summary_of host rs (digest d), exit_code (failures rs))
]

abbrev pub of_evaluation : {A : Type 0} → Attempt Control.Error A → Attempt Error A
of_evaluation (failed x) = failed (evaluation x)
of_evaluation (done a) = done a

abbrev pub after_append :
    (Dict → String)
    → Posture
    → List Result
    → File Dict
    → Attempt Error (Dict × File Dict)
    → Attempt Error (Summary × ℕ) × File Dict
after_append digest posture rs file (failed x) = (failed x, file)
after_append digest posture rs file (done (d, longer)) = (report digest posture rs d, longer)

abbrev pub after_results :
    (Dict → String)
    → String
    → Posture
    → File Dict
    → Attempt Error (List Result)
    → Attempt Error (Summary × ℕ) × File Dict
after_results digest recorded_at posture file (failed x) = (failed x, file)
after_results digest recorded_at posture file (done rs) =
    after_append digest posture rs file
      (append_evidence_atomic digest recorded_at posture rs [] file)

-- `evaluate`, of a catalogue and a posture that were read: its outcome, and the ledger behind it.
unfoldable pub evaluate :
    (Dict → String)
    → String
    → List Control.Control
    → Posture
    → File Dict
    → Attempt Error (Summary × ℕ) × File Dict
evaluate digest recorded_at controls posture file =
    after_results digest recorded_at posture file (of_evaluation (evaluate_all controls posture))
