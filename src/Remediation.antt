-- ===== src/Remediation.antt =====
-- scripts/governance.py: the remediation queue of an asset, and exceptions to it. Dates are naturals, and
-- `date.fromisoformat` is an argument.
pub mod Tickets
pub mod Exceptions
pub mod Failures
pub mod Tests
use Prim.Native.String.{◌++◌ as str_append}
use sentinel_grc.Prelude.{
  ℕ, ◌+◌, Bool, true, false, ◌&&◌, not, String, Option, none, some, List, [], ◌∷◌, if◌then◌else◌,
  ◌==◌, string_eq, leb,
}
use sentinel_grc.Prelude.Text
use sentinel_grc.Prelude.Attempt.{Attempt, failed, done, ◌>>=◌, ◌>>◌, need, given}
use sentinel_grc.Records.Control
use sentinel_grc.Records.Control.{
  Json, text, null, Posture, Control, Result, get, or_null, same, evaluate_control,
}

-- An entry of the asset register.
pub record Asset : Type 0 where
  pub asset_id : String
  pub hostname : Json
  pub business_service : Json
  pub criticality : Json

pub record Exception : Type 0 where
  pub approver : String
  pub reason : String
  pub expires_on : String

pub record Finding : Type 0 where
  pub finding_id : String
  pub asset : Asset
  pub control : Result
  pub status : String
  pub exception : Option Exception
  pub exception_status : Option String

pub record Queue : Type 0 where
  pub asset_id : String
  pub risk_score : ℕ
  pub findings : List Finding

pub data Error : Type 0 where
  evaluation : Control.Error → Error
  not_registered approver_and_reason bad_date not_in_future not_open not_found : Error

abbrev pub or_later : Asset → Option Asset → Option Asset
or_later a none = some a
or_later a (some b) = some b

-- `index_assets(assets).get(id)`: the last asset of that identifier.
unfoldable pub asset_for : Json → List Asset → Option Asset
asset_for id [] = none
asset_for id (a ∷ rest) =
    let later = asset_for id rest in if same id (text a.asset_id) then or_later a later else later

-- The posture with the criticality of the asset, which hides one of its own.
abbrev pub with_criticality : Json → Posture → Posture
with_criticality c posture = ("criticality", c) ∷ posture

abbrev pub of_evaluation : Attempt Control.Error Result → Attempt Error Result
of_evaluation (failed x) = failed (evaluation x)
of_evaluation (done r) = done r

-- The finding of a control that failed.
abbrev pub open_finding : Asset → Control → Result → Finding
open_finding a c r = record {
  finding_id = str_append a.asset_id (str_append ":" c.control_id);
  asset = a;
  control = r;
  status = "open";
  exception = none;
  exception_status = none;
}

unfoldable pub findings_of : Asset → Posture → List Control → Attempt Error (List Finding)
findings_of a posture [] = done []
findings_of a posture (c ∷ cs) =
    let rest = findings_of a posture cs in
    of_evaluation (evaluate_control c (with_criticality a.criticality posture)) >>= λ r.
    rest >>= λ fs. done (if r.passed then fs else open_finding a c r ∷ fs)

abbrev pub total_risk : List Finding → ℕ
total_risk [] = 0
total_risk (f ∷ fs) = f.control.risk_score + total_risk fs

-- `build_remediation_queue`
unfoldable pub build_remediation_queue : List Control → Posture → List Asset → Attempt Error Queue
build_remediation_queue controls posture assets =
    given (asset_for (or_null (get "asset_id" posture)) assets) not_registered >>= λ a.
    findings_of a posture controls >>= λ fs.
    done (record { asset_id = a.asset_id; risk_score = total_risk fs; findings = fs })

abbrev pub is_blank : String → Bool
is_blank s = Text.is_empty (Text.strip s)

abbrev pub accepted : Exception → Finding → Finding
accepted e f = record f { status = "accepted-risk"; exception = some e }

-- The loop of `approve_exception`.
unfoldable pub accept_in : Exception → String → List Finding → Attempt Error (List Finding)
accept_in e id [] = failed not_found
accept_in e id (f ∷ fs) =
    let rest = accept_in e id fs in
    if f.finding_id == id
    then need (f.status == "open") not_open >> done (accepted e f ∷ fs)
    else rest >>= λ more. done (f ∷ more)

-- `approve_exception`, on the day `today`
unfoldable pub approve_exception :
    (String → Option ℕ) → ℕ → Exception → String → Queue → Attempt Error Queue
approve_exception from_iso today e id q =
    need (not (is_blank e.approver) && not (is_blank e.reason)) approver_and_reason
    >> (given (from_iso e.expires_on) bad_date >>= λ expiry.
        need (not (leb expiry today)) not_in_future
        >> (accept_in e id q.findings >>= λ fs. done (record q { findings = fs })))

abbrev pub reopened : Finding → Finding
reopened f = record f { status = "open"; exception_status = some "expired" }

abbrev pub expired_by : (String → Option ℕ) → ℕ → Finding → Option Exception → Attempt Error Finding
expired_by from_iso today f none = done f
expired_by from_iso today f (some e) =
    if f.status == "accepted-risk" && not (Text.is_empty e.expires_on)
    then (given (from_iso e.expires_on) bad_date >>= λ expiry.
        done (if leb expiry today then reopened f else f))
    else done f

unfoldable pub expire_in : (String → Option ℕ) → ℕ → List Finding → Attempt Error (List Finding)
expire_in from_iso today [] = done []
expire_in from_iso today (f ∷ fs) =
    let rest = expire_in from_iso today fs in
    expired_by from_iso today f f.exception >>= λ g. rest >>= λ more. done (g ∷ more)

-- `expire_exceptions`
unfoldable pub expire_exceptions : (String → Option ℕ) → ℕ → Queue → Attempt Error Queue
expire_exceptions from_iso today q =
    expire_in from_iso today q.findings >>= λ fs. done (record q { findings = fs })
