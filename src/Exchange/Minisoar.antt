-- ===== src/Exchange/Minisoar.antt =====
-- minisoar_connector.py: incidents of Mini-SOAR as governed findings. The SHA-256 of canonical JSON,
-- `ipaddress.ip_address` and `datetime.fromisoformat` are arguments.
pub mod Gates
pub mod Patterns
use Prim.Native.Char.{code}
use Prim.Native.String.{◌++◌ as str_append}
use sentinel_grc.Prelude.{
  ℕ, ◌-◌, Bool, true, false, ◌&&◌, ◌||◌, not, String, Option, none, some, List, [], ◌∷◌,
  if◌then◌else◌, ◌==◌, string_eq, leb, nat_beq, opt_is, contains,
}
use sentinel_grc.Prelude.Text
use sentinel_grc.Prelude.Attempt.{Attempt, failed, done, ◌>>=◌, ◌>>◌, need, given}
use sentinel_grc.Records.Control.{Json, null, flag, number, text, get, or_null}
use sentinel_grc.Exchange.Connectors.{is_source_identifier}
use sentinel_grc.Exchange.Minisoar.Patterns.{is_canonical_text, is_evidence_reference}

abbrev pub Object : Type 0
Object = List (String × Json)

pub data Error : Type 0 where
  bad_field : String → Error
  bad_kind not_the_alert not_the_finding : Error

-- The fields of an alert that its hashes are made of.
pub record Identity : Type 0 where
  pub source : String
  pub source_event_id : String
  pub kind : String
  pub asset_id : String
  pub account : Option String
  pub source_ip : Option String

pub record Payload : Type 0 where
  pub identity : Identity
  pub severity : String
  pub detected_at : String
  pub message : String
  pub evidence_ref : Option String
  pub environment : String
  pub risk_owner : String

pub record Library : Type 0 where
  pub identity_digest : Identity → String
  pub payload_digest : Payload → String
  pub incident_digest : String → String
  pub to_utc : String → Option String
  pub is_ip : String → Bool

pub record Alert : Type 0 where
  pub content : Payload
  pub utc_detected_at : String
  pub identity_hash : String
  pub alert_id : String
  pub payload_hash : String

pub record Fields : Type 0 where
  pub mini_soar_finding_id : String
  pub executor_id : String
  pub risk_owner : String
  pub severity : String
  pub title : String

pub record Incident : Type 0 where
  pub finding_id : String
  pub control_id : String
  pub asset_id : String
  pub title : String
  pub risk_owner : String
  pub severity : String
  pub alert : Alert
  pub fields : Fields
  pub verification_passed : Bool
  pub verifier_id : Option String
  pub playbook_id : Json
  pub playbook_version : Json
  pub source : String
  pub simulated : Bool

abbrev pub text_value : ℕ → String → Json → Attempt Error String
text_value maximum name (text s) =
    if is_canonical_text s maximum then done s else failed (bad_field name)
text_value maximum name _ = failed (bad_field name)

-- `_text`
abbrev pub text_of : Object → String → ℕ → Attempt Error String
text_of o name maximum = text_value maximum name (or_null (get name o))

abbrev pub optional_value : ℕ → String → Json → Attempt Error (Option String)
optional_value maximum name null = done none
optional_value maximum name (text s) =
    if is_canonical_text s maximum then done (some s) else failed (bad_field name)
optional_value maximum name _ = failed (bad_field name)

-- `_optional_text`
abbrev pub optional_text_of : Object → String → ℕ → Attempt Error (Option String)
optional_text_of o name maximum = optional_value maximum name (or_null (get name o))

-- _CONTROL_BY_KIND
abbrev pub control_for : String → Option String
control_for kind =
    if kind == "brute_force"
    then some "SEC-AUTH-001"
    else if kind == "privilege_escalation"
    then some "SEC-IAM-003"
    else if kind == "malware"
    then some "SEC-END-001"
    else none

abbrev pub severities : List String
severities = "low" ∷ "medium" ∷ "high" ∷ "critical" ∷ []

-- The text is the first `n` characters of a hexadecimal text, in upper case.
unfoldable pub is_upper_of : ℕ → String → String → Bool
is_upper_of n String.[] String.[] = true
is_upper_of n String.[] (String.◌∷◌ d h) = nat_beq n 0
is_upper_of n (String.◌∷◌ c s) String.[] = false
is_upper_of n (String.◌∷◌ c s) (String.◌∷◌ d h) =
    not (nat_beq n 0)
    && (nat_beq (code c) (if leb 97 (code d) && leb (code d) 122 then code d - 32 else code d)
        && is_upper_of (n - 1) s h)

unfoldable pub after_prefix : String → String → Option String
after_prefix String.[] s = some s
after_prefix (String.◌∷◌ p ps) String.[] = none
after_prefix (String.◌∷◌ p ps) (String.◌∷◌ c s) =
    let rest = after_prefix ps s in if nat_beq (code p) (code c) then rest else none

unfoldable pub all_upper_hex : String → Bool
all_upper_hex String.[] = true
all_upper_hex (String.◌∷◌ c s) =
    ((leb 48 (code c) && leb (code c) 57) || (leb 65 (code c) && leb (code c) 70))
    && all_upper_hex s

-- `id == prefix + identity_hash[:16].upper()`, for an id with `prefix` and 16 digits.
abbrev pub is_id_of : String → String → String → Bool
is_id_of prefix_ id hash = elim (after_prefix prefix_ id) [
  | none ↦ false
  | some rest ↦ nat_beq (Text.length rest) 16 && (all_upper_hex rest && is_upper_of 16 rest hash)
]

abbrev pub is_text_of : Object → String → String → Bool
is_text_of o name s = elim (or_null (get name o)) [
  | text t ↦ t == s
  | null ↦ false
  | flag b ↦ false
  | number n ↦ false
  | Json.negative c ↦ false
  | Json.between n c ↦ false
  | Json.compound c ↦ false
]

abbrev pub is_true_value : Json → Bool
is_true_value (flag b) = b
is_true_value _ = false

abbrev pub all_of : (String → Bool) → Option String → Bool
all_of test none = true
all_of test (some s) = test s

-- `_validated_alert`, up to its hashes: the content, and the time in UTC
unfoldable pub alert_content : Library → Object → Attempt Error (Payload × String)
alert_content lib o = text_of o "source" 128 >>= λ source.
    text_of o "source_event_id" 128 >>= λ source_event_id. text_of o "asset_id" 128 >>= λ asset_id.
    text_of o "kind" 64 >>= λ kind. text_of o "severity" 16 >>= λ severity.
    need (is_source_identifier source) (bad_field "source")
    >> (given (control_for kind) bad_kind >>= λ control.
        need (contains severities severity) (bad_field "severity")
        >> (text_of o "detected_at" 64 >>= λ detected_at.
            given (lib.to_utc detected_at) (bad_field "detected_at") >>= λ utc.
            optional_text_of o "account" 256 >>= λ account.
            optional_text_of o "source_ip" 64 >>= λ source_ip.
            need (all_of lib.is_ip source_ip) (bad_field "source_ip")
            >> (optional_text_of o "evidence_ref" 512 >>= λ evidence_ref.
                need (all_of is_evidence_reference evidence_ref) (bad_field "evidence_ref")
                >> (text_of o "message" 512 >>= λ message.
                    text_of o "environment" 64 >>= λ environment.
                    text_of o "risk_owner" 128 >>= λ risk_owner.
                    need (environment == "synthetic-lab") (bad_field "environment")
                    >> (need (is_true_value (or_null (get "supported" o))) (bad_field "supported")
                        >> done (
                          record {
                            identity = record {
                              source = source;
                              source_event_id = source_event_id;
                              kind = kind;
                              asset_id = asset_id;
                              account = account;
                              source_ip = source_ip;
                            };
                            severity = severity;
                            detected_at = detected_at;
                            message = message;
                            evidence_ref = evidence_ref;
                            environment = environment;
                            risk_owner = risk_owner;
                          },
                          utc,
                        ))))))

-- The rest of `_validated_alert`
unfoldable pub hashed_alert : Library → Object → Payload → String → Attempt Error Alert
hashed_alert lib o content utc = text_of o "identity_hash" 64 >>= λ identity_hash.
    need (identity_hash == lib.identity_digest content.identity) (bad_field "identity_hash")
    >> (text_of o "alert_id" 20 >>= λ alert_id.
        need (is_id_of "ALT-" alert_id identity_hash) (bad_field "alert_id")
        >> (text_of o "payload_hash" 64 >>= λ payload_hash.
            need (Text.is_hex 64 payload_hash && payload_hash == lib.payload_digest content)
              (bad_field "payload_hash")
            >> done (record {
              content = content;
              utc_detected_at = utc;
              identity_hash = identity_hash;
              alert_id = alert_id;
              payload_hash = payload_hash;
            })))

unfoldable pub validated_alert : Library → Object → Attempt Error Alert
validated_alert lib o = alert_content lib o >>= λ (content, utc). hashed_alert lib o content utc

-- `_validated_finding_fields`
unfoldable pub validated_finding_fields : Object → Alert → Attempt Error Fields
validated_finding_fields o alert = text_of o "finding_id" 20 >>= λ id.
    need (is_id_of "FND-" id alert.identity_hash) (bad_field "finding_id")
    >> (need (is_text_of o "alert_id" alert.alert_id) not_the_alert
        >> (text_of o "executor_id" 128 >>= λ executor_id.
            text_of o "risk_owner" 128 >>= λ risk_owner.
            need (risk_owner == alert.content.risk_owner) (bad_field "risk_owner")
            >> (text_of o "severity" 16 >>= λ severity.
                need (severity == alert.content.severity) (bad_field "severity")
                >> (text_of o "title" 512 >>= λ title.
                    need (title == alert.content.message) (bad_field "title")
                    >> done (record {
                      mini_soar_finding_id = id;
                      executor_id = executor_id;
                      risk_owner = risk_owner;
                      severity = severity;
                      title = title;
                    })))))

abbrev pub is_passed : Json → Bool
is_passed (flag b) = b
is_passed (number n) = nat_beq n 1
is_passed _ = false

-- `_verification_succeeded`; what is no object is left out.
abbrev pub verification_succeeded : Option Object → Bool
verification_succeeded none = false
verification_succeeded (some v) = is_passed (or_null (get "passed" v))

-- `_validated_verifier`
abbrev pub validated_verifier : Option Object → String → Bool → Attempt Error (Option String)
validated_verifier v id false = done none
validated_verifier none id true = done none
validated_verifier (some v) id true =
    need (is_text_of v "finding_id" id) not_the_finding
    >> (text_of v "verifier_id" 128 >>= λ verifier. done (some verifier))

-- `identity` of the finding that is made.
abbrev pub incident_text : String → String → String → String
incident_text id control asset =
    str_append "minisoar-incident|"
      (str_append id (str_append "|" (str_append control (str_append "|" asset))))

abbrev pub incident_of :
    Library → Object → Alert → Fields → Bool → Option String → String → Incident
incident_of lib finding alert fields passed verifier control = record {
  finding_id = str_append "SEC-IR-" (
      lib.incident_digest
        (incident_text fields.mini_soar_finding_id control alert.content.identity.asset_id));
  control_id = control;
  asset_id = alert.content.identity.asset_id;
  title = str_append "Incident response closed: " fields.title;
  risk_owner = fields.risk_owner;
  severity = fields.severity;
  alert = alert;
  fields = fields;
  verification_passed = passed;
  verifier_id = verifier;
  playbook_id = or_null (get "playbook_id" finding);
  playbook_version = or_null (get "playbook_version" finding);
  source = "minisoar_incident_response";
  simulated = true;
}

-- `normalize_minisoar_incident`, for a finding and an alert that are objects
unfoldable pub normalize_minisoar_incident :
    Library → Object → Object → Option Object → Bool → Attempt Error (Option Incident)
normalize_minisoar_incident lib finding alert verification require_pass =
    let passed = verification_succeeded verification in
    if not (is_text_of finding "status" "closed")
      || (not (is_text_of alert "environment" "synthetic-lab") || (require_pass && not passed))
    then done none
    else (validated_alert lib alert >>= λ a. validated_finding_fields finding a >>= λ fields.
        validated_verifier verification fields.mini_soar_finding_id passed >>= λ verifier.
        if opt_is verifier fields.executor_id
        then done none
        else (given (control_for a.content.identity.kind) bad_kind >>= λ control.
            done (some (incident_of lib finding a fields passed verifier control))))
