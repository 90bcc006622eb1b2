-- ===== src/Governance/Validate.antt =====
-- governance_core.py: `ActorContext`, `_require` and the validators of arguments.
use sentinel_grc.Prelude.{
  ℕ, Bool, true, false, ◌&&◌, not, String, Option, none, some, List, leb, if◌then◌else◌, ◌==◌,
  contains, string_eq,
}
use sentinel_grc.Prelude.Text
use sentinel_grc.Governance.Types.{
  Role, role_eq, admin, analyst, risk_owner, approver, ciso, risk_committee, Rating, low, medium,
  high, critical, Treatment, mitigate, accept, transfer, avoid,
}
use sentinel_grc.Governance.Rows.{Actor}
use sentinel_grc.Governance.Exec.{
  Value, text, not_text, actor_id_required, role_unsupported, auth_method_required, role_denied,
  bad_text, bad_severity, bad_rating, bad_due_date, unsupported_treatment, bad_decision, Result, ok,
  err, ◌>>=◌, ◌>>◌, check, or_raise, Library,
}

abbrev pub max_identifier_length : ℕ
max_identifier_length = 128

abbrev pub max_text_length : ℕ
max_text_length = 4096

unfoldable pub is_blank : String → Bool
is_blank s = Text.is_empty (Text.strip s)

-- `role in ROLES`
unfoldable pub role_of : String → Option Role
role_of s =
    if s == "admin"
    then some admin
    else if s == "analyst"
    then some analyst
    else if s == "risk_owner"
    then some risk_owner
    else if s == "approver"
    then some approver
    else if s == "ciso"
    then some ciso
    else if s == "risk_committee"
    then some risk_committee
    else none

-- `ActorContext.__post_init__`
unfoldable pub make_actor : String → String → String → Result Actor
unfolding is_blank role_of
make_actor actor_id role auth_method = do
  check (not (is_blank actor_id)) actor_id_required
  r ← or_raise (role_of role) role_unsupported
  check (not (is_blank auth_method)) auth_method_required
  ok (record { actor_id = actor_id; role = r; auth_method = auth_method })

-- `_require`
unfoldable pub require : Actor → List Role → Result (Unit {0})
require actor roles = check (contains roles actor.role) role_denied

-- `_required_text`
unfoldable pub required_text : Value → ℕ → Result String
unfolding is_blank
required_text not_text limit = err bad_text
required_text (text value) limit = do
  check (not (is_blank value) && leb (Text.length value) limit) bad_text
  ok (Text.strip value)

-- `_identifier`
unfoldable pub identifier : Value → Result String
unfolding required_text
identifier value = required_text value max_identifier_length

unfoldable pub rating_of : String → Option Rating
rating_of s =
    if Text.lower_is s "low"
    then some low
    else if Text.lower_is s "medium"
    then some medium
    else if Text.lower_is s "high"
    then some high
    else if Text.lower_is s "critical"
    then some critical
    else none

-- `_severity`
unfoldable pub severity : Value → Result Rating
unfolding rating_of
severity not_text = err bad_severity
severity (text value) = or_raise (rating_of value) bad_severity

-- `_risk_rating`
unfoldable pub risk_rating : Value → Result Rating
unfolding rating_of
risk_rating not_text = err bad_rating
risk_rating (text value) = or_raise (rating_of value) bad_rating

-- `_due_date`; `none` is None.
unfoldable pub due_date : Library → Option Value → Result (Option String)
due_date lib none = ok none
due_date lib (some not_text) = err bad_due_date
due_date lib (some (text value)) = do check (lib.is_iso_date value) bad_due_date; ok (some value)

-- `treatment_type not in TREATMENTS`
unfoldable pub treatment_of : String → Result Treatment
treatment_of s =
    if s == "mitigate"
    then ok mitigate
    else if s == "accept"
    then ok accept
    else if s == "transfer"
    then ok transfer
    else if s == "avoid"
    then ok avoid
    else err unsupported_treatment

-- `decision not in {"approved", "rejected"}`; true is "approved".
unfoldable pub decision_of : String → Result Bool
decision_of s =
    if s == "approved" then ok true else if s == "rejected" then ok false else err bad_decision
