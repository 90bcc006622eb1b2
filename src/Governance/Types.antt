-- ===== src/Governance/Types.antt =====
-- governance_core.py: the words of a finding's lifecycle: roles, statuses, treatments and ratings.
use sentinel_grc.Prelude.{
  ℕ, Bool, true, String, ◌≡◌, refl, ◌↔◌, ap, ◌∙◌, sym, if◌then◌else◌, Eq, nat_beq, nat_beq_iff,
}

-- `ROLES`
pub data Role : Type 0 where
  admin analyst risk_owner approver ciso risk_committee : Role

-- `ACTIVE_STATUSES` and `TERMINAL_STATUSES`; a new finding is `opened`, the source's "open".
pub data Status : Type 0 where
  opened risk_assessed treatment_proposed pending_approval approved in_progress : Status
  evidence_submitted pending_verification rejected verified accepted closed : Status

-- `TREATMENTS`
pub data Treatment : Type 0 where
  mitigate accept transfer avoid : Treatment

-- `SEVERITIES` and `RISK_RATINGS`
pub data Rating : Type 0 where
  low medium high critical : Rating

abbrev role_rank : Role → ℕ
role_rank admin = 0
role_rank analyst = 1
role_rank risk_owner = 2
role_rank approver = 3
role_rank ciso = 4
role_rank risk_committee = 5

abbrev status_rank : Status → ℕ
status_rank opened = 0
status_rank risk_assessed = 1
status_rank treatment_proposed = 2
status_rank pending_approval = 3
status_rank approved = 4
status_rank in_progress = 5
status_rank evidence_submitted = 6
status_rank pending_verification = 7
status_rank rejected = 8
status_rank verified = 9
status_rank accepted = 10
status_rank closed = 11

abbrev pub role_beq : Role → Role → Bool
role_beq a b = nat_beq (role_rank a) (role_rank b)

abbrev pub status_beq : Status → Status → Bool
status_beq a b = nat_beq (status_rank a) (status_rank b)

abbrev role_at : ℕ → Role
role_at n =
    if nat_beq n 0
    then admin
    else if nat_beq n 1
    then analyst
    else if nat_beq n 2
    then risk_owner
    else if nat_beq n 3
    then approver
    else if nat_beq n 4
    then ciso
    else risk_committee

role_at-rank : (r : Role) → role_at (role_rank r) ≡ r
role_at-rank admin = refl
role_at-rank _ = refl

pub role_beq_iff : (a b : Role) → (role_beq a b ≡ true) ↔ (a ≡ b)
role_beq_iff a b = (
  λ h.
      sym (role_at-rank a)
      ∙ (ap role_at ((nat_beq_iff (role_rank a) (role_rank b)).0 h) ∙ role_at-rank b),
  λ e. (nat_beq_iff (role_rank a) (role_rank b)).1 (ap role_rank e),
)

abbrev status_at : ℕ → Status
status_at n =
    if nat_beq n 0
    then opened
    else if nat_beq n 1
    then risk_assessed
    else if nat_beq n 2
    then treatment_proposed
    else if nat_beq n 3
    then pending_approval
    else if nat_beq n 4
    then approved
    else if nat_beq n 5
    then in_progress
    else if nat_beq n 6
    then evidence_submitted
    else if nat_beq n 7
    then pending_verification
    else if nat_beq n 8
    then rejected
    else if nat_beq n 9
    then verified
    else if nat_beq n 10
    then accepted
    else closed

status_at-rank : (s : Status) → status_at (status_rank s) ≡ s
status_at-rank opened = refl
status_at-rank _ = refl

pub status_beq_iff : (a b : Status) → (status_beq a b ≡ true) ↔ (a ≡ b)
status_beq_iff a b = (
  λ h.
      sym (status_at-rank a)
      ∙ (ap status_at ((nat_beq_iff (status_rank a) (status_rank b)).0 h) ∙ status_at-rank b),
  λ e. (nat_beq_iff (status_rank a) (status_rank b)).1 (ap status_rank e),
)

instance abbrev pub role_eq : Eq Role
role_eq = record { beq = role_beq; beq_iff = role_beq_iff }

instance abbrev pub status_eq : Eq Status
status_eq = record { beq = status_beq; beq_iff = status_beq_iff }

unfoldable pub rating_word : Rating → String
rating_word low = "low"
rating_word medium = "medium"
rating_word high = "high"
rating_word critical = "critical"
