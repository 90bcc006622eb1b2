-- ===== src/Governance/Exec.antt =====
-- governance_core.py: exceptions, and what the module takes from outside.
use sentinel_grc.Prelude.{ℕ, Bool, true, false, String, ◌≡◌, refl, Option, none, some, List}
use sentinel_grc.Governance.Types.{Status}
use sentinel_grc.Governance.Rows.{Body}

-- An argument that the code checks by `isinstance(value, str)`.
pub data Value : Type 0 where
  text : String → Value
  not_text : Value

-- One constructor for each place that raises.
pub data Error : Type 0 where
  actor_id_required role_unsupported auth_method_required : Error
  role_denied bad_text bad_severity bad_rating bad_due_date : Error
  unsupported_treatment bad_decision bad_content store_failed inconsistent_store : Error
  owner_approves not_independent not_closable identity_changed disappeared : Error
  not_found already_exists integrity : Error
  cannot_transition : Status → Error

-- What a function returns, or the place where it raises.
pub data Result {ℓ} (T : Type ℓ) : Type ℓ where
  err : Error → Result T
  ok : T → Result T

-- `if not c: raise e`
abbrev pub check : Bool → Error → Result (Unit {0})
check false e = err e
check true e = ok tt

abbrev pub ◌>>=◌ {ℓ κ} : {S : Type ℓ} {T : Type κ} → Result S → (S → Result T) → Result T
err raised >>= then_ = err raised
ok value >>= then_ = then_ value

abbrev pub ◌>>◌ {ℓ} : {T : Type ℓ} → Result (Unit {0}) → Result T → Result T
first >> second = first >>= λ done. second

infixl 5 ◌>>=◌ ◌>>◌
abbrev pub or_raise {ℓ} : {A : Type ℓ} → Option A → Error → Result A
or_raise none e = err e
or_raise (some a) e = ok a

-- SHA-256 and the check of `date.fromisoformat`. `event_digest previous body` is the digest of
-- `previous` followed by the canonical JSON of `body`.
pub record Library : Type 0 where
  pub event_digest : String → Body → String
  pub content_digest : List ℕ → String
  pub is_iso_date : String → Bool

-- What one call draws from the clock and from uuid4: the first two readings of the clock, and the
-- identities of the workflow row, of the event and of its two notices.
pub record Fresh : Type 0 where
  pub now : ℕ
  pub later : ℕ
  pub row_id : String
  pub event_id : String
  pub outbox_id : String
  pub export_id : String

-- `EvidenceObject`, and the store that returns it; `none` is a raise.
pub record Stored : Type 0 where
  pub object_key : String
  pub sha256 : String
  pub size_bytes : ℕ
  pub etag : String

abbrev pub EvidenceStore : Type 0
EvidenceStore = List ℕ → Option Stored

pub >>=-eq-ok {ℓ κ} :
    {S : Type ℓ} {T : Type κ} (first : Result S) (then_ : S → Result T) {out : T}
    → (first >>= then_) ≡ ok out
    → (value : S) × (first ≡ ok value) × (then_ value ≡ ok out)
>>=-eq-ok (err raised) then_ returned = cc
>>=-eq-ok (ok value) then_ returned = (value, refl, returned)
