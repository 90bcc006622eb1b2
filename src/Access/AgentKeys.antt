-- ===== src/Access/AgentKeys.antt =====
-- scripts/agent_keys.py: `AgentKeyRegistry`. The clock and the secrets of `secrets` are arguments.
pub mod Scopes
pub mod Revocation
use Prim.Native.Char.{code}
use sentinel_grc.Prelude.{
  ℕ, Bool, true, false, ◌&&◌, not, String, Option, none, some, List, [], ◌∷◌, ◌++◌, if◌then◌else◌,
  ◌==◌, string_eq, nat_beq, ltb, contains, any, find, update,
}
use sentinel_grc.Prelude.Text
use sentinel_grc.Prelude.Attempt.{Attempt, failed, done, ◌>>=◌, ◌>>◌, need}
use sentinel_grc.Access.{is_safe_identifier}

-- `agent_keys`: the status is `active` or `revoked`.
pub record Row : Type 0 where
  pub key_id : String
  pub agent_id : String
  pub is_revoked : Bool
  pub created_at : ℕ
  pub revoked_at : Option ℕ
  pub scopes : List String

pub data Error : Type 0 where
  bad_scopes bad_identifier key_exists : Error

-- ALLOWED_KEY_SCOPES
abbrev pub allowed : List String
allowed = "posture:write" ∷ "asset-context:write" ∷ "remediation-ticket:write" ∷ []

-- The order of two texts by their code points.
unfoldable pub precedes : String → String → Bool
precedes String.[] String.[] = false
precedes String.[] (String.◌∷◌ d t) = true
precedes (String.◌∷◌ c s) String.[] = false
precedes (String.◌∷◌ c s) (String.◌∷◌ d t) =
    let rest = precedes s t in
    if ltb (code c) (code d) then true else if nat_beq (code c) (code d) then rest else false

unfoldable pub inserted : String → List String → List String
inserted x [] = x ∷ []
inserted x (y ∷ ys) =
    let later = inserted x ys in
    if x == y then y ∷ ys else if precedes x y then x ∷ y ∷ ys else y ∷ later

-- `sorted(set(scopes))`
unfoldable pub sorted_set : List String → List String
sorted_set [] = []
sorted_set (x ∷ xs) = inserted x (sorted_set xs)

abbrev pub all_allowed : List String → Bool
all_allowed [] = true
all_allowed (x ∷ xs) = contains allowed x && all_allowed xs

abbrev pub is_nil : List String → Bool
is_nil [] = true
is_nil (x ∷ xs) = false

abbrev pub selected : Option (List String) → List String
selected none = "posture:write" ∷ []
selected (some xs) = sorted_set xs

-- `_canonical_scopes`
unfoldable pub canonical_scopes : Option (List String) → Attempt Error (List String)
canonical_scopes scopes =
    need (not (is_nil (selected scopes)) && all_allowed (selected scopes)) bad_scopes
    >> done (selected scopes)

abbrev pub has_id : String → Row → Bool
has_id key row = row.key_id == key

-- `key_id or f"{agent_id}-..."`, with the generated one as an argument
abbrev pub key_or : String → Option String → String
key_or generated none = generated
key_or generated (some key) = if Text.is_empty key then generated else key

-- `register`, which gives the identifier of the key
unfoldable pub register :
    String
    → String
    → Option String
    → Option (List String)
    → ℕ
    → List Row
    → Attempt Error (String × List Row)
register generated agent key scopes now rows =
    let id = key_or generated key in
    canonical_scopes scopes >>= λ granted.
    need (not (Text.is_empty (Text.strip agent)) && is_safe_identifier id) bad_identifier
    >> (need (not (any (has_id id) rows)) key_exists
        >> done (
          id,
          rows
              ++ record {
                key_id = id;
                agent_id = agent;
                is_revoked = false;
                created_at = now;
                revoked_at = none;
                scopes = granted;
              }
                ∷ [],
        ))

-- `revoke`
unfoldable pub revoke : String → ℕ → List Row → List Row
revoke key now rows =
    update (has_id key) (λ row. record row { is_revoked = true; revoked_at = some now }) rows

abbrev pub is_active_row : Option Row → Bool
is_active_row none = false
is_active_row (some row) = not row.is_revoked

-- `is_active`
unfoldable pub is_active : String → List Row → Bool
is_active key rows = is_active_row (find (has_id key) rows)

abbrev pub grants : String → Option Row → Bool
grants scope none = false
grants scope (some row) = not row.is_revoked && contains row.scopes scope

-- `is_authorized`
unfoldable pub is_authorized : String → String → List Row → Bool
is_authorized key scope rows = contains allowed scope && grants scope (find (has_id key) rows)

unfoldable pub secret_for : String → List (String × String) → Option String
secret_for key [] = none
secret_for key ((k, s) ∷ rest) =
    let later = secret_for key rest in
    if k == key then (if Text.is_empty s then none else some s) else later

-- `resolve_secret`, for a map of texts
unfoldable pub resolve_secret : String → List (String × String) → List Row → Option String
resolve_secret key secrets_ rows = if is_active key rows then secret_for key secrets_ else none
