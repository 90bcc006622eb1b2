-- ===== src/Access/Identity.antt =====
-- human_identity.py: `HumanIdentityStore`. The SHA-256 of a secret and the secrets of `token_urlsafe` are
-- arguments.
pub mod Laws
pub mod History
pub mod Issuance
use sentinel_grc.Prelude.{
  ℕ, Bool, true, false, ◌&&◌, not, String, Option, none, some, List, [], ◌∷◌, ◌++◌, if◌then◌else◌,
  ◌==◌, string_eq, is_none, any, find, update,
}
use sentinel_grc.Prelude.Attempt.{Attempt, failed, done, ◌>>=◌, ◌>>◌, need}
use sentinel_grc.Governance.Rows.{Actor}
use sentinel_grc.Governance.Exec
use sentinel_grc.Governance.Exec.{Result, ok, err}
use sentinel_grc.Governance.Validate.{role_of, make_actor}
use sentinel_grc.Access.{is_safe_identifier}

-- `users`
pub record User : Type 0 where
  pub user_id : String
  pub role : String
  pub active : Bool

-- `user_api_keys`
pub record Key : Type 0 where
  pub key_id : String
  pub user_id : String
  pub secret_hash : String
  pub active : Bool

pub record Db : Type 0 where
  pub users : List User
  pub keys : List Key

pub data Error : Type 0 where
  bad_user user_exists bad_key_id no_active_user key_exists not_authenticated bad_context : Error

abbrev pub is_user : String → User → Bool
is_user id row = row.user_id == id

abbrev pub is_key : String → Key → Bool
is_key id row = row.key_id == id

-- `create_user`
unfoldable pub create_user : String → String → Db → Attempt Error Db
create_user id role db =
    need (is_safe_identifier id && not (is_none (role_of role))) bad_user
    >> (need (not (any (is_user id) db.users)) user_exists
        >> done (record db {
          users = db.users ++ record { user_id = id; role = role; active = true } ∷ [];
        }))

abbrev pub is_active_row : Option User → Bool
is_active_row none = false
is_active_row (some u) = u.active

abbrev pub new_key : String → String → String → Key
new_key key id h = record { key_id = key; user_id = id; secret_hash = h; active = true }

-- `issue_api_key`, with the secret that it makes
unfoldable pub issue_api_key :
    (String → String) → String → String → String → Db → Attempt Error (String × Db)
issue_api_key hash secret id key db =
    need (is_safe_identifier key) bad_key_id
    >> (need (is_active_row (find (is_user id) db.users)) no_active_user
        >> (need (not (any (is_key key) db.keys)) key_exists
            >> done (secret, record db { keys = db.keys ++ new_key key id (hash secret) ∷ [] })))

abbrev pub revoked : Key → Key
revoked row = record row { active = false }

-- `revoke_key`
unfoldable pub revoke_key : String → Db → Db
revoke_key key db = record db { keys = update (is_key key) revoked db.keys }

abbrev pub is_active_user : String → User → Bool
is_active_user id row = is_user id row && row.active

abbrev pub paired : Key → Option User → Option (User × Key) → Option (User × Key)
paired k none rest = rest
paired k (some u) rest = some (u, k)

-- The first row of the join: an active key with that identifier, and its active user.
unfoldable pub join : String → List User → List Key → Option (User × Key)
join key users [] = none
join key users (k ∷ ks) =
    let rest = join key users ks in
    if is_key key k && k.active then paired k (find (is_active_user k.user_id) users) rest else rest

abbrev pub of_context : Result Actor → Attempt Error Actor
of_context (ok a) = done a
of_context (err x) = failed bad_context

abbrev pub checked : (String → String) → String → Option (User × Key) → Attempt Error Actor
checked hash secret none = failed not_authenticated
checked hash secret (some (u, k)) =
    need (k.secret_hash == hash secret) not_authenticated
    >> of_context (make_actor u.user_id u.role "api_key")

-- `authenticate`
unfoldable pub authenticate : (String → String) → String → String → Db → Attempt Error Actor
authenticate hash key secret db = checked hash secret (join key db.users db.keys)
