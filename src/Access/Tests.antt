-- ===== src/Access/Tests.antt =====
-- Keys of one user and one agent, and the theorems at them.
use sentinel_grc.Prelude.{
  true, false, String, ◌≡◌, refl, none, some, List, [], ◌∷◌, any, contains, string_eq,
}
use sentinel_grc.Prelude.Text
use sentinel_grc.Prelude.Attempt.{failed, done}
use sentinel_grc.Governance.Rows.{Actor}
use sentinel_grc.Governance.Types.{analyst}
use sentinel_grc.Governance.Validate.{role_of, make_actor, is_blank}
use sentinel_grc.Access.{is_safe_identifier, all_safe}
use sentinel_grc.Access.Identity
use sentinel_grc.Access.Identity.{
  create_user, issue_api_key, authenticate, revoke_key, not_authenticated, is_key,
}
use sentinel_grc.Access.Identity.Laws
use sentinel_grc.Access.Identity.Laws.{create_op, issue_op, revoke_op, revokes}
use sentinel_grc.Access.Identity.History.{empty_db, issues, revoked_key_never, authenticate_genuine}
use sentinel_grc.Access.Identity.Issuance.{issued_key_authenticates}
use sentinel_grc.Access.AgentKeys
use sentinel_grc.Access.AgentKeys.{Row, register, revoke, is_authorized, is_active, resolve_secret}
use sentinel_grc.Access.AgentKeys.Scopes
use sentinel_grc.Access.AgentKeys.Scopes.{register_op, registered_key_scopes}
use sentinel_grc.Access.AgentKeys.Revocation.{revoked_agent_key_never}

abbrev hash : String → String
hash s = s

abbrev hired : List Laws.Op
hired = create_op "ana" "analyst" ∷ []

abbrev later : List Laws.Op
later = create_op "bob" "ciso" ∷ issue_op "s2" "bob" "k2" ∷ revoke_op "k2" ∷ []

abbrev one_key : Identity.Db
one_key = record {
  users = record { user_id = "ana"; role = "analyst"; active = true } ∷ [];
  keys = record { key_id = "k1"; user_id = "ana"; secret_hash = "s1"; active = true } ∷ [];
}

issued : issue_api_key hash "s1" "ana" "k1" (Laws.run hash hired empty_db) ≡ done ("s1", one_key)
unfolding issue_api_key Laws.run create_user is_safe_identifier all_safe role_of Text.length
issued = refl

issued_key_authenticates_example :
    (a : Actor) × (authenticate hash "k1" "s1" (Laws.run hash later one_key) ≡ done a)
    × (a.actor_id ≡ "ana")
issued_key_authenticates_example =
    issued_key_authenticates hash hired later "s1" "ana" "k1" "s1" one_key issued refl

abbrev ana : Actor
ana = record { actor_id = "ana"; role = analyst; auth_method = "api_key" }

abbrev history : List Laws.Op
history = create_op "ana" "analyst" ∷ issue_op "s1" "ana" "k1" ∷ []

known : authenticate hash "k1" "s1" (Laws.run hash history empty_db) ≡ done ana
unfolding authenticate Identity.join issue_api_key Laws.run create_user is_safe_identifier all_safe
    role_of Text.length make_actor is_blank Text.strip
known = refl

authenticate_genuine_example : any (issues hash "k1" "ana" "s1") history ≡ true
authenticate_genuine_example = authenticate_genuine hash "k1" "s1" history ana known

revoked_key_never_example :
    authenticate hash "k1" "s1" (Laws.run hash later (revoke_key "k1" one_key))
    ≡ failed not_authenticated
revoked_key_never_example = revoked_key_never hash "k1" "s1" later one_key refl

abbrev asked : List String
asked = "posture:write" ∷ "asset-context:write" ∷ "posture:write" ∷ []

abbrev agent_rows : List Row
agent_rows =
    record {
      key_id = "a1";
      agent_id = "agent";
      is_revoked = false;
      created_at = 7;
      revoked_at = none;
      scopes = "asset-context:write" ∷ "posture:write" ∷ [];
    }
    ∷ []

registered : register "gen" "agent" (some "a1") (some asked) 7 [] ≡ done ("a1", agent_rows)
unfolding register AgentKeys.canonical_scopes AgentKeys.sorted_set AgentKeys.inserted
    AgentKeys.precedes is_safe_identifier all_safe Text.length Text.strip
registered = refl

abbrev agent_calls : List Scopes.Op
agent_calls = register_op "gen" "other" none none 8 ∷ Scopes.revoke_op "gen" 9 ∷ []

registered_key_scopes_example :
    (is_authorized "a1" "remediation-ticket:write" (Scopes.run agent_calls agent_rows)
      ≡ contains asked "remediation-ticket:write")
    × (is_active "a1" (Scopes.run agent_calls agent_rows) ≡ true)
registered_key_scopes_example =
    registered_key_scopes "gen" "agent" "a1" "remediation-ticket:write" (some "a1") asked 7
      agent_calls [] agent_rows registered refl

revoked_agent_key_never_example :
    (is_authorized "a1" "posture:write" (Scopes.run agent_calls (revoke "a1" 8 agent_rows)) ≡ false)
    × (is_active "a1" (Scopes.run agent_calls (revoke "a1" 8 agent_rows)) ≡ false)
    × (resolve_secret "a1" (("a1", "s") ∷ []) (Scopes.run agent_calls (revoke "a1" 8 agent_rows))
        ≡ none)
revoked_agent_key_never_example =
    revoked_agent_key_never "a1" "posture:write" (("a1", "s") ∷ []) 8 agent_calls agent_rows refl
