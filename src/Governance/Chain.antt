-- ===== src/Governance/Chain.antt =====
-- governance_core.py: `list_events` and `verify_event_chain`.
mod Sorting
pub mod Links
pub mod Invariant
pub use Sorting.{list_events}
use sentinel_grc.Prelude.{
  ℕ, Bool, true, false, ◌&&◌, String, Option, none, some, List, [], ◌∷◌, if◌then◌else◌, ◌==◌,
  string_eq,
}
use sentinel_grc.Governance.Rows.{Event, Body, Db}
use sentinel_grc.Governance.Exec.{Library}

-- The body that `verify_event_chain` rebuilds from a row.
abbrev pub body_in_row : String → String → Event → Body
body_in_row k previous e = record {
  finding_id = k;
  event_type = e.event_type;
  actor_id = e.actor_id;
  actor_role = e.actor_role;
  auth_method = e.auth_method;
  occurred_at = e.occurred_at;
  details = e.details;
  previous_hash = previous;
}

-- The loop of `verify_event_chain`.
unfoldable pub chain_holds : Library → String → String → List Event → Bool
chain_holds lib k previous [] = true
chain_holds lib k previous (e ∷ es) =
    let rest = chain_holds lib k e.event_hash es in
    if e.previous_hash == previous
      && e.event_hash == lib.event_digest previous (body_in_row k previous e)
    then rest
    else false

-- `verify_event_chain`
unfoldable pub verify_event_chain : Library → String → Db → Bool
verify_event_chain lib k db = chain_holds lib k "" (list_events k db)
