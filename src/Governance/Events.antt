-- ===== src/Governance/Events.antt =====
-- governance_core.py: `_event`, which appends to the hash chain of a finding and queues the event
-- for the outbox and for the audit export in the same transaction.
use sentinel_grc.Prelude.{
  ℕ, ◌+◌, Bool, ◌&&◌, ◌||◌, not, String, Option, none, some, List, [], ◌∷◌, ◌++◌, leb,
  if◌then◌else◌, ◌==◌, string_eq, nat_eq, any, nat_beq,
}
use sentinel_grc.Governance.Rows.{Actor, Event, Body, Payload, Notice, Details, Db}
use sentinel_grc.Governance.Exec.{Library, Fresh, Result, ok, ◌>>◌, check, integrity}

abbrev pub later_of : Event → Option Event → Event
later_of e none = e
later_of e (some f) = if leb f.event_sequence e.event_sequence then e else f

-- `... WHERE finding_id = ? ORDER BY event_sequence DESC LIMIT 1`
unfoldable pub latest : String → List Event → Option Event
latest k [] = none
latest k (e ∷ es) =
    let rest = latest k es in if e.finding_id == k then some (later_of e rest) else rest

abbrev pub hash_or : String → Option Event → String
hash_or d none = d
hash_or d (some e) = e.event_hash

abbrev pub sequence_or : ℕ → Option Event → ℕ
sequence_or d none = d
sequence_or d (some e) = e.event_sequence

-- `body`
abbrev pub body_of : String → String → Actor → ℕ → Details → String → Body
body_of k event_type actor now details previous = record {
  finding_id = k;
  event_type = event_type;
  actor_id = actor.actor_id;
  actor_role = actor.role;
  auth_method = actor.auth_method;
  occurred_at = now;
  details = details;
  previous_hash = previous;
}

-- The row that `_event` writes. `MAX(event_sequence)` is the sequence of the latest event.
unfoldable pub next_event :
    Library → Fresh → String → String → Actor → Details → ℕ → List Event → Event
next_event lib fresh k event_type actor details now events =
    let last = latest k events in
    let previous = hash_or "" last in
    record {
      event_id = fresh.event_id;
      finding_id = k;
      event_sequence = sequence_or 0 last + 1;
      event_type = event_type;
      actor_id = actor.actor_id;
      actor_role = actor.role;
      auth_method = actor.auth_method;
      occurred_at = now;
      details = details;
      previous_hash = previous;
      event_hash = lib.event_digest previous (body_of k event_type actor now details previous);
    }

-- `outbox_payload`
abbrev pub payload_of : Event → Payload
payload_of e = record {
  body = record {
    finding_id = e.finding_id;
    event_type = e.event_type;
    actor_id = e.actor_id;
    actor_role = e.actor_role;
    auth_method = e.auth_method;
    occurred_at = e.occurred_at;
    details = e.details;
    previous_hash = e.previous_hash;
  };
  event_id = e.event_id;
  event_sequence = e.event_sequence;
  event_hash = e.event_hash;
}

abbrev pub notice_of : String → Event → Notice
notice_of notice_id e = record {
  notice_id = notice_id;
  event_id = e.event_id;
  finding_id = e.finding_id;
  event_sequence = e.event_sequence;
  payload = payload_of e;
  created_at = e.occurred_at;
  available_at = e.occurred_at;
}

-- PRIMARY KEY(event_id), UNIQUE(event_hash)
abbrev pub clashes_event : Event → Event → Bool
clashes_event e f = f.event_id == e.event_id || f.event_hash == e.event_hash

-- The primary key, UNIQUE(event_id) and UNIQUE(finding_id, event_sequence) of both notice tables.
abbrev pub clashes_notice : Notice → Notice → Bool
clashes_notice n m =
    m.notice_id == n.notice_id
    || m.event_id == n.event_id
    || (m.finding_id == n.finding_id && nat_beq m.event_sequence n.event_sequence)

-- `_event`
unfoldable pub record_event :
    Library → Fresh → String → String → Actor → Details → ℕ → Db → Result Db
record_event lib fresh k event_type actor details now db =
    let e = next_event lib fresh k event_type actor details now db.events in
    let out = notice_of fresh.outbox_id e in
    let export = notice_of fresh.export_id e in
    do
      check (not (any (clashes_event e) db.events)) integrity
      check (not (any (clashes_notice out) db.outbox)) integrity
      check (not (any (clashes_notice export) db.exports)) integrity
      ok (record db {
        events = db.events ++ e ∷ [];
        outbox = db.outbox ++ out ∷ [];
        exports = db.exports ++ export ∷ [];
      })
