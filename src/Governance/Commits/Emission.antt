-- ===== src/Governance/Commits/Emission.antt =====
-- The transactional outbox: every commit appends one event to the log, and one notice of that event
-- to the outbox and one to the audit exports.
use mathlib.Core.List.{map-append}
use sentinel_grc.Prelude.{ℕ, String, ◌≡◌, refl, List, [], ◌∷◌, ◌++◌, map}
use sentinel_grc.Governance.Rows.{Actor, Event, Notice, Payload, Details, Db}
use sentinel_grc.Governance.Exec.{Library, Fresh}
use sentinel_grc.Governance.Events.{next_event, notice_of, payload_of}
use sentinel_grc.Governance.Commits.{Commit, create, reassess, submit, move, Reach, here, next}
use sentinel_grc.Governance.Commits.Registration.{Call, run, run-Reach}
use sentinel_grc.Governance.Commits.Writes.{
  Appended, create_body-ok, reassess_body-ok, evidence_body-ok, mutate_body-ok,
}

-- What a commit adds through `_event`.
pub record Emits (lib : Library) (db db' : Db) : Type 0 where
  pub fresh : Fresh
  pub subject : String
  pub event_type : String
  pub actor : Actor
  pub details : Details
  pub now : ℕ
  pub appended : Appended lib fresh subject event_type actor details now db db'

pub Commit-Emits : {lib : Library} {db db' : Db} → Commit lib db db' → Emits lib db db'
Commit-Emits {lib} {db} {db'} (create fresh v actor role h) = record {
  fresh = fresh;
  subject = v.finding_id;
  event_type = "finding_created";
  actor = actor;
  details = _;
  now = fresh.now;
  appended = (create_body-ok lib fresh v actor db db' h).appended;
}
Commit-Emits {lib} {db} {db'} (reassess fresh v actor role h) = record {
  fresh = fresh;
  subject = v.finding_id;
  event_type = "finding_reassessed";
  actor = actor;
  details = _;
  now = fresh.now;
  appended = (reassess_body-ok lib fresh v actor db db' h).appended;
}
Commit-Emits {lib} {db} {db'} (submit fresh k actor p stored role same h) = record {
  fresh = fresh;
  subject = k;
  event_type = "evidence_submitted";
  actor = actor;
  details = _;
  now = fresh.now;
  appended = (evidence_body-ok lib fresh k actor p stored db db' h).appended;
}
Commit-Emits {lib} {db} {db'} (move fresh k actor t m h) = record {
  fresh = fresh;
  subject = k;
  event_type = t.event_type;
  actor = actor;
  details = t.details;
  now = fresh.now;
  appended = (mutate_body-ok lib fresh k actor t db db' h).appended;
}

abbrev pub payloads : List Notice → List Payload
payloads = map (λ n. n.payload)

-- The notices tell of the events, each once and in the order of the log.
abbrev pub IsMirrored : Db → Type 0
IsMirrored db =
    (payloads db.outbox ≡ map payload_of db.events)
    × (payloads db.exports ≡ map payload_of db.events)

mirror_step :
    (before after : List Notice) (log log' : List Event) (n : Notice) (e : Event)
    → payloads before ≡ map payload_of log
    → after ≡ before ++ n ∷ []
    → log' ≡ log ++ e ∷ []
    → n.payload ≡ payload_of e
    → payloads after ≡ map payload_of log'
mirror_step before after log log' n e h grown logged same =
    rw (grown, logged) (simp (map-append, h, same))

Emits-IsMirrored : {lib : Library} {db db' : Db} → Emits lib db db' → IsMirrored db → IsMirrored db'
Emits-IsMirrored {lib} {db} {db'} em h =
    let e = next_event lib em.fresh em.subject em.event_type em.actor em.details em.now db.events in
    (
      mirror_step db.outbox db'.outbox db.events db'.events (notice_of em.fresh.outbox_id e) e h.0
          em.appended.1 em.appended.0 refl,
      mirror_step db.exports db'.exports db.events db'.events (notice_of em.fresh.export_id e) e h.1
          em.appended.2 em.appended.0 refl,
    )

pub Reach-IsMirrored :
    {lib : Library} {db db' : Db} → Reach lib db db' → IsMirrored db → IsMirrored db'
Reach-IsMirrored here h = h
Reach-IsMirrored (next r c) h = Emits-IsMirrored (Commit-Emits c) (Reach-IsMirrored r h)

-- From a database whose notices mirror its event log, after any calls of the nine methods, raising or
-- not, the payloads of the outbox, and those of the audit exports, are the payloads of the events,
-- each once and in the order of the log.
pub run-IsMirrored :
    (lib : Library) (calls : List Call) (db : Db) → IsMirrored db → IsMirrored (run lib calls db)
run-IsMirrored lib calls db = Reach-IsMirrored (run-Reach lib calls db)
