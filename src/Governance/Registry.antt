-- ===== src/Governance/Registry.antt =====
-- governance_core.py: `create_finding` and `upsert_finding`.
use sentinel_grc.Governance.Types.{rating_word}
use sentinel_grc.Governance.Rows.{Actor, Finding}
use sentinel_grc.Governance.Exec.{Library, Fresh, Result, ok, err, text, already_exists}
use sentinel_grc.Governance.Method.{Exec, transaction, lift, ◌>>=◌, ◌>>◌}
use sentinel_grc.Governance.Mutate.{get_finding}
use sentinel_grc.Governance.Intake.{NewFinding, Valid, validate, create_body, reassess_body}

-- `create_finding`
unfoldable pub create_finding : Library → Fresh → NewFinding → Actor → Exec Finding
create_finding lib fresh new actor = do
  v ← lift (validate new actor)
  transaction (create_body lib fresh v actor)
  get_finding v.finding_id

-- The call of `create_finding` in `upsert_finding` passes what its validation returned.
abbrev pub revalidated : Valid → NewFinding
revalidated v = record {
  finding_id = text v.finding_id;
  control_id = text v.control_id;
  asset_id = text v.asset_id;
  title = text v.title;
  risk_owner = text v.risk_owner;
  severity = text (rating_word v.severity);
}

-- The handler `except ValueError`: of what `create_finding` raises, only the message of a
-- duplicate has the words "already exists".
abbrev pub or_reassess : Exec Finding → Result Finding → Exec Finding
or_reassess again (ok f) db = (ok f, db)
or_reassess again (err already_exists) db = again db
or_reassess again (err e) db = (err e, db)

-- `upsert_finding`, with what the first and the second transaction draw.
unfoldable pub upsert_finding : Library → Fresh → Fresh → NewFinding → Actor → Exec Finding
upsert_finding lib fresh fresh' new actor = do
  v ← lift (validate new actor)
  let again : Exec Finding = do
    transaction (reassess_body lib fresh' v actor)
    get_finding v.finding_id
  (λ db.
      let (r, db') = create_finding lib fresh (revalidated v) actor db in or_reassess again r db')
