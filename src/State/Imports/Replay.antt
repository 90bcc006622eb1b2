-- ===== src/State/Imports/Replay.antt =====
-- An import that is repeated with the same evidence is recognised, whatever happened in between.
use sentinel_grc.Prelude.{
  ℕ, Bool, true, String, ◌≡◌, refl, ◌∙◌, ap, ◌⊎◌, inl, inr, Option, List, [], ◌∷◌, ◌++◌, arith,
  if◌then◌else◌, ◌==◌, string_eq, beq_refl, any, update, Bool-cases,
}
use sentinel_grc.Prelude.Text
use sentinel_grc.State.{Answer, raised, returned, after, bad_evidence_hash}
use sentinel_grc.State.Imports.{
  Import, Complete, stored, AuditEvent, Db, Action, Outcome, replayed, created, reassessed,
  complete, is_import, has_id, new_event, delivered, recorded, import_complete, record_import,
  upsert_external_finding, mark_delivered, pending_event,
}

-- A call of a method that writes.
pub data Op : Type 0 where
  import_op : Import → String → ℕ → Op
  upsert_op : Import → ℕ → Op
  mark_op : String → ℕ → Op

abbrev db_of : {A : Type 0} → Answer (A × Db) → Db → Db
db_of (raised e) db = db
db_of (returned r) db = r.1

abbrev pub perform : (String → String) → Op → Db → Db
perform digest (import_op i hash now) db = db_of (record_import digest i hash now db) db
perform digest (upsert_op i now) db = db_of (upsert_external_finding i now db) db
perform digest (mark_op k now) db = elim (mark_delivered k now db) [
  | raised e ↦ db
  | returned db' ↦ db'
]

-- The database after some calls; a raise ends only its own call.
unfoldable pub run : (String → String) → List Op → Db → Db
run digest [] db = db
run digest (op ∷ ops) db = run digest ops (perform digest op db)

abbrev is_known : String → String → Db → Bool
is_known f hash db = any (is_import f hash) db.outbox

any-append :
    (p : AuditEvent → Bool) (es : List AuditEvent) (e : AuditEvent)
    → (any p es ≡ true) ⊎ (p e ≡ true)
    → any p (es ++ e ∷ []) ≡ true
any-append p [] e h = ground arith
any-append p (x ∷ xs) e (inl h) = ground (arith, any-append p xs e)
any-append p (x ∷ xs) e (inr h) = ground (arith, any-append p xs e (inr h))

any-delivered :
    (f hash k : String) (now : ℕ) (es : List AuditEvent)
    → any (is_import f hash) es ≡ true
    → any (is_import f hash) (update (λ e. e.event_id == k) (delivered now) es) ≡ true
any-delivered f hash k now [] h = h
any-delivered f hash k now (x ∷ xs) h = ground (arith, any-delivered f hash k now xs)

abbrev pair : Outcome → Db → Answer (Outcome × Db)
pair o db = returned (o, db)

returned_db : {o o' : Outcome} {a b : Db} → pair o a ≡ pair o' b → b ≡ a
returned_db h = ground arith

module _ (digest : String → String) where
  recorded-grows :
      (c : Complete) (hash : String) (action : Action) (now : ℕ) (fs : _) (db : Db) (o : Outcome)
      (db' : Db)
      → recorded digest c hash action now fs db ≡ returned (o, db')
      → db'.outbox ≡ db.outbox ++ new_event digest c hash action now ∷ []
  unfolding recorded
  recorded-grows c hash action now fs db o db' h =
      elim (Bool-cases
        (any (λ x. x.event_id == (new_event digest c hash action now).event_id) db.outbox)) [
          | inl clash ↦ absurd (cc (rw clash at h))
          | inr free ↦ ap (λ (r : Db). r.outbox) (returned_db (rw free at h))
        ]

  import_complete-grows :
      (c : Complete) (hash : String) (now : ℕ) (db : Db) (o : Outcome) (db' : Db)
      → import_complete digest c hash now db ≡ returned (o, db')
      → ((db' ≡ db) × (is_known c.finding_id hash db ≡ true))
        ⊎ ((a : Action) × (db'.outbox ≡ db.outbox ++ new_event digest c hash a now ∷ []))
  unfolding import_complete
  import_complete-grows c hash now db o db' h = elim (Bool-cases (is_known c.finding_id hash db)) [
    | inl known ↦ inl (returned_db (rw known at h), known)
    | inr new_ ↦ elim (Bool-cases (any (has_id c.finding_id) db.findings)) [
      | inl old ↦
          inr (reassessed, recorded-grows c hash reassessed now _ db o db' (rw (new_, old) at h))
      | inr fresh ↦
          inr (created, recorded-grows c hash created now _ db o db' (rw (new_, fresh) at h))
    ]
  ]

  -- The import that `record_import` runs, once its arguments pass.
  record_import-complete :
      (i : Import) (hash : String) (now : ℕ) (db : Db) (r : Outcome × Db)
      → record_import digest i hash now db ≡ returned r
      → (c : Complete) × (import_complete digest c hash now db ≡ returned r)
        × ((later : ℕ) (other : Db)
            → record_import digest i hash later other ≡ import_complete digest c hash later other)
  unfolding record_import
  record_import-complete i hash now db r = go (complete i) refl
    where
      go :
          (v : Answer Complete)
          → complete i ≡ v
          → after v (λ c.
            if Text.is_hex 64 hash
            then import_complete digest c hash now db
            else raised bad_evidence_hash)
            ≡ returned r
          → (c : Complete) × (import_complete digest c hash now db ≡ returned r)
            × ((later : ℕ) (other : Db)
                → record_import digest i hash later other
                  ≡ import_complete digest c hash later other)
      go (raised e) same h = absurd (cc)
      go (returned c) same h = elim (Bool-cases (Text.is_hex 64 hash)) [
        | inl hex ↦ (c, rw hex at h, λ later other. rw (same, hex) refl)
        | inr not_hex ↦ absurd (cc (rw not_hex at h))
      ]

  grows-known :
      (c : Complete) (hash : String) (now : ℕ) (db : Db) (o : Outcome) (db' : Db)
      → import_complete digest c hash now db ≡ returned (o, db')
      → is_known c.finding_id hash db' ≡ true
  grows-known c hash now db o db' h = elim (import_complete-grows c hash now db o db' h) [
    | inl (same, known) ↦ rw same known
    | inr (a, grown) ↦ rw grown (
        any-append (is_import c.finding_id hash) db.outbox (new_event digest c hash a now)
          (inr (ground (arith, beq_refl c.finding_id, beq_refl hash))))
  ]

  import-keeps :
      (f hash : String) (i : Import) (hash' : String) (now : ℕ) (db : Db)
      (r : Answer (Outcome × Db))
      → record_import digest i hash' now db ≡ r
      → is_known f hash db ≡ true
      → is_known f hash (db_of r db) ≡ true
  import-keeps f hash i hash' now db (raised e) ran known = known
  import-keeps f hash i hash' now db (returned (o, db')) ran known =
      let (c, done, _) = record_import-complete i hash' now db (o, db') ran in
      elim (import_complete-grows c hash' now db o db' done) [
        | inl (same, _) ↦ rw same known
        | inr (a, grown) ↦
            rw grown
              (any-append (is_import f hash) db.outbox (new_event digest c hash' a now) (inl known))
      ]

  upsert-keeps :
      (f hash : String) (i : Import) (now : ℕ) (db : Db)
      → is_known f hash db ≡ true
      → is_known f hash (perform digest (upsert_op i now) db) ≡ true
  unfolding upsert_external_finding
  upsert-keeps f hash i now db known = go (complete i)
    where
      go : (v : Answer Complete) → is_known f hash (db_of (after v (stored now db)) db) ≡ true
      go (raised e) = known
      go (returned c) = elim (Bool-cases (any (has_id c.finding_id) db.findings)) [
        | inl old ↦ rw old known
        | inr fresh ↦ rw fresh known
      ]

  mark-keeps :
      (f hash k : String) (now : ℕ) (db : Db)
      → is_known f hash db ≡ true
      → is_known f hash (perform digest (mark_op k now) db) ≡ true
  unfolding mark_delivered
  mark-keeps f hash k now db known = elim (Bool-cases (any (λ e. e.event_id == k) db.outbox)) [
    | inl there ↦ rw (perform, there) (any-delivered f hash k now db.outbox known)
    | inr unknown ↦ rw (perform, unknown) known
  ]

  run-keeps :
      (f hash : String) (ops : List Op) (db : Db)
      → is_known f hash db ≡ true
      → is_known f hash (run digest ops db) ≡ true
  unfolding run
  run-keeps f hash [] db known = known
  run-keeps f hash (import_op i hash' now ∷ ops) db known =
      run-keeps f hash ops _
        (import-keeps f hash i hash' now db (record_import digest i hash' now db) refl known)
  run-keeps f hash (upsert_op i now ∷ ops) db known =
      run-keeps f hash ops _ (upsert-keeps f hash i now db known)
  run-keeps f hash (mark_op k now ∷ ops) db known =
      run-keeps f hash ops _ (mark-keeps f hash k now db known)

  known-replayed :
      (c : Complete) (hash : String) (now : ℕ) (db : Db)
      → is_known c.finding_id hash db ≡ true
      → import_complete digest c hash now db
        ≡ returned ((replayed, pending_event c.finding_id hash db), db)
  unfolding import_complete
  known-replayed c hash now db known = rw known refl

  -- Once a finding is imported with some evidence, the same import is answered as a replay and
  -- changes nothing, at any later time and after any imports, reassessments and deliveries in between.
  pub import-replayed :
      (i : Import) (hash : String) (now later : ℕ) (ops : List Op) (db db' : Db) (o : Outcome)
      → record_import digest i hash now db ≡ returned (o, db')
      → (e : Option AuditEvent) × (record_import digest i hash later (run digest ops db')
          ≡ returned ((replayed, e), run digest ops db'))
  import-replayed i hash now later ops db db' o ran =
      let (c, done, again) = record_import-complete i hash now db (o, db') ran in
      let known = run-keeps c.finding_id hash ops db' (grows-known c hash now db o db' done) in
      (
        pending_event c.finding_id hash (run digest ops db'),
        again later (run digest ops db') ∙ known-replayed c hash later (run digest ops db') known,
      )
