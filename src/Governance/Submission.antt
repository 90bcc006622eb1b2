-- ===== src/Governance/Submission.antt =====
-- governance_core.py: `submit_evidence` and its helpers.
use Prim.Native.Char.{code}
use sentinel_grc.Prelude.{
  ℕ, ◌+◌, ◌*◌, ◌/◌, ◌%◌, Bool, ◌&&◌, String, Option, none, some, List, [], ◌∷◌, ◌++◌, ltb, leb,
  if◌then◌else◌, ◌==◌, string_eq, not, any, update, length,
}
use sentinel_grc.Governance.Types
use sentinel_grc.Governance.Types.{
  Status, status_eq, admin, analyst, in_progress, pending_verification,
}
use sentinel_grc.Governance.Rows.{Actor, Finding, Evidence, Details, str, num, Db}
use sentinel_grc.Governance.Exec.{
  Library, Fresh, Result, ok, err, Value, ◌>>=◌, ◌>>◌, check, or_raise, bad_content, store_failed,
  inconsistent_store, not_found, cannot_transition, integrity, Stored, EvidenceStore,
}
use sentinel_grc.Governance.Validate.{require, required_text, max_identifier_length}
use sentinel_grc.Governance.Events.{record_event}
use sentinel_grc.Governance.Method
use sentinel_grc.Governance.Method.{Exec}
use sentinel_grc.Governance.Mutate.{has_id, find_finding, get_finding}

abbrev pub max_evidence_bytes : ℕ
max_evidence_bytes = 256 * 1024

-- `content`: bytes, text, or a value of another type.
pub data Content : Type 0 where
  bytes : List ℕ → Content
  text : String → Content
  other : Content

-- UTF-8 of one code point.
unfoldable pub utf8 : ℕ → List ℕ
utf8 c =
    if ltb c 0x80
    then c ∷ []
    else if ltb c 0x800
    then (0xc0 + c / 64) ∷ (0x80 + c % 64) ∷ []
    else if ltb c 0x10000
    then (0xe0 + c / 4096) ∷ (0x80 + c / 64 % 64) ∷ (0x80 + c % 64) ∷ []
    else (0xf0 + c / 262144) ∷ (0x80 + c / 4096 % 64) ∷ (0x80 + c / 64 % 64) ∷ (0x80 + c % 64) ∷ []

-- `content.encode("utf-8")`
unfoldable pub encode : String → List ℕ
unfolding utf8
encode String.[] = []
encode (String.◌∷◌ c s) = utf8 (code c) ++ encode s

unfoldable pub raw_of : Content → Result (List ℕ)
unfolding encode
raw_of (bytes b) = ok b
raw_of (text s) = ok (encode s)
raw_of other = err bad_content

pub record Prepared : Type 0 where
  pub source : String
  pub raw : List ℕ
  pub digest : String

-- `_prepare_evidence`
unfoldable pub prepare_evidence : Library → Value → Content → Result Prepared
unfolding raw_of
prepare_evidence lib source content = do
  s ← required_text source max_identifier_length
  raw ← raw_of content
  check (not (ltb (length raw) 1) && leb (length raw) max_evidence_bytes) bad_content
  ok (record { source = s; raw = raw; digest = lib.content_digest raw })

-- The rows that `_has_duplicate_evidence` and `_existing_evidence_row` look for.
abbrev pub is_same_evidence : String → String → String → String → Evidence → Bool
is_same_evidence k digest source who e =
    e.finding_id == k && e.sha256 == digest && e.source == source && e.submitted_by == who

-- `_persist_checked_evidence`
unfoldable pub persist_checked : EvidenceStore → Prepared → Result Stored
persist_checked store p = do
  stored ← or_raise (store p.raw) store_failed
  check (stored.sha256 == p.digest) inconsistent_store
  ok stored

abbrev pub evidence_row : Fresh → String → Actor → String → Stored → Evidence
evidence_row fresh k actor source stored = record {
  evidence_id = fresh.row_id;
  finding_id = k;
  source = source;
  sha256 = stored.sha256;
  submitted_by = actor.actor_id;
  submitted_at = fresh.now;
  object_key = stored.object_key;
  size_bytes = stored.size_bytes;
  etag = stored.etag;
}

abbrev pub evidence_details : Fresh → String → Stored → Details
evidence_details fresh source stored =
    ("evidence_id", str fresh.row_id)
    ∷ ("source", str source)
    ∷ ("sha256", str stored.sha256)
    ∷ ("object_key", str stored.object_key)
    ∷ ("size_bytes", num stored.size_bytes)
    ∷ []

abbrev pub submitted : String → ℕ → Finding → Finding
submitted who now f = record f {
  status = pending_verification;
  evidence_submitter = some who;
  updated_at = now;
}

-- The writes of `_commit_evidence`.
unfoldable pub evidence_write :
    Library → Fresh → String → Actor → Prepared → Stored → Db → Result Db
evidence_write lib fresh k actor p stored db = do
  check (not (any (λ x. x.evidence_id == fresh.row_id) db.evidence)) integrity
  record_event lib fresh k "evidence_submitted" actor (evidence_details fresh p.source stored)
      fresh.now
      (record db {
        evidence = db.evidence ++ evidence_row fresh k actor p.source stored ∷ [];
        findings = update (has_id k) (submitted actor.actor_id fresh.now) db.findings;
      })

-- The transaction of `_commit_evidence`; `none` is the early return on a duplicate, which rolls
-- back.
unfoldable pub evidence_body :
    Library → Fresh → String → Actor → Prepared → Stored → Db → Result (Option Db)
evidence_body lib fresh k actor p stored db = do
  row ← or_raise (find_finding k db) not_found
  if row.status == in_progress
      then (do done ← evidence_write lib fresh k actor p stored db; ok (some done))
      else if any (is_same_evidence k p.digest p.source actor.actor_id) db.evidence
          && row.status == pending_verification
      then ok none
      else err (cannot_transition row.status)

-- `_commit_evidence`, and the return of `submit_evidence`: either way the stored finding.
abbrev pub finish_evidence : String → Result (Option Db) → Exec Finding
finish_evidence k (ok (some db')) db = get_finding k db'
finish_evidence k (ok none) db = get_finding k db
finish_evidence k (err e) db = (err e, db)

-- `submit_evidence` once its finding is read.
unfoldable pub submit_for :
    Library → EvidenceStore → Fresh → String → Actor → Prepared → Finding → Exec Finding
submit_for lib store fresh k actor p finding db =
    if finding.status == pending_verification
      && any (is_same_evidence k p.digest p.source actor.actor_id) db.evidence
    then (ok finding, db)
    else if finding.status == in_progress
    then Method.continue (persist_checked store p)
        (λ stored now. finish_evidence k (evidence_body lib fresh k actor p stored now) now) db
    else (err (cannot_transition finding.status), db)

-- `submit_evidence`
unfoldable pub submit_evidence :
    Library → EvidenceStore → Fresh → String → Actor → Value → Content → Exec Finding
submit_evidence lib store fresh k actor source content =
    Method.◌>>=◌
      (Method.lift (do
        require actor (Types.risk_owner ∷ analyst ∷ admin ∷ [])
        prepare_evidence lib source content))
      (λ p. Method.◌>>=◌ (get_finding k) (submit_for lib store fresh k actor p))
