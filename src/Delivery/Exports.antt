-- ===== src/Delivery/Exports.antt =====
-- audit_delivery.py: `AuditExportQueue` and `AuditExportWorker`. In the rows
-- of Lease, export_id is `item_id` and archived_at is `done_at`.
pub mod Laws
pub mod Worker
use Prim.Native.String
use sentinel_grc.Prelude.{
  ℕ, ◌+◌, Bool, true, false, ◌&&◌, not, String, Option, none, some, List, ltb, leb, nat_beq,
  if◌then◌else◌, ◌==◌, string_eq, is_none, update, count,
}
use sentinel_grc.Prelude.Text
use sentinel_grc.Governance.Rows.{Payload}
use sentinel_grc.Delivery.Lease
use sentinel_grc.Delivery.Lease.{
  Item, Result, ok, err, bad_policy, bad_identity, bad_confirmation, is_leased, holds_lease,
}

-- The columns that a finished export adds, and the text of `payload_json`.
pub record Archive : Type 0 where
  pub payload_json : Option Payload
  pub object_key : Option String
  pub sha256 : Option String
  pub size_bytes : Option ℕ
  pub etag : Option String

abbrev pub Row : Type 0
Row = Item Archive

-- What `AuditArchive.persist_event` returns.
pub record Archived : Type 0 where
  pub object_key : String
  pub sha256 : String
  pub size_bytes : ℕ
  pub etag : String

-- `claim`: the statements of the outbox, on this table.
abbrev pub claim : String → ℕ → String → ℕ → List Row → Result (Option Row × List Row)
claim worker lease token now rows = Lease.claim worker lease token now rows

-- `export_id = ? AND archived_at IS NULL AND dead_at IS NULL AND worker_id = ? AND lock_token = ?`
abbrev pub is_held : Row → Row → Bool
is_held item row =
    row.item_id == item.item_id
    && (is_none row.done_at && (is_none row.dead_at && holds_lease item row))

abbrev pub is_ours : Row → ℕ → Row → Bool
is_ours item now row = is_held item row && is_leased now row

abbrev pub archived_row : Archived → ℕ → Row → Row
archived_row a now row = record row {
  done_at = some now;
  locked_until = none;
  worker_id = none;
  lock_token = none;
  last_error = none;
  extra = record row.extra {
    object_key = some a.object_key;
    sha256 = some a.sha256;
    size_bytes = some a.size_bytes;
    etag = some a.etag;
  };
}

abbrev pub rowcount_is_one : (Row → Bool) → List Row → Bool
rowcount_is_one p rows = nat_beq (count p rows) 1

-- `acknowledge`
unfoldable pub acknowledge : Row → Archived → ℕ → List Row → Bool × List Row
acknowledge item a now rows =
    (rowcount_is_one (is_ours item now) rows, update (is_ours item now) (archived_row a now) rows)

pub data Verdict : Type 0 where
  stale dead retry : Verdict

abbrev pub failed : Bool → ℕ → ℕ → Row → Row
failed is_dead delay now row = record row {
  available_at = now + delay;
  dead_at = if is_dead then some now else none;
  locked_until = none;
  worker_id = none;
  lock_token = none;
  last_error = some "audit archive delivery failed";
}

-- `fail`, which does not ask that the lease still runs.
unfoldable pub fail : Row → ℕ → ℕ → ℕ → List Row → Result (Verdict × List Row)
fail item max_attempts delay now rows =
    let is_dead = leb max_attempts item.attempts in
    if ltb max_attempts 1
    then err bad_policy
    else ok (
      if rowcount_is_one (is_held item) rows then (if is_dead then dead else retry) else stale,
      update (is_held item) (failed is_dead delay now) rows,
    )

pub record Metrics : Type 0 where
  pub archived_count : ℕ
  pub pending_count : ℕ
  pub dead_count : ℕ

-- `metrics`
unfoldable pub metrics : List Row → Metrics
metrics rows = record {
  archived_count = count (λ x. not (is_none x.done_at)) rows;
  pending_count = count (λ x. is_none x.done_at && is_none x.dead_at) rows;
  dead_count = count (λ x. not (is_none x.dead_at)) rows;
}

-- The rows that `requeue_dead` writes.
abbrev pub is_dead_letter : String → Row → Bool
is_dead_letter k row = row.item_id == k && (is_none row.done_at && not (is_none row.dead_at))

abbrev pub requeued : ℕ → Row → Row
requeued now row = record row {
  attempts = 0;
  available_at = now;
  dead_at = none;
  locked_until = none;
  worker_id = none;
  lock_token = none;
  last_error = none;
}

-- `requeue_dead`
unfoldable pub requeue_dead : String → String → ℕ → List Row → Result (Bool × List Row)
requeue_dead k confirmation now rows =
    if not (Text.is_hex 32 k)
    then err bad_identity
    else if confirmation == Prim.Native.String.◌++◌ "REQUEUE " k
    then ok (rowcount_is_one (is_dead_letter k) rows, update (is_dead_letter k) (requeued now) rows)
    else err bad_confirmation
