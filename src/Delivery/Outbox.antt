-- ===== src/Delivery/Outbox.antt =====
-- outbox_delivery.py: `GovernanceOutboxQueue`. Numbers that the code tests for being negative are
-- naturals here.
pub mod Message
pub mod Worker
pub mod Laws
use Prim.Native.String
use sentinel_grc.Prelude.{
  ℕ, ◌+◌, ◌-◌, Bool, true, false, ◌&&◌, ◌||◌, not, String, Option, none, some, List, [], ◌∷◌, ◌++◌,
  leb, ltb, nat_beq, if◌then◌else◌, ◌==◌, string_eq, is_none, opt_is, any, find, update, count,
}
use sentinel_grc.Prelude.Text
use sentinel_grc.Governance.Rows.{Payload}
use sentinel_grc.Delivery.Lease.{
  Item, Result, ok, err, receipt_mismatch, bad_policy, bad_identity, bad_confirmation, bad_worker,
  bad_heartbeat, is_leased, has_id, holds_lease,
}

-- The text of `payload_json`: the canonical JSON of a payload, another text of the same object, a
-- JSON value that is no object, and a text that is no JSON.
pub data PayloadText : Type 0 where
  canonical : Payload → PayloadText
  reordered : Payload → PayloadText
  no_object : PayloadText
  no_json : PayloadText

pub record Broker : Type 0 where
  pub topic : String
  pub payload_json : PayloadText
  pub broker_message_id : Option String
  pub broker_accepted_at : Option ℕ

abbrev pub Row : Type 0
Row = Item Broker

abbrev pub is_ours : Row → ℕ → Row → Bool
is_ours item now row =
    row.item_id == item.item_id
    && (is_none row.done_at && (is_none row.dead_at && (holds_lease item row && is_leased now row)))

abbrev pub delivered : String → ℕ → Row → Row
delivered receipt now row = record row {
  done_at = some now;
  locked_until = none;
  worker_id = none;
  lock_token = none;
  last_error = none;
  extra = record row.extra { broker_accepted_at = some now; broker_message_id = some receipt };
}

abbrev pub rowcount_is_one : (Row → Bool) → List Row → Bool
rowcount_is_one p rows = nat_beq (count p rows) 1

-- `acknowledge`, once the row is read
unfoldable pub acknowledge_row : Row → String → ℕ → Option Row → List Row → Bool × List Row
acknowledge_row item receipt now none rows = (false, rows)
acknowledge_row item receipt now (some row) rows =
    if is_none row.done_at
    then (
      rowcount_is_one (is_ours item now) rows,
      update (is_ours item now) (delivered receipt now) rows,
    )
    else (opt_is row.extra.broker_message_id receipt, rows)

-- `acknowledge`; `receipt` is `receipt.message_id`.
unfoldable pub acknowledge : Row → String → ℕ → List Row → Result (Bool × List Row)
acknowledge item receipt now rows =
    if receipt == item.item_id
    then ok (acknowledge_row item receipt now (find (has_id item.item_id) rows) rows)
    else err receipt_mismatch

pub data Verdict : Type 0 where
  stale dead retry : Verdict

abbrev pub failed : Bool → ℕ → String → ℕ → Row → Row
failed is_dead delay error now row = record row {
  available_at = if is_dead then now else now + delay;
  dead_at = if is_dead then some now else none;
  locked_until = none;
  worker_id = none;
  lock_token = none;
  last_error = some (Text.take 2000 error);
}

abbrev pub is_last : Bool → ℕ → Row → Bool
is_last permanent max_attempts item = permanent || leb max_attempts item.attempts

-- `fail`
unfoldable pub fail : Row → String → Bool → ℕ → ℕ → ℕ → List Row → Result (Verdict × List Row)
fail item error permanent max_attempts delay now rows =
    let is_dead = is_last permanent max_attempts item in
    if ltb max_attempts 1
    then err bad_policy
    else ok (
      if rowcount_is_one (is_ours item now) rows then (if is_dead then dead else retry) else stale,
      update (is_ours item now) (failed is_dead delay error now) rows,
    )

-- The rows that `requeue_dead` writes.
abbrev pub is_dead_letter : String → Row → Bool
is_dead_letter k row = row.item_id == k && (is_none row.done_at && not (is_none row.dead_at))

abbrev pub requeued : ℕ → Row → Row
requeued now row = record row {
  attempts = 0;
  available_at = now;
  dead_at = none;
  locked_until = none;
  worker_id = none;
  lock_token = none;
  last_error = none;
}

-- `requeue_dead`
unfoldable pub requeue_dead : String → String → ℕ → List Row → Result (Bool × List Row)
requeue_dead k confirmation now rows =
    if not (Text.is_hex 32 k)
    then err bad_identity
    else if confirmation == Prim.Native.String.◌++◌ "REQUEUE OUTBOX " k
    then ok (rowcount_is_one (is_dead_letter k) rows, update (is_dead_letter k) (requeued now) rows)
    else err bad_confirmation

-- `outbox_worker_heartbeats`
pub data Health : Type 0 where
  running degraded : Health

pub record Heartbeat : Type 0 where
  pub worker_id : String
  pub heartbeat_at : ℕ
  pub health : Health

abbrev pub upsert_heartbeat : Heartbeat → List Heartbeat → List Heartbeat
upsert_heartbeat h hs =
    if any (λ x. x.worker_id == h.worker_id) hs
    then update (λ x. x.worker_id == h.worker_id) (λ x. h) hs
    else hs ++ h ∷ []

-- `heartbeat`
unfoldable pub heartbeat : String → Health → ℕ → List Heartbeat → Result (List Heartbeat)
heartbeat worker health now hs =
    if Text.is_empty (Text.strip worker)
    then err bad_heartbeat
    else ok
        (upsert_heartbeat (record { worker_id = worker; heartbeat_at = now; health = health }) hs)

pub record Metrics : Type 0 where
  pub delivered_count : ℕ
  pub pending_count : ℕ
  pub dead_count : ℕ
  pub retrying_count : ℕ
  pub oldest_pending_age : ℕ

abbrev pub is_pending : Row → Bool
is_pending row = is_none row.done_at && is_none row.dead_at

-- MIN(created_at) of the pending rows
unfoldable pub oldest_pending : List Row → Option ℕ
oldest_pending [] = none
oldest_pending (x ∷ xs) =
    let rest = oldest_pending xs in
    if is_pending x
    then elim rest [
      | none ↦ some x.created_at
      | some t ↦ some (if ltb x.created_at t then x.created_at else t)
    ]
    else rest

-- `metrics`
unfoldable pub metrics : ℕ → List Row → Metrics
metrics now rows = record {
  delivered_count = count (λ x. not (is_none x.done_at)) rows;
  pending_count = count is_pending rows;
  dead_count = count (λ x. not (is_none x.dead_at)) rows;
  retrying_count = count (λ x. is_pending x && not (is_none x.last_error)) rows;
  oldest_pending_age = elim (oldest_pending rows) [ none ↦ 0 | some t ↦ now - t ];
}

abbrev pub newer : Heartbeat → Option Heartbeat → Heartbeat
newer x none = x
newer x (some y) = if ltb x.heartbeat_at y.heartbeat_at then y else x

-- `ORDER BY heartbeat_at DESC LIMIT 1`
unfoldable pub latest_heartbeat : List Heartbeat → Option Heartbeat
latest_heartbeat [] = none
latest_heartbeat (x ∷ xs) = some (newer x (latest_heartbeat xs))

abbrev pub is_fresh : ℕ → ℕ → Option Heartbeat → Bool
is_fresh now max_age none = false
is_fresh now max_age (some h) = elim h.health [
  | running ↦ ltb now (h.heartbeat_at + max_age)
  | degraded ↦ false
]

-- `ready`
unfoldable pub ready : ℕ → ℕ → ℕ → List Row → List Heartbeat → Bool
ready heartbeat_max_age lag_max_age now rows hs =
    let m = metrics now rows in
    is_fresh now heartbeat_max_age (latest_heartbeat hs)
    && (nat_beq m.dead_count 0
        && (nat_beq m.retrying_count 0 && leb m.oldest_pending_age lag_max_age))
