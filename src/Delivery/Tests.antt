-- ===== src/Delivery/Tests.antt =====
-- Two notices of one finding through the outbox and the audit exports, and the theorems at them.
use mathlib.Core.Bool.{true, false}
use sentinel_grc.Prelude.{
  ℕ, ◌+◌, String, ◌≡◌, ◌≢◌, refl, Option, none, some, List, [], ◌∷◌, ◌⊎◌, inl, inr, arith, any,
  is_none,
}
use sentinel_grc.Governance.Types
use sentinel_grc.Governance.Rows.{Payload}
use sentinel_grc.Delivery.Lease.{Item, Result, ok, err, claim, lease_to, has_id}
use sentinel_grc.Delivery.Lease.Growth.{IsSound}
use sentinel_grc.Delivery.Lease.Exclusion.{claim_exclusive}
use sentinel_grc.Delivery.Outbox
use sentinel_grc.Delivery.Outbox.{Broker}
use sentinel_grc.Delivery.Outbox.Message.{Codec}
use sentinel_grc.Delivery.Outbox.Worker
use sentinel_grc.Delivery.Outbox.Worker.{Answer, Box, Clock, Messages}
use sentinel_grc.Delivery.Outbox.Worker.Rounds as WorkerRounds
use sentinel_grc.Delivery.Outbox.Worker.Rounds.{outbox_round}
use sentinel_grc.Delivery.Outbox.Laws
use sentinel_grc.Delivery.Outbox.Laws.{ordered_delivery}
use sentinel_grc.Delivery.Exports
use sentinel_grc.Delivery.Exports.{Archive, Archived}
use sentinel_grc.Delivery.Exports.Laws as ExportLaws
use sentinel_grc.Delivery.Exports.Laws.{ordered_archiving}
use sentinel_grc.Delivery.Exports.Worker as ExportWorker
use sentinel_grc.Delivery.Exports.Worker.Rounds as ExportRounds
use sentinel_grc.Delivery.Exports.Worker.Rounds.{export_round}

abbrev payload : ℕ → String → Payload
payload n id = record {
  body = record {
    finding_id = "F-1";
    event_type = "finding_created";
    actor_id = "ann";
    actor_role = Types.analyst;
    auth_method = "password";
    occurred_at = n;
    details = [];
    previous_hash = "";
  };
  event_id = id;
  event_sequence = n;
  event_hash = "h";
}

module _ {E : Type 0} where
  abbrev item_of : ℕ → String → E → Item E
  item_of n id extra = record {
    item_id = id;
    event_id = id;
    finding_id = "F-1";
    event_sequence = n;
    created_at = n;
    available_at = n;
    attempts = 0;
    locked_until = none;
    worker_id = none;
    lock_token = none;
    done_at = none;
    dead_at = none;
    last_error = none;
    extra = extra;
  }

-- The outbox.
abbrev id1 : String
id1 = "00000000000000000000000000000001"

abbrev id2 : String
id2 = "00000000000000000000000000000002"

abbrev id3 : String
id3 = "00000000000000000000000000000003"

abbrev broker : ℕ → String → Broker
broker n id = record {
  topic = "governance.event.v1";
  payload_json = Outbox.canonical (payload n id);
  broker_message_id = none;
  broker_accepted_at = none;
}

abbrev n1 : Outbox.Row
n1 = item_of 1 id1 (broker 1 id1)

abbrev n2 : Outbox.Row
n2 = item_of 2 id2 (broker 2 id2)

abbrev leased1 : Outbox.Row
leased1 = lease_to "w1" 70 "t1" n1

-- A notice of another finding.
abbrev n3 : Outbox.Row
n3 = record (item_of 3 id3 (broker 3 id3)) { finding_id = "F-2" }

abbrev leased3 : Outbox.Row
leased3 = lease_to "w3" 95 "t3" n3

abbrev done1 : Outbox.Row
done1 = Outbox.delivered id1 20 leased1

abbrev leased2 : Outbox.Row
leased2 = lease_to "w2" 90 "t2" n2

-- The second notice of the finding waits until the first is delivered.
claims :
    (claim "w1" 60 "t1" 10 (n1 ∷ n2 ∷ []) ≡ ok (some leased1, leased1 ∷ n2 ∷ []))
    × (claim "w2" 60 "t2" 30 (leased1 ∷ n2 ∷ []) ≡ ok (none, leased1 ∷ n2 ∷ []))
    × (Outbox.acknowledge leased1 id1 20 (leased1 ∷ n2 ∷ []) ≡ ok (true, done1 ∷ n2 ∷ []))
    × (claim "w2" 60 "t2" 30 (done1 ∷ n2 ∷ []) ≡ ok (some leased2, done1 ∷ leased2 ∷ []))
    × (claim "w2" 60 "t2" 30 (done1 ∷ n3 ∷ n2 ∷ []) ≡ ok (some leased2, done1 ∷ n3 ∷ leased2 ∷ []))
    × (claim "w3" 60 "t3" 35 (done1 ∷ n3 ∷ leased2 ∷ [])
        ≡ ok (some leased3, done1 ∷ leased3 ∷ leased2 ∷ []))
unfolding claim sentinel_grc.Delivery.Lease.take_lease sentinel_grc.Delivery.Lease.first_by_age
    sentinel_grc.Delivery.Lease.Order.is_before sentinel_grc.Prelude.Text.strip
    sentinel_grc.Prelude.Text.lstrip sentinel_grc.Prelude.Text.rstrip
    sentinel_grc.Prelude.Text.is_space sentinel_grc.Delivery.Outbox.acknowledge
    sentinel_grc.Delivery.Outbox.acknowledge_row
claims = (refl, refl, refl, refl, refl, refl)

notices-IsSound : IsSound (n1 ∷ n2 ∷ [])
notices-IsSound = record {
  unique = (refl, (refl, tt));
  ordered = λ x i. elim i [
    | inl e ↦ inl (rw e refl)
    | inr j ↦ elim j [ inl e ↦ inl (rw e refl) | inr k ↦ absurd k ]
  ];
}

-- n1 is claimed and delivered, then n2 is claimed.
notices-Reach : Laws.Reach (n1 ∷ n2 ∷ []) (done1 ∷ leased2 ∷ [])
notices-Reach =
    Laws.next
      (Laws.next (Laws.next Laws.here (Laws.take "w1" 60 "t1" 10 leased1 claims.0))
        (Laws.accept leased1 id1 20 true claims.2))
      (Laws.take "w2" 60 "t2" 30 leased2 claims.3)

ordered_delivery_example : is_none done1.done_at ≡ false
ordered_delivery_example =
    ordered_delivery leased2 done1 notices-IsSound notices-Reach (inr (inl refl)) (inl refl) refl
      refl (omega arith)

claim_exclusive_example : leased3.item_id ≢ leased2.item_id
claim_exclusive_example =
    claim_exclusive "w2" "w3" 60 60 "t2" "t3" 30 35 (done1 ∷ n3 ∷ n2 ∷ [])
      (done1 ∷ n3 ∷ leased2 ∷ []) (done1 ∷ leased3 ∷ leased2 ∷ []) leased2 leased3
      (refl, (refl, (refl, tt))) claims.4 claims.5 (omega arith)

abbrev codec : Codec
codec = record { size = λ p. 100; sha256 = λ p. "s" }

abbrev texts : Messages
texts = record { permanent = "permanent"; transient = "transient" }

abbrev policy : Worker.Policy
policy = record { lease = 60; max_attempts = 5; retry_delay = 30 }

abbrev clock : Clock
clock = record { start = 10; claim = 11; settle = 12; finish = 13 }

abbrev box : Box
box = record { rows = n1 ∷ n2 ∷ []; heartbeats = [] }

outbox_round_example :
    (o : Worker.Outcome) × (box' : Box) × (Worker.run_once codec texts policy
        (λ m. Worker.receipt id1)
        "w1"
        "t1"
        clock
        box
      ≡ ok (o, box'))
    × (WorkerRounds.IsIdle codec texts policy
          (λ m. Worker.receipt id1)
          "w1"
          "t1"
          clock
          box.rows
          o
          box'.rows
        ⊎ WorkerRounds.IsSettled codec texts policy
            (λ m. Worker.receipt id1)
            "w1"
            "t1"
            clock
            box.rows
            o
            box'.rows)
unfolding sentinel_grc.Prelude.Text.strip sentinel_grc.Prelude.Text.lstrip
    sentinel_grc.Prelude.Text.rstrip sentinel_grc.Prelude.Text.is_space
outbox_round_example =
    outbox_round codec texts policy (λ m. Worker.receipt id1) "w1" "t1" clock box (refl, (refl, tt))
      refl (omega arith) (omega arith)

-- The audit exports.
abbrev unarchived : ℕ → String → Archive
unarchived n id = record {
  payload_json = some (payload n id);
  object_key = none;
  sha256 = none;
  size_bytes = none;
  etag = none;
}

abbrev e1 : Exports.Row
e1 = item_of 1 id1 (unarchived 1 id1)

abbrev e2 : Exports.Row
e2 = item_of 2 id2 (unarchived 2 id2)

abbrev object : Archived
object = record { object_key = "o"; sha256 = "s"; size_bytes = 7; etag = "" }

abbrev archived1 : Exports.Row
archived1 = Exports.archived_row object 20 (lease_to "w1" 70 "t1" e1)

abbrev taken2 : Exports.Row
taken2 = lease_to "w2" 90 "t2" e2

exports :
    (claim "w1" 60 "t1" 10 (e1 ∷ e2 ∷ [])
      ≡ ok (some (lease_to "w1" 70 "t1" e1), lease_to "w1" 70 "t1" e1 ∷ e2 ∷ []))
    × (Exports.acknowledge (lease_to "w1" 70 "t1" e1) object 20 (lease_to "w1" 70 "t1" e1 ∷ e2 ∷ [])
        ≡ (true, archived1 ∷ e2 ∷ []))
    × (claim "w2" 60 "t2" 30 (archived1 ∷ e2 ∷ []) ≡ ok (some taken2, archived1 ∷ taken2 ∷ []))
unfolding claim sentinel_grc.Delivery.Lease.take_lease sentinel_grc.Delivery.Lease.first_by_age
    sentinel_grc.Delivery.Lease.Order.is_before sentinel_grc.Prelude.Text.strip
    sentinel_grc.Prelude.Text.lstrip sentinel_grc.Prelude.Text.rstrip
    sentinel_grc.Prelude.Text.is_space sentinel_grc.Delivery.Exports.acknowledge
exports = (refl, refl, refl)

exports-IsSound : IsSound (e1 ∷ e2 ∷ [])
exports-IsSound = record {
  unique = (refl, (refl, tt));
  ordered = λ x i. elim i [
    | inl e ↦ inl (rw e refl)
    | inr j ↦ elim j [ inl e ↦ inl (rw e refl) | inr k ↦ absurd k ]
  ];
}

exports-Reach : ExportLaws.Reach (e1 ∷ e2 ∷ []) (archived1 ∷ taken2 ∷ [])
exports-Reach =
    ExportLaws.next
      (ExportLaws.next
        (ExportLaws.next ExportLaws.here (ExportLaws.take "w1" 60 "t1" 10 _ exports.0))
        (ExportLaws.accept _ object 20 true exports.1))
      (ExportLaws.take "w2" 60 "t2" 30 taken2 exports.2)

ordered_archiving_example : is_none archived1.done_at ≡ false
ordered_archiving_example =
    ordered_archiving taken2 archived1 exports-IsSound exports-Reach (inr (inl refl)) (inl refl)
      refl refl (omega arith)

abbrev export_policy : ExportWorker.Policy
export_policy = record { lease = 60; max_attempts = 5; retry_delay = 30 }

abbrev export_clock : ExportWorker.Clock
export_clock = record { claim = 10; settle = 12 }

export_round_example :
    (o : ExportWorker.Outcome) × (rows' : List Exports.Row) × (ExportWorker.run_once
        (λ p. some object)
        export_policy
        "w1"
        "t1"
        export_clock
        (e1 ∷ e2 ∷ [])
      ≡ ok (o, rows'))
    × (ExportRounds.IsIdle
          (λ p. some object)
          export_policy
          "w1"
          "t1"
          export_clock
          (e1 ∷ e2 ∷ [])
          o
          rows'
        ⊎ ExportRounds.IsSettled
            (λ p. some object)
            export_policy
            "w1"
            "t1"
            export_clock
            (e1 ∷ e2 ∷ [])
            o
            rows')
unfolding sentinel_grc.Prelude.Text.strip sentinel_grc.Prelude.Text.lstrip
    sentinel_grc.Prelude.Text.rstrip sentinel_grc.Prelude.Text.is_space
export_round_example =
    export_round (λ p. some object) export_policy "w1" "t1" export_clock (e1 ∷ e2 ∷ [])
      (refl, (refl, tt)) refl (omega arith) (omega arith)
