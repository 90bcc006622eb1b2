-- ===== src/Delivery/Outbox/Message.antt =====
-- outbox_delivery.py: `OutboxMessage.from_item`, the check of a row before it is published.
use sentinel_grc.Prelude.{
  ℕ, ◌*◌, Bool, ◌&&◌, not, String, Option, none, some, leb, nat_beq, if◌then◌else◌, ◌==◌, string_eq,
}
use sentinel_grc.Prelude.Text
use sentinel_grc.Governance.Rows.{Payload}
use sentinel_grc.Delivery.Outbox.{Row, PayloadText, canonical, reordered, no_object, no_json}

abbrev pub max_message_bytes : ℕ
max_message_bytes = 256 * 1024

-- The length and the SHA-256 digest of the canonical JSON of a payload.
pub record Codec : Type 0 where
  pub size : Payload → ℕ
  pub sha256 : Payload → String

-- `OutboxMessage`
pub record Message : Type 0 where
  pub message_id : String
  pub event_id : String
  pub finding_id : String
  pub event_sequence : ℕ
  pub topic : String
  pub body : Payload
  pub sha256 : String

abbrev pub is_blank : String → Bool
is_blank s = Text.is_empty (Text.strip s)

abbrev pub matches : Row → Payload → Bool
matches item p =
    p.event_id == item.event_id
    && (p.body.finding_id == item.finding_id && nat_beq p.event_sequence item.event_sequence)

abbrev pub is_sendable : Codec → Row → Payload → Bool
is_sendable codec item p =
    not (is_blank item.event_id)
    && (not (is_blank item.finding_id)
        && (Text.is_hex 32 item.item_id
            && (item.extra.topic == "governance.event.v1"
                && (leb 1 item.event_sequence
                    && (matches item p
                        && (leb 1 (codec.size p) && leb (codec.size p) max_message_bytes))))))

-- `from_item`; `none` is `PermanentOutboxError`, which is all that it raises.
unfoldable pub from_text : Codec → Row → PayloadText → Option Message
from_text codec item (canonical p) =
    if is_sendable codec item p
    then some (record {
      message_id = item.item_id;
      event_id = item.event_id;
      finding_id = item.finding_id;
      event_sequence = item.event_sequence;
      topic = item.extra.topic;
      body = p;
      sha256 = codec.sha256 p;
    })
    else none
from_text codec item (reordered p) = none
from_text codec item no_object = none
from_text codec item no_json = none

unfoldable pub from_item : Codec → Row → Option Message
from_item codec item = from_text codec item item.extra.payload_json
