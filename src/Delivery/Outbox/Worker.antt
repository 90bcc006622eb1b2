-- ===== src/Delivery/Outbox/Worker.antt =====
-- outbox_delivery.py: `OutboxWorker.run_once`.
pub mod Endings
pub mod Rounds
use sentinel_grc.Prelude.{ℕ, Bool, true, false, String, Option, none, some, List}
use sentinel_grc.Delivery.Lease.{Result, ok, err, claim}
use sentinel_grc.Delivery.Outbox.{
  Row, Heartbeat, Health, running, degraded, heartbeat, acknowledge, fail, Verdict, stale, dead,
  retry,
}
use sentinel_grc.Delivery.Outbox.Message.{Codec, Message, from_item}

-- What a publisher does with a message: a receipt, `PermanentOutboxError`, or any other exception.
pub data Answer : Type 0 where
  receipt : String → Answer
  refused : Answer
  unavailable : Answer

pub data Outcome : Type 0 where
  empty delivered not_ours dead_letter will_retry : Outcome

-- The state that the worker shares with the others.
pub record Box : Type 0 where
  pub rows : List Row
  pub heartbeats : List Heartbeat

-- The four readings of the clock in a round.
pub record Clock : Type 0 where
  pub start : ℕ
  pub claim : ℕ
  pub settle : ℕ
  pub finish : ℕ

pub record Policy : Type 0 where
  pub lease : ℕ
  pub max_attempts : ℕ
  pub retry_delay : ℕ

-- The texts of the exceptions that `fail` records.
pub record Messages : Type 0 where
  pub permanent : String
  pub transient : String

abbrev pub outcome_of : Verdict → Outcome
outcome_of stale = not_ours
outcome_of dead = dead_letter
outcome_of retry = will_retry

abbrev pub failed_as : Result (Verdict × List Row) → Result (Outcome × List Row)
failed_as (ok (v, rows)) = ok (outcome_of v, rows)
failed_as (err e) = err e

-- `except PermanentOutboxError`, with the defaults of `fail`.
abbrev pub fail_permanently : Messages → Row → ℕ → List Row → Result (Outcome × List Row)
fail_permanently texts item now rows = failed_as (fail item texts.permanent true 5 30 now rows)

-- An acknowledgement raises only on a receipt for another message, a permanent error.
abbrev pub acknowledged :
    Messages → Row → ℕ → List Row → Result (Bool × List Row) → Result (Outcome × List Row)
acknowledged texts item now rows (ok (true, rows')) = ok (delivered, rows')
acknowledged texts item now rows (ok (false, rows')) = ok (not_ours, rows')
acknowledged texts item now rows (err e) = fail_permanently texts item now rows

abbrev pub answered : Messages → Policy → Row → ℕ → List Row → Answer → Result (Outcome × List Row)
answered texts policy item now rows (receipt id) =
    acknowledged texts item now rows (acknowledge item id now rows)
answered texts policy item now rows refused = fail_permanently texts item now rows
answered texts policy item now rows unavailable =
    failed_as (fail item texts.transient false policy.max_attempts policy.retry_delay now rows)

abbrev pub published :
    Messages
    → Policy
    → (Message → Answer)
    → Row
    → ℕ
    → List Row
    → Option Message
    → Result (Outcome × List Row)
published texts policy publish item now rows none = fail_permanently texts item now rows
published texts policy publish item now rows (some m) =
    answered texts policy item now rows (publish m)

-- The `try` statement.
unfoldable pub deliver :
    Codec
    → Messages
    → Policy
    → (Message → Answer)
    → Row
    → ℕ
    → List Row
    → Result (Outcome × List Row)
deliver codec texts policy publish item now rows =
    published texts policy publish item now rows (from_item codec item)

abbrev pub health_after : Outcome → Health
health_after empty = running
health_after delivered = running
health_after _ = degraded

abbrev pub signed : Outcome → List Row → Result (List Heartbeat) → Result (Outcome × Box)
signed outcome rows (ok hs) = ok (outcome, record { rows = rows; heartbeats = hs })
signed outcome rows (err e) = err e

-- The last heartbeat.
abbrev pub sign_off : String → ℕ → Outcome → List Row → List Heartbeat → Result (Outcome × Box)
sign_off worker now outcome rows hs =
    signed outcome rows (heartbeat worker (health_after outcome) now hs)

abbrev pub settled :
    String → ℕ → List Heartbeat → Result (Outcome × List Row) → Result (Outcome × Box)
settled worker now hs (ok (outcome, rows)) = sign_off worker now outcome rows hs
settled worker now hs (err e) = err e

abbrev pub after_claim :
    Codec
    → Messages
    → Policy
    → (Message → Answer)
    → String
    → Clock
    → List Heartbeat
    → Result (Option Row × List Row)
    → Result (Outcome × Box)
after_claim codec texts policy publish worker clock hs (ok (none, rows)) =
    sign_off worker clock.finish empty rows hs
after_claim codec texts policy publish worker clock hs (ok (some item, rows)) =
    settled worker clock.finish hs (deliver codec texts policy publish item clock.settle rows)
after_claim codec texts policy publish worker clock hs (err e) = err e

abbrev pub started :
    Codec
    → Messages
    → Policy
    → (Message → Answer)
    → String
    → String
    → Clock
    → List Row
    → Result (List Heartbeat)
    → Result (Outcome × Box)
started codec texts policy publish worker token clock rows (ok hs) =
    after_claim codec texts policy publish worker clock hs
      (claim worker policy.lease token clock.claim rows)
started codec texts policy publish worker token clock rows (err e) = err e

-- `run_once`
unfoldable pub run_once :
    Codec
    → Messages
    → Policy
    → (Message → Answer)
    → String
    → String
    → Clock
    → Box
    → Result (Outcome × Box)
run_once codec texts policy publish worker token clock box =
    started codec texts policy publish worker token clock box.rows
      (heartbeat worker running clock.start box.heartbeats)
