-- ===== src/Delivery/Exports/Worker.antt =====
-- audit_delivery.py: `AuditExportWorker.run_once`. Its claim and its settlement each read the clock.
pub mod Endings
pub mod Rounds
use sentinel_grc.Prelude.{ℕ, Bool, true, false, String, Option, none, some, List}
use sentinel_grc.Governance.Rows.{Payload}
use sentinel_grc.Delivery.Lease.{Result, ok, err}
use sentinel_grc.Delivery.Exports.{
  Row, Archived, claim, acknowledge, fail, Verdict, stale, dead, retry,
}

pub data Outcome : Type 0 where
  empty archived not_ours dead_letter will_retry : Outcome

-- `AuditArchive.persist_event`; `none` is a raise.
abbrev pub Store : Type 0
Store = Payload → Option Archived

pub record Policy : Type 0 where
  pub lease : ℕ
  pub max_attempts : ℕ
  pub retry_delay : ℕ

-- The readings of the clock in a round; a `now` that is given is both.
pub record Clock : Type 0 where
  pub claim : ℕ
  pub settle : ℕ

abbrev pub outcome_of : Verdict → Outcome
outcome_of stale = not_ours
outcome_of dead = dead_letter
outcome_of retry = will_retry

abbrev pub failed_as : Result (Verdict × List Row) → Result (Outcome × List Row)
failed_as (ok (v, rows)) = ok (outcome_of v, rows)
failed_as (err e) = err e

abbrev pub acknowledged_as : Bool × List Row → Result (Outcome × List Row)
acknowledged_as (true, rows) = ok (archived, rows)
acknowledged_as (false, rows) = ok (not_ours, rows)

-- The event of the row in the archive: the text may be no JSON, and the store may raise.
abbrev pub archive_of : Store → Option Payload → Option Archived
archive_of store none = none
archive_of store (some event) = store event

-- The `try` statement, once the event is archived or that raised.
abbrev pub settled : Policy → Row → ℕ → List Row → Option Archived → Result (Outcome × List Row)
settled policy item now rows (some a) = acknowledged_as (acknowledge item a now rows)
settled policy item now rows none =
    failed_as (fail item policy.max_attempts policy.retry_delay now rows)

abbrev pub after_claim :
    Store → Policy → Clock → Result (Option Row × List Row) → Result (Outcome × List Row)
after_claim store policy clock (ok (none, rows)) = ok (empty, rows)
after_claim store policy clock (ok (some item, rows)) =
    settled policy item clock.settle rows (archive_of store item.extra.payload_json)
after_claim store policy clock (err e) = err e

-- `run_once`
unfoldable pub run_once :
    Store → Policy → String → String → Clock → List Row → Result (Outcome × List Row)
run_once store policy worker token clock rows =
    after_claim store policy clock (claim worker policy.lease token clock.claim rows)
