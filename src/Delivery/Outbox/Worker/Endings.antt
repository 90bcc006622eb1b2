-- ===== src/Delivery/Outbox/Worker/Endings.antt =====
-- What becomes of the row that a round of the worker has claimed.
use mathlib.Core.Bool.{false≢true}
use sentinel_grc.Prelude.Text
use sentinel_grc.Prelude.{
  ℕ, ◌+◌, ◌≤◌, ◌<◌, Bool, true, false, String, ◌≡◌, ◌≢◌, refl, sym, ◌∙◌, ap, inl, inr, none, some,
  List, arith, if◌then◌else◌, ◌==◌, string_eq, eq_iff, beq_refl, ltb, update, Bool-cases,
  Option-cases,
}
use sentinel_grc.Delivery.Lease.{Result, ok, has_id, lease_to}
use sentinel_grc.Delivery.Lease.Claims.{In, Unique}
use sentinel_grc.Delivery.Lease.Exclusion.{find-update}
use sentinel_grc.Delivery.Lease.Settling.{IsWithin, IsFresh, update-claimed}
use sentinel_grc.Delivery.Outbox
use sentinel_grc.Delivery.Outbox.{
  Row, acknowledge, acknowledge_row, fail, is_ours, is_last, failed, rowcount_is_one,
}
use sentinel_grc.Delivery.Outbox.Message.{Codec, Message, from_item}
use sentinel_grc.Delivery.Outbox.Worker.{
  Answer, receipt, refused, unavailable, Outcome, delivered, not_ours, dead_letter, will_retry,
  Policy, Messages, failed_as, answered, deliver,
}

abbrev pub released : Row → Row
released x = record x { locked_until = none; worker_id = none; lock_token = none }

-- The row once the broker has it.
abbrev pub sent : ℕ → Row → Row
sent now x = record (released x) {
  done_at = some now;
  last_error = none;
  extra = record x.extra { broker_accepted_at = some now; broker_message_id = some x.item_id };
}

-- The row as a dead letter.
abbrev pub buried : String → ℕ → Row → Row
buried error now x = record (released x) {
  available_at = now;
  dead_at = some now;
  last_error = some (Text.take 2000 error);
}

-- The row that waits for another attempt.
abbrev pub postponed : String → ℕ → Row → Row
postponed error again x = record (released x) {
  available_at = again;
  dead_at = none;
  last_error = some (Text.take 2000 error);
}

-- The outcome of a round for the row `x` with a lease to `until`, and the row that it leaves, if it is
-- settled at `now`: after the lease, nothing; before, what the publisher's answer asks for.
pub data Ending (codec : Codec) (texts : Messages) (policy : Policy) (publish : Message → Answer)
    (until now : ℕ) (x : Row) : Outcome → Row → Type 0 where
  too_late : until ≤ now → Ending codec texts policy publish until now x not_ours x
  accepted :
      (m : Message)
      → now < until
      → from_item codec x ≡ some m
      → publish m ≡ receipt x.item_id
      → Ending codec texts policy publish until now x delivered (sent now x)
  unreadable :
      now < until
      → from_item codec x ≡ none
      → Ending codec texts policy publish until now x dead_letter (buried texts.permanent now x)
  misdirected :
      (m : Message) (id : String)
      → now < until
      → from_item codec x ≡ some m
      → publish m ≡ receipt id
      → id ≢ x.item_id
      → Ending codec texts policy publish until now x dead_letter (buried texts.permanent now x)
  rejected :
      (m : Message)
      → now < until
      → from_item codec x ≡ some m
      → publish m ≡ refused
      → Ending codec texts policy publish until now x dead_letter (buried texts.permanent now x)
  exhausted :
      (m : Message)
      → now < until
      → from_item codec x ≡ some m
      → publish m ≡ unavailable
      → policy.max_attempts ≤ x.attempts
      → Ending codec texts policy publish until now x dead_letter (buried texts.transient now x)
  to_retry :
      (m : Message)
      → now < until
      → from_item codec x ≡ some m
      → publish m ≡ unavailable
      → x.attempts < policy.max_attempts
      → Ending codec texts policy publish until now x will_retry
          (postponed texts.transient (now + policy.retry_delay) x)

is_ours-IsWithin : (item : Row) (now : ℕ) → IsWithin item.item_id (is_ours item now)
is_ours-IsWithin item now x other = rw other refl

own_lease : (x : Row) (until now : ℕ) → IsFresh until x → is_ours x now x ≡ ltb now until
own_lease x until now f = rw (beq_refl x.item_id, f.undone, f.undead, f.held) (f.lasts now)

module _ (worker token : String) (until now : ℕ) (rows : List Row) (c : Row) (u : Unique rows)
    (i : In c rows) (fresh : IsFresh until (lease_to worker until token c)) where
  abbrev leased : Row
  leased = lease_to worker until token c

  abbrev claimed_rows : List Row
  claimed_rows = update (has_id c.item_id) (lease_to worker until token) rows

  abbrev rows_with : Row → List Row
  rows_with y = update (has_id c.item_id) (λ z. y) rows

  written :
      (g : Row → Row)
      → (rowcount_is_one (is_ours leased now) claimed_rows ≡ ltb now until)
        × (update (is_ours leased now) g claimed_rows
            ≡ rows_with (if ltb now until then g leased else leased))
  written g =
      let (one, table) =
        update-claimed (is_ours leased now) (lease_to worker until token) g c rows u i
          (is_ours-IsWithin leased now) (λ x. refl) in
      let ours = own_lease leased until now fresh in
      (one ∙ ours, table ∙ ap (λ b. rows_with (if b then g leased else leased)) ours)

  fail-exact :
      (error : String) (permanent : Bool) (max delay : ℕ)
      → 1 ≤ max
      → fail leased error permanent max delay now claimed_rows
        ≡ ok (
          if ltb now until
              then (if is_last permanent max leased then Outbox.dead else Outbox.retry)
              else Outbox.stale,
          rows_with (
              if ltb now until
              then failed (is_last permanent max leased) delay error now leased
              else leased),
        )
  unfolding fail
  fail-exact error permanent max delay tried =
      let valid : ltb max 1 ≡ false = ground arith in
      let (one, table) = written (failed (is_last permanent max leased) delay error now) in
      rw (valid, one, table) refl

  acknowledge-exact :
      acknowledge leased c.item_id now claimed_rows
      ≡ ok (
        ltb now until,
        rows_with (if ltb now until then Outbox.delivered c.item_id now leased else leased),
      )
  unfolding acknowledge acknowledge_row
  acknowledge-exact =
      let (one, table) = written (Outbox.delivered c.item_id now) in
      let found = find-update c.item_id (lease_to worker until token) c rows (λ x. refl) u i refl in
      rw (beq_refl c.item_id, found, fresh.undone, one, table) refl

  module _ (codec : Codec) (texts : Messages) (policy : Policy) (publish : Message → Answer)
      (tried : 1 ≤ policy.max_attempts) where
    -- A run that ends the round for the row.
    abbrev IsEnded : Result (Outcome × List Row) → Type 0
    IsEnded r =
        (o : Outcome) × (y : Row) × (r ≡ ok (o, rows_with y))
        × Ending codec texts policy publish until now leased o y

    fail-late :
        (error : String) (permanent : Bool) (max delay : ℕ)
        → 1 ≤ max
        → ltb now until ≡ false
        → IsEnded (failed_as (fail leased error permanent max delay now claimed_rows))
    fail-late error permanent max delay valid late = (
      not_ours,
      leased,
      rw (fail-exact error permanent max delay valid, late) refl,
      too_late (ground arith),
    )

    fail-dead :
        (error : String) (permanent : Bool) (max delay : ℕ)
        → 1 ≤ max
        → ltb now until ≡ true
        → is_last permanent max leased ≡ true
        → failed_as (fail leased error permanent max delay now claimed_rows)
          ≡ ok (dead_letter, rows_with (buried error now leased))
    fail-dead error permanent max delay valid early last =
        rw (fail-exact error permanent max delay valid, early, last) refl

    fail-retry :
        (error : String) (max delay : ℕ)
        → 1 ≤ max
        → ltb now until ≡ true
        → is_last false max leased ≡ false
        → failed_as (fail leased error false max delay now claimed_rows)
          ≡ ok (will_retry, rows_with (postponed error (now + delay) leased))
    fail-retry error max delay valid early more =
        rw (fail-exact error false max delay valid, early, more) refl

    permanent-dead :
        ltb now until ≡ true
        → failed_as (fail leased texts.permanent true 5 30 now claimed_rows)
          ≡ ok (dead_letter, rows_with (buried texts.permanent now leased))
    permanent-dead early = fail-dead texts.permanent true 5 30 (omega arith) early refl

    answered-late :
        (a : Answer)
        → ltb now until ≡ false
        → IsEnded (answered texts policy leased now claimed_rows a)
    unfolding acknowledge
    answered-late refused late = fail-late texts.permanent true 5 30 (omega arith) late
    answered-late unavailable late =
        fail-late texts.transient false policy.max_attempts policy.retry_delay tried late
    answered-late (receipt id) late = elim (Bool-cases (id == c.item_id)) [
      | inr other ↦ rw other (fail-late texts.permanent true 5 30 (omega arith) late)
      | inl own ↦ (
        not_ours,
        leased,
        rw ((eq_iff id c.item_id).0 own, acknowledge-exact, late) refl,
        too_late (ground arith),
      )
    ]

    answered-early :
        (m : Message) (a : Answer)
        → ltb now until ≡ true
        → from_item codec leased ≡ some m
        → publish m ≡ a
        → IsEnded (answered texts policy leased now claimed_rows a)
    unfolding acknowledge
    answered-early m refused early read said =
        (dead_letter, _, permanent-dead early, rejected m (ground arith) read said)
    answered-early m unavailable early read said =
        elim (Bool-cases (is_last false policy.max_attempts leased)) [
          | inl last ↦ (
            dead_letter,
            _,
            fail-dead texts.transient false policy.max_attempts policy.retry_delay tried early last,
            exhausted m (ground arith) read said (ground arith),
          )
          | inr more ↦ (
            will_retry,
            _,
            fail-retry texts.transient policy.max_attempts policy.retry_delay tried early more,
            to_retry m (ground arith) read said (ground arith),
          )
        ]
    answered-early m (receipt id) early read said = elim (Bool-cases (id == c.item_id)) [
      | inr other ↦ (
        dead_letter,
        _,
        rw other (permanent-dead early),
        misdirected m id (ground arith) read said
            (λ e. false≢true (sym other ∙ (eq_iff id c.item_id).1 e)),
      )
      | inl own ↦
          let same = (eq_iff id c.item_id).0 own in
          (
            delivered,
            sent now leased,
            rw (same, acknowledge-exact, early) refl,
            accepted m (ground arith) read (said ∙ ap receipt same),
          )
    ]

    pub deliver-IsEnded : IsEnded (deliver codec texts policy publish leased now claimed_rows)
    unfolding deliver
    deliver-IsEnded = elim (Bool-cases (ltb now until)) [
      | inl early ↦ elim (Option-cases (from_item codec leased)) [
        | inl bad ↦ (dead_letter, _, rw bad (permanent-dead early), unreadable (ground arith) bad)
        | inr (m, read) ↦ rw read (answered-early m (publish m) early read refl)
      ]
      | inr late ↦ elim (Option-cases (from_item codec leased)) [
        | inl bad ↦ rw bad (fail-late texts.permanent true 5 30 (omega arith) late)
        | inr (m, read) ↦ rw read (answered-late (publish m) late)
      ]
    ]
