-- ===== src/Delivery/Exports/Worker/Endings.antt =====
-- What becomes of the row that a round of the archive worker has claimed.
use sentinel_grc.Prelude.{
  ℕ, ◌+◌, ◌≤◌, ◌<◌, true, false, String, ◌≡◌, refl, inl, inr, Option, none, some, List, arith,
  if◌then◌else◌, string_eq, beq_refl, ltb, leb, update, Bool-cases,
}
use sentinel_grc.Delivery.Lease.{Result, ok, has_id, lease_to}
use sentinel_grc.Delivery.Lease.Claims.{In, Unique}
use sentinel_grc.Delivery.Lease.Settling.{IsWithin, IsFresh, update-claimed}
use sentinel_grc.Delivery.Exports
use sentinel_grc.Delivery.Exports.{
  Row, Archived, acknowledge, fail, is_held, is_ours, archived_row, failed, rowcount_is_one,
}
use sentinel_grc.Delivery.Exports.Worker.{
  Outcome, archived, not_ours, dead_letter, will_retry, Store, Policy, archive_of, settled,
}

abbrev pub released : Row → Row
released x = record x { locked_until = none; worker_id = none; lock_token = none }

-- The row once its event is in the archive.
abbrev pub stored : Archived → ℕ → Row → Row
stored a now x = record (released x) {
  done_at = some now;
  last_error = none;
  extra = record x.extra {
    object_key = some a.object_key;
    sha256 = some a.sha256;
    size_bytes = some a.size_bytes;
    etag = some a.etag;
  };
}

-- The row behind a failure: a dead letter since `dead_at`, or to be tried again.
abbrev pub spoiled : Option ℕ → ℕ → Row → Row
spoiled dead_at again x = record (released x) {
  available_at = again;
  dead_at = dead_at;
  last_error = some "audit archive delivery failed";
}

-- The outcome of a round for the row `x` with a lease to `until`, and the row that it leaves, if it is
-- settled at `now`. The event is archived only if the store took it; a failure counts whenever it comes.
pub data Ending (store : Store) (policy : Policy) (until now : ℕ) (x : Row)
    : Outcome → Row → Type 0 where
  too_late :
      (a : Archived)
      → until ≤ now
      → archive_of store x.extra.payload_json ≡ some a
      → Ending store policy until now x not_ours x
  taken :
      (a : Archived)
      → now < until
      → archive_of store x.extra.payload_json ≡ some a
      → Ending store policy until now x archived (stored a now x)
  exhausted :
      archive_of store x.extra.payload_json ≡ none
      → policy.max_attempts ≤ x.attempts
      → Ending store policy until now x dead_letter
          (spoiled (some now) (now + policy.retry_delay) x)
  to_retry :
      archive_of store x.extra.payload_json ≡ none
      → x.attempts < policy.max_attempts
      → Ending store policy until now x will_retry (spoiled none (now + policy.retry_delay) x)

is_held-IsWithin : (item : Row) → IsWithin item.item_id (is_held item)
is_held-IsWithin item x other = rw other refl

is_ours-IsWithin : (item : Row) (now : ℕ) → IsWithin item.item_id (is_ours item now)
is_ours-IsWithin item now x other = rw other refl

own_row : (x : Row) (until : ℕ) → IsFresh until x → is_held x x ≡ true
own_row x until f = rw (beq_refl x.item_id, f.undone, f.undead, f.held) refl

own_lease : (x : Row) (until now : ℕ) → IsFresh until x → is_ours x now x ≡ ltb now until
own_lease x until now f = rw (own_row x until f) (f.lasts now)

module _ (worker token : String) (until now : ℕ) (rows : List Row) (c : Row) (u : Unique rows)
    (i : In c rows) (fresh : IsFresh until (lease_to worker until token c)) where
  abbrev leased : Row
  leased = lease_to worker until token c

  abbrev claimed_rows : List Row
  claimed_rows = update (has_id c.item_id) (lease_to worker until token) rows

  abbrev rows_with : Row → List Row
  rows_with y = update (has_id c.item_id) (λ z. y) rows

  acknowledge-exact :
      (a : Archived)
      → acknowledge leased a now claimed_rows
        ≡ (ltb now until, rows_with (if ltb now until then stored a now leased else leased))
  unfolding acknowledge
  acknowledge-exact a =
      let (one, table) =
        update-claimed (is_ours leased now) (lease_to worker until token) (archived_row a now) c
          rows u i (is_ours-IsWithin leased now) (λ x. refl) in
      let ours = own_lease leased until now fresh in rw (one, table, ours) refl

  fail-exact :
      (max delay : ℕ)
      → 1 ≤ max
      → fail leased max delay now claimed_rows
        ≡ ok (
          if leb max leased.attempts then Exports.dead else Exports.retry,
          rows_with (failed (leb max leased.attempts) delay now leased),
        )
  unfolding fail
  fail-exact max delay tried =
      let valid : ltb max 1 ≡ false = ground arith in
      let (one, table) =
        update-claimed (is_held leased) (lease_to worker until token)
          (failed (leb max leased.attempts) delay now) c rows u i (is_held-IsWithin leased)
          (λ x. refl) in
      let ours = own_row leased until fresh in rw (valid, one, table, ours) refl

  module _ (store : Store) (policy : Policy) (tried : 1 ≤ policy.max_attempts) where
    -- A run that ends the round for the row.
    abbrev IsEnded : Result (Outcome × List Row) → Type 0
    IsEnded r =
        (o : Outcome) × (y : Row) × (r ≡ ok (o, rows_with y))
        × Ending store policy until now leased o y

    pub settled-IsEnded :
        (o : Option Archived)
        → archive_of store leased.extra.payload_json ≡ o
        → IsEnded (settled policy leased now claimed_rows o)
    settled-IsEnded (some a) took = elim (Bool-cases (ltb now until)) [
      | inl early ↦ (archived, _, rw (acknowledge-exact a, early) refl, taken a (ground arith) took)
      | inr late ↦
          (not_ours, leased, rw (acknowledge-exact a, late) refl, too_late a (ground arith) took)
    ]
    settled-IsEnded none raised =
        let e = fail-exact policy.max_attempts policy.retry_delay tried in
        elim (Bool-cases (leb policy.max_attempts leased.attempts)) [
          | inl last ↦ (
            dead_letter,
            spoiled (some now) (now + policy.retry_delay) leased,
            rw (e, last) refl,
            exhausted raised (ground arith),
          )
          | inr more ↦ (
            will_retry,
            spoiled none (now + policy.retry_delay) leased,
            rw (e, more) refl,
            to_retry raised (ground arith),
          )
        ]
