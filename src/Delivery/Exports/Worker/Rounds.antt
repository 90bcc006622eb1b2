-- ===== src/Delivery/Exports/Worker/Rounds.antt =====
-- A round of the archive worker, from its claim on.
use sentinel_grc.Prelude.{
  ◌+◌, ◌≤◌, true, false, String, ◌≡◌, refl, Option, none, some, List, arith, ◌⊎◌, inl, inr, update,
}
use sentinel_grc.Prelude.Text
use sentinel_grc.Delivery.Lease.{ok, claim, take_lease, candidate, has_id, is_claimable, lease_to}
use sentinel_grc.Delivery.Lease.Claims.{In, Unique, candidate-In}
use sentinel_grc.Delivery.Lease.Exclusion.{find-update}
use sentinel_grc.Delivery.Lease.Settling.{candidate-none, lease_to-IsFresh}
use sentinel_grc.Delivery.Exports.{Row}
use sentinel_grc.Delivery.Exports.Worker.Endings.{Ending, settled-IsEnded}
use sentinel_grc.Delivery.Exports.Worker.{
  Outcome, Store, Policy, Clock, empty, archive_of, after_claim, run_once,
}

module _ (store : Store) (policy : Policy) (worker token : String) (clock : Clock)
    (rows : List Row) where
  claim-ok :
      Text.is_empty (Text.strip worker) ≡ false
      → 1 ≤ policy.lease
      → claim worker policy.lease token clock.claim rows
        ≡ ok
            (take_lease worker (clock.claim + policy.lease) token (candidate clock.claim rows) rows)
  unfolding claim
  claim-ok named leased = ground arith

  -- A round that finds nothing to claim, and leaves the table as it is.
  abbrev pub IsIdle : Outcome → List Row → Type 0
  IsIdle o rows' =
      (o ≡ empty)
      × (rows' ≡ rows)
      × ((x : Row) → In x rows → is_claimable clock.claim rows x ≡ false)

  -- A round for a row that could be claimed: it writes that row only, in the way of its ending.
  abbrev pub IsSettled : Outcome → List Row → Type 0
  IsSettled o rows' =
      (x y : Row) × In x rows
      × (is_claimable clock.claim rows x ≡ true)
      × (rows' ≡ update (has_id x.item_id) (λ z. y) rows)
      × Ending store policy (clock.claim + policy.lease) clock.settle
          (lease_to worker (clock.claim + policy.lease) token x) o y

  claimed-IsSettled :
      (o : Option Row)
      → Unique rows
      → 1 ≤ policy.max_attempts
      → candidate clock.claim rows ≡ o
      → (out : Outcome) × (rows' : List Row) × (after_claim store policy clock
            (ok (take_lease worker (clock.claim + policy.lease) token o rows))
          ≡ ok (out, rows'))
        × (IsIdle out rows' ⊎ IsSettled out rows')
  unfolding take_lease
  claimed-IsSettled none u tried picked =
      (empty, rows, refl, inl (refl, refl, candidate-none clock.claim rows picked))
  claimed-IsSettled (some c) u tried picked =
      let until = clock.claim + policy.lease in
      let (at, able) = candidate-In clock.claim rows c picked in
      let found =
        find-update c.item_id (lease_to worker until token) c rows (λ x. refl) u at refl in
      let (o, y, e, ending) =
        settled-IsEnded worker token until clock.settle rows c u at
          (lease_to-IsFresh worker until token clock.claim rows c able) store policy tried
          (archive_of store c.extra.payload_json) refl in
      (
        o,
        update (has_id c.item_id) (λ z. y) rows,
        rw (found, e) refl,
        inr (c, y, at, able, refl, ending),
      )

  -- From a table of unique identifiers, with a worker name that is not blank, a positive lease and at
  -- least one attempt, a round of the archive worker returns. Either no row could be claimed, and the
  -- table is as it was; or it writes only the row of one that could be claimed, which it leased. That
  -- row is archived exactly if the archive took its event and the lease had not run out at the
  -- settlement, and it stays leased if the lease had; if the event was not taken, it is a dead letter
  -- at the last attempt, and waits for its next attempt before that, whether the lease ran out or not.
  pub export_round :
      Unique rows
      → Text.is_empty (Text.strip worker) ≡ false
      → 1 ≤ policy.lease
      → 1 ≤ policy.max_attempts
      → (o : Outcome) × (rows' : List Row) × (run_once store policy worker token clock rows
          ≡ ok (o, rows'))
        × (IsIdle o rows' ⊎ IsSettled o rows')
  unfolding run_once
  export_round u named leased tried =
      rw (claim-ok named leased) (claimed-IsSettled (candidate clock.claim rows) u tried refl)
