-- ===== src/Delivery/Outbox/Worker/Rounds.antt =====
-- A round of the worker, from the claim to the heartbeat behind it.
use sentinel_grc.Prelude.Text
use sentinel_grc.Prelude.{
  ℕ, ◌+◌, ◌≤◌, true, false, String, ◌≡◌, refl, Option, none, some, List, arith, ◌⊎◌, inl, inr,
  update,
}
use sentinel_grc.Delivery.Lease.{
  Result, ok, claim, candidate, take_lease, has_id, is_claimable, lease_to,
}
use sentinel_grc.Delivery.Lease.Claims.{In, Unique, candidate-In}
use sentinel_grc.Delivery.Lease.Exclusion.{find-update}
use sentinel_grc.Delivery.Lease.Settling.{candidate-none, lease_to-IsFresh}
use sentinel_grc.Delivery.Outbox.{Row, Heartbeat, Health, running, upsert_heartbeat, heartbeat}
use sentinel_grc.Delivery.Outbox.Message.{Codec, Message}
use sentinel_grc.Delivery.Outbox.Worker.Endings.{Ending, deliver-IsEnded}
use sentinel_grc.Delivery.Outbox.Worker.{
  empty, Answer, Outcome, Box, Clock, Policy, Messages, health_after, after_claim, run_once,
}

module _ (codec : Codec) (texts : Messages) (policy : Policy) (publish : Message → Answer)
    (worker token : String) (clock : Clock) where
  abbrev signed_off : Health → List Heartbeat → List Heartbeat
  signed_off health hs =
      upsert_heartbeat (record { worker_id = worker; heartbeat_at = clock.finish; health = health })
        hs

  heartbeat-ok :
      (health : Health) (now : ℕ) (hs : List Heartbeat)
      → Text.is_empty (Text.strip worker) ≡ false
      → heartbeat worker health now hs
        ≡ ok (
            upsert_heartbeat
              (record { worker_id = worker; heartbeat_at = now; health = health })
              hs)
  unfolding heartbeat
  heartbeat-ok health now hs named = ground arith

  claim-ok :
      (rows : List Row)
      → Text.is_empty (Text.strip worker) ≡ false
      → 1 ≤ policy.lease
      → claim worker policy.lease token clock.claim rows
        ≡ ok
            (take_lease worker (clock.claim + policy.lease) token (candidate clock.claim rows) rows)
  unfolding claim
  claim-ok rows named leased = ground arith

  -- A round that finds nothing to claim, and leaves the table as it is.
  abbrev pub IsIdle : List Row → Outcome → List Row → Type 0
  IsIdle rows o rows' =
      (o ≡ empty)
      × (rows' ≡ rows)
      × ((x : Row) → In x rows → is_claimable clock.claim rows x ≡ false)

  -- A round for a row that could be claimed: it writes that row only, in the way of its ending.
  abbrev pub IsSettled : List Row → Outcome → List Row → Type 0
  IsSettled rows o rows' =
      (x y : Row) × In x rows
      × (is_claimable clock.claim rows x ≡ true)
      × (rows' ≡ update (has_id x.item_id) (λ z. y) rows)
      × Ending codec texts policy publish (clock.claim + policy.lease) clock.settle
          (lease_to worker (clock.claim + policy.lease) token x) o y

  abbrev IsRound : List Row → Result (Outcome × Box) → Type 0
  IsRound rows r =
      (o : Outcome) × (box' : Box) × (r ≡ ok (o, box'))
      × (IsIdle rows o box'.rows ⊎ IsSettled rows o box'.rows)

  claimed-IsRound :
      (rows : List Row) (hs : List Heartbeat) (o : Option Row)
      → Unique rows
      → Text.is_empty (Text.strip worker) ≡ false
      → 1 ≤ policy.max_attempts
      → candidate clock.claim rows ≡ o
      → IsRound rows (
          after_claim codec texts policy publish worker clock hs
            (ok (take_lease worker (clock.claim + policy.lease) token o rows)))
  unfolding take_lease
  claimed-IsRound rows hs none u named tried picked = (
    empty,
    record { rows = rows; heartbeats = signed_off running hs },
    rw (heartbeat-ok running clock.finish hs named) refl,
    inl (refl, refl, candidate-none clock.claim rows picked),
  )
  claimed-IsRound rows hs (some c) u named tried picked =
      let until = clock.claim + policy.lease in
      let (at, able) = candidate-In clock.claim rows c picked in
      let found =
        find-update c.item_id (lease_to worker until token) c rows (λ x. refl) u at refl in
      let (o, y, e, ending) =
        deliver-IsEnded worker token until clock.settle rows c u at
          (lease_to-IsFresh worker until token clock.claim rows c able) codec texts policy publish
          tried in
      (
        o,
        record {
          rows = update (has_id c.item_id) (λ z. y) rows;
          heartbeats = signed_off (health_after o) hs;
        },
        rw (found, e, heartbeat-ok (health_after o) clock.finish hs named) refl,
        inr (c, y, at, able, refl, ending),
      )

  -- From a table of unique identifiers, with a worker name that is not blank, a positive lease and at
  -- least one attempt, a round of the worker returns. Either no row could be claimed, and the table is
  -- as it was; or it writes only the row of one that could be claimed, which it leased. If that lease
  -- ran out before the settlement, the row stays leased. Otherwise it is delivered only if the publisher
  -- gave a receipt with the identifier of the row for its message; it is a dead letter if it has no
  -- message to publish, the publisher refused it or gave another receipt, or was unavailable at the last
  -- attempt; and it waits for its next attempt if the publisher was unavailable before that.
  pub outbox_round :
      (box : Box)
      → Unique box.rows
      → Text.is_empty (Text.strip worker) ≡ false
      → 1 ≤ policy.lease
      → 1 ≤ policy.max_attempts
      → (o : Outcome) × (box' : Box) × (run_once codec texts policy publish worker token clock box
          ≡ ok (o, box'))
        × (IsIdle box.rows o box'.rows ⊎ IsSettled box.rows o box'.rows)
  unfolding run_once
  outbox_round box u named leased tried =
      rw (heartbeat-ok running clock.start box.heartbeats named, claim-ok box.rows named leased)
        (claimed-IsRound box.rows _ (candidate clock.claim box.rows) u named tried refl)
