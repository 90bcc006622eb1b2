-- ===== src/Delivery/Outbox/Laws.antt =====
-- The outbox as a step relation, and the order of delivery in all its histories.
use mathlib.Core.Path.{subst}
use sentinel_grc.Prelude.{
  ℕ, ◌<◌, Bool, true, false, String, ◌≡◌, refl, ap, inl, inr, Option, none, some, List, [], ◌∷◌,
  ◌++◌, arith, string_eq, is_none, update, Bool-cases, find,
}
use sentinel_grc.Delivery.Lease.{ok, has_id, claim}
use sentinel_grc.Delivery.Lease.Claims.{In}
use sentinel_grc.Delivery.Lease.Ordered.{
  KeepsKeys, InOrder, is_waiting, update-IsOrdered, update-Unique,
}
use sentinel_grc.Delivery.Lease.Growth.{
  IsSound, IsNewest, enqueue-IsSound, take-IsSound, IsSound-ordered,
}
use sentinel_grc.Delivery.Outbox.{
  Row, Verdict, is_ours, delivered, failed, is_last, requeued, is_dead_letter, acknowledge,
  acknowledge_row, fail, requeue_dead,
}

pub data Step (rows rows' : List Row) : Type 0 where
  enqueue : (n : Row) → IsNewest n rows → rows' ≡ rows ++ n ∷ [] → Step rows rows'
  take :
      (worker : String) (lease : ℕ) (token : String) (now : ℕ) (item : Row)
      → claim worker lease token now rows ≡ ok (some item, rows')
      → Step rows rows'
  accept :
      (item : Row) (receipt : String) (now : ℕ) (done : Bool)
      → acknowledge item receipt now rows ≡ ok (done, rows')
      → Step rows rows'
  give_up :
      (item : Row) (error : String) (permanent : Bool) (max_attempts delay now : ℕ) (v : Verdict)
      → fail item error permanent max_attempts delay now rows ≡ ok (v, rows')
      → Step rows rows'
  revive :
      (k confirmation : String) (now : ℕ) (done : Bool)
      → requeue_dead k confirmation now rows ≡ ok (done, rows')
      → Step rows rows'

pub data Reach (rows : List Row) : List Row → Type 0 where
  here : Reach rows rows
  next : {mid rows' : List Row} → Reach rows mid → Step mid rows' → Reach rows rows'

-- The write of `acknowledge` finds a token, so the row was leased and is not blocked.
ours-not-waiting : (item x : Row) (now : ℕ) → is_ours item now x ≡ true → is_waiting x ≡ true → ⊥
ours-not-waiting item x now h w = ground arith

module _ (rows : List Row) (h : IsSound rows) where
  delivered-IsSound :
      (item : Row) (receipt : String) (now : ℕ)
      → IsSound (update (is_ours item now) (delivered receipt now) rows)
  delivered-IsSound item receipt now = record {
    unique =
        update-Unique (is_ours item now) (delivered receipt now) keys (λ x yea d. cc) rows h.unique;
    ordered =
        update-IsOrdered (is_ours item now) (delivered receipt now) keys (λ x yea d. cc) rows
          (λ x at yea o. step x yea o) h.ordered;
  }
    where
      keys : KeepsKeys (delivered receipt now)
      keys = record { id = λ x. refl; finding = λ x. refl; sequence = λ x. refl }

      step :
          (x : Row)
          → is_ours item now x ≡ true
          → InOrder rows x
          → InOrder rows (delivered receipt now x)
      step x yea (inl w) = absurd (ours-not-waiting item x now yea w)
      step x yea (inr b) = inr b

  failed-IsSound :
      (item : Row) (is_dead : Bool) (delay : ℕ) (error : String) (now : ℕ)
      → IsSound (update (is_ours item now) (failed is_dead delay error now) rows)
  failed-IsSound item is_dead delay error now = record {
    unique =
        update-Unique (is_ours item now) (failed is_dead delay error now) keys (λ x yea d. d) rows
          h.unique;
    ordered =
        update-IsOrdered (is_ours item now) (failed is_dead delay error now) keys (λ x yea d. d)
          rows (λ x at yea o. inl (ground arith)) h.ordered;
  }
    where
      keys : KeepsKeys (failed is_dead delay error now)
      keys = record { id = λ x. refl; finding = λ x. refl; sequence = λ x. refl }

  requeued-IsSound :
      (k : String) (now : ℕ) → IsSound (update (is_dead_letter k) (requeued now) rows)
  requeued-IsSound k now = record {
    unique = update-Unique (is_dead_letter k) (requeued now) keys (λ x yea d. d) rows h.unique;
    ordered =
        update-IsOrdered (is_dead_letter k) (requeued now) keys (λ x yea d. d) rows
          (λ x at yea o. inl (ground arith)) h.ordered;
  }
    where
      keys : KeepsKeys (requeued now)
      keys = record { id = λ x. refl; finding = λ x. refl; sequence = λ x. refl }

  acknowledged-IsSound :
      (item : Row) (receipt : String) (now : ℕ) (done : Bool) (o : Option Row) (rows' : List Row)
      → acknowledge_row item receipt now o rows ≡ (done, rows')
      → IsSound rows'
  unfolding acknowledge_row
  acknowledged-IsSound item receipt now done none rows' e =
      subst IsSound (ap (λ (r : Bool × List Row). r.1) e) h
  acknowledged-IsSound item receipt now done (some row) rows' e =
      elim (Bool-cases (is_none row.done_at)) [
        | inl open_ ↦
            subst IsSound (ap (λ (r : Bool × List Row). r.1) (rw open_ at e))
              (delivered-IsSound item receipt now)
        | inr old ↦ subst IsSound (ap (λ (r : Bool × List Row). r.1) (rw old at e)) h
      ]

  accept-IsSound :
      (item : Row) (receipt : String) (now : ℕ) (done : Bool) (rows' : List Row)
      → acknowledge item receipt now rows ≡ ok (done, rows')
      → IsSound rows'
  unfolding acknowledge
  accept-IsSound item receipt now done rows' e =
      acknowledged-IsSound item receipt now done (find (has_id item.item_id) rows) rows'
        (ground arith)

  give_up-IsSound :
      (item : Row) (error : String) (permanent : Bool) (max_attempts delay now : ℕ) (v : Verdict)
      (rows' : List Row)
      → fail item error permanent max_attempts delay now rows ≡ ok (v, rows')
      → IsSound rows'
  unfolding fail
  give_up-IsSound item error permanent max_attempts delay now v rows' e =
      subst IsSound (ground arith)
        (failed-IsSound item (is_last permanent max_attempts item) delay error now)

  revive-IsSound :
      (k confirmation : String) (now : ℕ) (done : Bool) (rows' : List Row)
      → requeue_dead k confirmation now rows ≡ ok (done, rows')
      → IsSound rows'
  unfolding requeue_dead
  revive-IsSound k confirmation now done rows' e =
      subst IsSound (ground arith) (requeued-IsSound k now)

pub Step-IsSound : {rows rows' : List Row} → Step rows rows' → IsSound rows → IsSound rows'
Step-IsSound {rows} (enqueue n new e) h = rw e (enqueue-IsSound rows n h new)
Step-IsSound {rows} {rows'} (take worker lease token now item e) h =
    take-IsSound worker lease token now item rows rows' h e
Step-IsSound {rows} {rows'} (accept item receipt now done e) h =
    accept-IsSound rows h item receipt now done rows' e
Step-IsSound {rows} {rows'} (give_up item error permanent max_attempts delay now v e) h =
    give_up-IsSound rows h item error permanent max_attempts delay now v rows' e
Step-IsSound {rows} {rows'} (revive k confirmation now done e) h =
    revive-IsSound rows h k confirmation now done rows' e

pub Reach-IsSound : {rows rows' : List Row} → Reach rows rows' → IsSound rows → IsSound rows'
Reach-IsSound here h = h
Reach-IsSound (next r s) h = Step-IsSound s (Reach-IsSound r h)

-- From a sound table, after any history of new notices, claims, acknowledgements, failures and
-- requeues by whatever workers, an event that is delivered has all earlier events of its finding
-- delivered; so has one that is leased.
pub ordered_delivery :
    {rows rows' : List Row} (x y : Row)
    → IsSound rows
    → Reach rows rows'
    → In x rows'
    → In y rows'
    → is_waiting x ≡ false
    → y.finding_id ≡ x.finding_id
    → y.event_sequence < x.event_sequence
    → is_none y.done_at ≡ false
ordered_delivery {rows} {rows'} x y h r i j busy same lt =
    IsSound-ordered x y rows' (Reach-IsSound r h) i j busy same lt
