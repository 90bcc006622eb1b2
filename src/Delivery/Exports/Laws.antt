-- ===== src/Delivery/Exports/Laws.antt =====
-- The audit exports as a step relation, and the order of archiving in all its histories.
use mathlib.Core.Path.{subst}
use sentinel_grc.Prelude.{
  ℕ, ◌<◌, Bool, true, false, String, ◌≡◌, refl, ap, inl, inr, some, List, [], ◌∷◌, ◌++◌, arith, leb,
  string_eq, is_none, update,
}
use sentinel_grc.Delivery.Lease.{ok, claim}
use sentinel_grc.Delivery.Lease.Claims.{In}
use sentinel_grc.Delivery.Lease.Ordered.{
  KeepsKeys, InOrder, is_waiting, update-IsOrdered, update-Unique,
}
use sentinel_grc.Delivery.Lease.Growth.{
  IsSound, IsNewest, enqueue-IsSound, take-IsSound, IsSound-ordered,
}
use sentinel_grc.Delivery.Exports.{
  Row, Archived, Verdict, is_ours, is_held, archived_row, failed, requeued, is_dead_letter,
  acknowledge, fail, requeue_dead,
}

pub data Step (rows rows' : List Row) : Type 0 where
  enqueue : (n : Row) → IsNewest n rows → rows' ≡ rows ++ n ∷ [] → Step rows rows'
  take :
      (worker : String) (lease : ℕ) (token : String) (now : ℕ) (item : Row)
      → claim worker lease token now rows ≡ ok (some item, rows')
      → Step rows rows'
  accept :
      (item : Row) (a : Archived) (now : ℕ) (done : Bool)
      → acknowledge item a now rows ≡ (done, rows')
      → Step rows rows'
  give_up :
      (item : Row) (max_attempts delay now : ℕ) (v : Verdict)
      → fail item max_attempts delay now rows ≡ ok (v, rows')
      → Step rows rows'
  revive :
      (k confirmation : String) (now : ℕ) (done : Bool)
      → requeue_dead k confirmation now rows ≡ ok (done, rows')
      → Step rows rows'

pub data Reach (rows : List Row) : List Row → Type 0 where
  here : Reach rows rows
  next : {mid rows' : List Row} → Reach rows mid → Step mid rows' → Reach rows rows'

-- The write of `acknowledge` finds a token, so the row was leased and is not blocked.
ours-not-waiting : (item x : Row) (now : ℕ) → is_ours item now x ≡ true → is_waiting x ≡ true → ⊥
ours-not-waiting item x now h w = ground arith

module _ (rows : List Row) (h : IsSound rows) where
  archived-IsSound :
      (item : Row) (a : Archived) (now : ℕ)
      → IsSound (update (is_ours item now) (archived_row a now) rows)
  archived-IsSound item a now = record {
    unique =
        update-Unique (is_ours item now) (archived_row a now) keys (λ x yea d. cc) rows h.unique;
    ordered =
        update-IsOrdered (is_ours item now) (archived_row a now) keys (λ x yea d. cc) rows
          (λ x at yea o. step x yea o) h.ordered;
  }
    where
      keys : KeepsKeys (archived_row a now)
      keys = record { id = λ x. refl; finding = λ x. refl; sequence = λ x. refl }

      step :
          (x : Row)
          → is_ours item now x ≡ true
          → InOrder rows x
          → InOrder rows (archived_row a now x)
      step x yea (inl w) = absurd (ours-not-waiting item x now yea w)
      step x yea (inr b) = inr b

  failed-IsSound :
      (item : Row) (is_dead : Bool) (delay now : ℕ)
      → IsSound (update (is_held item) (failed is_dead delay now) rows)
  failed-IsSound item is_dead delay now = record {
    unique =
        update-Unique (is_held item) (failed is_dead delay now) keys (λ x yea d. d) rows h.unique;
    ordered =
        update-IsOrdered (is_held item) (failed is_dead delay now) keys (λ x yea d. d) rows
          (λ x at yea o. inl (ground arith)) h.ordered;
  }
    where
      keys : KeepsKeys (failed is_dead delay now)
      keys = record { id = λ x. refl; finding = λ x. refl; sequence = λ x. refl }

  requeued-IsSound :
      (k : String) (now : ℕ) → IsSound (update (is_dead_letter k) (requeued now) rows)
  requeued-IsSound k now = record {
    unique = update-Unique (is_dead_letter k) (requeued now) keys (λ x yea d. d) rows h.unique;
    ordered =
        update-IsOrdered (is_dead_letter k) (requeued now) keys (λ x yea d. d) rows
          (λ x at yea o. inl (ground arith)) h.ordered;
  }
    where
      keys : KeepsKeys (requeued now)
      keys = record { id = λ x. refl; finding = λ x. refl; sequence = λ x. refl }

  accept-IsSound :
      (item : Row) (a : Archived) (now : ℕ) (done : Bool) (rows' : List Row)
      → acknowledge item a now rows ≡ (done, rows')
      → IsSound rows'
  unfolding acknowledge
  accept-IsSound item a now done rows' e =
      subst IsSound (ap (λ (r : Bool × List Row). r.1) e) (archived-IsSound item a now)

  give_up-IsSound :
      (item : Row) (max_attempts delay now : ℕ) (v : Verdict) (rows' : List Row)
      → fail item max_attempts delay now rows ≡ ok (v, rows')
      → IsSound rows'
  unfolding fail
  give_up-IsSound item max_attempts delay now v rows' e =
      subst IsSound (ground arith) (failed-IsSound item (leb max_attempts item.attempts) delay now)

  revive-IsSound :
      (k confirmation : String) (now : ℕ) (done : Bool) (rows' : List Row)
      → requeue_dead k confirmation now rows ≡ ok (done, rows')
      → IsSound rows'
  unfolding requeue_dead
  revive-IsSound k confirmation now done rows' e =
      subst IsSound (ground arith) (requeued-IsSound k now)

pub Step-IsSound : {rows rows' : List Row} → Step rows rows' → IsSound rows → IsSound rows'
Step-IsSound {rows} (enqueue n new e) h = rw e (enqueue-IsSound rows n h new)
Step-IsSound {rows} {rows'} (take worker lease token now item e) h =
    take-IsSound worker lease token now item rows rows' h e
Step-IsSound {rows} {rows'} (accept item a now done e) h =
    accept-IsSound rows h item a now done rows' e
Step-IsSound {rows} {rows'} (give_up item max_attempts delay now v e) h =
    give_up-IsSound rows h item max_attempts delay now v rows' e
Step-IsSound {rows} {rows'} (revive k confirmation now done e) h =
    revive-IsSound rows h k confirmation now done rows' e

pub Reach-IsSound : {rows rows' : List Row} → Reach rows rows' → IsSound rows → IsSound rows'
Reach-IsSound here h = h
Reach-IsSound (next r s) h = Step-IsSound s (Reach-IsSound r h)

-- From a sound table, after any history of new exports, claims, acknowledgements, failures and
-- requeues by whatever workers, an event that is archived has all earlier events of its finding
-- archived; so has one that is leased.
pub ordered_archiving :
    {rows rows' : List Row} (x y : Row)
    → IsSound rows
    → Reach rows rows'
    → In x rows'
    → In y rows'
    → is_waiting x ≡ false
    → y.finding_id ≡ x.finding_id
    → y.event_sequence < x.event_sequence
    → is_none y.done_at ≡ false
ordered_archiving {rows} {rows'} x y h r i j busy same lt =
    IsSound-ordered x y rows' (Reach-IsSound r h) i j busy same lt
