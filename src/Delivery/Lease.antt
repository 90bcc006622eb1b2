-- ===== src/Delivery/Lease.antt =====
-- The leased queue that the tables governance_outbox and audit_exports have in common. `claim` is
-- the query of both modules, with delivered_at or archived_at as `done_at`.
pub mod Order
pub mod Claims
pub mod Ordered
pub mod Exclusion
pub mod Growth
pub mod Settling
use sentinel_grc.Prelude.{
  ℕ, ◌+◌, Bool, true, false, ◌&&◌, ◌||◌, not, String, Option, none, some, List, [], ◌∷◌, leb, ltb,
  nat_beq, if◌then◌else◌, ◌==◌, string_eq, is_none, opt_is, any, find, update, select,
}
use sentinel_grc.Prelude.Text
use sentinel_grc.Delivery.Lease.Order.{is_before}

-- A row; `extra` holds the columns that only one of the tables has.
pub record Item (E : Type 0) : Type 0 where
  pub item_id : String
  pub event_id : String
  pub finding_id : String
  pub event_sequence : ℕ
  pub created_at : ℕ
  pub available_at : ℕ
  pub attempts : ℕ
  pub locked_until : Option ℕ
  pub worker_id : Option String
  pub lock_token : Option String
  pub done_at : Option ℕ
  pub dead_at : Option ℕ
  pub last_error : Option String
  pub extra : E

pub data Error : Type 0 where
  bad_worker receipt_mismatch bad_policy bad_identity bad_confirmation bad_heartbeat : Error

pub data Result {ℓ} (A : Type ℓ) : Type ℓ where
  ok : A → Result A
  err : Error → Result A

-- `column = ?`, where either may be NULL.
abbrev pub same_opt : Option String → Option String → Bool
same_opt a none = false
same_opt a (some b) = opt_is a b

module _ {E : Type 0} where
  -- `item.locked_until IS NULL OR item.locked_until <= ?`
  abbrev pub is_unlocked : ℕ → Item E → Bool
  is_unlocked now item = elim item.locked_until [ none ↦ true | some t ↦ leb t now ]

  -- `locked_until > ?`
  abbrev pub is_leased : ℕ → Item E → Bool
  is_leased now item = elim item.locked_until [ none ↦ false | some t ↦ ltb now t ]

  -- The row `earlier` of the subquery.
  abbrev pub blocks : Item E → Item E → Bool
  blocks item earlier =
      earlier.finding_id == item.finding_id
      && (ltb earlier.event_sequence item.event_sequence && is_none earlier.done_at)

  -- The WHERE clause.
  abbrev pub is_claimable : ℕ → List (Item E) → Item E → Bool
  is_claimable now rows item =
      is_none item.done_at
      && (is_none item.dead_at
          && (leb item.available_at now && (is_unlocked now item && not (any (blocks item) rows))))

  abbrev pub earlier_of : Item E → Option (Item E) → Item E
  earlier_of x none = x
  earlier_of x (some y) = if is_before y.created_at y.item_id x.created_at x.item_id then y else x

  -- `ORDER BY item.created_at, item.outbox_id ... LIMIT 1`
  unfoldable pub first_by_age : List (Item E) → Option (Item E)
  first_by_age [] = none
  first_by_age (x ∷ xs) = some (earlier_of x (first_by_age xs))

  abbrev pub candidate : ℕ → List (Item E) → Option (Item E)
  candidate now rows = first_by_age (select (is_claimable now rows) rows)

  abbrev pub has_id : String → Item E → Bool
  has_id k item = item.item_id == k

  abbrev pub lease_to : String → ℕ → String → Item E → Item E
  lease_to worker until token item = record item {
    attempts = item.attempts + 1;
    locked_until = some until;
    worker_id = some worker;
    lock_token = some token;
  }

  -- The update of the candidate, and the row that is read back.
  unfoldable pub take_lease :
      String → ℕ → String → Option (Item E) → List (Item E) → Option (Item E) × List (Item E)
  take_lease worker until token none rows = (none, rows)
  take_lease worker until token (some c) rows =
      let after = update (has_id c.item_id) (lease_to worker until token) rows in
      (find (has_id c.item_id) after, after)

  -- `claim`, at the time `now` and with the token that uuid4 gave.
  unfoldable pub claim :
      String → ℕ → String → ℕ → List (Item E) → Result (Option (Item E) × List (Item E))
  claim worker lease token now rows =
      if Text.is_empty (Text.strip worker) || nat_beq lease 0
      then err bad_worker
      else ok (take_lease worker (now + lease) token (candidate now rows) rows)

  -- `worker_id = ? AND lock_token = ?`, against the item that `claim` returned.
  abbrev pub holds_lease : Item E → Item E → Bool
  holds_lease item row =
      same_opt row.worker_id item.worker_id && same_opt row.lock_token item.lock_token
