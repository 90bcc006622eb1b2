-- ===== src/Delivery/Lease/Ordered.antt =====
-- The order of delivery: of the events of one finding, none is leased or done before all that come
-- earlier are done.
use sentinel_grc.Prelude.{
  Bool, true, false, ◌&&◌, ◌≡◌, refl, ◌∙◌, ◌⊎◌, inl, inr, List, [], ◌∷◌, arith, if◌then◌else◌,
  string_eq, is_none, any, update, Bool-cases,
}
use sentinel_grc.Delivery.Lease.{Item, blocks, has_id}
use sentinel_grc.Delivery.Lease.Claims.{In, Unique}

-- A write to some rows that keeps their keys, and makes none of them undone.
pub record KeepsKeys {E : Type 0} (f : Item E → Item E) : Type 0 where
  pub id : (x : Item E) → (f x).item_id ≡ x.item_id
  pub finding : (x : Item E) → (f x).finding_id ≡ x.finding_id
  pub sequence : (x : Item E) → (f x).event_sequence ≡ x.event_sequence

module _ {E : Type 0} where
  -- Neither leased nor done.
  abbrev pub is_waiting : Item E → Bool
  is_waiting x = is_none x.done_at && is_none x.lock_token

  abbrev pub InOrder : List (Item E) → Item E → Type 0
  InOrder rows x = (is_waiting x ≡ true) ⊎ (any (blocks x) rows ≡ false)

  abbrev pub IsOrdered : List (Item E) → Type 0
  IsOrdered rows = (x : Item E) → In x rows → InOrder rows x

  module _ (p : Item E → Bool) (f : Item E → Item E) (keys : KeepsKeys f)
      (done : (x : Item E)
        → p x ≡ true
        → is_none (f x).done_at ≡ true
        → is_none x.done_at ≡ true) where
    -- What is blocked after such a write was blocked before it.
    blocks-update :
        (x x' : Item E) (rows : List (Item E))
        → x'.finding_id ≡ x.finding_id
        → x'.event_sequence ≡ x.event_sequence
        → any (blocks x) rows ≡ false
        → any (blocks x') (update p f rows) ≡ false
    blocks-update x x' [] e s h = refl
    blocks-update x x' (y ∷ ys) e s h =
        ground (arith, blocks-update x x' ys e s, keys.finding y, keys.sequence y, done y)

    update-In :
        (rows : List (Item E)) (x' : Item E)
        → In x' (update p f rows)
        → (x : Item E) × In x rows × (x' ≡ (if p x then f x else x))
    update-In [] x' h = elim h [ ]
    update-In (y ∷ ys) x' (inl e) = (y, inl refl, e)
    update-In (y ∷ ys) x' (inr i) = let r = update-In ys x' i in (r.0, inr r.1, r.2)

    -- Such a write keeps the order, if each row that it writes waits, or is not blocked.
    pub update-IsOrdered :
        (rows : List (Item E))
        → ((x : Item E) → In x rows → p x ≡ true → InOrder rows x → InOrder rows (f x))
        → IsOrdered rows
        → IsOrdered (update p f rows)
    update-IsOrdered rows step h x' i =
        let (x, at, e) = update-In rows x' i in
        elim (Bool-cases (p x)) [
          | inl yea ↦ written x (e ∙ (rw yea)) (step x at yea (h x at))
          | inr nay ↦ kept x (e ∙ (rw nay)) (h x at)
        ]
      where
        written : (x : Item E) → x' ≡ f x → InOrder rows (f x) → InOrder (update p f rows) x'
        written x e (inl w) = inl (rw e w)
        written x e (inr b) = inr (rw e (blocks-update (f x) (f x) rows refl refl b))

        kept : (x : Item E) → x' ≡ x → InOrder rows x → InOrder (update p f rows) x'
        kept x e (inl w) = inl (rw e w)
        kept x e (inr b) = inr (rw e (blocks-update x x rows refl refl b))

    pub update-Unique : (rows : List (Item E)) → Unique rows → Unique (update p f rows)
    update-Unique [] u = tt
    update-Unique (x ∷ xs) u = (ids x xs u.0, update-Unique xs u.1)
      where
        ids :
            (x : Item E) (xs : List (Item E))
            → any (has_id x.item_id) xs ≡ false
            → any (has_id (if p x then f x else x).item_id) (update p f xs) ≡ false
        ids x [] h = refl
        ids x (y ∷ ys) h = ground (arith, ids x ys, keys.id x, keys.id y)
