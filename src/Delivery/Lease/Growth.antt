-- ===== src/Delivery/Lease/Growth.antt =====
-- Tables that grow at the end, and the order of delivery in a table that is sound.
use mathlib.Core.Bool.{false≢true}
use sentinel_grc.Prelude.{
  ℕ, ◌<◌, true, false, String, ◌≡◌, refl, sym, ◌∙◌, ◌⊎◌, inl, inr, some, List, [], ◌∷◌, ◌++◌, arith,
  ◌==◌, string_eq, eq_iff, is_none, any,
}
use sentinel_grc.Delivery.Lease.{Item, ok, blocks, has_id, claim}
use sentinel_grc.Delivery.Lease.Claims.{In, Unique}
use sentinel_grc.Delivery.Lease.Ordered.{IsOrdered, is_waiting}
use sentinel_grc.Delivery.Lease.Exclusion.{claim-IsOrdered, claim-Unique}

In-append : {A : Type 0} (xs : List A) (n x : A) → In x (xs ++ n ∷ []) → In x xs ⊎ (x ≡ n)
In-append [] n x (inl e) = inr e
In-append [] n x (inr i) = elim i [ ]
In-append (y ∷ ys) n x (inl e) = inl (inl e)
In-append (y ∷ ys) n x (inr i) = elim (In-append ys n x i) [ inl j ↦ inl (inr j) | inr e ↦ inr e ]

-- Unique identifiers, and delivery in order.
pub record IsSound {E : Type 0} (rows : List (Item E)) : Type 0 where
  pub unique : Unique rows
  pub ordered : IsOrdered rows

-- A new notice: of an event that comes after all that the table has of its finding.
pub record IsNewest {E : Type 0} (n : Item E) (rows : List (Item E)) : Type 0 where
  pub unused : any (has_id n.item_id) rows ≡ false
  pub waiting : is_waiting n ≡ true
  pub last :
      (x : Item E) → In x rows → x.finding_id ≡ n.finding_id → x.event_sequence < n.event_sequence

Unique-append :
    {E : Type 0} (rows : List (Item E)) (n : Item E)
    → any (has_id n.item_id) rows ≡ false
    → Unique rows
    → Unique (rows ++ n ∷ [])
Unique-append {E} [] n h u = (refl, tt)
Unique-append {E} (x ∷ xs) n h u = (
  any_after xs (ground (arith, eq_iff n.item_id x.item_id, eq_iff x.item_id n.item_id)) u.0,
  Unique-append xs n (ground arith) u.1,
)
  where
    any_after :
        (ys : List (Item E))
        → (n.item_id == x.item_id) ≡ false
        → any (has_id x.item_id) ys ≡ false
        → any (has_id x.item_id) (ys ++ n ∷ []) ≡ false
    any_after [] e a = ground arith
    any_after (y ∷ ys) e a = ground (arith, any_after ys e)

blocks-append :
    {E : Type 0} (x n : Item E) (rows : List (Item E))
    → (x.finding_id ≡ n.finding_id → x.event_sequence < n.event_sequence)
    → any (blocks x) rows ≡ false
    → any (blocks x) (rows ++ n ∷ []) ≡ false
blocks-append x n [] last h = ground (arith, eq_iff n.finding_id x.finding_id, last)
blocks-append x n (y ∷ ys) last h = ground (arith, blocks-append x n ys last)

pub enqueue-IsSound :
    {E : Type 0} (rows : List (Item E)) (n : Item E)
    → IsSound rows
    → IsNewest n rows
    → IsSound (rows ++ n ∷ [])
enqueue-IsSound rows n h new = record {
  unique = Unique-append rows n new.unused h.unique;
  ordered = λ x i. elim (In-append rows n x i) [
    | inl at ↦ elim (h.ordered x at) [
      | inl w ↦ inl w
      | inr b ↦ inr (blocks-append x n rows (new.last x at) b)
    ]
    | inr e ↦ inl (rw e new.waiting)
  ];
}

not-blocks :
    {E : Type 0} (x y : Item E) (rows : List (Item E))
    → any (blocks x) rows ≡ false
    → In y rows
    → y.finding_id ≡ x.finding_id
    → y.event_sequence < x.event_sequence
    → is_none y.done_at ≡ false
not-blocks x y [] h i e lt = elim i [ ]
not-blocks x y (z ∷ zs) h (inl same) e lt = ground (arith, eq_iff z.finding_id x.finding_id, same)
not-blocks x y (z ∷ zs) h (inr i) e lt = ground (arith, not-blocks x y zs)

pub take-IsSound :
    {E : Type 0} (worker : String) (lease : ℕ) (token : String) (now : ℕ) (item : Item E)
    (rows rows' : List (Item E))
    → IsSound rows
    → claim worker lease token now rows ≡ ok (some item, rows')
    → IsSound rows'
take-IsSound worker lease token now item rows rows' h e = record {
  unique = claim-Unique worker lease token now rows item rows' h.unique e;
  ordered = claim-IsOrdered worker lease token now rows item rows' h.unique e h.ordered;
}

-- In a sound table, a row that is done or leased has all earlier rows of its finding done.
pub IsSound-ordered :
    {E : Type 0} (x y : Item E) (rows : List (Item E))
    → IsSound rows
    → In x rows
    → In y rows
    → is_waiting x ≡ false
    → y.finding_id ≡ x.finding_id
    → y.event_sequence < x.event_sequence
    → is_none y.done_at ≡ false
IsSound-ordered x y rows h i j busy same lt = elim (h.ordered x i) [
  | inl w ↦ absurd (false≢true (sym busy ∙ w))
  | inr b ↦ not-blocks x y rows b j same lt
]
