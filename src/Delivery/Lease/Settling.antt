-- ===== src/Delivery/Lease/Settling.antt =====
-- What an update of the claimed row leaves, behind the claim: the row is found by its identifier, and
-- no other one is written.
use mathlib.Core.Bool.{false≢true}
use mathlib.Core.Path.{subst}
use sentinel_grc.Prelude.{
  ℕ, Bool, true, false, String, ◌≡◌, refl, sym, ◌∙◌, ap, inl, inr, none, List, [], ◌∷◌, arith,
  if◌then◌else◌, string_eq, eq_iff, beq_refl, nat_beq, any, update, count, select, Bool-cases, ltb,
  is_none,
}
use sentinel_grc.Delivery.Lease.{
  Item, has_id, holds_lease, is_leased, is_claimable, lease_to, candidate, first_by_age,
}
use sentinel_grc.Delivery.Lease.Claims.{In, Unique, Unique-eq, any-In}

module _ {E : Type 0} where
  -- The test holds at most of rows of that identifier.
  abbrev pub IsWithin : String → (Item E → Bool) → Type 0
  IsWithin k p = (x : Item E) → has_id k x ≡ false → p x ≡ false

  -- The row is the only one of that identifier.
  abbrev IsOnly : String → Item E → List (Item E) → Type 0
  IsOnly k c rows = (x : Item E) → In x rows → has_id k x ≡ true → x ≡ c

  Unique-IsOnly :
      (c : Item E) (rows : List (Item E)) → Unique rows → In c rows → IsOnly c.item_id c rows
  Unique-IsOnly c rows u i x at own = Unique-eq rows x c u at i ((eq_iff x.item_id c.item_id).0 own)

  module _ (k : String) (p : Item E → Bool) (l g : Item E → Item E) (c : Item E)
      (within : IsWithin k p) where
    update-only :
        (rows : List (Item E))
        → IsOnly k c rows
        → ((x : Item E) → has_id k (l x) ≡ has_id k x)
        → update p g (update (has_id k) l rows)
          ≡ update (has_id k) (λ x. if p (l c) then g (l c) else l c) rows
    update-only [] only keeps = refl
    update-only (x ∷ xs) only keeps =
        let rest = update-only xs (λ y at. only y (inr at)) keeps in
        elim (Bool-cases (has_id k x)) [
          | inl own ↦ let same : x ≡ c = only x (inl refl) own in cons_eq (rw (own, same) refl) rest
          | inr other ↦ cons_eq (rw (other, within x other) refl) rest
        ]
      where
        cons_eq : {x y : Item E} {xs ys : List (Item E)} → x ≡ y → xs ≡ ys → x ∷ xs ≡ y ∷ ys
        cons_eq h t = cc

    -- Behind an update of one row, the test holds of one row or none.
    count-only :
        (rows : List (Item E))
        → IsOnly k c rows
        → count p (update (has_id k) l rows) ≡ (if p (l c) then count (has_id k) rows else 0)
    count-only [] only = ground arith
    count-only (x ∷ xs) only =
        let rest = count-only xs (λ y at. only y (inr at)) in
        elim (Bool-cases (has_id k x)) [
          | inl own ↦
              let same : l x ≡ l c = ap l (only x (inl refl) own) in
              rw (own, same, rest) (ground arith)
          | inr other ↦ rw (other, within x other, rest) (ground arith)
        ]

  none-count :
      (k : String) (rows : List (Item E)) → any (has_id k) rows ≡ false → count (has_id k) rows ≡ 0
  none-count k [] n = refl
  none-count k (x ∷ xs) n = ground (arith, none-count k xs)

  In-fresh : (x : Item E) (xs : List (Item E)) → any (has_id x.item_id) xs ≡ false → In x xs → ⊥
  In-fresh x xs fresh i = false≢true (sym fresh ∙ any-In x.item_id xs x i refl)

  one-count :
      (c : Item E) (rows : List (Item E))
      → Unique rows
      → In c rows
      → count (has_id c.item_id) rows ≡ 1
  one-count c [] u i = elim i [ ]
  one-count c (x ∷ xs) (fresh, u) (inl same) =
      let zero = none-count x.item_id xs fresh in
      let own = beq_refl x.item_id in
      ap (λ (y : Item E). count (has_id y.item_id) (x ∷ xs)) same ∙ ground (arith, zero, own)
  one-count c (x ∷ xs) (fresh, u) (inr i) = elim (Bool-cases (has_id c.item_id x)) [
    | inl clash ↦
        let same =
          Unique-eq (x ∷ xs) x c (fresh, u) (inl refl) (inr i)
            ((eq_iff x.item_id c.item_id).0 clash) in
        absurd (In-fresh x xs fresh (subst (λ y. In y xs) (sym same) i))
    | inr other ↦ rw (other, one-count c xs u i) refl
  ]

  -- Of a claimed row, an update writes it or not, and reports it.
  pub update-claimed :
      (p : Item E → Bool) (l g : Item E → Item E) (c : Item E) (rows : List (Item E))
      → Unique rows
      → In c rows
      → IsWithin c.item_id p
      → ((x : Item E) → has_id c.item_id (l x) ≡ has_id c.item_id x)
      → (nat_beq (count p (update (has_id c.item_id) l rows)) 1 ≡ p (l c))
        × (update p g (update (has_id c.item_id) l rows)
            ≡ update (has_id c.item_id) (λ x. if p (l c) then g (l c) else l c) rows)
  update-claimed p l g c rows u i within keeps =
      let only = Unique-IsOnly c rows u i in
      let counted = count-only c.item_id p l g c within rows only in
      let one = one-count c rows u i in
      (
        elim (Bool-cases (p (l c))) [
          | inl yea ↦ rw (counted, yea, one) refl
          | inr nay ↦ rw (counted, nay) refl
        ],
        update-only c.item_id p l g c within rows only keeps,
      )

  select-none :
      (p : Item E → Bool) (rows : List (Item E))
      → first_by_age (select p rows) ≡ none
      → (x : Item E) → In x rows
      → p x ≡ false
  unfolding first_by_age
  select-none p [] e x i = elim i [ ]
  select-none p (y ∷ ys) e x i = elim (Bool-cases (p y)) [
    | inl yea ↦ let bad = rw yea at e in absurd (cc)
    | inr nay ↦ elim i [
      | inl same ↦ rw same nay
      | inr later ↦ select-none p ys (rw nay at e) x later
    ]
  ]

  -- The claim picks no row only if there is none to pick.
  pub candidate-none :
      (now : ℕ) (rows : List (Item E))
      → candidate now rows ≡ none
      → (x : Item E) → In x rows
      → is_claimable now rows x ≡ false
  candidate-none now rows e = select-none (is_claimable now rows) rows e

  -- The row that the claim returns, as the statements of the claimer find it.
  pub record IsFresh (until : ℕ) (item : Item E) : Type 0 where
    pub undone : is_none item.done_at ≡ true
    pub undead : is_none item.dead_at ≡ true
    pub held : holds_lease item item ≡ true
    pub lasts : (now : ℕ) → is_leased now item ≡ ltb now until

  pub lease_to-IsFresh :
      (worker : String) (until : ℕ) (token : String) (now : ℕ) (rows : List (Item E)) (c : Item E)
      → is_claimable now rows c ≡ true
      → IsFresh until (lease_to worker until token c)
  lease_to-IsFresh worker until token now rows c able = record {
    undone = ground arith;
    undead = ground arith;
    held = ground (arith, beq_refl worker, beq_refl token);
    lasts = λ later. refl;
  }
