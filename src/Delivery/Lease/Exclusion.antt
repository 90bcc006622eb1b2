-- ===== src/Delivery/Lease/Exclusion.antt =====
-- What a successful `claim` did, and that until the lease runs out no other claim gets the row.
use sentinel_grc.Prelude.{
  ℕ, ◌+◌, ◌<◌, true, false, String, ◌≡◌, ◌≢◌, refl, sym, ◌∙◌, ap, inl, inr, Option, none, some,
  List, [], ◌∷◌, arith, ◌==◌, string_eq, eq_iff, any, find, update, Bool-cases, some_inj,
}
use sentinel_grc.Delivery.Lease.{
  Item, ok, blocks, has_id, is_claimable, is_unlocked, lease_to, take_lease, candidate, claim,
}
use sentinel_grc.Delivery.Lease.Claims.{In, Unique, Unique-eq, candidate-In}
use sentinel_grc.Delivery.Lease.Ordered.{KeepsKeys, IsOrdered, update-IsOrdered, update-Unique}

lease_to-KeepsKeys :
    {E : Type 0} (worker : String) (until : ℕ) (token : String)
    → KeepsKeys {E = E} (lease_to worker until token)
lease_to-KeepsKeys worker until token = record {
  id = λ x. refl;
  finding = λ x. refl;
  sequence = λ x. refl;
}

module _ {E : Type 0} where
  pub claimable-unblocked :
      (now : ℕ) (rows : List (Item E)) (c : Item E)
      → is_claimable now rows c ≡ true
      → any (blocks c) rows ≡ false
  claimable-unblocked now rows c h = ground arith

  pub claimable-unlocked :
      (now : ℕ) (rows : List (Item E)) (c : Item E)
      → is_claimable now rows c ≡ true
      → is_unlocked now c ≡ true
  claimable-unlocked now rows c h = ground arith

  unlocked-late :
      (now t : ℕ) (c : Item E) → c.locked_until ≡ some t → is_unlocked now c ≡ true → now < t → ⊥
  unlocked-late now t c e h lt = ground (arith, e)

  pub find-update :
      (k : String) (g : Item E → Item E) (c : Item E) (rows : List (Item E))
      → ((x : Item E) → (g x).item_id ≡ x.item_id)
      → Unique rows
      → In c rows
      → c.item_id ≡ k
      → find (has_id k) (update (has_id k) g rows) ≡ some (g c)
  find-update k g c [] keeps u i e = elim i [ ]
  find-update k g c (x ∷ xs) keeps u (inl same) e =
      ground (arith, keeps x, eq_iff x.item_id k, eq_iff (g x).item_id k, same)
  find-update k g c (x ∷ xs) keeps u (inr i) e = elim (Bool-cases (x.item_id == k)) [
    | inl clash ↦
        let same =
          Unique-eq (x ∷ xs) x c u (inl refl) (inr i) ((eq_iff x.item_id k).0 clash ∙ sym e) in
        ground (arith, clash, keeps x, eq_iff x.item_id k, eq_iff (g x).item_id k, same)
    | inr other ↦
        ground (
          arith,
          other,
          find-update k g c xs keeps u.1 i,
          eq_iff x.item_id k,
          eq_iff (g x).item_id k,
        )
  ]

  find-In :
      (k : String) (rows : List (Item E)) (c : Item E)
      → find (has_id k) rows ≡ some c
      → In c rows × (c.item_id ≡ k)
  find-In k [] c h = absurd (cc)
  find-In k (x ∷ xs) c h = elim (Bool-cases (x.item_id == k)) [
    | inl yea ↦
        let same : x ≡ c = some_inj (rw yea at h) in
        (inl (sym same), ap (λ (y : Item E). y.item_id) (sym same) ∙ (eq_iff x.item_id k).0 yea)
    | inr nay ↦ let r = find-In k xs c (rw nay at h) in (inr r.0, r.1)
  ]

  -- The row that a claim returns, and what has become of the table.
  pub record Claimed (worker : String) (lease : ℕ) (token : String) (now : ℕ) (rows : List (Item E))
      (item : Item E) (rows' : List (Item E)) : Type 0 where
    pub before : Item E
    pub was_there : In before rows
    pub was_claimable : is_claimable now rows before ≡ true
    pub returned : item ≡ lease_to worker (now + lease) token before
    pub table : rows' ≡ update (has_id before.item_id) (lease_to worker (now + lease) token) rows
    pub is_there : In item rows'

  module _ (worker : String) (lease : ℕ) (token : String) (now : ℕ) (rows : List (Item E)) where
    took-Claimed :
        (c item : Item E) (rows' : List (Item E))
        → Unique rows
        → candidate now rows ≡ some c
        → take_lease worker (now + lease) token (some c) rows ≡ (some item, rows')
        → Claimed worker lease token now rows item rows'
    unfolding take_lease
    took-Claimed c item rows' u e h =
        let (at, claimable) = candidate-In now rows c e in
        let g = lease_to {E = E} worker (now + lease) token in
        let found = find-update c.item_id g c rows (λ x. refl) u at refl in
        let table : rows' ≡ update (has_id c.item_id) g rows =
          sym (ap (λ (r : Option (Item E) × List (Item E)). r.1) h) in
        let got : find (has_id c.item_id) (update (has_id c.item_id) g rows) ≡ some item =
          ap (λ (r : Option (Item E) × List (Item E)). r.0) h in
        record {
          before = c;
          was_there = at;
          was_claimable = claimable;
          returned = some_inj (sym got ∙ found);
          table = table;
          is_there = rw table (find-In c.item_id (update (has_id c.item_id) g rows) item got).0;
        }

    claim-take_lease :
        (r : Option (Item E) × List (Item E))
        → claim worker lease token now rows ≡ ok r
        → take_lease worker (now + lease) token (candidate now rows) rows ≡ r
    unfolding claim
    claim-take_lease r h = ground arith

    took_something :
        (o : Option (Item E)) (item : Item E) (rows' : List (Item E))
        → take_lease worker (now + lease) token o rows ≡ (some item, rows')
        → (c : Item E) × (o ≡ some c)
    unfolding take_lease
    took_something none item rows' h =
        absurd (cc (ap (λ (r : Option (Item E) × List (Item E)). r.0) h))
    took_something (some c) item rows' h = (c, refl)

    pub claim-Claimed :
        (item : Item E) (rows' : List (Item E))
        → Unique rows
        → claim worker lease token now rows ≡ ok (some item, rows')
        → Claimed worker lease token now rows item rows'
    claim-Claimed item rows' u h =
        let took = claim-take_lease (some item, rows') h in
        let (c, e) = took_something (candidate now rows) item rows' took in
        took-Claimed c item rows' u e (rw e at took)

    pub claim-IsOrdered :
        (item : Item E) (rows' : List (Item E))
        → Unique rows
        → claim worker lease token now rows ≡ ok (some item, rows')
        → IsOrdered rows
        → IsOrdered rows'
    claim-IsOrdered item rows' u h ordered =
        let c = claim-Claimed item rows' u h in
        rw c.table (
          update-IsOrdered (has_id c.before.item_id) (lease_to worker (now + lease) token)
            (lease_to-KeepsKeys worker (now + lease) token) (λ x yea d. d) rows
            (λ x at yea w. inr (unblocked c x at yea)) ordered)
      where
        unblocked :
            (c : Claimed worker lease token now rows item rows') (x : Item E)
            → In x rows
            → has_id c.before.item_id x ≡ true
            → any (blocks (lease_to worker (now + lease) token x)) rows ≡ false
        unblocked c x at yea =
            let same : x ≡ c.before =
              Unique-eq rows x c.before u at c.was_there
                ((eq_iff x.item_id c.before.item_id).0 yea) in
            rw same (claimable-unblocked now rows c.before c.was_claimable)

    pub claim-Unique :
        (item : Item E) (rows' : List (Item E))
        → Unique rows
        → claim worker lease token now rows ≡ ok (some item, rows')
        → Unique rows'
    claim-Unique item rows' u h =
        let c = claim-Claimed item rows' u h in
        rw c.table (
          update-Unique (has_id c.before.item_id) (lease_to worker (now + lease) token)
            (lease_to-KeepsKeys worker (now + lease) token) (λ x yea d. d) rows u)

    -- A claim that returns nothing leaves the table as it is.
    pub claim-none :
        (rows' : List (Item E))
        → Unique rows
        → claim worker lease token now rows ≡ ok (none, rows')
        → rows' ≡ rows
    unfolding take_lease
    claim-none rows' u h = go (candidate now rows) refl (claim-take_lease (none, rows') h)
      where
        go :
            (o : Option (Item E))
            → candidate now rows ≡ o
            → take_lease worker (now + lease) token o rows ≡ (none, rows')
            → rows' ≡ rows
        go none e q = sym (ap (λ (r : Option (Item E) × List (Item E)). r.1) q)
        go (some c) e q =
            let found =
              find-update c.item_id (lease_to {E = E} worker (now + lease) token) c rows (λ x. refl)
                u (candidate-In now rows c e).0 refl in
            absurd (cc (sym found ∙ ap (λ (r : Option (Item E) × List (Item E)). r.0) q))

-- From a table of unique identifiers, a claim by whatever worker on the table that an earlier claim left,
-- at a time before the lease of the earlier one ends, does not get the row that the earlier one got.
pub claim_exclusive :
    {E : Type 0} (w w' : String) (lease lease' : ℕ) (token token' : String) (now now' : ℕ)
    (rows mid rows' : List (Item E)) (item item' : Item E)
    → Unique rows
    → claim w lease token now rows ≡ ok (some item, mid)
    → claim w' lease' token' now' mid ≡ ok (some item', rows')
    → now' < now + lease
    → item'.item_id ≢ item.item_id
claim_exclusive {E = E} w w' lease lease' token token' now now' rows mid rows' item item' u h h'
      soon same =
    let c = claim-Claimed w lease token now rows item mid u h in
    let u' = claim-Unique w lease token now rows item mid u h in
    let c' = claim-Claimed w' lease' token' now' mid item' rows' u' h' in
    let id : c'.before.item_id ≡ item.item_id =
      sym (ap (λ (x : Item E). x.item_id) c'.returned) ∙ same in
    let again : c'.before ≡ item = Unique-eq mid c'.before item u' c'.was_there c.is_there id in
    let until : item.locked_until ≡ some (now + lease) =
      ap (λ (x : Item E). x.locked_until) c.returned in
    let free : is_unlocked now' item ≡ true =
      claimable-unlocked now' mid item (rw again at (c'.was_claimable)) in
    unlocked-late now' (now + lease) item until free soon
