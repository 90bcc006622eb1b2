-- ===== src/Delivery/Lease/Claims.antt =====
-- What `claim` returns, and that a lease excludes a second one.
use mathlib.Core.Bool.{false≢true}
use sentinel_grc.Prelude.{
  ℕ, Bool, true, false, String, ◌≡◌, refl, sym, ◌∙◌, ap, ◌⊎◌, inl, inr, Option, none, some, List,
  [], ◌∷◌, arith, string_eq, eq_iff, any, select, Bool-cases, some_inj,
}
use sentinel_grc.Delivery.Lease.{Item, is_claimable, earlier_of, first_by_age, candidate, has_id}

module _ {A : Type 0} where
  abbrev pub In : A → List A → Type 0
  In x [] = ⊥
  In x (y ∷ ys) = (x ≡ y) ⊎ In x ys

  select-In_kept :
      (p : A → Bool) (y : A) (ys : List A) (x : A)
      → (In x (select p ys) → In x ys × (p x ≡ true))
      → p y ≡ true
      → In x (y ∷ select p ys)
      → In x (y ∷ ys) × (p x ≡ true)
  select-In_kept p y ys x rec yea (inl e) = (inl e, rw e yea)
  select-In_kept p y ys x rec yea (inr i) = let r = rec i in (inr r.0, r.1)

  pub select-In : (p : A → Bool) (xs : List A) (x : A) → In x (select p xs) → In x xs × (p x ≡ true)
  select-In p [] x h = elim h [ ]
  select-In p (y ∷ ys) x h = elim (Bool-cases (p y)) [
    | inl yea ↦ select-In_kept p y ys x (select-In p ys x) yea (rw yea at h)
    | inr nay ↦ let r = select-In p ys x (rw nay at h) in (inr r.0, r.1)
  ]

module _ {E : Type 0} where
  -- No identifier stands twice: the primary key.
  abbrev pub Unique : List (Item E) → Type 0
  Unique [] = Unit
  Unique (x ∷ xs) = (any (has_id x.item_id) xs ≡ false) × Unique xs

  pub any-In :
      (k : String) (xs : List (Item E)) (x : Item E)
      → In x xs
      → x.item_id ≡ k
      → any (has_id k) xs ≡ true
  any-In k [] x i e = elim i [ ]
  any-In k (y ∷ ys) x (inl same) e =
      ground (arith, eq_iff y.item_id k, ap (λ (z : Item E). z.item_id) same)
  any-In k (y ∷ ys) x (inr i) e = ground (arith, any-In k ys x i e)

  pub Unique-eq :
      (xs : List (Item E)) (x y : Item E)
      → Unique xs
      → In x xs
      → In y xs
      → x.item_id ≡ y.item_id
      → x ≡ y
  Unique-eq [] x y u i j e = elim i [ ]
  Unique-eq (z ∷ zs) x y u (inl i) (inl j) e = i ∙ sym j
  Unique-eq (z ∷ zs) x y u (inl i) (inr j) e =
      absurd
        (false≢true (sym u.0 ∙ any-In z.item_id zs y j (sym e ∙ ap (λ (w : Item E). w.item_id) i)))
  Unique-eq (z ∷ zs) x y u (inr i) (inl j) e =
      absurd (false≢true (sym u.0 ∙ any-In z.item_id zs x i (e ∙ ap (λ (w : Item E). w.item_id) j)))
  Unique-eq (z ∷ zs) x y u (inr i) (inr j) e = Unique-eq zs x y u.1 i j e

  earlier_of-cases :
      (x : Item E) (o : Option (Item E)) → (earlier_of x o ≡ x) ⊎ (o ≡ some (earlier_of x o))
  earlier_of-cases x none = inl refl
  earlier_of-cases x (some y) = ground arith

  first_by_age-In : (xs : List (Item E)) (c : Item E) → first_by_age xs ≡ some c → In c xs
  unfolding first_by_age
  first_by_age-In [] c h = absurd (cc)
  first_by_age-In (x ∷ xs) c h = elim (earlier_of-cases x (first_by_age xs)) [
    | inl e ↦ inl (sym (some_inj h) ∙ e)
    | inr e ↦ inr (first_by_age-In xs c (e ∙ h))
  ]

  -- The row that `claim` picks is in the table, and fulfils the WHERE clause.
  pub candidate-In :
      (now : ℕ) (rows : List (Item E)) (c : Item E)
      → candidate now rows ≡ some c
      → In c rows × (is_claimable now rows c ≡ true)
  candidate-In now rows c h =
      select-In (is_claimable now rows) rows c
        (first_by_age-In (select (is_claimable now rows) rows) c h)
