-- ===== src/Governance/Commits/Findings.antt =====
-- The findings table under the two ways in which commits write it.
use sentinel_grc.Prelude.{
  false, String, ◌≡◌, refl, none, some, List, [], ◌∷◌, ◌++◌, arith, ◌==◌, string_eq, eq_iff, find,
  update, ◌⊎◌,
}
use sentinel_grc.Governance.Rows.{Finding}
use sentinel_grc.Governance.Mutate.{has_id}

-- A write to the row of `k` that keeps its key.
abbrev pub KeepsId : (Finding → Finding) → Type 0
KeepsId g = (f : Finding) → (g f).finding_id ≡ f.finding_id

module _ (k : String) (g : Finding → Finding) (keeps : KeepsId g) where
  pub find-update_self :
      (fs : List Finding) (f : Finding)
      → find (has_id k) fs ≡ some f
      → find (has_id k) (update (has_id k) g fs) ≡ some (g f)
  find-update_self [] f h = cc
  find-update_self (x ∷ fs) f h =
      ground
        (arith, find-update_self fs f, keeps x, eq_iff x.finding_id k, eq_iff (g x).finding_id k)

  pub find-update_other :
      (j : String) (fs : List Finding)
      → (k == j) ≡ false
      → find (has_id j) (update (has_id k) g fs) ≡ find (has_id j) fs
  find-update_other j [] h = refl
  find-update_other j (x ∷ fs) h = ground (
    arith,
    find-update_other j fs h,
    keeps x,
    eq_iff x.finding_id k,
    eq_iff x.finding_id j,
    eq_iff (g x).finding_id j,
    eq_iff k j,
  )

  pub find-update-none :
      (fs : List Finding) (f : Finding)
      → find (has_id k) fs ≡ none
      → find (has_id k) (update (has_id k) g fs) ≡ some f
      → ⊥
  find-update-none [] f h h' = cc
  find-update-none (x ∷ fs) f h h' = ground (arith, find-update-none fs f)

pub find-append_cases :
    (j : String) (fs : List Finding) (n f : Finding)
    → find (has_id j) (fs ++ n ∷ []) ≡ some f
    → (find (has_id j) fs ≡ some f) ⊎ (f ≡ n)
find-append_cases j [] n f h = ground arith
find-append_cases j (x ∷ fs) n f h = ground (arith, find-append_cases j fs n f)

pub find-append :
    (j : String) (fs gs : List Finding) (f : Finding)
    → find (has_id j) fs ≡ some f
    → find (has_id j) (fs ++ gs) ≡ some f
find-append j [] gs f h = cc
find-append j (x ∷ fs) gs f h = ground (arith, find-append j fs gs f)

pub find-id :
    (j : String) (fs : List Finding) (f : Finding) → find (has_id j) fs ≡ some f → f.finding_id ≡ j
find-id j [] f h = cc
find-id j (x ∷ fs) f h = ground (arith, find-id j fs f, eq_iff x.finding_id j)
