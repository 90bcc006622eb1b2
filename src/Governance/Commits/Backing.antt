-- ===== src/Governance/Commits/Backing.antt =====
-- What stands behind a status: an approval behind every treatment that is carried out, and an
-- independent verification, or a risk acceptance, behind a closure.
use mathlib.Core.List.{append-nil}
use sentinel_grc.Prelude.{
  Bool, true, false, ◌&&◌, ◌||◌, not, String, ◌≡◌, Option, some, List, [], ◌∷◌, ◌++◌, arith, ◌==◌,
  string_eq, any,
}
use sentinel_grc.Governance.Types.{
  Status, status_eq, Treatment, approved, in_progress, pending_verification, verified, accepted,
  closed, accept,
}
use sentinel_grc.Governance.Rows.{Finding, Approval, Verification, Db}
use sentinel_grc.Governance.Exec.{ok}
use sentinel_grc.Governance.Mutate.{
  Workflow, risk_record, approval_record, verification_record, run_workflow,
}
use sentinel_grc.Governance.Lifecycle.{is_involved}

-- Some approver approved the treatment of the finding.
unfoldable pub is_granted : List Approval → String → Bool
is_granted rows k = any (λ a. a.finding_id == k && a.is_approved) rows

-- Someone who neither implemented the treatment nor submitted its evidence passed the finding.
unfoldable pub is_vetted : List Verification → Finding → Bool
is_vetted rows f =
    any (λ v. v.finding_id == f.finding_id && v.is_passed && not (is_involved v.verifier_id f)) rows

abbrev pub is_acceptance : Option Treatment → Bool
is_acceptance (some accept) = true
is_acceptance _ = false

abbrev pub needs : Status → Bool → Bool → Bool → Bool
needs approved granted vetted acceptance = granted
needs in_progress granted vetted acceptance = granted
needs pending_verification granted vetted acceptance = granted
needs verified granted vetted acceptance = granted && vetted
needs accepted granted vetted acceptance = granted && acceptance
needs closed granted vetted acceptance = granted && (vetted || acceptance)
needs _ granted vetted acceptance = true

abbrev pub is_backed : Db → Finding → Bool
is_backed db f =
    needs f.status (is_granted db.approvals f.finding_id) (is_vetted db.verifications f)
      (is_acceptance f.treatment_type)

pub any-append :
    {A : Type 0} (p : A → Bool) (xs ys : List A) → any p xs ≡ true → any p (xs ++ ys) ≡ true
any-append p [] ys h = cc
any-append p (x ∷ xs) ys h = ground (arith, any-append p xs ys)

pub any-append_last :
    {A : Type 0} (p : A → Bool) (xs : List A) (y : A) → p y ≡ true → any p (xs ++ y ∷ []) ≡ true
any-append_last p [] y h = ground arith
any-append_last p (x ∷ xs) y h = ground (arith, any-append_last p xs y h)

pub needs_mono :
    (s : Status) (g v a g' v' : Bool)
    → (g ≡ true → g' ≡ true)
    → (v ≡ true → v' ≡ true)
    → needs s g v a ≡ true
    → needs s g' v' a ≡ true
needs_mono s g v a g' v' hg hv h = ground (arith, hg, hv)

abbrev pub added_approvals : Workflow → List Approval
added_approvals (approval_record r) = r ∷ []
added_approvals _ = []

abbrev pub added_verifications : Workflow → List Verification
added_verifications (verification_record r) = r ∷ []
added_verifications _ = []

pub run_workflow-adds :
    (w : Workflow) (db db' : Db)
    → run_workflow w db ≡ ok db'
    → (db'.approvals ≡ db.approvals ++ added_approvals w)
      × (db'.verifications ≡ db.verifications ++ added_verifications w)
unfolding run_workflow
run_workflow-adds (risk_record r) db db' h =
    ground (arith, append-nil db.approvals, append-nil db.verifications)
run_workflow-adds (approval_record r) db db' h = ground (arith, append-nil db.verifications)
run_workflow-adds (verification_record r) db db' h = ground (arith, append-nil db.approvals)
run_workflow-adds _ db db' h = ground (arith, append-nil db.approvals, append-nil db.verifications)
