-- ===== src/Governance/Commits/Accountability.antt =====
-- Accountable closure: in every database that the methods lead to, each status has behind it what
-- `Backing` asks for.
use mathlib.Core.List.{append-nil}
use sentinel_grc.Prelude.{
  ℕ, true, false, String, ◌≡◌, refl, sym, ◌∙◌, ap, inl, inr, Option, none, some, List, [], ◌∷◌,
  ◌++◌, arith, ◌==◌, string_eq, eq_iff, contains, update, Bool-cases, some_inj,
}
use sentinel_grc.Governance.Types.{Status, status_eq, in_progress, verified, closed}
use sentinel_grc.Governance.Rows.{Actor, Finding, Approval, Verification, Db}
use sentinel_grc.Governance.Exec.{Library, Fresh}
use sentinel_grc.Governance.Mutate.{has_id, find_finding, Transition, set_status, no_updates}
use sentinel_grc.Governance.Lifecycle.{is_involved}
use sentinel_grc.Governance.Commits.{
  Commit, create, reassess, submit, move, Move, assess, propose, decide, begin, attest, finish,
  Reach, here, next,
}
use sentinel_grc.Governance.Commits.Backing.{
  is_granted, is_vetted, is_backed, needs_mono, any-append, any-append_last, added_approvals,
  added_verifications, run_workflow-adds,
}
use sentinel_grc.Governance.Intake.{Valid, new_row, reassess as reassessed}
use sentinel_grc.Governance.Submission.{submitted}
use sentinel_grc.Governance.Commits.Registration.{Call, run, run-Reach}
use sentinel_grc.Governance.Commits.Evolution.{set_status-KeepsId}
use sentinel_grc.Governance.Commits.Writes.{
  create_body-ok, reassess_body-ok, evidence_body-ok, mutate_body-ok,
}
use sentinel_grc.Governance.Commits.Findings.{
  find-id, find-update_self, find-update_other, find-update-none, find-append_cases,
}

module _ (db db' : Db) (f : Finding) (more : List Approval) (vs : List Verification)
    (approvals : db'.approvals ≡ db.approvals ++ more)
    (verifications : db'.verifications ≡ db.verifications ++ vs) where
  granted_mono :
      is_granted db.approvals f.finding_id ≡ true → is_granted db'.approvals f.finding_id ≡ true
  unfolding is_granted
  granted_mono h = rw approvals (any-append _ db.approvals more h)

  vetted_mono : is_vetted db.verifications f ≡ true → is_vetted db'.verifications f ≡ true
  unfolding is_vetted
  vetted_mono h = rw verifications (any-append _ db.verifications vs h)

  -- A row that the commit leaves alone stays backed.
  pub is_backed_mono : is_backed db f ≡ true → is_backed db' f ≡ true
  is_backed_mono h = needs_mono f.status _ _ _ _ _ granted_mono vetted_mono h

granted_new :
    (db db' : Db) (k : String) (r : Approval)
    → db'.approvals ≡ db.approvals ++ r ∷ []
    → r.finding_id ≡ k
    → r.is_approved ≡ true
    → is_granted db'.approvals k ≡ true
unfolding is_granted
granted_new db db' k r grown same yea =
    rw grown (any-append_last _ db.approvals r (ground (arith, eq_iff r.finding_id k)))

vetted_new :
    (db db' : Db) (f : Finding) (r : Verification)
    → db'.verifications ≡ db.verifications ++ r ∷ []
    → r.finding_id ≡ f.finding_id
    → r.is_passed ≡ true
    → is_involved r.verifier_id f ≡ false
    → is_vetted db'.verifications f ≡ true
unfolding is_vetted
vetted_new db db' f r grown same passed apart = rw grown (
    any-append_last _ db.verifications r
      (rw (passed, apart) (ground (arith, eq_iff r.finding_id f.finding_id))))

vetted-set_status :
    (rows : List Verification) (f : Finding) (s : Status) (now : ℕ)
    → is_vetted rows (set_status s now no_updates f) ≡ is_vetted rows f
unfolding is_vetted
vetted-set_status rows f s now = refl

module _ (db db' : Db) (fresh : Fresh) (k : String) (actor : Actor) (t : Transition) (f : Finding)
    (found : find_finding k db ≡ some f) (was_allowed : contains t.allowed f.status ≡ true)
    (approvals : db'.approvals ≡ db.approvals ++ added_approvals t.workflow)
    (verifications : db'.verifications ≡ db.verifications ++ added_verifications t.workflow)
    (backed : is_backed db f ≡ true) where
  -- The row that a transition writes is backed.
  Move-is_backed :
      Move db fresh k actor t → is_backed db' (set_status t.new_status fresh.now t.updates f) ≡ true
  Move-is_backed (assess l i x role e) = rw e
  Move-is_backed (propose ty why o d role e) = rw e
  Move-is_backed (decide true d r x role found' apart e) =
      let granted =
        granted_new db db' f.finding_id _ (rw e at approvals) (sym (find-id k db.findings f found))
          refl in
      rw e (ground (arith, granted, some_inj (sym found ∙ found')))
  Move-is_backed (decide false d r x role found' apart e) = rw e
  Move-is_backed (begin who x role e) =
      let granted = granted_mono db db' f _ _ approvals verifications in
      rw e (ground (arith, granted, backed, rw e at was_allowed))
  Move-is_backed (attest true n x role found' apart e) =
      let granted = granted_mono db db' f _ _ approvals verifications in
      let vetted =
        vetted_new db db' f _ (rw e at verifications) (sym (find-id k db.findings f found)) refl
          (rw (some_inj (sym found' ∙ found)) at apart) in
      rw e (
        ground (
          arith,
          granted,
          vetted,
          backed,
          rw e at was_allowed,
          vetted-set_status db'.verifications f verified fresh.now,
        ))
  Move-is_backed (attest false n x role found' apart e) =
      let granted = granted_mono db db' f _ _ approvals verifications in
      rw e (ground (arith, granted, backed, rw e at was_allowed))
  Move-is_backed (finish r role e) =
      let granted = granted_mono db db' f _ _ approvals verifications in
      let vetted = vetted_mono db db' f _ _ approvals verifications in
      rw e (
        ground (
          arith,
          granted,
          vetted,
          backed,
          rw e at was_allowed,
          vetted-set_status db'.verifications f closed fresh.now,
        ))

abbrev pub IsAccountable : Db → Type 0
IsAccountable db = (k : String) (f : Finding) → find_finding k db ≡ some f → is_backed db f ≡ true

-- A row of the table after an update of the row of `k`: it is as before, or it is the new one.
updated-is_backed :
    (db db' : Db) (k j : String) (g : Finding → Finding) (f' : Finding)
    → ((x : Finding) → (g x).finding_id ≡ x.finding_id)
    → db'.findings ≡ update (has_id k) g db.findings
    → ((x : Finding) → find_finding j db ≡ some x → is_backed db' x ≡ true)
    → ((x : Finding) → find_finding k db ≡ some x → is_backed db' (g x) ≡ true)
    → find_finding j db' ≡ some f'
    → is_backed db' f' ≡ true
updated-is_backed db db' k j g f' keeps wrote old new found = elim (Bool-cases (k == j)) [
  | inl same ↦ mine ((eq_iff k j).0 same)
  | inr other ↦ old f' (sym (find-update_other k g keeps j db.findings other) ∙ (rw wrote at found))
]
  where
    go :
        (o : Option Finding)
        → find_finding k db ≡ o
        → find_finding k db' ≡ some f'
        → is_backed db' f' ≡ true
    go none e h = absurd (find-update-none k g keeps db.findings f' e (rw wrote at h))
    go (some x) e h =
        let same : g x ≡ f' =
          some_inj (sym (find-update_self k g keeps db.findings x e) ∙ (rw wrote at h)) in
        rw (← same) (new x e)

    mine : k ≡ j → is_backed db' f' ≡ true
    mine e = go (find_finding k db) refl (rw e found)

unchanged : {A : Type 0} {xs ys : List A} → ys ≡ xs → ys ≡ xs ++ []
unchanged {A} {xs} h = h ∙ sym (append-nil xs)

reassessed-is_backed :
    (db db' : Db) (v : Valid) (now : ℕ) (x : Finding)
    → is_backed db' x ≡ true
    → is_backed db' (reassessed v now x) ≡ true
unfolding is_vetted
reassessed-is_backed db db' v now x h = h

submitted-is_backed :
    (db db' : Db) (who : String) (now : ℕ) (x : Finding)
    → x.status ≡ in_progress
    → is_backed db' x ≡ true
    → is_backed db' (submitted who now x) ≡ true
submitted-is_backed db db' who now x going h = ground (arith, going)

pub Commit-IsAccountable :
    {lib : Library} {db db' : Db} → Commit lib db db' → IsAccountable db → IsAccountable db'
Commit-IsAccountable {lib} {db} {db'} (create fresh v actor role h) ih k f found =
    let w = create_body-ok lib fresh v actor db db' h in
    elim (find-append_cases k db.findings (new_row v fresh) f (rw w.findings at found)) [
      | inl old ↦
          is_backed_mono db db' f [] [] (unchanged w.others.2) (unchanged w.others.1) (ih k f old)
      | inr new ↦ rw new
    ]
Commit-IsAccountable {lib} {db} {db'} (reassess fresh v actor role h) ih k f found =
    let w = reassess_body-ok lib fresh v actor db db' h in
    let old : (j : String) (x : Finding) → find_finding j db ≡ some x → is_backed db' x ≡ true =
      λ j x e.
        is_backed_mono db db' x [] [] (unchanged w.others.2) (unchanged w.others.1) (ih j x e) in
    updated-is_backed db db' v.finding_id k _ f (λ x. refl) w.findings (old k)
      (λ x e. reassessed-is_backed db db' v fresh.now x (old v.finding_id x e)) found
Commit-IsAccountable {lib} {db} {db'} (submit fresh s actor p stored role same h) ih k f found =
    let w = evidence_body-ok lib fresh s actor p stored db db' h in
    let old : (j : String) (x : Finding) → find_finding j db ≡ some x → is_backed db' x ≡ true =
      λ j x e.
        is_backed_mono db db' x [] [] (unchanged w.others.1) (unchanged w.others.0) (ih j x e) in
    updated-is_backed db db' s k _ f (λ x. refl) w.findings (old k)
      (λ x e.
        submitted-is_backed db db' actor.actor_id fresh.now x
          (ap (λ (y : Finding). y.status) (some_inj (sym e ∙ w.found)) ∙ w.was_in_progress)
          (old s x e))
      found
Commit-IsAccountable {lib} {db} {db'} (move fresh s actor t m h) ih k f found =
    let w = mutate_body-ok lib fresh s actor t db db' h in
    let grown = run_workflow-adds t.workflow w.recorded db' w.ran in
    let as_ = rw w.recorded_approvals at (grown.0) in
    let vs_ = rw w.recorded_verifications at (grown.1) in
    updated-is_backed db db' s k _ f (set_status-KeepsId t.new_status fresh.now t.updates)
      w.findings (λ x e. is_backed_mono db db' x _ _ as_ vs_ (ih k x e))
      (λ x e.
        Move-is_backed db db' fresh s actor t x e (rw (some_inj (sym e ∙ w.found)) w.was_allowed)
          as_ vs_ (ih s x e) m)
      found

Reach-IsAccountable :
    {lib : Library} {db db' : Db} → Reach lib db db' → IsAccountable db → IsAccountable db'
Reach-IsAccountable here h = h
Reach-IsAccountable (next r c) h = Commit-IsAccountable c (Reach-IsAccountable r h)

-- From an accountable database, whatever the calls of the nine methods and their outcome, every finding
-- is backed: one that is approved, in progress or pending verification has an approval; one that is
-- verified has an approval, and a passed verification by someone who neither implemented the
-- treatment nor submitted the evidence; one that is accepted has an approval and the treatment
-- "accept"; one that is closed has an approval, and such a verification or the treatment "accept".
pub run-is_backed :
    (lib : Library) (calls : List Call) (db : Db) (k : String) (f : Finding)
    → IsAccountable db
    → find_finding k (run lib calls db) ≡ some f
    → is_backed (run lib calls db) f ≡ true
run-is_backed lib calls db k f h = Reach-IsAccountable (run-Reach lib calls db) h k f
