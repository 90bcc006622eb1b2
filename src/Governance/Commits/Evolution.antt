-- ===== src/Governance/Commits/Evolution.antt =====
-- The lifecycle of a finding as a table, and that every commit moves every finding along it.
use sentinel_grc.Prelude.{
  ℕ, Bool, true, false, String, ◌≡◌, refl, sym, ◌∙◌, ap, ◌⊎◌, inl, inr, some, List, arith, ◌==◌,
  string_eq, eq_iff, Bool-cases, contains, update, some_inj,
}
use sentinel_grc.Governance.Types
use sentinel_grc.Governance.Types.{
  Status, status_eq, opened, pending_approval, approved, in_progress, pending_verification,
  rejected, verified, accepted, closed, accept,
}
use sentinel_grc.Governance.Rows.{Actor, Finding, Db}
use sentinel_grc.Governance.Exec.{Library, Fresh}
use sentinel_grc.Governance.Mutate.{
  has_id, find_finding, Transition, set_status, no_updates, treatment_updates, implementer_update,
  Updates,
}
use sentinel_grc.Governance.Commits.{
  Commit, create, reassess, submit, move, Move, assess, propose, decide, begin, attest, finish,
  Reach, here, next,
}
use sentinel_grc.Governance.Commits.Findings.{find-update_self, find-update_other, find-append}
use sentinel_grc.Governance.Commits.Registration.{Call, run, run-Reach}
use sentinel_grc.Governance.Commits.Writes.{
  create_body-ok, reassess_body-ok, evidence_body-ok, mutate_body-ok,
}

-- The status that may follow a status.
pub flows : Status → Status → Bool
flows opened Types.risk_assessed = true
flows rejected Types.risk_assessed = true
flows Types.risk_assessed pending_approval = true
flows pending_approval Types.risk_assessed = true
flows pending_approval approved = true
flows pending_approval accepted = true
flows approved in_progress = true
flows in_progress pending_verification = true
flows pending_verification in_progress = true
flows pending_verification verified = true
flows verified closed = true
flows accepted closed = true
flows _ _ = false

-- What a commit may do to a finding.
pub record Evolves (f f' : Finding) : Type 0 where
  pub same_id : f'.finding_id ≡ f.finding_id
  pub same_control : f'.control_id ≡ f.control_id
  pub same_asset : f'.asset_id ≡ f.asset_id
  pub same_creation : f'.created_at ≡ f.created_at
  pub moved : (f'.status ≡ f.status) ⊎ (flows f.status f'.status ≡ true)

Move-flows :
    (db : Db) (fresh : Fresh) (k : String) (actor : Actor) (t : Transition) (s : Status)
    → Move db fresh k actor t
    → contains t.allowed s ≡ true
    → flows s t.new_status ≡ true
unfolding flows
Move-flows db fresh k actor t s (assess l i f role e) h = ground (arith, e)
Move-flows db fresh k actor t s (propose ty why o d role e) h = ground (arith, e)
Move-flows db fresh k actor t s (decide yea d r f role found apart e) h = ground (arith, e)
Move-flows db fresh k actor t s (begin who f role e) h = ground (arith, e)
Move-flows db fresh k actor t s (attest p n f role found apart e) h = ground (arith, e)
Move-flows db fresh k actor t s (finish r role e) h = ground (arith, e)

-- The state of `j` after the commit, with what has become of it.
abbrev pub Kept : Db → String → Finding → Type 0
Kept db' j f = (f' : Finding) × (find_finding j db' ≡ some f') × Evolves f f'

stays : (f : Finding) → Evolves f f
stays f = record {
  same_id = refl;
  same_control = refl;
  same_asset = refl;
  same_creation = refl;
  moved = inl refl;
}

-- An update of the row of `k` touches only `k`.
updated-Kept :
    (db db' : Db) (k j : String) (g : Finding → Finding) (f : Finding)
    → ((x : Finding) → (g x).finding_id ≡ x.finding_id)
    → db'.findings ≡ update (has_id k) g db.findings
    → (find_finding k db ≡ some f → Evolves f (g f))
    → find_finding j db ≡ some f
    → Kept db' j f
updated-Kept db db' k j g f keeps wrote step found = elim (Bool-cases (k == j)) [
  | inl same ↦
      let e = (eq_iff k j).0 same in
      let found_k : find_finding k db ≡ some f = rw e found in
      (g f, rw (wrote, ← e) (find-update_self k g keeps db.findings f found_k), step found_k)
  | inr other ↦ (f, rw wrote (find-update_other k g keeps j db.findings other ∙ found), stays f)
]

set_status-Evolves :
    (f : Finding) (s : Status) (now : ℕ) (u : Updates)
    → flows f.status s ≡ true
    → Evolves f (set_status s now u f)
set_status-Evolves f s now no_updates h = record {
  same_id = refl;
  same_control = refl;
  same_asset = refl;
  same_creation = refl;
  moved = inr h;
}
set_status-Evolves f s now (treatment_updates type why owner day) h = record {
  same_id = refl;
  same_control = refl;
  same_asset = refl;
  same_creation = refl;
  moved = inr h;
}
set_status-Evolves f s now (implementer_update who) h = record {
  same_id = refl;
  same_control = refl;
  same_asset = refl;
  same_creation = refl;
  moved = inr h;
}

pub set_status-KeepsId :
    (s : Status) (now : ℕ) (u : Updates) (x : Finding)
    → (set_status s now u x).finding_id ≡ x.finding_id
set_status-KeepsId s now no_updates x = refl
set_status-KeepsId s now (treatment_updates type why owner day) x = refl
set_status-KeepsId s now (implementer_update who) x = refl

in_progress-flows : (s : Status) → s ≡ in_progress → flows s pending_verification ≡ true
unfolding flows
in_progress-flows s h = ground (arith, h)

-- Every commit keeps every finding, its identity and its creation time, and leaves its status or
-- moves it along the table.
pub Commit-Kept :
    {lib : Library} {db db' : Db} (j : String) (f : Finding)
    → Commit lib db db'
    → find_finding j db ≡ some f
    → Kept db' j f
Commit-Kept {lib} {db} {db'} j f (create fresh v actor role h) found =
    let w = create_body-ok lib fresh v actor db db' h in
    (f, rw w.findings (find-append j db.findings _ f found), stays f)
Commit-Kept {lib} {db} {db'} j f (reassess fresh v actor role h) found =
    let w = reassess_body-ok lib fresh v actor db db' h in
    updated-Kept db db' v.finding_id j _ f (λ x. refl) w.findings
      (λ _. record {
        same_id = refl;
        same_control = refl;
        same_asset = refl;
        same_creation = refl;
        moved = inl refl;
      })
      found
Commit-Kept {lib} {db} {db'} j f (submit fresh k actor p stored role same h) found =
    let w = evidence_body-ok lib fresh k actor p stored db db' h in
    updated-Kept db db' k j _ f (λ x. refl) w.findings
      (λ here_k. record {
        same_id = refl;
        same_control = refl;
        same_asset = refl;
        same_creation = refl;
        moved = inr (
            in_progress-flows f.status (
              ap (λ (x : Finding). x.status) (some_inj (sym here_k ∙ w.found))
              ∙ w.was_in_progress));
      })
      found
Commit-Kept {lib} {db} {db'} j f (move fresh k actor t m h) found =
    let w = mutate_body-ok lib fresh k actor t db db' h in
    updated-Kept db db' k j _ f (set_status-KeepsId t.new_status fresh.now t.updates) w.findings
      (λ here_k. set_status-Evolves f t.new_status fresh.now t.updates (
        Move-flows db fresh k actor t f.status m
          (rw (some_inj (sym here_k ∙ w.found)) w.was_allowed)))
      found

-- A path along the table.
pub data Passage (s : Status) : Status → Type 0 where
  at_rest : Passage s s
  onward : {t u : Status} → Passage s t → flows t u ≡ true → Passage s u

-- What a history may do to a finding.
pub record Continues (f f' : Finding) : Type 0 where
  pub same_id : f'.finding_id ≡ f.finding_id
  pub same_control : f'.control_id ≡ f.control_id
  pub same_asset : f'.asset_id ≡ f.asset_id
  pub same_creation : f'.created_at ≡ f.created_at
  pub path : Passage f.status f'.status

extended : (s t u : Status) → Passage s t → (u ≡ t) ⊎ (flows t u ≡ true) → Passage s u
extended s t u p (inl same) = rw same p
extended s t u p (inr moves) = onward p moves

Reach-Continues :
    {lib : Library} {db db' : Db} (j : String) (f : Finding)
    → Reach lib db db'
    → find_finding j db ≡ some f
    → (f' : Finding) × (find_finding j db' ≡ some f') × Continues f f'
Reach-Continues j f here found = (
  f,
  found,
  record {
    same_id = refl;
    same_control = refl;
    same_asset = refl;
    same_creation = refl;
    path = at_rest;
  },
)
Reach-Continues j f (next r c) found =
    let (m, found_m, before) = Reach-Continues j f r found in
    let (f', found', e) = Commit-Kept j m c found_m in
    (
      f',
      found',
      record {
        same_id = e.same_id ∙ before.same_id;
        same_control = e.same_control ∙ before.same_control;
        same_asset = e.same_asset ∙ before.same_asset;
        same_creation = e.same_creation ∙ before.same_creation;
        path = extended f.status m.status f'.status before.path e.moved;
      },
    )

-- After any calls of the nine methods, raising or not, a finding that was there is still there, with
-- the same identifier, control, asset and creation time, and its status is reached from the
-- earlier one by steps of the lifecycle table.
pub run-Continues :
    (lib : Library) (calls : List Call) (db : Db) (k : String) (f : Finding)
    → find_finding k db ≡ some f
    → (f' : Finding) × (find_finding k (run lib calls db) ≡ some f') × Continues f f'
run-Continues lib calls db k f found = Reach-Continues k f (run-Reach lib calls db) found
