-- ===== src/Remediation/Failures.antt =====
-- The queue holds the controls that the asset fails.
use sentinel_grc.Prelude.{
  ◌+◌, ◌≡◌, refl, sym, ◌∙◌, ap, inl, inr, some, List, [], ◌∷◌, map, Bool-cases,
}
use sentinel_grc.Prelude.Attempt.{Attempt, failed, done, given, given-done, done_inj, >>=-eq-done}
use sentinel_grc.Records.Control.{
  Json, Posture, Control, Result, get, or_null, expectation, meets, severity_weight,
  criticality_multiplier, score, evaluate_control, evaluate_all,
}
use sentinel_grc.Records.Control
use sentinel_grc.Records.Ledger
use sentinel_grc.Records.Ledger.{failures}
use sentinel_grc.Records.Ledger.Outcome.{evaluate_all-Scored, failed_risk}
use sentinel_grc.Remediation.{
  Asset, Finding, Queue, not_registered, asset_for, with_criticality, of_evaluation, findings_of,
  total_risk, build_remediation_queue,
}

pub of_evaluation-done :
    (r : Attempt Control.Error Result) (a : Result) → of_evaluation r ≡ done a → r ≡ done a
of_evaluation-done (failed x) a h = absurd (cc)
of_evaluation-done (done b) a h = cc

-- The controls of the findings, and the results that are not passed.
findings_of-failures :
    (a : Asset) (posture : Posture) (cs : List Control) (fs : List Finding)
    → findings_of a posture cs ≡ done fs
    → (rs : List Result) × (evaluate_all cs (with_criticality a.criticality posture) ≡ done rs)
      × (map (λ (f : Finding). f.control) fs ≡ failures rs)
      × (total_risk fs ≡ Ledger.total_risk (failures rs))
unfolding findings_of evaluate_all
findings_of-failures a posture [] fs h = ([], refl, rw (← done_inj h) refl, rw (← done_inj h) refl)
findings_of-failures a posture (c ∷ cs) fs h =
    let (r, one, h1) =
      >>=-eq-done (of_evaluation (evaluate_control c (with_criticality a.criticality posture))) _
        h in
    let (more, others, h2) = >>=-eq-done (findings_of a posture cs) _ h1 in
    let (rs, all, same, sum) = findings_of-failures a posture cs more others in
    let first = of_evaluation-done _ r one in
    let fs_are = done_inj h2 in
    (
      r ∷ rs,
      rw (first, all) refl,
      elim (Bool-cases r.passed) [
        | inl good ↦ rw (← fs_are, good) same
        | inr bad ↦ rw (← fs_are, bad) (ap (λ xs. r ∷ xs) same)
      ],
      elim (Bool-cases r.passed) [
        | inl good ↦ rw (← fs_are, good) sum
        | inr bad ↦ rw (← fs_are, bad) (ap (λ n. r.risk_score + n) sum)
      ],
    )

-- When `build_remediation_queue` returns, the asset of the posture is registered, and the controls of the
-- findings are those that `evaluate_control` finds failed for the posture with the criticality of the
-- asset, in order. The risk of the queue is the risk of all results.
pub remediation_queue-failures :
    (controls : List Control) (posture : Posture) (assets : List Asset) (q : Queue)
    → build_remediation_queue controls posture assets ≡ done q
    → (a : Asset) × (rs : List Result) × (asset_for (or_null (get "asset_id" posture)) assets
        ≡ some a)
      × (q.asset_id ≡ a.asset_id)
      × (evaluate_all controls (with_criticality a.criticality posture) ≡ done rs)
      × (map (λ (f : Finding). f.control) q.findings ≡ failures rs)
      × (q.risk_score ≡ Ledger.total_risk rs)
unfolding build_remediation_queue
remediation_queue-failures controls posture assets q h =
    let (a, known, h1) =
      >>=-eq-done (given (asset_for (or_null (get "asset_id" posture)) assets) not_registered) _
        h in
    let (fs, listed, h2) = >>=-eq-done (findings_of a posture controls) _ h1 in
    let (rs, all, same, sum) = findings_of-failures a posture controls fs listed in
    let q_is = sym (done_inj h2) in
    (
      a,
      rs,
      given-done _ _ a known,
      ap (λ (r : Queue). r.asset_id) q_is,
      all,
      ap (λ (r : Queue). map (λ (f : Finding). f.control) r.findings) q_is ∙ same,
      ap (λ (r : Queue). r.risk_score) q_is
          ∙ sum
          ∙ failed_risk rs
              (evaluate_all-Scored controls (with_criticality a.criticality posture) rs all),
    )
