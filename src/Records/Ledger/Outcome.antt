-- ===== src/Records/Ledger/Outcome.antt =====
-- The summary of an evaluation, and what a failed one leaves behind.
use sentinel_grc.Prelude.{
  ℕ, suc, ◌*◌, ◌≤◌, true, String, ◌≡◌, refl, sym, ◌∙◌, ap, inl, inr, none, List, [], ◌∷◌, arith,
  nat_beq, length, Option-cases,
}
use sentinel_grc.Prelude.Attempt.{Attempt, done, done_inj, >>=-eq-done, attempt_cases}
use sentinel_grc.Records.ChainFile.{File, is_valid, intact}
use sentinel_grc.Records.Control.{Control, Posture, Result, get, evaluate_control, evaluate_all}
use sentinel_grc.Records.Control.Risk.{evaluate_control_bounds}
use sentinel_grc.Records.Ledger.{
  Value, Dict, Error, Summary, total_risk, failures, summary_of, exit_code, report, evaluate,
  verify_ledger,
}
use sentinel_grc.Records.Ledger.Laws.{append_evidence_atomic-verifies}

-- Every result has no score exactly when it is passed, and 40 at most.
abbrev pub Scored : List Result → Type 0
Scored [] = Unit
Scored (r ∷ rs) = (r.risk_score ≤ 40) × (nat_beq r.risk_score 0 ≡ r.passed) × Scored rs

pub evaluate_all-Scored :
    (cs : List Control) (posture : Posture) (rs : List Result)
    → evaluate_all cs posture ≡ done rs
    → Scored rs
unfolding evaluate_all
evaluate_all-Scored [] posture rs h = rw (← done_inj h) tt
evaluate_all-Scored (c ∷ cs) posture rs h =
    let (r, one, h1) = >>=-eq-done (evaluate_control c posture) _ h in
    let (rest, more, h2) = >>=-eq-done (evaluate_all cs posture) _ h1 in
    let bound = evaluate_control_bounds c posture r one in
    rw (← done_inj h2) (bound.0, bound.1, evaluate_all-Scored cs posture rest more)

evaluate_all-length :
    (cs : List Control) (posture : Posture) (rs : List Result)
    → evaluate_all cs posture ≡ done rs
    → length rs ≡ length cs
unfolding evaluate_all
evaluate_all-length [] posture rs h = rw (← done_inj h) refl
evaluate_all-length (c ∷ cs) posture rs h =
    let (r, one, h1) = >>=-eq-done (evaluate_control c posture) _ h in
    let (rest, more, h2) = >>=-eq-done (evaluate_all cs posture) _ h1 in
    rw (← done_inj h2) (ap suc (evaluate_all-length cs posture rest more))

pub failed_risk : (rs : List Result) → Scored rs → total_risk (failures rs) ≡ total_risk rs
failed_risk [] s = refl
failed_risk (r ∷ rs) (bound, exact, s) = ground (arith, failed_risk rs s)

exit_code-failures :
    (rs : List Result) → Scored rs → nat_beq (exit_code (failures rs)) 0 ≡ nat_beq (total_risk rs) 0
exit_code-failures [] s = refl
exit_code-failures (r ∷ rs) (bound, exact, s) = ground (arith, exit_code-failures rs s)

failures_risk :
    (rs : List Result) → Scored rs → total_risk (failures rs) ≤ 40 * length (failures rs)
failures_risk [] s = omega arith
failures_risk (r ∷ rs) (bound, exact, s) = ground (arith, failures_risk rs s)

exit_code-length : (rs : List Result) → nat_beq (exit_code rs) 0 ≡ nat_beq (length rs) 0
exit_code-length [] = refl
exit_code-length (r ∷ rs) = ground arith

no_extra : (key : String) → get {A = Value} key [] ≡ none
unfolding get
no_extra key = refl

report_facts :
    (digest : Dict → String) (posture : Posture) (rs : List Result) (d : Dict) (s : Summary)
    (code : ℕ)
    → Scored rs
    → report digest posture rs d ≡ done (s, code)
    → (s.controls_evaluated ≡ length rs)
      × (s.risk_score ≤ 40 * s.controls_failed)
      × (nat_beq code 0 ≡ nat_beq s.controls_failed 0)
      × (nat_beq code 0 ≡ nat_beq s.risk_score 0)
report_facts digest posture rs d s code scored h = elim (Option-cases (get "hostname" posture)) [
  | inl missing ↦ let bad = rw (missing, report) at h in absurd (cc)
  | inr (host, known) ↦
      let pair = done_inj (rw (known, report) at h) in
      let s_is : summary_of host rs (digest d) ≡ s = ap (λ (p : Summary × ℕ). p.0) pair in
      let code_is : exit_code (failures rs) ≡ code = ap (λ (p : Summary × ℕ). p.1) pair in
      rw (← s_is, ← code_is)
        (
          refl,
          failures_risk rs scored,
          exit_code-length (failures rs),
          exit_code-failures rs scored ∙ ap (λ n. nat_beq n 0) (sym (failed_risk rs scored)),
        )
]

-- When `evaluate` reports on a ledger that verifies, every control of the catalogue is counted, the risk is
-- 40 at most for each failed control, the exit code is 0 exactly when no control failed and exactly when
-- the risk is 0, and the ledger behind it verifies.
pub evaluate-summary :
    (digest : Dict → String) (stamp : String) (controls : List Control) (posture : Posture)
    (file longer : File Dict) (s : Summary) (code : ℕ)
    → is_valid (verify_ledger digest file) ≡ true
    → evaluate digest stamp controls posture file ≡ (done (s, code), longer)
    → (s.controls_evaluated ≡ length controls)
      × (s.risk_score ≤ 40 * s.controls_failed)
      × (nat_beq code 0 ≡ nat_beq s.controls_failed 0)
      × (nat_beq code 0 ≡ nat_beq s.risk_score 0)
      × (verify_ledger digest longer ≡ intact)
unfolding evaluate
evaluate-summary digest stamp controls posture file longer s code v h =
    elim (attempt_cases (evaluate_all controls posture)) [
      | inl (x, bad) ↦
          let wrong = ap (λ (p : Attempt Error (Summary × ℕ) × File Dict). p.0) (rw bad at h) in
          absurd (cc)
      | inr (rs, ran) ↦
          let (d, appended, whole, last) =
            append_evidence_atomic-verifies digest stamp posture rs [] file v
              (no_extra "previous_hash") (no_extra "record_hash") in
          let both = rw (ran, appended) at h in
          let (n, bound, by_count, by_risk) =
            report_facts digest posture rs d s code (evaluate_all-Scored controls posture rs ran)
              (ap (λ (p : Attempt Error (Summary × ℕ) × File Dict). p.0) both) in
          let longer_is = ap (λ (p : Attempt Error (Summary × ℕ) × File Dict). p.1) both in
          (
            n ∙ evaluate_all-length controls posture rs ran,
            bound,
            by_count,
            by_risk,
            rw (← longer_is) whole,
          )
    ]
