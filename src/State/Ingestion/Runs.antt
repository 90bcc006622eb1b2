-- ===== src/State/Ingestion/Runs.antt =====
-- One worker at a time runs the pipeline on an input.
use mathlib.Core.Bool.{false≢true}
use sentinel_grc.Prelude.{
  ℕ, ◌+◌, ◌<◌, Bool, true, false, ◌&&◌, not, String, ◌≡◌, refl, sym, ap, inl, inr, Option, none,
  some, List, [], ◌∷◌, ◌++◌, arith, ◌==◌, string_eq, eq_iff, beq_refl, leb, find, update,
  Bool-cases, Option-cases,
}
use sentinel_grc.State.Ingestion.{
  PipelineRun, running, completed, failed, is_run, is_free, new_run, rerun, claimed,
  claim_pipeline_run,
}

-- A claim of another worker: the input, the time and the lease.
abbrev pub Request : Type 0
Request = String × ℕ × ℕ

abbrev pub claim_all : List Request → List PipelineRun → List PipelineRun
claim_all [] rows = rows
claim_all ((h, now, lease) ∷ rs) rows = claim_all rs (claim_pipeline_run h now lease rows).1

abbrev pub all_before : ℕ → List Request → Bool
all_before t [] = true
all_before t ((h, now, lease) ∷ rs) = not (leb t now) && all_before t rs

abbrev is_busy : ℕ → PipelineRun → Bool
is_busy t row = elim row.status [
  | running ↦ leb t row.run_lease_until
  | completed ↦ false
  | failed ↦ false
]

abbrev busy_row : ℕ → Option PipelineRun → Bool
busy_row t none = false
busy_row t (some row) = is_busy t row

abbrev busy : String → ℕ → List PipelineRun → Bool
busy h t rows = busy_row t (find (is_run h) rows)

busy-append :
    (h : String) (t : ℕ) (rows : List PipelineRun) (x : PipelineRun)
    → busy h t rows ≡ true
    → busy h t (rows ++ x ∷ []) ≡ true
busy-append h t [] x b = absurd (false≢true b)
busy-append h t (y ∷ ys) x b = ground (arith, busy-append h t ys x)

busy-update :
    (h m : String) (t until now : ℕ) (rows : List PipelineRun)
    → (m == h) ≡ false
    → busy h t rows ≡ true
    → busy h t (update (is_run m) (rerun until now) rows) ≡ true
busy-update h m t until now [] apart b = b
busy-update h m t until now (y ∷ ys) apart b = ground (
  arith,
  busy-update h m t until now ys,
  eq_iff y.input_hash m,
  eq_iff y.input_hash h,
  eq_iff m h,
)

busy-not_free :
    (t now : ℕ) (row : PipelineRun) → is_busy t row ≡ true → now < t → is_free now row ≡ false
busy-not_free t now row b soon = ground arith

busy-refused :
    (h : String) (t now lease : ℕ) (rows : List PipelineRun)
    → busy h t rows ≡ true
    → now < t
    → claim_pipeline_run h now lease rows ≡ (false, rows)
unfolding claim_pipeline_run
busy-refused h t now lease rows b soon = elim (Option-cases (find (is_run h) rows)) [
  | inl none_ ↦ absurd (false≢true (rw none_ at b))
  | inr (row, found) ↦ rw (found, busy-not_free t now row (rw found at b) soon) refl
]

claimed-keeps :
    (h m : String) (t until now : ℕ) (o : Option PipelineRun) (rows : List PipelineRun)
    → (m == h) ≡ false
    → busy h t rows ≡ true
    → busy h t (claimed m until now o rows).1 ≡ true
claimed-keeps h m t until now none rows apart b = busy-append h t rows (new_run m until now) b
claimed-keeps h m t until now (some row) rows apart b = elim (Bool-cases (is_free now row)) [
  | inl free ↦ rw free (busy-update h m t until now rows apart b)
  | inr held ↦ rw held b
]

claim-keeps :
    (h m : String) (t now lease : ℕ) (rows : List PipelineRun)
    → now < t
    → busy h t rows ≡ true
    → busy h t (claim_pipeline_run m now lease rows).1 ≡ true
unfolding claim_pipeline_run
claim-keeps h m t now lease rows soon b = elim (Bool-cases (m == h)) [
  | inl same ↦ let e = (eq_iff m h).0 same in rw e (rw (busy-refused h t now lease rows b soon) b)
  | inr apart ↦ other apart
]
  where
    other : (m == h) ≡ false → busy h t (claim_pipeline_run m now lease rows).1 ≡ true
    other apart = claimed-keeps h m t (now + lease) now (find (is_run m) rows) rows apart b

claim_all-keeps :
    (h : String) (t : ℕ) (rs : List Request) (rows : List PipelineRun)
    → all_before t rs ≡ true
    → busy h t rows ≡ true
    → busy h t (claim_all rs rows) ≡ true
claim_all-keeps h t [] rows before b = b
claim_all-keeps h t ((m, now, lease) ∷ rs) rows before b =
    claim_all-keeps h t rs _ (ground arith) (claim-keeps h m t now lease rows (ground arith) b)

busy-new :
    (h : String) (t now : ℕ) (rows : List PipelineRun)
    → find (is_run h) rows ≡ none
    → busy h t (rows ++ new_run h t now ∷ []) ≡ true
busy-new h t now [] e = ground (arith, beq_refl h)
busy-new h t now (x ∷ xs) e = elim (Bool-cases (is_run h x)) [
  | inl hit ↦ absurd (cc (rw hit at e))
  | inr miss ↦ rw miss (busy-new h t now xs (rw miss at e))
]

busy-rerun :
    (h : String) (t now : ℕ) (row : PipelineRun) (rows : List PipelineRun)
    → find (is_run h) rows ≡ some row
    → busy h t (update (is_run h) (rerun t now) rows) ≡ true
busy-rerun h t now row [] e = absurd (cc)
busy-rerun h t now row (x ∷ xs) e = elim (Bool-cases (is_run h x)) [
  | inl hit ↦ rw (hit, hit) (ground arith)
  | inr miss ↦ rw (miss, miss) (busy-rerun h t now row xs (rw miss at e))
]

claimed-busy :
    (h : String) (until now : ℕ) (o : Option PipelineRun) (rows rows' : List PipelineRun)
    → find (is_run h) rows ≡ o
    → claimed h until now o rows ≡ (true, rows')
    → busy h until rows' ≡ true
claimed-busy h until now none rows rows' e q =
    let grown = ap (λ (r : Bool × List PipelineRun). r.1) q in
    rw (sym grown) (busy-new h until now rows e)
claimed-busy h until now (some row) rows rows' e q = elim (Bool-cases (is_free now row)) [
  | inl free ↦
      let grown = ap (λ (r : Bool × List PipelineRun). r.1) (rw free at q) in
      rw (sym grown) (busy-rerun h until now row rows e)
  | inr held ↦ absurd (false≢true (ap (λ (r : Bool × List PipelineRun). r.0) (rw held at q)))
]

-- Once a worker has claimed a run, every claim of the same input before the lease ends is refused and
-- changes nothing, whatever claims of inputs are made in between.
pub run_claimed_once :
    (h : String) (now later lease lease' : ℕ) (between : List Request)
    (rows rows' : List PipelineRun)
    → claim_pipeline_run h now lease rows ≡ (true, rows')
    → all_before (now + lease) between ≡ true
    → later < now + lease
    → claim_pipeline_run h later lease' (claim_all between rows') ≡ (false, claim_all between rows')
unfolding claim_pipeline_run
run_claimed_once h now later lease lease' between rows rows' q before soon =
    busy-refused h (now + lease) later lease' (claim_all between rows')
      (claim_all-keeps h (now + lease) between rows' before
        (claimed-busy h (now + lease) now (find (is_run h) rows) rows rows' refl q))
      soon
