-- ===== src/State/Jobs/Progress.antt =====
-- A job that can be claimed is claimed, and its worker can then complete it.
use mathlib.Core.Bool.{false≢true}
use sentinel_grc.Prelude.{
  ℕ, ◌+◌, ◌≤◌, ◌<◌, Bool, true, false, String, ◌≡◌, refl, sym, ◌∙◌, ap, ◌⊎◌, inl, inr, Option, none,
  some, List, [], ◌∷◌, arith, string_eq, nat_eq, beq_refl, nat_beq, ltb, count, any, select, update,
  Bool-cases, some_inj,
}
use sentinel_grc.State.{returned}
use sentinel_grc.State.Jobs.{
  Db, Job, is_blank, is_claimable, lower, lowest, has_id, leased_to, claim, is_held, written,
  completed_job, complete,
}

lower_cases : (k j : Job) → (lower k (some j) ≡ j) ⊎ (lower k (some j) ≡ k)
lower_cases k j = elim (Bool-cases (ltb j.job_id k.job_id)) [
  | inl less ↦ inl (rw less refl)
  | inr more ↦ inr (rw more refl)
]

any-later : (p : Job → Bool) (k : Job) (js : List Job) → any p js ≡ true → any p (k ∷ js) ≡ true
any-later p k js h = ground arith

any-head : (k : Job) (js : List Job) → any (has_id k.job_id) (k ∷ js) ≡ true
any-head k js = rw (beq_refl k.job_id) refl

lower-id :
    (k : Job) (o : Option Job) (js : List Job)
    → ((j : Job) → o ≡ some j → any (has_id j.job_id) js ≡ true)
    → any (has_id (lower k o).job_id) (k ∷ js) ≡ true
lower-id k none js h = any-head k js
lower-id k (some j) js h = elim (lower_cases k j) [
  | inl e ↦
      ap (λ (x : Job). any (has_id x.job_id) (k ∷ js)) e
      ∙ any-later (has_id j.job_id) k js (h j refl)
  | inr e ↦ ap (λ (x : Job). any (has_id x.job_id) (k ∷ js)) e ∙ any-head k js
]

lowest-id : (js : List Job) (j : Job) → lowest js ≡ some j → any (has_id j.job_id) js ≡ true
unfolding lowest
lowest-id [] j h = absurd (cc)
lowest-id (k ∷ js) j h =
    ap (λ (x : Job). any (has_id x.job_id) (k ∷ js)) (sym (some_inj h))
    ∙ lower-id k (lowest js) js (lowest-id js)

any-select : (p q : Job → Bool) (js : List Job) → any q (select p js) ≡ true → any q js ≡ true
any-select p q [] h = h
any-select p q (x ∷ xs) h = ground (arith, any-select p q xs)

lowest-select :
    (p : Job → Bool) (js : List Job) → any p js ≡ true → (j : Job) × (lowest (select p js) ≡ some j)
unfolding lowest
lowest-select p [] h = absurd (false≢true h)
lowest-select p (x ∷ xs) h = elim (Bool-cases (p x)) [
  | inl hit ↦ (lower x (lowest (select p xs)), rw hit refl)
  | inr miss ↦ rw miss (lowest-select p xs (rw miss at h))
]

any-count : (k : ℕ) (js : List Job) → any (has_id k) js ≡ true → 1 ≤ count (has_id k) js
any-count k [] h = absurd (false≢true h)
any-count k (x ∷ xs) h = ground (arith, any-count k xs)

count-held :
    (k t until : ℕ) (worker : String) (js : List Job)
    → t < until
    → count (is_held k worker t) (update (has_id k) (leased_to worker until) js)
      ≡ count (has_id k) js
count-held k t until worker [] before = refl
count-held k t until worker (x ∷ xs) before = elim (Bool-cases (has_id k x)) [
  | inl hit ↦
      let rest = count-held k t until worker xs before in
      rw (hit, hit, beq_refl worker) (ground arith)
  | inr miss ↦ let rest = count-held k t until worker xs before in rw (miss, miss) (ground arith)
]

-- If some job can be claimed, and identifiers are unique, then a worker with a name and a lease claims one,
-- and at any time before the end of the lease `complete` succeeds for that worker.
pub claimed_job_can_complete :
    (worker : String) (lease now : ℕ) (db : Db)
    → is_blank worker ≡ false
    → 1 ≤ lease
    → any (is_claimable now) db.jobs ≡ true
    → ((k : ℕ) → count (has_id k) db.jobs ≤ 1)
    → (j : Job) × (after_ : Db) × (claim worker lease now db ≡ returned (some j, after_))
      × ((t : ℕ)
          → t < now + lease
          → (final : Db) × (complete j.job_id worker t after_ ≡ returned (true, final)))
unfolding claim complete
claimed_job_can_complete worker lease now db named positive there unique =
    let (j, found) = lowest-select (is_claimable now) db.jobs there in
    let own = any-count j.job_id db.jobs (
      any-select (is_claimable now) (has_id j.job_id) db.jobs
        (lowest-id (select (is_claimable now) db.jobs) j found)) in
    let once : count (has_id j.job_id) db.jobs ≡ 1 = omega (arith, own, unique j.job_id) in
    let lasting : nat_beq lease 0 ≡ false = ground arith in
    let after_ : Db = record db {
      jobs = update (has_id j.job_id) (leased_to worker (now + lease)) db.jobs;
    } in
    (
      record j { attempts = j.attempts + 1 },
      after_,
      rw (named, lasting, found) refl,
      λ t before. (
        written (is_held j.job_id worker t) completed_job after_,
        rw (named, count-held j.job_id t (now + lease) worker db.jobs before, once) refl,
      ),
    )
