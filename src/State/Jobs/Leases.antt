-- ===== src/State/Jobs/Leases.antt =====
-- A job that is claimed is out of reach of other workers while its lease runs.
use mathlib.Core.Bool.{false≢true}
use sentinel_grc.Prelude.{
  ℕ, ◌+◌, ◌<◌, ◌≤◌, Bool, true, false, ◌&&◌, ◌||◌, not, String, ◌≡◌, ◌≢◌, refl, sym, ◌∙◌, ap, ◌⊎◌,
  inl, inr, Option, none, some, List, [], ◌∷◌, arith, string_eq, eq_iff, nat_beq, ltb, any, find,
  update, select, count, opt_is, Bool-cases, some_inj,
}
use sentinel_grc.Delivery.Lease.Claims.{In, select-In}
use sentinel_grc.State.{returned}
use sentinel_grc.State.Jobs.{
  Job, Db, is_blank, is_claimable, is_leased, is_running, lowest, lower, has_id, leased_to, claimed,
  claim, is_held, rowcount_is_one, written, renew, complete, completed_job, fail_row, fail,
  lease_lost,
}

abbrev opt_nat : Option ℕ → ℕ → Bool
opt_nat none n = false
opt_nat (some m) n = nat_beq m n

-- All rows with the key have the property.
abbrev all_of : ℕ → (Job → Bool) → List Job → Bool
all_of k p [] = true
all_of k p (j ∷ js) = (not (has_id k j) || p j) && all_of k p js

abbrev is_leased_to : String → ℕ → Job → Bool
is_leased_to worker until j =
    is_running j && (opt_is j.worker_id worker && opt_nat j.locked_until until)

all_of-update :
    (k : ℕ) (worker : String) (until : ℕ) (js : List Job)
    → all_of k (is_leased_to worker until) (update (has_id k) (leased_to worker until) js) ≡ true
all_of-update k worker until [] = refl
all_of-update k worker until (j ∷ js) =
    ground (arith, all_of-update k worker until js, eq_iff worker worker)

all_of-In :
    (k : ℕ) (p : Job → Bool) (js : List Job) (j : Job)
    → all_of k p js ≡ true
    → In j js
    → j.job_id ≡ k
    → p j ≡ true
all_of-In k p [] j h i same = elim i [ ]
all_of-In k p (x ∷ xs) j h (inl e) same =
    let same_x : x.job_id ≡ k = ap (λ (z : Job). z.job_id) (sym e) ∙ same in
    let at_x : p x ≡ true = ground arith in ap p e ∙ at_x
all_of-In k p (x ∷ xs) j h (inr i) same = all_of-In k p xs j (ground arith) i same

opt_is-eq : (o : Option String) (w : String) → opt_is o w ≡ true → o ≡ some w
opt_is-eq none w h = absurd (false≢true h)
opt_is-eq (some x) w h = ap some ((eq_iff x w).0 h)

lower-cases : (j : Job) (o : Option Job) → (lower j o ≡ j) ⊎ (o ≡ some (lower j o))
lower-cases j none = inl refl
lower-cases j (some k) = ground arith

lowest-In : (js : List Job) (c : Job) → lowest js ≡ some c → In c js
unfolding lowest
lowest-In [] c h = absurd (cc)
lowest-In (j ∷ js) c h = elim (lower-cases j (lowest js)) [
  | inl e ↦ inl (sym (some_inj h) ∙ e)
  | inr e ↦ inr (lowest-In js c (e ∙ h))
]

any-In : (k : ℕ) (js : List Job) (j : Job) → In j js → j.job_id ≡ k → any (has_id k) js ≡ true
any-In k [] j i e = elim i [ ]
any-In k (x ∷ xs) j (inl same) e = ground (arith, ap (λ (z : Job). z.job_id) same)
any-In k (x ∷ xs) j (inr i) e = ground (arith, any-In k xs j i e)

find-update-some :
    (k n until : ℕ) (worker : String) (js : List Job)
    → any (has_id k) js ≡ true
    → (j : Job) × (find (has_id k) (update (has_id n) (leased_to worker until) js) ≡ some j)
find-update-some k n until worker [] h = absurd (false≢true h)
find-update-some k n until worker (x ∷ xs) h = elim (Bool-cases (has_id n x)) [
  | inl hit ↦ elim (Bool-cases (has_id k x)) [
    | inl here_ ↦ (leased_to worker until x, rw (hit, here_) refl)
    | inr not_here ↦
        let (j, e) = find-update-some k n until worker xs (rw not_here at h) in
        (j, rw (hit, not_here) e)
  ]
  | inr miss ↦ elim (Bool-cases (has_id k x)) [
    | inl here_ ↦ (x, rw (miss, here_) refl)
    | inr not_here ↦
        let (j, e) = find-update-some k n until worker xs (rw not_here at h) in
        (j, rw (miss, not_here) e)
  ]
]

update-none :
    (p : Job → Bool) (g : Job → Job) (js : List Job) → any p js ≡ false → update p g js ≡ js
update-none p g [] h = refl
update-none p g (j ∷ js) h =
    let miss : p j ≡ false = ground arith in
    let rest : any p js ≡ false = ground arith in rw (miss, update-none p g js rest) refl

count-none : (p : Job → Bool) (js : List Job) → any p js ≡ false → count p js ≡ 0
count-none p [] h = refl
count-none p (j ∷ js) h = ground (arith, count-none p js)

others-job :
    (k : ℕ) (worker other : String) (until now : ℕ) (js : List Job)
    → worker ≢ other
    → all_of k (is_leased_to worker until) js ≡ true
    → any (is_held k other now) js ≡ false
others-job k worker other until now [] apart h = refl
others-job k worker other until now (j ∷ js) apart h =
    let rest : all_of k (is_leased_to worker until) js ≡ true = ground arith in
    ground (arith, others-job k worker other until now js apart rest, mine j)
  where
    mine : (j : Job) → opt_is j.worker_id worker ≡ true → opt_is j.worker_id other ≡ false
    mine j e = elim (Bool-cases (opt_is j.worker_id other)) [
      | inl same ↦ absurd (
          apart
            (some_inj (sym (opt_is-eq j.worker_id worker e) ∙ opt_is-eq j.worker_id other same)))
      | inr differs ↦ differs
    ]

-- What a claim that returned a job has done.
record Claimed (worker : String) (lease now : ℕ) (db db' : Db) (item : Job) : Type 0 where
  pub leased : all_of item.job_id (is_leased_to worker (now + lease)) db'.jobs ≡ true
  pub row : Job
  pub found : find (has_id item.job_id) db'.jobs ≡ some row
  pub origin : Job
  pub same_id : item.job_id ≡ origin.job_id
  pub was_there : In origin db.jobs
  pub was_claimable : is_claimable now origin ≡ true

claim-Claimed :
    (worker : String) (lease now : ℕ) (db db' : Db) (item : Job)
    → claim worker lease now db ≡ returned (some item, db')
    → Claimed worker lease now db db' item
unfolding claim
claim-Claimed worker lease now db db' item h =
    go (lowest (select (is_claimable now) db.jobs)) refl (ground arith)
  where
    go :
        (o : Option Job)
        → lowest (select (is_claimable now) db.jobs) ≡ o
        → claimed worker (now + lease) o db ≡ (some item, db')
        → Claimed worker lease now db db' item
    go none e q = absurd (cc (ap (λ (r : Option Job × Db). r.0) q))
    go (some c) e q =
        let (there, claimable) =
          select-In (is_claimable now) db.jobs c
            (lowest-In (select (is_claimable now) db.jobs) c e) in
        let id : item.job_id ≡ c.job_id =
          ap (λ (z : Job). z.job_id) (sym (some_inj (ap (λ (r : Option Job × Db). r.0) q))) in
        let jobs : db'.jobs ≡ update (has_id c.job_id) (leased_to worker (now + lease)) db.jobs =
          sym (ap (λ (r : Option Job × Db). (r.1).jobs) q) in
        let (row, found) =
          find-update-some c.job_id c.job_id (now + lease) worker db.jobs
            (any-In c.job_id db.jobs c there refl) in
        record {
          leased = rw (id, jobs) (all_of-update c.job_id worker (now + lease) db.jobs);
          row = row;
          found = rw (id, jobs) found;
          origin = c;
          same_id = id;
          was_there = there;
          was_claimable = claimable;
        }

not-claimable :
    (worker : String) (until now : ℕ) (j : Job)
    → is_leased_to worker until j ≡ true
    → now < until
    → is_claimable now j ≡ false
not-claimable worker until now j h soon = ground arith

-- A claim by whatever worker on the table that an earlier claim left, at a time before the lease of the
-- earlier one ends, does not return the job that the earlier one returned.
pub job_claim_exclusive :
    (w w' : String) (lease lease' now now' : ℕ) (db mid db' : Db) (item item' : Job)
    → claim w lease now db ≡ returned (some item, mid)
    → claim w' lease' now' mid ≡ returned (some item', db')
    → now' < now + lease
    → item'.job_id ≢ item.job_id
job_claim_exclusive w w' lease lease' now now' db mid db' item item' h h' soon same =
    let c = claim-Claimed w lease now db mid item h in
    let c' = claim-Claimed w' lease' now' mid db' item' h' in
    let held =
      all_of-In item.job_id (is_leased_to w (now + lease)) mid.jobs c'.origin c.leased c'.was_there
        (sym c'.same_id ∙ same) in
    false≢true (sym (not-claimable w (now + lease) now' c'.origin held soon) ∙ c'.was_claimable)

module _ (p : Job → Bool) (db : Db) (h : any p db.jobs ≡ false) where
  written-none : (g : Job → Job) → written p g db ≡ db
  written-none g = ap (λ (js : List Job). record db { jobs = js }) (update-none p g db.jobs h)

  rowcount-none : rowcount_is_one p db ≡ false
  rowcount-none = rw (count-none p db.jobs h) refl

-- On the table that a claim left, a worker with another name, not blank, can neither renew, complete nor
-- fail the claimed job, at any time, with a positive lease and at least one attempt: `renew` and
-- `complete` return False, `fail` returns "lease_lost", and nothing changes.
pub claimed_job-left_alone :
    (w other : String) (lease now : ℕ) (db db' : Db) (item : Job)
    → claim w lease now db ≡ returned (some item, db')
    → w ≢ other
    → is_blank other ≡ false
    → (more later : ℕ) (error : String) (max_attempts delay : ℕ) → 1 ≤ more
    → 1 ≤ max_attempts
    → (renew item.job_id other more later db' ≡ returned (false, db'))
      × (complete item.job_id other later db' ≡ returned (false, db'))
      × (fail item.job_id other error max_attempts delay later db' ≡ returned (lease_lost, db'))
unfolding renew complete fail fail_row
claimed_job-left_alone w other lease now db db' item h apart named more later error max_attempts
      delay lasts tried =
    let c = claim-Claimed w lease now db db' item h in
    let free = others-job item.job_id w other (now + lease) later db'.jobs apart c.leased in
    let p = is_held item.job_id other later in
    let positive : nat_beq more 0 ≡ false = ground arith in
    let policy : ltb max_attempts 1 ≡ false = ground arith in
    (
      rw
          (
            named,
            positive,
            rowcount-none p db' free,
            written-none p db' free (λ j. record j { locked_until = some (later + more) }),
          )
          refl,
      rw (named, rowcount-none p db' free, written-none p db' free completed_job) refl,
      rw (named, policy, c.found, found-lost c.row db'.jobs c.found free) refl,
    )
  where
    found-lost :
        (row : Job) (js : List Job)
        → find (has_id item.job_id) js ≡ some row
        → any (is_held item.job_id other later) js ≡ false
        → (is_running row && (opt_is row.worker_id other && is_leased later row)) ≡ false
    found-lost row [] e f = absurd (cc)
    found-lost row (j ∷ js) e f = elim (Bool-cases (has_id item.job_id j)) [
      | inl hit ↦
          let same : j ≡ row = some_inj (rw hit at e) in rw (sym same) (ground (arith, hit, f))
      | inr miss ↦ found-lost row js (rw miss at e) (ground arith)
    ]
