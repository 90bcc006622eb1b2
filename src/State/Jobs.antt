-- ===== src/State/Jobs.antt =====
-- job_queue.py: `SQLiteJobQueue`. Times are naturals, and so is `retry_delay`.
pub mod Leases
pub mod Progress
use sentinel_grc.Prelude.{
  ℕ, ◌+◌, Bool, true, false, ◌&&◌, ◌||◌, not, String, Option, none, some, List, [], ◌∷◌, ◌++◌,
  if◌then◌else◌, ◌==◌, string_eq, nat_eq, is_none, opt_is, ltb, leb, nat_beq, any, find, update,
  count, select,
}
use sentinel_grc.Prelude.Text
use sentinel_grc.State.{Answer, raised, returned, bad_worker, bad_policy, unknown_job}

pub data Status : Type 0 where
  pending running completed dead : Status

-- `pipeline_jobs`
pub record Job : Type 0 where
  pub job_id : ℕ
  pub payload_path : String
  pub status : Status
  pub attempts : ℕ
  pub available_at : ℕ
  pub locked_until : Option ℕ
  pub worker_id : Option String
  pub last_error : Option String

-- The table, and the sequence of AUTOINCREMENT.
pub record Db : Type 0 where
  pub jobs : List Job
  pub next_id : ℕ

abbrev pub is_blank : String → Bool
is_blank s = Text.is_empty (Text.strip s)

abbrev pub is_pending : Job → Bool
is_pending j = elim j.status [ pending ↦ true | running ↦ false | completed ↦ false | dead ↦ false ]

abbrev pub is_running : Job → Bool
is_running j = elim j.status [ pending ↦ false | running ↦ true | completed ↦ false | dead ↦ false ]

-- `enqueue`: INSERT OR IGNORE, where payload_path is unique.
unfoldable pub enqueue : String → ℕ → Db → Bool × Db
enqueue path now db = if any (λ j. j.payload_path == path) db.jobs then (false, db) else (
  true,
  record {
    jobs =
        db.jobs
        ++ record {
          job_id = db.next_id;
          payload_path = path;
          status = pending;
          attempts = 0;
          available_at = now;
          locked_until = none;
          worker_id = none;
          last_error = none;
        }
          ∷ [];
    next_id = db.next_id + 1;
  },
)

-- `locked_until <= ?`, and `locked_until > ?`; neither holds of NULL.
abbrev pub is_expired : ℕ → Job → Bool
is_expired now j = elim j.locked_until [ none ↦ false | some t ↦ leb t now ]

abbrev pub is_leased : ℕ → Job → Bool
is_leased now j = elim j.locked_until [ none ↦ false | some t ↦ ltb now t ]

abbrev pub is_claimable : ℕ → Job → Bool
is_claimable now j = (is_pending j && leb j.available_at now) || (is_running j && is_expired now j)

abbrev pub lower : Job → Option Job → Job
lower j none = j
lower j (some k) = if ltb k.job_id j.job_id then k else j

-- `ORDER BY job_id LIMIT 1`
unfoldable pub lowest : List Job → Option Job
lowest [] = none
lowest (j ∷ js) = some (lower j (lowest js))

abbrev pub has_id : ℕ → Job → Bool
has_id k j = nat_beq j.job_id k

abbrev pub leased_to : String → ℕ → Job → Job
leased_to worker until j = record j {
  status = running;
  attempts = j.attempts + 1;
  locked_until = some until;
  worker_id = some worker;
}

-- The row before the update, but for its attempts.
abbrev pub claimed : String → ℕ → Option Job → Db → Option Job × Db
claimed worker until none db = (none, db)
claimed worker until (some j) db = (
  some (record j { attempts = j.attempts + 1 }),
  record db { jobs = update (has_id j.job_id) (leased_to worker until) db.jobs },
)

-- `claim`
unfoldable pub claim : String → ℕ → ℕ → Db → Answer (Option Job × Db)
claim worker lease now db =
    if is_blank worker || nat_beq lease 0
    then raised bad_worker
    else returned (claimed worker (now + lease) (lowest (select (is_claimable now) db.jobs)) db)

-- `job_id = ? AND status = 'running' AND worker_id = ? AND locked_until > ?`
abbrev pub is_held : ℕ → String → ℕ → Job → Bool
is_held k worker now j =
    has_id k j && (is_running j && (opt_is j.worker_id worker && is_leased now j))

abbrev pub rowcount_is_one : (Job → Bool) → Db → Bool
rowcount_is_one p db = nat_beq (count p db.jobs) 1

abbrev pub written : (Job → Bool) → (Job → Job) → Db → Db
written p g db = record db { jobs = update p g db.jobs }

-- `renew`
unfoldable pub renew : ℕ → String → ℕ → ℕ → Db → Answer (Bool × Db)
renew k worker lease now db =
    if is_blank worker || nat_beq lease 0
    then raised bad_worker
    else returned (
      rowcount_is_one (is_held k worker now) db,
      written (is_held k worker now) (λ j. record j { locked_until = some (now + lease) }) db,
    )

abbrev pub completed_job : Job → Job
completed_job j = record j { status = completed; locked_until = none; last_error = none }

-- `complete`
unfoldable pub complete : ℕ → String → ℕ → Db → Answer (Bool × Db)
complete k worker now db =
    if is_blank worker
    then raised bad_worker
    else returned
        (rowcount_is_one (is_held k worker now) db, written (is_held k worker now) completed_job db)

pub data Verdict : Type 0 where
  lease_lost is_dead is_pending_again : Verdict

abbrev pub failed_job : Bool → String → ℕ → ℕ → Job → Job
failed_job last error delay now j = record j {
  status = if last then dead else pending;
  available_at = now + (if last then 0 else delay);
  locked_until = none;
  worker_id = none;
  last_error = some (Text.take 2000 error);
}

-- `fail`, once the row is read
unfoldable pub fail_row : ℕ → String → String → ℕ → ℕ → ℕ → Option Job → Db → Answer (Verdict × Db)
fail_row k worker error max_attempts delay now none db = raised unknown_job
fail_row k worker error max_attempts delay now (some row) db =
    let last = leb max_attempts row.attempts in
    if not (is_running row && (opt_is row.worker_id worker && is_leased now row))
    then returned (lease_lost, db)
    else returned (
      if rowcount_is_one (is_held k worker now) db
          then (if last then is_dead else is_pending_again)
          else lease_lost,
      written (is_held k worker now) (failed_job last error delay now) db,
    )

-- `fail`
unfoldable pub fail : ℕ → String → String → ℕ → ℕ → ℕ → Db → Answer (Verdict × Db)
fail k worker error max_attempts delay now db =
    if is_blank worker || ltb max_attempts 1
    then raised bad_policy
    else fail_row k worker error max_attempts delay now (find (has_id k) db.jobs) db

pub record Metadata : Type 0 where
  pub pending_count : ℕ
  pub running_count : ℕ
  pub completed_count : ℕ
  pub dead_count : ℕ

-- `metadata`
unfoldable pub metadata : Db → Metadata
metadata db = record {
  pending_count = count is_pending db.jobs;
  running_count = count is_running db.jobs;
  completed_count = count (λ j. elim j.status [ completed ↦ true | _ ↦ false ]) db.jobs;
  dead_count = count (λ j. elim j.status [ dead ↦ true | _ ↦ false ]) db.jobs;
}
