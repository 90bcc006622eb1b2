-- ===== src/Exchange/Worker/Completion.antt =====
-- A job is finished only with verified bytes, and then it is completed.
use sentinel_grc.Prelude.{
  some_inj, Option, none, ℕ, Bool, true, false, ◌&&◌, String, ◌≡◌, refl, sym, ◌∙◌, ap, inl, inr,
  some, List, [], ◌∷◌, arith, ◌==◌, string_eq, eq_iff, nat_beq, count, any, update, Bool-cases,
}
use mathlib.Core.Path.{subst}
use sentinel_grc.Prelude.Attempt.{Attempt, failed, done}
use sentinel_grc.State
use sentinel_grc.State.{Answer, raised, returned}
use sentinel_grc.State.Jobs.{
  Db, Job, Verdict, completed, completed_job, has_id, is_held, rowcount_is_one, is_blank, renew,
  complete, fail,
}
use sentinel_grc.State.Ingestion.{PayloadRow, find_payload_by_evidence_id}
use sentinel_grc.Exchange.Publication.{
  Content, regular, irregular, os_error, JsonFile, read_verified_evidence, read_evidence_bytes,
}
use sentinel_grc.Exchange.Worker.{
  Reading, payload, storage_error, refused, Options, Circumstances, Outcome, lost, error, finished,
  crashed, of_read, read_managed, read_claimed_payload, with_verdict, fail_outer, fail_inner,
  after_complete, after_run, after_reading, after_renewal, process_claimed_job,
}

-- The job is in the table as completed.
abbrev pub is_completed : ℕ → Job → Bool
is_completed k j = has_id k j && elim j.status [ completed ↦ true | _ ↦ false ]

completed-any :
    (k : ℕ) (worker : String) (now : ℕ) (js : List Job)
    → nat_beq (count (is_held k worker now) js) 1 ≡ true
    → any (is_completed k) (update (is_held k worker now) completed_job js) ≡ true
completed-any k worker now [] one = absurd (ground arith)
completed-any k worker now (j ∷ js) one = elim (Bool-cases (is_held k worker now j)) [
  | inl held ↦ let own : has_id k j ≡ true = ground arith in rw (held, own) refl
  | inr other ↦
      let tail = rw other at one in
      let rest = completed-any k worker now js (ground arith) in rw (other, rest) (ground arith)
]

returned_inj : {T : Type 0} {a b : T} → ◌≡◌ {A = Answer T} (returned a) (returned b) → a ≡ b
returned_inj h = cc

complete-any :
    (k : ℕ) (worker : String) (now : ℕ) (db longer : Db)
    → complete k worker now db ≡ returned (true, longer)
    → any (is_completed k) longer.jobs ≡ true
unfolding complete
complete-any k worker now db longer h = elim (Bool-cases (is_blank worker)) [
  | inl blank ↦ let bad = rw blank at h in absurd (cc)
  | inr named ↦
      let pair = returned_inj (rw named at h) in
      let one : rowcount_is_one (is_held k worker now) db ≡ true =
        ap (λ (p : Bool × Db). p.0) pair in
      ap (λ (p : Bool × Db). any (is_completed k) p.1.jobs) (sym pair)
      ∙ completed-any k worker now db.jobs one
]

-- The outcome is not `finished`.
abbrev IsUnfinished : Outcome → Type 0
IsUnfinished (finished status) = ⊥
IsUnfinished lost = Unit
IsUnfinished (error v message) = Unit
IsUnfinished (crashed e) = Unit

verdict-IsUnfinished :
    (k : ℕ) (worker : String) (options : Options) (s : Circumstances)
    (message_of : State.Error → String) (message : String) (a : Answer (Verdict × Db))
    (otherwise : State.Error → Outcome × Db)
    → ((e : State.Error) → IsUnfinished (otherwise e).0)
    → IsUnfinished (with_verdict k worker options s message_of message a otherwise).0
verdict-IsUnfinished k worker options s message_of message (raised e) otherwise h = h e
verdict-IsUnfinished k worker options s message_of message (returned (v, db)) otherwise h = tt

IsUnfinished-apart :
    (r : Outcome × Db) (status : String) (db : Db) {B : Type 0}
    → IsUnfinished r.0
    → r ≡ (finished status, db)
    → B
IsUnfinished-apart r status db u same =
    absurd (subst (λ (x : Outcome × Db). IsUnfinished x.0) same u)

module _ (k : ℕ) (worker : String) (options : Options) (s : Circumstances)
    (message_of : State.Error → String) where
  fail_outer-IsUnfinished :
      (message : String) (db : Db)
      → IsUnfinished (fail_outer k worker options s message_of message db).0
  fail_outer-IsUnfinished message db =
      verdict-IsUnfinished k worker options s message_of message
        (fail k worker message options.max_attempts options.retry_delay s.ended_at db) _ (λ e. tt)

  fail_inner-IsUnfinished :
      (message : String) (max_attempts delay : ℕ) (db : Db)
      → IsUnfinished (fail_inner k worker options s message_of message max_attempts delay db).0
  fail_inner-IsUnfinished message max_attempts delay db =
      verdict-IsUnfinished k worker options s message_of message
        (fail k worker message max_attempts delay s.ended_at db) _
        (λ e. fail_outer-IsUnfinished (message_of e) db)

  after_complete-finished :
      (status status' : String) (db longer : Db) (a : Answer (Bool × Db))
      → after_complete k worker options s message_of status db a ≡ (finished status', longer)
      → (status ≡ status') × (a ≡ returned (true, longer))
  after_complete-finished status status' db longer (raised e) h =
      IsUnfinished-apart _ status' longer (fail_outer-IsUnfinished (message_of e) db) h
  after_complete-finished status status' db longer (returned (true, db')) h = (cc, cc)
  after_complete-finished status status' db longer (returned (false, db')) h =
      IsUnfinished-apart _ status' longer tt h

  after_run-finished :
      (r : Attempt String String) (db longer : Db) (status : String)
      → after_run k worker options s message_of r db ≡ (finished status, longer)
      → (r ≡ done status) × (complete k worker s.ended_at db ≡ returned (true, longer))
  after_run-finished (failed message) db longer status h =
      IsUnfinished-apart _ status longer (fail_outer-IsUnfinished message db) h
  after_run-finished (done x) db longer status h = elim (Bool-cases s.lost_running) [
    | inl gone ↦ IsUnfinished-apart (lost, db) status longer tt (rw gone at h)
    | inr ours ↦
        let (same, completed_) =
          after_complete-finished x status db longer (complete k worker s.ended_at db)
            (rw ours at h) in
        (ap done same, completed_)
  ]

  after_reading-finished :
      (run : List ℕ → Attempt String String) (reading : Reading) (db longer : Db) (status : String)
      → after_reading k worker options s message_of run reading db ≡ (finished status, longer)
      → (bytes : List ℕ) × (reading ≡ payload bytes)
        × (run bytes ≡ done status)
        × (complete k worker s.ended_at (s.while_running db) ≡ returned (true, longer))
  after_reading-finished run (payload bytes) db longer status h = elim (Bool-cases s.lost_reading) [
    | inl gone ↦ IsUnfinished-apart (lost, db) status longer tt (rw gone at h)
    | inr ours ↦
        let (ran, completed_) =
          after_run-finished (run bytes) (s.while_running db) longer status (rw ours at h) in
        (bytes, refl, ran, completed_)
  ]
  after_reading-finished run storage_error db longer status h =
      IsUnfinished-apart _ status longer
        (fail_inner-IsUnfinished "evidence storage is temporarily unavailable" options.max_attempts
          options.retry_delay db)
        h
  after_reading-finished run (refused message) db longer status h =
      IsUnfinished-apart _ status longer (fail_inner-IsUnfinished message 1 0 db) h

  after_renewal-finished :
      (run : List ℕ → Attempt String String) (reading : Reading) (db longer : Db) (status : String)
      (a : Answer (Bool × Db))
      → after_renewal k worker options s message_of run reading db a ≡ (finished status, longer)
      → (bytes : List ℕ) × (now : Db) × (reading ≡ payload bytes)
        × (run bytes ≡ done status)
        × (complete k worker s.ended_at now ≡ returned (true, longer))
  after_renewal-finished run reading db longer status (raised e) h =
      IsUnfinished-apart _ status longer tt h
  after_renewal-finished run reading db longer status (returned (false, renewed)) h =
      IsUnfinished-apart _ status longer tt h
  after_renewal-finished run reading db longer status (returned (true, renewed)) h =
      let (bytes, read, ran, completed_) =
        after_reading-finished run reading (s.while_reading renewed) longer status h in
      (bytes, s.while_running (s.while_reading renewed), read, ran, completed_)

payload_inj : {a b : List ℕ} → payload a ≡ payload b → a ≡ b
payload_inj h = cc

of_read-payload :
    (message : String) (c : Content) (bytes : List ℕ)
    → of_read message (read_evidence_bytes c) ≡ payload bytes
    → c ≡ regular bytes
of_read-payload message (regular b) bytes h = ap regular (payload_inj h)
of_read-payload message irregular bytes h = absurd (cc)
of_read-payload message os_error bytes h = absurd (cc)

verified-payload :
    (digest : List ℕ → String) (hash message : String) (c : Content) (bytes : List ℕ)
    → of_read message (read_verified_evidence digest c hash) ≡ payload bytes
    → (c ≡ regular bytes) × (digest bytes ≡ hash)
verified-payload digest hash message irregular bytes e = absurd (cc)
verified-payload digest hash message os_error bytes e = absurd (cc)
verified-payload digest hash message (regular b) bytes e = elim (Bool-cases (digest b == hash)) [
  | inr other ↦ let bad = rw other at e in absurd (cc)
  | inl same ↦
      let b_is = payload_inj (rw same at e) in
      (ap regular b_is, ap digest (sym b_is) ∙ (eq_iff (digest b) hash).0 same)
]

-- The bytes of a reading are those of the file, which a record of its publication vouches for.
read_managed-payload :
    (digest : List ℕ → String) (content : Content) (o : Option PayloadRow) (bytes : List ℕ)
    → read_managed digest content o ≡ payload bytes
    → (content ≡ regular bytes)
      × ((row : PayloadRow)
          → o ≡ some row
          → (row.is_committed ≡ true) × (digest bytes ≡ row.payload_hash))
read_managed-payload digest content none bytes h = (
  of_read-payload "inbox payload must be a regular readable file" content bytes h,
  λ row e. absurd (cc),
)
read_managed-payload digest content (some known) bytes h = elim (Bool-cases known.is_committed) [
  | inr pending ↦ let bad = rw pending at h in absurd (cc)
  | inl committed ↦
      let (is_file, matches) =
        verified-payload digest known.payload_hash
          "managed inbox payload failed committed hash verification" content bytes
          (rw committed at h) in
      (is_file, λ row e. rw (← some_inj e) (committed, matches))
]

-- When the worker reports a job as finished with some status, the file of the job is a regular one, and
-- the pipeline returned that status for its bytes; if the file has a record of its publication, that record is committed, and the bytes
-- have its hash; and the queue holds the job as completed. This is so whatever others did meanwhile.
pub finished_job_completed :
    (k : ℕ) (worker : String) (options : Options) (s : Circumstances)
    (message_of : State.Error → String) (digest : List ℕ → String)
    (run : List ℕ → Attempt String String) (file : JsonFile) (rows : List PayloadRow)
    (db longer : Db) (status : String)
    → process_claimed_job k worker options s message_of run
        (read_claimed_payload digest file rows)
        db
      ≡ (finished status, longer)
    → (bytes : List ℕ) × (file.content ≡ regular bytes)
      × (run bytes ≡ done status)
      × ((row : PayloadRow)
          → find_payload_by_evidence_id file.stem rows ≡ some row
          → (row.is_committed ≡ true) × (digest bytes ≡ row.payload_hash))
      × (any (is_completed k) longer.jobs ≡ true)
unfolding process_claimed_job read_claimed_payload
finished_job_completed k worker options s message_of digest run file rows db longer status h =
    let reading = read_claimed_payload digest file rows in
    elim (Bool-cases s.renew_error) [
      | inl gone ↦ IsUnfinished-apart (lost, db) status longer tt (rw gone at h)
      | inr fine ↦
          let (bytes, now, read, ran, completed_) =
            after_renewal-finished k worker options s message_of run reading db longer status
              (renew k worker options.lease_seconds s.renewed_at db) (rw fine at h) in
          let (is_file, vouched) =
            read_managed-payload digest file.content (find_payload_by_evidence_id file.stem rows)
              bytes read in
          (bytes, is_file, ran, vouched, complete-any k worker s.ended_at now longer completed_)
    ]
