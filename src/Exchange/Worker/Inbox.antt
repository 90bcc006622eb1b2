-- ===== src/Exchange/Worker/Inbox.antt =====
-- Which files of the inbox become jobs.
use sentinel_grc.Prelude.{
  if◌then◌else◌, false, ℕ, Bool, true, ◌&&◌, ◌||◌, String, ◌≡◌, refl, sym, ◌∙◌, ap, inl, inr, List,
  [], ◌∷◌, arith, ◌==◌, string_eq, eq_iff, any, Bool-cases, any-snoc, Option, none, some,
}
use sentinel_grc.State.Jobs.{Db, Job, enqueue}
use sentinel_grc.State.Ingestion.{PayloadRow, find_payload_by_evidence_id}
use sentinel_grc.Exchange.Worker.{is_processable, enqueue_inbox}

abbrev pub has_path : String → Job → Bool
has_path path j = j.payload_path == path

-- A file at that path whose publication, if it has a record, is committed.
abbrev pub is_job_for : List PayloadRow → String → String × String → Bool
is_job_for rows path (stem, p) =
    p == path
    && elim (find_payload_by_evidence_id stem rows) [ none ↦ true | some row ↦ row.is_committed ]

is_processable-cases :
    (o : Option PayloadRow)
    → is_processable o ≡ elim o [ none ↦ true | some row ↦ row.is_committed ]
is_processable-cases none = refl
is_processable-cases (some row) = refl

enqueue-path :
    (path p : String) (now : ℕ) (db : Db)
    → any (has_path path) (enqueue p now db).1.jobs ≡ any (has_path path) db.jobs || p == path
unfolding enqueue
enqueue-path path p now db = elim (Bool-cases (any (has_path p) db.jobs)) [
  | inr fresh ↦ rw fresh (any-snoc (has_path path) db.jobs _)
  | inl there ↦ elim (Bool-cases (p == path)) [
    | inl same ↦
        let known : any (has_path path) db.jobs ≡ true =
          ap (λ x. any (has_path x) db.jobs) (sym ((eq_iff p path).0 same)) ∙ there in
        rw (there, same, known) refl
    | inr apart ↦ rw (there, apart) (ground arith)
  ]
]

-- What one file adds.
one_file :
    (b : Bool) (path p : String) (now : ℕ) (db : Db)
    → any (has_path path) (if b then (enqueue p now db).1 else db).jobs
      ≡ any (has_path path) db.jobs || (p == path && b)
one_file true path p now db = enqueue-path path p now db ∙ ground arith
one_file false path p now db = ground arith

or_assoc : (a b c : Bool) → (a || b) || c ≡ a || (b || c)
or_assoc true b c = refl
or_assoc false b c = refl

-- After the inbox is enqueued, the queue has a job for a path exactly if it had one, or if the inbox has a
-- file at that path that has no record of its publication or a committed one.
pub enqueued_paths :
    (rows : List PayloadRow) (now : ℕ) (path : String) (files : List (String × String)) (db : Db)
    → any (has_path path) (enqueue_inbox rows now files db).jobs
      ≡ any (has_path path) db.jobs || any (is_job_for rows path) files
unfolding enqueue_inbox
enqueued_paths rows now path [] db = ground arith
enqueued_paths rows now path ((stem, p) ∷ rest) db =
    let b = is_processable (find_payload_by_evidence_id stem rows) in
    let is_own = is_job_for rows path (stem, p) in
    enqueued_paths rows now path rest (if b then (enqueue p now db).1 else db)
    ∙ ap (λ x. x || any (is_job_for rows path) rest) (one_file b path p now db)
    ∙ ap (λ x. (any (has_path path) db.jobs || (p == path && x)) || any (is_job_for rows path) rest)
        (is_processable-cases (find_payload_by_evidence_id stem rows))
    ∙ or_assoc (any (has_path path) db.jobs) (is_own) (any (is_job_for rows path) rest)
