-- ===== src/Exchange/Publication/Progress.antt =====
-- A sweep commits every payload that is due and verified.
use mathlib.Core.Bool.{false≢true}
use sentinel_grc.Prelude.{
  ℕ, true, false, String, ◌≡◌, refl, sym, ◌∙◌, ap, inl, inr, some, List, [], ◌∷◌, arith, ◌==◌,
  string_eq, eq_iff, beq_refl, any, find, Bool-cases, Option-cases, some_inj,
}
use sentinel_grc.State.Ingestion.{
  PayloadRow, has_evidence, is_reserved, find_payload_by_evidence_id, commit_payload,
}
use sentinel_grc.Exchange.Publication.{
  Content, regular, irregular, os_error, JsonFile, Directory, Read, got, nothing, raises,
  is_evidence_filename, read_verified_evidence, if_read, is_due, if_due, pending_candidate,
  reconcile_candidate, all_candidates, sweep, reconcile_pending_publications,
}
use sentinel_grc.Exchange.Publication.Verified.{
  is_published, holds, has_hash, pending_candidate-some,
}

commit-published_kept :
    (h e g f : String) (rows : List PayloadRow)
    → any (is_published h e) rows ≡ true
    → any (is_published h e) (commit_payload g f rows).1 ≡ true
unfolding commit_payload
commit-published_kept h e g f [] there = there
commit-published_kept h e g f (x ∷ xs) there = ground (arith, commit-published_kept h e g f xs)

step-published_kept :
    (digest : List ℕ → String) (grace now : ℕ) (h e : String) (p : JsonFile)
    (rows : List PayloadRow)
    → any (is_published h e) rows ≡ true
    → any (is_published h e) (reconcile_candidate digest grace now p rows).1 ≡ true
unfolding reconcile_candidate
step-published_kept digest grace now h e p rows there =
    elim (Option-cases (pending_candidate digest p grace now rows)) [
      | inl left_out ↦ rw left_out there
      | inr (row, chosen) ↦ rw chosen (commit-published_kept h e row.payload_hash p.stem rows there)
    ]

sweep-published_kept :
    (digest : List ℕ → String) (grace now : ℕ) (h e : String) (ps : List JsonFile)
    (rows : List PayloadRow)
    → any (is_published h e) rows ≡ true
    → any (is_published h e) (sweep digest grace now ps rows).1 ≡ true
unfolding sweep
sweep-published_kept digest grace now h e [] rows there = there
sweep-published_kept digest grace now h e (p ∷ ps) rows there =
    sweep-published_kept digest grace now h e ps (reconcile_candidate digest grace now p rows).1
      (step-published_kept digest grace now h e p rows there)

-- The row that a commit is for.
find-committed :
    (e : String) (rows : List PayloadRow) (row : PayloadRow)
    → find (has_evidence e) rows ≡ some row
    → any (is_published row.payload_hash e) (commit_payload row.payload_hash e rows).1 ≡ true
unfolding commit_payload
find-committed e [] row f = absurd (cc)
find-committed e (x ∷ xs) row f = elim (Bool-cases (has_evidence e x)) [
  | inl hit ↦
      let x_is = some_inj (rw hit at f) in
      let named : has_evidence e row ≡ true = rw (← x_is) hit in
      rw (x_is, named, beq_refl row.payload_hash) (rw (named, beq_refl row.payload_hash) refl)
  | inr miss ↦ let rest = find-committed e xs row (rw miss at f) in rw (miss) (ground arith)
]

-- A commit under another identifier leaves the row alone.
find-other :
    (e g f : String) (rows : List PayloadRow) (row : PayloadRow)
    → (f == e) ≡ false
    → find (has_evidence e) rows ≡ some row
    → find (has_evidence e) (commit_payload g f rows).1 ≡ some row
unfolding commit_payload
find-other e g f [] row apart there = absurd (cc)
find-other e g f (x ∷ xs) row apart there = elim (Bool-cases (has_evidence e x)) [
  | inl hit ↦
      let other : is_reserved g f x ≡ false = elim (Bool-cases (has_evidence f x)) [
        | inr miss ↦ ground arith
        | inl same ↦ absurd (false≢true (sym apart ∙ (rw (← (eq_iff x.evidence_id f).0 same) hit)))
      ] in
      rw (other, hit) (rw hit at there)
  | inr miss ↦ ground (arith, find-other e g f xs row)
]

read-hashed :
    (digest : List ℕ → String) (content : Content) (row : PayloadRow)
    → has_hash digest row.payload_hash content ≡ true
    → if_read row (read_verified_evidence digest content row.payload_hash) ≡ some row
read-hashed digest irregular row h = absurd (false≢true h)
read-hashed digest os_error row h = absurd (false≢true h)
read-hashed digest (regular bytes) row h = rw h refl

if_read-some : (x row : PayloadRow) (r : Read) → if_read x r ≡ some row → x ≡ row
if_read-some x row (got bytes) h = some_inj h
if_read-some x row nothing h = absurd (cc)
if_read-some x row raises h = absurd (cc)

if_due-some :
    (digest : List ℕ → String) (content : Content) (grace now : ℕ) (x row : PayloadRow)
    → if_due digest content grace now (some x) ≡ some row
    → x ≡ row
if_due-some digest content grace now x row h = elim (Bool-cases (is_due grace now x)) [
  | inr early ↦ let bad = rw early at h in absurd (cc)
  | inl due ↦
      if_read-some x row (read_verified_evidence digest content x.payload_hash) (rw due at h)
]

candidate-found :
    (digest : List ℕ → String) (grace now : ℕ) (p : JsonFile) (rows : List PayloadRow)
    (row : PayloadRow)
    → pending_candidate digest p grace now rows ≡ some row
    → find (has_evidence p.stem) rows ≡ some row
unfolding pending_candidate find_payload_by_evidence_id
candidate-found digest grace now p rows row h = elim (Bool-cases (is_evidence_filename p.stem)) [
  | inr odd ↦ let bad = rw odd at h in absurd (cc)
  | inl named ↦ elim (Option-cases (find (has_evidence p.stem) rows)) [
    | inl missing ↦ let bad = rw (named, missing) at h in absurd (cc)
    | inr (x, found) ↦
        found ∙ ap some (if_due-some digest p.content grace now x row (rw (named, found) at h))
  ]
]

-- The candidate of a path that holds the bytes of a row that is due.
candidate-due :
    (digest : List ℕ → String) (grace now : ℕ) (e : String) (p : JsonFile) (rows : List PayloadRow)
    (row : PayloadRow)
    → find (has_evidence e) rows ≡ some row
    → is_due grace now row ≡ true
    → holds digest row.payload_hash e p ≡ true
    → pending_candidate digest p grace now rows ≡ some row
unfolding pending_candidate find_payload_by_evidence_id
candidate-due digest grace now e p rows row found due held =
    let stem : p.stem ≡ e = (eq_iff p.stem e).0 (ground arith) in
    let named : is_evidence_filename p.stem ≡ true = ground arith in
    let hashed : has_hash digest row.payload_hash p.content ≡ true = ground arith in
    rw (named, ap (λ x. find (has_evidence x) rows) stem ∙ found, due)
      (read-hashed digest p.content row hashed)

step-publishes :
    (digest : List ℕ → String) (grace now : ℕ) (e : String) (p : JsonFile) (rows : List PayloadRow)
    (row : PayloadRow)
    → find (has_evidence e) rows ≡ some row
    → is_due grace now row ≡ true
    → holds digest row.payload_hash e p ≡ true
    → any (is_published row.payload_hash e) (reconcile_candidate digest grace now p rows).1 ≡ true
unfolding reconcile_candidate
step-publishes digest grace now e p rows row found due held =
    let stem : p.stem ≡ e = (eq_iff p.stem e).0 (ground arith) in
    rw (candidate-due digest grace now e p rows row found due held, stem)
      (find-committed e rows row found)

-- A path that does not hold the bytes leaves the row as it is.
step-other :
    (digest : List ℕ → String) (grace now : ℕ) (e : String) (p : JsonFile) (rows : List PayloadRow)
    (row : PayloadRow)
    → find (has_evidence e) rows ≡ some row
    → holds digest row.payload_hash e p ≡ false
    → find (has_evidence e) (reconcile_candidate digest grace now p rows).1 ≡ some row
unfolding reconcile_candidate
step-other digest grace now e p rows row found apart =
    elim (Option-cases (pending_candidate digest p grace now rows)) [
      | inl left_out ↦ rw left_out found
      | inr (x, chosen) ↦ elim (Bool-cases (p.stem == e)) [
        | inr other ↦ rw chosen (find-other e x.payload_hash p.stem rows row other found)
        | inl same ↦
            let (held, due) = pending_candidate-some digest p grace now rows x chosen in
            let x_is : x ≡ row = some_inj (
              sym (candidate-found digest grace now p rows x chosen)
              ∙ ap (λ i. find (has_evidence i) rows) ((eq_iff p.stem e).0 same)
              ∙ found) in
            let held' : holds digest row.payload_hash e p ≡ true =
              rw (← x_is, ← (eq_iff p.stem e).0 same) held in
            absurd (false≢true (sym apart ∙ held'))
      ]
    ]

sweep-publishes :
    (digest : List ℕ → String) (grace now : ℕ) (e : String) (ps : List JsonFile)
    (rows : List PayloadRow) (row : PayloadRow)
    → find (has_evidence e) rows ≡ some row
    → is_due grace now row ≡ true
    → any (holds digest row.payload_hash e) ps ≡ true
    → any (is_published row.payload_hash e) (sweep digest grace now ps rows).1 ≡ true
unfolding sweep
sweep-publishes digest grace now e [] rows row found due held = absurd (false≢true held)
sweep-publishes digest grace now e (p ∷ ps) rows row found due held =
    let next_ = (reconcile_candidate digest grace now p rows).1 in
    elim (Bool-cases (holds digest row.payload_hash e p)) [
      | inl here ↦
          sweep-published_kept digest grace now row.payload_hash e ps next_
            (step-publishes digest grace now e p rows row found due here)
      | inr apart ↦
          sweep-publishes digest grace now e ps next_ row
            (step-other digest grace now e p rows row found apart) due (rw apart at held)
    ]

-- A sweep commits the payload of an evidence identifier if it is pending, at least as old as the grace, and
-- some path of the directories is named by the identifier and holds bytes with its hash.
pub reconciliation_commits :
    (digest : List ℕ → String) (directories : List Directory) (grace now : ℕ) (e : String)
    (rows : List PayloadRow) (row : PayloadRow)
    → find (has_evidence e) rows ≡ some row
    → is_due grace now row ≡ true
    → any (holds digest row.payload_hash e) (all_candidates directories) ≡ true
    → any
        (is_published row.payload_hash e)
        (reconcile_pending_publications digest directories grace now rows).1
      ≡ true
unfolding reconcile_pending_publications
reconciliation_commits digest directories grace now e rows row found due held =
    sweep-publishes digest grace now e (all_candidates directories) rows row found due held
