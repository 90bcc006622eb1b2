-- ===== src/Exchange/Publication/Verified.antt =====
-- A sweep commits verified payloads, and nothing else.
use mathlib.Core.Bool.{false≢true}
use sentinel_grc.Prelude.{
  ℕ, Bool, true, false, ◌&&◌, ◌||◌, String, ◌≡◌, refl, inl, inr, some, List, [], ◌∷◌, arith, ◌==◌,
  string_eq, eq_iff, beq_refl, any, find, Bool-cases, Option-cases, some_inj,
}
use sentinel_grc.State.Ingestion.{
  PayloadRow, has_evidence, is_reserved, find_payload_by_evidence_id, commit_payload,
}
use sentinel_grc.Exchange.Publication.{
  Content, regular, irregular, os_error, JsonFile, Directory, is_evidence_filename,
  read_verified_evidence, if_read, is_due, pending_candidate, reconcile_candidate, all_candidates,
  sweep, reconcile_pending_publications,
}

-- The payload is committed under that evidence identifier.
abbrev pub is_published : String → String → PayloadRow → Bool
is_published h e row = is_reserved h e row && row.is_committed

-- It is pending under it, and due.
abbrev pub is_pending : ℕ → ℕ → String → String → PayloadRow → Bool
is_pending grace now h e row = is_reserved h e row && is_due grace now row

abbrev pub has_hash : (List ℕ → String) → String → Content → Bool
has_hash digest h (regular bytes) = digest bytes == h
has_hash digest h irregular = false
has_hash digest h os_error = false

-- The path is named by the identifier and holds bytes with that hash.
abbrev pub holds : (List ℕ → String) → String → String → JsonFile → Bool
holds digest h e path =
    path.stem == e && (is_evidence_filename path.stem && has_hash digest h path.content)

published-commit :
    (h e g f : String) (rows : List PayloadRow)
    → any (is_published h e) (commit_payload g f rows).1 ≡ true
    → any (is_published h e) rows || (g == h && f == e) ≡ true
unfolding commit_payload
published-commit h e g f [] there = absurd (false≢true there)
published-commit h e g f (x ∷ xs) there =
    elim (Bool-cases (is_reserved g f x && is_reserved h e x)) [
      | inl both ↦
          let g_is = (eq_iff x.payload_hash g).0 (ground arith) in
          let f_is = (eq_iff x.evidence_id f).0 (ground arith) in
          let a : g == h ≡ true = rw (← g_is) (ground arith) in
          let b : f == e ≡ true = rw (← f_is) (ground arith) in ground arith
      | inr apart ↦ ground (arith, published-commit h e g f xs)
    ]

find-pending :
    (grace now : ℕ) (e : String) (rows : List PayloadRow) (row : PayloadRow)
    → find (has_evidence e) rows ≡ some row
    → is_due grace now row ≡ true
    → any (is_pending grace now row.payload_hash e) rows ≡ true
find-pending grace now e [] row f due = absurd (cc)
find-pending grace now e (x ∷ xs) row f due = elim (Bool-cases (has_evidence e x)) [
  | inl hit ↦
      let x_is = some_inj (rw hit at f) in
      let named : has_evidence e row ≡ true = rw (← x_is) hit in
      rw (x_is, named, due, beq_refl row.payload_hash) refl
  | inr miss ↦ let rest = find-pending grace now e xs row (rw miss at f) due in ground arith
]

read-hash :
    (digest : List ℕ → String) (content : Content) (x row : PayloadRow)
    → if_read x (read_verified_evidence digest content x.payload_hash) ≡ some row
    → (has_hash digest x.payload_hash content ≡ true) × (x ≡ row)
read-hash digest irregular x row h = absurd (cc)
read-hash digest os_error x row h = absurd (cc)
read-hash digest (regular bytes) x row h = elim (Bool-cases (digest bytes == x.payload_hash)) [
  | inl same ↦ (same, some_inj (rw same at h))
  | inr other ↦ let bad = rw other at h in absurd (cc)
]

pub pending_candidate-some :
    (digest : List ℕ → String) (p : JsonFile) (grace now : ℕ) (rows : List PayloadRow)
    (row : PayloadRow)
    → pending_candidate digest p grace now rows ≡ some row
    → (holds digest row.payload_hash p.stem p ≡ true)
      × (any (is_pending grace now row.payload_hash p.stem) rows ≡ true)
unfolding pending_candidate find_payload_by_evidence_id
pending_candidate-some digest p grace now rows row h =
    elim (Bool-cases (is_evidence_filename p.stem)) [
      | inr odd ↦ let bad = rw odd at h in absurd (cc)
      | inl named ↦ elim (Option-cases (find (has_evidence p.stem) rows)) [
        | inl missing ↦ let bad = rw (named, missing) at h in absurd (cc)
        | inr (x, found) ↦ elim (Bool-cases (is_due grace now x)) [
          | inr early ↦ let bad = rw (named, found, early) at h in absurd (cc)
          | inl due ↦
              let (hashed, x_is) = read-hash digest p.content x row (rw (named, found, due) at h) in
              (
                rw (beq_refl p.stem, named, ← x_is) hashed,
                rw (← x_is) (find-pending grace now p.stem rows x found due),
              )
        ]
      ]
    ]

pending-commit :
    (grace now : ℕ) (h e g f : String) (rows : List PayloadRow)
    → any (is_pending grace now h e) (commit_payload g f rows).1 ≡ true
    → any (is_pending grace now h e) rows ≡ true
unfolding commit_payload
pending-commit grace now h e g f [] there = there
pending-commit grace now h e g f (x ∷ xs) there =
    ground (arith, pending-commit grace now h e g f xs)

step-published :
    (digest : List ℕ → String) (grace now : ℕ) (h e : String) (p : JsonFile)
    (rows : List PayloadRow)
    → any (is_published h e) (reconcile_candidate digest grace now p rows).1 ≡ true
    → any (is_published h e) rows || (holds digest h e p && any (is_pending grace now h e) rows)
      ≡ true
unfolding reconcile_candidate
step-published digest grace now h e p rows there =
    elim (Option-cases (pending_candidate digest p grace now rows)) [
      | inl left_out ↦ let same = rw left_out at there in ground arith
      | inr (row, chosen) ↦
          let (held, due) = pending_candidate-some digest p grace now rows row chosen in
          let split = published-commit h e row.payload_hash p.stem rows (rw chosen at there) in
          elim (Bool-cases (any (is_published h e) rows)) [
            | inl before ↦ ground arith
            | inr new ↦
                let h_is : row.payload_hash ≡ h = (eq_iff row.payload_hash h).0 (ground arith) in
                let e_is : p.stem ≡ e = (eq_iff p.stem e).0 (ground arith) in
                let held' : holds digest h e p ≡ true = rw (← h_is, ← e_is) held in
                let due' : any (is_pending grace now h e) rows ≡ true = rw (← h_is, ← e_is) due in
                ground arith
          ]
    ]

step-pending :
    (digest : List ℕ → String) (grace now : ℕ) (h e : String) (p : JsonFile)
    (rows : List PayloadRow)
    → any (is_pending grace now h e) (reconcile_candidate digest grace now p rows).1 ≡ true
    → any (is_pending grace now h e) rows ≡ true
unfolding reconcile_candidate
step-pending digest grace now h e p rows there =
    elim (Option-cases (pending_candidate digest p grace now rows)) [
      | inl left_out ↦ rw left_out at there
      | inr (row, chosen) ↦
          pending-commit grace now h e row.payload_hash p.stem rows (rw chosen at there)
    ]

-- What one path adds to the account of the paths behind it.
one_more :
    (before held due after_ held_later due_later : Bool)
    → (after_ ≡ true → before || (held && due) ≡ true)
    → (due_later ≡ true → due ≡ true)
    → after_ || (held_later && due_later) ≡ true
    → before || ((held || held_later) && due) ≡ true
one_more true held due after_ held_later due_later f g h = refl
one_more false held due true held_later due_later f g h = let e = f refl in ground arith
one_more false held due false held_later true f g h = let e = g refl in ground arith
one_more false held due false held_later false f g h = ground arith

sweep-published :
    (digest : List ℕ → String) (grace now : ℕ) (h e : String) (ps : List JsonFile)
    (rows : List PayloadRow)
    → any (is_published h e) (sweep digest grace now ps rows).1 ≡ true
    → any (is_published h e) rows
        || (any (holds digest h e) ps && any (is_pending grace now h e) rows)
      ≡ true
unfolding sweep
sweep-published digest grace now h e [] rows there = rw there refl
sweep-published digest grace now h e (p ∷ ps) rows there =
    let next_ = (reconcile_candidate digest grace now p rows).1 in
    one_more (any (is_published h e) rows) (holds digest h e p)
      (any (is_pending grace now h e) rows) (any (is_published h e) next_)
      (any (holds digest h e) ps) (any (is_pending grace now h e) next_)
      (step-published digest grace now h e p rows) (step-pending digest grace now h e p rows)
      (sweep-published digest grace now h e ps next_ there)

-- A payload that is committed after a sweep was committed before, or it was pending, at least as old as
-- the grace, and a file named by its evidence identifier holds bytes with its hash.
pub reconciled_verified :
    (digest : List ℕ → String) (directories : List Directory) (grace now : ℕ) (h e : String)
    (rows : List PayloadRow)
    → any (is_published h e) (reconcile_pending_publications digest directories grace now rows).1
      ≡ true
    → any (is_published h e) rows
        || (any (holds digest h e) (all_candidates directories)
            && any (is_pending grace now h e) rows)
      ≡ true
unfolding reconcile_pending_publications
reconciled_verified digest directories grace now h e rows there =
    sweep-published digest grace now h e (all_candidates directories) rows there
