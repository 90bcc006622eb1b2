-- ===== src/Exchange/Publication.antt =====
-- publication_reconciliation.py: commits of pending payloads whose request has crashed. A directory is the
-- list of its `*.json` files in order, or nothing when the scan fails; SHA-256 is an argument, bytes and
-- seconds are naturals.
pub mod Verified
pub mod Progress
use Prim.Native.Char.{code}
use sentinel_grc.Prelude.{
  ℕ, ◌+◌, Bool, true, false, ◌&&◌, not, String, Option, none, some, List, [], ◌∷◌, ◌++◌,
  if◌then◌else◌, ◌==◌, string_eq, leb, ltb,
}
use sentinel_grc.Prelude.Text
use sentinel_grc.State.Ingestion.{PayloadRow, find_payload_by_evidence_id, commit_payload}

-- What a path holds when it is read: a regular file, something else, or an `OSError`.
pub data Content : Type 0 where
  regular : List ℕ → Content
  irregular : Content
  os_error : Content

-- A path of a directory, by its stem.
pub record JsonFile : Type 0 where
  pub stem : String
  pub content : Content

pub data Directory : Type 0 where
  scan_failed : Directory
  paths : List JsonFile → Directory

-- The outcome of a read: bytes, None, or a raise.
pub data Read : Type 0 where
  got : List ℕ → Read
  nothing : Read
  raises : Read

-- `is_evidence_filename`
abbrev pub is_evidence_filename : String → Bool
is_evidence_filename s = Text.is_hex 24 s

-- `read_evidence_bytes`
abbrev pub read_evidence_bytes : Content → Read
read_evidence_bytes (regular bytes) = got bytes
read_evidence_bytes irregular = nothing
read_evidence_bytes os_error = raises

abbrev pub verified : (List ℕ → String) → String → Read → Read
verified digest h (got bytes) = if digest bytes == h then got bytes else nothing
verified digest h nothing = nothing
verified digest h raises = raises

-- `read_verified_evidence`
abbrev pub read_verified_evidence : (List ℕ → String) → Content → String → Read
read_verified_evidence digest content h = verified digest h (read_evidence_bytes content)

abbrev pub if_read : PayloadRow → Read → Option PayloadRow
if_read row (got bytes) = some row
if_read row nothing = none
if_read row raises = none

-- A row that is pending, and as old as the grace.
abbrev pub is_due : ℕ → ℕ → PayloadRow → Bool
is_due grace now row = not row.is_committed && not (ltb now (row.accepted_at + grace))

abbrev pub if_due : (List ℕ → String) → Content → ℕ → ℕ → Option PayloadRow → Option PayloadRow
if_due digest content grace now none = none
if_due digest content grace now (some row) =
    if is_due grace now row
    then if_read row (read_verified_evidence digest content row.payload_hash)
    else none

-- `_pending_candidate`, with its `OSError` caught as in `_reconcile_candidate`
unfoldable pub pending_candidate :
    (List ℕ → String) → JsonFile → ℕ → ℕ → List PayloadRow → Option PayloadRow
pending_candidate digest path grace now rows =
    if is_evidence_filename path.stem
    then if_due digest path.content grace now (find_payload_by_evidence_id path.stem rows)
    else none

abbrev pub committed_as : String → Bool × List PayloadRow → Option String × List PayloadRow
committed_as stem (changed, rows) = (if changed then some stem else none, rows)

abbrev pub commit_candidate :
    String → List PayloadRow → Option PayloadRow → Option String × List PayloadRow
commit_candidate stem rows none = (none, rows)
commit_candidate stem rows (some row) =
    committed_as stem (commit_payload row.payload_hash stem rows)

-- `_reconcile_candidate`
unfoldable pub reconcile_candidate :
    (List ℕ → String) → ℕ → ℕ → JsonFile → List PayloadRow → Option String × List PayloadRow
reconcile_candidate digest grace now path rows =
    commit_candidate path.stem rows (pending_candidate digest path grace now rows)

-- `_directory_candidates`
abbrev pub candidates : Directory → List JsonFile
candidates scan_failed = []
candidates (paths ps) = ps

abbrev pub all_candidates : List Directory → List JsonFile
all_candidates [] = []
all_candidates (d ∷ ds) = candidates d ++ all_candidates ds

abbrev pub noted : Option String → List String → List String
noted none ids = ids
noted (some id) ids = id ∷ ids

-- The loop over the paths.
unfoldable pub sweep :
    (List ℕ → String) → ℕ → ℕ → List JsonFile → List PayloadRow → List String × List PayloadRow
sweep digest grace now [] rows = ([], rows)
sweep digest grace now (p ∷ ps) rows =
    let step = reconcile_candidate digest grace now p rows in
    let rest = sweep digest grace now ps step.1 in (noted step.0 rest.0, rest.1)

-- `reconcile_pending_publications`, for a grace that is not negative
unfoldable pub reconcile_pending_publications :
    (List ℕ → String) → List Directory → ℕ → ℕ → List PayloadRow → List String × List PayloadRow
reconcile_pending_publications digest directories grace now rows =
    sweep digest grace now (all_candidates directories) rows
