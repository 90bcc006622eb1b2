-- ===== src/State/Ingestion/Payloads.antt =====
-- The evidence identifier of a payload never changes.
use mathlib.Core.Bool.{false≢true}
use sentinel_grc.Prelude.{
  ℕ, Bool, true, false, String, ◌≡◌, ◌≢◌, refl, sym, ◌∙◌, ap, inl, inr, Option, none, some, List,
  [], ◌∷◌, ◌++◌, arith, string_eq, eq_iff, any, find, update, Bool-cases,
}
use sentinel_grc.State.{Answer, raised, returned, identity_mismatch}
use sentinel_grc.State.Ingestion.{
  PayloadRow, is_payload, has_evidence, is_reserved, inserted, identified, begin_payload,
  commit_payload, remember_payload,
}

-- A call of a method that writes.
pub data Op : Type 0 where
  begin_op : String → String → ℕ → Op
  commit_op : String → String → Op
  remember_op : String → String → ℕ → Op

abbrev table_of : Answer (Bool × List PayloadRow) → List PayloadRow → List PayloadRow
table_of (raised x) rows = rows
table_of (returned r) rows = r.1

abbrev pub perform : Op → List PayloadRow → List PayloadRow
perform (begin_op h e now) rows = table_of (begin_payload h e now rows) rows
perform (commit_op h e) rows = (commit_payload h e rows).1
perform (remember_op h e now) rows = (remember_payload h e now rows).1

-- The table after some calls; a raise ends only its own call.
unfoldable pub run : List Op → List PayloadRow → List PayloadRow
run [] rows = rows
run (op ∷ ops) rows = run ops (perform op rows)

abbrev has_row : String → Option PayloadRow → Bool
has_row e none = false
has_row e (some row) = has_evidence e row

-- The payload stands under the evidence identifier.
abbrev stands : String → String → List PayloadRow → Bool
stands h e rows = has_row e (find (is_payload h) rows)

stands-append :
    (h e : String) (rows : List PayloadRow) (x : PayloadRow)
    → stands h e rows ≡ true
    → stands h e (rows ++ x ∷ []) ≡ true
stands-append h e [] x s = absurd (false≢true s)
stands-append h e (y ∷ ys) x s = ground (arith, stands-append h e ys x)

stands-update :
    (h e h' e' : String) (rows : List PayloadRow)
    → stands h e rows ≡ true
    → stands h e (update (is_reserved h' e') (λ row. record row { is_committed = true }) rows)
      ≡ true
stands-update h e h' e' [] s = s
stands-update h e h' e' (y ∷ ys) s = ground (arith, stands-update h e h' e' ys)

stands-inserted :
    (h e : String) (row : PayloadRow) (rows : List PayloadRow)
    → stands h e rows ≡ true
    → stands h e (inserted row rows).1 ≡ true
stands-inserted h e row rows s = elim (Bool-cases (any (is_payload row.payload_hash) rows)) [
  | inl there ↦ rw there s
  | inr absent ↦ rw absent (stands-append h e rows row s)
]

stands-identified :
    (h e e' : String) (o : Option PayloadRow) (r : Bool × List PayloadRow) (rows : List PayloadRow)
    → stands h e rows ≡ true
    → stands h e r.1 ≡ true
    → stands h e (table_of (identified e' o r) rows) ≡ true
stands-identified h e e' none r rows s t = s
stands-identified h e e' (some row) r rows s t = elim (Bool-cases (has_evidence e' row)) [
  | inl same ↦ rw same t
  | inr other ↦ rw other s
]

perform-stands :
    (h e : String) (op : Op) (rows : List PayloadRow)
    → stands h e rows ≡ true
    → stands h e (perform op rows) ≡ true
unfolding begin_payload commit_payload remember_payload
perform-stands h e (begin_op h' e' now) rows s =
    stands-identified h e e' _ _ rows s (stands-inserted h e _ rows s)
perform-stands h e (commit_op h' e') rows s = stands-update h e h' e' rows s
perform-stands h e (remember_op h' e' now) rows s = stands-inserted h e _ rows s

run-stands :
    (h e : String) (ops : List Op) (rows : List PayloadRow)
    → stands h e rows ≡ true
    → stands h e (run ops rows) ≡ true
unfolding run
run-stands h e [] rows s = s
run-stands h e (op ∷ ops) rows s =
    run-stands h e ops (perform op rows) (perform-stands h e op rows s)

identified-stands :
    (e : String) (o : Option PayloadRow) (r r' : Bool × List PayloadRow)
    → identified e o r ≡ returned r'
    → (r ≡ r') × (has_row e o ≡ true)
identified-stands e none r r' h = absurd (cc)
identified-stands e (some row) r r' h = elim (Bool-cases (has_evidence e row)) [
  | inl same ↦ (cc (rw same at h), same)
  | inr other ↦ absurd (cc (rw other at h))
]

begun-stands :
    (h e : String) (now : ℕ) (rows rows' : List PayloadRow) (b : Bool)
    → begin_payload h e now rows ≡ returned (b, rows')
    → stands h e rows' ≡ true
unfolding begin_payload
begun-stands h e now rows rows' b q =
    let (same, has_) = identified-stands e _ _ (b, rows') q in
    rw (sym (ap (λ (r : Bool × List PayloadRow). r.1) same)) has_

stands-any :
    (h e : String) (rows : List PayloadRow)
    → stands h e rows ≡ true
    → any (is_payload h) rows ≡ true
stands-any h e [] s = s
stands-any h e (x ∷ xs) s = ground (arith, stands-any h e xs)

has_row-other :
    (e e' : String) (o : Option PayloadRow) (r : Bool × List PayloadRow)
    → has_row e o ≡ true
    → e ≢ e'
    → identified e' o r ≡ raised identity_mismatch
has_row-other e e' none r s apart = absurd (false≢true s)
has_row-other e e' (some row) r s apart = elim (Bool-cases (has_evidence e' row)) [
  | inl same ↦
      absurd (apart (sym ((eq_iff row.evidence_id e).0 s) ∙ (eq_iff row.evidence_id e').0 same))
  | inr other ↦ rw other refl
]

-- Once a payload is reserved under an evidence identifier, whatever reservations and commits follow, its
-- reservation under another identifier raises.
pub payload_bound :
    (h e e' : String) (now later : ℕ) (ops : List Op) (rows rows' : List PayloadRow) (b : Bool)
    → begin_payload h e now rows ≡ returned (b, rows')
    → e ≢ e'
    → begin_payload h e' later (run ops rows') ≡ raised identity_mismatch
unfolding begin_payload
payload_bound h e e' now later ops rows rows' b q apart =
    let s = run-stands h e ops rows' (begun-stands h e now rows rows' b q) in
    let there = stands-any h e (run ops rows') s in
    rw there (has_row-other e e' (find (is_payload h) (run ops rows')) _ s apart)
