-- ===== src/Exchange/Connectors/Replay.antt =====
-- The identity of an event stays bound to the payload that came first.
use mathlib.Core.Bool.{false≢true}
use sentinel_grc.Prelude.{
  ℕ, Bool, true, false, String, ◌≡◌, refl, sym, ◌∙◌, ap, ◌⊎◌, inl, inr, none, some, List, [], ◌∷◌,
  ◌++◌, arith, ◌==◌, string_eq, eq_iff, beq_refl, leb, length, any, find, Bool-cases, find-append,
  find-last, some_inj,
}
use sentinel_grc.Prelude.Attempt.{Attempt, failed, done, need, done_inj, >>=-eq-done, attempt_cases}
use sentinel_grc.Exchange.Connectors.{
  Row, Error, too_large, bad_signature, Crypto, Request, Reply, validate_identity, is_event,
  replayed, reserve, verify_event_signature, as_object, reply_to, ingest_event,
}

-- A call of the boundary, or of the store alone.
pub data Op : Type 0 where
  ingest_op : Request → ℕ → Op
  reserve_op : String → String → String → ℕ → Op

abbrev rows_after : {A : Type 0} → Attempt Error (A × List Row) → List Row → List Row
rows_after (failed x) rows = rows
rows_after (done r) rows = r.1

abbrev pub perform : Crypto → Op → List Row → List Row
perform c (ingest_op r now) rows = rows_after (ingest_event c r now rows) rows
perform c (reserve_op event_id source h now) rows =
    rows_after (reserve event_id source h now rows) rows

-- The table after some calls; a raise ends only its own call.
unfoldable pub run : Crypto → List Op → List Row → List Row
run c [] rows = rows
run c (op ∷ ops) rows = run c ops (perform c op rows)

-- The event is in the table with that hash.
record IsBound (source event_id h : String) (rows : List Row) : Type 0 where
  row : Row
  found : find (is_event source event_id) rows ≡ some row
  hash_is : row.payload_hash ≡ h

find-any :
    (p : Row → Bool) (rows : List Row) (row : Row) → find p rows ≡ some row → any p rows ≡ true
find-any p [] row f = absurd (cc)
find-any p (x ∷ xs) row f = ground (arith, find-any p xs row)

any-find :
    (p : Row → Bool) (rows : List Row) → any p rows ≡ true → (row : Row) × (find p rows ≡ some row)
any-find p [] there = absurd (false≢true there)
any-find p (x ∷ xs) there = elim (Bool-cases (p x)) [
  | inl hit ↦ (x, rw hit refl)
  | inr miss ↦ let (row, found) = any-find p xs (ground arith) in (row, rw miss found)
]

replayed-done :
    (h : String) (rows rows' : List Row) (row : Row) (b : Bool)
    → replayed h rows (some row) ≡ done (b, rows')
    → (row.payload_hash ≡ h) × (b ≡ false) × (rows' ≡ rows)
replayed-done h rows rows' row b e = elim (Bool-cases (row.payload_hash == h)) [
  | inr other ↦ let bad = rw other at e in absurd (cc)
  | inl same ↦
      let pair = done_inj (rw same at e) in
      (
        (eq_iff row.payload_hash h).0 same,
        sym (ap (λ (p : Bool × List Row). p.0) pair),
        sym (ap (λ (p : Bool × List Row). p.1) pair),
      )
]

-- The two ways in which `reserve` returns.
reserve-done :
    (event_id source h : String) (now : ℕ) (rows longer : List Row) (b : Bool)
    → reserve event_id source h now rows ≡ done (b, longer)
    → ((b ≡ false) × (longer ≡ rows) × IsBound source event_id h rows)
      ⊎ ((b ≡ true)
          × (any (is_event source event_id) rows ≡ false)
          × (longer
              ≡ rows
                ++ record {
                  source = source;
                  event_id = event_id;
                  payload_hash = h;
                  accepted_at = now;
                }
                  ∷ []))
unfolding reserve
reserve-done event_id source h now rows longer b e =
    let (u, fine, e1) = >>=-eq-done (validate_identity event_id source (some h)) _ e in
    elim (Bool-cases (any (is_event source event_id) rows)) [
      | inl there ↦
          let (row, found) = any-find (is_event source event_id) rows there in
          let (same, b_is, rows_are) =
            replayed-done h rows longer row b (rw (there, found) at e1) in
          inl (b_is, rows_are, record { row = row; found = found; hash_is = same })
      | inr fresh ↦
          let pair = done_inj (rw fresh at e1) in
          inr (
            sym (ap (λ (p : Bool × List Row). p.0) pair),
            fresh,
            sym (ap (λ (p : Bool × List Row). p.1) pair),
          )
    ]

ingest_event-done :
    (c : Crypto) (r : Request) (now : ℕ) (rows longer : List Row) (reply : Reply)
    → ingest_event c r now rows ≡ done (reply, longer)
    → (b : Bool) × (reserve r.event_id r.source (c.digest r.raw) now rows ≡ done (b, longer))
      × (reply.is_accepted ≡ b)
      × (reply.payload_hash ≡ c.digest r.raw)
      × (b ≡ false → reply.payload ≡ none)
unfolding ingest_event
ingest_event-done c r now rows longer reply e =
    let (u, named, e1) = >>=-eq-done (validate_identity r.event_id r.source none) _ e in
    let (v, small, e2) = >>=-eq-done (need (leb (length r.raw) r.max_bytes) too_large) _ e1 in
    let (w, signed, e3) =
      >>=-eq-done (need (verify_event_signature c r.raw r.signature r.secret) bad_signature) _ e2 in
    let (p, object, e4) = >>=-eq-done (as_object (c.parse r.raw)) _ e3 in
    let ((b, more), reserved, e5) =
      >>=-eq-done (reserve r.event_id r.source (c.digest r.raw) now rows) _ e4 in
    let pair = done_inj e5 in
    let reply_is : reply_to r (c.digest r.raw) p b ≡ reply =
      ap (λ (q : Reply × List Row). q.0) pair in
    let longer_is : more ≡ longer = ap (λ (q : Reply × List Row). q.1) pair in
    (
      b,
      reserved ∙ ap (λ rows. done (b, rows)) longer_is,
      ap (λ (q : Reply). q.is_accepted) (sym reply_is),
      ap (λ (q : Reply). q.payload_hash) (sym reply_is),
      λ refused. ap (λ (q : Reply). q.payload) (sym reply_is) ∙ rw refused refl,
    )

reserve-IsBound :
    (event_id source h : String) (now : ℕ) (rows longer : List Row) (b : Bool)
    → reserve event_id source h now rows ≡ done (b, longer)
    → IsBound source event_id h longer
reserve-IsBound event_id source h now rows longer b e =
    elim (reserve-done event_id source h now rows longer b e) [
      | inl (old, same, bound) ↦ rw same bound
      | inr (added, fresh, shape) ↦
          let new : Row = record {
            source = source;
            event_id = event_id;
            payload_hash = h;
            accepted_at = now;
          } in
          rw shape (record {
            row = new;
            found =
                find-last (is_event source event_id) rows new fresh
                  (rw (beq_refl source, beq_refl event_id) refl);
            hash_is = refl;
          })
    ]

reserve-keeps :
    (s i g event_id source h : String) (now : ℕ) (rows : List Row)
    → IsBound s i g rows
    → IsBound s i g (rows_after (reserve event_id source h now rows) rows)
reserve-keeps s i g event_id source h now rows k =
    elim (attempt_cases (reserve event_id source h now rows)) [
      | inl (x, e) ↦ rw e k
      | inr ((b, longer), e) ↦ elim (reserve-done event_id source h now rows longer b e) [
        | inl (old, same, bound) ↦ rw (e, same) k
        | inr (added, fresh, shape) ↦
            rw (e, shape)
              (record {
                row = k.row;
                found = find-append (is_event s i) rows _ k.row k.found;
                hash_is = k.hash_is;
              })
      ]
    ]

perform-keeps :
    (c : Crypto) (s i g : String) (op : Op) (rows : List Row)
    → IsBound s i g rows
    → IsBound s i g (perform c op rows)
perform-keeps c s i g (reserve_op event_id source h now) rows k =
    reserve-keeps s i g event_id source h now rows k
perform-keeps c s i g (ingest_op r now) rows k = elim (attempt_cases (ingest_event c r now rows)) [
  | inl (x, e) ↦ rw e k
  | inr ((reply, longer), e) ↦
      let (b, reserved, same, hashed, empty) = ingest_event-done c r now rows longer reply e in
      let kept = reserve-keeps s i g r.event_id r.source (c.digest r.raw) now rows k in
      rw e (rw reserved at kept)
]

run-keeps :
    (c : Crypto) (s i g : String) (ops : List Op) (rows : List Row)
    → IsBound s i g rows
    → IsBound s i g (run c ops rows)
unfolding run
run-keeps c s i g [] rows k = k
run-keeps c s i g (op ∷ ops) rows k =
    run-keeps c s i g ops (perform c op rows) (perform-keeps c s i g op rows k)

-- Once `ingest_event` has returned for an event, then after any later calls, whenever it returns for the
-- same source and identifier, the payload has the same hash, the reply is a duplicate without payload,
-- and the table is as it was.
pub event_accepted_once :
    (c : Crypto) (r again : Request) (now later : ℕ) (ops : List Op) (rows longer final : List Row)
    (reply reply' : Reply)
    → ingest_event c r now rows ≡ done (reply, longer)
    → again.source ≡ r.source
    → again.event_id ≡ r.event_id
    → ingest_event c again later (run c ops longer) ≡ done (reply', final)
    → (c.digest again.raw ≡ c.digest r.raw)
      × (reply'.is_accepted ≡ false)
      × (reply'.payload ≡ none)
      × (final ≡ run c ops longer)
event_accepted_once c r again now later ops rows longer final reply reply' first source_is id_is
      second =
    let (b, reserved, same, hashed, empty) = ingest_event-done c r now rows longer reply first in
    let bound =
      run-keeps c r.source r.event_id (c.digest r.raw) ops longer
        (reserve-IsBound r.event_id r.source (c.digest r.raw) now rows longer b reserved) in
    let (b', reserved', same', hashed', empty') =
      ingest_event-done c again later (run c ops longer) final reply' second in
    elim (reserve-done again.event_id again.source (c.digest again.raw) later (run c ops longer)
      final b' reserved') [
        | inr (added, fresh, shape) ↦ absurd (
            false≢true (
              sym fresh
              ∙ rw (source_is, id_is)
                  (find-any (is_event r.source r.event_id) (run c ops longer) bound.row
                    bound.found)))
        | inl (old, shape, bound') ↦
            let one : bound'.row ≡ bound.row =
              some_inj (sym bound'.found ∙ rw (source_is, id_is) bound.found) in
            (
              sym bound'.hash_is ∙ ap (λ (x : Row). x.payload_hash) one ∙ bound.hash_is,
              same' ∙ old,
              empty' old,
              shape,
            )
      ]
