-- ===== src/Access/AgentKeys/Scopes.antt =====
-- The scopes of a key are those that were asked for, until it is revoked.
use mathlib.Core.Bool.{false≢true}
use sentinel_grc.Prelude.{
  ℕ, Bool, true, false, ◌&&◌, ◌||◌, not, String, ◌≡◌, refl, sym, ◌∙◌, ap, inl, inr, Option, none,
  some, List, [], ◌∷◌, ◌++◌, arith, ◌==◌, string_eq, eq_iff, beq_refl, contains, any, find,
  Bool-cases, find-append, find-last,
}
use sentinel_grc.Prelude.Text
use sentinel_grc.Prelude.Attempt.{
  Attempt, failed, done, need, need-done, done_inj, >>=-eq-done, attempt_cases,
}
use sentinel_grc.Access.{is_safe_identifier}
use sentinel_grc.Access.AgentKeys.{
  Row, Error, bad_scopes, bad_identifier, key_exists, allowed, inserted, sorted_set, all_allowed,
  is_nil, selected, canonical_scopes, has_id, key_or, register, revoke, is_active, is_authorized,
}

contains-inserted :
    (x s : String) (ys : List String) → contains (inserted x ys) s ≡ x == s || contains ys s
unfolding inserted
contains-inserted x s [] = ground arith
contains-inserted x s (y ∷ ys) = elim (Bool-cases (x == y)) [
  | inl same ↦ rw ((eq_iff x y).0 same, beq_refl y) (ground arith)
  | inr apart ↦ ground (arith, contains-inserted x s ys)
]

contains-sorted_set : (xs : List String) (s : String) → contains (sorted_set xs) s ≡ contains xs s
unfolding sorted_set
contains-sorted_set [] s = refl
contains-sorted_set (x ∷ xs) s =
    contains-inserted x s (sorted_set xs) ∙ ap (λ b. x == s || b) (contains-sorted_set xs s)

-- A call of a method that writes.
pub data Op : Type 0 where
  register_op : String → String → Option String → Option (List String) → ℕ → Op
  revoke_op : String → ℕ → Op

abbrev rows_after : Attempt Error (String × List Row) → List Row → List Row
rows_after (failed x) rows = rows
rows_after (done (id, longer)) rows = longer

abbrev pub perform : Op → List Row → List Row
perform (register_op generated agent key scopes now) rows =
    rows_after (register generated agent key scopes now rows) rows
perform (revoke_op key now) rows = revoke key now rows

-- The table after some calls; a raise ends only its own call.
unfoldable pub run : List Op → List Row → List Row
run [] rows = rows
run (op ∷ ops) rows = run ops (perform op rows)

abbrev pub revokes : String → Op → Bool
revokes key (register_op generated agent k scopes now) = false
revokes key (revoke_op k now) = k == key

-- What the checks of `register` have shown when it returns.
pub register-done :
    (generated agent id : String) (key : Option String) (scopes : Option (List String)) (now : ℕ)
    (rows longer : List Row)
    → register generated agent key scopes now rows ≡ done (id, longer)
    → (any (has_id id) rows ≡ false)
      × (all_allowed (selected scopes) ≡ true)
      × (row : Row) × (longer ≡ rows ++ row ∷ [])
      × (row.key_id ≡ id)
      × (row.is_revoked ≡ false)
      × (row.scopes ≡ selected scopes)
unfolding register canonical_scopes
register-done generated agent id key scopes now rows longer h =
    let (granted, chosen, h1) = >>=-eq-done (canonical_scopes scopes) _ h in
    let (u, fine, h2) =
      >>=-eq-done
        (need (not (is_nil (selected scopes)) && all_allowed (selected scopes)) bad_scopes) _
        chosen in
    let (v, named, h3) =
      >>=-eq-done
        (need (not (Text.is_empty (Text.strip agent)) && is_safe_identifier (key_or generated key))
          bad_identifier)
        _ h1 in
    let (w, fresh, h4) =
      >>=-eq-done (need (not (any (has_id (key_or generated key)) rows)) key_exists) _ h3 in
    let pair = done_inj h4 in
    let id_is : key_or generated key ≡ id = ap (λ (p : String × List Row). p.0) pair in
    let none_yet = need-done _ _ w fresh in
    let fine' = need-done _ _ u fine in
    (
      rw (← id_is) (ground arith),
      ground arith,
      record {
        key_id = key_or generated key;
        agent_id = agent;
        is_revoked = false;
        created_at = now;
        revoked_at = none;
        scopes = granted;
      },
      sym (ap (λ (p : String × List Row). p.1) pair),
      id_is,
      refl,
      sym (done_inj h2),
    )

-- A row of that key that is not revoked, with those scopes.
pub record Stands (key : String) (scopes : List String) (rows : List Row) : Type 0 where
  pub row : Row
  pub found : find (has_id key) rows ≡ some row
  pub live : row.is_revoked ≡ false
  pub granted : row.scopes ≡ scopes

pub find-revoke :
    (key other : String) (now : ℕ) (rows : List Row) (row : Row)
    → (other == key) ≡ false
    → find (has_id key) rows ≡ some row
    → find (has_id key) (revoke other now rows) ≡ some row
unfolding revoke
find-revoke key other now [] row apart f = absurd (cc)
find-revoke key other now (x ∷ xs) row apart f = elim (Bool-cases (has_id key x)) [
  | inl hit ↦
      let other_key : has_id other x ≡ false = elim (Bool-cases (has_id other x)) [
        | inr miss ↦ miss
        | inl same ↦ absurd (false≢true (sym apart ∙ (rw (← (eq_iff x.key_id other).0 same) hit)))
      ] in
      rw (other_key, hit) (rw hit at f)
  | inr miss ↦ ground (arith, find-revoke key other now xs row)
]

perform-Stands :
    (key : String) (scopes : List String) (op : Op) (rows : List Row)
    → revokes key op ≡ false
    → Stands key scopes rows
    → Stands key scopes (perform op rows)
perform-Stands key scopes (register_op g a k sc now) rows kept s =
    elim (attempt_cases (register g a k sc now rows)) [
      | inl (x, e) ↦ rw e s
      | inr ((id, longer), e) ↦
          let (fresh, fine, row, shape, named, live, granted) =
            register-done g a id k sc now rows longer e in
          rw (e, shape)
            (record {
              row = s.row;
              found = find-append (has_id key) rows (row ∷ []) s.row s.found;
              live = s.live;
              granted = s.granted;
            })
    ]
perform-Stands key scopes (revoke_op k now) rows kept s = record {
  row = s.row;
  found = find-revoke key k now rows s.row kept s.found;
  live = s.live;
  granted = s.granted;
}

run-Stands :
    (key : String) (scopes : List String) (ops : List Op) (rows : List Row)
    → any (revokes key) ops ≡ false
    → Stands key scopes rows
    → Stands key scopes (run ops rows)
unfolding run
run-Stands key scopes [] rows kept s = s
run-Stands key scopes (op ∷ ops) rows kept s =
    run-Stands key scopes ops (perform op rows) (ground arith)
      (perform-Stands key scopes op rows (ground arith) s)

allowed-contains :
    (xs : List String) (s : String)
    → all_allowed xs ≡ true
    → contains xs s ≡ true
    → contains allowed s ≡ true
allowed-contains [] s fine there = absurd (false≢true there)
allowed-contains (x ∷ xs) s fine there = elim (Bool-cases (x == s)) [
  | inl same ↦ rw (← (eq_iff x s).0 same) (ground arith)
  | inr apart ↦ allowed-contains xs s (ground arith) (ground arith)
]

-- Once `register` has returned for a list of scopes, and while the key is not revoked, `is_authorized`
-- says yes for exactly the scopes of that list, and `is_active` says yes, whatever other calls follow.
pub registered_key_scopes :
    (generated agent id scope : String) (key : Option String) (scopes : List String) (now : ℕ)
    (ops : List Op) (rows longer : List Row)
    → register generated agent key (some scopes) now rows ≡ done (id, longer)
    → any (revokes id) ops ≡ false
    → (is_authorized id scope (run ops longer) ≡ contains scopes scope)
      × (is_active id (run ops longer) ≡ true)
unfolding is_authorized is_active
registered_key_scopes generated agent id scope key scopes now ops rows longer h kept =
    let (fresh, fine, row, shape, named, live, granted) =
      register-done generated agent id key (some scopes) now rows longer h in
    let stands : Stands id (sorted_set scopes) longer = rw shape (record {
      row = row;
      found = find-last (has_id id) rows row fresh (rw named (beq_refl id));
      live = live;
      granted = granted;
    }) in
    let s = run-Stands id (sorted_set scopes) ops longer kept stands in
    let known = contains-sorted_set scopes scope in
    let within = allowed-contains (sorted_set scopes) scope fine in
    (
      rw (s.found, s.live, s.granted, known)
          (elim (Bool-cases (contains scopes scope)) [
            | inl there ↦ rw (within (known ∙ there), there) refl
            | inr missing ↦ ground arith
          ]),
      rw (s.found, s.live) refl,
    )
