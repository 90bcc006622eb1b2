-- ===== src/Access/AgentKeys/Revocation.antt =====
-- A revoked agent key has no scope and no secret.
use mathlib.Core.Bool.{false≢true}
use sentinel_grc.Prelude.{
  ℕ, true, false, String, ◌≡◌, refl, inl, inr, none, some, List, [], ◌∷◌, arith, ◌==◌, string_eq,
  eq_iff, any, find, Bool-cases, find-append, some_inj,
}
use sentinel_grc.Prelude.Attempt.{attempt_cases}
use sentinel_grc.Access.AgentKeys.{
  Row, has_id, register, revoke, is_authorized, is_active, resolve_secret,
}
use sentinel_grc.Access.AgentKeys.Scopes.{
  Op, register_op, revoke_op, perform, run, register-done, find-revoke,
}

record IsRevoked (key : String) (rows : List Row) : Type 0 where
  row : Row
  found : find (has_id key) rows ≡ some row
  dead : row.is_revoked ≡ true

abbrev revoked_at_ : ℕ → Row → Row
revoked_at_ now row = record row { is_revoked = true; revoked_at = some now }

find-revoke_same :
    (key : String) (now : ℕ) (rows : List Row) (row : Row)
    → find (has_id key) rows ≡ some row
    → find (has_id key) (revoke key now rows) ≡ some (revoked_at_ now row)
unfolding revoke
find-revoke_same key now [] row f = absurd (cc)
find-revoke_same key now (x ∷ xs) row f = elim (Bool-cases (has_id key x)) [
  | inl hit ↦ rw (hit, hit, some_inj (rw hit at f)) refl
  | inr miss ↦ rw (miss, miss) (find-revoke_same key now xs row (rw miss at f))
]

any-find :
    (key : String) (rows : List Row)
    → any (has_id key) rows ≡ true
    → (row : Row) × (find (has_id key) rows ≡ some row)
any-find key [] there = absurd (false≢true there)
any-find key (x ∷ xs) there = elim (Bool-cases (has_id key x)) [
  | inl hit ↦ (x, rw hit refl)
  | inr miss ↦ let (row, found) = any-find key xs (ground arith) in (row, rw miss found)
]

perform-IsRevoked :
    (key : String) (op : Op) (rows : List Row)
    → IsRevoked key rows
    → IsRevoked key (perform op rows)
perform-IsRevoked key (register_op g a k sc now) rows r =
    elim (attempt_cases (register g a k sc now rows)) [
      | inl (x, e) ↦ rw e r
      | inr ((id, longer), e) ↦
          let (fresh, fine, row, shape, named, live, granted) =
            register-done g a id k sc now rows longer e in
          rw (e, shape)
            (record {
              row = r.row;
              found = find-append (has_id key) rows (row ∷ []) r.row r.found;
              dead = r.dead;
            })
    ]
perform-IsRevoked key (revoke_op k now) rows r = elim (Bool-cases (k == key)) [
  | inl same ↦ rw ((eq_iff k key).0 same) (record {
    row = revoked_at_ now r.row;
    found = find-revoke_same key now rows r.row r.found;
    dead = refl;
  })
  | inr apart ↦ record {
    row = r.row;
    found = find-revoke key k now rows r.row apart r.found;
    dead = r.dead;
  }
]

run-IsRevoked :
    (key : String) (ops : List Op) (rows : List Row)
    → IsRevoked key rows
    → IsRevoked key (run ops rows)
unfolding run
run-IsRevoked key [] rows r = r
run-IsRevoked key (op ∷ ops) rows r =
    run-IsRevoked key ops (perform op rows) (perform-IsRevoked key op rows r)

-- Once a key that is registered is revoked, whatever calls follow, `is_authorized` says no for every
-- scope, `is_active` says no, and `resolve_secret` gives no secret.
pub revoked_agent_key_never :
    (key scope : String) (secrets_ : List (String × String)) (now : ℕ) (ops : List Op)
    (rows : List Row)
    → any (has_id key) rows ≡ true
    → (is_authorized key scope (run ops (revoke key now rows)) ≡ false)
      × (is_active key (run ops (revoke key now rows)) ≡ false)
      × (resolve_secret key secrets_ (run ops (revoke key now rows)) ≡ none)
unfolding is_authorized is_active resolve_secret
revoked_agent_key_never key scope secrets_ now ops rows there =
    let (row, found) = any-find key rows there in
    let r = run-IsRevoked key ops (revoke key now rows) (record {
      row = revoked_at_ now row;
      found = find-revoke_same key now rows row found;
      dead = refl;
    }) in
    (rw (r.found, r.dead) (ground arith), rw (r.found, r.dead) refl, rw (r.found, r.dead) refl)
