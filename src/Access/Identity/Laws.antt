-- ===== src/Access/Identity/Laws.antt =====
-- Keys that stand, and keys that are gone: what every call of the store keeps.
use mathlib.Core.Bool.{false≢true}
use sentinel_grc.Prelude.{
  Bool, true, false, ◌&&◌, not, String, ◌≡◌, refl, sym, ◌∙◌, ap, inl, inr, none, some, List, [],
  ◌∷◌, ◌++◌, arith, ◌==◌, string_eq, eq_iff, is_none, any, find, update, Bool-cases, find-append,
  any-snoc, some_inj,
}
use sentinel_grc.Prelude.Attempt.{
  Attempt, failed, done, need, need-done, done_inj, >>=-eq-done, attempt_cases,
}
use sentinel_grc.Governance.Validate.{role_of}
use sentinel_grc.Access.{is_safe_identifier}
use sentinel_grc.Access.Identity.{
  User, Key, Db, Error, bad_user, user_exists, bad_key_id, no_active_user, key_exists, is_user,
  is_key, create_user, is_active_row, new_key, issue_api_key, revoked, revoke_key, is_active_user,
  join,
}

-- A call of a method that writes.
pub data Op : Type 0 where
  create_op : String → String → Op
  issue_op : String → String → String → Op
  revoke_op : String → Op

abbrev db_after : Attempt Error Db → Db → Db
db_after (failed x) db = db
db_after (done longer) db = longer

abbrev issued_db : Attempt Error (String × Db) → Db → Db
issued_db (failed x) db = db
issued_db (done (s, longer)) db = longer

abbrev pub perform : (String → String) → Op → Db → Db
perform hash (create_op id role) db = db_after (create_user id role db) db
perform hash (issue_op secret id key) db = issued_db (issue_api_key hash secret id key db) db
perform hash (revoke_op key) db = revoke_key key db

-- The tables after some calls; a raise ends only its own call.
unfoldable pub run : (String → String) → List Op → Db → Db
run hash [] db = db
run hash (op ∷ ops) db = run hash ops (perform hash op db)

abbrev pub user_of : String → String → User
user_of id role = record { user_id = id; role = role; active = true }

-- The key belongs to the active user, with that hash.
pub record Stands (key id role h : String) (db : Db) : Type 0 where
  pub key_row : find (is_key key) db.keys ≡ some (new_key key id h)
  pub user_row : find (is_active_user id) db.users ≡ some (user_of id role)

-- The key is in the table, and no row with its name is active.
abbrev is_live : String → Key → Bool
is_live key k = is_key key k && k.active

pub record IsGone (key : String) (db : Db) : Type 0 where
  pub present : any (is_key key) db.keys ≡ true
  pub dead : any (is_live key) db.keys ≡ false

find-revoked :
    (key other : String) (ks : List Key) (k : Key)
    → (other == key) ≡ false
    → find (is_key key) ks ≡ some k
    → find (is_key key) (update (is_key other) revoked ks) ≡ some k
find-revoked key other [] k apart h = absurd (cc)
find-revoked key other (x ∷ xs) k apart h = elim (Bool-cases (is_key key x)) [
  | inl hit ↦
      let other_key : is_key other x ≡ false = elim (Bool-cases (is_key other x)) [
        | inr miss ↦ miss
        | inl same ↦ absurd (false≢true (sym apart ∙ (rw (← (eq_iff x.key_id other).0 same) hit)))
      ] in
      rw (other_key, hit) (rw hit at h)
  | inr miss ↦ ground (arith, find-revoked key other xs k)
]

pub any-revoked :
    (key other : String) (ks : List Key)
    → any (is_key key) (update (is_key other) revoked ks) ≡ any (is_key key) ks
any-revoked key other [] = refl
any-revoked key other (x ∷ xs) = ground (arith, any-revoked key other xs)

pub dead-revoked :
    (key other : String) (ks : List Key)
    → any (is_live key) ks ≡ false
    → any (is_live key) (update (is_key other) revoked ks) ≡ false
dead-revoked key other [] h = refl
dead-revoked key other (x ∷ xs) h = ground (arith, dead-revoked key other xs)

pub revoked-dead :
    (key : String) (ks : List Key) → any (is_live key) (update (is_key key) revoked ks) ≡ false
revoked-dead key [] = refl
revoked-dead key (x ∷ xs) = ground (arith, revoked-dead key xs)

pub join-dead :
    (key : String) (users : List User) (ks : List Key)
    → any (is_live key) ks ≡ false
    → join key users ks ≡ none
unfolding join
join-dead key users [] h = refl
join-dead key users (k ∷ ks) h = ground (arith, join-dead key users ks)

pub join-Stands :
    (key id role h : String) (users : List User) (ks : List Key)
    → find (is_key key) ks ≡ some (new_key key id h)
    → find (is_active_user id) users ≡ some (user_of id role)
    → join key users ks ≡ some (user_of id role, new_key key id h)
unfolding join
join-Stands key id role h users [] f u = absurd (cc)
join-Stands key id role h users (k ∷ ks) f u = elim (Bool-cases (is_key key k)) [
  | inl hit ↦ let k_is = some_inj (rw hit at f) in rw (hit, k_is, u) refl
  | inr miss ↦ rw miss (join-Stands key id role h users ks (rw miss at f) u)
]

-- What the checks of a call have shown when it returns.
pub create_user-done :
    (id role : String) (db longer : Db)
    → create_user id role db ≡ done longer
    → (is_safe_identifier id && not (is_none (role_of role)) ≡ true)
      × (longer ≡ record db { users = db.users ++ user_of id role ∷ [] })
unfolding create_user
create_user-done id role db longer h =
    let (u, good, h1) =
      >>=-eq-done (need (is_safe_identifier id && not (is_none (role_of role))) bad_user) _ h in
    let (v, fresh, h2) = >>=-eq-done (need (not (any (is_user id) db.users)) user_exists) _ h1 in
    (need-done _ _ u good, sym (done_inj h2))

pub issue_api_key-done :
    (hash : String → String) (secret id key s : String) (db longer : Db)
    → issue_api_key hash secret id key db ≡ done (s, longer)
    → (s ≡ secret)
      × (is_active_row (find (is_user id) db.users) ≡ true)
      × (any (is_key key) db.keys ≡ false)
      × (longer ≡ record db { keys = db.keys ++ new_key key id (hash secret) ∷ [] })
unfolding issue_api_key
issue_api_key-done hash secret id key s db longer h =
    let (u, good, h1) = >>=-eq-done (need (is_safe_identifier key) bad_key_id) _ h in
    let (v, active, h2) =
      >>=-eq-done (need (is_active_row (find (is_user id) db.users)) no_active_user) _ h1 in
    let (w, fresh, h3) = >>=-eq-done (need (not (any (is_key key) db.keys)) key_exists) _ h2 in
    let none_yet = need-done _ _ w fresh in
    let pair = done_inj h3 in
    (
      sym (ap (λ (p : String × Db). p.0) pair),
      need-done _ _ v active,
      ground arith,
      sym (ap (λ (p : String × Db). p.1) pair),
    )

abbrev pub revokes : String → Op → Bool
revokes key (create_op id role) = false
revokes key (issue_op secret id k) = false
revokes key (revoke_op k) = k == key

perform-Stands :
    (hash : String → String) (key id role h : String) (op : Op) (db : Db)
    → revokes key op ≡ false
    → Stands key id role h db
    → Stands key id role h (perform hash op db)
unfolding revoke_key
perform-Stands hash key id role h (create_op i r) db apart s =
    elim (attempt_cases (create_user i r db)) [
      | inl (x, e) ↦ rw e s
      | inr (longer, e) ↦
          rw (e, (create_user-done i r db longer e).1)
            (record {
              key_row = s.key_row;
              user_row = find-append (is_active_user id) db.users _ _ s.user_row;
            })
    ]
perform-Stands hash key id role h (issue_op secret i k) db apart s =
    elim (attempt_cases (issue_api_key hash secret i k db)) [
      | inl (x, e) ↦ rw e s
      | inr ((t, longer), e) ↦
          let (same, active, fresh, shape) = issue_api_key-done hash secret i k t db longer e in
          rw (e, shape)
            (record {
              key_row = find-append (is_key key) db.keys _ _ s.key_row;
              user_row = s.user_row;
            })
    ]
perform-Stands hash key id role h (revoke_op k) db apart s = record {
  key_row = find-revoked key k db.keys _ apart s.key_row;
  user_row = s.user_row;
}

pub run-Stands :
    (hash : String → String) (key id role h : String) (ops : List Op) (db : Db)
    → any (revokes key) ops ≡ false
    → Stands key id role h db
    → Stands key id role h (run hash ops db)
unfolding run
run-Stands hash key id role h [] db apart s = s
run-Stands hash key id role h (op ∷ ops) db apart s =
    run-Stands hash key id role h ops (perform hash op db) (ground arith)
      (perform-Stands hash key id role h op db (ground arith) s)

perform-IsGone :
    (hash : String → String) (key : String) (op : Op) (db : Db)
    → IsGone key db
    → IsGone key (perform hash op db)
unfolding revoke_key
perform-IsGone hash key (create_op i r) db g = elim (attempt_cases (create_user i r db)) [
  | inl (x, e) ↦ rw e g
  | inr (longer, e) ↦
      rw (e, (create_user-done i r db longer e).1) (record { present = g.present; dead = g.dead })
]
perform-IsGone hash key (issue_op secret i k) db g =
    elim (attempt_cases (issue_api_key hash secret i k db)) [
      | inl (x, e) ↦ rw e g
      | inr ((t, longer), e) ↦
          let (same, active, fresh, shape) = issue_api_key-done hash secret i k t db longer e in
          let other : is_key key (new_key k i (hash secret)) ≡ false =
            elim (Bool-cases (k == key)) [
              | inr miss ↦ miss
              | inl hit ↦ absurd (false≢true (sym fresh ∙ rw ((eq_iff k key).0 hit) g.present))
            ] in
          rw (e, shape)
            (record {
              present =
                  any-snoc (is_key key) db.keys (new_key k i (hash secret)) ∙ rw g.present refl;
              dead =
                  any-snoc (is_live key) db.keys (new_key k i (hash secret))
                  ∙ rw (g.dead, other) refl;
            })
    ]
perform-IsGone hash key (revoke_op k) db g = record {
  present = any-revoked key k db.keys ∙ g.present;
  dead = dead-revoked key k db.keys g.dead;
}

pub run-IsGone :
    (hash : String → String) (key : String) (ops : List Op) (db : Db)
    → IsGone key db
    → IsGone key (run hash ops db)
unfolding run
run-IsGone hash key [] db g = g
run-IsGone hash key (op ∷ ops) db g =
    run-IsGone hash key ops (perform hash op db) (perform-IsGone hash key op db g)
