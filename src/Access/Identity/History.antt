-- ===== src/Access/Identity/History.antt =====
-- Who authenticates after any calls of the store.
use sentinel_grc.Prelude.{
  Bool, true, false, ◌&&◌, ◌||◌, not, String, ◌≡◌, refl, sym, ◌∙◌, ap, inl, inr, some, List, [],
  ◌∷◌, arith, ◌==◌, string_eq, eq_iff, beq_refl, any, find, update, Bool-cases, Option-cases,
  any-snoc, some_inj,
}
use sentinel_grc.Prelude.Attempt.{failed, done, need, need-done, >>=-eq-done, attempt_cases}
use sentinel_grc.Governance.Rows.{Actor}
use sentinel_grc.Governance.Exec
use sentinel_grc.Governance.Validate.{role_of, make_actor, is_blank}
use sentinel_grc.Access.Identity.{
  User, Key, Db, not_authenticated, is_key, create_user, new_key, issue_api_key, revoked,
  revoke_key, is_active_user, join, of_context, authenticate,
}
use sentinel_grc.Access.Identity.Laws.{
  Op, create_op, issue_op, revoke_op, perform, run, IsGone, any-revoked, revoked-dead, join-dead,
  create_user-done, issue_api_key-done, run-IsGone,
}

abbrev pub empty_db : Db
empty_db = record { users = []; keys = [] }

-- Once a key that exists is revoked, no secret authenticates with it, whatever calls follow.
pub revoked_key_never :
    (hash : String → String) (key secret : String) (ops : List Op) (db : Db)
    → any (is_key key) db.keys ≡ true
    → authenticate hash key secret (run hash ops (revoke_key key db)) ≡ failed not_authenticated
unfolding authenticate revoke_key
revoked_key_never hash key secret ops db there =
    let gone : IsGone key (revoke_key key db) = record {
      present = any-revoked key key db.keys ∙ there;
      dead = revoked-dead key db.keys;
    } in
    let after_ = run-IsGone hash key ops (revoke_key key db) gone in
    rw
      (join-dead key (run hash ops (revoke_key key db)).users
        (run hash ops (revoke_key key db)).keys after_.dead)
      refl

-- A row of `user_api_keys` with that key, user and hash.
abbrev is_row : String → String → String → Key → Bool
is_row key id h k = is_key key k && (k.user_id == id && k.secret_hash == h)

-- A call that issues such a row.
abbrev pub issues : (String → String) → String → String → String → Op → Bool
issues hash key id h (create_op i r) = false
issues hash key id h (issue_op secret i k) = is_row key id h (new_key k i (hash secret))
issues hash key id h (revoke_op k) = false

row-revoked :
    (key id h other : String) (ks : List Key)
    → any (is_row key id h) (update (is_key other) revoked ks) ≡ any (is_row key id h) ks
row-revoked key id h other [] = refl
row-revoked key id h other (x ∷ xs) = ground (arith, row-revoked key id h other xs)

perform-row :
    (hash : String → String) (key id h : String) (op : Op) (db : Db)
    → any (is_row key id h) (perform hash op db).keys ≡ true
    → any (is_row key id h) db.keys || issues hash key id h op ≡ true
unfolding revoke_key
perform-row hash key id h (create_op i r) db there = elim (attempt_cases (create_user i r db)) [
  | inl (x, e) ↦ let t = rw e at there in ground arith
  | inr (longer, e) ↦ let t = rw (e, (create_user-done i r db longer e).1) at there in ground arith
]
perform-row hash key id h (issue_op secret i k) db there =
    elim (attempt_cases (issue_api_key hash secret i k db)) [
      | inl (x, e) ↦ let t = rw e at there in ground arith
      | inr ((s, longer), e) ↦
          let (same, active, fresh, shape) = issue_api_key-done hash secret i k s db longer e in
          let t = rw (e, shape) at there in
          sym (any-snoc (is_row key id h) db.keys (new_key k i (hash secret))) ∙ t
    ]
perform-row hash key id h (revoke_op k) db there =
    let t = sym (row-revoked key id h k db.keys) ∙ there in ground arith

run-row :
    (hash : String → String) (key id h : String) (ops : List Op) (db : Db)
    → any (is_row key id h) (run hash ops db).keys ≡ true
    → any (is_row key id h) db.keys || any (issues hash key id h) ops ≡ true
unfolding run
run-row hash key id h [] db there = ground arith
run-row hash key id h (op ∷ ops) db there =
    let later = run-row hash key id h ops (perform hash op db) there in
    elim (Bool-cases (any (is_row key id h) (perform hash op db).keys)) [
      | inl now ↦ let e = perform-row hash key id h op db now in ground arith
      | inr not_yet ↦ ground arith
    ]

find_active-id :
    (id : String) (us : List User) (u : User)
    → find (is_active_user id) us ≡ some u
    → u.user_id ≡ id
find_active-id id [] u f = absurd (cc)
find_active-id id (x ∷ xs) u f = elim (Bool-cases (is_active_user id x)) [
  | inl hit ↦ rw (← some_inj (rw hit at f)) ((eq_iff x.user_id id).0 (ground arith))
  | inr miss ↦ find_active-id id xs u (rw miss at f)
]

join-row :
    (key h : String) (us : List User) (ks : List Key) (u : User) (k : Key)
    → join key us ks ≡ some (u, k)
    → k.secret_hash == h ≡ true
    → any (is_row key u.user_id h) ks ≡ true
unfolding join
join-row key h us [] u k j s = absurd (cc)
join-row key h us (x ∷ xs) u k j s = elim (Bool-cases (is_key key x && x.active)) [
  | inr miss ↦ let rest = join-row key h us xs u k (rw miss at j) s in ground arith
  | inl hit ↦ elim (Option-cases (find (is_active_user x.user_id) us)) [
    | inl missing ↦ let rest = join-row key h us xs u k (rw (hit, missing) at j) s in ground arith
    | inr (v, found) ↦
        let pair = some_inj (rw (hit, found) at j) in
        let x_is : x ≡ k = ap (λ (p : User × Key). p.1) pair in
        let v_is : v ≡ u = ap (λ (p : User × Key). p.0) pair in
        let user : x.user_id ≡ u.user_id =
          sym (find_active-id x.user_id us v found) ∙ ap (λ (w : User). w.user_id) v_is in
        let hashed : x.secret_hash == h ≡ true = rw x_is s in
        let owner : x.user_id == u.user_id ≡ true = rw user (beq_refl u.user_id) in ground arith
  ]
]

of_context-id : (r : Exec.Result Actor) (a : Actor) → of_context r ≡ done a → r ≡ Exec.ok a
of_context-id (Exec.ok b) a h = cc
of_context-id (Exec.err x) a h = absurd (cc)

ok_inj : {a b : Actor} → ◌≡◌ {A = Exec.Result Actor} (Exec.ok a) (Exec.ok b) → a ≡ b
ok_inj h = cc

pub make_actor-id :
    (id role method : String) (a : Actor) → make_actor id role method ≡ Exec.ok a → a.actor_id ≡ id
unfolding make_actor
make_actor-id id role method a h =
    let (x, named, h1) =
      Exec.>>=-eq-ok (Exec.check (not (is_blank id)) Exec.actor_id_required) _ h in
    let (r, known, h2) = Exec.>>=-eq-ok (Exec.or_raise (role_of role) Exec.role_unsupported) _ h1 in
    let (y, by, h3) =
      Exec.>>=-eq-ok (Exec.check (not (is_blank method)) Exec.auth_method_required) _ h2 in
    ap (λ (b : Actor). b.actor_id) (sym (ok_inj h3))

-- Whoever authenticates after a history that begins with no users and no keys presents a key that
-- `issue_api_key` was called for, for the user of that name, with a secret of the same hash.
pub authenticate_genuine :
    (hash : String → String) (key secret : String) (ops : List Op) (a : Actor)
    → authenticate hash key secret (run hash ops empty_db) ≡ done a
    → any (issues hash key a.actor_id (hash secret)) ops ≡ true
unfolding authenticate
authenticate_genuine hash key secret ops a h =
    let db = run hash ops empty_db in
    elim (Option-cases (join key db.users db.keys)) [
      | inl missing ↦ let bad = rw missing at h in absurd (cc)
      | inr ((u, k), found) ↦
          let (x, same, made) =
            >>=-eq-done (need (k.secret_hash == hash secret) not_authenticated) _ (rw found at h) in
          let id = make_actor-id u.user_id u.role "api_key" a (of_context-id _ a made) in
          let hashed : k.secret_hash == hash secret ≡ true = need-done _ _ x same in
          rw id (
            run-row hash key u.user_id (hash secret) ops empty_db
              (join-row key (hash secret) db.users db.keys u k found hashed))
    ]
