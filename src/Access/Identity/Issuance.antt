-- ===== src/Access/Identity/Issuance.antt =====
-- An issued key authenticates its user until it is revoked.
use mathlib.Core.Bool.{false≢true}
use Prim.Native.Char.{code}
use sentinel_grc.Prelude.{
  ℕ, Bool, true, false, ◌&&◌, not, String, ◌≡◌, refl, sym, ◌∙◌, ap, inl, inr, some, List, [], ◌∷◌,
  ◌++◌, arith, string_eq, eq_iff, beq_refl, is_none, any, find, Bool-cases, Option-cases, find-last,
  some_inj, All,
}
use sentinel_grc.Prelude.Text
use sentinel_grc.Prelude.Attempt.{done, attempt_cases}
use sentinel_grc.Governance.Rows.{Actor}
use sentinel_grc.Governance.Exec
use sentinel_grc.Governance.Validate.{role_of, make_actor, is_blank}
use sentinel_grc.Access.{is_safe_identifier, all_safe, is_safe}
use sentinel_grc.Access.Identity.{
  User, Db, is_user, is_key, create_user, new_key, issue_api_key, revoke_key, is_active_user,
  authenticate,
}
use sentinel_grc.Access.Identity.Laws.{
  Op, create_op, issue_op, revoke_op, perform, run, user_of, Stands, join-Stands, create_user-done,
  issue_api_key-done, revokes, run-Stands,
}
use sentinel_grc.Access.Identity.History.{empty_db, make_actor-id}

-- A row of `users` that `ActorContext` accepts.
abbrev is_valid_user : User → Bool
is_valid_user u = u.active && (not (is_blank u.user_id) && not (is_none (role_of u.role)))

is_safe-is_space : (n : ℕ) → is_safe n ≡ true → Text.is_space n ≡ false
unfolding Text.is_space
is_safe-is_space n h = ground arith

not_blank : (s : String) → is_safe_identifier s ≡ true → is_blank s ≡ false
unfolding is_blank is_safe_identifier Text.strip Text.lstrip Text.rstrip all_safe
not_blank String.[] h = absurd (false≢true h)
not_blank (String.◌∷◌ c s) h =
    let visible : Text.is_space (code c) ≡ false = is_safe-is_space (code c) (ground arith) in
    rw (visible, visible) refl

find-All :
    (p q : User → Bool) (us : List User) (u : User)
    → All (λ u. q u ≡ true) us
    → find p us ≡ some u
    → (q u ≡ true) × (p u ≡ true)
find-All p q [] u all f = absurd (cc)
find-All p q (x ∷ xs) u (first, all) f = elim (Bool-cases (p x)) [
  | inl hit ↦ rw (← some_inj (rw hit at f)) (first, hit)
  | inr miss ↦ find-All p q xs u all (rw miss at f)
]

All-snoc :
    (q : User → Bool) (us : List User) (u : User)
    → All (λ u. q u ≡ true) us
    → q u ≡ true
    → All (λ u. q u ≡ true) (us ++ u ∷ [])
All-snoc q [] u all h = (h, tt)
All-snoc q (x ∷ xs) u (first, all) h = (first, All-snoc q xs u all h)

find-active :
    (id : String) (us : List User) (u : User)
    → find (is_user id) us ≡ some u
    → u.active ≡ true
    → find (is_active_user id) us ≡ some u
find-active id [] u f a = absurd (cc)
find-active id (x ∷ xs) u f a = elim (Bool-cases (is_user id x)) [
  | inl hit ↦ let x_is = some_inj (rw hit at f) in rw (hit, x_is, a) refl
  | inr miss ↦ rw miss (find-active id xs u (rw miss at f) a)
]

method_named : is_blank "api_key" ≡ false
unfolding is_blank Text.strip
method_named = refl

make_actor-valid :
    (u : User)
    → is_valid_user u ≡ true
    → (a : Actor) × (make_actor u.user_id u.role "api_key" ≡ Exec.ok a)
unfolding make_actor
make_actor-valid u h = elim (Option-cases (role_of u.role)) [
  | inl missing ↦ absurd (false≢true (ground arith))
  | inr (r, known) ↦
      let named : is_blank u.user_id ≡ false = ground arith in
      (
        record { actor_id = u.user_id; role = r; auth_method = "api_key" },
        rw (named, known, method_named) refl,
      )
]

abbrev AllValid : List User → Type 0
AllValid us = All (λ u. is_valid_user u ≡ true) us

run-AllValid :
    (hash : String → String) (ops : List Op) (db : Db)
    → AllValid db.users
    → AllValid (run hash ops db).users
unfolding run revoke_key
run-AllValid hash [] db v = v
run-AllValid hash (create_op i r ∷ ops) db v =
    run-AllValid hash ops (perform hash (create_op i r) db)
      (elim (attempt_cases (create_user i r db)) [
        | inl (x, e) ↦ rw e v
        | inr (longer, e) ↦
            let (good, shape) = create_user-done i r db longer e in
            let named = not_blank i (ground arith) in
            rw (e, shape) (All-snoc is_valid_user db.users (user_of i r) v (ground arith))
      ])
run-AllValid hash (issue_op s i k ∷ ops) db v =
    run-AllValid hash ops (perform hash (issue_op s i k) db)
      (elim (attempt_cases (issue_api_key hash s i k db)) [
        | inl (x, e) ↦ rw e v
        | inr ((t, longer), e) ↦
            let (same, active, fresh, shape) = issue_api_key-done hash s i k t db longer e in
            rw (e, shape) v
      ])
run-AllValid hash (revoke_op k ∷ ops) db v = run-AllValid hash ops (revoke_key k db) v

user_is : (u : User) (id : String) → u.user_id ≡ id → u.active ≡ true → u ≡ user_of id u.role
user_is u id named active = cc

-- In any history that begins with no users and no keys, a secret that `issue_api_key` has returned
-- authenticates with its key as its user, after any later calls that do not revoke the key.
pub issued_key_authenticates :
    (hash : String → String) (before later : List Op) (secret id key s : String) (db : Db)
    → issue_api_key hash secret id key (run hash before empty_db) ≡ done (s, db)
    → any (revokes key) later ≡ false
    → (a : Actor) × (authenticate hash key s (run hash later db) ≡ done a) × (a.actor_id ≡ id)
unfolding authenticate
issued_key_authenticates hash before later secret id key s db issued kept =
    let old = run hash before empty_db in
    let (same, active, fresh, shape) = issue_api_key-done hash secret id key s old db issued in
    elim (Option-cases (find (is_user id) old.users)) [
      | inl missing ↦ absurd (false≢true (rw missing at active))
      | inr (u, found) ↦
          let (valid, named) =
            find-All (is_user id) is_valid_user old.users u (run-AllValid hash before empty_db tt)
              found in
          let u_active : u.active ≡ true = ground arith in
          let u_id : u.user_id ≡ id = (eq_iff u.user_id id).0 named in
          let u_is : u ≡ user_of id u.role = user_is u id u_id u_active in
          let stands : Stands key id u.role (hash secret) db = rw shape (record {
            key_row =
                find-last (is_key key) old.keys (new_key key id (hash secret)) fresh (beq_refl key);
            user_row = find-active id old.users u found u_active ∙ ap some u_is;
          }) in
          let at_end = run-Stands hash key id u.role (hash secret) later db kept stands in
          let (a, made) = make_actor-valid u valid in
          let joined =
            join-Stands key id u.role (hash secret) (run hash later db).users
              (run hash later db).keys at_end.key_row at_end.user_row in
          let made_id : make_actor id u.role "api_key" ≡ Exec.ok a =
            ap (λ i. make_actor i u.role "api_key") (sym u_id) ∙ made in
          (
            a,
            rw (joined, same, beq_refl (hash secret), made_id) refl,
            make_actor-id id u.role "api_key" a made_id,
          )
    ]
