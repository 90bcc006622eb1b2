-- ===== src/State/Ingestion/Once.antt =====
-- A nonce is accepted once while it lives; a payload keeps its identity; a run is claimed once.
use mathlib.Core.Bool.{false≢true}
use sentinel_grc.Prelude.{
  ℕ, ◌+◌, ◌<◌, Bool, true, false, ◌&&◌, not, String, ◌≡◌, refl, sym, ap, ◌⊎◌, inl, inr, List, [],
  ◌∷◌, ◌++◌, arith, string_eq, beq_refl, leb, any, select, Bool-cases,
}
use sentinel_grc.State.Ingestion.{Nonce, is_nonce, is_alive, reserve_nonce}

-- A reservation of another client: the nonce, its time to live and the time.
abbrev pub Request : Type 0
Request = String × ℕ × ℕ

abbrev pub reserve_all : List Request → List Nonce → List Nonce
reserve_all [] rows = rows
reserve_all ((n, ttl, now) ∷ rs) rows = reserve_all rs (reserve_nonce n ttl now rows).1

abbrev pub all_before : ℕ → List Request → Bool
all_before t [] = true
all_before t ((n, ttl, now) ∷ rs) = not (leb t now) && all_before t rs

-- The nonce stands in the table until some time.
abbrev lives : String → ℕ → List Nonce → Bool
lives n t rows = any (λ row. is_nonce n row && leb t row.expires_at) rows

select-lives :
    (n : String) (t now : ℕ) (rows : List Nonce)
    → now < t
    → lives n t rows ≡ true
    → lives n t (select (is_alive now) rows) ≡ true
select-lives n t now [] soon h = h
select-lives n t now (x ∷ xs) soon h = ground (arith, select-lives n t now xs soon)

lives-append :
    (n : String) (t : ℕ) (rows : List Nonce) (x : Nonce)
    → (lives n t rows ≡ true) ⊎ ((is_nonce n x && leb t x.expires_at) ≡ true)
    → lives n t (rows ++ x ∷ []) ≡ true
lives-append n t [] x h = ground arith
lives-append n t (y ∷ ys) x (inl h) = ground (arith, lives-append n t ys x)
lives-append n t (y ∷ ys) x (inr h) = ground (arith, lives-append n t ys x (inr h))

lives-any :
    (n : String) (t : ℕ) (rows : List Nonce) → lives n t rows ≡ true → any (is_nonce n) rows ≡ true
lives-any n t [] h = h
lives-any n t (x ∷ xs) h = ground (arith, lives-any n t xs)

reserve-keeps :
    (n m : String) (t ttl now : ℕ) (rows : List Nonce)
    → now < t
    → lives n t rows ≡ true
    → lives n t (reserve_nonce m ttl now rows).1 ≡ true
unfolding reserve_nonce
reserve-keeps n m t ttl now rows soon h =
    elim (Bool-cases (any (is_nonce m) (select (is_alive now) rows))) [
      | inl taken ↦ rw taken h
      | inr free ↦
          rw free (
            lives-append n t (select (is_alive now) rows) _
              (inl (select-lives n t now rows soon h)))
    ]

reserve_all-keeps :
    (n : String) (t : ℕ) (rs : List Request) (rows : List Nonce)
    → all_before t rs ≡ true
    → lives n t rows ≡ true
    → lives n t (reserve_all rs rows) ≡ true
reserve_all-keeps n t [] rows b h = h
reserve_all-keeps n t ((m, ttl, now) ∷ rs) rows b h =
    reserve_all-keeps n t rs _ (ground arith) (reserve-keeps n m t ttl now rows (ground arith) h)

reserved-lives :
    (n : String) (ttl now : ℕ) (rows rows' : List Nonce)
    → reserve_nonce n ttl now rows ≡ (true, rows')
    → lives n (now + ttl) rows' ≡ true
unfolding reserve_nonce
reserved-lives n ttl now rows rows' h =
    elim (Bool-cases (any (is_nonce n) (select (is_alive now) rows))) [
      | inl taken ↦ absurd (false≢true (ap (λ (r : Bool × List Nonce). r.0) (rw taken at h)))
      | inr free ↦
          let grown = ap (λ (r : Bool × List Nonce). r.1) (rw free at h) in
          rw (sym grown) (
            lives-append n (now + ttl) (select (is_alive now) rows)
              (record { nonce = n; expires_at = now + ttl }) (inr (ground (arith, beq_refl n))))
    ]

-- Once a nonce is reserved, a second reservation of it before the first expires is refused and
-- changes nothing, whatever nonces are reserved in between.
pub nonce_once :
    (n : String) (ttl ttl' now later : ℕ) (between : List Request) (rows rows' : List Nonce)
    → reserve_nonce n ttl now rows ≡ (true, rows')
    → all_before (now + ttl) between ≡ true
    → later < now + ttl
    → reserve_nonce n ttl' later (reserve_all between rows') ≡ (false, reserve_all between rows')
unfolding reserve_nonce
nonce_once n ttl ttl' now later between rows rows' h b soon =
    let here_ =
      reserve_all-keeps n (now + ttl) between rows' b (reserved-lives n ttl now rows rows' h) in
    let taken =
      lives-any n (now + ttl) (select (is_alive later) (reserve_all between rows'))
        (select-lives n (now + ttl) later (reserve_all between rows') soon here_) in
    rw taken refl
