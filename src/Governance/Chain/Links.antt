-- ===== src/Governance/Chain/Links.antt =====
-- The hash chain of one finding: its shape, what the next event reads from it, and that the
-- verifier accepts it.
use sentinel_grc.Prelude.{
  ℕ, ◌+◌, ◌<◌, Bool, true, String, ◌≡◌, refl, some, List, [], ◌∷◌, ◌++◌, arith, ◌==◌, string_eq,
  eq_iff, select, Option-cases, inl, inr, ap, ◌∙◌,
}
use sentinel_grc.Governance.Rows.{Event, Db}
use sentinel_grc.Governance.Exec.{Library}
use sentinel_grc.Governance.Events.{latest, hash_or, sequence_or}
use sentinel_grc.Governance.Chain.{body_in_row, chain_holds, verify_event_chain}
use sentinel_grc.Governance.Chain.Sorting.{insert_event, sort_events, list_events}

abbrev pub is_of : String → Event → Bool
is_of k e = e.finding_id == k

module _ (lib : Library) (k : String) where
  -- Events of `k` that number on from `n` and whose hashes link on from `previous`.
  abbrev pub Linked : String → ℕ → List Event → Type 0
  Linked previous n [] = Unit
  Linked previous n (e ∷ es) =
      (e.finding_id ≡ k)
      × (e.event_sequence ≡ n + 1)
      × (e.previous_hash ≡ previous)
      × (e.event_hash ≡ lib.event_digest previous (body_in_row k previous e))
      × Linked e.event_hash (n + 1) es

  chain_holds-Linked :
      (previous : String) (n : ℕ) (es : List Event)
      → Linked previous n es
      → chain_holds lib k previous es ≡ true
  unfolding chain_holds
  chain_holds-Linked previous n [] h = refl
  chain_holds-Linked previous n (e ∷ es) h = ground (
    arith,
    chain_holds-Linked e.event_hash (n + 1) es,
    eq_iff e.previous_hash previous,
    eq_iff e.event_hash (lib.event_digest previous (body_in_row k previous e)),
  )

  pub latest-select : (es : List Event) → latest k es ≡ latest k (select (is_of k) es)
  unfolding latest
  latest-select [] = refl
  latest-select (e ∷ es) = ground (arith, latest-select es)

  latest_above :
      (previous : String) (n : ℕ) (es : List Event) (f : Event)
      → Linked previous n es
      → latest k es ≡ some f
      → n < f.event_sequence
  unfolding latest
  latest_above previous n [] f h eq = cc
  latest_above previous n (e ∷ es) f h eq =
      ground (arith, eq_iff e.finding_id k, latest_above e.event_hash (n + 1) es f h.4)

  latest_step :
      (previous : String) (n : ℕ) (e : Event) (es : List Event)
      → Linked previous n (e ∷ es)
      → (hash_or previous (latest k (e ∷ es)) ≡ hash_or e.event_hash (latest k es))
        × (sequence_or n (latest k (e ∷ es)) ≡ sequence_or (n + 1) (latest k es))
  unfolding latest
  latest_step previous n e es h = elim (Option-cases (latest k es)) [
    | inl last ↦ ground (arith, eq_iff e.finding_id k)
    | inr (f, eq) ↦
        ground (arith, eq_iff e.finding_id k, latest_above e.event_hash (n + 1) es f h.4)
  ]

  -- One more event, made from the latest, extends the chain.
  pub Linked-append :
      (previous : String) (n : ℕ) (es : List Event) (e : Event)
      → Linked previous n es
      → e.finding_id ≡ k
      → e.event_sequence ≡ sequence_or n (latest k es) + 1
      → e.previous_hash ≡ hash_or previous (latest k es)
      → e.event_hash ≡ lib.event_digest e.previous_hash (body_in_row k e.previous_hash e)
      → Linked previous n (es ++ e ∷ [])
  unfolding latest
  Linked-append previous n [] e h id seq link dig = (id, seq, link, rw (← link) dig, tt)
  Linked-append previous n (x ∷ es) e h id seq link dig =
      let step = latest_step previous n x es h in
      (
        h.0,
        h.1,
        h.2,
        h.3,
        Linked-append x.event_hash (n + 1) es e h.4 id (seq ∙ ap (λ m. m + 1) step.1)
            (link ∙ step.0) dig,
      )

  insert_event-Linked :
      (previous : String) (n : ℕ) (e : Event) (es : List Event)
      → Linked previous n (e ∷ es)
      → insert_event e es ≡ e ∷ es
  unfolding insert_event
  insert_event-Linked previous n e [] h = refl
  insert_event-Linked previous n e (f ∷ es) h = ground arith

  sort_events-Linked :
      (previous : String) (n : ℕ) (es : List Event) → Linked previous n es → sort_events es ≡ es
  unfolding sort_events
  sort_events-Linked previous n [] h = refl
  sort_events-Linked previous n (e ∷ es) h =
      rw (sort_events-Linked e.event_hash (n + 1) es h.4) (insert_event-Linked previous n e es h)

  -- A table whose events of `k` are linked passes the check of `k`.
  pub verify_event_chain-Linked :
      (db : Db) → Linked "" 0 (select (is_of k) db.events) → verify_event_chain lib k db ≡ true
  unfolding verify_event_chain list_events
  verify_event_chain-Linked db h = rw (sort_events-Linked "" 0 _ h) (chain_holds-Linked "" 0 _ h)
