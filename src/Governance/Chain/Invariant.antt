-- ===== src/Governance/Chain/Invariant.antt =====
-- The hash chain of every finding holds, whatever the methods are called with.
use mathlib.Core.List.{append-nil}
use sentinel_grc.Prelude.{
  ℕ, ◌+◌, Bool, true, ap, false, String, ◌≡◌, refl, List, [], ◌∷◌, ◌++◌, ◌==◌, string_eq, eq_iff,
  select, select-append, Bool-cases, inl, inr, if◌then◌else◌,
}
use sentinel_grc.Governance.Rows.{Actor, Event, Details, Db}
use sentinel_grc.Governance.Exec.{Library, Fresh}
use sentinel_grc.Governance.Events.{next_event, hash_or, sequence_or}
use sentinel_grc.Governance.Chain.{verify_event_chain}
use sentinel_grc.Governance.Chain.Links.{
  is_of, Linked, Linked-append, latest-select, verify_event_chain-Linked,
}
use sentinel_grc.Governance.Commits.{Reach, here, next}
use sentinel_grc.Governance.Commits.Emission.{Emits, Commit-Emits}
use sentinel_grc.Governance.Commits.Registration.{Call, run, run-Reach}

abbrev pub ChainsHold : Library → Db → Type 0
ChainsHold lib db = (k : String) → Linked lib k "" 0 (select (is_of k) db.events)

next_event-Linked :
    (lib : Library) (fresh : Fresh) (k ty : String) (actor : Actor) (details : Details) (now : ℕ)
    (events : List Event)
    → Linked lib k "" 0 (select (is_of k) events)
    → Linked lib k "" 0
        (select (is_of k) events ++ next_event lib fresh k ty actor details now events ∷ [])
unfolding next_event
next_event-Linked lib fresh k ty actor details now events h =
    let e = next_event lib fresh k ty actor details now events in
    let same = latest-select lib k events in
    Linked-append lib k "" 0 (select (is_of k) events) e h refl (ap (λ o. sequence_or 0 o + 1) same)
      (ap (hash_or "") same) refl

select-next_event :
    (lib : Library) (fresh : Fresh) (s ty : String) (actor : Actor) (details : Details) (now : ℕ)
    (events : List Event) (k : String) (b : Bool)
    → (s == k) ≡ b
    → let e = next_event lib fresh s ty actor details now events in
      select (is_of k) (e ∷ []) ≡ (if b then e ∷ [] else [])
unfolding next_event
select-next_event lib fresh s ty actor details now events k b h = rw h

Linked-grown :
    (lib : Library) (fresh : Fresh) (s ty : String) (actor : Actor) (details : Details) (now : ℕ)
    (events : List Event) (k : String)
    → Linked lib k "" 0 (select (is_of k) events)
    → Linked lib k "" 0
        (select (is_of k) (events ++ next_event lib fresh s ty actor details now events ∷ []))
Linked-grown lib fresh s ty actor details now events k h =
    rw select-append (elim (Bool-cases (s == k)) [
      | inl mine ↦
          let same = (eq_iff s k).0 mine in
          rw (select-next_event lib fresh s ty actor details now events k true mine)
            (rw same (next_event-Linked lib fresh k ty actor details now events h))
      | inr other ↦
          rw (select-next_event lib fresh s ty actor details now events k false other)
            (rw append-nil h)
    ])

Emits-ChainsHold :
    {lib : Library} {db db' : Db} → Emits lib db db' → ChainsHold lib db → ChainsHold lib db'
Emits-ChainsHold {lib} {db} {db'} em h k = rw (em.appended.0) (
    Linked-grown lib em.fresh em.subject em.event_type em.actor em.details em.now db.events k (h k))

Reach-ChainsHold :
    {lib : Library} {db db' : Db} → Reach lib db db' → ChainsHold lib db → ChainsHold lib db'
Reach-ChainsHold here h = h
Reach-ChainsHold (next r c) h = Emits-ChainsHold (Commit-Emits c) (Reach-ChainsHold r h)

-- From a database whose chains hold, after any sequence of calls of the nine methods, with any
-- arguments and raising or not, `verify_event_chain` returns True for every finding.
pub run-verifies :
    (lib : Library) (calls : List Call) (db : Db) (k : String)
    → ChainsHold lib db
    → verify_event_chain lib k (run lib calls db) ≡ true
run-verifies lib calls db k h =
    verify_event_chain-Linked lib k (run lib calls db)
      (Reach-ChainsHold (run-Reach lib calls db) h k)
