-- ===== src/Records/AuditLog/Idempotence.antt =====
-- Every history of appends leaves a log that verifies, and an event of one identifier is written once.
use mathlib.Core.Bool.{false≢true}
use sentinel_grc.Prelude.{
  Bool, true, false, ◌&&◌, String, ◌≡◌, refl, sym, ◌∙◌, ap, inl, inr, Option, none, some, List, [],
  ◌∷◌, ◌++◌, arith, string_eq, beq_refl, nat_beq, opt_is, Bool-cases,
}
use sentinel_grc.Prelude.Attempt.{Attempt, failed, done, done_inj}
use sentinel_grc.Records.ChainFile
use sentinel_grc.Records.ChainFile.{
  Line, object_line, other_json, no_json, blank, File, absent, undecodable, lines, is_valid,
  is_blank, lines_of, last_or, genesis, check_lines, Refusal, intact,
}
use sentinel_grc.Records.ChainFile.Laws.{append-verify, append-whole, check_lines-Links, Links}
use sentinel_grc.Records.AuditLog.{
  Entry, Event, ActorField, Error, chain, entry_of, entry_breaks, find_id, find_event, append,
  as_error-done, added, after_find, append_idempotent, is_same, same_actor, same_opt, details_or,
  Details, same_details, is_blank_text, verify, named, snapshot,
}

pub data Call : Type 0 where
  append_call : String → Event → String → Call
  idempotent_call : String → Event → String → Call

abbrev file_after : {A : Type 0} → Attempt Error (A × File Entry) → File Entry → File Entry
file_after (failed x) file = file
file_after (done r) file = r.1

abbrev pub perform : (Entry → String) → Call → File Entry → File Entry
perform digest (append_call k event stamp) file = file_after (append digest k event stamp file) file
perform digest (idempotent_call k event stamp) file =
    file_after (append_idempotent digest k event stamp file) file

-- The file after some calls; a raise ends only its own call.
unfoldable pub run : (Entry → String) → List Call → File Entry → File Entry
run digest [] file = file
run digest (call ∷ calls) file = run digest calls (perform digest call file)

-- No text of the event has a line end that JSON leaves as it is.
abbrev pub one_line : String → Event → String → Bool
one_line k event stamp = nat_beq (entry_breaks (entry_of k event stamp "")) 0

abbrev pub all_one_line : List Call → Bool
all_one_line [] = true
all_one_line (append_call k event stamp ∷ calls) = one_line k event stamp && all_one_line calls
all_one_line (idempotent_call k event stamp ∷ calls) = one_line k event stamp && all_one_line calls

find_id-append :
    (k : String) (ls more : List (Line Entry)) (e : Entry)
    → find_id k ls ≡ some e
    → find_id k (ls ++ more) ≡ some e
unfolding find_id
find_id-append k [] more e f = absurd (cc)
find_id-append k (object_line x h ∷ ls) more e f = ground (arith, find_id-append k ls more e)
find_id-append k (other_json ∷ ls) more e f = find_id-append k ls more e f
find_id-append k (no_json ∷ ls) more e f = find_id-append k ls more e f
find_id-append k (blank ∷ ls) more e f = find_id-append k ls more e f

find_id-last :
    (k : String) (ls : List (Line Entry)) (e : Entry) (h : Option String)
    → find_id k ls ≡ none
    → opt_is e.event_id k ≡ true
    → find_id k (ls ++ object_line e h ∷ []) ≡ some e
unfolding find_id
find_id-last k [] e h f own = rw own refl
find_id-last k (object_line x g ∷ ls) e h f own = ground (arith, find_id-last k ls e h)
find_id-last k (other_json ∷ ls) e h f own = find_id-last k ls e h f own
find_id-last k (no_json ∷ ls) e h f own = find_id-last k ls e h f own
find_id-last k (blank ∷ ls) e h f own = find_id-last k ls e h f own

-- The details of the event are equal to what is read of their own canonical JSON.
abbrev pub is_read_back : Option Details → Bool
is_read_back none = true
is_read_back (some d) = d.is_read_from d.stored

same_details-stored :
    (o : Option Details) → is_read_back o ≡ true → same_details o (some (details_or o)) ≡ true
same_details-stored none back = beq_refl {A = String} "{}"
same_details-stored (some d) back = back

module _ (digest : Entry → String) where
  abbrev pub IsWhole : File Entry → Type 0
  IsWhole file = is_valid (ChainFile.verify (chain digest) file) ≡ true

  blank-find_id :
      (k p : String) (ls : List (Line Entry))
      → Links (chain digest) p ls
      → is_blank ls ≡ true
      → find_id k ls ≡ none
  unfolding find_id
  blank-find_id k p [] l b = refl
  blank-find_id k p (object_line x h ∷ ls) l b = absurd (false≢true b)
  blank-find_id k p (other_json ∷ ls) l b = absurd l
  blank-find_id k p (no_json ∷ ls) l b = absurd l
  blank-find_id k p (blank ∷ ls) l b = absurd l

  find_event-whole :
      (k : String) (file : File Entry)
      → IsWhole file
      → find_event digest k file ≡ done (find_id k (lines_of file))
  unfolding find_event ChainFile.verify find_id
  find_event-whole k absent v = refl
  find_event-whole k undecodable v = absurd (false≢true v)
  find_event-whole k (lines ls) v = elim (Bool-cases (is_blank ls)) [
    | inl b ↦
        rw (b, blank-find_id k genesis ls (check_lines-Links (chain digest) ls 1 genesis v) b) refl
    | inr filled ↦ rw (filled, v) refl
  ]

  -- What an append to a whole file does.
  pub record Appended (k : String) (event : Event) (stamp : String) (file file' : File Entry)
      (e : Entry) : Type 0 where
    pub is_new : e ≡ entry_of k event stamp (last_or genesis (lines_of file))
    pub whole : IsWhole file'
    pub grown : lines_of file' ≡ lines_of file ++ object_line e (some (digest e)) ∷ []

  append-Appended :
      (k : String) (event : Event) (stamp : String) (file file' : File Entry) (e : Entry)
      → IsWhole file
      → one_line k event stamp ≡ true
      → append digest k event stamp file ≡ done (e, file')
      → Appended k event stamp file file' e
  unfolding append
  append-Appended k event stamp file file' e v clean ran =
      let plain =
        as_error-done (ChainFile.append (chain digest) (entry_of k event stamp) file) (e, file')
          ran in
      let made =
        done_inj (sym plain ∙ append-whole (chain digest) (entry_of k event stamp) file v) in
      let e_is : e ≡ entry_of k event stamp (last_or genesis (lines_of file)) =
        ap (λ (p : Entry × File Entry). p.0) made in
      let (ok_, grown) =
        append-verify (chain digest) (entry_of k event stamp) file file' e (λ h. refl) v plain
          (rw e_is (ground arith)) in
      record { is_new = e_is; whole = rw ok_ refl; grown = grown }

  -- What a call leaves of a whole file: a whole file, with the same first entry of every identifier.
  pub record Kept (file file' : File Entry) : Type 0 where
    pub whole : IsWhole file'
    pub found :
        (k : String) (e : Entry)
        → find_id k (lines_of file) ≡ some e
        → find_id k (lines_of file') ≡ some e

  stays : (file : File Entry) → IsWhole file → Kept file file
  stays file v = record { whole = v; found = λ k e f. f }

  Appended-Kept :
      {k : String} {event : Event} {stamp : String} {file file' : File Entry} {e : Entry}
      → Appended k event stamp file file' e
      → Kept file file'
  Appended-Kept {file} {e} a = record {
    whole = a.whole;
    found = λ j x f.
        rw (a.grown) (find_id-append j (lines_of file) (object_line e (some (digest e)) ∷ []) x f);
  }

  append-Kept :
      (k : String) (event : Event) (stamp : String) (file : File Entry)
      → IsWhole file
      → one_line k event stamp ≡ true
      → Kept file (file_after (append digest k event stamp file) file)
  append-Kept k event stamp file v clean = go (append digest k event stamp file) refl
    where
      go :
          (r : Attempt Error (Entry × File Entry))
          → append digest k event stamp file ≡ r
          → Kept file (file_after r file)
      go (failed x) same = stays file v
      go (done (e, file')) same =
          Appended-Kept (append-Appended k event stamp file file' e v clean same)

  added-Kept :
      (file : File Entry) (r : Attempt Error (Entry × File Entry))
      → Kept file (file_after r file)
      → Kept file (file_after (added r) file)
  added-Kept file (failed x) kept = kept
  added-Kept file (done (e, file')) kept = kept

  after_find-Kept :
      (k : String) (event : Event) (stamp : String) (file : File Entry) (o : Option Entry)
      → IsWhole file
      → one_line k event stamp ≡ true
      → Kept file (file_after (after_find digest k event stamp file o) file)
  after_find-Kept k event stamp file none v clean =
      added-Kept file (append digest k event stamp file) (append-Kept k event stamp file v clean)
  after_find-Kept k event stamp file (some e) v clean = elim (Bool-cases (is_same event e)) [
    | inl same ↦ rw same (stays file v)
    | inr other ↦ rw other (stays file v)
  ]

  append_idempotent-Kept :
      (k : String) (event : Event) (stamp : String) (file : File Entry)
      → IsWhole file
      → one_line k event stamp ≡ true
      → Kept file (file_after (append_idempotent digest k event stamp file) file)
  unfolding append_idempotent
  append_idempotent-Kept k event stamp file v clean = elim (Bool-cases (is_blank_text k)) [
    | inl b ↦ rw b (stays file v)
    | inr named_ ↦
        rw (named_, find_event-whole k file v)
          (after_find-Kept k event stamp file (find_id k (lines_of file)) v clean)
  ]

  Kept-trans : {a b d : File Entry} → Kept a b → Kept b d → Kept a d
  Kept-trans p q = record { whole = q.whole; found = λ k e f. q.found k e (p.found k e f) }

  run-Kept :
      (calls : List Call) (file : File Entry)
      → IsWhole file
      → all_one_line calls ≡ true
      → Kept file (run digest calls file)
  unfolding run
  run-Kept [] file v clean = stays file v
  run-Kept (append_call k event stamp ∷ calls) file v clean =
      let first = append-Kept k event stamp file v (ground arith) in
      Kept-trans first (
        run-Kept calls (perform digest (append_call k event stamp) file) first.whole (ground arith))
  run-Kept (idempotent_call k event stamp ∷ calls) file v clean =
      let first = append_idempotent-Kept k event stamp file v (ground arith) in
      Kept-trans first (
        run-Kept calls (perform digest (idempotent_call k event stamp) file) first.whole
          (ground arith))

  -- From a log that verifies, after any calls of `append` and `append_idempotent` whose texts have no
  -- line end, raising or not, `verify` accepts the log.
  pub audit_log-verifies :
      (calls : List Call) (file : File Entry)
      → is_valid (verify digest file) ≡ true
      → all_one_line calls ≡ true
      → is_valid (verify digest (run digest calls file)) ≡ true
  unfolding verify
  audit_log-verifies calls file v clean = (run-Kept calls file v clean).whole

  same_opt_refl : (o : Option String) → same_opt o o ≡ true
  same_opt_refl none = refl
  same_opt_refl (some s) = beq_refl s

  same_actor_refl : (a : ActorField) → same_actor (some a) a ≡ true
  same_actor_refl (named s) = beq_refl s
  same_actor_refl (snapshot a) = ground (
    arith,
    beq_refl a.actor_id,
    beq_refl a.actor_type,
    same_opt_refl a.role,
    beq_refl a.auth_method,
  )

  is_same-entry_of :
      (k : String) (event : Event) (stamp h : String)
      → is_read_back event.details ≡ true
      → is_same event (entry_of k event stamp h) ≡ true
  is_same-entry_of k event stamp h back = ground (
    arith,
    beq_refl event.event_type,
    same_actor_refl event.actor,
    beq_refl event.target,
    same_details-stored event.details back,
  )

  -- What a call of `append_idempotent` that returned has done: the first entry of the identifier is the
  -- one returned, and holds what was asked.
  record Settled (k : String) (event : Event) (file' : File Entry) (e : Entry) : Type 0 where
    pub named_ : is_blank_text k ≡ false
    pub whole : IsWhole file'
    pub found : find_id k (lines_of file') ≡ some e
    pub holds : is_same event e ≡ true

  settled :
      (k : String) (event : Event) (stamp : String) (file file' : File Entry) (e : Entry) (b : Bool)
      (o : Option Entry)
      → is_blank_text k ≡ false
      → IsWhole file
      → one_line k event stamp ≡ true
      → is_read_back event.details ≡ true
      → find_id k (lines_of file) ≡ o
      → after_find digest k event stamp file o ≡ done ((e, b), file')
      → Settled k event file' e
  settled k event stamp file file' e b (some x) n v clean back f ran =
      elim (Bool-cases (is_same event x)) [
        | inl same ↦
            let r = done_inj (rw same at ran) in
            let x_is : x ≡ e = ap (λ (p : (Entry × Bool) × File Entry). p.0.0) r in
            let file_is : file ≡ file' = ap (λ (p : (Entry × Bool) × File Entry). p.1) r in
            record {
              named_ = n;
              whole = rw (← file_is) v;
              found = rw (← file_is) (rw (← x_is) f);
              holds = rw (← x_is) same;
            }
        | inr other ↦ absurd (cc (rw other at ran))
      ]
  settled k event stamp file file' e b none n v clean back f ran =
      let done_ = added-done (append digest k event stamp file) ran in
      let a = append-Appended k event stamp file file' e v clean done_ in
      record {
        named_ = n;
        whole = a.whole;
        found =
            rw (a.grown)
              (find_id-last k (lines_of file) e (some (digest e)) f (rw (a.is_new) (beq_refl k)));
        holds =
            rw (a.is_new) (is_same-entry_of k event stamp (last_or genesis (lines_of file)) back);
      }
    where
      added-done :
          (r : Attempt Error (Entry × File Entry))
          → added r ≡ done ((e, b), file')
          → r ≡ done (e, file')
      added-done (failed x) h = absurd (cc)
      added-done (done (x, y)) h = cc

  -- Once `append_idempotent` has returned on a log that verifies, a second call with the same
  -- identifier and event, at any later time and after any calls between, returns the same record, says
  -- that it was not added, and leaves the file as it is; texts have no line end, and the details of the
  -- event are equal to what `json.loads` gives for their own canonical JSON.
  pub append_idempotent-again :
      (k : String) (event : Event) (stamp later : String) (calls : List Call)
      (file file' : File Entry) (e : Entry) (b : Bool)
      → is_valid (verify digest file) ≡ true
      → one_line k event stamp ≡ true
      → is_read_back event.details ≡ true
      → all_one_line calls ≡ true
      → append_idempotent digest k event stamp file ≡ done ((e, b), file')
      → append_idempotent digest k event later (run digest calls file')
        ≡ done ((e, false), run digest calls file')
  unfolding verify append_idempotent
  append_idempotent-again k event stamp later calls file file' e b v clean back rest ran =
      let s : Settled k event file' e = elim (Bool-cases (is_blank_text k)) [
        | inl blank_ ↦ absurd (cc (rw blank_ at ran))
        | inr n ↦
            settled k event stamp file file' e b (find_id k (lines_of file)) n v clean back refl
              (rw (n, find_event-whole k file v) at ran)
      ] in
      let kept = run-Kept calls file' s.whole rest in
      rw
        (
          s.named_,
          find_event-whole k (run digest calls file') kept.whole,
          kept.found k e s.found,
          s.holds,
        )
        refl
