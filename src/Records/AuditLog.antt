-- ===== src/Records/AuditLog.antt =====
-- audit_log.py: `AuthenticatedActor` and `AuditLog`. The clock gives the identifier of `append` and the
-- text of `recorded_at`; details come with their canonical JSON.
pub mod Idempotence
pub mod Tampering
use Prim.Native.Char.{code}
use sentinel_grc.Prelude.{
  ℕ, ◌+◌, Bool, true, false, ◌&&◌, ◌||◌, not, String, Option, none, some, List, [], ◌∷◌,
  if◌then◌else◌, ◌==◌, ◌≡◌, string_eq, nat_beq, opt_is, is_none,
}
use sentinel_grc.Prelude.Text
use sentinel_grc.Prelude.Attempt.{Attempt, failed, done, ◌>>=◌, ◌>>◌, need}
use sentinel_grc.Records.ChainFile
use sentinel_grc.Records.ChainFile.{
  Line, object_line, other_json, no_json, blank, File, absent, undecodable, lines, Chained, Verdict,
  is_valid, is_blank, Refusal, no_text, invalid, check_lines, genesis,
}

-- `AuthenticatedActor`
pub record Actor : Type 0 where
  pub actor_id : String
  pub actor_type : String
  pub role : Option String
  pub auth_method : String

-- The `actor` of a record: a text, or a snapshot.
pub data ActorField : Type 0 where
  named : String → ActorField
  snapshot : Actor → ActorField

-- A JSON object of the file without its hash: the keys that the code reads, each of which may be missing,
-- and the canonical JSON of all others.
pub record Entry : Type 0 where
  pub event_id : Option String
  pub event_type : Option String
  pub actor : Option ActorField
  pub target : Option String
  pub details : Option String
  pub previous_hash : Option String
  pub others : String

pub data Error : Type 0 where
  refused : Refusal → Error
  bad_event_id bound_elsewhere bad_actor bad_method not_human not_agent not_system : Error

abbrev pub is_blank_text : String → Bool
is_blank_text s = Text.is_empty (Text.strip s)

-- `AuthenticatedActor.__post_init__`
unfoldable pub make_actor : Actor → Attempt Error Actor
make_actor a =
    need
      (not (is_blank_text a.actor_id)
        && (a.actor_type == "human" || (a.actor_type == "agent" || a.actor_type == "system")))
      bad_actor
    >> (need (not (is_blank_text a.auth_method)) bad_method >> done a)

-- The characters that JSON leaves as they are and `str.splitlines` takes for line ends.
abbrev pub is_break : ℕ → Bool
is_break c = nat_beq c 0x85 || (nat_beq c 0x2028 || nat_beq c 0x2029)

unfoldable pub breaks : String → ℕ
breaks String.[] = 0
breaks (String.◌∷◌ c s) = (if is_break (code c) then 1 else 0) + breaks s

abbrev pub opt_breaks : Option String → ℕ
opt_breaks none = 0
opt_breaks (some s) = breaks s

abbrev pub actor_breaks : Option ActorField → ℕ
actor_breaks none = 0
actor_breaks (some (named s)) = breaks s
actor_breaks (some (snapshot a)) =
    breaks a.actor_id + (breaks a.actor_type + (opt_breaks a.role + breaks a.auth_method))

-- `previous_hash` is a digest in hexadecimal.
abbrev pub entry_breaks : Entry → ℕ
entry_breaks e =
    opt_breaks e.event_id
    + (opt_breaks e.event_type
        + (actor_breaks e.actor + (opt_breaks e.target + (opt_breaks e.details + breaks e.others))))

-- The file as a chain, for the SHA-256 of the canonical JSON of an object.
abbrev pub chain : (Entry → String) → Chained Entry
chain digest = record { digest = digest; previous = λ e. e.previous_hash; breaks = entry_breaks }

-- `_find_event_unlocked`
unfoldable pub find_id : String → List (Line Entry) → Option Entry
find_id k [] = none
find_id k (object_line e h ∷ ls) =
    let rest = find_id k ls in if opt_is e.event_id k then some e else rest
find_id k (other_json ∷ ls) = find_id k ls
find_id k (no_json ∷ ls) = find_id k ls
find_id k (blank ∷ ls) = find_id k ls

unfoldable pub find_event : (Entry → String) → String → File Entry → Attempt Error (Option Entry)
find_event digest k absent = done none
find_event digest k undecodable = failed (refused no_text)
find_event digest k (lines ls) =
    if is_blank ls
    then done none
    else if is_valid (check_lines (chain digest) 1 genesis ls)
    then done (find_id k ls)
    else failed (refused (invalid (check_lines (chain digest) 1 genesis ls)))

-- Details that are not empty: the canonical JSON that is stored of them, and whether the value that
-- `json.loads` gives for a stored text is equal to them. `normalize` turns the keys of an object into
-- texts, so that details with other keys are not equal to what is stored of them.
pub record Details : Type 0 where
  pub stored : String
  pub is_read_from : String → Bool

-- What the callers of `append` say of an event; details may be None or empty.
pub record Event : Type 0 where
  pub event_type : String
  pub actor : ActorField
  pub target : String
  pub details : Option Details

abbrev pub details_or : Option Details → String
details_or none = "{}"
details_or (some d) = d.stored

-- The record of `_append_unlocked`, where `stamp` is the JSON of `recorded_at` and `schema_version`.
abbrev pub entry_of : String → Event → String → String → Entry
entry_of k event stamp previous = record {
  event_id = some k;
  event_type = some event.event_type;
  actor = some event.actor;
  target = some event.target;
  details = some (details_or event.details);
  previous_hash = some previous;
  others = stamp;
}

abbrev pub as_error : {A : Type 0} → Attempt Refusal A → Attempt Error A
as_error (failed r) = failed (refused r)
as_error (done a) = done a

pub as_error-done : {A : Type 0} (r : Attempt Refusal A) (a : A) → as_error r ≡ done a → r ≡ done a
as_error-done (failed x) a h = absurd (cc)
as_error-done (done b) a h = cc

-- `_append_unlocked`, and `append` with the identifier that it makes
unfoldable pub append :
    (Entry → String) → String → Event → String → File Entry → Attempt Error (Entry × File Entry)
append digest k event stamp file =
    as_error (ChainFile.append (chain digest) (entry_of k event stamp) file)

abbrev pub same_opt : Option String → Option String → Bool
same_opt none none = true
same_opt none (some b) = false
same_opt (some a) none = false
same_opt (some a) (some b) = a == b

abbrev pub same_actor : Option ActorField → ActorField → Bool
same_actor none b = false
same_actor (some (named x)) (named y) = x == y
same_actor (some (named x)) (snapshot b) = false
same_actor (some (snapshot a)) (named y) = false
same_actor (some (snapshot a)) (snapshot b) =
    a.actor_id == b.actor_id
    && (a.actor_type == b.actor_type && (same_opt a.role b.role && a.auth_method == b.auth_method))

-- The stored value under `details` is equal to those of the event.
abbrev pub same_details : Option Details → Option String → Bool
same_details none stored = opt_is stored "{}"
same_details (some d) none = false
same_details (some d) (some s) = d.is_read_from s

-- `identity == expected`
abbrev pub is_same : Event → Entry → Bool
is_same event e =
    opt_is e.event_type event.event_type
    && (same_actor e.actor event.actor
        && (opt_is e.target event.target && same_details event.details e.details))

abbrev pub added : Attempt Error (Entry × File Entry) → Attempt Error ((Entry × Bool) × File Entry)
added (failed x) = failed x
added (done (e, file)) = done ((e, true), file)

abbrev pub after_find :
    (Entry → String)
    → String
    → Event
    → String
    → File Entry
    → Option Entry
    → Attempt Error ((Entry × Bool) × File Entry)
after_find digest k event stamp file none = added (append digest k event stamp file)
after_find digest k event stamp file (some e) =
    if is_same event e then done ((e, false), file) else failed bound_elsewhere

-- `append_idempotent`, with a text for `event_id`: the record, and whether it was added.
unfoldable pub append_idempotent :
    (Entry → String)
    → String
    → Event
    → String
    → File Entry
    → Attempt Error ((Entry × Bool) × File Entry)
append_idempotent digest k event stamp file =
    if is_blank_text k
    then failed bad_event_id
    else find_event digest k file >>= after_find digest k event stamp file

abbrev pub has_role : Option String → Bool
has_role none = false
has_role (some r) = not (Text.is_empty r)

abbrev pub event_by : Actor → String → String → Option Details → Event
event_by a event_type target details = record {
  event_type = event_type;
  actor = snapshot a;
  target = target;
  details = details;
}

unfoldable pub append_human_event :
    (Entry → String)
    → String
    → Actor
    → String
    → String
    → Option Details
    → String
    → File Entry
    → Attempt Error (Entry × File Entry)
append_human_event digest k a event_type target details stamp file =
    need (a.actor_type == "human" && has_role a.role) not_human
    >> append digest k (event_by a event_type target details) stamp file

unfoldable pub append_agent_event :
    (Entry → String)
    → String
    → Actor
    → String
    → String
    → Option Details
    → String
    → File Entry
    → Attempt Error (Entry × File Entry)
append_agent_event digest k a event_type target details stamp file =
    need (a.actor_type == "agent") not_agent
    >> append digest k (event_by a event_type target details) stamp file

unfoldable pub append_system_event :
    (Entry → String)
    → String
    → Actor
    → String
    → String
    → Option Details
    → String
    → File Entry
    → Attempt Error (Entry × File Entry)
append_system_event digest k a event_type target details stamp file =
    need (a.actor_type == "system") not_system
    >> append digest k (event_by a event_type target details) stamp file

-- `verify`
unfoldable pub verify : (Entry → String) → File Entry → Verdict
verify digest file = ChainFile.verify (chain digest) file
