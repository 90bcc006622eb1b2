-- ===== src/Exchange/Connectors.antt =====
-- connectors.py: signed events, each accepted once. HMAC, SHA-256 and `json.loads` are arguments; bytes are
-- naturals.
pub mod Replay
use Prim.Native.Char.{code}
use sentinel_grc.Prelude.{
  ℕ, Bool, true, false, ◌&&◌, ◌||◌, not, String, Option, none, some, List, [], ◌∷◌, ◌++◌,
  if◌then◌else◌, ◌==◌, string_eq, leb, nat_beq, length, any, find,
}
use sentinel_grc.Prelude.Text
use sentinel_grc.Prelude.Attempt.{Attempt, failed, done, ◌>>=◌, ◌>>◌, need}

-- `connector_events`
pub record Row : Type 0 where
  pub source : String
  pub event_id : String
  pub payload_hash : String
  pub accepted_at : ℕ

pub data Error : Type 0 where
  bad_identity bad_hash conflict unresolved too_large bad_signature bad_json no_object : Error

-- What `json.loads` makes of some bytes: an object is told by its text.
pub data Parsed : Type 0 where
  no_json other_json : Parsed
  json_object : String → Parsed

pub record Crypto : Type 0 where
  pub mac : List ℕ → String → String
  pub digest : List ℕ → String
  pub parse : List ℕ → Parsed

pub record Request : Type 0 where
  pub raw : List ℕ
  pub source : String
  pub event_id : String
  pub signature : String
  pub secret : String
  pub max_bytes : ℕ

pub record Reply : Type 0 where
  pub is_accepted : Bool
  pub event_id : String
  pub source : String
  pub payload_hash : String
  pub payload : Option String

abbrev pub is_digit : ℕ → Bool
is_digit c = leb 48 c && leb c 57

abbrev pub is_lower : ℕ → Bool
is_lower c = leb 97 c && leb c 122

abbrev pub is_mark : ℕ → Bool
is_mark c = nat_beq c 46 || (nat_beq c 95 || (nat_beq c 58 || nat_beq c 45))

-- The first character of the two patterns, for either set of letters.
abbrev pub is_start : Bool → ℕ → Bool
is_start capitals c = is_lower c || (is_digit c || (capitals && (leb 65 c && leb c 90)))

unfoldable pub all_inner : Bool → String → Bool
all_inner capitals String.[] = true
all_inner capitals (String.◌∷◌ c s) =
    (is_start capitals (code c) || is_mark (code c)) && all_inner capitals s

unfoldable pub matches : Bool → String → Bool
matches capitals String.[] = false
matches capitals (String.◌∷◌ c s) =
    is_start capitals (code c) && (leb (Text.length s) 127 && all_inner capitals s)

-- `is_identifier` and `is_source_identifier`
abbrev pub is_identifier : String → Bool
is_identifier s = matches true s

abbrev pub is_source_identifier : String → Bool
is_source_identifier s = matches false s

-- `validate_connector_event_identity`
abbrev pub validate_identity : String → String → Option String → Attempt Error (Unit {0})
validate_identity event_id source none =
    need (is_source_identifier source && is_identifier event_id) bad_identity
validate_identity event_id source (some h) =
    need (is_source_identifier source && is_identifier event_id) bad_identity
    >> need (Text.is_hex 64 h) bad_hash

abbrev pub is_event : String → String → Row → Bool
is_event source event_id row = row.source == source && row.event_id == event_id

-- What the row that is there says of a hash.
abbrev pub replayed : String → List Row → Option Row → Attempt Error (Bool × List Row)
replayed h rows none = failed unresolved
replayed h rows (some row) = if row.payload_hash == h then done (false, rows) else failed conflict

-- `reserve`
unfoldable pub reserve : String → String → String → ℕ → List Row → Attempt Error (Bool × List Row)
reserve event_id source h now rows =
    validate_identity event_id source (some h)
    >> (if any (is_event source event_id) rows
        then replayed h rows (find (is_event source event_id) rows)
        else done (
          true,
          rows
              ++ record {
                source = source;
                event_id = event_id;
                payload_hash = h;
                accepted_at = now;
              }
                ∷ [],
        ))

unfoldable pub drop_prefix : String → String → Option String
drop_prefix String.[] s = some s
drop_prefix (String.◌∷◌ p ps) String.[] = none
drop_prefix (String.◌∷◌ p ps) (String.◌∷◌ c s) =
    let rest = drop_prefix ps s in if nat_beq (code p) (code c) then rest else none

abbrev pub or_whole : String → Option String → String
or_whole s none = s
or_whole s (some rest) = rest

-- `signature.removeprefix("sha256=")`
abbrev pub provided : String → String
provided signature = or_whole signature (drop_prefix "sha256=" signature)

-- `verify_event_signature`
abbrev pub verify_event_signature : Crypto → List ℕ → String → String → Bool
verify_event_signature c raw signature secret = c.mac raw secret == provided signature

abbrev pub as_object : Parsed → Attempt Error String
as_object no_json = failed bad_json
as_object other_json = failed no_object
as_object (json_object p) = done p

abbrev pub payload_if : Bool → String → Option String
payload_if true p = some p
payload_if false p = none

abbrev pub reply_to : Request → String → String → Bool → Reply
reply_to r h p accepted = record {
  is_accepted = accepted;
  event_id = r.event_id;
  source = r.source;
  payload_hash = h;
  payload = payload_if accepted p;
}

-- `ingest_event`
unfoldable pub ingest_event : Crypto → Request → ℕ → List Row → Attempt Error (Reply × List Row)
ingest_event c r now rows =
    validate_identity r.event_id r.source none
    >> (need (leb (length r.raw) r.max_bytes) too_large
        >> (need (verify_event_signature c r.raw r.signature r.secret) bad_signature
            >> (as_object (c.parse r.raw) >>= λ p.
                reserve r.event_id r.source (c.digest r.raw) now rows >>= λ (accepted, longer).
                done (reply_to r (c.digest r.raw) p accepted, longer))))
