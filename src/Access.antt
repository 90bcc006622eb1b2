-- ===== src/Access.antt =====
-- Keys of people and agents: human_identity.py and scripts/agent_keys.py, which share the form of an
-- identifier.
pub mod Identity
pub mod AgentKeys
pub mod Tests
use Prim.Native.Char.{code}
use sentinel_grc.Prelude.{ℕ, Bool, true, false, ◌&&◌, ◌||◌, String, leb, nat_beq, not}
use sentinel_grc.Prelude.Text

-- One character of `[A-Za-z0-9._-]`
abbrev pub is_safe : ℕ → Bool
is_safe c =
    (leb 65 c && leb c 90)
    || ((leb 97 c && leb c 122)
        || ((leb 48 c && leb c 57) || (nat_beq c 46 || (nat_beq c 95 || nat_beq c 45))))

unfoldable pub all_safe : String → Bool
all_safe String.[] = true
all_safe (String.◌∷◌ c s) = is_safe (code c) && all_safe s

-- A full match of `[A-Za-z0-9._-]{1,128}`
unfoldable pub is_safe_identifier : String → Bool
is_safe_identifier s = not (Text.is_empty s) && (leb (Text.length s) 128 && all_safe s)
