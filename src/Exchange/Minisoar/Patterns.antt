-- ===== src/Exchange/Minisoar/Patterns.antt =====
-- contract_validation.py: `is_canonical_text` and `is_evidence_reference`.
use Prim.Native.Char.{code}
use sentinel_grc.Prelude.{
  ℕ, Bool, true, false, ◌&&◌, ◌||◌, not, String, Option, none, some, if◌then◌else◌, leb, nat_beq,
}
use sentinel_grc.Prelude.Text

-- A control, a space without width, a separator of lines, or a byte order mark.
abbrev pub is_barred : ℕ → Bool
is_barred c =
    leb c 0x1f
    || ((leb 0x7f c && leb c 0x9f)
        || (nat_beq c 0x200b || (nat_beq c 0x2028 || (nat_beq c 0x2029 || nat_beq c 0xfeff))))

unfoldable pub all_shown : String → Bool
all_shown String.[] = true
all_shown (String.◌∷◌ c s) = not (is_barred (code c)) && all_shown s

unfoldable pub ends_shown : String → Bool
ends_shown String.[] = true
ends_shown (String.◌∷◌ c s) = if Text.is_empty s then not (Text.is_space (code c)) else ends_shown s

abbrev pub starts_shown : String → Bool
starts_shown String.[] = false
starts_shown (String.◌∷◌ c s) = not (Text.is_space (code c))

-- `is_canonical_text`
unfoldable pub is_canonical_text : String → ℕ → Bool
is_canonical_text s maximum =
    leb (Text.length s) maximum && (starts_shown s && (ends_shown s && all_shown s))

unfoldable pub all_solid : String → Bool
all_solid String.[] = true
all_solid (String.◌∷◌ c s) = not (is_barred (code c) || Text.is_space (code c)) && all_solid s

unfoldable pub rest_of : String → String → Option String
rest_of String.[] s = some s
rest_of (String.◌∷◌ p ps) String.[] = none
rest_of (String.◌∷◌ p ps) (String.◌∷◌ c s) =
    let rest = rest_of ps s in if nat_beq (code p) (code c) then rest else none

abbrev pub is_alphanumeric : ℕ → Bool
is_alphanumeric c = (leb 65 c && leb c 90) || ((leb 97 c && leb c 122) || (leb 48 c && leb c 57))

-- The host and what follows; `inside` says that the last character was a letter or a digit, and `label`
-- that the label has begun.
unfoldable pub host_from : Bool → Bool → String → Bool
host_from inside label String.[] = inside
host_from inside label (String.◌∷◌ c s) =
    let next_ = host_from true true s in
    let dash = host_from false true s in
    let dot = host_from false false s in
    if is_alphanumeric (code c)
    then next_
    else if nat_beq (code c) 45
    then label && dash
    else if nat_beq (code c) 46
    then inside && dot
    else inside
      && ((nat_beq (code c) 47 || (nat_beq (code c) 63 || nat_beq (code c) 35)) && all_solid s)

abbrev pub is_url : String → String → Bool
is_url scheme s = elim (rest_of scheme s) [ none ↦ false | some rest ↦ host_from false false rest ]

abbrev pub is_urn : String → Bool
is_urn s = elim (rest_of "urn:" s) [
  | none ↦ false
  | some rest ↦ not (Text.is_empty rest) && all_solid rest
]

-- `is_evidence_reference`
unfoldable pub is_evidence_reference : String → Bool
is_evidence_reference s =
    is_canonical_text s 512
    && (is_urn s || (is_url "https://" s || (is_url "azblob://" s || is_url "sample://" s)))
