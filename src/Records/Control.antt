-- ===== src/Records/Control.antt =====
-- sentinelgrc.py: `evaluate_control`. The limit of a control is a natural number.
pub mod Risk
use sentinel_grc.Prelude.{
  ℕ, ◌+◌, ◌*◌, Bool, true, false, ◌&&◌, ◌||◌, not, String, Option, none, some, List, [], ◌∷◌,
  if◌then◌else◌, ◌==◌, string_eq, nat_beq, leb, ltb,
}
use sentinel_grc.Prelude.Text
use sentinel_grc.Prelude.Attempt.{Attempt, failed, done, ◌>>=◌, ◌>>◌, given}

-- A JSON value. A number is a natural one, or is below 0, or lies strictly between a natural number and
-- the next one; the text is its shortest one. `compound` is a list or an object, by its text.
pub data Json : Type 0 where
  null : Json
  flag : Bool → Json
  number : ℕ → Json
  negative : String → Json
  between : ℕ → String → Json
  text : String → Json
  compound : String → Json

-- A posture: its keys with their values.
abbrev pub Posture : Type 0
Posture = List (String × Json)

-- An entry of the control catalogue; `expected` and `max_value` may be left out.
pub record Control : Type 0 where
  pub control_id : String
  pub name : String
  pub owner : String
  pub iso27002 : Json
  pub nist_csf : Json
  pub required_field : String
  pub expected : Option Json
  pub max_value : Option ℕ
  pub severity : String

pub data Error : Type 0 where
  missing_max_value unknown_severity criticality_no_text : Error

pub data Expectation : Type 0 where
  equals : Json → Expectation
  at_most : ℕ → Expectation

pub record Result : Type 0 where
  pub control_id : String
  pub control_name : String
  pub owner : String
  pub iso27002 : Json
  pub nist_csf : Json
  pub field : String
  pub expected : Expectation
  pub observed : Json
  pub passed : Bool
  pub severity : String
  pub risk_score : ℕ

-- `dict.get(key)`
unfoldable pub get {ℓ} : {A : Type ℓ} → String → List (String × A) → Option A
get k [] = none
get k ((j, v) ∷ rest) = let later = get k rest in if j == k then some v else later

abbrev pub or_null : Option Json → Json
or_null none = null
or_null (some v) = v

abbrev pub as_number : Bool → ℕ
as_number true = 1
as_number false = 0

-- Python's `==`: True is 1, and False is 0.
abbrev pub same : Json → Json → Bool
same null null = true
same (flag a) (flag b) = nat_beq (as_number a) (as_number b)
same (flag a) (number b) = nat_beq (as_number a) b
same (number a) (flag b) = nat_beq a (as_number b)
same (number a) (number b) = nat_beq a b
same (text a) (text b) = a == b
same (negative a) (negative b) = a == b
same (between m a) (between n b) = nat_beq m n && a == b
same (compound a) (compound b) = a == b
same _ _ = false

-- A number, and no boolean, within the limit.
abbrev pub is_at_most : ℕ → Json → Bool
is_at_most limit (number n) = leb n limit
is_at_most limit (negative s) = true
is_at_most limit (between n s) = ltb n limit
is_at_most limit _ = false

abbrev pub expectation : Control → Attempt Error Expectation
expectation c = elim c.expected [
  | some v ↦ done (equals v)
  | none ↦ elim c.max_value [ some n ↦ done (at_most n) | none ↦ failed missing_max_value ]
]

abbrev pub meets : Expectation → Json → Bool
meets (equals v) observed = same observed v
meets (at_most n) observed = is_at_most n observed

-- SEVERITY_WEIGHT
unfoldable pub severity_weight : String → Attempt Error ℕ
severity_weight s =
    if s == "low"
    then done 1
    else if s == "medium"
    then done 3
    else if s == "high"
    then done 6
    else if s == "critical"
    then done 10
    else failed unknown_severity

-- CRITICALITY_MULTIPLIER, of the text in lower case
unfoldable pub criticality_multiplier : Option Json → Attempt Error ℕ
criticality_multiplier none = done 2
criticality_multiplier (some (text s)) = done (
    if Text.lower_is s "low"
    then 1
    else if Text.lower_is s "medium"
    then 2
    else if Text.lower_is s "high"
    then 3
    else if Text.lower_is s "critical"
    then 4
    else 2)
criticality_multiplier (some null) = failed criticality_no_text
criticality_multiplier (some (flag b)) = failed criticality_no_text
criticality_multiplier (some (number n)) = failed criticality_no_text
criticality_multiplier (some (negative s)) = failed criticality_no_text
criticality_multiplier (some (between n s)) = failed criticality_no_text
criticality_multiplier (some (compound s)) = failed criticality_no_text

-- The weight is looked up only for a control that is not met.
abbrev pub score : Bool → String → ℕ → Attempt Error ℕ
score true severity multiplier = done 0
score false severity multiplier = severity_weight severity >>= λ weight. done (weight * multiplier)

-- `evaluate_control`
unfoldable pub evaluate_control : Control → Posture → Attempt Error Result
evaluate_control c posture =
    let observed = or_null (get c.required_field posture) in
    expectation c >>= λ expected.
    criticality_multiplier (get "criticality" posture) >>= λ multiplier.
    score (meets expected observed) c.severity multiplier >>= λ risk. done (record {
      control_id = c.control_id;
      control_name = c.name;
      owner = c.owner;
      iso27002 = c.iso27002;
      nist_csf = c.nist_csf;
      field = c.required_field;
      expected = expected;
      observed = observed;
      passed = meets expected observed;
      severity = c.severity;
      risk_score = risk;
    })

-- The results of a catalogue.
unfoldable pub evaluate_all : List Control → Posture → Attempt Error (List Result)
evaluate_all [] posture = done []
evaluate_all (c ∷ cs) posture =
    let rest = evaluate_all cs posture in
    evaluate_control c posture >>= λ r. rest >>= λ rs. done (r ∷ rs)
