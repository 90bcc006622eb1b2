-- ===== src/Records/Ledger/Runs.antt =====
-- A pipeline run that is repeated finds the record of the first time.
use mathlib.Core.Bool.{false≢true}
use mathlib.Core.Path.{subst}
use sentinel_grc.Prelude.{
  false, ◌==◌, eq_iff, All, ◌⊎◌, Bool-cases, some_inj, true, String, ◌≡◌, refl, sym, ◌∙◌, ap,
  Option, none, some, List, [], ◌∷◌, ◌++◌, arith, string_eq, beq_refl, Option-cases, inl, inr,
}
use sentinel_grc.Prelude.Attempt.{done, done_inj}
use sentinel_grc.Records.ChainFile.{
  Line, object_line, other_json, no_json, blank, File, lines, is_valid, lines_of, last_or, genesis,
}
use sentinel_grc.Records.Control.{
  Posture, Result, get, text, null, flag, number, negative, between, compound,
}
use sentinel_grc.Records.Ledger.{
  Value, json, asset, results, as_text, Dict, put, update_all, build_evidence, verify_ledger,
  has_text, find_input, find_ledger_record, run_extra, ensure_record,
}
use sentinel_grc.Records.Ledger.Laws.{append_evidence_atomic-verifies, append-chain}

find_input-append :
    (h : String) (ls : List (Line Dict)) (d : Dict) (own : Option String)
    → find_input h ls ≡ none
    → has_text "input_hash" h d ≡ true
    → find_input h (ls ++ object_line d own ∷ []) ≡ some d
unfolding find_input
find_input-append h [] d own missing named = rw named refl
find_input-append h (object_line e k ∷ ls) d own missing named =
    ground (arith, find_input-append h ls d own)
find_input-append h (other_json ∷ ls) d own missing named =
    find_input-append h ls d own missing named
find_input-append h (no_json ∷ ls) d own missing named = find_input-append h ls d own missing named
find_input-append h (blank ∷ ls) d own missing named = find_input-append h ls d own missing named

named_after :
    (stamp : String) (posture : Posture) (rs : List Result) (h run previous : String)
    → has_text "input_hash" h (build_evidence stamp posture rs (run_extra h run) previous) ≡ true
unfolding get update_all put
named_after stamp posture rs h run previous = beq_refl h

no_previous : (h run : String) → get "previous_hash" (run_extra h run) ≡ none
unfolding get
no_previous h run = refl

no_hash : (h run : String) → get "record_hash" (run_extra h run) ≡ none
unfolding get
no_hash h run = refl

value-text :
    (h : String) (o : Option Value)
    → elim (as_text o) [ none ↦ false | some t ↦ t == h ] ≡ true
    → o ≡ some (json (text h))
value-text h (some (json (text s))) e = ap (λ t. some (json (text t))) ((eq_iff s h).0 e)
value-text h none e = absurd (false≢true e)
value-text h (some (json null)) e = absurd (false≢true e)
value-text h (some (json (flag b))) e = absurd (false≢true e)
value-text h (some (json (number n))) e = absurd (false≢true e)
value-text h (some (json (negative s))) e = absurd (false≢true e)
value-text h (some (json (between n s))) e = absurd (false≢true e)
value-text h (some (json (compound s))) e = absurd (false≢true e)
value-text h (some (asset a)) e = absurd (false≢true e)
value-text h (some (results rs)) e = absurd (false≢true e)

-- The record is of that input hash.
abbrev pub IsOf : String → Dict → Type 0
IsOf h d = get "input_hash" d ≡ some (json (text h))

has_text-IsOf : (h : String) (d : Dict) → has_text "input_hash" h d ≡ true → IsOf h d
has_text-IsOf h d e = value-text h (get "input_hash" d) e

IsOf-has_text : (h : String) (d : Dict) → IsOf h d → has_text "input_hash" h d ≡ true
IsOf-has_text h d e = rw (has_text, e) (beq_refl h)

-- The line is no record of that input hash.
abbrev pub IsOther : String → Line Dict → Type 0
IsOther h (object_line d own) = ¬ IsOf h d
IsOther h other_json = Unit
IsOther h no_json = Unit
IsOther h blank = Unit

-- The record is the first one of that input hash.
abbrev pub IsFirst : String → Dict → List (Line Dict) → Type 0
IsFirst h d ls =
    (before after_ : List (Line Dict)) × (own : Option String) × (ls
      ≡ before ++ object_line d own ∷ after_)
    × All (IsOther h) before

IsFirst-later :
    (h : String) (d : Dict) (l : Line Dict) (ls : List (Line Dict))
    → IsOther h l
    → IsFirst h d ls
    → IsFirst h d (l ∷ ls)
IsFirst-later h d l ls other (before, after_, own, split, rest) =
    (l ∷ before, after_, own, ap (λ xs. l ∷ xs) split, (other, rest))

missing-IsOther :
    (h : String) (d : Dict) (own : Option String)
    → has_text "input_hash" h d ≡ false
    → IsOther h (object_line d own)
missing-IsOther h d own miss is_of = false≢true (sym miss ∙ IsOf-has_text h d is_of)

find_input-IsFirst :
    (h : String) (ls : List (Line Dict)) (d : Dict)
    → find_input h ls ≡ some d
    → IsOf h d × IsFirst h d ls
unfolding find_input
find_input-IsFirst h [] d found = absurd (cc)
find_input-IsFirst h (object_line e k ∷ ls) d found =
    elim (Bool-cases (has_text "input_hash" h e)) [
      | inl hit ↦
          let e_is = some_inj (rw hit at found) in
          (
            subst (IsOf h) e_is (has_text-IsOf h e hit),
            ([], ls, k, ap (λ x. object_line x k ∷ ls) e_is, tt),
          )
      | inr miss ↦
          let (is_of, first) = find_input-IsFirst h ls d (rw miss at found) in
          (is_of, IsFirst-later h d (object_line e k) ls (missing-IsOther h e k miss) first)
    ]
find_input-IsFirst h (other_json ∷ ls) d found =
    let (is_of, first) = find_input-IsFirst h ls d found in
    (is_of, IsFirst-later h d other_json ls tt first)
find_input-IsFirst h (no_json ∷ ls) d found =
    let (is_of, first) = find_input-IsFirst h ls d found in
    (is_of, IsFirst-later h d no_json ls tt first)
find_input-IsFirst h (blank ∷ ls) d found =
    let (is_of, first) = find_input-IsFirst h ls d found in
    (is_of, IsFirst-later h d blank ls tt first)

find_input-missing :
    (h : String) (ls : List (Line Dict)) → find_input h ls ≡ none → All (IsOther h) ls
unfolding find_input
find_input-missing h [] missing = tt
find_input-missing h (object_line e k ∷ ls) missing =
    elim (Bool-cases (has_text "input_hash" h e)) [
      | inl hit ↦ let bad = rw hit at missing in absurd (cc)
      | inr miss ↦ (missing-IsOther h e k miss, find_input-missing h ls (rw miss at missing))
    ]
find_input-missing h (other_json ∷ ls) missing = (tt, find_input-missing h ls missing)
find_input-missing h (no_json ∷ ls) missing = (tt, find_input-missing h ls missing)
find_input-missing h (blank ∷ ls) missing = (tt, find_input-missing h ls missing)

find_input-none : (h : String) (ls : List (Line Dict)) → All (IsOther h) ls → find_input h ls ≡ none
unfolding find_input
find_input-none h [] others = refl
find_input-none h (object_line e k ∷ ls) (other, others) =
    elim (Bool-cases (has_text "input_hash" h e)) [
      | inl hit ↦ absurd (other (has_text-IsOf h e hit))
      | inr miss ↦ rw (miss, find_input-none h ls others) refl
    ]
find_input-none h (other_json ∷ ls) (u, others) = find_input-none h ls others
find_input-none h (no_json ∷ ls) (u, others) = find_input-none h ls others
find_input-none h (blank ∷ ls) (u, others) = find_input-none h ls others

-- A pipeline run's record, with a ledger that verifies, and that others, while the run looks for it and has
-- not yet appended it, leave verified and add no record of the run's input hash to: the run gets a record
-- with its input hash, which is the first such record of the ledger, left as it is, or, if the ledger has
-- none, is appended behind what the others left; the ledger then verifies; and every later run of the
-- same input hash, whatever its posture, results, clock and identifier, gets the same record and
-- leaves the ledger as it is.
pub ensure_record-again :
    (digest : Dict → String) (stamp : String) (posture : Posture) (rs : List Result)
    (h run : String) (meanwhile : File Dict → File Dict) (file : File Dict)
    → is_valid (verify_ledger digest file) ≡ true
    → is_valid (verify_ledger digest (meanwhile file)) ≡ true
    → (All (IsOther h) (lines_of file) → All (IsOther h) (lines_of (meanwhile file)))
    → (d : Dict) × (longer : File Dict) × (ensure_record digest stamp posture rs h run meanwhile
          file
        ≡ done (d, longer))
      × (is_valid (verify_ledger digest longer) ≡ true)
      × IsOf h d
      × ((IsFirst h d (lines_of file) × (longer ≡ file))
          ⊎ (All (IsOther h) (lines_of file)
              × (lines_of longer
                  ≡ lines_of (meanwhile file) ++ object_line d (some (digest d)) ∷ [])))
      × ((stamp' : String) (posture' : Posture) (rs' : List Result) (run' : String)
            (meanwhile' : File Dict → File Dict)
          → ensure_record digest stamp' posture' rs' h run' meanwhile' longer ≡ done (d, longer))
unfolding ensure_record find_ledger_record
ensure_record-again digest stamp posture rs h run meanwhile file v w fresh =
    elim (Option-cases (find_input h (lines_of file))) [
      | inl missing ↦
          let now = meanwhile file in
          let none_ = find_input-missing h (lines_of file) missing in
          let (d, ran, whole, last) =
            append_evidence_atomic-verifies digest stamp posture rs (run_extra h run) now w
              (no_previous h run) (no_hash h run) in
          let d_is : d
              ≡ build_evidence stamp posture rs (run_extra h run) (last_or genesis (lines_of now)) =
            ap (λ (p : Dict × File Dict). p.0)
              (done_inj (
                sym ran
                ∙ append-chain digest stamp posture rs (run_extra h run) now w (no_hash h run))) in
          let named : has_text "input_hash" h d ≡ true =
            rw d_is (named_after stamp posture rs h run (last_or genesis (lines_of now))) in
          let still = find_input-none h (lines_of now) (fresh none_) in
          (
            d,
            lines (lines_of now ++ object_line d (some (digest d)) ∷ []),
            rw (v, missing) ran,
            rw whole refl,
            has_text-IsOf h d named,
            inr (none_, refl),
            λ stamp' posture' rs' run' meanwhile'.
                rw (whole, find_input-append h (lines_of now) d (some (digest d)) still named) refl,
          )
      | inr (d, found) ↦
          let (is_of, first) = find_input-IsFirst h (lines_of file) d found in
          (
            d,
            file,
            rw (v, found) refl,
            v,
            is_of,
            inl (first, refl),
            λ stamp' posture' rs' run' meanwhile'. rw (v, found) refl,
          )
    ]
