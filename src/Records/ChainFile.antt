-- ===== src/Records/ChainFile.antt =====
-- A text file with one JSON object to a line, each bound to the one before it by its hash: what
-- audit_log.py and the ledger of sentinelgrc.py have in common.
pub mod Laws
use sentinel_grc.Prelude.{
  ℕ, zero, suc, ◌+◌, Bool, true, false, ◌&&◌, String, Option, none, some, List, [], ◌∷◌, ◌++◌,
  if◌then◌else◌, ◌==◌, string_eq, opt_is,
}
use sentinel_grc.Prelude.Attempt.{Attempt, failed, done, ◌>>=◌}

-- A line that is a JSON object: the object without its hash, and the hash that it brings along. The
-- text of a line may also be other JSON, or none at all, such as an empty line.
pub data Line (R : Type 0) : Type 0 where
  object_line : R → Option String → Line R
  other_json : Line R
  no_json : Line R
  blank : Line R

-- `undecodable` is a file that is no UTF-8 text, or that cannot be read. The text ends with a line end,
-- as every writer leaves it.
pub data File (R : Type 0) : Type 0 where
  absent : File R
  undecodable : File R
  lines : List (Line R) → File R

-- What the two modules differ in: the hash of an object, the `previous_hash` that it holds, and how many
-- of the characters in its text `str.splitlines` takes for line ends.
pub record Chained (R : Type 0) : Type 0 where
  pub digest : R → String
  pub previous : R → Option String
  pub breaks : R → ℕ

pub data Verdict : Type 0 where
  empty : Verdict
  intact : Verdict
  not_object : ℕ → Verdict
  broken : ℕ → Verdict
  unreadable : Verdict

pub data Refusal : Type 0 where
  invalid : Verdict → Refusal
  no_text : Refusal

-- GENESIS_HASH
abbrev pub genesis : String
genesis = "0000000000000000000000000000000000000000000000000000000000000000"

abbrev pub is_valid : Verdict → Bool
is_valid empty = true
is_valid intact = true
is_valid (not_object n) = false
is_valid (broken n) = false
is_valid unreadable = false

abbrev pub hash_or : String → Option String → String
hash_or d none = d
hash_or d (some h) = h

module _ {R : Type 0} where
  -- The text is empty but for white space.
  abbrev pub is_blank : List (Line R) → Bool
  is_blank [] = true
  is_blank (blank ∷ ls) = is_blank ls
  is_blank (object_line r h ∷ ls) = false
  is_blank (other_json ∷ ls) = false
  is_blank (no_json ∷ ls) = false

  abbrev pub lines_of : File R → List (Line R)
  lines_of absent = []
  lines_of undecodable = []
  lines_of (lines ls) = ls

  -- The hash in the last line.
  abbrev pub last_or : String → List (Line R) → String
  last_or d [] = d
  last_or d (object_line r h ∷ ls) = last_or (hash_or d h) ls
  last_or d (other_json ∷ ls) = last_or d ls
  last_or d (no_json ∷ ls) = last_or d ls
  last_or d (blank ∷ ls) = last_or d ls

  module _ (c : Chained R) where
    abbrev pub fits : String → R → Option String → Bool
    fits previous r h = opt_is (c.previous r) previous && opt_is h (c.digest r)

    -- The loop over the lines, from line `n`.
    unfoldable pub check_lines : ℕ → String → List (Line R) → Verdict
    check_lines n previous [] = intact
    check_lines n previous (object_line r h ∷ ls) =
        let rest = check_lines (n + 1) (hash_or "" h) ls in
        if fits previous r h then rest else broken n
    check_lines n previous (other_json ∷ ls) = not_object n
    check_lines n previous (no_json ∷ ls) = unreadable
    check_lines n previous (blank ∷ ls) = unreadable

    unfoldable pub verify : File R → Verdict
    verify absent = empty
    verify undecodable = unreadable
    verify (lines ls) = check_lines 1 genesis ls

    -- The hash to append behind.
    unfoldable pub last_hash : File R → Attempt Refusal String
    last_hash absent = done genesis
    last_hash undecodable = failed no_text
    last_hash (lines ls) =
        if is_blank ls
        then done genesis
        else if is_valid (check_lines 1 genesis ls)
        then done (last_or genesis ls)
        else failed (invalid (check_lines 1 genesis ls))

    -- A record as `splitlines` will read it back: where it is cut, its first piece is no JSON, and
    -- nothing behind that is read.
    abbrev pub pieces : ℕ → List (Line R)
    pieces zero = []
    pieces (suc n) = no_json ∷ pieces n

    abbrev pub written : ℕ → R → List (Line R)
    written zero r = object_line r (some (c.digest r)) ∷ []
    written (suc n) r = no_json ∷ pieces (suc n)

    -- The record that `build` makes from the hash before it, and the file with its text at the end.
    unfoldable pub append : (String → R) → File R → Attempt Refusal (R × File R)
    append build file = last_hash file >>= λ previous.
        let r = build previous in done (r, lines (lines_of file ++ written (c.breaks r) r))
