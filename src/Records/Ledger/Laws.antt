-- ===== src/Records/Ledger/Laws.antt =====
-- What an append to the ledger leaves behind.
use sentinel_grc.Prelude.{
  true, false, String, ◌≡◌, refl, ◌∙◌, ap, inl, inr, none, some, List, [], ◌∷◌, ◌++◌, ◌==◌,
  string_eq, eq_iff, Bool-cases,
}
use sentinel_grc.Prelude.Attempt.{done}
use sentinel_grc.Records.ChainFile
use sentinel_grc.Records.ChainFile.{
  Line, object_line, other_json, no_json, blank, File, absent, undecodable, lines, is_valid,
  is_blank, lines_of, last_or, genesis, check_lines, intact,
}
use sentinel_grc.Records.ChainFile.Laws.{append-verify, append-whole, blank-Links, whole-Links}
use sentinel_grc.Records.Control.{Posture, Result, get}
use sentinel_grc.Records.Ledger.{
  Value, Dict, put, update_all, without, as_text, build_evidence, chain, verify_ledger,
  read_last_hash, append_evidence_atomic,
}

get-put-other :
    (k j : String) (v : Value) (d : Dict) → (k == j) ≡ false → get j (put k v d) ≡ get j d
unfolding get put
get-put-other k j v [] apart = rw apart refl
get-put-other k j v ((i, w) ∷ rest) apart = elim (Bool-cases (i == k)) [
  | inl hit ↦
      let i_apart : (i == j) ≡ false = rw ((eq_iff i k).0 hit) apart in rw (hit, i_apart) refl
  | inr miss ↦ rw (miss, get-put-other k j v rest apart) refl
]

get-update_all :
    (j : String) (extra d : Dict) → get j extra ≡ none → get j (update_all extra d) ≡ get j d
unfolding get update_all
get-update_all j [] d h = refl
get-update_all j ((k, v) ∷ extra) d h = elim (Bool-cases (k == j)) [
  | inl hit ↦ (let found = rw hit at h in absurd (cc))
  | inr miss ↦ get-update_all j extra (put k v d) (rw miss at h) ∙ get-put-other k j v d miss
]

without-missing : (k : String) (d : Dict) → get k d ≡ none → without k d ≡ d
unfolding get without
without-missing k [] h = refl
without-missing k ((j, w) ∷ rest) h = elim (Bool-cases (j == k)) [
  | inl hit ↦ (let found = rw hit at h in absurd (cc))
  | inr miss ↦ rw miss (ap (λ d. (j, w) ∷ d) (without-missing k rest (rw miss at h)))
]

-- A field that `extra` leaves alone.
get-build_evidence :
    (key stamp : String) (posture : Posture) (rs : List Result) (extra : Dict) (previous : String)
    → get key extra ≡ none
    → get key (build_evidence stamp posture rs extra previous)
      ≡ get key (build_evidence stamp posture rs [] previous)
unfolding update_all
get-build_evidence key stamp posture rs extra previous h =
    get-update_all key extra (build_evidence stamp posture rs [] previous) h

read_last_hash-whole :
    (digest : Dict → String) (file : File Dict)
    → is_valid (verify_ledger digest file) ≡ true
    → read_last_hash digest file ≡ done (last_or genesis (lines_of file))
unfolding read_last_hash verify_ledger
read_last_hash-whole digest file v = elim (Bool-cases (is_blank (lines_of file))) [
  | inl b ↦
      rw
        (
          v,
          b,
          blank-Links (chain digest) (lines_of file) genesis genesis
              (whole-Links (chain digest) file v) b,
        )
        refl
  | inr filled ↦ rw (v, filled) refl
]

bare :
    (stamp : String) (posture : Posture) (rs : List Result) (previous : String)
    → get "record_hash" (build_evidence stamp posture rs [] previous) ≡ none
unfolding get update_all
bare stamp posture rs previous = refl

linked :
    (stamp : String) (posture : Posture) (rs : List Result) (previous : String)
    → as_text (get "previous_hash" (build_evidence stamp posture rs [] previous)) ≡ some previous
unfolding get update_all
linked stamp posture rs previous = refl

-- On a ledger that verifies, and with no hashes in `extra`, the append is that of a chain.
pub append-chain :
    (digest : Dict → String) (stamp : String) (posture : Posture) (rs : List Result) (extra : Dict)
    (file : File Dict)
    → is_valid (verify_ledger digest file) ≡ true
    → get "record_hash" extra ≡ none
    → append_evidence_atomic digest stamp posture rs extra file
      ≡ done (
        build_evidence stamp posture rs extra (last_or genesis (lines_of file)),
        lines (
            lines_of file
            ++ object_line
                (build_evidence stamp posture rs extra (last_or genesis (lines_of file)))
                (some (
                  digest (build_evidence stamp posture rs extra (last_or genesis (lines_of file)))))
              ∷ []),
      )
unfolding append_evidence_atomic
append-chain digest stamp posture rs extra file v clean =
    rw
      (
        read_last_hash-whole digest file v,
        without-missing "record_hash"
            (build_evidence stamp posture rs extra (last_or genesis (lines_of file)))
            (get-build_evidence "record_hash" stamp posture rs extra
                (last_or genesis (lines_of file)) clean
              ∙ bare stamp posture rs (last_or genesis (lines_of file))),
      )
      refl

last_or-append :
    (ls : List (Line Dict)) (p x : String) (d : Dict)
    → last_or p (ls ++ object_line d (some x) ∷ []) ≡ x
last_or-append [] p x d = refl
last_or-append (object_line r none ∷ ls) p x d = last_or-append ls p x d
last_or-append (object_line r (some h) ∷ ls) p x d = last_or-append ls h x d
last_or-append (other_json ∷ ls) p x d = last_or-append ls p x d
last_or-append (no_json ∷ ls) p x d = last_or-append ls p x d
last_or-append (blank ∷ ls) p x d = last_or-append ls p x d

-- An append of evidence whose extra fields name neither hash succeeds on a ledger that verifies: the new
-- ledger is the old one with the record at the end, it verifies, and its last hash is the record's.
pub append_evidence_atomic-verifies :
    (digest : Dict → String) (stamp : String) (posture : Posture) (rs : List Result) (extra : Dict)
    (file : File Dict)
    → is_valid (verify_ledger digest file) ≡ true
    → get "previous_hash" extra ≡ none
    → get "record_hash" extra ≡ none
    → (d : Dict) × (append_evidence_atomic digest stamp posture rs extra file
        ≡ done (d, lines (lines_of file ++ object_line d (some (digest d)) ∷ [])))
      × (verify_ledger digest (lines (lines_of file ++ object_line d (some (digest d)) ∷ []))
          ≡ intact)
      × (read_last_hash digest (lines (lines_of file ++ object_line d (some (digest d)) ∷ []))
          ≡ done (digest d))
unfolding verify_ledger
append_evidence_atomic-verifies digest stamp posture rs extra file v no_previous no_hash =
    let build = build_evidence stamp posture rs extra in
    let d = build (last_or genesis (lines_of file)) in
    let longer = lines (lines_of file ++ object_line d (some (digest d)) ∷ []) in
    let chained : (h : String) → as_text (get "previous_hash" (build h)) ≡ some h = λ h.
      ap as_text (get-build_evidence "previous_hash" stamp posture rs extra h no_previous)
      ∙ linked stamp posture rs h in
    let whole : ChainFile.verify (chain digest) longer ≡ intact =
      (append-verify (chain digest) build file longer d chained v
        (append-whole (chain digest) build file v) refl).0 in
    let last = read_last_hash-whole digest longer (rw whole refl) in
    (
      d,
      append-chain digest stamp posture rs extra file v no_hash,
      whole,
      last ∙ ap done (last_or-append (lines_of file) genesis (digest d) d),
    )
