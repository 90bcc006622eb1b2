-- ===== src/Records/AuditLog/Tampering.antt =====
-- What the log reveals and what breaks it.
use sentinel_grc.Prelude.{
  ◌-◌, ◌≤◌, true, String, ◌≡◌, ◌≢◌, sym, ◌∙◌, ◌⊎◌, inl, inr, arith, ◌==◌, string_eq, eq_iff, length,
  Bool-cases, ap, ◌++◌,
}
use sentinel_grc.Prelude.Attempt.{failed, done}
use sentinel_grc.Records.ChainFile.{
  File, lines, is_valid, unreadable, invalid, last_or, lines_of, genesis, written,
}
use sentinel_grc.Records.ChainFile.Laws.{
  Collision, Links-unique, whole-Links, append-cut, append-whole,
}
use sentinel_grc.Records.AuditLog.{
  Entry, Event, chain, append, verify, refused, entry_of, entry_breaks, as_error,
}

String_discrete : Discrete String
String_discrete s t = elim (Bool-cases (s == t)) [
  | inl same ↦ yes ((eq_iff s t).0 same)
  | inr other ↦ no (λ e. cc (sym other ∙ (eq_iff s t).1 e))
]

Entry-discrete : Discrete Entry
Entry-discrete = hlevel String_discrete

decide : (a b : Entry) → (a ≡ b) ⊎ (a ≢ b)
decide a b = elim (Entry-discrete a b) [ yes e ↦ inl e | no n ↦ inr n ]

-- Two logs that verify, with as many lines and the same hash in the last one, have the same lines, or
-- show two different objects of one SHA-256 hash.
pub audit_log_tamper_evident :
    (digest : Entry → String) (a b : File Entry)
    → is_valid (verify digest a) ≡ true
    → is_valid (verify digest b) ≡ true
    → length (lines_of a) ≡ length (lines_of b)
    → last_or genesis (lines_of a) ≡ last_or genesis (lines_of b)
    → (lines_of a ≡ lines_of b) ⊎ Collision (chain digest)
unfolding verify
audit_log_tamper_evident digest a b v w n same =
    elim (Links-unique (chain digest) decide (lines_of a) (lines_of b) genesis genesis n
      (whole-Links (chain digest) a v) (whole-Links (chain digest) b w) same) [
        | inl both ↦ inl both.1
        | inr hit ↦ inr hit
      ]

-- An append to a log that verifies, of an event with a text that has one of U+0085, U+2028 and U+2029,
-- returns, and leaves a log that `verify` finds unreadable, and that refuses every append from then on.
pub audit_log_cut :
    (digest : Entry → String) (k : String) (event : Event) (stamp : String) (file : File Entry)
    → is_valid (verify digest file) ≡ true
    → 1 ≤ entry_breaks (entry_of k event stamp "")
    → (e : Entry) × (file' : File Entry) × (append digest k event stamp file ≡ done (e, file'))
      × (verify digest file' ≡ unreadable)
      × ((j : String) (next_ : Event) (later : String)
          → append digest j next_ later file' ≡ failed (refused (invalid unreadable)))
unfolding verify append
audit_log_cut digest k event stamp file v cut =
    let build = entry_of k event stamp in
    let e = build (last_or genesis (lines_of file)) in
    let file' = lines (lines_of file ++ written (chain digest) (entry_breaks e) e) in
    let plain = append-whole (chain digest) build file v in
    (
      e,
      file',
      ap as_error plain,
      (append-cut (chain digest) build build file file' e (entry_breaks e - 1) v plain
          (omega arith)).0,
      λ j next_ later.
          ap as_error
            (append-cut (chain digest) build (entry_of j next_ later) file file' e
              (entry_breaks e - 1) v plain (omega arith)).1,
    )
