-- ===== src/Exchange/Minisoar/Gates.antt =====
-- What an accepted incident has shown.
use mathlib.Core.Path.{subst}
use mathlib.Core.Bool.{false≢true}
use sentinel_grc.Prelude.{
  Bool, true, false, ◌&&◌, ◌||◌, not, String, ◌≡◌, sym, ◌∙◌, ap, inl, inr, Option, none, some,
  arith, ◌==◌, string_eq, eq_iff, opt_is, Bool-cases,
}
use sentinel_grc.Prelude.Text
use sentinel_grc.Prelude.Attempt.{
  Attempt, done, need, need-done, given, given-done, done_inj, >>=-eq-done,
}
use sentinel_grc.Exchange.Minisoar.{
  Object, Error, bad_field, bad_kind, not_the_finding, Payload, Library, Alert, Incident, text_of,
  control_for, is_id_of, is_text_of, alert_content, hashed_alert, validated_alert,
  validated_finding_fields, verification_succeeded, validated_verifier, normalize_minisoar_incident,
}

-- The hashes of an alert are those of its content.
pub record IsHashed (lib : Library) (a : Alert) : Type 0 where
  pub identity_is : a.identity_hash ≡ lib.identity_digest a.content.identity
  pub payload_is : a.payload_hash ≡ lib.payload_digest a.content

and_right : (a b : Bool) → a && b ≡ true → b ≡ true
and_right a b h = ground arith

gate_closed : (a b c : Bool) → not a || (not b || (true && not c)) ≡ false → a ≡ true
gate_closed a b c h = ground arith

gate_passed : (a b c : Bool) → not a || (not b || (true && not c)) ≡ false → c ≡ true
gate_passed a b c h = ground arith

IsHashed-same : {lib : Library} {a b : Alert} → a ≡ b → IsHashed lib a → IsHashed lib b
IsHashed-same {lib} same h = subst (IsHashed lib) same h

hashed_alert-IsHashed :
    (lib : Library) (o : Object) (content : Payload) (utc : String) (a : Alert)
    → hashed_alert lib o content utc ≡ done a
    → IsHashed lib a
unfolding hashed_alert
hashed_alert-IsHashed lib o content utc a h =
    let (identity_hash, t1, h1) = >>=-eq-done (text_of o "identity_hash" 64) _ h in
    let (u1, t2, h2) =
      >>=-eq-done
        (need (identity_hash == lib.identity_digest content.identity) (bad_field "identity_hash")) _
        h1 in
    let (alert_id, t3, h3) = >>=-eq-done (text_of o "alert_id" 20) _ h2 in
    let (u2, t4, h4) =
      >>=-eq-done (need (is_id_of "ALT-" alert_id identity_hash) (bad_field "alert_id")) _ h3 in
    let (payload_hash, t5, h5) = >>=-eq-done (text_of o "payload_hash" 64) _ h4 in
    let (u3, t6, h6) =
      >>=-eq-done
        (need (Text.is_hex 64 payload_hash && payload_hash == lib.payload_digest content)
          (bad_field "payload_hash"))
        _ h5 in
    let same = need-done _ _ u1 t2 in
    let both = need-done _ _ u3 t6 in
    let a_is = sym (done_inj h6) in
    record {
      identity_is =
          ap (λ (x : Alert). x.identity_hash) a_is
          ∙ (eq_iff identity_hash (lib.identity_digest content.identity)).0 same
          ∙ ap (λ (x : Alert). lib.identity_digest x.content.identity) (sym a_is);
      payload_is =
          ap (λ (x : Alert). x.payload_hash) a_is
          ∙ (eq_iff payload_hash (lib.payload_digest content)).0 (and_right _ _ both)
          ∙ ap (λ (x : Alert). lib.payload_digest x.content) (sym a_is);
    }

validated_alert-IsHashed :
    (lib : Library) (o : Object) (a : Alert) → validated_alert lib o ≡ done a → IsHashed lib a
unfolding validated_alert
validated_alert-IsHashed lib o a h =
    let ((content, utc), t, rest) = >>=-eq-done (alert_content lib o) _ h in
    hashed_alert-IsHashed lib o content utc a rest

-- The verifier of a verification that has passed.
validated_verifier-some :
    (v : Option Object) (id : String) (passed : Bool) (verifier : Option String)
    → passed ≡ true
    → verification_succeeded v ≡ true
    → validated_verifier v id passed ≡ done verifier
    → (who : String) × (verifier ≡ some who)
validated_verifier-some v id false verifier p good h = absurd (false≢true p)
validated_verifier-some none id true verifier p good h = absurd (false≢true good)
validated_verifier-some (some v) id true verifier p good h =
    let (u, own, h1) = >>=-eq-done (need (is_text_of v "finding_id" id) not_the_finding) _ h in
    let (who, named, h2) = >>=-eq-done (text_of v "verifier_id" 128) _ h1 in
    (who, sym (done_inj h2))

some_done_inj :
    {a b : Incident}
    → ◌≡◌ {A = Attempt Error (Option Incident)} (done (some a)) (done (some b))
    → a ≡ b
some_done_inj h = cc

-- When `normalize_minisoar_incident` makes a finding and a passed verification is required: the finding was
-- closed, its verification has passed, by someone other than its executor, the control is that of the
-- alert's kind, and the hashes of the alert are those of its content.
pub incident_governed :
    (lib : Library) (finding alert : Object) (verification : Option Object) (i : Incident)
    → normalize_minisoar_incident lib finding alert verification true ≡ done (some i)
    → (is_text_of finding "status" "closed" ≡ true)
      × (verification_succeeded verification ≡ true)
      × (who : String) × (i.verifier_id ≡ some who)
      × ((who == i.fields.executor_id) ≡ false)
      × (control_for i.alert.content.identity.kind ≡ some i.control_id)
      × IsHashed lib i.alert
unfolding normalize_minisoar_incident
incident_governed lib finding alert verification i h =
    elim (Bool-cases (
      not (is_text_of finding "status" "closed")
      || (not (is_text_of alert "environment" "synthetic-lab")
          || (true && not (verification_succeeded verification))))) [
            | inl shut ↦ let bad = rw shut at h in absurd (cc)
            | inr open_ ↦
                let closed : is_text_of finding "status" "closed" ≡ true =
                  gate_closed _ _ _ open_ in
                let passed : verification_succeeded verification ≡ true = gate_passed _ _ _ open_ in
                let (a, t1, h1) = >>=-eq-done (validated_alert lib alert) _ (rw open_ at h) in
                let (fields, t2, h2) = >>=-eq-done (validated_finding_fields finding a) _ h1 in
                let (verifier, t3, h3) =
                  >>=-eq-done
                    (validated_verifier verification fields.mini_soar_finding_id
                      (verification_succeeded verification))
                    _ h2 in
                let (who, who_is) =
                  validated_verifier-some verification fields.mini_soar_finding_id
                    (verification_succeeded verification) verifier passed passed t3 in
                elim (Bool-cases (opt_is verifier fields.executor_id)) [
                  | inl self ↦ let bad = rw self at h3 in absurd (cc)
                  | inr other ↦
                      let (control, t4, h4) =
                        >>=-eq-done (given (control_for a.content.identity.kind) bad_kind) _
                          (rw other at h3) in
                      let i_is = sym (some_done_inj h4) in
                      (
                        closed,
                        passed,
                        who,
                        ap (λ (x : Incident). x.verifier_id) i_is ∙ who_is,
                        ap (λ (x : Incident). who == x.fields.executor_id) i_is
                            ∙ ap (λ o. opt_is o fields.executor_id) (sym who_is)
                            ∙ other,
                        ap (λ (x : Incident). control_for x.alert.content.identity.kind) i_is
                            ∙ given-done _ _ control t4
                            ∙ ap (λ (x : Incident). some x.control_id) (sym i_is),
                        IsHashed-same (ap (λ (x : Incident). x.alert) (sym i_is))
                            (validated_alert-IsHashed lib alert a t1),
                      )
                ]
          ]
