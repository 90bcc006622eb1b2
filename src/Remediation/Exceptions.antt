-- ===== src/Remediation/Exceptions.antt =====
-- An exception holds until its day.
use sentinel_grc.Prelude.{
  true, ℕ, Bool, false, ◌&&◌, not, String, ◌≡◌, refl, sym, ◌∙◌, ap, inl, inr, Option, none, some,
  List, [], ◌∷◌, arith, if◌then◌else◌, ◌==◌, string_eq, eq_iff, find, leb, Bool-cases, some_inj,
  Option-cases,
}
use sentinel_grc.Prelude.Text
use sentinel_grc.Prelude.Attempt.{done, need, need-done, given, given-done, done_inj, >>=-eq-done}
use sentinel_grc.Remediation.{
  Exception, Finding, Queue, approver_and_reason, bad_date, not_in_future, not_open, is_blank,
  accepted, accept_in, approve_exception, expired_by, expire_in, expire_exceptions, reopened,
}

abbrev pub has_id : String → Finding → Bool
has_id id f = f.finding_id == id

-- The first finding of that identifier, which is the one that `approve_exception` takes.
abbrev pub finding_in : String → Queue → Option Finding
finding_in id q = find (has_id id) q.findings

accept_in-done :
    (e : Exception) (id : String) (fs after_ : List Finding)
    → accept_in e id fs ≡ done after_
    → (f : Finding) × (find (has_id id) fs ≡ some f)
      × (f.status ≡ "open")
      × (find (has_id id) after_ ≡ some (accepted e f))
unfolding accept_in
accept_in-done e id [] after_ h = absurd (cc)
accept_in-done e id (x ∷ xs) after_ h = elim (Bool-cases (has_id id x)) [
  | inl hit ↦
      let (u, open_, h1) = >>=-eq-done (need (x.status == "open") not_open) _ (rw hit at h) in
      (
        x,
        rw hit refl,
        (eq_iff x.status "open").0 (need-done _ _ u open_),
        rw (← done_inj h1) (rw hit refl),
      )
  | inr miss ↦
      let (more, rest, h1) = >>=-eq-done (accept_in e id xs) _ (rw miss at h) in
      let (f, found, open_, now) = accept_in-done e id xs more rest in
      (f, rw miss found, open_, rw (← done_inj h1) (rw miss now))
]

accept_in-other :
    (e : Exception) (id j : String) (fs after_ : List Finding)
    → accept_in e id fs ≡ done after_
    → (id == j) ≡ false
    → find (has_id j) after_ ≡ find (has_id j) fs
unfolding accept_in
accept_in-other e id j [] after_ h apart = absurd (cc)
accept_in-other e id j (x ∷ xs) after_ h apart = elim (Bool-cases (has_id id x)) [
  | inl hit ↦
      let (u, open_, h1) = >>=-eq-done (need (x.status == "open") not_open) _ (rw hit at h) in
      let other : has_id j x ≡ false = rw ((eq_iff x.finding_id id).0 hit) apart in
      rw (← done_inj h1) (rw other refl)
  | inr miss ↦
      let (more, rest, h1) = >>=-eq-done (accept_in e id xs) _ (rw miss at h) in
      rw (← done_inj h1, accept_in-other e id j xs more rest apart) refl
]

expired_by-id :
    (from_iso : String → Option ℕ) (today : ℕ) (f g : Finding) (o : Option Exception)
    → expired_by from_iso today f o ≡ done g
    → g.finding_id ≡ f.finding_id
expired_by-id from_iso today f g none h = ap (λ (x : Finding). x.finding_id) (sym (done_inj h))
expired_by-id from_iso today f g (some e) h =
    elim (Bool-cases (f.status == "accepted-risk" && not (Text.is_empty e.expires_on))) [
      | inr miss ↦ ap (λ (x : Finding). x.finding_id) (sym (done_inj (rw miss at h)))
      | inl hit ↦
          let (day, known, h1) =
            >>=-eq-done (given (from_iso e.expires_on) bad_date) _ (rw hit at h) in
          elim (Bool-cases (leb day today)) [
            | inl over ↦ ap (λ (x : Finding). x.finding_id) (sym (done_inj (rw over at h1)))
            | inr still ↦ ap (λ (x : Finding). x.finding_id) (sym (done_inj (rw still at h1)))
          ]
    ]

expire_in-find :
    (from_iso : String → Option ℕ) (today : ℕ) (id : String) (fs after_ : List Finding)
    (f : Finding)
    → expire_in from_iso today fs ≡ done after_
    → find (has_id id) fs ≡ some f
    → (g : Finding) × (expired_by from_iso today f f.exception ≡ done g)
      × (find (has_id id) after_ ≡ some g)
unfolding expire_in
expire_in-find from_iso today id [] after_ f h found = absurd (cc)
expire_in-find from_iso today id (x ∷ xs) after_ f h found =
    let (g, one, h1) = >>=-eq-done (expired_by from_iso today x x.exception) _ h in
    let (more, rest, h2) = >>=-eq-done (expire_in from_iso today xs) _ h1 in
    let same = expired_by-id from_iso today x g x.exception one in
    elim (Bool-cases (has_id id x)) [
      | inl hit ↦
          (g, rw (← some_inj (rw hit at found)) one, rw (← done_inj h2) (rw (same, hit) refl))
      | inr miss ↦
          let (k, step, now) = expire_in-find from_iso today id xs more f rest (rw miss at found) in
          (k, step, rw (← done_inj h2) (rw (same, miss) now))
    ]

not_blank-nonempty :
    (s : String) (day : ℕ) (from_iso : String → Option ℕ)
    → from_iso "" ≡ none
    → from_iso s ≡ some day
    → Text.is_empty s ≡ false
not_blank-nonempty String.[] day from_iso bare known = absurd (cc)
not_blank-nonempty (String.◌∷◌ c s) day from_iso bare known = refl

abbrev status_at : ℕ → ℕ → String
status_at expiry day = if leb expiry day then "open" else "accepted-risk"

accepted_expires :
    (from_iso : String → Option ℕ) (e : Exception) (f g : Finding) (expiry day : ℕ)
    → from_iso "" ≡ none
    → from_iso e.expires_on ≡ some expiry
    → expired_by from_iso day (accepted e f) (some e) ≡ done g
    → g.status ≡ status_at expiry day
accepted_expires from_iso e f g expiry day bare known h =
    let filled = not_blank-nonempty e.expires_on expiry from_iso bare known in
    elim (Bool-cases (leb expiry day)) [
      | inl over ↦
          rw over (ap (λ (x : Finding). x.status) (sym (done_inj (rw (filled, known, over) at h))))
      | inr still ↦
          rw still
            (ap (λ (x : Finding). x.status) (sym (done_inj (rw (filled, known, still) at h))))
    ]

-- The exception has a date, and that day has come.
abbrev pub is_past : (String → Option ℕ) → ℕ → Option Exception → Bool
is_past from_iso today none = false
is_past from_iso today (some e) = elim (from_iso e.expires_on) [
  | none ↦ false
  | some expiry ↦ leb expiry today
]

-- The finding is an accepted risk whose exception is past.
abbrev pub is_over : (String → Option ℕ) → ℕ → Finding → Bool
is_over from_iso today f = f.status == "accepted-risk" && is_past from_iso today f.exception

is_past-undated :
    (from_iso : String → Option ℕ) (today : ℕ) (e : Exception)
    → from_iso e.expires_on ≡ none
    → is_past from_iso today (some e) ≡ false
is_past-undated from_iso today e undated = rw (is_past, undated) refl

is_past-dated :
    (from_iso : String → Option ℕ) (today day : ℕ) (e : Exception)
    → from_iso e.expires_on ≡ some day
    → is_past from_iso today (some e) ≡ leb day today
is_past-dated from_iso today day e known = rw (is_past, known) refl

-- What becomes of a finding is chosen by one test.
chosen :
    (f g : Finding) (a b d : Bool)
    → a ≡ true
    → b ≡ d
    → (if d then reopened f else f) ≡ g
    → g ≡ (if a && b then reopened f else f)
chosen f g a b d yes_ same made =
    sym made ∙ ap (λ x. if x then reopened f else f) {x = d} {y = a && b} (ground arith)

expired_by-kept :
    (from_iso : String → Option ℕ) (today : ℕ) (f g : Finding) (o : Option Exception)
    → from_iso "" ≡ none
    → expired_by from_iso today f o ≡ done g
    → g ≡ (if f.status == "accepted-risk" && is_past from_iso today o then reopened f else f)
expired_by-kept from_iso today f g none bare h = elim (Bool-cases (f.status == "accepted-risk")) [
  | inl risk ↦ rw risk (sym (done_inj h))
  | inr other ↦ rw other (sym (done_inj h))
]
expired_by-kept from_iso today f g (some e) bare h =
    elim (Bool-cases (f.status == "accepted-risk")) [
      | inr other ↦ rw other (sym (done_inj (rw other at h)))
      | inl risk ↦ elim (Option-cases (from_iso e.expires_on)) [
        | inl undated ↦ elim (Bool-cases (Text.is_empty e.expires_on)) [
          | inl empty ↦
              chosen f g _ _ false risk (is_past-undated from_iso today e undated)
                (done_inj (rw (risk, empty) at h))
          | inr filled ↦ let bad = rw (risk, filled, undated) at h in absurd (cc)
        ]
        | inr (day, known) ↦
            let filled = not_blank-nonempty e.expires_on day from_iso bare known in
            chosen f g _ _ (leb day today) risk (is_past-dated from_iso today day e known)
              (done_inj (rw (risk, filled, known) at h))
      ]
    ]

-- Where no date is the empty text: an exception that `approve_exception` grants is to an open finding, and
-- ends after today. Whenever `expire_exceptions` then returns, the finding is open if the day has come,
-- and an accepted risk if not. Findings of other identifiers are
-- as they were before both, but for accepted risks whose own date has come, which are open.
pub exception_until :
    (from_iso : String → Option ℕ) (today day : ℕ) (e : Exception) (id j : String)
    (q granted later : Queue)
    → from_iso "" ≡ none
    → approve_exception from_iso today e id q ≡ done granted
    → expire_exceptions from_iso day granted ≡ done later
    → (id == j) ≡ false
    → (f g : Finding) × (expiry : ℕ) × (finding_in id q ≡ some f)
      × (f.status ≡ "open")
      × (from_iso e.expires_on ≡ some expiry)
      × (leb expiry today ≡ false)
      × (finding_in id later ≡ some g)
      × (g.status ≡ (if leb expiry day then "open" else "accepted-risk"))
      × (finding_in j granted ≡ finding_in j q)
      × ((x : Finding)
          → finding_in j q ≡ some x
          → (y : Finding) × (finding_in j later ≡ some y)
            × (is_over from_iso day x ≡ false → y ≡ x)
            × (is_over from_iso day x ≡ true
                → y ≡ record x { status = "open"; exception_status = some "expired" }))
unfolding approve_exception expire_exceptions
exception_until from_iso today day e id j q granted later bare approved expired apart =
    let (u, named, h1) =
      >>=-eq-done (need (not (is_blank e.approver) && not (is_blank e.reason)) approver_and_reason)
        _ approved in
    let (expiry, known, h2) = >>=-eq-done (given (from_iso e.expires_on) bad_date) _ h1 in
    let (v, ahead, h3) = >>=-eq-done (need (not (leb expiry today)) not_in_future) _ h2 in
    let (fs, entered, h4) = >>=-eq-done (accept_in e id q.findings) _ h3 in
    let (gs, passed, h5) = >>=-eq-done (expire_in from_iso day granted.findings) _ expired in
    let fs_are : granted.findings ≡ fs = ap (λ (r : Queue). r.findings) (sym (done_inj h4)) in
    let gs_are : later.findings ≡ gs = ap (λ (r : Queue). r.findings) (sym (done_inj h5)) in
    let (f, found, open_, now) = accept_in-done e id q.findings fs entered in
    let (g, step, end) =
      expire_in-find from_iso day id granted.findings gs (accepted e f) passed
        (ap (find (has_id id)) fs_are ∙ now) in
    let date = given-done _ _ expiry known in
    let other : finding_in j granted ≡ finding_in j q =
      ap (find (has_id j)) fs_are ∙ accept_in-other e id j q.findings fs entered apart in
    let future = need-done _ _ v ahead in
    (
      f,
      g,
      expiry,
      found,
      open_,
      date,
      ground arith,
      ap (find (has_id id)) gs_are ∙ end,
      accepted_expires from_iso e f g expiry day bare date step,
      other,
      λ x found_.
          let (y, step_, end_) =
            expire_in-find from_iso day j granted.findings gs x passed (other ∙ found_) in
          let y_is = expired_by-kept from_iso day x y x.exception bare step_ in
          (
            y,
            ap (find (has_id j)) gs_are ∙ end_,
            λ still. rw (y_is, still) refl,
            λ over. rw (y_is, over) refl,
          ),
    )
