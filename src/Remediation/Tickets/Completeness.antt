-- ===== src/Remediation/Tickets/Completeness.antt =====
-- Every open finding of a new queue, and every stale account in use, gets a ticket.
use mathlib.Core.Bool.{false≢true}
use Prim.Native.String.{◌++◌ as str_append}
use sentinel_grc.Prelude.{
  ℕ, ◌+◌, ◌*◌, ◌≤◌, ◌<◌, Bool, true, false, ◌&&◌, ◌||◌, String, ◌≡◌, refl, sym, ◌∙◌, ap, ◌⊎◌, inl,
  inr, Option, none, some, List, [], ◌∷◌, ◌++◌, arith, string_eq, All, Bool-cases, Option-cases,
  is_none, if◌then◌else◌, map, select,
}
use sentinel_grc.Prelude.Attempt.{done, given, done_inj, >>=-eq-done}
use sentinel_grc.Records.Control.{
  Posture, Control, Result, get, or_null, expectation, meets, severity_weight,
  criticality_multiplier, score, evaluate_control,
}
use sentinel_grc.Remediation.{
  Asset, Finding, Queue, not_registered, asset_for, with_criticality, of_evaluation, findings_of,
  build_remediation_queue,
}
use sentinel_grc.Remediation.Failures.{of_evaluation-done}
use sentinel_grc.Remediation.Tickets.{
  Sla, Ticket, TicketAsset, Account, Review, sla, make_ticket, finding_tickets, account_case,
  account_tickets, account_source, identity_asset, ticket_asset, generate_tickets,
}

severity_weight-sla : (s : String) (w : ℕ) → severity_weight s ≡ done w → is_none (sla s) ≡ false
unfolding severity_weight sla
severity_weight-sla s w h = ground arith

score-sla : (s : String) (m r : ℕ) → score false s m ≡ done r → is_none (sla s) ≡ false
score-sla s m r h =
    let (w, known, e) = >>=-eq-done (severity_weight s) _ h in severity_weight-sla s w known

evaluated-sla :
    (c : Control) (posture : Posture) (r : Result)
    → evaluate_control c posture ≡ done r
    → r.passed ≡ false
    → is_none (sla r.severity) ≡ false
unfolding evaluate_control
evaluated-sla c posture r h bad =
    let (expected, e1, h1) = >>=-eq-done (expectation c) _ h in
    let (m, e2, h2) = >>=-eq-done (criticality_multiplier (get "criticality" posture)) _ h1 in
    let observed = or_null (get c.required_field posture) in
    let (risk, e3, h3) = >>=-eq-done (score (meets expected observed) c.severity m) _ h2 in
    let r_is = done_inj h3 in
    let unmet : meets expected observed ≡ false = ap (λ (x : Result). x.passed) r_is ∙ bad in
    ap (λ (x : Result). is_none (sla x.severity)) (sym r_is)
    ∙ score-sla c.severity m risk (rw unmet at e3)

-- A finding that gets a ticket.
abbrev IsTicketable : Finding → Type 0
IsTicketable f = (f.status ≡ "open") × (is_none (sla f.control.severity) ≡ false)

findings_of-IsTicketable :
    (a : Asset) (posture : Posture) (cs : List Control) (fs : List Finding)
    → findings_of a posture cs ≡ done fs
    → All IsTicketable fs
unfolding findings_of
findings_of-IsTicketable a posture [] fs h = rw (← done_inj h) tt
findings_of-IsTicketable a posture (c ∷ cs) fs h =
    let (r, one, h1) =
      >>=-eq-done (of_evaluation (evaluate_control c (with_criticality a.criticality posture))) _
        h in
    let (more, others, h2) = >>=-eq-done (findings_of a posture cs) _ h1 in
    let rest = findings_of-IsTicketable a posture cs more others in
    elim (Bool-cases r.passed) [
      | inl good ↦ rw (← done_inj h2, good) rest
      | inr bad ↦
          rw (← done_inj h2, bad)
            (
              (
                refl,
                evaluated-sla c (with_criticality a.criticality posture) r
                    (of_evaluation-done _ r one) bad,
              ),
              rest,
            )
    ]

sla_order : (p : String) (l : Sla) → sla p ≡ some l → l.response_minutes < 60 * l.resolution_hours
unfolding sla
sla_order p l h = ground arith

-- Answered before it is solved, and neither before it is made.
abbrev pub IsTimely : Ticket → Type 0
IsTimely t = (t.created_at ≤ t.response_due_at) × (t.response_due_at < t.resolution_due_at)

-- What a ticket is for: its source, its title, its priority and its owner.
abbrev pub subject : Ticket → String × String × String × String
subject t = (t.source, t.title, t.priority, t.owner)

make_ticket-IsTimely :
    (ticket_id : String → String) (source title priority owner ref : String) (asset : TicketAsset)
    (created : ℕ)
    → is_none (sla priority) ≡ false
    → (t : Ticket) × (make_ticket ticket_id source title priority owner ref asset created ≡ done t)
      × (subject t ≡ (source, title, priority, owner))
      × IsTimely t
unfolding make_ticket
make_ticket-IsTimely ticket_id source title priority owner ref asset created known =
    elim (Option-cases (sla priority)) [
      | inl missing ↦ absurd (false≢true (sym (rw missing at known)))
      | inr (l, found) ↦ (
        record {
          ticket_id = ticket_id source;
          source = source;
          title = title;
          priority = priority;
          owner = owner;
          status = "open";
          created_at = created;
          response_due_at = created + l.response_minutes;
          resolution_due_at = created + 60 * l.resolution_hours;
          asset = asset;
          evidence_ref = ref;
          auto_remediation = false;
        },
        rw found refl,
        refl,
        let order = sla_order priority l found in (omega arith, omega (arith, order)),
      )
    ]

-- The ticket that a finding asks for.
abbrev pub finding_subject : Finding → String × String × String × String
finding_subject f = (
  f.finding_id,
  str_append "Remediate control: " f.control.control_name,
  f.control.severity,
  f.control.owner,
)

-- The ticket that a stale account asks for, in a review of that time.
abbrev pub account_subject : Option String → Account → String × String × String × String
account_subject reviewed_at u = (
  account_source u reviewed_at,
  str_append
      (if u.privileged
        then "Review stale privileged account: "
        else "Review stale enabled account: ")
      u.sam_account_name,
  if u.privileged then "critical" else "high",
  "Identity Governance",
)

cons_eq : {A : Type 0} {x y : A} {xs ys : List A} → x ≡ y → xs ≡ ys → x ∷ xs ≡ y ∷ ys
cons_eq h t = cc

map-append : {A B : Type 0} (f : A → B) (xs ys : List A) → map f (xs ++ ys) ≡ map f xs ++ map f ys
map-append f [] ys = refl
map-append f (x ∷ xs) ys = cons_eq refl (map-append f xs ys)

finding_tickets_total :
    (ticket_id : String → String) (created : ℕ) (fs : List Finding)
    → All IsTicketable fs
    → (ts : List Ticket) × (finding_tickets ticket_id created fs ≡ done ts)
      × (map subject ts ≡ map finding_subject fs)
      × All IsTimely ts
unfolding finding_tickets
finding_tickets_total ticket_id created [] good = ([], refl, refl, tt)
finding_tickets_total ticket_id created (f ∷ fs) ((open_, known), good) =
    let (t, made, about, timely) =
      make_ticket-IsTimely ticket_id f.finding_id
        (str_append "Remediate control: " f.control.control_name) f.control.severity f.control.owner
        f.finding_id (ticket_asset f.asset) created known in
    let (ts, more, n, all) = finding_tickets_total ticket_id created fs good in
    (t ∷ ts, rw (open_, made, more) refl, cons_eq about n, (timely, all))

-- A stale account that has privileges or is enabled.
abbrev pub needs_review : Account → Bool
needs_review u = u.stale && (u.privileged || u.enabled)

critical_known : is_none (sla "critical") ≡ false
unfolding sla
critical_known = refl

high_known : is_none (sla "high") ≡ false
unfolding sla
high_known = refl

case-known :
    (u : Account)
    → ((account_case u ≡ none) × (needs_review u ≡ false))
      ⊎ ((priority title : String) × (account_case u ≡ some (priority, title))
          × (needs_review u ≡ true)
          × ((reviewed_at : Option String)
              → account_subject reviewed_at u
                ≡ (account_source u reviewed_at, title, priority, "Identity Governance"))
          × (is_none (sla priority) ≡ false))
case-known u = elim (Bool-cases u.stale) [
  | inr fresh ↦ inl (rw fresh refl, rw fresh refl)
  | inl stale ↦ elim (Bool-cases u.privileged) [
    | inl strong ↦ inr (
      "critical",
      str_append "Review stale privileged account: " u.sam_account_name,
      rw (stale, strong) refl,
      rw (stale, strong) refl,
      λ reviewed_at. rw strong refl,
      critical_known,
    )
    | inr weak ↦ elim (Bool-cases u.enabled) [
      | inl on ↦ inr (
        "high",
        str_append "Review stale enabled account: " u.sam_account_name,
        rw (stale, weak, on) refl,
        rw (stale, weak, on) refl,
        λ reviewed_at. rw weak refl,
        high_known,
      )
      | inr off ↦ inl (rw (stale, weak, off) refl, rw (stale, weak, off) refl)
    ]
  ]
]

account_tickets_total :
    (ticket_id : String → String) (created : ℕ) (reviewed_at : Option String) (us : List Account)
    → (ts : List Ticket) × (account_tickets ticket_id created reviewed_at us ≡ done ts)
      × (map subject ts ≡ map (account_subject reviewed_at) (select needs_review us))
      × All IsTimely ts
unfolding account_tickets
account_tickets_total ticket_id created reviewed_at [] = ([], refl, refl, tt)
account_tickets_total ticket_id created reviewed_at (u ∷ us) =
    let (ts, more, n, all) = account_tickets_total ticket_id created reviewed_at us in
    elim (case-known u) [
      | inl (left_out, no_need) ↦ (ts, rw left_out more, rw no_need n, all)
      | inr (priority, title, chosen, need_, asked, known) ↦
          let (t, made, about, timely) =
            make_ticket-IsTimely ticket_id (account_source u reviewed_at) title priority
              "Identity Governance" (account_source u reviewed_at) (identity_asset priority) created
              known in
          (
            t ∷ ts,
            rw (chosen, made, more) refl,
            rw need_ (cons_eq (about ∙ sym (asked reviewed_at)) n),
            (timely, all),
          )
    ]

All-append : (xs ys : List Ticket) → All IsTimely xs → All IsTimely ys → All IsTimely (xs ++ ys)
All-append [] ys a b = b
All-append (x ∷ xs) ys (h, a) b = (h, All-append xs ys a b)

-- For a queue that `build_remediation_queue` returns, and any access review, `generate_tickets` returns:
-- the tickets are, in order, one for each finding, with its identifier as source and its severity and
-- owner, and one for each stale account that is privileged (critical) or enabled (high), for Identity
-- Governance; each has its response due before its resolution and not before it is made.
pub tickets_complete :
    (ticket_id : String → String) (controls : List Control) (posture : Posture)
    (assets : List Asset) (q : Queue) (review : Review) (created : ℕ)
    → build_remediation_queue controls posture assets ≡ done q
    → (ts : List Ticket) × (generate_tickets ticket_id q review created ≡ done ts)
      × (map subject ts
          ≡ map finding_subject q.findings
            ++ map (account_subject review.reviewed_at) (select needs_review review.users))
      × All IsTimely ts
unfolding build_remediation_queue generate_tickets
tickets_complete ticket_id controls posture assets q review created h =
    let (a, known, h1) =
      >>=-eq-done (given (asset_for (or_null (get "asset_id" posture)) assets) not_registered) _
        h in
    let (fs, listed, h2) = >>=-eq-done (findings_of a posture controls) _ h1 in
    let fs_are : q.findings ≡ fs = ap (λ (r : Queue). r.findings) (sym (done_inj h2)) in
    let (first, made, n, timely) =
      finding_tickets_total ticket_id created fs
        (findings_of-IsTicketable a posture controls fs listed) in
    let (second, more, m, timely') =
      account_tickets_total ticket_id created review.reviewed_at review.users in
    let made' : finding_tickets ticket_id created q.findings ≡ done first =
      ap (finding_tickets ticket_id created) fs_are ∙ made in
    (
      first ++ second,
      rw (made', more) refl,
      map-append subject first second
          ∙ ap (λ xs. xs ++ map subject second) n
          ∙ ap (λ xs. map finding_subject xs ++ map subject second) (sym fs_are)
          ∙ ap (λ xs. map finding_subject q.findings ++ xs) m,
      All-append first second timely timely',
    )
