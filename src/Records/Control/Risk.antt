-- ===== src/Records/Control/Risk.antt =====
-- The score of a control.
use mathlib.Core.Bool.{false≢true}
use mathlib.Core.Path.{subst}
use sentinel_grc.Prelude.{
  ◌+◌, ◌&&◌, ◌∙◌, sym, ap, eq_iff, beq_refl, refl, inl, inr, Option-cases, ℕ, ◌*◌, ◌≤◌, Bool, true,
  false, String, ◌≡◌, Option, none, some, arith, string_eq, nat_beq,
}
use sentinel_grc.Prelude.Attempt.{done, >>=-eq-done, done_inj}
use sentinel_grc.Records.Control.{
  Control, Posture, Json, text, null, flag, number, negative, between, compound, Result, get,
  or_null, expectation, Expectation, is_at_most, same, meets, severity_weight,
  criticality_multiplier, score, evaluate_control,
}

severity_weight_bounds : (s : String) (w : ℕ) → severity_weight s ≡ done w → (1 ≤ w) × (w ≤ 10)
unfolding severity_weight
severity_weight_bounds s w h = ground arith

criticality_multiplier_bounds :
    (o : Option Json) (m : ℕ) → criticality_multiplier o ≡ done m → (1 ≤ m) × (m ≤ 4)
unfolding criticality_multiplier
criticality_multiplier_bounds none m h = ground arith
criticality_multiplier_bounds (some (text s)) m h = ground arith
criticality_multiplier_bounds (some null) m h = absurd (cc)
criticality_multiplier_bounds (some (flag b)) m h = absurd (cc)
criticality_multiplier_bounds (some (number n)) m h = absurd (cc)
criticality_multiplier_bounds (some (negative s)) m h = absurd (cc)
criticality_multiplier_bounds (some (between n s)) m h = absurd (cc)
criticality_multiplier_bounds (some (compound s)) m h = absurd (cc)

product_bounds : (w m : ℕ) → (1 ≤ w) × (w ≤ 10) → (1 ≤ m) × (m ≤ 4) → (1 ≤ w * m) × (w * m ≤ 40)
product_bounds w m h k = grind arith

score_bounds :
    (b : Bool) (s : String) (m r : ℕ)
    → (1 ≤ m) × (m ≤ 4)
    → score b s m ≡ done r
    → (nat_beq r 0 ≡ b) × (r ≤ 40)
score_bounds true s m r k h = ground (arith, done_inj h)
score_bounds false s m r k h =
    let (w, known, e) = >>=-eq-done (severity_weight s) _ h in
    let bounds = product_bounds w m (severity_weight_bounds s w known) k in
    rw (← done_inj e) (ground arith)

-- Python's equality of the values that JSON has: a value is itself, True is 1, and False is 0.
pub data Equals : Json → Json → Type 0 where
  itself : (v : Json) → Equals v v
  true_is_1 : Equals (flag true) (number 1)
  one_is_true : Equals (number 1) (flag true)
  false_is_0 : Equals (flag false) (number 0)
  zero_is_false : Equals (number 0) (flag false)

-- The numbers up to a natural one.
pub data IsUpTo (n : ℕ) : Json → Type 0 where
  whole : (m : ℕ) → m ≤ n → IsUpTo n (number m)
  below_zero : (s : String) → IsUpTo n (negative s)
  part : (m : ℕ) (s : String) → m + 1 ≤ n → IsUpTo n (between m s)

-- What a control asks: the value it expects, or, where it expects none, a number up to its limit.
pub data IsMet (c : Control) (observed : Json) : Type 0 where
  by_value : (v : Json) → c.expected ≡ some v → Equals observed v → IsMet c observed
  by_limit :
      (n : ℕ) → c.expected ≡ none → c.max_value ≡ some n → IsUpTo n observed → IsMet c observed

is_at_most-IsUpTo : (n : ℕ) (o : Json) → is_at_most n o ≡ true → IsUpTo n o
is_at_most-IsUpTo n (number m) h = whole m (ground arith)
is_at_most-IsUpTo n (negative s) h = below_zero s
is_at_most-IsUpTo n (between m s) h = part m s (ground arith)
is_at_most-IsUpTo n null h = absurd (false≢true h)
is_at_most-IsUpTo n (flag b) h = absurd (false≢true h)
is_at_most-IsUpTo n (text s) h = absurd (false≢true h)
is_at_most-IsUpTo n (compound s) h = absurd (false≢true h)

IsUpTo-is_at_most : (n : ℕ) (o : Json) → IsUpTo n o → is_at_most n o ≡ true
IsUpTo-is_at_most n _ (whole m h) = ground arith
IsUpTo-is_at_most n _ (below_zero s) = refl
IsUpTo-is_at_most n _ (part m s h) = ground arith

nat_beq-eq : (a b : ℕ) → nat_beq a b ≡ true → a ≡ b
nat_beq-eq a b h = ground arith

Equals-same : (a b : Json) → Equals a b → same a b ≡ true
Equals-same a _ (itself null) = refl
Equals-same a _ (itself (flag true)) = refl
Equals-same a _ (itself (flag false)) = refl
Equals-same a _ (itself (number n)) = ground arith
Equals-same a _ (itself (negative s)) = beq_refl s
Equals-same a _ (itself (between n s)) = ground (arith, beq_refl s)
Equals-same a _ (itself (text s)) = beq_refl s
Equals-same a _ (itself (compound s)) = beq_refl s
Equals-same _ _ true_is_1 = refl
Equals-same _ _ one_is_true = refl
Equals-same _ _ false_is_0 = refl
Equals-same _ _ zero_is_false = refl

Equals-of : {a b : Json} → a ≡ b → Equals a b
Equals-of {a} e = subst (Equals a) e (itself a)

same-Equals : (a b : Json) → same a b ≡ true → Equals a b
same-Equals null null h = itself null
same-Equals (flag true) (flag true) h = itself (flag true)
same-Equals (flag false) (flag false) h = itself (flag false)
same-Equals (flag true) (number n) h =
    subst (λ x. Equals (flag true) (number x)) (nat_beq-eq 1 n h) true_is_1
same-Equals (flag false) (number n) h =
    subst (λ x. Equals (flag false) (number x)) (nat_beq-eq 0 n h) false_is_0
same-Equals (number n) (flag true) h =
    subst (λ x. Equals (number x) (flag true)) (sym (nat_beq-eq n 1 h)) one_is_true
same-Equals (number n) (flag false) h =
    subst (λ x. Equals (number x) (flag false)) (sym (nat_beq-eq n 0 h)) zero_is_false
same-Equals (number m) (number n) h = Equals-of (ap number (nat_beq-eq m n h))
same-Equals (text s) (text t) h = Equals-of (ap text ((eq_iff s t).0 h))
same-Equals (negative s) (negative t) h = Equals-of (ap negative ((eq_iff s t).0 h))
same-Equals (between m s) (between n t) h =
    let (one, other) = both h in
    Equals-of (ap (λ k. between k s) (nat_beq-eq m n one) ∙ ap (between n) ((eq_iff s t).0 other))
  where
    both : {a b : Bool} → a && b ≡ true → (a ≡ true) × (b ≡ true)
    both {a} {b} e = ground arith
same-Equals (compound s) (compound t) h = Equals-of (ap compound ((eq_iff s t).0 h))
same-Equals (flag true) (flag false) h = absurd (false≢true h)
same-Equals (flag false) (flag true) h = absurd (false≢true h)
same-Equals null (flag y) h = absurd (false≢true h)
same-Equals null (number y) h = absurd (false≢true h)
same-Equals null (negative y) h = absurd (false≢true h)
same-Equals null (between z y) h = absurd (false≢true h)
same-Equals null (text y) h = absurd (false≢true h)
same-Equals null (compound y) h = absurd (false≢true h)
same-Equals (flag x) null h = absurd (false≢true h)
same-Equals (flag x) (negative y) h = absurd (false≢true h)
same-Equals (flag x) (between z y) h = absurd (false≢true h)
same-Equals (flag x) (text y) h = absurd (false≢true h)
same-Equals (flag x) (compound y) h = absurd (false≢true h)
same-Equals (number x) null h = absurd (false≢true h)
same-Equals (number x) (negative y) h = absurd (false≢true h)
same-Equals (number x) (between z y) h = absurd (false≢true h)
same-Equals (number x) (text y) h = absurd (false≢true h)
same-Equals (number x) (compound y) h = absurd (false≢true h)
same-Equals (negative x) null h = absurd (false≢true h)
same-Equals (negative x) (flag y) h = absurd (false≢true h)
same-Equals (negative x) (number y) h = absurd (false≢true h)
same-Equals (negative x) (between z y) h = absurd (false≢true h)
same-Equals (negative x) (text y) h = absurd (false≢true h)
same-Equals (negative x) (compound y) h = absurd (false≢true h)
same-Equals (between w x) null h = absurd (false≢true h)
same-Equals (between w x) (flag y) h = absurd (false≢true h)
same-Equals (between w x) (number y) h = absurd (false≢true h)
same-Equals (between w x) (negative y) h = absurd (false≢true h)
same-Equals (between w x) (text y) h = absurd (false≢true h)
same-Equals (between w x) (compound y) h = absurd (false≢true h)
same-Equals (text x) null h = absurd (false≢true h)
same-Equals (text x) (flag y) h = absurd (false≢true h)
same-Equals (text x) (number y) h = absurd (false≢true h)
same-Equals (text x) (negative y) h = absurd (false≢true h)
same-Equals (text x) (between z y) h = absurd (false≢true h)
same-Equals (text x) (compound y) h = absurd (false≢true h)
same-Equals (compound x) null h = absurd (false≢true h)
same-Equals (compound x) (flag y) h = absurd (false≢true h)
same-Equals (compound x) (number y) h = absurd (false≢true h)
same-Equals (compound x) (negative y) h = absurd (false≢true h)
same-Equals (compound x) (between z y) h = absurd (false≢true h)
same-Equals (compound x) (text y) h = absurd (false≢true h)

meets-IsMet :
    (c : Control) (observed : Json) (x : Expectation)
    → expectation c ≡ done x
    → meets x observed ≡ true
    → IsMet c observed
meets-IsMet c observed x e h = elim (Option-cases c.expected) [
  | inr (v, is_v) ↦
      let x_is = done_inj (rw is_v at e) in
      by_value v is_v (same-Equals observed v (rw (← x_is) at h))
  | inl bare ↦ elim (Option-cases c.max_value) [
    | inl none_ ↦ let bad = rw (bare, none_) at e in absurd (cc)
    | inr (n, is_n) ↦
        let x_is = done_inj (rw (bare, is_n) at e) in
        by_limit n bare is_n (is_at_most-IsUpTo n observed (rw (← x_is) at h))
  ]
]

IsMet-meets :
    (c : Control) (observed : Json) (x : Expectation)
    → expectation c ≡ done x
    → IsMet c observed
    → meets x observed ≡ true
IsMet-meets c observed x e (by_value v is_v same_) =
    rw (← done_inj (rw is_v at e)) (Equals-same observed v same_)
IsMet-meets c observed x e (by_limit n bare is_n within) =
    rw (← done_inj (rw (bare, is_n) at e)) (IsUpTo-is_at_most n observed within)

-- A control that is evaluated scores at most 40, and scores 0 exactly when it is passed, which it is
-- exactly when the value of its field in the posture (null, if the field is missing) is what it asks.
pub evaluate_control_bounds :
    (c : Control) (posture : Posture) (r : Result)
    → evaluate_control c posture ≡ done r
    → (r.risk_score ≤ 40)
      × (nat_beq r.risk_score 0 ≡ r.passed)
      × (r.passed ≡ true → IsMet c (or_null (get c.required_field posture)))
      × (IsMet c (or_null (get c.required_field posture)) → r.passed ≡ true)
unfolding evaluate_control
evaluate_control_bounds c posture r h =
    let observed = or_null (get c.required_field posture) in
    let (expected, e1, h1) = >>=-eq-done (expectation c) _ h in
    let (m, e2, h2) = >>=-eq-done (criticality_multiplier (get "criticality" posture)) _ h1 in
    let (risk, e3, h3) = >>=-eq-done (score (meets expected observed) c.severity m) _ h2 in
    let b =
      score_bounds (meets expected observed) c.severity m risk
        (criticality_multiplier_bounds (get "criticality" posture) m e2) e3 in
    rw (← done_inj h3)
      (b.1, b.0, meets-IsMet c observed expected e1, IsMet-meets c observed expected e1)
