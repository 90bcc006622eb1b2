-- ===== src/Prelude/Attempt.antt =====
-- A result, or the place where the code raises, for the modules that have exceptions of their own.
use mathlib.Core.Path.{◌≡◌, refl}
use mathlib.Core.Logic.{◌⊎◌, inl, inr}
use mathlib.Core.Bool.{Bool, true, false}
use mathlib.Core.Option.{Option, none, some}

pub data Attempt (X A : Type 0) : Type 0 where
  failed : X → Attempt X A
  done : A → Attempt X A

module _ {X : Type 0} where
  abbrev pub ◌>>=◌ : {A B : Type 0} → Attempt X A → (A → Attempt X B) → Attempt X B
  failed x >>= rest = failed x
  done a >>= rest = rest a

  abbrev pub ◌>>◌ : {B : Type 0} → Attempt X (Unit {0}) → Attempt X B → Attempt X B
  step >> rest = step >>= λ u. rest

  infixl 5 ◌>>=◌ ◌>>◌
  -- `if not test: raise x`
  abbrev pub need : Bool → X → Attempt X (Unit {0})
  need false x = failed x
  need true x = done tt

  abbrev pub given : {A : Type 0} → Option A → X → Attempt X A
  given none x = failed x
  given (some a) x = done a

  pub >>=-eq-done :
      {A B : Type 0} (step : Attempt X A) (rest : A → Attempt X B) {b : B}
      → (step >>= rest) ≡ done b
      → (a : A) × (step ≡ done a) × (rest a ≡ done b)
  >>=-eq-done (failed x) rest h = cc
  >>=-eq-done (done a) rest h = (a, refl, h)

  pub need-done : (b : Bool) (x : X) (u : Unit {0}) → need b x ≡ done u → b ≡ true
  need-done false x u h = absurd (cc)
  need-done true x u h = refl

  pub given-done : {A : Type 0} (o : Option A) (x : X) (a : A) → given o x ≡ done a → o ≡ some a
  given-done none x a h = absurd (cc)
  given-done (some b) x a h = cc

  pub done_inj : {A : Type 0} {a b : A} → ◌≡◌ {A = Attempt X A} (done a) (done b) → a ≡ b
  done_inj h = cc

  pub attempt_cases :
      {A : Type 0} (r : Attempt X A) → ((x : X) × (r ≡ failed x)) ⊎ ((a : A) × (r ≡ done a))
  attempt_cases (failed x) = inl (x, refl)
  attempt_cases (done a) = inr (a, refl)
