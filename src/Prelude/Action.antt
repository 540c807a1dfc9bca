-- ===== src/Prelude/Action.antt =====
-- A service method: it reads and writes a state and may throw. What was written before a throw
-- stays written.
use livechat.ApiError.{Result, ok, err, ApiError}
use mathlib.Core.Path.{◌≡◌, refl, ap}
use mathlib.Core.Logic.{◌⊎◌, inl, inr}
use mathlib.Core.Bool.{Bool}
use mathlib.Core.Option.{Option, none, some}
use livechat.Prelude.Tests.{if◌then◌else◌}

abbrev pub Action : Type 0 → Type 0 → Type 0
Action S A = S → Result A × S

module _ {S A : Type 0} where
  abbrev pub pure : A → Action S A
  pure a s = (ok a, s)

  abbrev pub throw : ApiError → Action S A
  throw e s = (err e, s)

  abbrev pub gets : (S → A) → Action S A
  gets f s = (ok (f s), s)

  abbrev pub or_throw : Option A → ApiError → Action S A
  or_throw none e = throw e
  or_throw (some a) e = pure a

-- A call that may throw and changes nothing.
abbrev pub of_result : {S A : Type 0} → Result A → Action S A
of_result (ok a) s = (ok a, s)
of_result (err e) s = (err e, s)

infixl 5 ◌>>=◌ ◌>>◌
abbrev pub ◌>>=◌ : {S A B : Type 0} → Action S A → (A → Action S B) → Action S B
◌>>=◌ m f s = let (r, s') = m s in elim r [ ok a ↦ f a s' | err e ↦ throw e s' ]

abbrev pub ◌>>◌ : {S A B : Type 0} → Action S A → Action S B → Action S B
m >> k = m >>= λ _. k

-- `if (c) throw e`.
abbrev pub throw_if : {S : Type 0} → Bool → ApiError → Action S (Unit {0})
throw_if c e = if c then throw e else pure tt

abbrev pub modify : {S : Type 0} → (S → S) → Action S (Unit {0})
modify f s = (ok tt, f s)

pub ok_injective : {A : Type 0} {a b : A} → ok a ≡ ok b → a ≡ b
ok_injective {A} {a} e = ap (λ (r : Result A). elim r [ ok x ↦ x | err _ ↦ a ]) e

-- To split on the outcome of a check and keep the equation.
pub Result-cases {ℓ} :
    {A : Type ℓ} (r : Result A) → ((e : ApiError) × (r ≡ err e)) ⊎ ((a : A) × (r ≡ ok a))
Result-cases (ok a) = inr (a, refl)
Result-cases (err e) = inl (e, refl)

-- A step that cannot throw, before a result.
pub then_pure :
    {S A : Type 0} (m : Action S (Unit {0})) (a : A) (s : S)
    → (m s).0 ≡ ok tt
    → (m >> pure a) s ≡ (ok a, (m s).1)
then_pure {S} {A} m a s e =
    ap
      (λ (r : Result (Unit {0})). elim r as (λ _. Result A × S) [
        | ok _ ↦ (ok a, (m s).1)
        | err x ↦ (err x, (m s).1)
      ])
      e

-- A step whose outcome is known.
pub bind_ok :
    {S A B : Type 0} (m : Action S A) (k : A → Action S B) (s : S) {a : A} {after : S}
    → m s ≡ (ok a, after)
    → (m >>= k) s ≡ k a after
bind_ok {S} {A} {B} m k s e =
    ap
      (λ (r : Result A × S). elim r.0 as (λ _. Result B × S) [
        | ok a ↦ k a r.1
        | err x ↦ throw x r.1
      ])
      e
