-- ===== src/Prelude/Results.antt =====
-- A computation that may raise: `ok` with its value, or `err` with the exception's kind.
use mathlib.Core.Path.{◌≡◌, refl}
use mathlib.Core.Logic.{◌⊎◌, inl, inr}
use mathlib.Core.Bool.{Bool, true, false}
use native.Mathlib.Omega.{arith}

pub data Result {ℓ} (E A : Type ℓ) : Type ℓ where
  ok : A → Result E A
  err : E → Result E A

infixl 5 ◌>>=◌ ◌>>◌
-- `if test: raise e`
abbrev pub raise_if : {E : Type 0} → Bool → E → Result E (Unit {0})
raise_if test e = elim test [ true ↦ err e | false ↦ ok tt ]

abbrev pub ◌>>=◌ {ℓ} : {E A B : Type ℓ} → Result E A → (A → Result E B) → Result E B
outcome >>= next = elim outcome [ err raised ↦ err raised | ok value ↦ next value ]

abbrev pub ◌>>◌ : {E B : Type 0} → Result E (Unit {0}) → Result E B → Result E B
first >> second = elim first [ err raised ↦ err raised | ok _ ↦ second ]

pub Result-cases {ℓ} :
    {E A : Type ℓ} (r : Result E A) → ((e : E) × (r ≡ err e)) ⊎ ((a : A) × (r ≡ ok a))
Result-cases (ok a) = inr (a, refl)
Result-cases (err e) = inl (e, refl)

-- What a chain that ends in a value went through.
pub bind-ok {ℓ} :
    {E A B : Type ℓ} (outcome : Result E A) (next : A → Result E B) {b : B}
    → (outcome >>= next) ≡ ok b
    → (a : A) × (outcome ≡ ok a) × (next a ≡ ok b)
bind-ok (err e) next h = absurd (ground arith)
bind-ok (ok a) next h = (a, refl, h)

pub then-ok :
    {E B : Type 0} (first : Result E (Unit {0})) (second : Result E B) {b : B}
    → (first >> second) ≡ ok b
    → (first ≡ ok tt) × (second ≡ ok b)
then-ok (err e) second h = absurd (ground arith)
then-ok (ok tt) second h = (refl, h)

pub raise_if-ok : {E : Type 0} (test : Bool) (e : E) → raise_if test e ≡ ok tt → test ≡ false
raise_if-ok true e h = absurd (ground arith)
raise_if-ok false e h = refl

pub ok-injective {ℓ} : {E A : Type ℓ} {a b : A} → Path (Result E A) (ok a) (ok b) → a ≡ b
ok-injective h = cc
