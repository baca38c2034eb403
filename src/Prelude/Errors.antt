-- ===== src/Prelude/Errors.antt =====
-- Go's `(value, error)` results: a value, or an error with its text.
use Prim.Native.String.{String}
use mathlib.Core.Path.{◌≡◌, refl}
use mathlib.Core.Logic.{◌⊎◌, inl, inr}
use mathlib.Core.Bool.{Bool, true, false}

pub data Result {ℓ} (A : Type ℓ) : Type ℓ where
  err : String → Result A
  ok : A → Result A

-- A test that fails with `e`: `if !test { return ..., errors.New(e) }`
abbrev pub require : Bool → String → Result (Unit {0})
require false e = err e
require true _ = ok tt

pub Result-cases {ℓ} :
    {A : Type ℓ} (r : Result A) → ((e : String) × (r ≡ err e)) ⊎ ((a : A) × (r ≡ ok a))
Result-cases (ok a) = inr (a, refl)
Result-cases (err e) = inl (e, refl)

infixl 5 ◌>>=◌ ◌>>◌
abbrev pub ◌>>=◌ {ℓ ℓ'} : {X : Type ℓ} {Y : Type ℓ'} → Result X → (X → Result Y) → Result Y
err text >>= next = err text
ok x >>= next = next x

abbrev pub ◌>>◌ {ℓ} : {Y : Type ℓ} → Result (Unit {0}) → Result Y → Result Y
first >> second = first >>= λ _. second

-- Where a chain returns a value, its first part returned one, and the rest did on that.
pub >>=-eq-ok {ℓ ℓ'} :
    {X : Type ℓ} {Y : Type ℓ'} (r : Result X) (next : X → Result Y) {y : Y}
    → (r >>= next) ≡ ok y
    → (x : X) × (r ≡ ok x) × (next x ≡ ok y)
>>=-eq-ok (err text) next h = cc
>>=-eq-ok (ok x) next h = (x, refl, h)

pub ok-inv {ℓ} : {A : Type ℓ} {a b : A} → ok a ≡ ok b → a ≡ b
ok-inv q = cc
