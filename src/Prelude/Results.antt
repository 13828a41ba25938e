-- ===== src/Prelude/Results.antt =====
-- What a call gives, or the error that it throws; `do` chains calls.
use mathlib.Core.Path.{◌≡◌, refl, subst}
use mathlib.Core.Bool.{Bool, true, false}

pub data Result {ℓ κ} (Thrown : Type ℓ) (Value : Type κ) : Type (ℓ ⊔ κ) where
  err : Thrown → Result Thrown Value
  ok : Value → Result Thrown Value

module _ {ℓ κ μ} {Thrown : Type ℓ} {Value : Type κ} {Next : Type μ} where
  infixl 5 ◌>>=◌
  abbrev pub ◌>>=◌ : Result Thrown Value → (Value → Result Thrown Next) → Result Thrown Next
  err thrown >>= next = err thrown
  ok value >>= next = next value

  pub >>=-eq-ok :
      (call : Result Thrown Value) (next : Value → Result Thrown Next) {end : Next}
      → (call >>= next) ≡ ok end
      → (value : Value) × (call ≡ ok value) × (next value ≡ ok end)
  >>=-eq-ok (err thrown) next h = cc
  >>=-eq-ok (ok value) next h = (value, refl, h)

module _ {ℓ} {Thrown : Type ℓ} where
  infixl 5 ◌>>◌
  abbrev pub ◌>>◌ {μ} :
      {Next : Type μ} → Result Thrown (Unit {0}) → Result Thrown Next → Result Thrown Next
  call >> next = call >>= λ _. next

  -- `if (!test) throw thrown;`
  abbrev pub guard : Bool → Thrown → Result Thrown (Unit {0})
  guard false thrown = err thrown
  guard true thrown = ok tt

-- What holds of one result holds of an equal one.
pub subst_ok {ℓ κ μ} :
    {Thrown : Type ℓ} {Value : Type κ} (P : Value → Type μ) (a b : Value)
    → ◌≡◌ {A = Result Thrown Value} (ok a) (ok b)
    → P a
    → P b
subst_ok P a b e h = subst P {x = a} {y = b} (cc) h
