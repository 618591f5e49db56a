-- ===== src/Prelude/Results.antt =====
-- Results of fallible code: Go's pair of a value and an error.
use mathlib.Core.Path.{◌≡◌, refl}
use mathlib.Core.Bool.{Bool, true, false}
use mathlib.Core.Logic.{◌⊎◌, inl, inr}

pub data Result {ℓ κ} (E : Type κ) (A : Type ℓ) : Type (ℓ ⊔ κ) where
  ok : A → Result E A
  err : E → Result E A

-- `abbrev`, so that a do block computes on its results.
infixl 5 ◌>>=◌ ◌>>◌
abbrev pub ◌>>=◌ {ℓ κ ι} :
    {E : Type ι} {S : Type ℓ} {T : Type κ} → Result E S → (S → Result E T) → Result E T
err failure >>= next = err failure
ok value >>= next = next value

abbrev pub ◌>>◌ {ℓ ι} : {E : Type ι} {T : Type ℓ} → Result E (Unit {0}) → Result E T → Result E T
first >> rest = first >>= λ u. rest

-- `if bad { return err }`.
abbrev pub fail_if {ι} : {E : Type ι} → Bool → E → Result E (Unit {0})
fail_if false e = ok tt
fail_if true e = err e

pub Result-cases {ℓ ι} :
    {E : Type ι} {S : Type ℓ} (r : Result E S) → ((v : S) × (r ≡ ok v)) ⊎ ((e : E) × (r ≡ err e))
Result-cases (err failure) = inr (failure, refl)
Result-cases (ok value) = inl (value, refl)

pub >>=-eq-ok {ℓ κ ι} :
    {E : Type ι} {S : Type ℓ} {T : Type κ} (r : Result E S) (next : S → Result E T) {end : T}
    → (r >>= next) ≡ ok end
    → (v : S) × (r ≡ ok v) × (next v ≡ ok end)
>>=-eq-ok (err failure) next h = cc
>>=-eq-ok (ok value) next h = (value, refl, h)
