-- ===== src/Prelude/Results.antt =====
-- Results with an error value, and their chains.
use mathlib.Core.Path.{◌≡◌, refl}
use mathlib.Core.Bool.{Bool, true, false}

pub data Result {ℓ κ} (E : Type κ) (A : Type ℓ) : Type (ℓ ⊔ κ) where
  ok : A → Result E A
  err : E → Result E A

infixl 5 ◌>>=◌ ◌>>◌
abbrev pub ◌>>=◌ {ℓ κ μ} :
    {E : Type κ} {A : Type ℓ} {B : Type μ} → Result E A → (A → Result E B) → Result E B
ok a >>= f = f a
err e >>= f = err e

abbrev pub ◌>>◌ {ℓ κ} : {E : Type κ} {B : Type ℓ} → Result E (Unit {0}) → Result E B → Result E B
m >> k = m >>= λ _. k

-- `if (test) return fail(error, e);`
abbrev pub fail_if {κ} : {E : Type κ} → Bool → E → Result E (Unit {0})
fail_if true e = err e
fail_if false e = ok tt

pub fail_if-eq-ok {κ} :
    {E : Type κ} (b : Bool) (e : E) {u : Unit {0}} → fail_if b e ≡ ok u → b ≡ false
fail_if-eq-ok true e h = cc
fail_if-eq-ok false e h = refl

-- The result of the first part of a chain that succeeds.
pub >>=-eq-ok {ℓ κ μ} :
    {E : Type κ} {A : Type ℓ} {B : Type μ} (run : Result E A) (next : A → Result E B) {result : B}
    → (run >>= next) ≡ ok result
    → (value : A) × (run ≡ ok value) × (next value ≡ ok result)
>>=-eq-ok (err error) next h = cc
>>=-eq-ok (ok value) next h = (value, refl, h)
