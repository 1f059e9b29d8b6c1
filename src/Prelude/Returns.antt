-- ===== src/Prelude/Returns.antt =====
-- `(A, error)` as Go functions return it, for an error type `E`: a value, or an error and no value.
use mathlib.Core.Path.{◌≡◌, refl}
use mathlib.Core.Logic.{◌⊎◌, inl, inr}
use mathlib.Core.Bool.{Bool, true, false}

pub data Outcome {ℓ κ} (E : Type ℓ) (A : Type κ) : Type (ℓ ⊔ κ) where
  ok : A → Outcome E A
  err : E → Outcome E A

module _ {E : Type 0} where
  infixl 5 ◌>>=◌ ◌>>◌
  abbrev pub ◌>>=◌ : {A B : Type 0} → Outcome E A → (A → Outcome E B) → Outcome E B
  err problem >>= next = err problem
  ok value >>= next = next value

  abbrev pub ◌>>◌ : {B : Type 0} → Outcome E (Unit {0}) → Outcome E B → Outcome E B
  m >> k = m >>= λ _. k

  -- `if bad { return e }`.
  abbrev pub fail_if : Bool → E → Outcome E (Unit {0})
  fail_if true e = err e
  fail_if false e = ok tt

  -- `err == nil`.
  abbrev pub is_ok : {A : Type 0} → Outcome E A → Bool
  is_ok (ok a) = true
  is_ok (err e) = false

  pub Outcome-cases :
      {A : Type 0} (m : Outcome E A) → ((a : A) × (m ≡ ok a)) ⊎ ((e : E) × (m ≡ err e))
  Outcome-cases (ok a) = inl (a, refl)
  Outcome-cases (err e) = inr (e, refl)

  pub check-cases : (m : Outcome E (Unit {0})) → (m ≡ ok tt) ⊎ ((e : E) × (m ≡ err e))
  check-cases (ok tt) = inl refl
  check-cases (err e) = inr (e, refl)

  pub eq_of_ok : {A : Type 0} {a b : A} → ◌≡◌ {A = Outcome E A} (ok a) (ok b) → a ≡ b
  eq_of_ok h = cc

  pub >>-eq-ok :
      {B : Type 0} (m : Outcome E (Unit {0})) (k : Outcome E B) {b : B}
      → (m >> k) ≡ ok b
      → (m ≡ ok tt) × (k ≡ ok b)
  >>-eq-ok (ok tt) k h = (refl, h)
  >>-eq-ok (err e) k h = cc

  pub fail_if-eq-ok : (b : Bool) (e : E) → fail_if b e ≡ ok tt → b ≡ false
  fail_if-eq-ok false e h = refl
  fail_if-eq-ok true e h = cc

  -- Both steps of a chain that succeeds have succeeded.
  pub >>=-eq-ok :
      {A B : Type 0} (first : Outcome E A) (next : A → Outcome E B) {done : B}
      → (first >>= next) ≡ ok done
      → (value : A) × (first ≡ ok value) × (next value ≡ ok done)
  >>=-eq-ok (err problem) next chain = cc
  >>=-eq-ok (ok value) next chain = (value, refl, chain)
