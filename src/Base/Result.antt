-- ===== src/Base/Result.antt =====
-- A value or an error: Go's pair of a result and an `error`.
use chum.Base.{◌≡◌, refl, ◌⊎◌, inl, inr, Bool, true, false}

pub data Result {ℓ} (E : Type 0) (T : Type ℓ) : Type ℓ where
  err : E → Result E T
  ok : T → Result E T

-- An error ends the chain: `if err != nil { return err }`.
infixl 5 ◌>>=◌ ◌>>◌
abbrev pub ◌>>=◌ {ℓ κ} :
    {E : Type 0} {T : Type ℓ} {U : Type κ} → Result E T → (T → Result E U) → Result E U
◌>>=◌ first next = elim first [ ok t ↦ next t | err e ↦ err e ]

abbrev pub ◌>>◌ {ℓ} : {E : Type 0} {U : Type ℓ} → Result E (Unit {0}) → Result E U → Result E U
first >> next = first >>= λ _. next

-- An early return of the error unless the test passes.
abbrev pub require : {E : Type 0} → Bool → E → Result E (Unit {0})
require passed e = elim passed [ true ↦ ok tt | false ↦ err e ]

-- A property of the value, if there is one.
abbrev pub OnOk {ℓ κ} : {E : Type 0} {T : Type ℓ} → (T → Type κ) → Result E T → Type κ
OnOk P (ok t) = P t
OnOk P (err e) = Unit

module _ {ℓ κ μ} {E : Type 0} {T : Type ℓ} {U : Type κ} where
  pub OnOk-bind :
      (P : U → Type μ) (first : Result E T) (next : T → Result E U)
      → ((t : T) → first ≡ ok t → OnOk P (next t))
      → OnOk P (first >>= next)
  OnOk-bind P (ok t) next h = h t refl
  OnOk-bind P (err e) next h = tt

module _ {ℓ} {E : Type 0} {T : Type ℓ} where
  pub Result-cases : (m : Result E T) → ((t : T) × (m ≡ ok t)) ⊎ ((e : E) × (m ≡ err e))
  Result-cases (ok t) = inl (t, refl)
  Result-cases (err e) = inr (e, refl)
