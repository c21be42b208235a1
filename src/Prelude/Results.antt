-- ===== src/Prelude/Results.antt =====
-- A call that returns a value or fails: `Result<X, E>` and `?`.
use mathlib.Core.Path.{◌≡◌, refl}
use mathlib.Core.Logic.{◌⊎◌, inl, inr}
use mathlib.Core.Bool.{Bool, true, false}
use mathlib.Core.Option.{Option, none, some}

pub data Fallible {ℓ κ} (E : Type κ) (X : Type ℓ) : Type (ℓ ⊔ κ) where
  failed : E → Fallible E X
  done : X → Fallible E X

module _ {E : Type 0} where
  infixl 5 ◌|>◌
  abbrev pub ◌|>◌ {ℓ κ} :
      {X : Type ℓ} {Y : Type κ} → Fallible E X → (X → Fallible E Y) → Fallible E Y
  failed e |> next = failed e
  done x |> next = next x

  -- `ensure!`
  abbrev pub require {ℓ} : {X : Type ℓ} → Bool → E → Fallible E X → Fallible E X
  require true e next = next
  require false e next = failed e

  -- `ok_or`
  abbrev pub or_fail {ℓ} : {X : Type ℓ} → Option X → E → Fallible E X
  or_fail none e = failed e
  or_fail (some x) e = done x

  pub Fallible-cases {ℓ} :
      {X : Type ℓ} (r : Fallible E X) → ((e : E) × (r ≡ failed e)) ⊎ ((x : X) × (r ≡ done x))
  Fallible-cases (failed e) = inl (e, refl)
  Fallible-cases (done x) = inr (x, refl)
