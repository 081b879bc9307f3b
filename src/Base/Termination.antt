-- ===== src/Base/Termination.antt =====
-- Loops on fuel that were given enough of it.
use mathlib.Core.Path.{◌≡◌, refl}
use mathlib.Core.Logic.{◌≢◌}
use mathlib.Core.Bool.{Bool, true, false}
use rust_game_harry_potter.Base.Tests.{if◌then◌else◌}
use rust_game_harry_potter.Base.Results.{
  Result, ok, err, ◌>>=◌, ◌>>◌, ensure, Fault, raised, out_of_fuel, map_err, fault_as,
}

-- A result that is a value or an error of the source.
pub data Terminates {ℓ κ} {E : Type ℓ} {A : Type κ} : Result (Fault E) A → Type (ℓ ⊔ κ) where
  finishes : {a : A} → Terminates (ok a)
  raises : {e : E} → Terminates (err (raised e))

module _ {ℓ κ} {E : Type ℓ} {A : Type κ} where
  pub Terminates-ne : {r : Result (Fault E) A} → Terminates r → r ≢ err out_of_fuel
  Terminates-ne finishes h = cc
  Terminates-ne raises h = cc

  pub Terminates-if :
      (b : Bool) (m n : Result (Fault E) A)
      → (b ≡ true → Terminates m)
      → (b ≡ false → Terminates n)
      → Terminates (if b then m else n)
  Terminates-if true m n h k = h refl
  Terminates-if false m n h k = k refl

  pub Terminates-ensure :
      (b : Bool) (e : E) (k : Result (Fault E) A)
      → (b ≡ true → Terminates k)
      → Terminates (ensure b (raised e) >> k)
  Terminates-ensure true e k h = h refl
  Terminates-ensure false e k h = raises

module _ {ℓ κ ι} {E : Type ℓ} {A : Type κ} {B : Type ι} where
  pub Terminates->>= :
      (m : Result (Fault E) A) (f : A → Result (Fault E) B)
      → Terminates m
      → ((a : A) → m ≡ ok a → Terminates (f a))
      → Terminates (m >>= f)
  Terminates->>= (ok a) f finishes k = k a refl
  Terminates->>= (err (raised e)) f raises k = raises
  Terminates->>= (err out_of_fuel) f x4 k = elim x4 [ ]

module _ {ℓ κ ι} {E : Type ℓ} {F : Type ι} {A : Type κ} where
  pub Terminates-raise_as :
      (f : E → F) (r : Result E A) → Terminates (map_err (λ e. raised (f e)) r)
  Terminates-raise_as f (ok a) = finishes
  Terminates-raise_as f (err e) = raises

  pub Terminates-fault_as :
      (f : F) {r : Result (Fault E) A} → Terminates r → Terminates (fault_as f r)
  Terminates-fault_as f finishes = finishes
  Terminates-fault_as f raises = raises
