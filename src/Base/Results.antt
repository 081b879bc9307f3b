-- ===== src/Base/Results.antt =====
-- `Result` with the error type as a parameter, its `do` notation, and the inversion of a bind.
use mathlib.Core.Path.{◌≡◌, refl, subst}
use mathlib.Core.Logic.{◌⊎◌, inl, inr}
use mathlib.Core.Bool.{Bool, true, false}
use mathlib.Core.Option.{Option, none, some}
use rust_game_harry_potter.Base.Tests.{if◌then◌else◌}

pub data Result {ℓ κ} (E : Type ℓ) (A : Type κ) : Type (ℓ ⊔ κ) where
  ok : A → Result E A
  err : E → Result E A

abbrev pub map_err {ℓ κ ι} :
    {E : Type ℓ} {F : Type κ} {A : Type ι} → (E → F) → Result E A → Result F A
map_err f (ok a) = ok a
map_err f (err e) = err (f e)

infixl 5 ◌>>=◌ ◌>>◌
abbrev pub ◌>>=◌ {ℓ κ ι} :
    {E : Type ℓ} {A : Type κ} {B : Type ι} → Result E A → (A → Result E B) → Result E B
err stop >>= next = err stop
ok value >>= next = next value

abbrev pub ◌>>◌ {ℓ κ} : {E : Type ℓ} {B : Type κ} → Result E (Unit {0}) → Result E B → Result E B
first >> second = first >>= λ done. second

-- An early `return Err(e)` unless the test holds.
abbrev pub ensure {ℓ} : {E : Type ℓ} → Bool → E → Result E (Unit {0})
ensure true e = ok tt
ensure false e = err e

abbrev pub ok_or {ℓ κ} : {E : Type ℓ} {A : Type κ} → Option A → E → Result E A
ok_or none e = err e
ok_or (some a) e = ok a

module _ {ℓ κ} {E : Type ℓ} {A : Type κ} where
  pub ok_or-eq-ok : (o : Option A) (e : E) {a : A} → ok_or o e ≡ ok a → o ≡ some a
  ok_or-eq-ok none e h = cc
  ok_or-eq-ok (some x) e h = cc

  pub ensure-eq-ok :
      (b : Bool) (e : E) (k : Result E A) {a : A} → (ensure b e >> k) ≡ ok a → b ≡ true
  ensure-eq-ok true e k h = refl
  ensure-eq-ok false e k h = cc

  pub Result-cases : (r : Result E A) → ((a : A) × (r ≡ ok a)) ⊎ ((e : E) × (r ≡ err e))
  Result-cases (ok a) = inl (a, refl)
  Result-cases (err e) = inr (e, refl)

module _ {ℓ κ ι} {E : Type ℓ} {F : Type κ} {A : Type ι} where
  pub map_err-eq-ok : (f : E → F) (r : Result E A) {a : A} → map_err f r ≡ ok a → r ≡ ok a
  map_err-eq-ok f (ok x) h = cc
  map_err-eq-ok f (err e) h = cc

-- A successful result satisfies `P`.
pub data Ensures {ℓ κ ι} {E : Type ℓ} {A : Type κ} (P : A → Type ι)
    : Result E A → Type (ℓ ⊔ κ ⊔ ι) where
  returns : {a : A} → P a → Ensures P (ok a)
  fails : {e : E} → Ensures P (err e)

module _ {ℓ κ ι} {E : Type ℓ} {A : Type κ} {P : A → Type ι} where
  pub yields : {a : A} → P a → Ensures {E = E} P (ok a)
  yields p = returns p

  pub Ensures-ok : {r : Result E A} {a : A} → Ensures P r → r ≡ ok a → P a
  Ensures-ok (returns {a = x} p) h = subst P (cc) p
  Ensures-ok fails h = cc

module _ {ℓ κ ι μ} {E : Type ℓ} {A : Type κ} {B : Type ι} {P : B → Type μ} where
  -- The rule for a step of a `do` block: the step's equation is at hand in what follows.
  pub Ensures->>= :
      (m : Result E A) (f : A → Result E B)
      → ((a : A) → m ≡ ok a → Ensures P (f a))
      → Ensures P (m >>= f)
  Ensures->>= (ok a) f k = k a refl
  Ensures->>= (err e) f k = fails

module _ {ℓ ι μ} {E : Type ℓ} {B : Type ι} {P : B → Type μ} where
  pub Ensures-ensure :
      (b : Bool) (e : E) (k : Result E B) → (b ≡ true → Ensures P k) → Ensures P (ensure b e >> k)
  Ensures-ensure true e k h = h refl
  Ensures-ensure false e k h = fails

module _ {ℓ κ ι μ} {E : Type ℓ} {A : Type κ} {B : Type ι} {C : Type μ} where
  pub >>=-chain :
      (m : Result E A) (f : A → Result E C) (g : A → Result E B) (h : B → Result E C)
      → ((a : A) → f a ≡ (g a >>= h))
      → (m >>= f) ≡ ((m >>= g) >>= h)
  >>=-chain (ok a) f g h k = k a
  >>=-chain (err e) f g h k = refl

module _ {ℓ κ ι} {E : Type ℓ} {A : Type κ} {P : A → Type ι} where
  pub Ensures-if :
      (b : Bool) (m n : Result E A)
      → (b ≡ true → Ensures P m)
      → (b ≡ false → Ensures P n)
      → Ensures P (if b then m else n)
  Ensures-if true m n h k = h refl
  Ensures-if false m n h k = k refl

  pub Ensures-weaken {μ} :
      {Q : A → Type μ} {r : Result E A} → Ensures Q r → ((a : A) → Q a → P a) → Ensures P r
  Ensures-weaken (returns p) k = returns (k _ p)
  Ensures-weaken fails k = fails

-- A loop on fuel: the source's error, or that the rounds given were not enough.
pub data Fault {ℓ} (E : Type ℓ) : Type ℓ where
  raised : E → Fault E
  out_of_fuel : Fault E

abbrev pub raise {ℓ κ} : {E : Type ℓ} {A : Type κ} → Result E A → Result (Fault E) A
raise r = map_err raised r

-- `map_err(|_| error)`
abbrev pub raise_as {ℓ κ ι} :
    {E : Type ℓ} {F : Type ι} {A : Type κ} → F → Result E A → Result (Fault F) A
raise_as f r = map_err (λ _. raised f) r

-- `map_err(|_| error)` on the result of a loop.
abbrev pub fault_as {ℓ κ ι} :
    {E : Type ℓ} {F : Type ι} {A : Type κ} → F → Result (Fault E) A → Result (Fault F) A
fault_as f (ok a) = ok a
fault_as f (err (raised e)) = err (raised f)
fault_as f (err out_of_fuel) = err out_of_fuel

pub fault_as-eq-ok {ℓ κ ι} :
    {E : Type ℓ} {F : Type ι} {A : Type κ} (f : F) (r : Result (Fault E) A) {a : A}
    → fault_as f r ≡ ok a
    → r ≡ ok a
fault_as-eq-ok f (ok x) h = cc
fault_as-eq-ok f (err (raised e)) h = cc
fault_as-eq-ok f (err out_of_fuel) h = cc

pub Ensures-of {ℓ κ ι} :
    {E : Type ℓ} {A : Type κ} {P : A → Type ι} (r : Result E A)
    → ((a : A) → r ≡ ok a → P a)
    → Ensures P r
Ensures-of (ok a) k = returns (k a refl)
Ensures-of (err e) k = fails

pub ensure-true {ℓ} : {E : Type ℓ} (b : Bool) (e : E) {u : Unit {0}} → ensure b e ≡ ok u → b ≡ true
ensure-true true e h = refl
ensure-true false e h = cc

pub Ensures-map_err {ℓ κ ι μ} :
    {E : Type ℓ} {F : Type ι} {A : Type κ} {P : A → Type μ} {r : Result E A} (f : E → F)
    → Ensures P r
    → Ensures P (map_err f r)
Ensures-map_err f (returns p) = returns p
Ensures-map_err f fails = fails
