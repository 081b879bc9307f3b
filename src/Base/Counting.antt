-- ===== src/Base/Counting.antt =====
-- Counting and searching agree: lemmas on `count`, `find`, `extract` and `modify_first`.
use Prim.Native.Nat.{suc, ◌+◌, ◌≤◌}
use mathlib.Core.Path.{◌≡◌, refl}
use mathlib.Core.Logic.{inl, inr}
use mathlib.Core.List.{List, [], ◌∷◌, ◌++◌}
use mathlib.Core.Bool.{Bool, true}
use mathlib.Core.Option.{none, some}
use native.Mathlib.Omega.{arith}
use rust_game_harry_potter.Base.Tests.{Bool-cases, Option-cases}
use rust_game_harry_potter.Base.Lists.{count, find, extract, modify_first, length}

module _ {ℓ} {A : Type ℓ} (p : A → Bool) where
  pub count-append : (xs ys : List A) → count p (xs ++ ys) ≡ count p xs + count p ys
  count-append [] ys = omega arith
  count-append (x ∷ xs) ys = ground (arith, count-append xs ys)

  pub find-count : (xs : List A) {a : A} → find p xs ≡ some a → 1 ≤ count p xs
  find-count [] h = cc
  find-count (x ∷ xs) {a} h = ground (arith, find-count xs {a = a})

  pub find-none-count : (xs : List A) → find p xs ≡ none → count p xs ≡ 0
  find-none-count [] h = refl
  find-none-count (x ∷ xs) h = ground (arith, find-none-count xs)

  pub find-holds : (xs : List A) {a : A} → find p xs ≡ some a → p a ≡ true
  find-holds [] h = cc
  find-holds (x ∷ xs) {a} h = ground (arith, find-holds xs {a = a})

module _ {ℓ} {A : Type ℓ} (p : A → Bool) where
  -- The element taken out, and the rest, make up the list.
  pub extract-count :
      (q : A → Bool) (xs : List A) {r : A × List A}
      → extract p xs ≡ some r
      → count q xs ≡ count q (r.0 ∷ r.1)
  extract-count q [] h = cc
  extract-count q (x ∷ xs) {r} h = elim (Bool-cases (p x)) [
    | inl e ↦ ground arith
    | inr e ↦ elim (Option-cases (extract p xs)) [
      | inl f ↦ absurd (ground arith)
      | inr (s, f) ↦ ground (arith, extract-count q xs f)
    ]
  ]

  pub extract-holds : (xs : List A) {r : A × List A} → extract p xs ≡ some r → p r.0 ≡ true
  extract-holds [] h = cc
  extract-holds (x ∷ xs) {r} h = elim (Option-cases (extract p xs)) [
    | inl f ↦ ground arith
    | inr (s, f) ↦ ground (arith, extract-holds xs f)
  ]

  pub extract-find : (xs : List A) {r : A × List A} → extract p xs ≡ some r → find p xs ≡ some r.0
  extract-find [] h = cc
  extract-find (x ∷ xs) {r} h = elim (Option-cases (extract p xs)) [
    | inl f ↦ ground arith
    | inr (s, f) ↦ ground (arith, extract-find xs f)
  ]

  pub find-extract :
      (xs : List A) {a : A} → find p xs ≡ some a → (r : A × List A) × (extract p xs ≡ some r)
  find-extract [] h = cc
  find-extract (x ∷ xs) {a} h = elim (Bool-cases (p x)) [
    | inl e ↦ ((x, xs), ground arith)
    | inr e ↦ let (r, f) = find-extract xs {a = a} (ground arith) in ((r.0, x ∷ r.1), ground arith)
  ]

  pub extract-length :
      (xs : List A) {r : A × List A} → extract p xs ≡ some r → length xs ≡ suc (length r.1)
  extract-length [] h = cc
  extract-length (x ∷ xs) {r} h = elim (Option-cases (extract p xs)) [
    | inl f ↦ ground arith
    | inr (s, f) ↦ ground (arith, extract-length xs f)
  ]

  -- A write keeps the count of every test that it does not change.
  pub count-modify_first :
      (q : A → Bool) (f : A → A) (xs : List A)
      → ((x : A) → q (f x) ≡ q x)
      → count q (modify_first p f xs) ≡ count q xs
  count-modify_first q f [] h = refl
  count-modify_first q f (x ∷ xs) h = ground (arith, h x, count-modify_first q f xs h)

  pub find-modify_first :
      (f : A → A) (xs : List A) {a : A}
      → ((x : A) → p (f x) ≡ p x)
      → find p xs ≡ some a
      → find p (modify_first p f xs) ≡ some (f a)
  find-modify_first f [] h k = cc
  find-modify_first f (x ∷ xs) {a} h k = ground (arith, h x, find-modify_first f xs {a = a} h)

  pub find-modify_first-none :
      (f : A → A) (xs : List A) → find p xs ≡ none → modify_first p f xs ≡ xs
  find-modify_first-none f [] k = refl
  find-modify_first-none f (x ∷ xs) k = ground (arith, find-modify_first-none f xs)
