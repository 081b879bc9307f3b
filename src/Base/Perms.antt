-- ===== src/Base/Perms.antt =====
-- Rearrangements and the native length.
use mathlib.Core.List.{List, Perm, Permᴰ}
use mathlib.Core.Logic.{∥∥₁_elim}
use mathlib.Core.Path.{◌≡◌, refl, ap, ◌∙◌}
use mathlib.Core.Bool.{Bool}
use native.Mathlib.Nat.{ℕ_set}
use native.Mathlib.Omega.{arith}
use rust_game_harry_potter.Base.Lists.{length, count}

module _ {ℓ} {A : Type ℓ} where
  Permᴰ-length : {xs ys : List A} → Permᴰ xs ys → length xs ≡ length ys
  Permᴰ-length Permᴰ.nil = refl
  Permᴰ-length (Permᴰ.cons e p) = omega (arith, Permᴰ-length p)
  Permᴰ-length (Permᴰ.swap e f) = refl
  Permᴰ-length (Permᴰ.trans p q) = Permᴰ-length p ∙ Permᴰ-length q

  pub length-perm : {xs ys : List A} → Perm xs ys → length xs ≡ length ys
  length-perm {xs} {ys} p = ∥∥₁_elim p (ℕ_set (length xs) (length ys)) Permᴰ-length

module _ {ℓ} {A : Type ℓ} (p : A → Bool) where
  Permᴰ-count : {xs ys : List A} → Permᴰ xs ys → count p xs ≡ count p ys
  Permᴰ-count Permᴰ.nil = refl
  Permᴰ-count (Permᴰ.cons e perm) = ground (arith, ap p e, Permᴰ-count perm)
  Permᴰ-count (Permᴰ.swap e f) = ground (arith, ap p e, ap p f)
  Permᴰ-count (Permᴰ.trans perm q) = Permᴰ-count perm ∙ Permᴰ-count q

  pub count-perm : {xs ys : List A} → Perm xs ys → count p xs ≡ count p ys
  count-perm {xs} {ys} perm = ∥∥₁_elim perm (ℕ_set (count p xs) (count p ys)) Permᴰ-count
