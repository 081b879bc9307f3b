-- ===== src/Shuffling/Swaps.antt =====
-- `slice::swap`, and that it rearranges (used by crates/game-domain/src/shuffling.rs).
use mathlib.Core.List.Perm
use rust_game_harry_potter.Base.{
  ℕ, zero, suc, ◌≡◌, refl, Option, none, some, List, [], ◌∷◌, Perm, length, get_elem?, set,
  length-set, ◌∙◌,
}

-- Rust panics on an index out of range; here the list is left alone. No caller does that
-- (`Shuffling.Replay` and `rounds`: both indices are below the length).
module _ {ℓ} {A : Type ℓ} where
  unfoldable pub exchange : Option A → Option A → ℕ → ℕ → List A → List A
  exchange (some a) (some b) i j xs = set (set xs i b) j a
  exchange _ _ i j xs = xs

  unfoldable pub swap : ℕ → ℕ → List A → List A
  unfolding exchange
  swap i j xs = exchange (get_elem? xs i) (get_elem? xs j) i j xs

  -- Writing `b` over the `a` at an index trades one for the other.
  pub set-perm :
      (xs : List A) (i : ℕ) {a : A} (b : A)
      → get_elem? xs i ≡ some a
      → Perm (a ∷ set xs i b) (b ∷ xs)
  set-perm [] i b h = cc
  set-perm (x ∷ xs) zero {a} b h =
      Perm.trans (Perm.swap b a xs) (Perm.cons b (Perm.cons' (cc) Perm.rfl))
  set-perm (x ∷ xs) (suc i) {a} b h =
      Perm.trans (Perm.swap x a (set xs i b))
        (Perm.trans (Perm.cons x (set-perm xs i b h)) (Perm.swap b x xs))

  set-get :
      (xs : List A) (i j : ℕ) {a b : A}
      → get_elem? xs i ≡ some a
      → get_elem? xs j ≡ some b
      → get_elem? (set xs i b) j ≡ some b
  set-get [] i j h k = cc
  set-get (x ∷ xs) zero zero h k = refl
  set-get (x ∷ xs) zero (suc j) h k = k
  set-get (x ∷ xs) (suc i) zero h k = k
  set-get (x ∷ xs) (suc i) (suc j) h k = set-get xs i j h k

  exchange-perm :
      (x y : Option A) (i j : ℕ) (xs : List A)
      → get_elem? xs i ≡ x
      → get_elem? xs j ≡ y
      → Perm (exchange x y i j xs) xs
  unfolding exchange
  exchange-perm (some a) (some b) i j xs e k =
      Perm.cons_inv
        (Perm.trans (set-perm (set xs i b) j a (set-get xs i j e k)) (set-perm xs i b e))
  exchange-perm (some a) none i j xs e k = Perm.refl xs
  exchange-perm none _ i j xs e k = Perm.refl xs

  pub swap-perm : (i j : ℕ) (xs : List A) → Perm (swap i j xs) xs
  unfolding swap
  swap-perm i j xs = exchange-perm (get_elem? xs i) (get_elem? xs j) i j xs refl refl

  length-exchange :
      (x y : Option A) (i j : ℕ) (xs : List A) → length (exchange x y i j xs) ≡ length xs
  unfolding exchange
  length-exchange (some a) (some b) i j xs = length-set (set xs i b) j a ∙ length-set xs i b
  length-exchange (some a) none i j xs = refl
  length-exchange none _ i j xs = refl

  pub length-swap : (i j : ℕ) (xs : List A) → length (swap i j xs) ≡ length xs
  unfolding swap
  length-swap i j xs = length-exchange (get_elem? xs i) (get_elem? xs j) i j xs
