-- ===== src/Base/Sets.antt =====
-- Sorted lists and sets of numbers and texts, as `sort_unstable`, `dedup` and `BTreeSet` give them.
use Prim.Native.Nat.{ℕ}
use mathlib.Core.Bool.{Bool, true, false}
use mathlib.Core.List.{List, [], ◌∷◌}
use rust_game_harry_potter.Base.Tests.{ltb, if◌then◌else◌, Eq}
use rust_game_harry_potter.Base.Lists.{contains}

unfoldable pub insert_number : ℕ → List ℕ → List ℕ
insert_number n [] = n ∷ []
insert_number n (m ∷ ms) = let rest = insert_number n ms in if ltb m n then m ∷ rest else n ∷ m ∷ ms

-- `sort_unstable` of numbers: equal numbers are one and the same.
unfoldable pub sort_numbers : List ℕ → List ℕ
unfolding insert_number
sort_numbers [] = []
sort_numbers (n ∷ ns) = insert_number n (sort_numbers ns)

module _ {ℓ} {A : Type ℓ} ⦃e : Eq A⦄ where
  -- Each element once: the last of its occurrences.
  abbrev pub distinct : List A → List A
  distinct [] = []
  distinct (x ∷ xs) = let rest = distinct xs in if contains xs x then rest else x ∷ rest

  -- `collect::<BTreeSet<_>>().len() == len()`
  abbrev pub all_distinct : List A → Bool
  all_distinct [] = true
  all_distinct (x ∷ xs) = if contains xs x then false else all_distinct xs
