-- ===== src/Shuffling/Sorting.antt =====
-- `sort` of card ids, by their bytes (used by crates/game-domain/src/shuffling.rs and effects.rs).
use Prim.Native.Nat.{Ordering}
use Prim.Native.String.{compare}
use mathlib.Core.List.Perm
use rust_game_harry_potter.Base.{
  String, Bool, true, false, List, [], ◌∷◌, Perm, ◌≡◌, sym, subst, Bool-cases, inl, inr,
  if◌then◌else◌,
}

-- `<=` on `str`
abbrev pub string_le : String → String → Bool
string_le s t = elim (compare s t) [ Ordering.gt ↦ false | _ ↦ true ]

unfoldable pub insert_sorted : String → List String → List String
insert_sorted x [] = x ∷ []
insert_sorted x (y ∷ ys) =
    let rest = insert_sorted x ys in if string_le x y then x ∷ y ∷ ys else y ∷ rest

unfoldable pub sort : List String → List String
unfolding insert_sorted
sort [] = []
sort (x ∷ xs) = insert_sorted x (sort xs)

pub insert_sorted-perm : (x : String) (ys : List String) → Perm (insert_sorted x ys) (x ∷ ys)
unfolding insert_sorted
insert_sorted-perm x [] = Perm.refl (x ∷ [])
insert_sorted-perm x (y ∷ ys) = elim (Bool-cases (string_le x y)) [
  | inl le ↦ rw le (Perm.refl (x ∷ y ∷ ys))
  | inr gt ↦ rw gt (Perm.trans (Perm.cons y (insert_sorted-perm x ys)) (Perm.swap x y ys))
]

pub sort-perm : (xs : List String) → Perm (sort xs) xs
unfolding sort
sort-perm [] = Perm.nil
sort-perm (x ∷ xs) = Perm.trans (insert_sorted-perm x (sort xs)) (Perm.cons x (sort-perm xs))

-- Lists that sort alike are rearrangements of each other.
pub sort-eq-perm : (xs ys : List String) → sort xs ≡ sort ys → Perm xs ys
sort-eq-perm xs ys h =
    Perm.trans (Perm.symm (sort-perm xs)) (subst (λ l. Perm l ys) (sym h) (sort-perm ys))
