-- ===== src/Engine/Heroes.antt =====
-- The heroes and their names (`HeroId` of crates/game-domain/src/lib.rs).
use rust_game_harry_potter.Base.{
  ◌≡◌, ◌↔◌, refl, sym, ap, ◌∙◌, arith, Ensures, yields, fails, Ensures-if, Ensures-ok, String,
  if◌then◌else◌, ok, err, Result, ◌==◌, string_eq, String-discrete,
}

pub data HeroId : Type 0 where
  harry hermione neville ron : HeroId

pub data ParseHeroIdError : Type 0 where
  parse_hero_id_error : ParseHeroIdError

unfoldable pub as_str : HeroId → String
as_str HeroId.harry = "harry"
as_str HeroId.hermione = "hermione"
as_str HeroId.neville = "neville"
as_str HeroId.ron = "ron"

unfoldable pub from_str : String → Result ParseHeroIdError HeroId
from_str value =
    if value == "harry"
    then ok HeroId.harry
    else if value == "hermione"
    then ok HeroId.hermione
    else if value == "neville"
    then ok HeroId.neville
    else if value == "ron"
    then ok HeroId.ron
    else err parse_hero_id_error

read_back : (h : HeroId) → from_str (as_str h) ≡ ok h
unfolding from_str as_str String-discrete
read_back HeroId.harry = refl
read_back HeroId.hermione = refl
read_back HeroId.neville = refl
read_back HeroId.ron = refl

as_str-from_str : (s : String) → Ensures (λ h. as_str h ≡ s) (from_str s)
unfolding from_str as_str
as_str-from_str s =
    Ensures-if (s == "harry") _ _ (λ h. yields (ground arith))
      λ n.
        Ensures-if (s == "hermione") _ _ (λ h. yields (ground arith))
          λ m.
            Ensures-if (s == "neville") _ _ (λ h. yields (ground arith))
              λ k. Ensures-if (s == "ron") _ _ (λ h. yields (ground arith)) λ l. fails

-- A text is read as a hero exactly when it is what the hero is written as.
pub from_str-as_str : (s : String) (h : HeroId) → (from_str s ≡ ok h) ↔ (s ≡ as_str h)
from_str-as_str s h =
    (λ e. sym (Ensures-ok (as_str-from_str s) e), λ e. ap from_str e ∙ read_back h)
