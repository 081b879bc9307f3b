-- ===== src/Examples.antt =====
-- A small table, on which the definitions are tested and the theorems are applied.
mod Costs
mod Effects
mod Executions
mod Heroes
mod Piles
mod Tables
mod Turns
use Prim.Native.Nat.{◌%◌}
use rust_game_harry_potter.Base.{
  ℕ, ◌+◌, ◌≡◌, ◌≢◌, refl, sym, ap, ◌∙◌, String, Bool, true, false, Option, none, some, List, [],
  ◌∷◌, Result, ok, err, arith, ◌==◌, string_eq, String-discrete,
}
use rust_game_harry_potter.Effects.Zones.{
  EffectZone, active_location, heroes, hero_discard_pile, hero_hand, hero_play_area, villain_deck,
  attack, control, health,
}
use rust_game_harry_potter.Effects.Resources
use rust_game_harry_potter.Effects.Entities.{
  EffectEntity, card, new_location, new_villain, with_resource, starter_card, hero, new,
}
use rust_game_harry_potter.Effects.Outcomes.{EffectRoller}
use rust_game_harry_potter.World.Store.{EffectWorld, entities_in}
use rust_game_harry_potter.World.Census.{total_over, total}
use rust_game_harry_potter.World.Lookup.{Unique}

-- A random source that counts its calls.
abbrev pub counting : EffectRoller ℕ
counting = record { roll = λ s die. (some 1, s + 1); sample_below = λ s n. (some (s % n), s + 1) }

abbrev pub harry : EffectEntity
harry = record (with_resource health 10 (with_resource attack 2 (new "hero:1" (some 1)))) {
  kind = hero;
  resource_limits = Resources.insert health 10 Resources.empty;
}

abbrev pub alohomora : String → EffectEntity
alohomora id = card id "starter:001" starter_card (some 1) "starter:alohomora" none

abbrev pub diagon_alley : EffectEntity
diagon_alley = new_location "location:1" "location:001" "location:diagon-alley" 4 1

abbrev pub draco : EffectEntity
draco = new_villain "villain:1" "villain:001" "villain:draco" 6

abbrev pub table_zones : EffectZone → Option (List EffectEntity)
table_zones heroes = some (harry ∷ [])
table_zones hero_hand = some (alohomora "a" ∷ [])
table_zones hero_play_area = some (alohomora "b" ∷ [])
table_zones hero_discard_pile = some (alohomora "c" ∷ [])
table_zones active_location = some (diagon_alley ∷ [])
table_zones villain_deck = some (draco ∷ [])
table_zones _ = none

abbrev pub table : EffectWorld
table = record { zones = table_zones }

abbrev pub got : {E A : Type 0} → A → Result E A → A
got a (ok b) = b
got a (err e) = a

-- A hero and one card.
abbrev pub small_zones : EffectZone → Option (List EffectEntity)
small_zones heroes = some (harry ∷ [])
small_zones hero_discard_pile = some (alohomora "c" ∷ [])
small_zones _ = none

abbrev pub small : EffectWorld
small = record { zones = small_zones }

unfoldable pub same_as_c : String → Bool
same_as_c i = i == "c"

pub apart_both : (i other : String) → same_as_c other ≡ false → i ≡ other → i ≢ "c"
unfolding String-discrete same_as_c
apart_both i other apart e f = cc (sym apart ∙ ap same_as_c (sym e ∙ f))

pub small-Unique : Unique small
unfolding total_over total entities_in same_as_c String-discrete
small-Unique id = elim (String-discrete "hero:1" id) [
  | yes x ↦ elim (String-discrete "c" id) [
    | yes y ↦ absurd (apart_both id "hero:1" refl (sym x) (sym y))
    | no d ↦ ground arith
  ]
  | no d ↦ ground arith
]
