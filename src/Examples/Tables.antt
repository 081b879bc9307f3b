-- ===== src/Examples/Tables.antt =====
-- Moves on a table at concrete inputs.
use rust_game_harry_potter.Base.{◌≡◌, refl, String, Option, none, some, List, [], ◌∷◌, ok}
use rust_game_harry_potter.Effects.Zones.{EffectZone, hero_discard_pile, hero_hand}
use rust_game_harry_potter.Effects.Entities.{EffectEntity}
use rust_game_harry_potter.World.Store.{EffectWorld}
use rust_game_harry_potter.Base.{ℕ_discrete, String-discrete, Option-discrete}
use rust_game_harry_potter.Effects.Zones.{EffectZone-discrete, EffectResource-discrete}
use rust_game_harry_potter.Effects.Entities.{EffectEntityKind-discrete}
use rust_game_harry_potter.Effects.Resources.{ResourceMap-discrete}
use rust_game_harry_potter.World.Moves.{
  move_to_back, move_card, look_up, overwrite_owned, set_card_order,
}
use rust_game_harry_potter.World.Validity.{
  valid_starter_card, valid_villain_entity, valid_kind_in_zone, entity_is_valid_in_zone,
  owner_transition_is_valid,
}
use rust_game_harry_potter.Shuffling.Sorting.{insert_sorted, sort}
use rust_game_harry_potter.World.Store.{
  entities_in, set_zone, push, find_over, entity, cards_in_zone, top_card_id, entity_mut,
}
use rust_game_harry_potter.World.Upkeep.{
  reset_hero_resource, unblock, restore_drawing, recover, recover_stunned_heroes,
  advance_controlled_location, refill_loop, refill_villains,
}
use rust_game_harry_potter.World.Store.{has_id}
use rust_game_harry_potter.World.Census.{census, total_over, total}
use rust_game_harry_potter.World.Lookup.{Unique}
use rust_game_harry_potter.World.Conservation.{
  census-move_to_back, Transferred, move_to_back-Transferred, top_card_id-move_to_back, Refilled,
  refill_villains-Refilled,
}
use rust_game_harry_potter.Base.{arith, string_eq, sym}
use rust_game_harry_potter.Examples.{alohomora, table, got, apart_both, same_as_c}
use rust_game_harry_potter.World.Ordering.{cards_in_zone-set_card_order}

-- The card in hand is discarded.
abbrev discarded : EffectWorld
discarded = got table (move_to_back "a" hero_hand hero_discard_pile (some 1) table)

discards : move_to_back "a" hero_hand hero_discard_pile (some 1) table ≡ ok discarded
unfolding ℕ_discrete String-discrete Option-discrete EffectZone-discrete EffectResource-discrete
    EffectEntityKind-discrete ResourceMap-discrete entities_in set_zone push find_over entity
    cards_in_zone top_card_id entity_mut move_to_back move_card look_up overwrite_owned
    set_card_order valid_starter_card valid_villain_entity valid_kind_in_zone
    entity_is_valid_in_zone owner_transition_is_valid
discards = refl

census-move_to_back_example : census (has_id "a") discarded ≡ census (has_id "a") table
census-move_to_back_example =
    census-move_to_back (has_id "a") "a" hero_hand hero_discard_pile (some 1) table (λ e. refl)
      discards

move_to_back-Transferred_example :
    Transferred "a" hero_hand hero_discard_pile (some 1) table discarded
move_to_back-Transferred_example =
    move_to_back-Transferred "a" hero_hand hero_discard_pile (some 1) table (λ e. cc) discards

top_card_id-move_to_back_example : top_card_id discarded 1 hero_discard_pile ≡ some "a"
top_card_id-move_to_back_example =
    top_card_id-move_to_back "a" hero_hand hero_discard_pile 1 table (λ e. cc) discards

abbrev refilled : List String × EffectWorld
refilled = ("villain:1" ∷ [], (got ([], table) (refill_villains 2 table)).1)

refills : refill_villains 2 table ≡ ok refilled
unfolding ℕ_discrete String-discrete Option-discrete EffectZone-discrete EffectResource-discrete
    EffectEntityKind-discrete ResourceMap-discrete entities_in set_zone push find_over entity
    cards_in_zone top_card_id entity_mut move_to_back move_card look_up overwrite_owned
    set_card_order valid_starter_card valid_villain_entity valid_kind_in_zone
    entity_is_valid_in_zone owner_transition_is_valid reset_hero_resource unblock restore_drawing
    recover recover_stunned_heroes advance_controlled_location refill_loop refill_villains
refills = refl

refill_villains-Refilled_example : Refilled 2 table refilled
refill_villains-Refilled_example = refill_villains-Refilled 2 table refills

-- Two cards in a discard pile change places.
abbrev two_zones : EffectZone → Option (List EffectEntity)
two_zones hero_discard_pile = some (alohomora "a" ∷ alohomora "c" ∷ [])
two_zones _ = none

abbrev two : EffectWorld
two = record { zones = two_zones }

two-Unique : Unique two
unfolding total_over total entities_in same_as_c String-discrete
two-Unique id = elim (String-discrete "a" id) [
  | yes x ↦ elim (String-discrete "c" id) [
    | yes y ↦ absurd (apart_both id "a" refl (sym x) (sym y))
    | no d ↦ ground arith
  ]
  | no d ↦ ground arith
]

abbrev turned : EffectWorld
turned = got two (set_card_order 1 hero_discard_pile ("c" ∷ "a" ∷ []) two)

turns : set_card_order 1 hero_discard_pile ("c" ∷ "a" ∷ []) two ≡ ok turned
unfolding ℕ_discrete String-discrete Option-discrete EffectZone-discrete EffectResource-discrete
    EffectEntityKind-discrete ResourceMap-discrete entities_in set_zone push find_over entity
    cards_in_zone top_card_id entity_mut move_to_back move_card look_up overwrite_owned
    set_card_order valid_starter_card valid_villain_entity valid_kind_in_zone
    entity_is_valid_in_zone owner_transition_is_valid insert_sorted sort
turns = refl

cards_in_zone-set_card_order_example : cards_in_zone turned 1 hero_discard_pile ≡ "c" ∷ "a" ∷ []
cards_in_zone-set_card_order_example =
    cards_in_zone-set_card_order 1 hero_discard_pile ("c" ∷ "a" ∷ []) two two-Unique turns
