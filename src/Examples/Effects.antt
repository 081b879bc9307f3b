-- ===== src/Examples/Effects.antt =====
-- Effects that are executed and applied again, at concrete inputs.
use rust_game_harry_potter.Base.{
  ℕ, ◌≡◌, refl, true, false, Option, none, some, List, [], ◌∷◌, ok, length,
}
use rust_game_harry_potter.Effects.Zones.{heroes, attack, health}
use rust_game_harry_potter.Effects.Entities.{EffectEntity}
use rust_game_harry_potter.World.Store.{EffectWorld}
use rust_game_harry_potter.Base.{ℕ_discrete, String-discrete, Option-discrete}
use rust_game_harry_potter.Effects.Zones.{EffectZone-discrete, EffectResource-discrete}
use rust_game_harry_potter.Effects.Entities.{EffectEntityKind-discrete}
use rust_game_harry_potter.Effects.Resources.{ResourceMap-discrete}
use rust_game_harry_potter.World.Moves.{
  move_to_back, move_card, look_up, overwrite_owned, set_card_order,
}
use rust_game_harry_potter.World.Validity.{
  valid_starter_card, valid_villain_entity, valid_kind_in_zone, entity_is_valid_in_zone,
  owner_transition_is_valid,
}
use rust_game_harry_potter.Shuffling.{rounds, fisher_yates, shuffle}
use rust_game_harry_potter.Shuffling.Swaps.{exchange, swap}
use rust_game_harry_potter.Shuffling.Sorting.{insert_sorted, sort}
use rust_game_harry_potter.World.Store.{
  entities_in, set_zone, push, find_over, entity, cards_in_zone, top_card_id, entity_mut,
}
use rust_game_harry_potter.World.Lookup.{Unique}
use rust_game_harry_potter.Base.{string_eq, subst, all}
use rust_game_harry_potter.Effects.Rules.{negsuc, EffectRule, manual, no_op}
use rust_game_harry_potter.Effects.Outcomes.{EffectOutcome}
use rust_game_harry_potter.Executor.Stun.{Table}
use rust_game_harry_potter.Executor.Apply.{is_defeat, apply_effect_outcomes}
use rust_game_harry_potter.Executor.Replay.{Replays}
use rust_game_harry_potter.Executor.Stun.Replay.{FreeLocation, modify_entity_resource-Replays}
use rust_game_harry_potter.Executor.Draw.{EffectSource}
use rust_game_harry_potter.Executor.Draw.Replay.{draw_cards-Replays}
use rust_game_harry_potter.Executor.Costs.{single}
use rust_game_harry_potter.Executor.Costs.Replay.{payable, apply_effect_outcomes-pay_costs}
use rust_game_harry_potter.Executor.Stun.{
  changed, reset_one, apply_stun_resource_reset, finish_stun, stun, modify_entity_resource,
}
use rust_game_harry_potter.Executor.Draw.{
  move_all as move_cards, refill_shuffled_pile, ensure_pile, draw_loop as draw_some, draw_cards,
}
use rust_game_harry_potter.Executor.Abilities.{card_type, drawing_prevented}
use rust_game_harry_potter.Executor.Costs.{selected_costs, pay_one, pay_all, pay_costs}
use rust_game_harry_potter.Examples.{counting, harry, diagon_alley, table, got, small, small-Unique}

-- Executing effects.
abbrev at_table : EffectWorld → Table ℕ
at_table w = record { world = w; outcomes = []; roller = 1; rolls_consumed = 0 }

abbrev spell : EffectSource
spell = record { actor_position = 1; rule_id = "starter:alohomora"; rules = [] }

abbrev drew : Table ℕ × Option ℕ
drew = got (at_table small, none) (draw_cards counting "hero:1" spell 1 (at_table small))

draws : draw_cards counting "hero:1" spell 1 (at_table small) ≡ ok drew
unfolding ℕ_discrete String-discrete Option-discrete EffectZone-discrete EffectResource-discrete
    EffectEntityKind-discrete ResourceMap-discrete entities_in set_zone push find_over entity
    cards_in_zone top_card_id entity_mut move_to_back move_card look_up overwrite_owned
    set_card_order valid_starter_card valid_villain_entity valid_kind_in_zone
    entity_is_valid_in_zone owner_transition_is_valid rounds fisher_yates shuffle exchange swap
    insert_sorted sort move_cards refill_shuffled_pile ensure_pile draw_some draw_cards card_type
    drawing_prevented mathlib.Core.Option.bind
draws = refl

spell_plain : is_defeat "starter:alohomora" ≡ false
unfolding ℕ_discrete String-discrete Option-discrete EffectZone-discrete EffectResource-discrete
    EffectEntityKind-discrete ResourceMap-discrete
spell_plain = refl

draw_cards-Replays_example : Replays (at_table small) drew.0 × Unique drew.0.world
draw_cards-Replays_example =
    draw_cards-Replays counting "hero:1" spell 1 (at_table small) spell_plain small-Unique draws

-- Harry loses all health: the stun takes the attack and adds a control to the location.
abbrev stunned : Table ℕ × Option ℕ
stunned =
    got (at_table table, none)
      (modify_entity_resource "hero:1" "dark-arts:001" health (negsuc 9) (at_table table))

stuns :
    modify_entity_resource "hero:1" "dark-arts:001" health (negsuc 9) (at_table table) ≡ ok stunned
unfolding ℕ_discrete String-discrete Option-discrete EffectZone-discrete EffectResource-discrete
    EffectEntityKind-discrete ResourceMap-discrete entities_in set_zone push find_over entity
    cards_in_zone top_card_id entity_mut changed reset_one apply_stun_resource_reset finish_stun
    stun modify_entity_resource
stuns = refl

stun_outcomes : length stunned.0.outcomes ≡ 3
unfolding ℕ_discrete String-discrete Option-discrete EffectZone-discrete EffectResource-discrete
    EffectEntityKind-discrete ResourceMap-discrete entities_in set_zone push find_over entity
    cards_in_zone top_card_id entity_mut changed reset_one apply_stun_resource_reset finish_stun
    stun modify_entity_resource
stun_outcomes = refl

table-FreeLocation : FreeLocation table
unfolding entities_in
table-FreeLocation l h =
    subst (λ (d : EffectEntity). d.owner_position ≡ none) {x = diagon_alley} {y = l} (cc h) refl

table-harry : entity table "hero:1" ≡ some (heroes, harry)
unfolding ℕ_discrete String-discrete Option-discrete EffectZone-discrete EffectResource-discrete
    EffectEntityKind-discrete ResourceMap-discrete entities_in set_zone push find_over entity
    cards_in_zone top_card_id entity_mut
table-harry = refl

modify_entity_resource-Replays_example : Replays (at_table table) stunned.0
modify_entity_resource-Replays_example =
    modify_entity_resource-Replays "hero:1" "dark-arts:001" health (negsuc 9) (at_table table)
      table-harry refl (λ e. refl) table-FreeLocation stuns

abbrev paid_rule : EffectRule
paid_rule = record {
  id = "spell:attack";
  trigger = manual;
  order = 0;
  cost = record { resource = attack; amount = 2 } ∷ [];
  effect = no_op;
}

abbrev paid : List EffectOutcome × EffectWorld
paid = got ([], small) (pay_costs 1 (paid_rule ∷ []) (single "spell:attack") small)

pays : pay_costs 1 (paid_rule ∷ []) (single "spell:attack") small ≡ ok paid
unfolding ℕ_discrete String-discrete Option-discrete EffectZone-discrete EffectResource-discrete
    EffectEntityKind-discrete ResourceMap-discrete entities_in set_zone push find_over entity
    cards_in_zone top_card_id entity_mut selected_costs pay_one pay_all pay_costs
pays = refl

pays_payable : all payable (selected_costs (single "spell:attack") (paid_rule ∷ [])) ≡ true
unfolding ℕ_discrete String-discrete Option-discrete EffectZone-discrete EffectResource-discrete
    EffectEntityKind-discrete ResourceMap-discrete selected_costs pay_one pay_all pay_costs
pays_payable = refl

apply_effect_outcomes-pay_costs_example : apply_effect_outcomes paid.0 small ≡ ok paid.1
apply_effect_outcomes-pay_costs_example =
    apply_effect_outcomes-pay_costs 1 (paid_rule ∷ []) (single "spell:attack") small small-Unique
      pays_payable pays
