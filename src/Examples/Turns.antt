-- ===== src/Examples/Turns.antt =====
-- The end of a turn and the control of turns at concrete inputs.
use rust_game_harry_potter.Base.{ℕ, ◌≡◌, ◌≢◌, refl, none, some, [], ◌∷◌, map, ok, err, out_of_fuel}
use rust_game_harry_potter.Effects.Zones.{hero_hand}
use rust_game_harry_potter.Effects.Entities.{EffectEntity}
use rust_game_harry_potter.Engine.EndTurn.{Drawn}
use rust_game_harry_potter.Engine.EndTurn.Apply.{apply_end_turn_outcomes}
use rust_game_harry_potter.Engine.EndTurn.Replay.{apply_end_turn_outcomes-perform_end_turn}
use rust_game_harry_potter.Base.{ℕ_discrete, String-discrete, Option-discrete}
use rust_game_harry_potter.Effects.Zones.{EffectZone-discrete, EffectResource-discrete}
use rust_game_harry_potter.Effects.Entities.{EffectEntityKind-discrete}
use rust_game_harry_potter.Effects.Resources.{ResourceMap-discrete}
use rust_game_harry_potter.Engine.EndTurn.{
  advance_shared_table, discard_all, discard_zone, reset_resource, recover_heroes, move_all,
  turn_pile_over, draw_loop, perform_end_turn,
}
use rust_game_harry_potter.World.Moves.{
  move_to_back, move_card, look_up, overwrite_owned, set_card_order,
}
use rust_game_harry_potter.World.Validity.{
  valid_starter_card, valid_villain_entity, valid_kind_in_zone, entity_is_valid_in_zone,
  owner_transition_is_valid,
}
use rust_game_harry_potter.Shuffling.{rounds, fisher_yates, shuffle}
use rust_game_harry_potter.Shuffling.Swaps.{exchange, swap}
use rust_game_harry_potter.Shuffling.Sorting.{insert_sorted, sort}
use rust_game_harry_potter.World.Store.{
  entities_in, set_zone, push, find_over, entity, cards_in_zone, top_card_id, entity_mut,
}
use rust_game_harry_potter.World.Upkeep.{
  reset_hero_resource, unblock, restore_drawing, recover, recover_stunned_heroes,
  advance_controlled_location, refill_loop, refill_villains,
}
use rust_game_harry_potter.Engine.EndTurn.Hand.{Replenished, perform_end_turn-Replenished}
use rust_game_harry_potter.Engine.EndTurn.Hand.Cards.{DistinctHands}
use rust_game_harry_potter.Base.{arith}
use rust_game_harry_potter.Engine.EndTurn.Termination.{perform_end_turn_total}
use rust_game_harry_potter.Base.{string_eq}
use rust_game_harry_potter.Engine.Heroes.{HeroId, ron}
use rust_game_harry_potter.Base.{false}
use rust_game_harry_potter.Effects.Choices.{EffectStop}
use rust_game_harry_potter.Engine.Control.{
  GameControl, in_progress, hero_actions, end_turn, player_intent,
}
use rust_game_harry_potter.Engine.Control.Commands.{Answers, decide_end_hero_actions}
use rust_game_harry_potter.Engine.Control.Events.{GameEvent, apply_game_event, card_played}
use rust_game_harry_potter.Examples.{counting, table, got}

abbrev stopped : Drawn ℕ
stopped = record { outcomes = []; samples = 0; world = table; source = 0 }

abbrev ended : Drawn ℕ
ended = got stopped (perform_end_turn counting 1 1 0 table)

ran : perform_end_turn counting 1 1 0 table ≡ ok ended
unfolding ℕ_discrete String-discrete Option-discrete EffectZone-discrete EffectResource-discrete
    EffectEntityKind-discrete ResourceMap-discrete entities_in set_zone push find_over entity
    cards_in_zone top_card_id entity_mut move_to_back move_card look_up overwrite_owned
    set_card_order valid_starter_card valid_villain_entity valid_kind_in_zone
    entity_is_valid_in_zone owner_transition_is_valid reset_hero_resource unblock restore_drawing
    recover recover_stunned_heroes advance_controlled_location refill_loop refill_villains rounds
    fisher_yates shuffle exchange swap insert_sorted sort advance_shared_table discard_all
    discard_zone reset_resource recover_heroes move_all turn_pile_over draw_loop perform_end_turn
ran = refl

hand_after :
    map (λ (e : EffectEntity). e.id) (entities_in ended.world hero_hand) ≡ "c" ∷ "b" ∷ "a" ∷ []
unfolding ℕ_discrete String-discrete Option-discrete EffectZone-discrete EffectResource-discrete
    EffectEntityKind-discrete ResourceMap-discrete entities_in set_zone push find_over entity
    cards_in_zone top_card_id entity_mut move_to_back move_card look_up overwrite_owned
    set_card_order valid_starter_card valid_villain_entity valid_kind_in_zone
    entity_is_valid_in_zone owner_transition_is_valid reset_hero_resource unblock restore_drawing
    recover recover_stunned_heroes advance_controlled_location refill_loop refill_villains rounds
    fisher_yates shuffle exchange swap insert_sorted sort advance_shared_table discard_all
    discard_zone reset_resource recover_heroes move_all turn_pile_over draw_loop perform_end_turn
hand_after = refl

apply_end_turn_outcomes-perform_end_turn_example :
    apply_end_turn_outcomes 1 1 ended.outcomes table ≡ ok ended.world
apply_end_turn_outcomes-perform_end_turn_example =
    apply_end_turn_outcomes-perform_end_turn counting 1 1 0 table ran

perform_end_turn_total_example : perform_end_turn counting 1 1 0 table ≢ err out_of_fuel
perform_end_turn_total_example = perform_end_turn_total counting 1 1 0 table

table-DistinctHands : DistinctHands table
unfolding entities_in
table-DistinctHands id = ground arith

perform_end_turn-Replenished_example : Replenished 1 ended.world
perform_end_turn-Replenished_example =
    perform_end_turn-Replenished counting 1 1 0 table table-DistinctHands ran

-- A game of two heroes: Harry ends the actions, and Ron, whose turn comes, plays a card.
abbrev first_control : GameControl
first_control = record {
  status = in_progress;
  turn = 1;
  phase = hero_actions;
  active_position = 1;
  players = record { position = 1; hero = HeroId.harry } ∷ record { position = 2; hero = ron } ∷ [];
  pending_choice = none;
  queued_phases = end_turn ∷ [];
  queued_effects = [];
  decision_point = some (player_intent 1);
}

abbrev all_stable : Answers
all_stable _ = ok EffectStop.stable

abbrev second_control : GameControl
second_control =
    got first_control
      (decide_end_hero_actions (ok false) (ok EffectStop.stable) all_stable 1 first_control)

abbrev played : GameEvent
played = card_played 2 2 EffectStop.stable

abbrev third_control : GameControl
third_control = got first_control (apply_game_event false false played second_control)
