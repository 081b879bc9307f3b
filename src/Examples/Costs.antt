-- ===== src/Examples/Costs.antt =====
-- Costs that are tested, paid and refused, and a choice that is resumed, at concrete inputs.
use rust_game_harry_potter.Base.{
  ℕ, ◌≡◌, ◌↔◌, refl, true, false, contains, string_eq, arith, some, List, [], ◌∷◌, ok, err,
  ℕ_discrete, String-discrete, Option-discrete,
}
use rust_game_harry_potter.Effects.Zones.{attack, EffectZone-discrete, EffectResource-discrete}
use rust_game_harry_potter.Effects.Resources.{ResourceMap-discrete}
use rust_game_harry_potter.Effects.Entities.{EffectEntityKind-discrete}
use rust_game_harry_potter.Effects.Rules.{
  EffectRule, EffectDefinition, EffectDefinitions, EffectTrigger-discrete, EffectChoiceAudience,
  manual,
}
use rust_game_harry_potter.Effects.Outcomes.{EffectOutcome, unaffordable_cost}
use rust_game_harry_potter.Effects.Choices.{EffectCursor, EffectStop, PendingEffectChoice, effect}
use rust_game_harry_potter.World.Store.{
  EffectWorld, entities_in, set_zone, find_over, entity, entity_mut, hero_at,
}
use rust_game_harry_potter.Executor.Costs.{single, selected_costs, pay_one, pay_all, pay_costs}
use rust_game_harry_potter.Executor.Costs.Payments.{Short}
use rust_game_harry_potter.Executor.Costs.Affordable.{
  selected_costs_are_affordable-pay_costs, pay_costs-Short,
}
use rust_game_harry_potter.Executor.Cursors.{effect_count, descend, follow, effect_at_cursor}
use rust_game_harry_potter.Executor.Machine.{Context, Machine}
use rust_game_harry_potter.Executor.Machine.Definitions.Choosing.{
  numbered_options, continuation, pending_choice_id, stop_for, execute_choice,
}
use rust_game_harry_potter.Executor.Rules.{selected_costs_are_affordable}
use rust_game_harry_potter.Executor.Resume.Branches.{Branch, choose_effect-execute_choice}
use rust_game_harry_potter.Base.Text.{digits, decimal}
use rust_game_harry_potter.Base.Sets.{all_distinct}
use rust_game_harry_potter.Executor.Resume.{
  effect_choice_selection_is_valid, normalize_effect_choice_selection,
}
use rust_game_harry_potter.Executor.Resume.Selections.{
  Normalized, normalize_effect_choice_selection-Normalized,
}
use rust_game_harry_potter.Examples.{harry, small, small-Unique}

abbrev two : EffectDefinitions
two =
    EffectDefinitions.cons EffectDefinition.no_op
      (EffectDefinitions.cons EffectDefinition.no_op EffectDefinitions.nil)

-- A choice that costs three attack; Harry has two.
abbrev dear : EffectRule
dear = record {
  id = "spell:dear";
  trigger = manual;
  order = 0;
  cost = record { resource = attack; amount = 2 } ∷ record { resource = attack; amount = 1 } ∷ [];
  effect = EffectDefinition.choice EffectChoiceAudience.choice_actor two;
}

selected_costs_are_affordable-pay_costs_example :
    (selected_costs_are_affordable small 1 (dear ∷ []) (single "spell:dear") ≡ true) ↔ (
      (r : List EffectOutcome × EffectWorld) × (pay_costs 1 (dear ∷ []) (single "spell:dear") small
        ≡ ok r))
selected_costs_are_affordable-pay_costs_example =
    selected_costs_are_affordable-pay_costs 1 (dear ∷ []) (single "spell:dear") small small-Unique

refused : pay_costs 1 (dear ∷ []) (single "spell:dear") small ≡ err unaffordable_cost
unfolding ℕ_discrete String-discrete Option-discrete EffectZone-discrete EffectResource-discrete
    EffectEntityKind-discrete ResourceMap-discrete entities_in set_zone find_over entity entity_mut
    selected_costs pay_one pay_all pay_costs
refused = refl

harry_here : hero_at small 1 ≡ some harry
unfolding ℕ_discrete Option-discrete entities_in
harry_here = refl

pay_costs-Short_example :
    (unaffordable_cost ≡ unaffordable_cost)
    × Short (selected_costs (single "spell:dear") (dear ∷ [])) harry
pay_costs-Short_example =
    pay_costs-Short 1 (dear ∷ []) (single "spell:dear") small small-Unique harry_here refused

abbrev context : Context
context = record {
  actor_position = 1;
  rules = dear ∷ [];
  target_bindings = [];
  require_named_target_bindings = false;
}

abbrev cursor : EffectCursor
cursor = record { rule_id = "spell:dear"; path = [] }

abbrev machine : Machine ℕ
machine = record {
  table = record { world = small; outcomes = []; roller = 0; rolls_consumed = 0 };
  queue = [];
  steps = 1;
}

abbrev asked : PendingEffectChoice
asked = record {
  id = "choice:effect:0";
  cause = "spell:dear";
  responsible_position = 1;
  kind = effect;
  options = "option:1" ∷ "option:2" ∷ [];
  min = 1;
  max = 1;
  continuation = record { choice_cursor = cursor; queue = []; steps_completed = 1 };
}

asks : execute_choice context cursor 1 2 machine ≡ ok (machine, some (EffectStop.choice asked))
unfolding ℕ_discrete String-discrete EffectTrigger-discrete digits decimal numbered_options
    continuation pending_choice_id stop_for execute_choice
asks = refl

offered : contains asked.options "option:2" ≡ true
unfolding String-discrete
offered = refl

there :
    effect_at_cursor (dear ∷ []) cursor
    ≡ some (EffectDefinition.choice EffectChoiceAudience.choice_actor two)
unfolding String-discrete descend follow effect_at_cursor mathlib.Core.Option.bind
there = refl

choose_effect-execute_choice_example : Branch (dear ∷ []) two asked "option:2" machine
unfolding effect_count
choose_effect-execute_choice_example =
    choose_effect-execute_choice context cursor 1 machine machine machine
      EffectChoiceAudience.choice_actor two asked "option:2" there (omega arith) asks offered

-- Two of three options, selected in another order than that of the choice.
abbrev pair : PendingEffectChoice
pair = record asked { options = "a" ∷ "b" ∷ "c" ∷ []; max = 2 }

normalizes : normalize_effect_choice_selection pair ("c" ∷ "a" ∷ []) ≡ some ("a" ∷ "c" ∷ [])
unfolding String-discrete normalize_effect_choice_selection effect_choice_selection_is_valid
normalizes = refl

pair_distinct : all_distinct pair.options ≡ true
unfolding String-discrete
pair_distinct = refl

normalize_effect_choice_selection-Normalized_example :
    Normalized pair ("c" ∷ "a" ∷ []) ("a" ∷ "c" ∷ [])
normalize_effect_choice_selection-Normalized_example =
    normalize_effect_choice_selection-Normalized pair ("c" ∷ "a" ∷ []) pair_distinct normalizes
