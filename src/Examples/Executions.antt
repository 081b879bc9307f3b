-- ===== src/Examples/Executions.antt =====
-- Whole executions, at concrete inputs: Harry draws, rolls a die and has to choose.
use rust_game_harry_potter.Base.{
  ℕ, ◌+◌, ◌≡◌, ◌≢◌, ◌≤◌, refl, Bool, none, some, List, [], ◌∷◌, ok, err, out_of_fuel, count,
  string_eq, option_eq, ◌==◌, ℕ_discrete, String-discrete, Option-discrete,
}
use mathlib.Core.Option
use rust_game_harry_potter.Effects.Zones.{
  heroes, attack, EffectZone-discrete, EffectResource-discrete,
}
use rust_game_harry_potter.Effects.Resources.{ResourceMap-discrete}
use rust_game_harry_potter.Effects.Entities.{EffectEntity, EffectEntityKind-discrete}
use rust_game_harry_potter.Effects.Rules.{
  EffectTrigger-discrete, EffectRule, EffectDefinition, EffectDefinitions, EffectSelector,
  EffectOperation, EffectDie, EffectChoiceAudience, manual, actor,
}
use rust_game_harry_potter.Effects.Outcomes.{consumes_random_sample}
use rust_game_harry_potter.Effects.Choices.{EffectStop, PendingEffectChoice, target}
use rust_game_harry_potter.World.Census.{census}
use rust_game_harry_potter.Executor.Costs.{single}
use rust_game_harry_potter.Executor.Machine.{Machine, max_execution_steps}
use rust_game_harry_potter.Executor.Machine.Run.{EffectResolution}
use rust_game_harry_potter.Executor.Plan.{EffectExecutionPlan, plain_plan}
use rust_game_harry_potter.Executor.Progress.{printed}
use rust_game_harry_potter.Executor.Executions.{Stopped}
use rust_game_harry_potter.Executor.Executions.Entries.{
  context_of, Reported, execute_effects_with_targets_ends, census-execute_effects_with_targets,
  rolls_consumed-execute_effects_with_targets, execute_effects_with_targets-Stopped,
}
use rust_game_harry_potter.Executor.Executions.Resumptions.{
  resumed_context, resume_effects_ends, resume_effects_lem,
}
use rust_game_harry_potter.Examples.{counting, small, got}
use rust_game_harry_potter.Executor.Machine.{enqueue_copied_effects, enqueue_reactions}
use rust_game_harry_potter.Executor.Machine.Bonuses.{enqueue_other_ally_bonuses}
use rust_game_harry_potter.Executor.Machine.Abilities.{enqueue_hero_abilities}
use rust_game_harry_potter.Executor.Machine.Defeats.{enqueue_defeated_villains}
use rust_game_harry_potter.Executor.Machine.Definitions.{execute_definition}
use rust_game_harry_potter.Executor.Machine.Definitions.Choosing.{
  numbered_options, execute_choice_audience,
}
use rust_game_harry_potter.Executor.Machine.Run.{run}
use rust_game_harry_potter.Executor.Plan.{execute_effects_with_targets}
use rust_game_harry_potter.Executor.Cursors.{effect_count, effect_at_cursor}
use rust_game_harry_potter.Executor.Selectors.{
  condition_is_valid, operation_is_valid_for_zone, eligible_entity_ids,
}
use rust_game_harry_potter.Executor.Costs.{pay_costs}
use rust_game_harry_potter.Executor.Draw.{draw_cards}
use rust_game_harry_potter.Executor.Operations.{apply_operation}
use rust_game_harry_potter.Executor.Reactions.{react_all}
use rust_game_harry_potter.Executor.Abilities.{drawing_prevented, is_harmful_rule}
use rust_game_harry_potter.Executor.Resume.{resume_effects}
use rust_game_harry_potter.World.Store.{push, top_card_id, entity_mut}
use rust_game_harry_potter.World.Moves.{move_card}
use rust_game_harry_potter.World.Validity.{entity_is_valid_in_zone, owner_transition_is_valid}
use rust_game_harry_potter.Shuffling.{rounds, fisher_yates}
use rust_game_harry_potter.Base.Text.{decimal}

abbrev self : EffectSelector
self = record { id = none; zone = heroes; owner = actor; min = 1; max = 1; eligibility = [] }

abbrev nothing : EffectDefinitions → EffectDefinitions
nothing es = EffectDefinitions.cons EffectDefinition.no_op es

abbrev two : EffectDefinitions
two = nothing (nothing EffectDefinitions.nil)

-- Draw a card, roll a die, choose.
abbrev dittany : EffectRule
dittany = record {
  id = "spell:dittany";
  trigger = manual;
  order = 0;
  cost = record { resource = attack; amount = 1 } ∷ [];
  effect = EffectDefinition.sequence (
      EffectDefinitions.cons (EffectDefinition.apply self (EffectOperation.draw 1)) (
        EffectDefinitions.cons (EffectDefinition.roll EffectDie.d4 (nothing (nothing two))) (
          EffectDefinitions.cons (EffectDefinition.choice EffectChoiceAudience.choice_actor two)
            EffectDefinitions.nil)));
}

abbrev rules : List EffectRule
rules = dittany ∷ []

abbrev plan : EffectExecutionPlan
plan = plain_plan 1 (single "spell:dittany")

abbrev Resolved : Type 0
Resolved = EffectResolution × Machine ℕ

abbrev idle : Resolved
idle = (
  record { outcomes = []; stop = EffectStop.stable; rolls_consumed = 0; queue = [] },
  record {
    table = record { world = small; outcomes = []; roller = 0; rolls_consumed = 0 };
    queue = [];
    steps = 0;
  },
)

abbrev executed : Resolved
executed = got idle (execute_effects_with_targets counting rules plan small 1)

executes : execute_effects_with_targets counting rules plan small 1 ≡ ok executed
unfolding ℕ_discrete String-discrete Option-discrete EffectZone-discrete EffectResource-discrete
    EffectEntityKind-discrete ResourceMap-discrete EffectTrigger-discrete mathlib.Core.Option.bind
    enqueue_copied_effects enqueue_reactions enqueue_other_ally_bonuses enqueue_hero_abilities
    enqueue_defeated_villains execute_definition numbered_options execute_choice_audience run
    execute_effects_with_targets effect_count effect_at_cursor condition_is_valid
    operation_is_valid_for_zone eligible_entity_ids pay_costs draw_cards apply_operation react_all
    drawing_prevented is_harmful_rule resume_effects push top_card_id entity_mut move_card
    entity_is_valid_in_zone owner_transition_is_valid rounds fisher_yates decimal
executes = refl

execute_effects_with_targets_ends_example :
    execute_effects_with_targets counting rules plan small 1 ≢ err out_of_fuel
execute_effects_with_targets_ends_example =
    execute_effects_with_targets_ends counting rules plan small 1

abbrev starter : EffectEntity → Bool
starter e = e.effect_rule_id == some "starter:alohomora"

census-execute_effects_with_targets_example :
    census (λ e. starter (printed e)) executed.1.table.world
    ≡ census (λ e. starter (printed e)) small
census-execute_effects_with_targets_example =
    census-execute_effects_with_targets counting rules plan small 1 starter executes

rolls_consumed-execute_effects_with_targets_example :
    count consumes_random_sample executed.0.outcomes
    ≡ count consumes_random_sample plan.initial_outcomes + executed.0.rolls_consumed
rolls_consumed-execute_effects_with_targets_example =
    rolls_consumed-execute_effects_with_targets counting rules plan small 1 executes

execute_effects_with_targets-Stopped_example :
    (executed.1.steps ≤ max_execution_steps)
    × (executed.0.queue ≡ executed.1.queue)
    × Stopped (context_of rules plan) executed.0.stop executed.1
execute_effects_with_targets-Stopped_example =
    execute_effects_with_targets-Stopped counting rules plan small 1 executes

-- The choice at which the execution stopped.
abbrev asked : EffectStop → PendingEffectChoice → PendingEffectChoice
asked (EffectStop.choice p) q = p
asked _ q = q

abbrev no_choice : PendingEffectChoice
no_choice = record {
  id = "";
  cause = "";
  responsible_position = 0;
  kind = target;
  options = [];
  min = 0;
  max = 0;
  continuation = record {
    choice_cursor = record { rule_id = ""; path = [] };
    queue = [];
    steps_completed = 0;
  };
}

abbrev pending : PendingEffectChoice
pending = asked executed.0.stop no_choice

abbrev resumption : Resolved
resumption =
    got idle (resume_effects counting 1 pending ("option:2" ∷ []) rules executed.1.table.world 7)

resumes :
    resume_effects counting 1 pending ("option:2" ∷ []) rules executed.1.table.world 7
    ≡ ok resumption
unfolding ℕ_discrete String-discrete Option-discrete EffectZone-discrete EffectResource-discrete
    EffectEntityKind-discrete ResourceMap-discrete EffectTrigger-discrete mathlib.Core.Option.bind
    enqueue_copied_effects enqueue_reactions enqueue_other_ally_bonuses enqueue_hero_abilities
    enqueue_defeated_villains execute_definition numbered_options execute_choice_audience run
    execute_effects_with_targets effect_count effect_at_cursor condition_is_valid
    operation_is_valid_for_zone eligible_entity_ids pay_costs draw_cards apply_operation react_all
    drawing_prevented is_harmful_rule resume_effects push top_card_id entity_mut move_card
    entity_is_valid_in_zone owner_transition_is_valid rounds fisher_yates decimal
resumes = refl

resume_effects_ends_example :
    resume_effects counting 1 pending ("option:2" ∷ []) rules executed.1.table.world 7
    ≢ err out_of_fuel
resume_effects_ends_example =
    resume_effects_ends counting 1 pending ("option:2" ∷ []) rules executed.1.table.world 7

resume_effects_lem_example : Reported (resumed_context 1 rules) 0 executed.1.table.world resumption
resume_effects_lem_example =
    resume_effects_lem counting 1 pending ("option:2" ∷ []) rules executed.1.table.world 7 resumes

-- One die and no shuffle: the discard pile has one card. The choice is the fifth step.
executed_lem : (executed.0.rolls_consumed ≡ 1) × (pending.id ≡ "choice:effect:4")
unfolding ℕ_discrete String-discrete Option-discrete EffectZone-discrete EffectResource-discrete
    EffectEntityKind-discrete ResourceMap-discrete EffectTrigger-discrete mathlib.Core.Option.bind
    enqueue_copied_effects enqueue_reactions enqueue_other_ally_bonuses enqueue_hero_abilities
    enqueue_defeated_villains execute_definition numbered_options execute_choice_audience run
    execute_effects_with_targets effect_count effect_at_cursor condition_is_valid
    operation_is_valid_for_zone eligible_entity_ids pay_costs draw_cards apply_operation react_all
    drawing_prevented is_harmful_rule resume_effects push top_card_id entity_mut move_card
    entity_is_valid_in_zone owner_transition_is_valid rounds fisher_yates decimal
executed_lem = (refl, refl)

resumption_lem : (resumption.0.stop ≡ EffectStop.stable) × (resumption.1.steps ≡ 6)
unfolding ℕ_discrete String-discrete Option-discrete EffectZone-discrete EffectResource-discrete
    EffectEntityKind-discrete ResourceMap-discrete EffectTrigger-discrete mathlib.Core.Option.bind
    enqueue_copied_effects enqueue_reactions enqueue_other_ally_bonuses enqueue_hero_abilities
    enqueue_defeated_villains execute_definition numbered_options execute_choice_audience run
    execute_effects_with_targets effect_count effect_at_cursor condition_is_valid
    operation_is_valid_for_zone eligible_entity_ids pay_costs draw_cards apply_operation react_all
    drawing_prevented is_harmful_rule resume_effects push top_card_id entity_mut move_card
    entity_is_valid_in_zone owner_transition_is_valid rounds fisher_yates decimal
resumption_lem = (refl, refl)
