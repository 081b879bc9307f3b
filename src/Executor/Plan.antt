-- ===== src/Executor/Plan.antt =====
-- Starting an execution: which rules it takes, what they cost and what is queued first
-- (crates/game-domain/src/effects.rs).
use rust_game_harry_potter.Base.{
  ℕ, String, Bool, true, false, ◌&&◌, not, Option, none, some, List, [], ◌∷◌, ◌++◌, map, ◌==◌,
  nat_eq, string_eq, option_eq, if◌then◌else◌, ltb, Result, ok, ◌>>=◌, ◌>>◌, ensure, ok_or, any,
  all, find, length, first, Fault, raise,
}
use mathlib.Core.Option
use rust_game_harry_potter.Base.Sets.{all_distinct}
use rust_game_harry_potter.Effects.Zones.{
  EffectZone, zone_eq, EffectResource, resource_eq, attack, control, health, influence,
  active_location, hero_hand, hero_play_area,
}
use rust_game_harry_potter.Effects.Zones
use rust_game_harry_potter.Effects.Entities.{
  EffectEntity, kind_eq, villain, villain_ability_suppressed,
}
use rust_game_harry_potter.Effects.Rules.{
  EffectRule, EffectTrigger, trigger_eq, manual, dark_arts, villains, EffectDefinition,
}
use rust_game_harry_potter.Effects.Outcomes.{
  EffectOutcome, moved, EffectRoller, EffectExecutionError, invalid_definition, unaffordable_cost,
  step_limit_exceeded,
}
use rust_game_harry_potter.Effects.Choices.{QueuedEffect, definition}
use rust_game_harry_potter.World.Store.{EffectWorld, entity, entities, entities_in}
use rust_game_harry_potter.World.Moves.{Outcome}
use rust_game_harry_potter.Executor.Cursors.{root}
use rust_game_harry_potter.Executor.Costs.{
  RuleSelection, no_rule, triggered, single, active_villains, selects, pay_costs,
}
use rust_game_harry_potter.Executor.TurnStates.{begin_turn}
use rust_game_harry_potter.Executor.Reactions.{play_card}
use rust_game_harry_potter.Executor.Revelations.{villain_revelation_queue}
use rust_game_harry_potter.Executor.Machine.{EffectTargetBinding, Machine, max_effect_outcomes}
use rust_game_harry_potter.Executor.Machine.Defeats.{resolve_cost_stun}
use rust_game_harry_potter.Executor.Machine.Definitions.{copies_of}
use rust_game_harry_potter.Executor.Machine.Run.{EffectResolution, run}
use rust_game_harry_potter.Executor.Rules.{effect_rules_are_valid, selected_costs_are_affordable}

pub record EffectExecutionPlan : Type 0 where
  pub actor_position : ℕ
  pub selection : RuleSelection
  pub target_bindings : List EffectTargetBinding
  pub require_named_target_bindings : Bool
  pub initial_outcomes : List EffectOutcome
  pub initial_queue : List QueuedEffect

abbrev pub binding_is_named : EffectTargetBinding → Bool
binding_is_named binding =
    not (binding.selector_id == "") && all (λ id. not (id == "")) binding.target_ids

abbrev pub bindings_are_valid : List EffectTargetBinding → Bool
bindings_are_valid bindings =
    all binding_is_named bindings && all_distinct (map (λ b. b.selector_id) bindings)

-- How many Dark Arts events the active location asks for.
abbrev pub events_of : EffectWorld → ℕ
events_of w = elim (Option.bind (first (entities_in w active_location)) (λ e. e.dark_arts_count)) [
  | none ↦ 1
  | some count ↦ count
]

abbrev pub reveals_dark_arts : EffectRule → Bool
reveals_dark_arts rule =
    rule.trigger == dark_arts
    && elim rule.effect [ EffectDefinition.reveal_dark_arts ↦ true | _ ↦ false ]

-- The selected rules, a rule that reveals Dark Arts events once for each event.
unfoldable pub selected_queue :
    EffectWorld → ℕ → RuleSelection → List EffectRule → List QueuedEffect
unfolding copies_of
selected_queue w position selection [] = []
selected_queue w position selection (rule ∷ rules) =
    let rest = selected_queue w position selection rules in
    if selects selection rule
    then copies_of (if reveals_dark_arts rule then events_of w else 1)
        (definition (root rule.id) position)
      ++ rest
    else rest

abbrev pub opens_turn : RuleSelection → Bool
opens_turn (triggered dark_arts) = true
opens_turn _ = false

module _ {S : Type 0} where
  -- The costs are paid first; at the start of a turn the turn states are renewed. The recorded
  -- outcomes are the initial ones, those of the new turn and the costs.
  unfoldable pub prepare_execution :
      List EffectRule → EffectExecutionPlan → EffectWorld → S → Outcome (Machine S)
  unfolding selected_queue
  prepare_execution rules plan w roller = do
    let queue = plan.initial_queue ++ selected_queue w plan.actor_position plan.selection rules
    paid ← pay_costs plan.actor_position rules plan.selection w
    settled ←
        resolve_cost_stun plan.actor_position
          (record { world = paid.1; outcomes = paid.0; roller = roller; rolls_consumed = 0 }) queue
    let costs = settled.0.outcomes
    let before = record settled.0 { outcomes = plan.initial_outcomes }
    t ← if opens_turn plan.selection then begin_turn plan.actor_position before else ok before
    let outcomes = t.outcomes ++ costs
    ensure (not (ltb max_effect_outcomes (length outcomes))) step_limit_exceeded
    ok (record { table = record t { outcomes = outcomes }; queue = settled.1; steps = 0 })

  unfoldable pub execute_effects_with_targets :
      EffectRoller S
      → List EffectRule
      → EffectExecutionPlan
      → EffectWorld
      → S
      → Result (Fault EffectExecutionError) (EffectResolution × Machine S)
  unfolding effect_rules_are_valid selected_costs_are_affordable prepare_execution
  execute_effects_with_targets random rules plan w roller = do
    raise (
        ensure (effect_rules_are_valid rules && bindings_are_valid plan.target_bindings)
          invalid_definition)
    raise (
        ensure (selected_costs_are_affordable w plan.actor_position rules plan.selection)
          unaffordable_cost)
    ready ← raise (prepare_execution rules plan w roller)
    run random
        (record {
          actor_position = plan.actor_position;
          rules = rules;
          target_bindings = plan.target_bindings;
          require_named_target_bindings = plan.require_named_target_bindings;
        })
        ready

-- A plan without bindings, recorded outcomes or a queue.
abbrev pub plain_plan : ℕ → RuleSelection → EffectExecutionPlan
plain_plan position selection = record {
  actor_position = position;
  selection = selection;
  target_bindings = [];
  require_named_target_bindings = false;
  initial_outcomes = [];
  initial_queue = [];
}

-- `filter_map(|entity| entity.effect_rule_id.clone())`
unfoldable pub able_rule_ids : List EffectEntity → List String
able_rule_ids [] = []
able_rule_ids (e ∷ es) =
    let rest = able_rule_ids es in
    if villain_ability_suppressed e
    then rest
    else elim e.effect_rule_id [ none ↦ rest | some id ↦ id ∷ rest ]

abbrev pub is_villain : EffectZone × EffectEntity → Bool
is_villain (z, e) = e.kind == villain

unfoldable pub selection_for : EffectWorld → EffectTrigger → RuleSelection
unfolding able_rule_ids
selection_for w trigger =
    if trigger == villains && any is_villain (entities w)
    then active_villains (able_rule_ids (entities_in w Zones.active_villains))
    else triggered trigger

abbrev pub is_manual_rule : String → EffectRule → Bool
is_manual_rule id rule = rule.id == id && rule.trigger == manual

abbrev pub rule_id_at : EffectWorld → String → Option String
rule_id_at w id =
    Option.bind (entity w id) (λ (found : EffectZone × EffectEntity). found.1.effect_rule_id)

abbrev pub selection_of : Option EffectRule → RuleSelection
selection_of none = no_rule
selection_of (some rule) = single rule.id

module _ {S : Type 0} (random : EffectRoller S) (w : EffectWorld) (position : ℕ)
    (rules : List EffectRule) (roller : S) where
  unfoldable pub execute_effects :
      EffectTrigger → Result (Fault EffectExecutionError) (EffectResolution × Machine S)
  unfolding execute_effects_with_targets selection_for
  execute_effects trigger =
      execute_effects_with_targets random rules (plain_plan position (selection_for w trigger)) w
        roller

  -- The effect of a card that was played.
  unfoldable pub execute_effect_rule :
      String
      → List EffectTargetBinding
      → Result (Fault EffectExecutionError) (EffectResolution × Machine S)
  unfolding execute_effects_with_targets
  execute_effect_rule card_id bindings = do
    rule_id ← raise (ok_or (rule_id_at w card_id) invalid_definition)
    rule ← raise (ok_or (find (is_manual_rule rule_id) rules) invalid_definition)
    execute_effects_with_targets random rules
        (record (plain_plan position (single rule.id)) {
          target_bindings = bindings;
          require_named_target_bindings = true;
          initial_outcomes = moved play_card card_id (some position) hero_hand hero_play_area ∷ [];
        })
        w roller

  unfoldable pub execute_committed_effects :
      Option EffectRule
      → List EffectOutcome
      → Result (Fault EffectExecutionError) (EffectResolution × Machine S)
  unfolding execute_effects_with_targets
  execute_committed_effects rule outcomes =
      execute_effects_with_targets random rules
        (record (plain_plan position (selection_of rule)) { initial_outcomes = outcomes }) w roller

  abbrev pub location_queue : Option String → Outcome (List QueuedEffect)
  location_queue none = ok []
  location_queue (some id) = do
    rule_id ← ok_or (rule_id_at w id) invalid_definition
    ok (definition (root rule_id) position ∷ [])

  unfoldable pub execute_revelation_effects :
      Option String
      → List String
      → Bool
      → Result (Fault EffectExecutionError) (EffectResolution × Machine S)
  unfolding execute_effects_with_targets
  execute_revelation_effects location_id revealed opening = do
    first ← raise (location_queue location_id)
    later ← raise (villain_revelation_queue w rules revealed position)
    execute_effects_with_targets random rules
        (record (plain_plan position (if opening then triggered dark_arts else no_rule)) {
          initial_queue = first ++ later;
        })
        w roller
