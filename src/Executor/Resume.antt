-- ===== src/Executor/Resume.antt =====
-- Resuming an execution with the options that a hero selected
-- (crates/game-domain/src/effects.rs).
pub mod Branches
pub mod Selections
use rust_game_harry_potter.Base.{
  ℕ, zero, suc, ◌+◌, String, Bool, true, false, ◌&&◌, ◌||◌, not, Option, none, some, List, [], ◌∷◌,
  ◌++◌, map, ◌==◌, nat_eq, string_eq, option_eq, if◌then◌else◌, ltb, leb, Result, ok, err, ◌>>=◌,
  ◌>>◌, ensure, ok_or, any, all, length, keep, contains, list_eq, Fault, raise,
}
use rust_game_harry_potter.Base.Sets.{all_distinct}
use rust_game_harry_potter.Effects.Zones.{hero_hand, hero_discard_pile, health}
use rust_game_harry_potter.Effects.Rules.{EffectRule, EffectDefinition}
use rust_game_harry_potter.Effects.Outcomes.{
  EffectRoller, EffectExecutionError, invalid_choice, invalid_definition, step_limit_exceeded,
}
use rust_game_harry_potter.Effects.Choices.{
  EffectPathSegment, EffectCursor, QueuedEffect, definition, stun_choice, PendingEffectChoiceKind,
  PendingEffectChoice,
}
use rust_game_harry_potter.World.Store.{EffectWorld, cards_in_zone, hero_resource}
use rust_game_harry_potter.World.Moves.{Outcome}
use rust_game_harry_potter.Executor.Selectors.{within, eligible_entity_ids}
use rust_game_harry_potter.Executor.Cursors.{child, effect_count, effect_at_cursor}
use rust_game_harry_potter.Executor.Stun.{Table, stun_rule_id}
use rust_game_harry_potter.Executor.Draw.{EffectSource, move_all}
use rust_game_harry_potter.Executor.Machine.{
  Machine, max_execution_steps, max_effect_outcomes, push_front, push_front_all,
}
use rust_game_harry_potter.Executor.Machine.Definitions.Applying.{apply_each}
use rust_game_harry_potter.Executor.Machine.Run.{EffectResolution, run}
use rust_game_harry_potter.Executor.Rules.{effect_rules_are_valid}

unfoldable pub effect_choice_selection_is_valid : PendingEffectChoice → List String → Bool
effect_choice_selection_is_valid choice selected =
    all_distinct selected
    && within choice.min choice.max (length selected)
    && all (contains choice.options) selected

-- The selected options in the order of the choice.
unfoldable pub normalize_effect_choice_selection :
    PendingEffectChoice → List String → Option (List String)
unfolding effect_choice_selection_is_valid
normalize_effect_choice_selection choice selected =
    if effect_choice_selection_is_valid choice selected
    then some (keep (contains selected) choice.options)
    else none

-- `options.iter().position(|option| option == selected)`
unfoldable pub index_of : String → List String → Option ℕ
index_of selected [] = none
index_of selected (option ∷ options) =
    let rest = index_of selected options in
    if option == selected then some 0 else elim rest [ none ↦ none | some i ↦ some (suc i) ]

-- `selected_options[0]`, once there is exactly one.
abbrev pub sole : List String → Option String
sole (option ∷ []) = some option
sole _ = none

abbrev pub cursor_of : PendingEffectChoice → EffectCursor
cursor_of pending = pending.continuation.choice_cursor

abbrev pub resumption_is_valid : PendingEffectChoice → List String → Bool
resumption_is_valid pending selected =
    effect_choice_selection_is_valid pending selected
    && pending.cause == (cursor_of pending).rule_id
    && leb pending.continuation.steps_completed max_execution_steps

module _ {S : Type 0} where
  unfoldable pub discard_stunned_hand :
      PendingEffectChoice → List String → Table S → Outcome (Table S)
  discard_stunned_hand pending selected t = do
    ensure (list_eq (cards_in_zone t.world pending.responsible_position hero_hand) pending.options)
        invalid_choice
    move_all selected hero_hand hero_discard_pile (some pending.responsible_position) stun_rule_id t

  -- The effect of a selected option goes to the front of the queue.
  unfoldable pub choose_effect :
      PendingEffectChoice → List String → ℕ → Machine S → Outcome (Machine S)
  unfolding index_of
  choose_effect pending selected count m = do
    ensure (length pending.options == count) invalid_choice
    option ← ok_or (sole selected) invalid_choice
    index ← ok_or (index_of option pending.options) invalid_choice
    ensure (ltb index 65536) invalid_choice
    ok (
        push_front
          (definition (child (cursor_of pending) (EffectPathSegment.choice_option index))
            pending.responsible_position)
          m)

module _ {S : Type 0} (random : EffectRoller S) where
  unfoldable pub choose_targets :
      PendingEffectChoice
      → List String
      → List EffectRule
      → EffectDefinition
      → Machine S
      → Outcome (Machine S)
  choose_targets pending selected rules (EffectDefinition.apply target operation) m = do
    ensure
        (list_eq (eligible_entity_ids m.table.world pending.responsible_position target rules)
          pending.options)
        invalid_choice
    done ←
        apply_each random (keep (contains selected) pending.options)
          (record {
            actor_position = pending.responsible_position;
            rule_id = pending.cause;
            rules = rules;
          })
          operation m.table
    ok (push_front_all (map (stun_choice (cursor_of pending)) done.0) (record m { table = done.1 }))
  choose_targets pending selected rules effect m = err invalid_choice

  unfoldable pub choose :
      PendingEffectChoiceKind
      → PendingEffectChoice
      → List String
      → List EffectRule
      → EffectDefinition
      → Machine S
      → Outcome (Machine S)
  unfolding choose_effect choose_targets discard_stunned_hand
  choose PendingEffectChoiceKind.effect pending selected rules
        (EffectDefinition.choice audience options) m =
      choose_effect pending selected (effect_count options) m
  choose PendingEffectChoiceKind.target pending selected rules effect m =
      choose_targets pending selected rules effect m
  choose PendingEffectChoiceKind.stun_discard pending selected rules effect m = do
    ensure (hero_resource m.table.world pending.responsible_position health == some 0)
        invalid_choice
    t ← discard_stunned_hand pending selected m.table
    ok (record m { table = t })
  choose kind pending selected rules effect m = err invalid_choice

  unfoldable pub resume_effects :
      ℕ
      → PendingEffectChoice
      → List String
      → List EffectRule
      → EffectWorld
      → S
      → Result (Fault EffectExecutionError) (EffectResolution × Machine S)
  unfolding choose effect_choice_selection_is_valid
  resume_effects position pending selected rules w roller = do
    raise (ensure (effect_rules_are_valid rules) invalid_definition)
    raise (ensure (resumption_is_valid pending selected) invalid_choice)
    effect ← raise (ok_or (effect_at_cursor rules (cursor_of pending)) invalid_choice)
    m ← raise (
        choose pending.kind pending selected rules effect (record {
          table = record { world = w; outcomes = []; roller = roller; rolls_consumed = 0 };
          queue = pending.continuation.queue;
          steps = pending.continuation.steps_completed;
        }))
    raise (ensure (not (ltb max_effect_outcomes (length m.table.outcomes))) step_limit_exceeded)
    run random
        (record {
          actor_position = position;
          rules = rules;
          target_bindings = [];
          require_named_target_bindings = false;
        })
        m
