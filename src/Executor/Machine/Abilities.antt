-- ===== src/Executor/Machine/Abilities.antt =====
-- The heroes' abilities, the limit on attack and the revealed card
-- (crates/game-domain/src/effects/game_three.rs).
use rust_game_harry_potter.Base.{
  ℕ, String, Bool, true, false, ◌&&◌, not, Option, none, some, List, [], ◌∷◌, ◌++◌, map, ◌==◌,
  nat_eq, string_eq, option_eq, if◌then◌else◌, ltb, leb, ok, ◌>>=◌, ok_or, count, contains,
}
use rust_game_harry_potter.Base.Sets.{sort_numbers}
use mathlib.Core.Option
use rust_game_harry_potter.Effects.Zones.{
  zone_eq, resource_eq, control, health, attack, hero_hand, hero_play_area, heroes,
}
use rust_game_harry_potter.Effects.Entities.{EffectEntity, EffectTurnState}
use rust_game_harry_potter.Effects.Rules.{
  EffectDefinition, EffectRule, card_type_eq, spell, HeroAbilityStrategy,
}
use rust_game_harry_potter.Effects.Outcomes.{
  EffectOutcome, moved, resource_changed, cost, effect, invalid_definition,
}
use rust_game_harry_potter.Effects.Choices.{EffectPathSegment, QueuedEffect, definition}
use rust_game_harry_potter.World.Store.{EffectWorld, entity, entities_in, owned_by, id_of}
use rust_game_harry_potter.World.Moves.{Outcome}
use rust_game_harry_potter.Executor.Abilities.{card_type, rule_of}
use rust_game_harry_potter.Executor.Cursors.{root, child}
use rust_game_harry_potter.Executor.TurnStates.{change_turn_state}
use rust_game_harry_potter.Executor.Reactions.{play_card}
use rust_game_harry_potter.Executor.Machine.{Context, Machine, since, with_table, push_front_all}

abbrev pub assign_attack : String
assign_attack = "system:assign-attack"

-- `previous.map_or(maximum, |previous| previous.min(maximum))`
abbrev pub least_limit : Option ℕ → ℕ → ℕ
least_limit none maximum = maximum
least_limit (some previous) maximum = if ltb maximum previous then maximum else previous

abbrev pub is_spell_of : ℕ → List EffectRule → EffectEntity → Bool
is_spell_of owner rules card = owned_by (some owner) card && card_type card rules == some spell

-- Who benefits and the state the hero is left in, if the test holds.
abbrev pub once : Bool → ℕ → EffectTurnState → Option (ℕ × EffectTurnState)
once due position state =
    if due then some (position, record state { ability_used = true }) else none

-- The position that an outcome's ability benefits, with the new state of the hero at `owner`.
unfoldable pub recipient :
    Context
    → EffectWorld
    → ℕ
    → EffectTurnState
    → HeroAbilityStrategy
    → String
    → EffectOutcome
    → Option (ℕ × EffectTurnState)
recipient c w owner state HeroAbilityStrategy.harry_game_three_v1 ability
      (resource_changed rule_id id position control before after effect) =
    once (ltb after before && not state.ability_used) owner state
recipient c w owner state HeroAbilityStrategy.hermione_game_three_v1 ability
      (moved rule_id id (some position) hero_hand hero_play_area) =
    once
      (rule_id == play_card
        && position == owner
        && owner == c.actor_position
        && not state.ability_used
        && leb 4 (count (is_spell_of owner c.rules) (entities_in w hero_play_area)))
      owner state
recipient c w owner state HeroAbilityStrategy.neville_game_three_v1 ability
      (resource_changed rule_id id (some position) health before after effect) =
    if owner == c.actor_position
      && ltb before after
      && not (rule_id == ability)
      && not (contains state.healed_positions position)
    then some (
      position,
      record state { healed_positions = sort_numbers (state.healed_positions ++ position ∷ []) },
    )
    else none
recipient c w owner state HeroAbilityStrategy.ron_game_three_v1 ability
      (resource_changed rule_id id (some position) attack before after cost) =
    once
      (rule_id == assign_attack
        && owner == c.actor_position
        && position == owner
        && ltb after before
        && leb 3 state.attack_assigned
        && not state.ability_used)
      owner state
recipient c w owner state strategy ability outcome = none

unfoldable pub ability_recipient :
    Context
    → EffectWorld
    → EffectEntity
    → EffectTurnState
    → HeroAbilityStrategy
    → String
    → EffectOutcome
    → Outcome (Option (ℕ × EffectTurnState))
unfolding recipient
ability_recipient c w hero state strategy ability outcome = do
  owner ← ok_or hero.owner_position invalid_definition
  ok (recipient c w owner state strategy ability outcome)

-- The strategy of a hero that has a state and an ability, with the state and the ability's rule.
abbrev pub strategy_of : EffectDefinition → Option HeroAbilityStrategy
strategy_of (EffectDefinition.hero_ability strategy benefit) = some strategy
strategy_of _ = none

abbrev pub ability_of :
    List EffectRule → EffectEntity → Option (EffectTurnState × String × HeroAbilityStrategy)
ability_of rules hero = Option.bind hero.turn_state λ state.
    Option.bind (rule_of rules hero)
      λ rule. Option.map (λ strategy. (state, rule.id, strategy)) (strategy_of rule.effect)

-- Hermione's ability waits behind the queue.
abbrev pub waits : HeroAbilityStrategy → Bool
waits HeroAbilityStrategy.hermione_game_three_v1 = true
waits _ = false

abbrev pub activation : String → ℕ → QueuedEffect
activation rule_id position =
    definition (child (root rule_id) EffectPathSegment.hero_ability_effect) position

module _ {S : Type 0} where
  abbrev pub push_back : QueuedEffect → Machine S → Machine S
  push_back q m = record m { queue = m.queue ++ q ∷ [] }

  -- What one outcome activates of one hero; the activations that do not wait are collected.
  unfoldable pub activate_hero :
      Context → EffectOutcome → String → Machine S → Outcome (List QueuedEffect × Machine S)
  unfolding ability_recipient
  activate_hero c outcome id m = do
    found ← ok_or (entity m.table.world id) invalid_definition
    elim (ability_of c.rules found.1) [
      | none ↦ ok ([], m)
      | some (state, rule_id, strategy) ↦ do
        benefits ← ability_recipient c m.table.world found.1 state strategy rule_id outcome
        elim benefits [
          | none ↦ ok ([], m)
          | some (position, after) ↦ do
            t ← change_turn_state id rule_id after m.table
            let q = activation rule_id position
            if waits strategy
                then ok ([], push_back q (with_table m t))
                else ok (q ∷ [], with_table m t)
        ]
    ]

  unfoldable pub activate_heroes :
      Context → EffectOutcome → List String → Machine S → Outcome (List QueuedEffect × Machine S)
  unfolding activate_hero
  activate_heroes c outcome [] m = ok ([], m)
  activate_heroes c outcome (id ∷ ids) m = do
    first ← activate_hero c outcome id m
    rest ← activate_heroes c outcome ids first.1
    ok (first.0 ++ rest.0, rest.1)

  unfoldable pub activate_all :
      Context
      → List EffectOutcome
      → List String
      → Machine S
      → Outcome (List QueuedEffect × Machine S)
  unfolding activate_heroes
  activate_all c [] ids m = ok ([], m)
  activate_all c (o ∷ os) ids m = do
    first ← activate_heroes c o ids m
    rest ← activate_all c os ids first.1
    ok (first.0 ++ rest.0, rest.1)

  unfoldable pub enqueue_hero_abilities : Context → ℕ → Machine S → Outcome (Machine S)
  unfolding activate_all
  enqueue_hero_abilities c start m = do
    done ← activate_all c (since start m) (map id_of (entities_in m.table.world heroes)) m
    ok (push_front_all done.0 done.1)
