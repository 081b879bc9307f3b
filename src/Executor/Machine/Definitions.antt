-- ===== src/Executor/Machine/Definitions.antt =====
-- One effect definition: what it does to the table and the queue, and the choice it may stop at
-- (`execute_definition` of crates/game-domain/src/effects.rs, with effects/game_two.rs).
pub mod Choosing
pub mod Applying
use rust_game_harry_potter.Executor.Machine.Definitions.Applying.{nothing_done, execute_apply}
use rust_game_harry_potter.Base.{
  ℕ, zero, suc, ◌+◌, ◌-◌, String, Bool, true, false, ◌&&◌, ◌||◌, not, Option, none, some, List, [],
  ◌∷◌, ◌++◌, map, ◌==◌, nat_eq, string_eq, option_eq, if◌then◌else◌, ltb, leb, Result, ok, err,
  ◌>>=◌, ◌>>◌, ensure, ok_or, any, all, find, length, contains, is_some,
}
use mathlib.Core.Option
use rust_game_harry_potter.Base.Sets.{all_distinct}
use rust_game_harry_potter.Effects.Zones.{EffectZone, zone_eq, heroes}
use rust_game_harry_potter.Effects.Rules.{
  EffectRule, EffectTrigger, trigger_eq, manual, EffectDefinition, EffectDefinitions,
  EffectSelector, EffectOperation, EffectDie, sides, OptionalEffect,
}
use rust_game_harry_potter.Effects.Outcomes.{
  EffectOutcome, no_op, die_rolled, explicit, zero_cardinality, no_eligible_target, EffectRoller,
  invalid_definition, invalid_roll, invalid_target_selection, step_limit_exceeded,
}
use rust_game_harry_potter.Effects.Outcomes
use rust_game_harry_potter.Effects.Choices.{
  EffectPathSegment, EffectCursor, QueuedEffect, definition, stun_choice, EffectStop,
  PendingEffectChoiceKind,
}
use rust_game_harry_potter.World.Store.{EffectWorld, entity}
use rust_game_harry_potter.World.Moves.{Outcome}
use rust_game_harry_potter.Executor.Selectors.{
  selector_is_valid, condition_is_valid, operation_is_valid_for_zone, eligible_entity_ids,
  condition_is_true,
}
use rust_game_harry_potter.Executor.Cursors.{child, effect_count}
use rust_game_harry_potter.Executor.Stun.{Table}
use rust_game_harry_potter.Executor.Draw.{EffectSource, log, owner_of}
use rust_game_harry_potter.Executor.Operations.{apply_operation}
use rust_game_harry_potter.Executor.Machine.{
  Context, EffectTargetBinding, Machine, with_table, push_front, push_front_all,
}
use rust_game_harry_potter.Executor.Machine.Bonuses.{execute_other_ally_bonus}
use rust_game_harry_potter.Executor.Machine.Reveals.{limit_villain_attack, reveal_top_card}
use rust_game_harry_potter.Executor.Machine.Defeats.{reveal_dark_arts}
use rust_game_harry_potter.Executor.Machine.Definitions.Choosing.{
  Step, stop_for, execute_choice_audience,
}

abbrev pub at : EffectCursor → ℕ → QueuedEffect
at cursor position = definition cursor position

-- The children of a sequence from an index on.
unfoldable pub sequence_from : EffectCursor → ℕ → ℕ → ℕ → List QueuedEffect
sequence_from cursor position zero i = []
sequence_from cursor position (suc n) i =
    at (child cursor (EffectPathSegment.sequence_effect i)) position
    ∷ sequence_from cursor position n (suc i)

unfoldable pub copies_of {ℓ} : {A : Type ℓ} → ℕ → A → List A
copies_of zero x = []
copies_of (suc n) x = x ∷ copies_of n x

-- The position an effect for one target acts for.
unfoldable pub target_positions : EffectWorld → EffectZone → ℕ → List String → Outcome (List ℕ)
target_positions w z position [] = ok []
target_positions w z position (id ∷ ids) = do
  rest ← target_positions w z position ids
  first ← if z == heroes then ok_or (owner_of (entity w id)) invalid_definition else ok position
  ok (first ∷ rest)

abbrev pub branch_of : Bool → OptionalEffect → Option EffectPathSegment
branch_of true otherwise = some EffectPathSegment.condition_then
branch_of false OptionalEffect.absent = none
branch_of false (OptionalEffect.present e) = some EffectPathSegment.condition_otherwise

module _ {S : Type 0} where
  unfoldable pub execute_for_each_target :
      Context → EffectCursor → ℕ → EffectSelector → Machine S → Outcome (Step S)
  unfolding target_positions
  execute_for_each_target c cursor position target m = do
    ensure (selector_is_valid target) invalid_definition
    let targets = eligible_entity_ids m.table.world position target c.rules
    ensure (not (ltb target.max (length targets))) step_limit_exceeded
    positions ← target_positions m.table.world target.zone position targets
    ok (push_front_all (map (at (child cursor EffectPathSegment.repeat_effect)) positions) m, none)

  unfoldable pub execute_roll :
      EffectRoller S
      → EffectCursor
      → ℕ
      → EffectDie
      → EffectDefinitions
      → Machine S
      → Outcome (Step S)
  execute_roll random cursor position die outcomes m = do
    ensure (effect_count outcomes == sides die) invalid_definition
    let rolled = random.roll m.table.roller die
    result ← ok_or rolled.0 invalid_roll
    ensure (not (result == 0 || ltb (sides die) result)) invalid_roll
    ensure (ltb (m.table.rolls_consumed + 1) 18446744073709551616) invalid_definition
    ok (
      push_front (at (child cursor (EffectPathSegment.roll_outcome (result - 1))) position) (
          with_table m (
            log (die_rolled cursor.rule_id die result ∷ [])
              (record m.table { roller = rolled.1; rolls_consumed = m.table.rolls_consumed + 1 }))),
      none,
    )

  abbrev pub enqueue_branch : EffectCursor → ℕ → Option EffectPathSegment → Machine S → Machine S
  enqueue_branch cursor position none m = m
  enqueue_branch cursor position (some segment) m =
      push_front (at (child cursor segment) position) m

  unfoldable pub execute_definition :
      EffectRoller S → Context → EffectCursor → ℕ → EffectDefinition → Machine S → Outcome (Step S)
  unfolding execute_apply execute_for_each_target execute_roll sequence_from copies_of
  execute_definition random c cursor position (EffectDefinition.other_ally_bonus amount) m = do
    t ← execute_other_ally_bonus c cursor.rule_id position amount m.table
    ok (with_table m t, none)
  execute_definition random c cursor position (EffectDefinition.limit_villain_attack maximum) m =
      limit_villain_attack cursor maximum m
  execute_definition random c cursor position (EffectDefinition.reveal_top_card least revealed) m =
      reveal_top_card random cursor position least m
  execute_definition random c cursor position EffectDefinition.reveal_dark_arts m =
      reveal_dark_arts random c cursor position m
  execute_definition random c cursor position EffectDefinition.reveal_extra_dark_arts m =
      reveal_dark_arts random c cursor position m
  execute_definition random c cursor position (EffectDefinition.apply target operation) m =
      execute_apply random c cursor position target operation m
  execute_definition random c cursor position (EffectDefinition.choice audience options) m =
      execute_choice_audience c cursor position audience (effect_count options) m
  execute_definition random c cursor position
        (EffectDefinition.condition test then_effect otherwise) m =
      do
        ensure (condition_is_valid test) invalid_definition
        let branch = branch_of (condition_is_true m.table.world position test c.rules) otherwise
        ok (enqueue_branch cursor position branch m, none)
  execute_definition random c cursor position EffectDefinition.no_op m =
      nothing_done cursor explicit m
  execute_definition random c cursor position (EffectDefinition.for_each_target target repeated) m =
      execute_for_each_target c cursor position target m
  execute_definition random c cursor position (EffectDefinition.repeat times repeated) m = do
    ensure (not (times == 0)) invalid_definition
    ok (
      push_front_all (copies_of times (at (child cursor EffectPathSegment.repeat_effect) position))
          m,
      none,
    )
  execute_definition random c cursor position (EffectDefinition.roll die outcomes) m =
      execute_roll random cursor position die outcomes m
  execute_definition random c cursor position (EffectDefinition.sequence effects) m = do
    ensure (not (effect_count effects == 0)) invalid_definition
    ensure (leb (effect_count effects) 65536) invalid_definition
    ok (push_front_all (sequence_from cursor position (effect_count effects) 0) m, none)
  execute_definition random c cursor position (EffectDefinition.terminal outcome) m = ok (
    with_table m (log (Outcomes.terminal cursor.rule_id outcome ∷ []) m.table),
    some (EffectStop.terminal outcome),
  )
  execute_definition random c cursor position _ m = ok (m, none)
