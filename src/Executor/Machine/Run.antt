-- ===== src/Executor/Machine/Run.antt =====
-- The loop of the executor (`EffectExecutor::run` of crates/game-domain/src/effects.rs).
use rust_game_harry_potter.Base.{
  ℕ, zero, suc, ◌-◌, not, Option, none, some, List, [], ◌∷◌, ltb, Result, ok, err, ◌>>=◌, ◌>>◌,
  ensure, ok_or, length, Fault, out_of_fuel, raise,
}
use rust_game_harry_potter.Effects.Rules.{EffectDefinition}
use rust_game_harry_potter.Effects.Outcomes.{
  EffectOutcome, EffectRoller, EffectExecutionError, invalid_definition, step_limit_exceeded,
}
use rust_game_harry_potter.Effects.Choices.{
  QueuedEffect, definition, queued_choice, finish_stun, stun_choice, EffectStop,
}
use rust_game_harry_potter.World.Moves.{Outcome}
use rust_game_harry_potter.Executor.Cursors.{effect_count, effect_at_cursor}
use rust_game_harry_potter.Executor.Stun
use rust_game_harry_potter.Executor.Machine.{
  Context, Machine, with_table, max_execution_steps, max_effect_outcomes, enqueue_copied_effects,
  enqueue_reactions,
}
use rust_game_harry_potter.Executor.Machine.Bonuses.{enqueue_other_ally_bonuses}
use rust_game_harry_potter.Executor.Machine.Abilities.{enqueue_hero_abilities}
use rust_game_harry_potter.Executor.Machine.Defeats.{enqueue_defeated_villains}
use rust_game_harry_potter.Executor.Machine.Definitions.{execute_definition}
use rust_game_harry_potter.Executor.Machine.Definitions.Choosing.{
  Step, execute_choice, execute_stun_choice,
}

pub record EffectResolution : Type 0 where
  pub outcomes : List EffectOutcome
  pub stop : EffectStop
  pub rolls_consumed : ℕ
  pub queue : List QueuedEffect

-- `QueuedEffect::actor_position`
abbrev pub position_of : QueuedEffect → ℕ
position_of (definition cursor position) = position
position_of (queued_choice cursor position) = position
position_of (finish_stun cursor position) = position
position_of (stun_choice cursor position) = position

-- `let EffectDefinition::Choice { options, .. } = ... else`
abbrev pub options_of : EffectDefinition → Option ℕ
options_of (EffectDefinition.choice audience options) = some (effect_count options)
options_of _ = none

abbrev pub with_queue : List QueuedEffect → EffectStop → EffectStop
with_queue queue (EffectStop.choice pending) =
    EffectStop.choice
      (record pending { continuation = record pending.continuation { queue = queue } })
with_queue queue stop = stop

module _ {S : Type 0} where
  -- The resolution, with the table that the source writes in place.
  unfoldable pub finish : EffectStop → Machine S → EffectResolution × Machine S
  finish stop m = (
    record {
      outcomes = m.table.outcomes;
      stop = with_queue m.queue stop;
      rolls_consumed = m.table.rolls_consumed;
      queue = m.queue;
    },
    m,
  )

  -- One effect from the queue.
  unfoldable pub execute_queued :
      EffectRoller S → Context → QueuedEffect → Machine S → Outcome (Step S)
  execute_queued random c (definition cursor position) m = do
    effect ← ok_or (effect_at_cursor c.rules cursor) invalid_definition
    execute_definition random c cursor position effect m
  execute_queued random c (queued_choice cursor position) m = do
    effect ← ok_or (effect_at_cursor c.rules cursor) invalid_definition
    count ← ok_or (options_of effect) invalid_definition
    execute_choice c cursor position count m
  execute_queued random c (finish_stun cursor position) m = do
    t ← Stun.finish_stun m.table
    ok (with_table m t, none)
  execute_queued random c (stun_choice cursor position) m = execute_stun_choice c cursor position m

  -- What an executed effect leads to.
  unfoldable pub follow_up : Context → ℕ → ℕ → Machine S → Outcome (Machine S)
  follow_up c start position m = do
    defeats ← enqueue_defeated_villains c position m
    copied ← enqueue_copied_effects start defeats
    reacted ← enqueue_reactions c start copied
    bonus ← enqueue_other_ally_bonuses c start reacted
    done ← enqueue_hero_abilities c start bonus
    ensure (not (ltb max_effect_outcomes (length done.table.outcomes))) step_limit_exceeded
    ok done

  -- One round of the loop, once the effect is off the queue.
  unfoldable pub round : EffectRoller S → Context → QueuedEffect → Machine S → Outcome (Step S)
  unfolding execute_queued follow_up
  round random c queued m = do
    ensure (not (ltb max_execution_steps m.steps)) step_limit_exceeded
    done ← execute_queued random c queued m
    next ← follow_up c (length m.table.outcomes) (position_of queued) done.0
    ok (next, done.1)

  -- `while let Some(queued) = self.queue.pop_front()`
  unfoldable pub run_loop :
      EffectRoller S
      → ℕ
      → Context
      → Machine S
      → Result (Fault EffectExecutionError) (EffectResolution × Machine S)
  unfolding round finish
  run_loop random zero c m = err out_of_fuel
  run_loop random (suc fuel) c m = elim m.queue [
    | [] ↦ ok (finish EffectStop.stable m)
    | queued ∷ queue ↦ do
      done ← raise (round random c queued (record m { queue = queue; steps = suc m.steps }))
      elim done.1 [ some stop ↦ ok (finish stop done.0) | none ↦ run_loop random fuel c done.0 ]
  ]

  -- What the initial outcomes lead to.
  unfoldable pub start : Context → Machine S → Outcome (Machine S)
  start c m = do
    copied ← enqueue_copied_effects 0 m
    reacted ← enqueue_reactions c 0 copied
    bonus ← enqueue_other_ally_bonuses c 0 reacted
    able ← enqueue_hero_abilities c 0 bonus
    enqueue_defeated_villains c c.actor_position able

  unfoldable pub run :
      EffectRoller S
      → Context
      → Machine S
      → Result (Fault EffectExecutionError) (EffectResolution × Machine S)
  unfolding run_loop start
  run random c m = do
    begun ← raise (start c m)
    run_loop random (suc (max_execution_steps - begun.steps)) c begun
