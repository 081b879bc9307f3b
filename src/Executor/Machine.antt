-- ===== src/Executor/Machine.antt =====
-- The executor: its state, and what it enqueues after a step (`EffectExecutor` of
-- crates/game-domain/src/effects.rs, with effects/game_two.rs, effects/game_three.rs and
-- effects/game_four.rs).
pub mod Bonuses
pub mod Abilities
pub mod Reveals
pub mod Defeats
pub mod Definitions
pub mod Run
use rust_game_harry_potter.Base.{
  ℕ, zero, suc, ◌+◌, String, Bool, true, false, ◌&&◌, ◌||◌, not, Option, none, some, List, [], ◌∷◌,
  ◌++◌, ◌==◌, if◌then◌else◌, ltb, Result, ok, err, ◌>>=◌, ◌>>◌, ensure, ok_or, length,
}
use mathlib.Core.Option
use rust_game_harry_potter.Effects.Entities.{EffectEntity}
use rust_game_harry_potter.Effects.Zones.{EffectZone}
use rust_game_harry_potter.Effects.Rules.{EffectRule}
use rust_game_harry_potter.Effects.Outcomes.{
  EffectOutcome, ally_copied, EffectRoller, invalid_definition, step_limit_exceeded,
}
use rust_game_harry_potter.Effects.Choices.{EffectCursor, QueuedEffect, definition}
use rust_game_harry_potter.World.Store.{EffectWorld, entity}
use rust_game_harry_potter.World.Moves.{Outcome}
use rust_game_harry_potter.Executor.Stun.{Table}
use rust_game_harry_potter.Executor.Cursors.{root}
use rust_game_harry_potter.Executor.Reactions.{react_all}

pub record EffectTargetBinding : Type 0 where
  pub selector_id : String
  pub target_ids : List String

-- The fields of the executor that do not change.
pub record Context : Type 0 where
  pub actor_position : ℕ
  pub rules : List EffectRule
  pub target_bindings : List EffectTargetBinding
  pub require_named_target_bindings : Bool

-- The fields that do: the table with its records and random source, the queue and the steps taken.
pub record Machine (S : Type 0) : Type 0 where
  pub table : Table S
  pub queue : List QueuedEffect
  pub steps : ℕ

abbrev pub max_execution_steps : ℕ
max_execution_steps = 4096

abbrev pub max_effect_outcomes : ℕ
max_effect_outcomes = 4096

-- `&self.outcomes[start..]`
abbrev pub skip {ℓ} : {A : Type ℓ} → ℕ → List A → List A
skip zero xs = xs
skip (suc n) [] = []
skip (suc n) (x ∷ xs) = skip n xs

-- The effects of the allies that were copied.
unfoldable pub copied_effects : EffectWorld → List EffectOutcome → Outcome (List QueuedEffect)
copied_effects w [] = ok []
copied_effects w (ally_copied rule_id card ally owner ∷ outcomes) = do
  rest ← copied_effects w outcomes
  found ← ok_or (entity w ally) invalid_definition
  rule ← ok_or found.1.effect_rule_id invalid_definition
  ok (definition (root rule) owner ∷ rest)
copied_effects w (_ ∷ outcomes) = copied_effects w outcomes

module _ {S : Type 0} where
  -- The outcomes recorded from an index on.
  abbrev pub since : ℕ → Machine S → List EffectOutcome
  since start m = skip start m.table.outcomes

  abbrev pub with_table : Machine S → Table S → Machine S
  with_table m t = record m { table = t }

  abbrev pub push_front : QueuedEffect → Machine S → Machine S
  push_front q m = record m { queue = q ∷ m.queue }

  -- `for item in items.into_iter().rev() { queue.push_front(item) }`
  abbrev pub push_front_all : List QueuedEffect → Machine S → Machine S
  push_front_all qs m = record m { queue = qs ++ m.queue }

  unfoldable pub enqueue_copied_effects : ℕ → Machine S → Outcome (Machine S)
  unfolding copied_effects
  enqueue_copied_effects start m = do
    effects ← copied_effects m.table.world (since start m)
    ok (push_front_all effects m)

  unfoldable pub enqueue_reactions : Context → ℕ → Machine S → Outcome (Machine S)
  enqueue_reactions c start m = do
    reactions ← react_all c.actor_position m.table.world c.rules (since start m)
    ensure (not (ltb max_execution_steps (length reactions + length m.queue))) step_limit_exceeded
    ok (push_front_all reactions m)
