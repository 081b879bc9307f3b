-- ===== src/Executor/Machine/Reveals.antt =====
-- The limit on attack and the revealed card (crates/game-domain/src/effects/game_three.rs).
use rust_game_harry_potter.Base.{
  ℕ, ◌+◌, String, Bool, not, Option, none, some, List, [], ◌∷◌, map, nat_eq, string_eq, option_eq,
  if◌then◌else◌, ltb, ok, ◌>>=◌, ◌>>◌, ensure, ok_or, is_none,
}
use rust_game_harry_potter.Effects.Zones.{
  EffectZone, zone_eq, resource_eq, hero_draw_pile, hero_discard_pile, active_villains,
}
use rust_game_harry_potter.Effects.Entities.{EffectEntity}
use rust_game_harry_potter.Effects.Rules.{card_type_eq}
use rust_game_harry_potter.Effects.Outcomes.{
  no_op, top_card_revealed, no_eligible_target, EffectRoller, invalid_definition,
}
use rust_game_harry_potter.Effects.Choices.{EffectPathSegment, EffectCursor, definition, EffectStop}
use rust_game_harry_potter.World.Store.{entity, entities_in, id_of, top_card_id}
use rust_game_harry_potter.World.Moves.{Outcome}
use rust_game_harry_potter.Executor.Selectors.{within}
use rust_game_harry_potter.Executor.Cursors.{child}
use rust_game_harry_potter.Executor.Stun.{Table}
use rust_game_harry_potter.Executor.TurnStates.{change_turn_state}
use rust_game_harry_potter.Executor.Draw.{log, move_entity, refill_shuffled_pile}
use rust_game_harry_potter.Executor.Machine.{Machine, with_table, push_front}
use rust_game_harry_potter.Executor.Machine.Abilities.{least_limit}

-- `and_then(|(_, card)| card.influence_cost).unwrap_or(0)`
abbrev pub cost_of : Option (EffectZone × EffectEntity) → ℕ
cost_of none = 0
cost_of (some (z, card)) = elim card.influence_cost [ none ↦ 0 | some amount ↦ amount ]

module _ {S : Type 0} where
  unfoldable pub limit_villains : String → ℕ → List String → Table S → Outcome (Table S)
  limit_villains rule_id maximum [] t = ok t
  limit_villains rule_id maximum (id ∷ ids) t = do
    found ← ok_or (entity t.world id) invalid_definition
    state ← ok_or found.1.turn_state invalid_definition
    u ←
        change_turn_state id rule_id
          (record state { attack_limit = some (least_limit state.attack_limit maximum) }) t
    limit_villains rule_id maximum ids u

  unfoldable pub limit_villain_attack :
      EffectCursor → ℕ → Machine S → Outcome (Machine S × Option EffectStop)
  unfolding limit_villains
  limit_villain_attack cursor maximum m = do
    ensure (within 1 16 maximum) invalid_definition
    t ←
        limit_villains cursor.rule_id maximum
          (map id_of (entities_in m.table.world active_villains)) m.table
    ok (with_table m t, none)

  -- The refill of an empty pile at the start of a revelation.
  unfoldable pub refill_if :
      EffectRoller S
      → Bool
      → Option ℕ
      → EffectZone
      → EffectZone
      → String
      → Table S
      → Outcome (Table S)
  refill_if random empty owner from to rule_id t = if not empty then ok t else do
    run ← refill_shuffled_pile random owner from to rule_id t
    ok (record run.0 { rolls_consumed = run.0.rolls_consumed + run.1 })

  unfoldable pub reveal_top_card :
      EffectRoller S → EffectCursor → ℕ → ℕ → Machine S → Outcome (Machine S × Option EffectStop)
  unfolding refill_if
  reveal_top_card random cursor position least m = do
    t ←
        refill_if random (is_none (top_card_id m.table.world position hero_draw_pile))
          (some position) hero_discard_pile hero_draw_pile cursor.rule_id m.table
    elim (top_card_id t.world position hero_draw_pile) [
      | none ↦ ok (with_table m (log (no_op cursor.rule_id no_eligible_target ∷ []) t), none)
      | some id ↦
          let shown = log (top_card_revealed cursor.rule_id id position ∷ []) t in
          if ltb (cost_of (entity t.world id)) least then ok (with_table m shown, none) else do
            gone ← move_entity id cursor.rule_id hero_discard_pile shown
            ok (
              push_front (definition (child cursor EffectPathSegment.revealed_card_effect) position)
                  (with_table m gone.0),
              none,
            )
    ]
