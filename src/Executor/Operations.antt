-- ===== src/Executor/Operations.antt =====
-- The operations of a card effect, all together (`apply_operation` of
-- crates/game-domain/src/effects.rs, with effects/game_two.rs and effects/game_three.rs).
use rust_game_harry_potter.Base.{
  ℕ, String, Bool, ◌&&◌, Option, none, some, [], ◌∷◌, ◌==◌, nat_eq, string_eq, option_eq,
  if◌then◌else◌, ok, ◌>>=◌, ◌>>◌, ensure, ok_or, find_last, is_none,
}
use rust_game_harry_potter.Base.Text.{join, decimal}
use rust_game_harry_potter.Effects.Zones.{zone_eq, hero_discard_pile, hero_play_area, influence}
use rust_game_harry_potter.Effects.Entities.{EffectEntity}
use rust_game_harry_potter.Effects.Rules.{pos, card_type_eq, ally, spell, EffectOperation}
use rust_game_harry_potter.Effects.Outcomes.{ally_copied, invalid_definition, EffectRoller}
use rust_game_harry_potter.World.Store.{entity, entities_in, owned_by}
use rust_game_harry_potter.World.Moves.{Outcome}
use rust_game_harry_potter.Executor.Abilities.{card_type}
use rust_game_harry_potter.Executor.Stun.{Table, modify_entity_resource}
use rust_game_harry_potter.Executor.Apply.{record_copy}
use rust_game_harry_potter.Executor.TurnStates.{suppress_villain}
use rust_game_harry_potter.Executor.Draw.{
  EffectSource, log, move_entity, draw_cards, modify_resource, gain_influence_and_health,
  prevent_drawing, gain_attack_per_ally, gain_influence_and_draw,
}

abbrev pub voluntary_discard : String
voluntary_discard = "system:voluntary-discard"

-- A played card of the owner that the rule belongs to and that copies nothing yet.
abbrev pub may_copy : ℕ → String → EffectEntity → Bool
may_copy owner rule_id card =
    owned_by (some owner) card && card.effect_rule_id == some rule_id && is_none card.copied_ally_id

module _ {S : Type 0} where
  unfoldable pub copy_played_ally : String → EffectSource → Table S → Outcome (Table S × Option ℕ)
  copy_played_ally ally_id source t = do
    found ← ok_or (entity t.world ally_id) invalid_definition
    ensure (found.0 == hero_play_area && card_type found.1 source.rules == some ally)
        invalid_definition
    owner ← ok_or found.1.owner_position invalid_definition
    card ←
        ok_or (find_last (may_copy owner source.rule_id) (entities_in t.world hero_play_area))
          invalid_definition
    w ← record_copy source.rule_id card.id ally_id owner t.world
    ok (log (ally_copied source.rule_id card.id ally_id owner ∷ []) (record t { world = w }), none)

  unfoldable pub discard_for_spell_bonus :
      String → EffectSource → ℕ → Table S → Outcome (Table S × Option ℕ)
  discard_for_spell_bonus entity_id source bonus t = do
    found ← ok_or (entity t.world entity_id) invalid_definition
    owner ← ok_or found.1.owner_position invalid_definition
    discarded ← move_entity entity_id voluntary_discard hero_discard_pile t
    if card_type found.1 source.rules == some spell
        then (modify_entity_resource (join "hero:" (decimal owner)) source.rule_id influence
              (pos bonus) discarded.0
            >>= λ gained. ok (gained.0, none))
        else ok (discarded.0, none)

  unfoldable pub apply_operation :
      EffectRoller S
      → String
      → EffectSource
      → EffectOperation
      → Table S
      → Outcome (Table S × Option ℕ)
  unfolding copy_played_ally discard_for_spell_bonus
  apply_operation random id source (EffectOperation.gain_influence_and_draw gained cards) t =
      gain_influence_and_draw random id source gained cards t
  apply_operation random id source EffectOperation.suppress_villain t = suppress_villain id source t
  apply_operation random id source (EffectOperation.discard_for_spell_bonus bonus) t =
      discard_for_spell_bonus id source bonus t
  apply_operation random id source (EffectOperation.gain_influence_and_health gained healed) t =
      gain_influence_and_health id source gained healed t
  apply_operation random id source EffectOperation.discard_voluntarily t =
      move_entity id voluntary_discard hero_discard_pile t
  apply_operation random id source EffectOperation.copy_played_ally t = copy_played_ally id source t
  apply_operation random id source (EffectOperation.gain_attack_per_ally_played amount) t =
      gain_attack_per_ally id source amount t
  apply_operation random id source EffectOperation.prevent_drawing t =
      prevent_drawing id source.rule_id t
  apply_operation random id source (EffectOperation.draw amount) t =
      draw_cards random id source amount t
  apply_operation random id source EffectOperation.discard t =
      move_entity id source.rule_id hero_discard_pile t
  apply_operation random id source (EffectOperation.modify_resource r amount) t =
      modify_resource id source r amount t
  apply_operation random id source (EffectOperation.move to) t = move_entity id source.rule_id to t
